-- ===== src/Robot/Sound.antt =====
-- robomaster_sim: `PlaySoundAction` of include/robot/action.hpp and src/robot/action.cpp.
use msde_robotics.Prelude.{
  ℕ, ◌+◌, ◌-◌, ◌≡◌, List, [], ◌∷◌, Bool, true, false, inl, ◌⊎◌, ◌==◌, if◌then◌else◌, arith,
}
use msde_robotics.Wire.Bytes.{Float}
use msde_robotics.Robot.Platform.{Arithmetic, zero_f, three_f}
use msde_robotics.Robot.Action.{running, succeed, undefined, Action, is_done}

pub record Sound : Type 0 where
  pub sound_id : ℕ
  pub play_times : ℕ

-- The constructor; `predicted_duration` is the constant `duration`.
pub play_sound_action : ℕ → ℕ → Action Sound
play_sound_action sound_id play_times = record {
  state = undefined;
  predicted_duration = three_f;
  remaining_duration = zero_f;
  body = record { sound_id = sound_id; play_times = play_times };
}

module _ (fp : Arithmetic) where
  open fp use {sub, lt}

  -- `play_times` is a `uint8_t` that is not 0 where it is decremented. The second result says
  -- whether the sound was started, which the source logs.
  unfoldable pub step_sound : Float → Action Sound → Action Sound × Bool
  step_sound time_step a =
      let left = sub a.remaining_duration time_step in
      if lt left zero_f
      then if a.body.play_times == 0
        then (record a { state = succeed; remaining_duration = left }, false)
        else (
          record a {
            state = running;
            remaining_duration = a.predicted_duration;
            body = record { sound_id = a.body.sound_id; play_times = a.body.play_times - 1 };
          },
          true,
        )
      else (record a { state = running; remaining_duration = left }, false)

  abbrev one_if : Bool → ℕ
  one_if true = 1
  one_if false = 0

  -- Steps until the action is done, as the robot makes them, and the number of times that the
  -- sound was started.
  unfoldable pub play : List Float → Action Sound → Action Sound × ℕ
  play [] a = (a, 0)
  play (time_step ∷ rest) a =
      let next = step_sound time_step a in
      let (last, starts) = play rest next.0 in
      if is_done next.0.state then (next.0, one_if next.1) else (last, one_if next.1 + starts)

  step_sound_starts :
      (time_step : Float) (a : Action Sound)
      → one_if (step_sound time_step a).1 + (step_sound time_step a).0.body.play_times
        ≡ a.body.play_times
  unfolding step_sound
  step_sound_starts time_step a = ground arith

  step_sound_done :
      (time_step : Float) (a : Action Sound)
      → is_done (step_sound time_step a).0.state ≡ true
      → (step_sound time_step a).0.body.play_times ≡ 0
  unfolding step_sound
  step_sound_done time_step a h = ground arith

  -- A sound action that is not done starts its sound exactly as often as its remaining
  -- play_times go down; at the end it is still not done, or it has started the sound play_times
  -- times and none is left.
  pub play_starts :
      (steps : List Float) (a : Action Sound)
      → is_done a.state ≡ false
      → ((play steps a).1 + (play steps a).0.body.play_times ≡ a.body.play_times)
        × ((is_done (play steps a).0.state ≡ false)
            ⊎ (((play steps a).1 ≡ a.body.play_times) × ((play steps a).0.body.play_times ≡ 0)))
  unfolding play
  play_starts [] a h = (omega arith, inl h)
  play_starts (time_step ∷ rest) a h = ground (
    arith,
    step_sound_starts time_step a,
    step_sound_done time_step a,
    play_starts rest (step_sound time_step a).0,
  )
