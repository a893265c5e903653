-- ===== src/Robot/Moves/Laws.antt =====
-- The time limit of the servo's action.
use msde_robotics.Prelude.{
  ◌≡◌, ◌⊎◌, inl, inr, refl, List, [], ◌∷◌, ◌++◌, true, if◌then◌else◌, Bool-cases, arith,
}
use msde_robotics.Wire.Bytes.{Float}
use msde_robotics.Robot.Platform.{zero_f}
use msde_robotics.Robot.Maths.{Math}
use msde_robotics.Robot.Action.{running, Action, done}
use msde_robotics.Robot.Servos.{Servo}
use msde_robotics.Robot.Moves.{MoveServo, begun, step_move_servo_on}

module _ (m : Math) where
  open m use {fp}
  open fp use {sub, lt}

  -- Steps until the action is done, each with the servo as it then is.
  unfoldable pub run : List (Float × Servo) → Action MoveServo → Action MoveServo
  run [] a = a
  run ((time_step, s) ∷ rest) a =
      let later = run rest (step_move_servo_on m time_step a s).0 in if done a then a else later

  unfoldable pub time_after : List (Float × Servo) → Float → Float
  time_after [] v = v
  time_after ((time_step, s) ∷ rest) v = time_after rest (sub v time_step)

  Goes : Float → Action MoveServo → Type 0
  Goes left a = (begun a.state ≡ running) × (a.body.time_left ≡ left)

  step-Goes :
      (time_step : Float) (s : Servo) (a : Action MoveServo)
      → begun a.state ≡ running
      → let a' = (step_move_servo_on m time_step a s).0 in
        (done a' ≡ true) ⊎ Goes (sub a.body.time_left time_step) a'
  unfolding step_move_servo_on done Goes
  step-Goes time_step s a h = ground arith

  step_late :
      (time_step : Float) (s : Servo) (a : Action MoveServo)
      → begun a.state ≡ running
      → lt a.body.time_left zero_f ≡ true
      → done (step_move_servo_on m time_step a s).0 ≡ true
  unfolding step_move_servo_on done
  step_late time_step s a h e = ground arith

  run-done : (steps : List (Float × Servo)) (a : Action MoveServo) → done a ≡ true → run steps a ≡ a
  unfolding run
  run-done [] a h = refl
  run-done ((time_step, s) ∷ rest) a h = rw h refl

  -- A servo's action that was started is done after any steps that use up its time and one more,
  -- wherever the servo is in each of them.
  pub run-time_after :
      (steps : List (Float × Servo)) (last : Float) (s : Servo) (a : Action MoveServo)
      → begun a.state ≡ running
      → lt (time_after steps a.body.time_left) zero_f ≡ true
      → done (run (steps ++ (last, s) ∷ []) a) ≡ true
  unfolding run time_after Goes
  run-time_after [] last s a h e = elim (Bool-cases (done a)) [
    | inl d ↦ simp d refl
    | inr d ↦ simp d (step_late last s a h e)
  ]
  run-time_after ((time_step, t) ∷ rest) last s a h e =
      let a' = (step_move_servo_on m time_step a t).0 in
      elim (Bool-cases (done a)) [
        | inl d ↦ simp d refl
        | inr d ↦ elim (step-Goes time_step t a h) [
          | inl d' ↦ simp (d, run-done (rest ++ (last, s) ∷ []) a' d') d'
          | inr (goes, left) ↦ simp d (run-time_after rest last s a' goes (rw left e))
        ]
      ]
