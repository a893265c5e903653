-- ===== src/Plugin/Steps/Together.antt =====
-- The step of all robots of robomaster_sim/coppeliaSim_plugin/plugin.cpp.
use msde_robotics.Prelude.{
  ℕ, ◌≡◌, refl, ap, ◌⊎◌, inl, inr, List, [], ◌∷◌, ◌++◌, Option, none, some, All, All-append,
}
use msde_robotics.Wire.Bytes.{◌>>=◌, Float}
use msde_robotics.Robot.Maths.{Math}
use msde_robotics.Robot.Machine.{Robot, Readings}
use msde_robotics.Plugin.Bridge.{
  Signal, Call, set_joint_target_velocity, set_joint_target_position, set_shape_color,
  set_light_parameters, set_int32_param, set_int32_signal,
}
use msde_robotics.Plugin.Bridge.Reads.{read_scene}
use msde_robotics.Plugin.Registry.{Member, Registry}
use msde_robotics.Plugin.Callbacks.Vision.{keys}
use msde_robotics.Plugin.Steps.{Surroundings, Stepped, step_member, step_members, step_plugin}
use msde_robotics.Plugin.Steps.Forwarded.{
  Addresses, IsOwn, IsPlaced, Addressed, step_member-Addressed,
}

-- The signal of the target of one of the robots, which has a gripper.
abbrev pub IsOfOne : List (ℕ × Member) → Signal → Type 0
IsOfOne [] s = ⊥
IsOfOne ((handle, member) ∷ rest) s = IsOwn member.robot.modules member.handles s ⊎ IsOfOne rest s

one :
    (Q R : Signal → Type 0)
    → ((s : Signal) → Q s → R s)
    → (c : Call) → Addresses Q c
    → Addresses R c
one Q R w (set_joint_target_velocity h v) a = a
one Q R w (set_joint_target_position h v) a = a
one Q R w (set_shape_color h c) a = a
one Q R w (set_light_parameters h n c) a = a
one Q R w (set_int32_param h p v) a = a
one Q R w (set_int32_signal s v) a = w s a

Addresses-weaken :
    (Q R : Signal → Type 0)
    → ((s : Signal) → Q s → R s)
    → (calls : List Call) → All (Addresses Q) calls
    → All (Addresses R) calls
Addresses-weaken Q R w [] a = tt
Addresses-weaken Q R w (c ∷ cs) a = (one Q R w c a.0, Addresses-weaken Q R w cs a.1)

abbrev pub AllPlaced : List (ℕ × Member) → Type 0
AllPlaced members = All (λ (entry : ℕ × Member). IsPlaced entry.1) members

module _ (m : Math) (s : Surroundings) (time_step : Float) where
  -- What a robot reads in the step.
  abbrev pub reading : ℕ → Member → Option Readings
  reading handle member =
      read_scene m s.yaw (s.scene handle) member.handles member.sight member.robot

  -- The reading of one of the robots throws.
  abbrev pub Throws : List (ℕ × Member) → Type 0
  Throws [] = ⊥
  Throws ((handle, member) ∷ rest) = (reading handle member ≡ none) ⊎ Throws rest

  -- What the step of these robots gives.
  abbrev pub AllAddressed : List (ℕ × Member) → Option (Stepped (List (ℕ × Member))) → Type 0
  AllAddressed members none = Throws members
  AllAddressed members (some (next, calls, frames)) =
      All (Addresses (IsOfOne members)) calls × AllPlaced next × (keys next ≡ keys members)

  joined :
      (handle : ℕ) (member : Member) (rest : List (ℕ × Member)) (first : Option (Stepped Member))
      (others : Option (Stepped (List (ℕ × Member))))
      → Addressed member (reading handle member) first
      → AllAddressed rest others
      → AllAddressed
          ((handle, member) ∷ rest)
          (first >>= λ a. others >>= λ b. some ((handle, a.0) ∷ b.0, a.1 ++ b.1, a.2 ++ b.2))
  unfolding keys
  joined handle member rest none others f g = inl f
  joined handle member rest (some a) none f g = inr g
  joined handle member rest (some (next, calls, frames)) (some (nexts, more, later)) f g =
      let own = IsOwn member.robot.modules member.handles in
      let all = IsOfOne ((handle, member) ∷ rest) in
      let here = Addresses-weaken own all (λ s q. inl q) calls f.0 in
      let there = Addresses-weaken (IsOfOne rest) all (λ s q. inr q) more g.0 in
      (
        All-append (Addresses all) calls more here there,
        (f.1, g.1),
        ap (λ (ks : List ℕ). handle ∷ ks) g.2,
      )

  module _
      (keeps : (handle : ℕ) (t : Float) (v : Robot × List (List ℕ))
        → (s.interface_step handle t v).0.modules ≡ v.0.modules) where
    step_members-AllAddressed :
        (members : List (ℕ × Member))
        → AllPlaced members
        → AllAddressed members (step_members m s time_step members)
    unfolding step_members keys
    step_members-AllAddressed [] v = (tt, tt, refl)
    step_members-AllAddressed ((handle, member) ∷ rest) v =
        joined handle member rest (step_member m s time_step handle member)
          (step_members m s time_step rest)
          (step_member-Addressed m s time_step handle member v.0 (keeps handle))
          (step_members-AllAddressed rest v.1)

-- What a step of the plugin gives.
abbrev pub Completes : Math → Surroundings → Float → Registry → Option (Stepped Registry) → Type 0
Completes m s time_step st none = Throws m s time_step st.robots
Completes m s time_step st (some (next, calls, frames)) =
    All (Addresses (IsOfOne st.robots)) calls
    × AllPlaced next.robots
    × (keys next.robots ≡ keys st.robots)
    × (next.next_robot_handle ≡ st.next_robot_handle)

completed :
    (m : Math) (s : Surroundings) (time_step : Float) (st : Registry)
    (done : Option (Stepped (List (ℕ × Member))))
    → AllAddressed m s time_step st.robots done
    → Completes m s time_step st (done >>= λ a. some (record st { robots = a.0 }, a.1, a.2))
completed m s time_step st none f = f
completed m s time_step st (some (next, calls, frames)) f = (f.0, f.1, f.2, refl)

-- Where all robots of the plugin are placed and their callbacks leave their parts alone, every call of
-- a step of the plugin that changes the simulator addresses an object that was found, or sets the
-- signal of the gripper of one of the robots that has one. The robots stay placed and keep their
-- handles, and so does the next handle. The step throws only where the reading of one of the robots
-- throws.
pub step_plugin-Completes :
    (m : Math) (s : Surroundings) (time_step : Float) (st : Registry)
    → AllPlaced st.robots
    → ((handle : ℕ) (t : Float) (v : Robot × List (List ℕ))
        → (s.interface_step handle t v).0.modules ≡ v.0.modules)
    → Completes m s time_step st (step_plugin m s time_step st)
unfolding step_plugin
step_plugin-Completes m s time_step st v keeps =
    completed m s time_step st (step_members m s time_step st.robots)
      (step_members-AllAddressed m s time_step keeps st.robots v)
