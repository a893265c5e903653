-- ===== src/Robot/Schedule/Bounds.antt =====
-- `Robot::submit_action` of a servo's move, at the servos' indices.
use msde_robotics.Prelude.{
  ℕ, zero, suc, ◌<◌, ◌≡◌, ◌≢◌, ◌⊎◌, inl, inr, refl, List, [], ◌∷◌, Bool, none, some, get_elem?,
  length, arith, ℕ_discrete,
}
use msde_robotics.Robot.Action.{Action}
use msde_robotics.Robot.Schedule.{Schedule, submit_move_servo}

behind : (xs : List Bool) → get_elem? xs (length xs) ≡ none
behind [] = refl
behind (x ∷ xs) = behind xs

inside : (xs : List Bool) (i : ℕ) → i < length xs → (b : Bool) × (get_elem? xs i ≡ some b)
inside [] i h = absurd (omega arith)
inside (x ∷ xs) zero h = (x, refl)
inside (x ∷ xs) (suc i) h = inside xs i (omega arith)

-- submit_action of a servo's move reads the array of servos outside its bounds for exactly one
-- index, its size.
pub submit_move_servo_bounds :
    {B : Type 0} (has_servo : List Bool) (servo_id : ℕ) (action : Action B) (s : Schedule B)
    → ((servo_id ≡ length has_servo) × (submit_move_servo has_servo servo_id action s ≡ none))
      ⊎ ((servo_id ≢ length has_servo) × (submit_move_servo has_servo servo_id action s ≢ none))
unfolding submit_move_servo
submit_move_servo_bounds has_servo servo_id action s =
    elim (ℕ_discrete servo_id (length has_servo)) [
      | yes same ↦ inl (same, ground (arith, same, behind has_servo))
      | no other ↦ inr (other, λ e. ground (arith, other, e, inside has_servo servo_id))
    ]
