-- ===== src/Robot/Devices.antt =====
-- robomaster_sim: the small parts of the robot. `ControllableValue` of include/utils.hpp, the vision
-- and distance sensors of include/robot, and the `check` functions of the lights.
pub mod Laws
use msde_robotics.Prelude.{
  ℕ, ◌+◌, ◌*◌, ◌/◌, ◌%◌, ◌-◌, ◌^◌, Bool, true, false, not, ◌&&◌, ◌||◌, List, [], ◌∷◌, ltb, ◌==◌,
  if◌then◌else◌, set, bit_and, bit_or,
}
use msde_robotics.Wire.Bytes.{Float}

pub record ControllableValue (T : Type 0) : Type 0 where
  pub current : T
  pub target : T
  pub desired : T
  pub initialized : Bool

pub data ValueType : Type 0 where
  current target desired : ValueType

module _ {T : Type 0} where
  unfoldable pub controllable : T → ControllableValue T
  controllable value = record {
    current = value;
    target = value;
    desired = value;
    initialized = false;
  }

  unfoldable pub set_target : T → ControllableValue T → ControllableValue T
  set_target value c = record c { desired = value }

  unfoldable pub set_value : ValueType → T → ControllableValue T → ControllableValue T
  set_value current value c = record c { current = value }
  set_value target value c = record c { target = value }
  set_value desired value c = record c { desired = value }

  unfoldable pub get_value : ValueType → ControllableValue T → T
  get_value current c = c.current
  get_value target c = c.target
  get_value desired c = c.desired

  -- `differ` is the type's `!=`.
  unfoldable pub check : (T → T → Bool) → ControllableValue T → ControllableValue T × Bool
  check differ c =
      if differ c.target c.desired || not c.initialized
      then (record c { target = c.desired; initialized = true }, true)
      else (c, false)

-- The detectors' numbers in `DetectedObjects::Type`.
pub data Detector : Type 0 where
  person gesture line marker robot : Detector

unfoldable pub detector_type : Detector → ℕ
detector_type person = 1
detector_type gesture = 2
detector_type line = 4
detector_type marker = 5
detector_type robot = 7

-- `Vision::is_enabled`, on the field `enabled`.
unfoldable pub is_enabled : Detector → ℕ → Bool
unfolding detector_type
is_enabled detector enabled = not (bit_and (2 ^ detector_type detector) enabled == 0)

-- `Vision::set_enable`; `value` is a `uint8_t`.
unfoldable pub set_enable : ℕ → ℕ → ℕ
set_enable value enabled =
    if not (value == 0) && not (enabled == 0)
    then enabled
    else if not (value == 0)
        && not (value == 2)
        && not (value == 4)
        && not (value == 8)
        && not (value == 16)
        && not (value == 32)
        && not (value == 128)
    then enabled
    else value

pub record ToFReading : Type 0 where
  pub distance : Float
  pub active : Bool

-- `ToF::set_enable`, on the four readings; the update of one reading.
set_active : List ToFReading → ℕ → Bool → List ToFReading
set_active [] index value = []
set_active (r ∷ rest) index value =
    if index == 0 then record r { active = value } ∷ rest else r ∷ set_active rest (index - 1) value

unfoldable pub set_enable_tof : ℕ → Bool → List ToFReading → List ToFReading × Bool
unfolding set_active
set_enable_tof index value readings =
    if ltb index 4 then (set_active readings index value, true) else (readings, false)

-- `ActiveLED::check`, on the field `changed`, and `CompositeLED::check`, whose lights have a bit each.
unfoldable pub check_led : ℕ → ℕ × Bool
check_led changed = (0, not (changed == 0))

unfoldable pub check_composite_led : ℕ → ℕ → ℕ × Bool
check_composite_led index changed =
    let value = not (bit_and changed (2 ^ index) == 0) in
    (
      bit_or (bit_and changed (2 ^ 32 - 1 - 2 ^ index)) ((if value then 1 else 0) * 2 ^ index),
      value,
    )
