-- ===== src/Commands/Subjects.antt =====
-- robomaster_sim/include/command_subjects.hpp: the data of the subjects, as their `encode` functions
-- lay them out. A signed field is its bit pattern, and a float its 32 bits.
pub mod Layout
use msde_robotics.Prelude.{
  ℕ, zero, suc, ◌+◌, ◌-◌, ◌*◌, ◌/◌, ◌%◌, ◌^◌, List, [], ◌∷◌, ◌++◌, Bool, if◌then◌else◌, set,
  replicate, bit_and, bit_or,
}
use msde_robotics.Wire.Bytes.{write, Float}
use msde_robotics.Messages.Replies.{write_at}

-- `write<T>(buffer, start + width * i, values[i])` for each value.
unfoldable pub write_each : ℕ → ℕ → List ℕ → List ℕ → List ℕ
write_each width start [] buffer = buffer
write_each width start (v ∷ values) buffer =
    write_each width (start + width) values (write_at buffer start (write width v))

pub record Velocity : Type 0 where
  pub vgx : Float
  pub vgy : Float
  pub vgz : Float
  pub vbx : Float
  pub vby : Float
  pub vbz : Float

unfoldable pub encode_velocity : Velocity → List ℕ
unfolding write_each
encode_velocity s =
    write_each 4 0 (s.vgx ∷ s.vgy ∷ s.vgz ∷ s.vbx ∷ s.vby ∷ s.vbz ∷ []) (replicate (4 * 6) 0)

pub record Position : Type 0 where
  pub position_x : Float
  pub position_y : Float
  pub position_z : Float

unfoldable pub encode_position : Position → List ℕ
unfolding write_each
encode_position s =
    write_each 4 0 (s.position_x ∷ s.position_y ∷ s.position_z ∷ []) (replicate (4 * 3) 0)

pub record AttiInfo : Type 0 where
  pub yaw : Float
  pub pitch : Float
  pub roll : Float

unfoldable pub encode_atti_info : AttiInfo → List ℕ
unfolding write_each
encode_atti_info s = write_each 4 0 (s.yaw ∷ s.pitch ∷ s.roll ∷ []) (replicate (4 * 3) 0)

pub record ChassisMode : Type 0 where
  pub mis_cur_type : ℕ
  pub sdk_cur_type : ℕ

unfoldable pub encode_chassis_mode : ChassisMode → List ℕ
encode_chassis_mode s = s.mis_cur_type ∷ s.sdk_cur_type ∷ []

-- Each list has four elements, one for each wheel.
pub record Esc : Type 0 where
  pub speed : List ℕ
  pub angle : List ℕ
  pub timestamp : List ℕ
  pub state : List ℕ

unfoldable pub encode_esc : Esc → List ℕ
unfolding write_each
encode_esc s = write_each 1 32 s.state (
    write_each 4 16 s.timestamp
      (write_each 2 8 s.angle (write_each 2 0 s.speed (replicate (4 * (2 + 2 + 4 + 1)) 0))))

pub record Imu : Type 0 where
  pub acc_x : Float
  pub acc_y : Float
  pub acc_z : Float
  pub gyro_x : Float
  pub gyro_y : Float
  pub gyro_z : Float

unfoldable pub encode_imu : Imu → List ℕ
unfolding write_each
encode_imu s =
    write_each 4 0 (s.acc_x ∷ s.acc_y ∷ s.acc_z ∷ s.gyro_x ∷ s.gyro_y ∷ s.gyro_z ∷ [])
      (replicate (4 * 6) 0)

pub record SaStatus : Type 0 where
  pub static_flag : Bool
  pub up_hill : Bool
  pub down_hill : Bool
  pub on_slope : Bool
  pub is_pick_up : Bool
  pub slip_flag : Bool
  pub impact_x : Bool
  pub impact_y : Bool
  pub impact_z : Bool
  pub roll_over : Bool
  pub hill_static : Bool

-- `flag << place`
unfoldable pub at_bit : ℕ → Bool → ℕ
at_bit place flag = (if flag then 1 else 0) * 2 ^ place

unfoldable pub encode_sa_status : SaStatus → List ℕ
unfolding at_bit
encode_sa_status s =
    let byte1 =
      bit_or
        (bit_or
          (bit_or
            (bit_or
              (bit_or
                (bit_or (bit_or (at_bit 0 s.static_flag) (at_bit 1 s.up_hill))
                  (at_bit 2 s.down_hill))
                (at_bit 3 s.on_slope))
              (at_bit 4 s.is_pick_up))
            (at_bit 5 s.slip_flag))
          (at_bit 6 s.impact_x))
        (at_bit 7 s.impact_y) in
    let byte2 =
      bit_or (bit_or (at_bit 0 s.impact_z) (at_bit 1 s.roll_over)) (at_bit 2 s.hill_static) in
    (byte1 % 256) ∷ (byte2 % 256) ∷ []

-- `update` leaves the sixteen channels uninitialised.
pub record Sbus : Type 0 where
  pub connect_status : ℕ
  pub subs_channel : List ℕ

unfoldable pub encode_channels : List ℕ → List ℕ
encode_channels [] = []
encode_channels (c ∷ cs) = write 2 c ++ encode_channels cs

unfoldable pub encode_sbus : Sbus → List ℕ
unfolding encode_channels
encode_sbus s = s.connect_status ∷ encode_channels s.subs_channel

pub record Battery : Type 0 where
  pub adc_value : ℕ
  pub temperature : ℕ
  pub current : ℕ
  pub percent : ℕ

unfoldable pub encode_battery : Battery → List ℕ
encode_battery s =
    set
      (write_at
        (write_at
          (write_at (write_at (replicate 10 0) 0 (write 2 s.adc_value)) 2 (write 2 s.temperature)) 4
          (write 4 s.current))
        8 (write 1 s.percent))
      9 1

-- The values that `update` always sets; the current is -1234.
pub battery : Battery
battery = record { adc_value = 10987; temperature = 321; current = 2 ^ 32 - 1234; percent = 88 }

unfoldable pub encode_gripper : ℕ → List ℕ
encode_gripper status = status ∷ []

unfoldable pub encode_arm : ℕ → ℕ → List ℕ
encode_arm pos_x pos_y = write_at (write_at (replicate 9 0) 1 (write 4 pos_x)) 5 (write 4 pos_y)

-- Each list has four elements.
pub record ServoData : Type 0 where
  pub valid : List ℕ
  pub speed : List ℕ
  pub angle : List ℕ

-- The sum of `valid[i] << i`, which the first byte accumulates.
unfoldable pub valid_mask : ℕ → List ℕ → ℕ
valid_mask i [] = 0
valid_mask i (v ∷ vs) = v * 2 ^ i + valid_mask (suc i) vs

unfoldable pub encode_servo : ServoData → List ℕ
unfolding write_each valid_mask
encode_servo s =
    set (write_each 2 9 s.angle (write_each 2 1 s.speed (replicate (4 * 4 + 1) 0))) 0
      (valid_mask 0 s.valid % 256)

pub record ToFData : Type 0 where
  pub cmd_id : ℕ
  pub direct : ℕ
  pub flag : ℕ
  pub distance : ℕ

-- The loop from sensor `i` on; the distance is big-endian.
unfoldable pub encode_tof_from : ℕ → List ToFData → List ℕ → List ℕ
encode_tof_from i [] buffer = buffer
encode_tof_from i (s ∷ rest) buffer = encode_tof_from (suc i) rest (
    write_at buffer (i * 5) (
      s.cmd_id
      ∷ s.direct
      ∷ s.flag
      ∷ bit_and (s.distance / 2 ^ 8) 0xff
      ∷ bit_and s.distance 0xff
      ∷ []))

unfoldable pub encode_tof : List ToFData → List ℕ
unfolding encode_tof_from
encode_tof sensors = encode_tof_from 0 sensors (replicate (4 * 5 + 1) 0)

pub record GimbalPos : Type 0 where
  pub yaw_ground_angle : ℕ
  pub pitch_ground_angle : ℕ
  pub yaw_angle : ℕ
  pub pitch_angle : ℕ
  pub option_mode : ℕ
  pub return_center : ℕ

unfoldable pub encode_gimbal_pos : GimbalPos → List ℕ
unfolding write_each
encode_gimbal_pos s =
    set
      (write_each 2 0 (s.yaw_ground_angle ∷ s.pitch_ground_angle ∷ s.yaw_angle ∷ s.pitch_angle ∷ [])
        (replicate 9 0))
      8 (bit_or (s.return_center * 2 ^ 2) s.option_mode % 256)

-- `count` adapters from number `i` on, with the constant values.
unfoldable pub encode_adapters : ℕ → ℕ → List ℕ → List ℕ
encode_adapters zero i buffer = buffer
encode_adapters (suc count) i buffer = encode_adapters count (suc i) (
    write_at (write_at (set (set buffer (6 * i) 0) (6 * i + 1) 0) (6 * i + 2) (write 2 548))
      (6 * i + 4) (write 2 548))

unfoldable pub encode_adapter : List ℕ
unfolding encode_adapters
encode_adapter = encode_adapters 6 0 (replicate 36 0)
