-- ===== src/Examples/Subjects.antt =====
-- The data of the ESC subject, also for a concrete robot.
use msde_robotics.Prelude.{ℕ, ◌≡◌, List, [], ◌∷◌, some, map, true, false}
use msde_robotics.Prelude.Int.{ℤ, neg, signed}
use msde_robotics.Wire.Bytes.{Float}
use msde_robotics.Robot.Devices.{controllable}
use msde_robotics.Server.Subjects.{Kept, subject_data}
use msde_robotics.Server.Subjects.Speeds.{IsLimited, revolutions, subject_data-esc_speed}
use msde_robotics.Robot.Machine.{Robot, new_robot}
use msde_robotics.Examples.Machine.{whole_math, memory}
use msde_robotics.Commands.Subjects.Layout.{read_each}

-- Two right wheels at 100, two left ones at 200 and at 9000, which is above the limit.
abbrev rolling : Robot
unfolding new_robot controllable
rolling =
    let still = new_robot whole_math memory (record {
      has_arm = false;
      has_gripper = false;
      has_servo = [];
      has_gimbal = false;
      has_camera = false;
      has_tof = false;
    }) in
    record still {
      chassis = record still.chassis {
        wheel_speeds =
            controllable
              (record { front_left = 200; front_right = 100; rear_left = 9000; rear_right = 100 });
      };
    }

abbrev kept : Kept
kept = record {
  sa_status = record {
    static_flag = false;
    up_hill = false;
    down_hill = false;
    on_slope = false;
    is_pick_up = true;
    slip_flag = false;
    impact_x = true;
    impact_y = false;
    impact_z = false;
    roll_over = false;
    hill_static = false;
  };
  sbus = record { connect_status = 1; subs_channel = 5 ∷ [] };
  tof = [];
  gimbal_pos = record {
    yaw_ground_angle = 0;
    pitch_ground_angle = 0;
    yaw_angle = 0;
    pitch_angle = 0;
    option_mode = 1;
    return_center = 0;
  };
}

subject_data-esc_speed_example :
    let speeds = rolling.chassis.wheel_speeds.current in
    let limited = λ (speed : Float) (z : ℤ). IsLimited (revolutions whole_math speed) z in
    (values rest : List ℕ) × (a b c d : ℤ) × (read_each 2 4
        (subject_data whole_math kept rolling 0x00020009c14cb7c5)
      ≡ some (values, rest))
    × (map (signed 16) values ≡ a ∷ neg b ∷ neg c ∷ d ∷ [])
    × limited speeds.front_right a
    × limited speeds.front_left b
    × limited speeds.rear_left c
    × limited speeds.rear_right d
subject_data-esc_speed_example = subject_data-esc_speed whole_math kept rolling
