-- ===== src/Server/Answers/Motion.antt =====
-- robomaster_sim/include/command_messages.hpp: the answers to the requests that move the chassis and
-- the gimbal.
use msde_robotics.Prelude.{ℕ, Bool, true, false, not, ◌||◌, ◌==◌, if◌then◌else◌, none, some}
use msde_robotics.Prelude.Int.{ℤ, neg as int_neg}
use msde_robotics.Wire.Bytes.{Float}
use msde_robotics.Robot.Platform.{zero_f}
use msde_robotics.Robot.Maths.{Math, deg2rad, angular_speed_from_rpm}
use msde_robotics.Robot.Geometry.{Pose2D, Twist2D, WheelValues, GimbalValues}
use msde_robotics.Robot.Action.{push_freq}
use msde_robotics.Robot.Schedule.{submit_move, submit_move_gimbal}
use msde_robotics.Robot.Wheels.{set_wheel_target, set_target_velocity}
use msde_robotics.Robot.Gimbals.{Frame, chassis, fixed, gimbal, enable, set_target_speeds}
use msde_robotics.Robot.Tasks.{Task}
use msde_robotics.Robot.Moves.Base.{move_base_action}
use msde_robotics.Robot.Moves.{move_gimbal_action}
use msde_robotics.Robot.Setters.{engage_wheel_motors}
use msde_robotics.Messages.Chassis.{
  SetWheelSpeed, PositionMove, ChassisSpeedMode, ChassisSetWorkMode,
}
use msde_robotics.Messages.Gimbal.{GimbalCtrlSpeed, GimbalCtrl, GimbalRotate, GimbalRecenter}
use msde_robotics.Messages.Replies.{encode_accept}
use msde_robotics.Prelude.{◌++◌}
use msde_robotics.Server.Pushes.{new_push}
use msde_robotics.Server.World.{World, Unset, on_robot, acknowledged, start_job}
use msde_robotics.Server.Answers.System.{Reply}

unfoldable pub answer_chassis_set_work_mode : ChassisSetWorkMode → World → Reply
answer_chassis_set_work_mode request w =
    let engaged = engage_wheel_motors (not (request.mode == 0)) w.robot in
    acknowledged (record w { robot = engaged.0; outputs = w.outputs ++ engaged.1 })

-- SUSPEND and RESUME; no other code is answered.
unfoldable pub answer_gimbal_ctrl : GimbalCtrl → World → Reply
answer_gimbal_ctrl request w =
    let enabled = λ (value : Bool). on_robot (λ r. record r { gimbal = enable value r.gimbal }) w in
    if request.order_code == 0x2ab5
    then acknowledged (enabled false)
    else if request.order_code == 0x7ef2
    then acknowledged (enabled true)
    else (w, none)

-- `get_yaw_frame` and `get_pitch_frame`
unfoldable pub get_yaw_frame : ℕ → Frame
get_yaw_frame coordinate =
    if coordinate == 0 then fixed else if coordinate == 1 then gimbal else chassis

unfoldable pub get_pitch_frame : ℕ → Frame
get_pitch_frame coordinate =
    if coordinate == 0 || coordinate == 3 || coordinate == 4 then fixed else gimbal

module _ (m : Math) where
  open m use {fp, neg, mul_double, narrow, of_ℤ, double_of_ℤ}
  open fp use {add, div, of_ℕ}

  unfoldable pub answer_set_wheel_speed : SetWheelSpeed → World → Reply
  answer_set_wheel_speed request w =
      let speeds : WheelValues Float = record {
        front_left = angular_speed_from_rpm m request.w2_speed;
        front_right = angular_speed_from_rpm m request.w1_speed;
        rear_left = angular_speed_from_rpm m request.w3_speed;
        rear_right = angular_speed_from_rpm m request.w4_speed;
      } in
      acknowledged (on_robot (λ r. record r { chassis = set_wheel_target speeds r.chassis }) w)

  unfoldable pub answer_chassis_speed_mode : ChassisSpeedMode → World → Reply
  answer_chassis_speed_mode request w =
      let twist : Twist2D = record {
        x = request.x_spd;
        y = neg request.y_spd;
        theta = neg (deg2rad m request.z_spd);
      } in
      acknowledged (on_robot (λ r. record r { chassis = set_target_velocity m twist r.chassis }) w)

  -- 0x42c8_0000 is 100.0f, 0x4120_0000 is 10.0f, 0x428c_0000 is 70.0f and 0x4320_0000 is 160.0f.
  unfoldable pub position_pose : PositionMove → Pose2D
  position_pose request = record {
    x = div (of_ℤ request.pos_x) 0x42c8_0000;
    y = div (of_ℤ (int_neg request.pos_y)) 0x42c8_0000;
    theta = deg2rad m (div (of_ℤ request.pos_z) 0x4120_0000);
  }

  unfoldable pub answer_position_move : Unset → PositionMove → World → Reply
  unfolding position_pose
  answer_position_move u request w =
      let push = new_push request.request request.action_id (push_freq request.freq) u.push in
      let a =
        move_base_action m u.poses (position_pose request)
          (div (add (of_ℕ request.vel_xy_max) 0x428c_0000) 0x4320_0000)
          (deg2rad m (div (of_ℤ request.agl_omg_max) 0x4120_0000)) in
      if request.action_ctrl == 0
      then start_job Task.move_base push a submit_move w
      else (w, some (encode_accept u.reply))

  -- -deg2rad(v * 0.1)
  unfoldable pub minus_tenth : ℤ → Float
  minus_tenth v = neg (deg2rad m (narrow (mul_double (double_of_ℤ v) 0x3fb9_9999_9999_999a)))

  unfoldable pub answer_gimbal_ctrl_speed : GimbalCtrlSpeed → World → Reply
  unfolding minus_tenth
  answer_gimbal_ctrl_speed request w =
      let speeds : GimbalValues Float = record {
        yaw = minus_tenth request.yaw_speed;
        pitch = minus_tenth request.pitch_speed;
      } in
      acknowledged (on_robot (λ r. record r { gimbal = set_target_speeds m speeds r.gimbal }) w)

  unfoldable pub answer_gimbal_rotate : Unset → GimbalRotate → World → Reply
  unfolding minus_tenth
  answer_gimbal_rotate u request w =
      let push = new_push request.request request.action_id (push_freq request.freq) u.push in
      let a =
        move_gimbal_action u.angles
          (record { yaw = minus_tenth request.yaw; pitch = minus_tenth request.pitch })
          (record {
            yaw = deg2rad m (of_ℕ request.yaw_speed);
            pitch = deg2rad m (of_ℕ request.pitch_speed);
          })
          (record {
            yaw = get_yaw_frame request.coordinate;
            pitch = get_pitch_frame request.coordinate;
          }) in
      if request.action_ctrl == 0
      then start_job Task.move_gimbal push a (submit_move_gimbal w.robot.modules.has_gimbal) w
      else (w, some (encode_accept u.reply))

  unfoldable pub answer_gimbal_recenter : Unset → GimbalRecenter → World → Reply
  answer_gimbal_recenter u request w =
      let push = new_push request.request request.action_id (push_freq request.freq) u.push in
      let a =
        move_gimbal_action u.angles (record { yaw = zero_f; pitch = zero_f })
          (record {
            yaw = deg2rad m (of_ℕ request.yaw_speed);
            pitch = deg2rad m (of_ℕ request.pitch_speed);
          })
          (record { yaw = chassis; pitch = chassis }) in
      if request.action_ctrl == 0
      then start_job Task.move_gimbal push a (submit_move_gimbal w.robot.modules.has_gimbal) w
      else (w, some (encode_accept u.reply))
