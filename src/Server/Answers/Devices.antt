-- ===== src/Server/Answers/Devices.antt =====
-- robomaster_sim/include/command_messages.hpp: the answers to the requests about the lights, the arm,
-- the servos and the gripper.
use msde_robotics.Prelude.{ℕ, ◌-◌, ◌%◌, Bool, true, not, ◌&&◌, ◌||◌, ◌==◌, if◌then◌else◌, ltb, some}
use msde_robotics.Prelude.Int.{ℤ, pos, pattern_of}
use msde_robotics.Wire.Bytes.{Float}
use msde_robotics.Robot.Platform.{zero_f, one_f}
use msde_robotics.Robot.Maths.{Math, degrees_d, deg2rad, rad2deg, angular_speed_from_rpm}
use msde_robotics.Robot.Action.{rejected, push_freq}
use msde_robotics.Robot.Schedule.{submit_move_arm, submit_move_servo}
use msde_robotics.Robot.Lights.{Color}
use msde_robotics.Robot.Servos.{angle, speed, set_gripper}
use msde_robotics.Robot.Tasks.{Task}
use msde_robotics.Robot.Moves.{move_arm_action, move_servo_action}
use msde_robotics.Robot.Setters.{
  set_led_effect, set_blaster_led, set_servo_mode, enable_servo, set_target_servo_speed,
  get_servo_angle,
}
use msde_robotics.Messages.Light.{SetSystemLed, BlasterSetLed}
use msde_robotics.Messages.Arm.{
  GripperCtrl, RoboticArmMoveCtrl, ServoGetAngle, ServoModeSet, ServoControl, ServoCtrlSet,
}
use msde_robotics.Messages.Replies.{
  encode_accept, encode_robotic_arm_get_position, encode_servo_get_angle,
}
use msde_robotics.Prelude.SortedMap.{or_else}
use msde_robotics.Server.Pushes.{new_push}
use msde_robotics.Server.World.{World, Unset, on_robot, acknowledged, start_job}
use msde_robotics.Server.Answers.System.{Reply}

-- The first two servos have the requests' numbers 1 and 2.
abbrev is_arm_servo : ℕ → Bool
is_arm_servo id = id == 1 || id == 2

unfoldable pub answer_servo_mode_set : ServoModeSet → World → Reply
answer_servo_mode_set request w =
    let mode = if request.mode == 0 then angle else speed in
    if is_arm_servo request.id
    then acknowledged (on_robot (set_servo_mode (request.id - 1) mode) w)
    else acknowledged w

module _ (m : Math) where
  open m use {
    fp, neg, add_double, sub_double, mul_double, div_double, round_double, narrow, to_ℤ,
    double_of_ℤ,
  }
  open fp use {add, sub, mul, div, of_ℕ, widen}

  -- `t * 0.001`
  abbrev thousandth : ℤ → Float
  thousandth t = narrow (mul_double (double_of_ℤ t) 0x3f50_624d_d2f1_a9fc)

  -- 0x437f_0000 is 255.0f. The `loop` of the request is ignored.
  unfoldable pub answer_set_system_led : SetSystemLed → World → Reply
  answer_set_system_led request w =
      let color : Color = record {
        r = div (of_ℕ request.r) 0x437f_0000;
        g = div (of_ℕ request.g) 0x437f_0000;
        b = div (of_ℕ request.b) 0x437f_0000;
      } in
      acknowledged (
        on_robot
          (set_led_effect m color (request.comp_mask % 256) (pattern_of 8 request.led_mask)
            request.effect_mode (thousandth request.t1) (thousandth request.t2) true)
          w)

  -- 0x406f_e000_0000_0000 is 255.0.
  unfoldable pub answer_blaster_set_led : BlasterSetLed → World → Reply
  answer_blaster_set_led request w =
      let intensity = narrow (div_double (double_of_ℤ (pos request.g)) 0x406f_e000_0000_0000) in
      acknowledged (on_robot (set_blaster_led intensity (ltb 0 request.effect)) w)

  -- 0x4059_0000_0000_0000 is 100.0.
  unfoldable pub answer_gripper_ctrl : GripperCtrl → World → Reply
  answer_gripper_ctrl request w =
      let power = narrow (div_double 0x4059_0000_0000_0000 (double_of_ℤ (pos request.power))) in
      acknowledged
        (on_robot (λ r. record r { gripper = set_gripper request.control power r.gripper }) w)

  unfoldable pub answer_robotic_arm_move_ctrl : Unset → RoboticArmMoveCtrl → World → Reply
  answer_robotic_arm_move_ctrl u request w =
      let push = new_push request.request request.action_id (push_freq request.freq) u.push in
      let a =
        move_arm_action u.action (thousandth request.x) (thousandth request.y)
          (request.mode == 1) in
      if request.action_ctrl == 0
      then start_job Task.move_arm push a (submit_move_arm w.robot.modules.has_arm) w
      else (w, some (encode_accept u.reply))

  -- In millimetres, rounded; 0x447a_0000 is 1000.0f.
  abbrev millimetres : Float → ℕ
  millimetres v = pattern_of 32 (to_ℤ (round_double (widen (mul 0x447a_0000 v))))

  unfoldable pub answer_robotic_arm_get_postion : World → Reply
  answer_robotic_arm_get_postion w =
      let p = w.robot.arm_position in
      (w, some (encode_robotic_arm_get_position (millimetres p.x) (millimetres p.z) 0))

  -- `SERVO_DIRECTION` and `SERVO_RESET_ANGLES`: left has the index 0.
  abbrev servo_direction : ℕ → Float
  servo_direction index = if index == 0 then one_f else 0xbf80_0000

  abbrev servo_reset : ℕ → Float
  servo_reset index = if index == 0 then 0x3d96_2068 else 0xbe8c_4bd3

  unfoldable pub servo_angle : ℕ → Float → Float
  servo_angle index a = rad2deg m (mul (servo_direction index) (sub a (servo_reset index)))

  unfoldable pub angle_to_servo : ℕ → Float → Float
  angle_to_servo index zero_angle =
      add (mul (servo_direction index) (deg2rad m zero_angle)) (servo_reset index)

  -- 10 * (180.0 + angle), converted to `uint32_t`.
  unfoldable pub answer_servo_get_angle : Unset → ServoGetAngle → World → Reply
  unfolding servo_angle
  answer_servo_get_angle u request w =
      let id = request.id - 1 in
      let degrees = servo_angle id (or_else (get_servo_angle id w.robot) zero_f) in
      let value = mul_double 0x4024_0000_0000_0000 (add_double degrees_d (widen degrees)) in
      if is_arm_servo request.id
      then (w, some (encode_servo_get_angle (pattern_of 32 (to_ℤ value))))
      else (w, some (encode_servo_get_angle u.reply))

  -- v * 98 / 900 - 49, rounded, in revolutions per minute.
  unfoldable pub servo_control_speed : ℕ → Float
  servo_control_speed value =
      let v = sub (div (mul (of_ℕ value) 0x42c4_0000) 0x4461_0000) 0x4244_0000 in
      angular_speed_from_rpm m (to_ℤ (round_double (widen v)))

  unfoldable pub answer_servo_control : ServoControl → World → Reply
  unfolding servo_control_speed
  answer_servo_control request w =
      let id = request.id - 1 in
      let turned = mul (servo_control_speed request.value) (neg (servo_direction id)) in
      if is_arm_servo request.id
      then acknowledged (
          on_robot
            (λ r. set_target_servo_speed id turned (enable_servo id (not (request.enable == 0)) r))
            w)
      else acknowledged w

  -- value / 10.0 - 180.0
  unfoldable pub servo_ctrl_angle : ServoCtrlSet → Float
  unfolding angle_to_servo
  servo_ctrl_angle request =
      let alpha =
        narrow
          (sub_double (div_double (double_of_ℤ request.value) 0x4024_0000_0000_0000) degrees_d) in
      if is_arm_servo request.servo_id then angle_to_servo (request.servo_id - 1) alpha else zero_f

  -- The index is below 2, so that `submit_action` reads no flag behind the end of three.
  unfoldable pub answer_servo_ctrl_set : Unset → ServoCtrlSet → World → Reply
  unfolding servo_ctrl_angle
  answer_servo_ctrl_set u request w =
      let index = request.servo_id - 1 in
      let push = new_push request.request request.action_id (push_freq request.freq) u.push in
      let a = move_servo_action u.action index (servo_ctrl_angle request) in
      if is_arm_servo request.servo_id && request.action_ctrl == 0
      then start_job Task.move_servo push a
          (λ job s. or_else (submit_move_servo w.robot.modules.has_servo index job s) (s, rejected))
          w
      else (w, some (encode_accept u.reply))
