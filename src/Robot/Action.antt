-- ===== src/Robot/Action.antt =====
-- robomaster_sim/include/robot/action.hpp: `struct Action`, and `accept_code` and `push_freq` of
-- command_messages.hpp.
use msde_robotics.Prelude.{ℕ, Bool, true, false, ◌==◌, if◌then◌else◌}
use msde_robotics.Wire.Bytes.{Float}

pub data State : Type 0 where
  running succeed failed started undefined rejected : State

-- The enumerators' values.
pub state_code : State → ℕ
state_code running = 0
state_code succeed = 1
state_code failed = 2
state_code started = 3
state_code undefined = 4
state_code rejected = 5

abbrev pub is_done : State → Bool
is_done failed = true
is_done succeed = true
is_done _ = false

unfoldable pub accept_code : State → ℕ
accept_code running = 0
accept_code started = 0
accept_code succeed = 2
accept_code failed = 1
accept_code undefined = 1
accept_code rejected = 1

-- The frequencies 1.0f, 5.0f and 10.0f.
pub push_freq : ℕ → Float
push_freq freq =
    if freq == 0
    then 0x3f80_0000
    else if freq == 1
    then 0x40a0_0000
    else if freq == 2
    then 0x4120_0000
    else 0x3f80_0000

-- The fields of the base class and `body`, those of the subclass.
pub record Action (B : Type 0) : Type 0 where
  pub state : State
  pub predicted_duration : Float
  pub remaining_duration : Float
  pub body : B

unfoldable pub done : {B : Type 0} → Action B → Bool
done a = is_done a.state
