-- ===== src/Robot.antt =====
-- robomaster_sim/include/robot and src/robot: the simulated robot.
pub mod Platform
pub mod Maths
pub mod Geometry
pub mod Action
pub mod Schedule
pub mod Sound
pub mod Devices
pub mod Lights
pub mod Servos
pub mod Gimbals
pub mod Wheels
pub mod Arms
pub mod Objects
pub mod Machine
pub mod Control
pub mod Moves
pub mod Tasks
pub mod Steps
pub mod Setters
pub mod Dummy
