-- ===== src/Messages.antt =====
-- robomaster_sim/include: the messages of the command server.
pub mod System
pub mod Chassis
pub mod Light
pub mod Arm
pub mod Gimbal
pub mod Vision
pub mod Sensor
pub mod Subscriber
pub mod Connection
pub mod Replies
pub mod Registry
pub mod InBounds
pub mod Dispatch
