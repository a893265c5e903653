-- ===== src/Plugin.antt =====
-- robomaster_sim/coppeliaSim_plugin: the plugin of the simulator CoppeliaSim.
pub mod Vision
pub mod Bridge
pub mod Interfaces
pub mod Network
pub mod Registry
pub mod Callbacks
pub mod Steps
pub mod Reachable
