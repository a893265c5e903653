-- ===== src/Server/Updates.antt =====
-- robomaster_sim/include/command_subjects.hpp: the `update` of each subject, which reads the robot. A
-- conversion to an unsigned type wraps, also where C++ leaves it undefined.
pub mod Motion
pub mod Devices
