-- ===== src/Wire.antt =====
-- robomaster_sim: the byte protocol.
pub mod Bytes
pub mod Crc
pub mod Frame
pub mod Discovery
