-- ===== src/Wire/Crc.antt =====
-- robomaster_sim/src/protocol.cpp: `crc8_calc` and `crc16_calc`, the checksums of a frame.
-- A `uint8_t` is a number below 256; a buffer with its length is the list of those bytes.
mod Tables
pub mod Serial
pub mod Detect
use msde_robotics.Prelude.{ℕ, ◌/◌, List, [], ◌∷◌, bit_and, bit_xor, get_or}
unfoldable pub use Tables.{crc8_table, crc16_table}

-- One round of the loop: `crc = crc8_table[crc ^ data[i]]`. The index is a byte exclusive-or a byte,
-- so the default of `get_or` is never used (`Serial.crc8_round_lem`).
unfoldable pub crc8_round : ℕ → ℕ → ℕ
unfolding crc8_table
crc8_round crc byte = get_or crc8_table (bit_xor crc byte) 0

unfoldable pub crc8_loop : ℕ → List ℕ → ℕ
crc8_loop crc [] = crc
crc8_loop crc (byte ∷ rest) = crc8_loop (crc8_round crc byte) rest

unfoldable pub crc8_calc : List ℕ → ℕ
crc8_calc bytes = crc8_loop 0x77 bytes

-- `crc = ((crc >> 8) & 0xff) ^ crc16_table[((crc ^ data[i]) & 0xff)]`
unfoldable pub crc16_round : ℕ → ℕ → ℕ
unfolding crc16_table
crc16_round crc byte =
    bit_xor (bit_and (crc / 256) 0xff) (get_or crc16_table (bit_and (bit_xor crc byte) 0xff) 0)

unfoldable pub crc16_loop : ℕ → List ℕ → ℕ
crc16_loop crc [] = crc
crc16_loop crc (byte ∷ rest) = crc16_loop (crc16_round crc byte) rest

unfoldable pub crc16_calc : List ℕ → ℕ
crc16_calc bytes = crc16_loop 0x3692 bytes
