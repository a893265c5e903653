-- ===== src/Wire/Discovery.antt =====
-- robomaster_sim/src/protocol.cpp: `encrypt` and `discovery_message`, the broadcast of a robot that
-- waits for a connection.
pub mod Cipher
use msde_robotics.Prelude.{
  ℕ, ◌+◌, ◌/◌, ◌%◌, ◌^◌, Bool, List, [], ◌∷◌, ◌++◌, if◌then◌else◌, set, replicate, take, bit_and,
  bit_xor,
}

-- `key` is a `uint32_t`.
pub next_key : ℕ → ℕ
next_key key = bit_xor ((key + 7) % 2 ^ 32) 178

pub encrypt_loop : ℕ → List ℕ → List ℕ
encrypt_loop key [] = []
encrypt_loop key (byte ∷ rest) = bit_and (bit_xor byte key) 0xff ∷ encrypt_loop (next_key key) rest

pub encrypt : List ℕ → List ℕ
encrypt bytes = encrypt_loop 0x07 bytes

-- `for (i = 0; ...) buffer[start + i] = values[i]`
pub copy : List ℕ → ℕ → List ℕ → List ℕ
copy buffer start [] = buffer
copy buffer start (x ∷ xs) = copy (set buffer start x) (start + 1) xs

abbrev sof : ℕ
sof = 0x5a5b

-- The message before it is encrypted. The characters of `app_id` end with the zero that
-- `app_id[app_id.size()]` reads; at most eight are copied.
pub plain_message : Bool → List ℕ → List ℕ → List ℕ → List ℕ
unfolding copy
plain_message is_pairing ip mac app_id =
    let zeros : List ℕ = replicate 24 0 in
    let start : List ℕ = set (set zeros 0 (sof / 2 ^ 8)) 1 (bit_and sof 0xff) in
    let flagged : List ℕ = if is_pairing then set start 5 1 else start in
    copy (copy (copy flagged 6 ip) 10 mac) 16 (take 8 (app_id ++ (0 ∷ [])))

pub discovery_message : Bool → List ℕ → List ℕ → List ℕ → List ℕ
discovery_message is_pairing ip mac app_id = encrypt (plain_message is_pairing ip mac app_id)
