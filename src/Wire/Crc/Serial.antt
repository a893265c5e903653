-- ===== src/Wire/Crc/Serial.antt =====
-- The table-driven checksums against bit-serial shift registers.
use msde_robotics.Prelude.{
  ℕ, zero, suc, ◌+◌, ◌*◌, ◌/◌, ◌%◌, ◌^◌, ◌<◌, ◌≡◌, refl, sym, ap, ◌∙◌, List, [], ◌∷◌, arith, ◌==◌,
  if◌then◌else◌, bit_xor, get_or, All, true, IsByte, ap₂,
}
use native.Mathlib.Nat.{pow-suc}
use msde_robotics.Prelude.Bits.{
  all_below, agree_below, bit_xor_swap, bit_xor-half, bit_xor-parity, bit_xor_self, bit_xor-zero,
  zero-bit_xor, bit_xor-lt, bit_and_mask, bit_xor_fields, bit_xor_upper,
}
use msde_robotics.Wire.Crc.{
  crc8_table, crc16_table, crc8_round, crc16_round, crc8_loop, crc16_loop, crc8_calc, crc16_calc,
}

-- One clock of a reflected shift register with feedback polynomial `poly`.
unfoldable pub shift_bit : ℕ → ℕ → ℕ
shift_bit poly x = if x % 2 == 1 then bit_xor (x / 2) poly else x / 2

unfoldable pub shift_bits : ℕ → ℕ → ℕ → ℕ
shift_bits poly zero x = x
shift_bits poly (suc n) x = shift_bits poly n (shift_bit poly x)

-- The bit-serial checksum: each byte is added to the low end and clocked out in eight shifts.
unfoldable pub serial_crc : ℕ → ℕ → List ℕ → ℕ
serial_crc poly crc [] = crc
serial_crc poly crc (byte ∷ rest) = serial_crc poly (shift_bits poly 8 (bit_xor crc byte)) rest

crc8_table_entries : all_below 256 (λ i. get_or crc8_table i 0 == shift_bits 0x8c 8 i) ≡ true
unfolding all_below crc8_table shift_bits shift_bit
crc8_table_entries = refl

crc16_table_entries : all_below 256 (λ i. get_or crc16_table i 0 == shift_bits 0x8408 8 i) ≡ true
unfolding all_below crc16_table shift_bits shift_bit
crc16_table_entries = refl

-- The register is linear: a clock of a sum is the sum of the clocks.
odd_sum : (x y : ℕ) → (bit_xor x y % 2 == 1) ≡ ((x + y) % 2 == 1)
odd_sum x y = ap (λ (t : ℕ). t == 1) (bit_xor-parity x y)

feedback : ℕ → ℕ → ℕ
feedback poly x = if x % 2 == 1 then poly else 0

shift_bit-feedback : (poly x : ℕ) → shift_bit poly x ≡ bit_xor (x / 2) (feedback poly x)
unfolding shift_bit feedback
shift_bit-feedback poly x = ground (arith, bit_xor-zero (x / 2))

feedback-bit_xor :
    (poly x y : ℕ) → feedback poly (bit_xor x y) ≡ bit_xor (feedback poly x) (feedback poly y)
unfolding feedback
feedback-bit_xor poly x y = ground (
  arith,
  bit_xor-parity x y,
  bit_xor_self poly,
  bit_xor-zero poly,
  zero-bit_xor poly,
  bit_xor-zero 0,
)

shift_bit-bit_xor :
    (poly x y : ℕ) → shift_bit poly (bit_xor x y) ≡ bit_xor (shift_bit poly x) (shift_bit poly y)
shift_bit-bit_xor poly x y =
    rw
      (
        shift_bit-feedback poly (bit_xor x y),
        shift_bit-feedback poly x,
        shift_bit-feedback poly y,
        bit_xor-half x y,
        feedback-bit_xor poly x y,
      )
      (bit_xor_swap (x / 2) (y / 2) (feedback poly x) (feedback poly y))

shift_bits-bit_xor :
    (poly n x y : ℕ)
    → shift_bits poly n (bit_xor x y) ≡ bit_xor (shift_bits poly n x) (shift_bits poly n y)
unfolding shift_bits
shift_bits-bit_xor poly zero x y = refl
shift_bits-bit_xor poly (suc n) x y =
    rw (shift_bit-bit_xor poly x y)
      (shift_bits-bit_xor poly n (shift_bit poly x) (shift_bit poly y))

-- Zero bits at the low end shift out unchanged.
shift_bit-double : (poly q : ℕ) → shift_bit poly (q * 2) ≡ q
unfolding shift_bit
shift_bit-double poly q = ground arith

shift_bits_zeros : (poly n q : ℕ) → shift_bits poly n (q * 2 ^ n) ≡ q
unfolding shift_bits
shift_bits_zeros poly zero q = omega arith
shift_bits_zeros poly (suc n) q =
    let even : q * 2 ^ suc n ≡ q * 2 ^ n * 2 = omega (arith, ap (λ (t : ℕ). q * t) (pow-suc 2 n)) in
    ap (shift_bits poly n) (ap (shift_bit poly) even ∙ shift_bit-double poly (q * 2 ^ n))
    ∙ shift_bits_zeros poly n q

shift_bits_byte :
    (poly x : ℕ) → shift_bits poly 8 x ≡ bit_xor (x / 256) (shift_bits poly 8 (x % 256))
shift_bits_byte poly x =
    let parts : bit_xor (x / 256 * 2 ^ 8) (x % 256) ≡ x =
      omega (arith, bit_xor_fields 8 (x / 256) (x % 256) (omega arith)) in
    sym (ap (shift_bits poly 8) parts)
    ∙ shift_bits-bit_xor poly 8 (x / 256 * 2 ^ 8) (x % 256)
    ∙ ap (λ (t : ℕ). bit_xor t (shift_bits poly 8 (x % 256))) (shift_bits_zeros poly 8 (x / 256))

-- One round of each loop clocks one byte through the register.
pub crc8_round_lem :
    (crc byte : ℕ)
    → crc < 256
    → byte < 256
    → crc8_round crc byte ≡ shift_bits 0x8c 8 (bit_xor crc byte)
unfolding crc8_round
crc8_round_lem crc byte hc hb =
    agree_below 256 (λ i. get_or crc8_table i 0) (shift_bits 0x8c 8) (bit_xor crc byte)
      crc8_table_entries (bit_xor-lt 8 crc byte hc hb)

pub crc16_round_lem :
    (crc byte : ℕ)
    → crc < 65536
    → byte < 256
    → crc16_round crc byte ≡ shift_bits 0x8408 8 (bit_xor crc byte)
unfolding crc16_round
crc16_round_lem crc byte hc hb =
    let sum : ℕ = bit_xor crc byte in
    let upper : sum / 256 ≡ crc / 256 = bit_xor_upper crc byte hb in
    let entry : get_or crc16_table (sum % 256) 0 ≡ shift_bits 0x8408 8 (sum % 256) =
      agree_below 256 (λ i. get_or crc16_table i 0) (shift_bits 0x8408 8) (sum % 256)
        crc16_table_entries (omega arith) in
    rw (bit_and_mask 8 (crc / 256), bit_and_mask 8 (bit_xor crc byte))
      (ap₂ bit_xor (omega arith) entry ∙ sym (shift_bits_byte 0x8408 sum))

shift_bit-lt : (poly k x : ℕ) → poly < 2 ^ k → x < 2 ^ k → shift_bit poly x < 2 ^ k
unfolding shift_bit
shift_bit-lt poly k x hp hx = ground (arith, bit_xor-lt k (x / 2) poly)

pub shift_bits-lt : (poly k n x : ℕ) → poly < 2 ^ k → x < 2 ^ k → shift_bits poly n x < 2 ^ k
unfolding shift_bits
shift_bits-lt poly k zero x hp hx = hx
shift_bits-lt poly k (suc n) x hp hx =
    shift_bits-lt poly k n (shift_bit poly x) hp (shift_bit-lt poly k x hp hx)

crc8_loop-serial :
    (crc : ℕ) (bytes : List ℕ)
    → crc < 256
    → All IsByte bytes
    → crc8_loop crc bytes ≡ serial_crc 0x8c crc bytes
unfolding crc8_loop serial_crc
crc8_loop-serial crc [] hc h = refl
crc8_loop-serial crc (byte ∷ rest) hc h =
    let sum : ℕ = bit_xor crc byte in
    ap (λ (t : ℕ). crc8_loop t rest) (crc8_round_lem crc byte hc h.0)
    ∙ crc8_loop-serial (shift_bits 0x8c 8 (bit_xor crc byte)) rest
        (shift_bits-lt 0x8c 8 8 sum (omega arith) (bit_xor-lt 8 crc byte hc h.0)) h.1

-- The table-driven crc8_calc equals the bit-serial checksum with polynomial 0x8c and start value
-- 0x77 on every byte string.
pub crc8_calc-serial :
    (bytes : List ℕ) → All IsByte bytes → crc8_calc bytes ≡ serial_crc 0x8c 0x77 bytes
unfolding crc8_calc
crc8_calc-serial bytes h = crc8_loop-serial 0x77 bytes (omega arith) h

crc16_loop-serial :
    (crc : ℕ) (bytes : List ℕ)
    → crc < 65536
    → All IsByte bytes
    → crc16_loop crc bytes ≡ serial_crc 0x8408 crc bytes
unfolding crc16_loop serial_crc
crc16_loop-serial crc [] hc h = refl
crc16_loop-serial crc (byte ∷ rest) hc h =
    let sum : ℕ = bit_xor crc byte in
    ap (λ (t : ℕ). crc16_loop t rest) (crc16_round_lem crc byte hc h.0)
    ∙ crc16_loop-serial (shift_bits 0x8408 8 (bit_xor crc byte)) rest
        (shift_bits-lt 0x8408 16 8 sum (omega arith)
          (bit_xor-lt 16 crc byte hc (omega (arith, h.0))))
        h.1

-- The table-driven crc16_calc equals the bit-serial checksum with polynomial 0x8408 and start
-- value 0x3692 on every byte string.
pub crc16_calc-serial :
    (bytes : List ℕ) → All IsByte bytes → crc16_calc bytes ≡ serial_crc 0x8408 0x3692 bytes
unfolding crc16_calc
crc16_calc-serial bytes h = crc16_loop-serial 0x3692 bytes (omega arith) h

serial_crc-lt :
    (poly k crc : ℕ) (bytes : List ℕ)
    → poly < 2 ^ k
    → crc < 2 ^ k
    → All (λ b. b < 2 ^ k) bytes
    → serial_crc poly crc bytes < 2 ^ k
unfolding serial_crc
serial_crc-lt poly k crc [] hp hc h = hc
serial_crc-lt poly k crc (byte ∷ rest) hp hc h =
    serial_crc-lt poly k (shift_bits poly 8 (bit_xor crc byte)) rest hp
      (shift_bits-lt poly k 8 (bit_xor crc byte) hp (bit_xor-lt k crc byte hc h.0)) h.1

pub All-IsByte_wide : (bytes : List ℕ) → All IsByte bytes → All (λ b. b < 2 ^ 16) bytes
All-IsByte_wide [] h = tt
All-IsByte_wide (b ∷ bs) h = (omega (arith, h.0), All-IsByte_wide bs h.1)

pub crc8_calc-lt : (bytes : List ℕ) → All IsByte bytes → crc8_calc bytes < 256
crc8_calc-lt bytes h =
    rw (crc8_calc-serial bytes h) (serial_crc-lt 0x8c 8 0x77 bytes (omega arith) (omega arith) h)

pub crc16_calc-lt : (bytes : List ℕ) → All IsByte bytes → crc16_calc bytes < 65536
crc16_calc-lt bytes h =
    rw (crc16_calc-serial bytes h)
      (serial_crc-lt 0x8408 16 0x3692 bytes (omega arith) (omega arith) (All-IsByte_wide bytes h))
