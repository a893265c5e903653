-- ===== src/Wire/Crc/Detect.antt =====
-- What the checksums detect: a change of any one byte, at any place of a message of any length.
use native.Mathlib.Nat.{pow-suc}
use msde_robotics.Prelude.{
  ℕ, zero, suc, ◌+◌, ◌*◌, ◌/◌, ◌^◌, ◌<◌, ◌≡◌, ◌≢◌, sym, ap, ap₂, ◌∙◌, List, [], ◌∷◌, ◌++◌, arith,
  ltb, if◌then◌else◌, bit_xor, All, All-append, IsByte,
}
use msde_robotics.Prelude.Bits.{
  bit_xor_cancel, bit_xor_cancel_left, bit_xor-lt, bit_xor_split, zero-bit_xor,
}
use msde_robotics.Wire.Crc.{crc8_calc, crc16_calc}
use msde_robotics.Wire.Crc.Serial.{
  shift_bit, shift_bits, shift_bits-lt, serial_crc, crc8_calc-serial, crc16_calc-serial,
  All-IsByte_wide,
}

-- The feedback sets the top digit of a `suc k`-digit register, which an even number leaves clear.
top_digit : (k a p : ℕ) → a < 2 ^ k → p < 2 ^ k → bit_xor a (2 ^ k + p) ≡ 2 ^ k + bit_xor a p
top_digit k a p ha hp =
    let ea : 0 * 2 ^ k + a ≡ a = omega arith in
    let ep : 1 * 2 ^ k + p ≡ 2 ^ k + p = omega arith in
    sym (ap₂ bit_xor ea ep)
    ∙ (bit_xor_split k 0 a 1 p ha hp).0
    ∙ omega (arith, ap (λ (t : ℕ). t * 2 ^ k) (zero-bit_xor 1))

-- One clock backwards.
unshift : ℕ → ℕ → ℕ → ℕ
unshift k poly y = if ltb y (2 ^ k) then y * 2 else bit_xor y poly * 2 + 1

unshift-shift_bit :
    (k p x : ℕ) → p < 2 ^ k → x < 2 ^ suc k → unshift k (2 ^ k + p) (shift_bit (2 ^ k + p) x) ≡ x
unfolding unshift shift_bit
unshift-shift_bit k p x hp hx =
    let small : x / 2 < 2 ^ k = omega (arith, pow-suc 2 k) in
    ground (arith, top_digit k (x / 2) p small hp, small, bit_xor_cancel (x / 2) (2 ^ k + p))

-- A register of `suc k` digits whose feedback reaches the top digit loses nothing.
module _ (k p : ℕ) (fits : p < 2 ^ k) where
  poly_fits : 2 ^ k + p < 2 ^ suc k
  poly_fits = omega (arith, pow-suc 2 k)

  shift_bit-lt : (x : ℕ) → x < 2 ^ suc k → shift_bit (2 ^ k + p) x < 2 ^ suc k
  unfolding shift_bits
  shift_bit-lt x hx = shift_bits-lt (2 ^ k + p) (suc k) 1 x poly_fits hx

  shift_bit-injective :
      (x y : ℕ)
      → x < 2 ^ suc k
      → y < 2 ^ suc k
      → shift_bit (2 ^ k + p) x ≡ shift_bit (2 ^ k + p) y
      → x ≡ y
  shift_bit-injective x y hx hy e =
      sym (unshift-shift_bit k p x fits hx)
      ∙ ap (unshift k (2 ^ k + p)) e
      ∙ unshift-shift_bit k p y fits hy

  shift_bits-injective :
      (n x y : ℕ)
      → x < 2 ^ suc k
      → y < 2 ^ suc k
      → shift_bits (2 ^ k + p) n x ≡ shift_bits (2 ^ k + p) n y
      → x ≡ y
  unfolding shift_bits
  shift_bits-injective zero x y hx hy e = e
  shift_bits-injective (suc n) x y hx hy e = shift_bit-injective x y hx hy (
      shift_bits-injective n (shift_bit (2 ^ k + p) x) (shift_bit (2 ^ k + p) y) (shift_bit-lt x hx)
        (shift_bit-lt y hy) e)

  abbrev InRegister : ℕ → Type 0
  InRegister b = b < 2 ^ suc k

  serial_crc-injective :
      (c d : ℕ) (bytes : List ℕ)
      → InRegister c
      → InRegister d
      → All InRegister bytes
      → serial_crc (2 ^ k + p) c bytes ≡ serial_crc (2 ^ k + p) d bytes
      → c ≡ d
  unfolding serial_crc
  serial_crc-injective c d [] hc hd h e = e
  serial_crc-injective c d (b ∷ bs) hc hd h e =
      let cb = bit_xor-lt (suc k) c b hc h.0 in
      let db = bit_xor-lt (suc k) d b hd h.0 in
      let poly : ℕ = 2 ^ k + p in
      let next =
        serial_crc-injective (shift_bits poly 8 (bit_xor c b)) (shift_bits poly 8 (bit_xor d b)) bs
          (shift_bits-lt poly (suc k) 8 (bit_xor c b) poly_fits cb)
          (shift_bits-lt poly (suc k) 8 (bit_xor d b) poly_fits db) h.1 e in
      sym (bit_xor_cancel c b)
      ∙ ap (λ (t : ℕ). bit_xor t b) (shift_bits-injective 8 (bit_xor c b) (bit_xor d b) cb db next)
      ∙ bit_xor_cancel d b

  serial_crc_one_change :
      (c : ℕ) (front : List ℕ) (a b : ℕ) (back : List ℕ)
      → InRegister c
      → All InRegister front
      → InRegister a
      → InRegister b
      → All InRegister back
      → serial_crc (2 ^ k + p) c (front ++ (a ∷ back))
        ≡ serial_crc (2 ^ k + p) c (front ++ (b ∷ back))
      → a ≡ b
  unfolding serial_crc
  serial_crc_one_change c [] a b back hc hf ha hb h e =
      let ca = bit_xor-lt (suc k) c a hc ha in
      let cb = bit_xor-lt (suc k) c b hc hb in
      let poly : ℕ = 2 ^ k + p in
      let next =
        serial_crc-injective (shift_bits poly 8 (bit_xor c a)) (shift_bits poly 8 (bit_xor c b))
          back (shift_bits-lt poly (suc k) 8 (bit_xor c a) poly_fits ca)
          (shift_bits-lt poly (suc k) 8 (bit_xor c b) poly_fits cb) h e in
      sym (bit_xor_cancel_left c a)
      ∙ ap (bit_xor c) (shift_bits-injective 8 (bit_xor c a) (bit_xor c b) ca cb next)
      ∙ bit_xor_cancel_left c b
  serial_crc_one_change c (x ∷ front) a b back hc hf ha hb h e =
      serial_crc_one_change (shift_bits (2 ^ k + p) 8 (bit_xor c x)) front a b back
        (shift_bits-lt (2 ^ k + p) (suc k) 8 (bit_xor c x) poly_fits
          (bit_xor-lt (suc k) c x hc hf.0))
        hf.1 ha hb h e

-- Two byte strings that differ in exactly one byte have different crc8_calc checksums.
pub crc8_calc_one_change :
    (front : List ℕ) (a b : ℕ) (back : List ℕ)
    → All IsByte front
    → IsByte a
    → IsByte b
    → All IsByte back
    → a ≢ b
    → crc8_calc (front ++ (a ∷ back)) ≢ crc8_calc (front ++ (b ∷ back))
crc8_calc_one_change front a b back hf ha hb h ne e = ne (
    serial_crc_one_change 7 0x0c (omega arith) 0x77 front a b back (omega arith) hf ha hb h (
      sym (crc8_calc-serial (front ++ (a ∷ back)) (All-append IsByte front (a ∷ back) hf (ha, h)))
      ∙ e
      ∙ crc8_calc-serial (front ++ (b ∷ back)) (All-append IsByte front (b ∷ back) hf (hb, h))))

-- Two byte strings that differ in exactly one byte have different crc16_calc checksums.
pub crc16_calc_one_change :
    (front : List ℕ) (a b : ℕ) (back : List ℕ)
    → All IsByte front
    → IsByte a
    → IsByte b
    → All IsByte back
    → a ≢ b
    → crc16_calc (front ++ (a ∷ back)) ≢ crc16_calc (front ++ (b ∷ back))
crc16_calc_one_change front a b back hf ha hb h ne e = ne (
    serial_crc_one_change 15 0x0408 (omega arith) 0x3692 front a b back (omega arith)
      (All-IsByte_wide front hf) (omega arith) (omega arith) (All-IsByte_wide back h)
      (sym (crc16_calc-serial (front ++ (a ∷ back)) (All-append IsByte front (a ∷ back) hf (ha, h)))
        ∙ e
        ∙ crc16_calc-serial (front ++ (b ∷ back)) (All-append IsByte front (b ∷ back) hf (hb, h))))
