-- ===== src/Prelude/Bits.antt =====
-- Laws of the native bit operations at variables: the digit recursion, the algebra of `bit_xor`,
-- low masks, and a check of a whole byte range by evaluation.
use Prim.Native.Nat.{
  ℕ, zero, suc, ◌+◌, ◌*◌, ◌/◌, ◌%◌, ◌^◌, ◌≤◌, ◌<◌, min, bit_and, bit_xor, digits, bitwise, differ,
  bit_and-bitwise, bit_xor-bitwise,
}
use mathlib.Core.Path.{◌≡◌, refl, sym, ap, ap₂, ◌∙◌}
use mathlib.Core.Bool.{Bool, true, ◌&&◌}
use native.Mathlib.Omega.{arith}
use native.Mathlib.Nat.{le_refl, pow-suc, one-le-pow}
use msde_robotics.Prelude.Tests.{◌==◌, ==_iff}

-- `digits` runs on fuel: any two amounts that are not below the first number give the same.
module _ (on_zero : ℕ → ℕ) (on_digits : ℕ → ℕ → ℕ) where
  digits-zero : (fuel y : ℕ) → digits on_zero on_digits fuel 0 y ≡ on_zero y
  digits-zero zero y = refl
  digits-zero (suc fuel) y = refl

  digits_agree :
      (x y fuel other : ℕ)
      → x ≤ fuel
      → x ≤ other
      → digits on_zero on_digits fuel x y ≡ digits on_zero on_digits other x y
  digits_agree zero y fuel other h k = digits-zero fuel y ∙ sym (digits-zero other y)
  digits_agree (suc x) y zero other h k = absurd (omega arith)
  digits_agree (suc x) y (suc fuel) zero h k = absurd (omega arith)
  digits_agree (suc x) y (suc fuel) (suc other) h k =
      let deeper = digits_agree (suc x / 2) (y / 2) fuel other (omega arith) (omega arith) in
      rw deeper

  lowest_digit :
      (x y : ℕ)
      → bitwise on_zero on_digits (suc x) y
        ≡ on_digits (suc x % 2) (y % 2) + 2 * bitwise on_zero on_digits (suc x / 2) (y / 2)
  lowest_digit x y =
      let deeper = digits_agree (suc x / 2) (y / 2) x (suc x / 2) (omega arith) (omega arith) in
      omega (arith, deeper)

bit_and_step : (x y : ℕ) → bit_and x y ≡ min (x % 2) (y % 2) + 2 * bit_and (x / 2) (y / 2)
bit_and_step zero y = simp bit_and-bitwise (omega arith)
bit_and_step (suc x) y = simp bit_and-bitwise (lowest_digit (λ y. 0) min x y)

sum_parity : (x y : ℕ) → x < 2 → y < 2 → differ x y ≡ (x + y) % 2
sum_parity zero y hx hy = omega arith
sum_parity (suc zero) zero hx hy = refl
sum_parity (suc zero) (suc zero) hx hy = refl
sum_parity (suc zero) (suc (suc y)) hx hy = absurd (omega arith)
sum_parity (suc (suc x)) y hx hy = absurd (omega arith)

pub bit_xor_step : (a b : ℕ) → bit_xor a b ≡ bit_xor (a / 2) (b / 2) * 2 + (a + b) % 2
bit_xor_step zero b = simp bit_xor-bitwise (omega arith)
bit_xor_step (suc a) b = simp bit_xor-bitwise (
    lowest_digit (λ y. y) differ a b
    ∙ omega (arith, sum_parity (suc a % 2) (b % 2) (omega arith) (omega arith)))

-- The lowest digit of an exclusive or, and the digits above it.
pub bit_xor-half : (a b : ℕ) → bit_xor a b / 2 ≡ bit_xor (a / 2) (b / 2)
bit_xor-half a b = omega (arith, bit_xor_step a b)

pub bit_xor-parity : (a b : ℕ) → bit_xor a b % 2 ≡ (a + b) % 2
bit_xor-parity a b = omega (arith, bit_xor_step a b)

comm_fuel : (n a b : ℕ) → a + b ≤ n → bit_xor a b ≡ bit_xor b a
comm_fuel zero zero zero h = refl
comm_fuel zero zero (suc b) h = absurd (omega arith)
comm_fuel zero (suc a) b h = absurd (omega arith)
comm_fuel (suc n) zero zero h = refl
comm_fuel (suc n) a b h =
    omega (arith, bit_xor_step a b, bit_xor_step b a, comm_fuel n (a / 2) (b / 2) (omega arith))

pub bit_xor_comm : (a b : ℕ) → bit_xor a b ≡ bit_xor b a
bit_xor_comm a b = comm_fuel (a + b) a b (le_refl _)

assoc_step :
    (a b c : ℕ)
    → bit_xor (bit_xor (a / 2) (b / 2)) (c / 2) ≡ bit_xor (a / 2) (bit_xor (b / 2) (c / 2))
    → bit_xor (bit_xor a b) c ≡ bit_xor a (bit_xor b c)
assoc_step a b c ih =
    let left : bit_xor (bit_xor a b / 2) (c / 2) ≡ bit_xor (bit_xor (a / 2) (b / 2)) (c / 2) =
      ap (λ (t : ℕ). bit_xor t (c / 2)) (bit_xor-half a b) in
    let right : bit_xor (a / 2) (bit_xor b c / 2) ≡ bit_xor (a / 2) (bit_xor (b / 2) (c / 2)) =
      ap (bit_xor (a / 2)) (bit_xor-half b c) in
    omega (
      arith,
      bit_xor_step (bit_xor a b) c,
      bit_xor_step a (bit_xor b c),
      bit_xor-parity a b,
      bit_xor-parity b c,
    )

assoc_fuel : (n a b c : ℕ) → a + b + c ≤ n → bit_xor (bit_xor a b) c ≡ bit_xor a (bit_xor b c)
assoc_fuel zero zero zero zero h = refl
assoc_fuel zero zero zero (suc c) h = absurd (omega arith)
assoc_fuel zero zero (suc b) c h = absurd (omega arith)
assoc_fuel zero (suc a) b c h = absurd (omega arith)
assoc_fuel (suc n) zero zero zero h = refl
assoc_fuel (suc n) a b c h = assoc_step a b c (assoc_fuel n (a / 2) (b / 2) (c / 2) (omega arith))

pub bit_xor_assoc : (a b c : ℕ) → bit_xor (bit_xor a b) c ≡ bit_xor a (bit_xor b c)
bit_xor_assoc a b c = assoc_fuel (a + b + c) a b c (le_refl _)

self_fuel : (n a : ℕ) → a ≤ n → bit_xor a a ≡ 0
self_fuel zero zero h = refl
self_fuel zero (suc a) h = absurd (omega arith)
self_fuel (suc n) zero h = refl
self_fuel (suc n) (suc a) h =
    omega (arith, bit_xor_step (suc a) (suc a), self_fuel n (suc a / 2) (omega arith))

pub bit_xor_self : (a : ℕ) → bit_xor a a ≡ 0
bit_xor_self a = self_fuel a a (le_refl _)

pub zero-bit_xor : (a : ℕ) → bit_xor 0 a ≡ a
zero-bit_xor a = bit_xor-bitwise 0 a

pub bit_xor-zero : (a : ℕ) → bit_xor a 0 ≡ a
bit_xor-zero a = bit_xor_comm a 0 ∙ zero-bit_xor a

-- A second exclusive or with the same number undoes the first.
pub bit_xor_cancel : (a b : ℕ) → bit_xor (bit_xor a b) b ≡ a
bit_xor_cancel a b = rw (bit_xor_assoc, bit_xor_self b) (bit_xor-zero a)

-- A second one on the left undoes the first too.
pub bit_xor_cancel_left : (a b : ℕ) → bit_xor a (bit_xor a b) ≡ b
bit_xor_cancel_left a b = rw (← bit_xor_assoc a a b, bit_xor_self a) (zero-bit_xor b)

pub bit_xor_swap :
    (a b c d : ℕ) → bit_xor (bit_xor a b) (bit_xor c d) ≡ bit_xor (bit_xor a c) (bit_xor b d)
bit_xor_swap a b c d =
    bit_xor_assoc a b (bit_xor c d)
    ∙ ap (bit_xor a) (
        sym (bit_xor_assoc b c d)
        ∙ ap (λ (t : ℕ). bit_xor t d) (bit_xor_comm b c)
        ∙ bit_xor_assoc c b d)
    ∙ sym (bit_xor_assoc a c (bit_xor b d))

double_pow : (q k : ℕ) → q * 2 ^ suc k ≡ 2 * (q * 2 ^ k)
double_pow q k = omega (arith, ap (λ (t : ℕ). q * t) (pow-suc 2 k))

-- An exclusive or acts on the low `k` digits and on the digits above them apart.
pub bit_xor_split :
    (k q r p s : ℕ)
    → r < 2 ^ k
    → s < 2 ^ k
    → (bit_xor (q * 2 ^ k + r) (p * 2 ^ k + s) ≡ bit_xor q p * 2 ^ k + bit_xor r s)
      × (bit_xor r s < 2 ^ k)
bit_xor_split zero q r p s hr hs =
    let eq : q * 2 ^ 0 + r ≡ q = omega arith in
    let ep : p * 2 ^ 0 + s ≡ p = omega arith in
    let er : r ≡ 0 = omega arith in
    let es : s ≡ 0 = omega arith in
    let whole : bit_xor (q * 2 ^ 0 + r) (p * 2 ^ 0 + s) ≡ bit_xor q p = ap₂ bit_xor eq ep in
    let none : bit_xor r s ≡ 0 = ap₂ bit_xor er es in (omega arith, omega arith)
bit_xor_split (suc k) q r p s hr hs =
    let half =
      bit_xor_split k q (r / 2) p (s / 2) (omega (arith, pow-suc 2 k))
        (omega (arith, pow-suc 2 k)) in
    let upper : bit_xor ((q * 2 ^ suc k + r) / 2) ((p * 2 ^ suc k + s) / 2)
        ≡ bit_xor (q * 2 ^ k + r / 2) (p * 2 ^ k + s / 2) =
      ap₂ bit_xor (omega (arith, double_pow q k)) (omega (arith, double_pow p k)) in
    (
      omega (
        arith,
        half.0,
        upper,
        bit_xor_step (q * 2 ^ suc k + r) (p * 2 ^ suc k + s),
        bit_xor_step r s,
        double_pow (bit_xor q p) k,
        double_pow q k,
        double_pow p k,
      ),
      omega (arith, half.1, bit_xor_step r s, pow-suc 2 k),
    )

-- Of numbers with no digit in common it is the sum.
pub bit_xor_fields : (k q r : ℕ) → r < 2 ^ k → bit_xor (q * 2 ^ k) r ≡ q * 2 ^ k + r
bit_xor_fields k q r h =
    let eq : q * 2 ^ k + 0 ≡ q * 2 ^ k = omega arith in
    let er : 0 * 2 ^ k + r ≡ r = omega arith in
    sym (ap₂ bit_xor eq er)
    ∙ (bit_xor_split k q 0 0 r (one-le-pow k 2 (omega arith)) h).0
    ∙ omega (arith, ap (λ (t : ℕ). t * 2 ^ k) (bit_xor-zero q), zero-bit_xor r)

-- A byte leaves the digits above the lowest eight alone.
pub bit_xor_upper : (a r : ℕ) → r < 256 → bit_xor a r / 256 ≡ a / 256
bit_xor_upper a r h =
    let ea : a / 256 * 2 ^ 8 + a % 256 ≡ a = omega arith in
    let er : 0 * 2 ^ 8 + r ≡ r = omega arith in
    let parts = bit_xor_split 8 (a / 256) (a % 256) 0 r (omega arith) h in
    omega (arith, sym (ap₂ bit_xor ea er), parts.0, parts.1, bit_xor-zero (a / 256))

pub bit_xor-lt : (k a b : ℕ) → a < 2 ^ k → b < 2 ^ k → bit_xor a b < 2 ^ k
bit_xor-lt k a b ha hb = (bit_xor_split k 0 a 0 b ha hb).1

-- A byte mask is a remainder.
no_digits : (x fuel : ℕ) → x ≤ fuel → bit_and x 0 ≡ 0
no_digits zero fuel h = refl
no_digits (suc x) zero h = absurd (omega arith)
no_digits (suc x) (suc fuel) h =
    let deeper = no_digits (suc x / 2) fuel (omega arith) in
    omega (arith, bit_and_step (suc x) 0, deeper)

-- `2 ^ k - 1`, the mask of `k` low bits.
abbrev pub low_mask : ℕ → ℕ
low_mask zero = 0
low_mask (suc k) = low_mask k * 2 + 1

mask_low_part : (k high low : ℕ) → low < 2 ^ k → bit_and (high * 2 ^ k + low) (low_mask k) ≡ low
mask_low_part zero high low h =
    let whole : ℕ = high * 2 ^ 0 + low in omega (arith, no_digits whole whole (le_refl _))
mask_low_part (suc k) high low h =
    let halves : bit_and ((high * 2 ^ suc k + low) / 2) (low_mask (suc k) / 2)
        ≡ bit_and (high * 2 ^ k + low / 2) (low_mask k) =
      ap₂ bit_and (omega (arith, double_pow high k)) (omega arith) in
    let deeper = mask_low_part k high (low / 2) (omega (arith, pow-suc 2 k)) in
    omega (
      arith,
      bit_and_step (high * 2 ^ suc k + low) (low_mask (suc k)),
      double_pow high k,
      halves,
      deeper,
    )

-- A mask of `k` low bits is the remainder by `2 ^ k`.
pub bit_and_mask : (k x : ℕ) → bit_and x (low_mask k) ≡ x % 2 ^ k
bit_and_mask k x =
    let part = mask_low_part k (x / 2 ^ k) (x % 2 ^ k) in ground (arith, part, one-le-pow k 2)

-- Over a small range, every value is checked by evaluation.
unfoldable pub all_below : ℕ → (ℕ → Bool) → Bool
all_below zero test = true
all_below (suc bound) test = test bound && all_below bound test

pub all_below_sound :
    (bound : ℕ) (test : ℕ → Bool) (i : ℕ) → all_below bound test ≡ true → i < bound → test i ≡ true
unfolding all_below
all_below_sound zero test i checked below = absurd (omega arith)
all_below_sound (suc bound) test i checked below = ground (arith, all_below_sound bound test i)

pub agree_below :
    (n : ℕ) (f g : ℕ → ℕ) (x : ℕ) → all_below n (λ i. f i == g i) ≡ true → x < n → f x ≡ g x
agree_below n f g x h lt = (==_iff _ _).0 (all_below_sound n _ x h lt)
