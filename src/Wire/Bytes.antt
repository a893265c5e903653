-- ===== src/Wire/Bytes.antt =====
-- robomaster_sim/include/utils.hpp: `key_from`, `read` and `write` of little-endian integers.
-- A `const uint8_t *` is the list of the bytes from there to the end of the array that it points
-- into. An access outside that array is undefined behaviour in the source, and `none` here.
use native.Mathlib.Nat.{pow-suc}
use msde_robotics.Prelude.Int.{ℤ, signed, pattern_of, neg}
use msde_robotics.Prelude.{
  ℕ, zero, suc, ◌+◌, ◌*◌, ◌/◌, ◌%◌, ◌^◌, ◌<◌, ◌≡◌, List, [], ◌∷◌, ◌++◌, Option, none, some, arith,
  get_elem?, drop, All, IsByte,
}

infixl 5 ◌>>=◌
abbrev pub ◌>>=◌ {ℓ κ} : {A : Type ℓ} {B : Type κ} → Option A → (A → Option B) → Option B
none >>= f = none
some a >>= f = f a

-- `_cmd + 256 * _set`
unfoldable pub key_from : ℕ → ℕ → ℕ
key_from set cmd = cmd + 256 * set

-- `read<uint16_t>`, `read<uint32_t>` and `read<uint64_t>` are `read n` for 2, 4 and 8 bytes.
unfoldable pub read : ℕ → List ℕ → Option ℕ
read zero buffer = some 0
read (suc n) [] = none
read (suc n) (b ∷ rest) = do high ← read n rest; some (b + 256 * high)

-- The bytes that `write` stores for an unsigned integer of `n` bytes, in their order.
unfoldable pub write : ℕ → ℕ → List ℕ
write zero value = []
write (suc n) value = (value % 256) ∷ write n (value / 256)

-- read gets back what write stored for a value that fits into n bytes, whatever follows it.
pub read-write :
    (n value : ℕ) (rest : List ℕ) → value < 256 ^ n → read n (write n value ++ rest) ≡ some value
unfolding read write
read-write zero value rest h = ground arith
read-write (suc n) value rest h =
    ground (arith, read-write n (value / 256) rest (omega (arith, pow-suc 256 n)))

pub write-IsByte : (n value : ℕ) → All IsByte (write n value)
unfolding write
write-IsByte zero value = tt
write-IsByte (suc n) value = (omega arith, write-IsByte n (value / 256))

-- Keys of different messages differ.
pub key_from-injective :
    (set cmd set' cmd' : ℕ)
    → IsByte cmd
    → IsByte cmd'
    → key_from set cmd ≡ key_from set' cmd'
    → (set ≡ set') × (cmd ≡ cmd')
unfolding key_from
key_from-injective set cmd set' cmd' h h' e = omega arith

-- `buffer[i]`
abbrev pub byte : ℕ → List ℕ → Option ℕ
byte i buffer = get_elem? buffer i

-- `read<...>(buffer + i)`
abbrev pub read_at : ℕ → ℕ → List ℕ → Option ℕ
read_at n i buffer = read n (drop i buffer)

-- A `float` is the number whose 32 bits are its representation.
abbrev pub Float : Type 0
Float = ℕ

-- `-x` of an `int16_t`, converted back to `int16_t`.
pub negated_16 : ℤ → ℤ
negated_16 x = signed 16 (pattern_of 16 (neg x))
