-- ===== src/Wire/Discovery/Cipher.antt =====
-- The cipher is its own inverse, and a receiver that applies it gets the message's layout.
use msde_robotics.Prelude.{
  ℕ, zero, suc, ◌+◌, ◌%◌, ◌<◌, ◌≡◌, refl, sym, ap, ap₂, ◌∙◌, Bool, true, false, List, [], ◌∷◌, ◌++◌,
  arith, if◌then◌else◌, take, replicate, bit_and, bit_xor, All, All-append, IsByte, ◌*◌, ◌^◌, ◌/◌,
}
use msde_robotics.Prelude.Bits.{bit_and_mask, bit_xor_cancel, bit_xor_split}
use msde_robotics.Wire.Discovery.{
  next_key, encrypt_loop, encrypt, copy, plain_message, discovery_message,
}

-- Only the low byte of the key matters.
xor_byte : (b k : ℕ) → IsByte b → bit_and (bit_xor b k) 0xff ≡ bit_xor b (k % 256)
xor_byte b k h =
    let eb : 0 * 2 ^ 8 + b ≡ b = omega arith in
    let ek : k / 256 * 2 ^ 8 + k % 256 ≡ k = omega arith in
    let parts = bit_xor_split 8 0 b (k / 256) (k % 256) h (omega arith) in
    omega (arith, bit_and_mask 8 (bit_xor b k), sym (ap₂ bit_xor eb ek), parts.0, parts.1)

twice_byte : (b k : ℕ) → IsByte b → bit_and (bit_xor (bit_and (bit_xor b k) 0xff) k) 0xff ≡ b
twice_byte b k h =
    let low : bit_and (bit_xor b k) 0xff < 256 = omega (arith, bit_and_mask 8 (bit_xor b k)) in
    xor_byte (bit_and (bit_xor b k) 0xff) k low
    ∙ ap (λ (t : ℕ). bit_xor t (k % 256)) (xor_byte b k h)
    ∙ bit_xor_cancel b (k % 256)

encrypt_loop_twice :
    (key : ℕ) (bytes : List ℕ)
    → All IsByte bytes
    → encrypt_loop key (encrypt_loop key bytes) ≡ bytes
unfolding encrypt_loop
encrypt_loop_twice key [] h = refl
encrypt_loop_twice key (b ∷ bs) h =
    ap₂ ◌∷◌ (twice_byte b key h.0) (encrypt_loop_twice (next_key key) bs h.1)

-- Encrypting a byte string twice gives it back.
encrypt_twice : (bytes : List ℕ) → All IsByte bytes → encrypt (encrypt bytes) ≡ bytes
unfolding encrypt
encrypt_twice bytes h = encrypt_loop_twice 0x07 bytes h

-- The eight bytes of the application's name: cut to eight characters, or padded with zeros.
pub app_field : ℕ → List ℕ → List ℕ
app_field zero app_id = []
app_field (suc n) [] = 0 ∷ app_field n []
app_field (suc n) (c ∷ cs) = c ∷ app_field n cs

-- The last of the three copies, behind sixteen bytes that it leaves alone.
module _ (x0 x1 x2 x3 x4 x5 x6 x7 x8 x9 x10 x11 x12 x13 x14 x15 : ℕ) where
  copy_name :
      (app_id : List ℕ)
      → copy
          (x0
            ∷ x1
            ∷ x2
            ∷ x3
            ∷ x4
            ∷ x5
            ∷ x6
            ∷ x7
            ∷ x8
            ∷ x9
            ∷ x10
            ∷ x11
            ∷ x12
            ∷ x13
            ∷ x14
            ∷ x15
            ∷ replicate 8 0)
          16
          (take 8 (app_id ++ (0 ∷ [])))
        ≡ x0
          ∷ x1
          ∷ x2
          ∷ x3
          ∷ x4
          ∷ x5
          ∷ x6
          ∷ x7
          ∷ x8
          ∷ x9
          ∷ x10
          ∷ x11
          ∷ x12
          ∷ x13
          ∷ x14
          ∷ x15
          ∷ app_field 8 app_id
  unfolding copy app_field
  copy_name [] = refl
  copy_name (a ∷ []) = refl
  copy_name (a ∷ b ∷ []) = refl
  copy_name (a ∷ b ∷ c ∷ []) = refl
  copy_name (a ∷ b ∷ c ∷ d ∷ []) = refl
  copy_name (a ∷ b ∷ c ∷ d ∷ e ∷ []) = refl
  copy_name (a ∷ b ∷ c ∷ d ∷ e ∷ f ∷ []) = refl
  copy_name (a ∷ b ∷ c ∷ d ∷ e ∷ f ∷ g ∷ []) = refl
  copy_name (a ∷ b ∷ c ∷ d ∷ e ∷ f ∷ g ∷ h ∷ rest) = refl

plain_layout :
    (is_pairing : Bool) (i0 i1 i2 i3 m0 m1 m2 m3 m4 m5 : ℕ) (app_id : List ℕ)
    → plain_message is_pairing (i0 ∷ i1 ∷ i2 ∷ i3 ∷ []) (m0 ∷ m1 ∷ m2 ∷ m3 ∷ m4 ∷ m5 ∷ []) app_id
      ≡ 0x5a
        ∷ 0x5b
        ∷ 0
        ∷ 0
        ∷ 0
        ∷ (if is_pairing then 1 else 0)
        ∷ i0
        ∷ i1
        ∷ i2
        ∷ i3
        ∷ m0
        ∷ m1
        ∷ m2
        ∷ m3
        ∷ m4
        ∷ m5
        ∷ app_field 8 app_id
unfolding plain_message
plain_layout true i0 i1 i2 i3 m0 m1 m2 m3 m4 m5 app_id =
    copy_name 0x5a 0x5b 0 0 0 1 i0 i1 i2 i3 m0 m1 m2 m3 m4 m5 app_id
plain_layout false i0 i1 i2 i3 m0 m1 m2 m3 m4 m5 app_id =
    copy_name 0x5a 0x5b 0 0 0 0 i0 i1 i2 i3 m0 m1 m2 m3 m4 m5 app_id

app_field-IsByte : (n : ℕ) (app_id : List ℕ) → All IsByte app_id → All IsByte (app_field n app_id)
unfolding app_field
app_field-IsByte zero app_id h = tt
app_field-IsByte (suc n) [] h = (omega arith, app_field-IsByte n [] tt)
app_field-IsByte (suc n) (c ∷ cs) h = (h.0, app_field-IsByte n cs h.1)

-- Decrypting a discovery message, whose arguments are bytes, gives the frame start, the pairing
-- flag, the four bytes of the address, the six of the hardware address and the name, cut or
-- padded with zeros to eight, in this order.
pub discovery_message_layout :
    (is_pairing : Bool) (i0 i1 i2 i3 m0 m1 m2 m3 m4 m5 : ℕ) (app_id : List ℕ)
    → All IsByte (i0 ∷ i1 ∷ i2 ∷ i3 ∷ [])
    → All IsByte (m0 ∷ m1 ∷ m2 ∷ m3 ∷ m4 ∷ m5 ∷ [])
    → All IsByte app_id
    → encrypt (
        discovery_message is_pairing
          (i0 ∷ i1 ∷ i2 ∷ i3 ∷ [])
          (m0 ∷ m1 ∷ m2 ∷ m3 ∷ m4 ∷ m5 ∷ [])
          app_id)
      ≡ 0x5a
        ∷ 0x5b
        ∷ 0
        ∷ 0
        ∷ 0
        ∷ (if is_pairing then 1 else 0)
        ∷ i0
        ∷ i1
        ∷ i2
        ∷ i3
        ∷ m0
        ∷ m1
        ∷ m2
        ∷ m3
        ∷ m4
        ∷ m5
        ∷ app_field 8 app_id
unfolding discovery_message
discovery_message_layout is_pairing i0 i1 i2 i3 m0 m1 m2 m3 m4 m5 app_id hi hm ha =
    ap (λ (m : List ℕ). encrypt (encrypt m))
      (plain_layout is_pairing i0 i1 i2 i3 m0 m1 m2 m3 m4 m5 app_id)
    ∙ encrypt_twice _ (bytes is_pairing)
  where
    fields : All IsByte (i0 ∷ i1 ∷ i2 ∷ i3 ∷ m0 ∷ m1 ∷ m2 ∷ m3 ∷ m4 ∷ m5 ∷ app_field 8 app_id)
    fields =
        All-append IsByte (i0 ∷ i1 ∷ i2 ∷ i3 ∷ [])
          (m0 ∷ m1 ∷ m2 ∷ m3 ∷ m4 ∷ m5 ∷ app_field 8 app_id) hi
          (All-append IsByte (m0 ∷ m1 ∷ m2 ∷ m3 ∷ m4 ∷ m5 ∷ []) (app_field 8 app_id) hm
            (app_field-IsByte 8 app_id ha))

    front : (b : Bool) → All IsByte (0x5a ∷ 0x5b ∷ 0 ∷ 0 ∷ 0 ∷ (if b then 1 else 0) ∷ [])
    front true = omega arith
    front false = omega arith

    bytes :
        (b : Bool)
        → All IsByte (
            (0x5a ∷ 0x5b ∷ 0 ∷ 0 ∷ 0 ∷ (if b then 1 else 0) ∷ [])
            ++ (i0 ∷ i1 ∷ i2 ∷ i3 ∷ m0 ∷ m1 ∷ m2 ∷ m3 ∷ m4 ∷ m5 ∷ app_field 8 app_id))
    bytes b =
        All-append IsByte (0x5a ∷ 0x5b ∷ 0 ∷ 0 ∷ 0 ∷ (if b then 1 else 0) ∷ [])
          (i0 ∷ i1 ∷ i2 ∷ i3 ∷ m0 ∷ m1 ∷ m2 ∷ m3 ∷ m4 ∷ m5 ∷ app_field 8 app_id) (front b) fields
