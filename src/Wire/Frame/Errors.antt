-- ===== src/Wire/Frame/Errors.antt =====
-- What `decode_request` rejects, and what it reads.
use msde_robotics.Prelude.{
  ℕ, zero, suc, ◌≤◌, ◌<◌, ◌≡◌, ◌≢◌, refl, sym, ap, ◌∙◌, List, [], ◌∷◌, none, some, arith, length,
  get_elem?, set, All, IsByte,
}
use msde_robotics.Wire.Crc.{crc8_calc}
use msde_robotics.Wire.Crc.Detect.{crc8_calc_one_change}
use msde_robotics.Wire.Frame.{Decoded, accepted, decode_request}

get_elem?-some : (xs : List ℕ) (i : ℕ) → i < length xs → (x : ℕ) × (get_elem? xs i ≡ some x)
get_elem?-some [] i h = absurd (omega arith)
get_elem?-some (x ∷ xs) zero h = (x, refl)
get_elem?-some (x ∷ xs) (suc i) h = get_elem?-some xs i (omega arith)

-- On an array of at least eleven bytes no access of decode_request is out of bounds, whatever it
-- holds and however few bytes were received.
pub decode_request_in_bounds :
    (buffer : List ℕ) (received : ℕ) → 11 ≤ length buffer → decode_request buffer received ≢ none
unfolding decode_request
decode_request_in_bounds buffer received h e = ground (
  arith,
  get_elem?-some buffer 0 (omega arith),
  get_elem?-some buffer 1 (omega arith),
  get_elem?-some buffer 2 (omega arith),
  get_elem?-some buffer 3 (omega arith),
  get_elem?-some buffer 4 (omega arith),
  get_elem?-some buffer 5 (omega arith),
  get_elem?-some buffer 6 (omega arith),
  get_elem?-some buffer 7 (omega arith),
  get_elem?-some buffer 8 (omega arith),
  get_elem?-some buffer 9 (omega arith),
  get_elem?-some buffer 10 (omega arith),
)

-- The two facts about the first four bytes that acceptance needs.
accepted_header :
    (a b c f : ℕ) (rest : List ℕ) (received : ℕ) (d : Decoded)
    → decode_request (a ∷ b ∷ c ∷ f ∷ rest) received ≡ some (accepted d)
    → (a ≡ 0x55) × (crc8_calc (a ∷ b ∷ c ∷ []) ≡ f)
unfolding decode_request
accepted_header a b c f rest received d e = ground arith

get_elem?-none : (xs : List ℕ) (i : ℕ) → length xs ≤ i → get_elem? xs i ≡ none
get_elem?-none [] i h = refl
get_elem?-none (x ∷ xs) zero h = absurd (omega arith)
get_elem?-none (x ∷ xs) (suc i) h = get_elem?-none xs i (omega arith)

short_buffer :
    (buffer : List ℕ) (received : ℕ) (d : Decoded)
    → length buffer < 4
    → decode_request buffer received ≢ some (accepted d)
unfolding decode_request
short_buffer buffer received d h e = ground (arith, get_elem?-none buffer 3 (omega arith))

-- In a buffer of bytes that decode_request accepts, a change of any one of the first four bytes
-- to another byte makes it not accepted.
pub decode_request_header_change :
    (buffer : List ℕ) (received i x : ℕ) (d e : Decoded)
    → All IsByte buffer
    → IsByte x
    → i < 4
    → decode_request buffer received ≡ some (accepted d)
    → get_elem? buffer i ≢ some x
    → decode_request (set buffer i x) received ≢ some (accepted e)
decode_request_header_change (a ∷ b ∷ c ∷ f ∷ rest) received zero x d e hb hx hi old new again =
    new (
      ap some (
        (accepted_header a b c f rest received d old).0
        ∙ sym (accepted_header x b c f rest received e again).0))
decode_request_header_change (a ∷ b ∷ c ∷ f ∷ rest) received (suc zero) x d e hb hx hi old new
      again =
    crc8_calc_one_change (a ∷ []) b x (c ∷ []) (hb.0, tt) hb.1.0 hx (hb.1.1.0, tt)
      (λ q. new (ap some q))
      ((accepted_header a b c f rest received d old).1
        ∙ sym (accepted_header a x c f rest received e again).1)
decode_request_header_change (a ∷ b ∷ c ∷ f ∷ rest) received (suc (suc zero)) x d e hb hx hi old new
      again =
    crc8_calc_one_change (a ∷ b ∷ []) c x [] (hb.0, (hb.1.0, tt)) hb.1.1.0 hx tt
      (λ q. new (ap some q))
      ((accepted_header a b c f rest received d old).1
        ∙ sym (accepted_header a b x f rest received e again).1)
decode_request_header_change (a ∷ b ∷ c ∷ f ∷ rest) received (suc (suc (suc zero))) x d e hb hx hi
      old new again =
    new (
      ap some (
        sym (accepted_header a b c f rest received d old).1
        ∙ (accepted_header a b c x rest received e again).1))
decode_request_header_change (a ∷ b ∷ c ∷ f ∷ rest) received (suc (suc (suc (suc i)))) x d e hb hx
      hi old new again =
    absurd (omega arith)
decode_request_header_change (a ∷ b ∷ c ∷ []) received i x d e hb hx hi old new again =
    absurd (short_buffer (a ∷ b ∷ c ∷ []) received d (omega arith) old)
decode_request_header_change (a ∷ b ∷ []) received i x d e hb hx hi old new again =
    absurd (short_buffer (a ∷ b ∷ []) received d (omega arith) old)
decode_request_header_change (a ∷ []) received i x d e hb hx hi old new again =
    absurd (short_buffer (a ∷ []) received d (omega arith) old)
decode_request_header_change [] received i x d e hb hx hi old new again =
    absurd (short_buffer [] received d (omega arith) old)
