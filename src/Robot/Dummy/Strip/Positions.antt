-- ===== src/Robot/Dummy/Strip/Positions.antt =====
-- Where generate_strip_image of robomaster_sim/src/dummy_robot.cpp writes.
use native.Mathlib.Nat.{
  add-mul-mod_self_left, mod-eq_of_lt, mod-lt, div-add-mod, mul-add-div_right,
  mul-add-mod_self_right, div-eq_of_lt, mul-le-mul_right, mod-add-mod, add-mod-mod, add-mod_right,
}
use msde_robotics.Prelude.{
  ℕ, zero, suc, ◌+◌, ◌-◌, ◌*◌, ◌/◌, ◌%◌, ◌≤◌, ◌<◌, ◌≡◌, refl, sym, ◌∙◌, ap, List, [], ◌∷◌, Bool,
  true, false, some, ◌==◌, if◌then◌else◌, length, get_elem?, set, arith,
}

-- A byte of the image: a part of a pixel in a row and a column.
abbrev pub byte_at : ℕ → ℕ → ℕ → ℕ → ℕ
byte_at width row column part = 3 * (row * width + column) + part

pub get_elem?-set :
    (b : List ℕ) (p t v : ℕ)
    → p < length b
    → get_elem? (set b p v) t ≡ (if p == t then some v else get_elem? b t)
get_elem?-set [] p t v h = elim h [ ]
get_elem?-set (x ∷ b) zero zero v h = refl
get_elem?-set (x ∷ b) zero (suc t) v h = ground arith
get_elem?-set (x ∷ b) (suc p) zero v h = ground arith
get_elem?-set (x ∷ b) (suc p) (suc t) v h = ground (arith, get_elem?-set b p t v)

pub below : (w r c h : ℕ) → r < h → c < w → r * w + c < h * w
below w r c h hr hc = let k : suc r * w ≤ h * w = mul-le-mul_right w hr in omega (arith, k, hc)

pub unique :
    (w r c row column part : ℕ)
    → 0 < w
    → c < w
    → column < w
    → part < 3
    → byte_at w r c 0 ≡ byte_at w row column part
    → (part ≡ 0) × (c ≡ column) × (r ≡ row)
unique w r c row column part hw hc hl hp e =
    let whole : r * w + c ≡ row * w + column = omega (arith, e, hp) in
    (
      omega (arith, e, hp),
      sym (mod-eq_of_lt hc)
          ∙ sym (mul-add-mod_self_right r w c)
          ∙ ap (λ (x : ℕ). x % w) whole
          ∙ mul-add-mod_self_right row w column
          ∙ mod-eq_of_lt hl,
      let quotient : r + c / w ≡ row + column / w =
            sym (mul-add-div_right hw r c)
            ∙ ap (λ (x : ℕ). x / w) whole
            ∙ mul-add-div_right hw row column in
          omega (arith, quotient, div-eq_of_lt hc, div-eq_of_lt hl),
    )

module _ (w h : ℕ) (hw : 0 < w) (hh : 0 < h) where
  -- Where the inner loop writes.
  pub position : (i j : ℕ) → (3 * (j * w + i)) % (w * h * 3) ≡ byte_at w ((j + i / w) % h) (i % w) 0
  position i j =
      let r = (j + i / w) % h in
      let q = (j + i / w) / h in
      let row : h * q + r ≡ j + i / w = div-add-mod (j + i / w) h in
      let column : w * (i / w) + i % w ≡ i = div-add-mod i w in
      let split : 3 * (j * w + i) ≡ byte_at w r (i % w) 0 + (w * h * 3) * q =
        omega (arith, ap (λ (t : ℕ). t * w) row, column) in
      let inside = below w r (i % w) h (mod-lt (j + i / w) hh) (mod-lt i hw) in
      let small : byte_at w r (i % w) 0 < w * h * 3 = omega (arith, inside) in
      ap (λ (t : ℕ). t % (w * h * 3)) split
      ∙ add-mul-mod_self_left (byte_at w r (i % w) 0) (w * h * 3) q
      ∙ mod-eq_of_lt small

  pub position_small : (i j : ℕ) → (3 * (j * w + i)) % (w * h * 3) < w * h * 3
  position_small i j =
      let inside = below w ((j + i / w) % h) (i % w) h (mod-lt (j + i / w) hh) (mod-lt i hw) in
      omega (arith, position i j, inside)

  -- Whether the inner loop reaches the row.
  unfoldable pub rows : ℕ → ℕ → ℕ → ℕ → Bool
  rows zero j turns row = false
  rows (suc left) j turns row =
      let rest = rows left (suc j) turns row in if (j + turns) % h == row then true else rest

  rows-true :
      (left j turns row k x : ℕ)
      → k < left
      → x ≡ j + k + turns
      → x % h ≡ row
      → rows left j turns row ≡ true
  unfolding rows
  rows-true zero j turns row k x bound d e = elim bound [ ]
  rows-true (suc left) j turns row zero x bound d e =
      let here : (j + turns) % h ≡ row = ap (λ (y : ℕ). y % h) (omega (arith, d)) ∙ e in
      ground (arith, here)
  rows-true (suc left) j turns row (suc k) x bound d e =
      let later = rows-true left (suc j) turns row k x (omega arith) (omega arith) e in
      ground (arith, later)

  pub all_rows : (turns row : ℕ) → row < h → rows h 0 turns row ≡ true
  all_rows turns row hr =
      let r = turns % h in
      let up = row + (h - r) in
      let less : r < h = mod-lt turns hh in
      let e : (up % h + turns) % h ≡ row =
        mod-add-mod up h turns
        ∙ sym (add-mod-mod up turns h)
        ∙ ap (λ (x : ℕ). x % h) (omega (arith, less))
        ∙ add-mod_right row h
        ∙ mod-eq_of_lt hr in
      rows-true h 0 turns row (up % h) (up % h + turns) (mod-lt up hh) (omega arith) e
