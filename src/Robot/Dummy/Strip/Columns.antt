-- ===== src/Robot/Dummy/Strip/Columns.antt =====
-- What the image of robomaster_sim/src/dummy_robot.cpp shows: a strip of whole columns.
use native.Mathlib.Nat.{mod-eq_of_lt, mod-lt, mul-pos}
use msde_robotics.Prelude.{
  ℕ, zero, suc, ◌+◌, ◌-◌, ◌*◌, ◌/◌, ◌%◌, ◌^◌, ◌<◌, ◌≡◌, refl, ◌∙◌, List, Bool, true, false, ◌&&◌,
  some, ltb, ◌==◌, if◌then◌else◌, length, get_elem?, set, replicate, length-set, length-replicate,
  arith,
}
use msde_robotics.Robot.Dummy.Strip.{paint_column, paint_columns, generate_strip_image}
use msde_robotics.Robot.Dummy.Strip.Positions.{
  byte_at, get_elem?-set, below, unique, position, position_small, rows, all_rows,
}

-- Whether one of `count` columns from i on is this column, wrapped around.
unfoldable pub covers : ℕ → ℕ → ℕ → ℕ → Bool
covers zero i width column = false
covers (suc count) i width column =
    let rest = covers count (suc i) width column in if i % width == column then true else rest

module _ (w h : ℕ) (hw : 0 < w) (hh : 0 < h) where
  length-paint_column :
      (left i j : ℕ) (b : List ℕ) → length (paint_column left i j w (w * h * 3) b) ≡ length b
  unfolding paint_column
  length-paint_column zero i j b = refl
  length-paint_column (suc left) i j b =
      let p = (3 * (j * w + i)) % (w * h * 3) in
      length-paint_column left i (suc j) (set b p 255) ∙ length-set b p 255

  length-paint_columns :
      (left i : ℕ) (b : List ℕ) → length (paint_columns left i w h (w * h * 3) b) ≡ length b
  unfolding paint_columns
  length-paint_columns zero i b = refl
  length-paint_columns (suc left) i b =
      length-paint_columns left (suc i) (paint_column h i 0 w (w * h * 3) b)
      ∙ length-paint_column h i 0 b

  module _ (row column part : ℕ) (hr : row < h) (hc : column < w) (hp : part < 3) where
    -- Whether the loop writes the byte in the row that it is at.
    abbrev hit : ℕ → ℕ → Bool
    hit i j = part == 0 && i % w == column && (j + i / w) % h == row

    position-hit :
        (i j : ℕ) → ((3 * (j * w + i)) % (w * h * 3) == byte_at w row column part) ≡ hit i j
    position-hit i j =
        let p = position w h hw hh i j in
        let same = unique w ((j + i / w) % h) (i % w) row column part hw (mod-lt i hw) hc hp in
        rw p (ground (arith, same))

    get_elem?-paint_column :
        (left i j : ℕ) (b : List ℕ)
        → length b ≡ w * h * 3
        → get_elem? (paint_column left i j w (w * h * 3) b) (byte_at w row column part) ≡ (
            if part == 0 && i % w == column && rows w h hw hh left j (i / w) row
            then some 255
            else get_elem? b (byte_at w row column part))
    unfolding paint_column rows
    get_elem?-paint_column zero i j b hb = ground arith
    get_elem?-paint_column (suc left) i j b hb =
        let p = (3 * (j * w + i)) % (w * h * 3) in
        let written =
          get_elem?-set b p (byte_at w row column part) 255
            (omega (arith, position_small w h hw hh i j, hb)) in
        let rest = get_elem?-paint_column left i (suc j) (set b p 255) (length-set b p 255 ∙ hb) in
        let known = position-hit i j in ground (arith, rest, written, known)

    get_elem?-paint_columns :
        (left i : ℕ) (b : List ℕ)
        → length b ≡ w * h * 3
        → get_elem? (paint_columns left i w h (w * h * 3) b) (byte_at w row column part) ≡ (
            if part == 0 && covers left i w column
            then some 255
            else get_elem? b (byte_at w row column part))
    unfolding paint_columns covers
    get_elem?-paint_columns zero i b hb = ground arith
    get_elem?-paint_columns (suc left) i b hb =
        let next = paint_column h i 0 w (w * h * 3) b in
        let here = get_elem?-paint_column h i 0 b hb in
        let rest = get_elem?-paint_columns left (suc i) next (length-paint_column h i 0 b ∙ hb) in
        let reached = all_rows w h hw hh (i / w) row hr in ground (arith, here, rest, reached)

get_elem?-replicate : (n t v : ℕ) → t < n → get_elem? (replicate n v) t ≡ some v
get_elem?-replicate zero t v h = elim h [ ]
get_elem?-replicate (suc n) zero v h = refl
get_elem?-replicate (suc n) (suc t) v h = get_elem?-replicate n t v (omega arith)

-- For an image with a width and a height, whose size and whose last column fit into 32 bits, the
-- generated image has three bytes for each pixel, and it shows a strip of whole columns: the first
-- byte of a pixel is 255 if the pixel's column is one of those from i0 to i1, wrapped around at the
-- width, and 0 if not; the other two bytes are 0. Where i0 is greater than i1, the strip ends at
-- i1 + width.
pub generate_strip_image-covers :
    (i0 i1 width height : ℕ)
    → 0 < width
    → 0 < height
    → width * height * 3 < 2 ^ 32
    → i1 + width < 2 ^ 32
    → let last = if ltb i1 i0 then i1 + width else i1 in
      (image : List ℕ) × (generate_strip_image i0 i1 width height ≡ some image)
      × (length image ≡ width * height * 3)
      × ((row column part : ℕ)
          → row < height
          → column < width
          → part < 3
          → get_elem? image (byte_at width row column part)
            ≡ some (if part == 0 && covers (last - i0) i0 width column then 255 else 0))
unfolding generate_strip_image
generate_strip_image-covers i0 i1 width height hw hh fits ends =
    let size = width * height * 3 in
    let last = if ltb i1 i0 then i1 + width else i1 in
    let blank : List ℕ = replicate size 0 in
    let some_size : 0 < size = omega (arith, mul-pos hw hh) in
    let image : List ℕ = paint_columns (last - i0) i0 width height size blank in
    let made : generate_strip_image i0 i1 width height ≡ some image =
      rw (mod-eq_of_lt fits, mod-eq_of_lt ends) (ground (arith, some_size)) in
    (
      image,
      made,
      length-paint_columns width height hw hh (last - i0) i0 blank ∙ length-replicate size 0,
      λ row column part hr hc hp.
          let painted =
            get_elem?-paint_columns width height hw hh row column part hr hc hp (last - i0) i0 blank
              (length-replicate size 0) in
          let inside = below width row column height hr hc in
          let dark =
            get_elem?-replicate size (byte_at width row column part) 0 (omega (arith, inside)) in
          ground (arith, painted, dark),
    )
