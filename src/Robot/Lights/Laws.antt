-- ===== src/Robot/Lights/Laws.antt =====
-- The steady effects: the colours of the parts that a mask selects.
use msde_robotics.Prelude.{
  ℕ, zero, suc, ◌+◌, ◌<◌, ◌^◌, ◌≡◌, refl, List, Option, some, Bool, true, false, not, ◌&&◌, ltb,
  leb, ◌==◌, if◌then◌else◌, bit_and, arith,
}
use msde_robotics.Prelude.SortedMap.{lookup, assign, or_else, lookup-assign}
use msde_robotics.Wire.Bytes.{Float}
use msde_robotics.Robot.Maths.{Math}
use msde_robotics.Robot.Lights.{
  Color, black, off, on, is_steady, CompositeLed, paint, get_color, update_active, update_composite,
}

abbrev has_part : ℕ → ℕ → Bool
has_part mask j = not (bit_and mask (2 ^ j) == 0)

lookup-paint :
    (n i mask j : ℕ) (c : Color) (colors : List (ℕ × Color))
    → lookup j (paint n i mask c colors)
      ≡ (if leb i j && ltb j (i + n) && has_part mask j then some c else lookup j colors)
unfolding paint
lookup-paint zero i mask j c colors = ground arith
lookup-paint (suc n) i mask j c colors =
    let painted = if has_part mask i then assign i c colors else colors in
    grind (arith, lookup-paint n (i + 1) mask j c painted, lookup-assign j i c colors)

steady_color :
    (effect : ℕ) (c d : Color)
    → is_steady effect ≡ true
    → (if effect == off
        then black
        else if effect == off
        then black
        else if effect == on
        then c
        else d)
      ≡ (if effect == off then black else c)
steady_color effect c d h = ground arith

masked :
    (b : Bool) (c : Color) (o : Option Color)
    → or_else (if b then some c else o) black ≡ (if b then c else or_else o black)
masked true c o = refl
masked false c o = refl

-- After a steady effect on the parts of a mask, a part of the light has the new colour, black for
-- `off`, exactly if the mask selects it. Any other part keeps the colour that it was painted in, or
-- black if it never was.
pub get_color-update_composite :
    (m : Math) (c : Color) (effect : ℕ) (period_1 period_2 : Float) (loop : Bool) (mask j : ℕ)
    (l : CompositeLed)
    → is_steady effect ≡ true
    → j < l.number
    → get_color j (update_composite m c effect period_1 period_2 loop mask l) ≡ (
        if has_part mask j
        then if effect == off then black else c
        else or_else (lookup j l.colors) black)
unfolding get_color update_composite update_active
get_color-update_composite m c effect period_1 period_2 loop mask j l steady h =
    let new = if effect == off then black else c in
    let painted = lookup-paint l.number 0 mask j new l.colors in
    let same = steady_color effect c l.led.color steady in
    let below : ltb j (0 + l.number) ≡ true = ground (arith, h) in
    let above : leb 0 j ≡ true = ground arith in
    rw (steady, steady, same, painted, above, below)
      (masked (has_part mask j) new (lookup j l.colors))
