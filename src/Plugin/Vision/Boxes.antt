-- ===== src/Plugin/Vision/Boxes.antt =====
-- The boxes that the detector of robomaster_sim/coppeliaSim_plugin/coppeliasim_robot.cpp finds,
-- described by the image's pixels.
use msde_robotics.Prelude.{
  ℕ, zero, suc, ◌+◌, ◌*◌, ◌%◌, ◌^◌, ◌≤◌, ◌≡◌, refl, inl, inr, List, [], ◌∷◌, ◌++◌, Bool, false,
  ◌&&◌, Option, none, some, ◌==◌, if◌then◌else◌, length, drop, length-drop, arith, Bool-cases,
  Option-cases, if_split,
}
use msde_robotics.Prelude.SortedMap.{lookup, assign, or_else, lookup-assign}
use msde_robotics.Plugin.Vision.{
  ImageRect, Sight, Rects, in_mask, empty_classes, grow, add_pixel, see, read_pixel, scan_row,
  scan_rows,
}

-- A row, a column and the handle that the pixel there spells.
pub record Pixel : Type 0 where
  pub i : ℕ
  pub j : ℕ
  pub handle : ℕ

-- The pixels of an image, row by row.
unfoldable pub pixels_row : ℕ → ℕ → ℕ → List ℕ → List Pixel
pixels_row zero i j buffer = []
pixels_row (suc left) i j (a ∷ b ∷ c ∷ rest) =
    record { i = i; j = j; handle = a + b * 2 ^ 8 + c * 2 ^ 16 } ∷ pixels_row left i (suc j) rest
pixels_row (suc left) i j _ = []

unfoldable pub pixels : ℕ → ℕ → ℕ → List ℕ → List Pixel
unfolding pixels_row
pixels zero i width buffer = []
pixels (suc left) i width buffer =
    pixels_row width i 0 buffer ++ pixels left (suc i) width (drop (3 * width) buffer)

-- Every object with a class has a root.
abbrev pub IsRooted : Sight → Type 0
IsRooted s =
    (h k : ℕ)
    → lookup h s.vision_class_for_handle ≡ some k
    → (root : ℕ) × (lookup h s.root_for_handle ≡ some root)

-- The pixels taken into a rectangle, one after the other.
unfoldable pub grow_all : List Pixel → Option ImageRect → Option ImageRect
grow_all [] o = o
grow_all (p ∷ ps) o = grow_all ps (some (grow p.i p.j o))

-- The rectangle of a class and a root.
abbrev pub rect_of : ℕ → ℕ → Rects → Option ImageRect
rect_of k r rects = lookup r (or_else (lookup k rects) [])

tripled : (n : ℕ) → 3 * suc n ≡ suc (suc (suc (3 * n)))
tripled n = omega arith

enough_left :
    (left width : ℕ) (buffer : List ℕ)
    → 3 * (suc left * width) ≤ length buffer
    → 3 * (left * width) ≤ length (drop (3 * width) buffer)
enough_left left width buffer h = grind (arith, length-drop (3 * width) buffer)

module _ (s : Sight) (mask : ℕ) where
  -- Whether the object is of a class in the mask and its root's low byte is `r`.
  unfoldable pub shows : ℕ → ℕ → ℕ → Bool
  shows k r handle = elim (lookup handle s.vision_class_for_handle) [
    | none ↦ false
    | some k' ↦ in_mask k' mask && k' == k && or_else (lookup handle s.root_for_handle) 0 % 256 == r
  ]

  -- The pixels that show such an object.
  unfoldable pub shown : ℕ → ℕ → List Pixel → List Pixel
  unfolding shows
  shown k r [] = []
  shown k r (p ∷ ps) = let rest = shown k r ps in if shows k r p.handle then p ∷ rest else rest

  -- `see` where every object with a class has a root.
  unfoldable pub mark : Pixel → Rects → Rects
  mark p rects = elim (lookup p.handle s.vision_class_for_handle) [
    | none ↦ rects
    | some k ↦
        if in_mask k mask
        then add_pixel k (or_else (lookup p.handle s.root_for_handle) 0 % 256) p.i p.j rects
        else rects
  ]

  unfoldable pub mark_all : List Pixel → Rects → Rects
  mark_all [] rects = rects
  mark_all (p ∷ ps) rects = mark_all ps (mark p rects)

  mark_all-append :
      (ps qs : List Pixel) (rects : Rects)
      → mark_all (ps ++ qs) rects ≡ mark_all qs (mark_all ps rects)
  unfolding mark_all
  mark_all-append [] qs rects = refl
  mark_all-append (p ∷ ps) qs rects = mark_all-append ps qs (mark p rects)

  see-mark :
      (rooted : IsRooted s) (i j h : ℕ) (rects : Rects)
      → see s mask i j h rects ≡ some (mark (record { i = i; j = j; handle = h }) rects)
  unfolding see mark
  see-mark rooted i j h rects = elim (Option-cases (lookup h s.vision_class_for_handle)) [
    | inl e ↦ rw (e, see, mark) refl
    | inr (k, e) ↦ let (root, e') = rooted h k e in rw (e, e', see, mark) refl
  ]

  scan_row-mark :
      (rooted : IsRooted s) (left i j : ℕ) (buffer : List ℕ) (rects : Rects)
      → 3 * left ≤ length buffer
      → scan_row s mask left i j buffer rects
        ≡ some (drop (3 * left) buffer, mark_all (pixels_row left i j buffer) rects)
  unfolding scan_row pixels_row mark_all read_pixel
  scan_row-mark rooted zero i j buffer rects h = refl
  scan_row-mark rooted (suc left) i j (a ∷ b ∷ c ∷ rest) rects h =
      rw
        (
          tripled left,
          see-mark rooted i j (a + b * 2 ^ 8 + c * 2 ^ 16) rects,
          scan_row-mark rooted left i (suc j) rest
              (mark (record { i = i; j = j; handle = a + b * 2 ^ 8 + c * 2 ^ 16 }) rects)
              (omega arith),
        )
        refl
  scan_row-mark rooted (suc left) i j (a ∷ b ∷ []) rects h = absurd (omega arith)
  scan_row-mark rooted (suc left) i j (a ∷ []) rects h = absurd (omega arith)
  scan_row-mark rooted (suc left) i j [] rects h = absurd (omega arith)

  pub scan_rows-mark :
      (rooted : IsRooted s) (left i width : ℕ) (buffer : List ℕ) (rects : Rects)
      → 3 * (left * width) ≤ length buffer
      → scan_rows s mask left i width buffer rects
        ≡ some (mark_all (pixels left i width buffer) rects)
  unfolding scan_rows pixels mark_all
  scan_rows-mark rooted zero i width buffer rects h = refl
  scan_rows-mark rooted (suc left) i width buffer rects h =
      rw
        (
          scan_row-mark rooted width i 0 buffer rects (grind arith),
          scan_rows-mark rooted left (suc i) width (drop (3 * width) buffer)
              (mark_all (pixels_row width i 0 buffer) rects) (enough_left left width buffer h),
          mark_all-append (pixels_row width i 0 buffer)
              (pixels left (suc i) width (drop (3 * width) buffer)) rects,
        )
        refl

  rect_of-add_pixel :
      (k r k' r' i j : ℕ) (rects : Rects)
      → rect_of k r (add_pixel k' r' i j rects)
        ≡ (if k' == k && r' == r then some (grow i j (rect_of k r rects)) else rect_of k r rects)
  unfolding add_pixel
  rect_of-add_pixel k r k' r' i j rects =
      rw
        (lookup-assign k k'
          (assign r' (grow i j (lookup r' (or_else (lookup k' rects) [])))
            (or_else (lookup k' rects) []))
          rects)
        (ground (
          arith,
          lookup-assign r r' (grow i j (lookup r' (or_else (lookup k' rects) [])))
              (or_else (lookup k' rects) []),
        ))

  rect_of-mark :
      (k r : ℕ) (p : Pixel) (rects : Rects)
      → rect_of k r (mark p rects) ≡ (
          if shows k r p.handle then some (grow p.i p.j (rect_of k r rects)) else rect_of k r rects)
  unfolding mark shows
  rect_of-mark k r p rects = elim (Option-cases (lookup p.handle s.vision_class_for_handle)) [
    | inl e ↦ rw (e, mark, shows) refl
    | inr (k', e) ↦
        let root = or_else (lookup p.handle s.root_for_handle) 0 % 256 in
        let added = rect_of-add_pixel k r k' root p.i p.j rects in
        elim (Bool-cases (in_mask k' mask)) [
          | inl b ↦ rw (e, b, mark, shows) added
          | inr b ↦ rw (e, b, mark, shows) refl
        ]
  ]

  rect_of-mark_all :
      (k r : ℕ) (ps : List Pixel) (rects : Rects)
      → rect_of k r (mark_all ps rects) ≡ grow_all (shown k r ps) (rect_of k r rects)
  unfolding mark_all shown grow_all
  rect_of-mark_all k r [] rects = refl
  rect_of-mark_all k r (p ∷ ps) rects =
      rw (rect_of-mark_all k r ps (mark p rects), rect_of-mark k r p rects)
        (if_split
          (λ (seen : List Pixel).
            grow_all (shown k r ps) (
              if shows k r p.handle
              then some (grow p.i p.j (rect_of k r rects))
              else rect_of k r rects)
            ≡ grow_all seen (rect_of k r rects))
          (shows k r p.handle) (p ∷ shown k r ps) (shown k r ps) (λ e. rw e refl) (λ e. rw e refl))

  rect_of-empty_classes : (k r count from : ℕ) → rect_of k r (empty_classes count from mask) ≡ none
  unfolding empty_classes lookup
  rect_of-empty_classes k r zero from = refl
  rect_of-empty_classes k r (suc count) from =
      ground (arith, rect_of-empty_classes k r count (suc from))

  -- The rectangles that the loops leave.
  pub scan_rows_lem :
      (rooted : IsRooted s) (width height : ℕ) (buffer : List ℕ)
      → length buffer ≡ 3 * (height * width)
      → (rects : Rects) × (scan_rows s mask height 0 width buffer (empty_classes 8 0 mask)
          ≡ some rects)
        × ((k r : ℕ) → rect_of k r rects ≡ grow_all (shown k r (pixels height 0 width buffer)) none)
  scan_rows_lem rooted width height buffer h = (
    mark_all (pixels height 0 width buffer) (empty_classes 8 0 mask),
    scan_rows-mark rooted height 0 width buffer (empty_classes 8 0 mask) (omega arith),
    λ k r.
        rw (← (rect_of-empty_classes k r 8 0))
          (rect_of-mark_all k r (pixels height 0 width buffer) (empty_classes 8 0 mask)),
  )
