-- ===== src/Plugin/Vision/Tight.antt =====
-- The detector of robomaster_sim/coppeliaSim_plugin/coppeliasim_robot.cpp: its boxes are tight.
use msde_robotics.Prelude.{
  ℕ, zero, suc, ◌+◌, ◌*◌, ◌%◌, ◌^◌, ◌≤◌, ◌<◌, ◌≡◌, refl, sym, ◌∙◌, ◌⊎◌, inl, inr, List, [], ◌∷◌,
  Option, none, some, length, drop, All, All-append, arith, Option-cases, if_split,
}
use mathlib.Core.Option
use msde_robotics.Robot.Maths.{Math}
use msde_robotics.Robot.Objects.{BoundingBox}
use msde_robotics.Prelude.SortedMap.{lookup, or_else}
use msde_robotics.Plugin.Vision.{
  Sight, box, detect_bounding_boxes, map_values, ImageRect, image_rect, update_rect, smaller,
  larger, grow,
}
use msde_robotics.Plugin.Vision.Boxes.{
  Pixel, grow_all, pixels_row, pixels, shows, shown, IsRooted, rect_of, scan_rows_lem,
}

abbrev pub Any : (Pixel → Type 0) → List Pixel → Type 0
Any P [] = ⊥
Any P (p ∷ ps) = P p ⊎ Any P ps

abbrev pub IsInside : ImageRect → Pixel → Type 0
IsInside b p = (b.min_i ≤ p.i) × (p.i ≤ b.max_i) × (b.min_j ≤ p.j) × (p.j ≤ b.max_j)

-- A pixel's row and column fit into 16 bits.
abbrev pub IsSmall : Pixel → Type 0
IsSmall p = (p.i < 2 ^ 16) × (p.j < 2 ^ 16)

-- All pixels are inside, and each side has one; without a rectangle there is no pixel.
abbrev pub IsTight : List Pixel → Option ImageRect → Type 0
IsTight ps none = ps ≡ []
IsTight ps (some b) =
    All (IsInside b) ps
    × Any (λ p. p.i ≡ b.min_i) ps
    × Any (λ p. p.i ≡ b.max_i) ps
    × Any (λ p. p.j ≡ b.min_j) ps
    × Any (λ p. p.j ≡ b.max_j) ps

hull : List Pixel → ImageRect → ImageRect
hull [] b = b
hull (p ∷ ps) b = hull ps (update_rect p.i p.j b)

grow_all-hull : (ps : List Pixel) (b : ImageRect) → grow_all ps (some b) ≡ some (hull ps b)
unfolding grow_all hull grow
grow_all-hull [] b = refl
grow_all-hull (p ∷ ps) b = grow_all-hull ps (update_rect p.i p.j b)

-- What the hull of `start` and the pixels is.
record IsHull (start : ImageRect) (ps : List Pixel) (b : ImageRect) : Type 0 where
  top : b.min_i ≤ start.min_i
  bottom : start.max_i ≤ b.max_i
  left : b.min_j ≤ start.min_j
  right : start.max_j ≤ b.max_j
  inside : All (IsInside b) ps
  top_reached : (b.min_i ≡ start.min_i) ⊎ Any (λ p. p.i ≡ b.min_i) ps
  bottom_reached : (b.max_i ≡ start.max_i) ⊎ Any (λ p. p.i ≡ b.max_i) ps
  left_reached : (b.min_j ≡ start.min_j) ⊎ Any (λ p. p.j ≡ b.min_j) ps
  right_reached : (b.max_j ≡ start.max_j) ⊎ Any (λ p. p.j ≡ b.max_j) ps

-- A side that the next rectangle has comes from the last one or from the new pixel.
reached :
    (P : Pixel → Type 0) (p : Pixel) (ps : List Pixel) (side old new : ℕ) {next : ℕ}
    → ((next ≡ old) ⊎ (new ≡ next))
    → (new ≡ side → P p)
    → (side ≡ next) ⊎ Any P ps
    → (side ≡ old) ⊎ Any P (p ∷ ps)
reached P p ps side old new (inl e) h (inl d) = inl (d ∙ e)
reached P p ps side old new (inr e) h (inl d) = inr (inl (h (e ∙ sym d)))
reached P p ps side old new _ h (inr later) = inr (inr later)

smaller-cases : (a i : ℕ) → i < 2 ^ 16 → (smaller a (i % 2 ^ 16) ≡ a) ⊎ (i ≡ smaller a (i % 2 ^ 16))
smaller-cases a i h = ground arith

larger-cases : (a i : ℕ) → i < 2 ^ 16 → (larger a (i % 2 ^ 16) ≡ a) ⊎ (i ≡ larger a (i % 2 ^ 16))
larger-cases a i h = ground arith

hull-IsHull :
    (ps : List Pixel) (start : ImageRect) → All IsSmall ps → IsHull start ps (hull ps start)
unfolding hull update_rect
hull-IsHull [] start h = record {
  top = omega arith;
  bottom = omega arith;
  left = omega arith;
  right = omega arith;
  inside = tt;
  top_reached = inl refl;
  bottom_reached = inl refl;
  left_reached = inl refl;
  right_reached = inl refl;
}
hull-IsHull (p ∷ ps) start h =
    let ih = hull-IsHull ps (update_rect p.i p.j start) h.1 in
    let b = hull ps (update_rect p.i p.j start) in
    record {
      top = ground (arith, ih.top);
      bottom = ground (arith, ih.bottom);
      left = ground (arith, ih.left);
      right = ground (arith, ih.right);
      inside = (ground (arith, ih.top, ih.bottom, ih.left, ih.right), ih.inside);
      top_reached =
          reached (λ q. q.i ≡ b.min_i) p ps b.min_i start.min_i p.i
            (smaller-cases start.min_i p.i h.0.0) (λ e. e) ih.top_reached;
      bottom_reached =
          reached (λ q. q.i ≡ b.max_i) p ps b.max_i start.max_i p.i
            (larger-cases start.max_i p.i h.0.0) (λ e. e) ih.bottom_reached;
      left_reached =
          reached (λ q. q.j ≡ b.min_j) p ps b.min_j start.min_j p.j
            (smaller-cases start.min_j p.j h.0.1) (λ e. e) ih.left_reached;
      right_reached =
          reached (λ q. q.j ≡ b.max_j) p ps b.max_j start.max_j p.j
            (larger-cases start.max_j p.j h.0.1) (λ e. e) ih.right_reached;
    }

from_start :
    (P : Pixel → Type 0) (p : Pixel) (ps : List Pixel) {side old : ℕ}
    → (side ≡ old → P p)
    → (side ≡ old) ⊎ Any P ps
    → P p ⊎ Any P ps
from_start P p ps here (inl e) = inl (here e)
from_start P p ps here (inr later) = inr later

grow_all-IsTight : (ps : List Pixel) → All IsSmall ps → IsTight ps (grow_all ps none)
unfolding grow_all grow image_rect
grow_all-IsTight [] h = refl
grow_all-IsTight (p ∷ ps) h =
    let start = image_rect p.i p.j in
    let b = hull ps start in
    let hp = hull-IsHull ps start h.1 in
    rw (grow_all-hull ps start) (
      (ground (arith, hp.top, hp.bottom, hp.left, hp.right), hp.inside),
      from_start (λ q. q.i ≡ b.min_i) p ps (λ e. omega (arith, e)) hp.top_reached,
      from_start (λ q. q.i ≡ b.max_i) p ps (λ e. omega (arith, e)) hp.bottom_reached,
      from_start (λ q. q.j ≡ b.min_j) p ps (λ e. omega (arith, e)) hp.left_reached,
      from_start (λ q. q.j ≡ b.max_j) p ps (λ e. omega (arith, e)) hp.right_reached,
    )

pixels_row-IsSmall :
    (left i j : ℕ) (buffer : List ℕ)
    → i < 2 ^ 16
    → left + j ≤ 2 ^ 16
    → All IsSmall (pixels_row left i j buffer)
unfolding pixels_row
pixels_row-IsSmall zero i j buffer h k = tt
pixels_row-IsSmall (suc left) i j (a ∷ b ∷ c ∷ rest) h k =
    ((h, omega arith), pixels_row-IsSmall left i (suc j) rest h (omega arith))
pixels_row-IsSmall (suc left) i j (a ∷ b ∷ []) h k = tt
pixels_row-IsSmall (suc left) i j (a ∷ []) h k = tt
pixels_row-IsSmall (suc left) i j [] h k = tt

pixels-IsSmall :
    (left i width : ℕ) (buffer : List ℕ)
    → left + i ≤ 2 ^ 16
    → width ≤ 2 ^ 16
    → All IsSmall (pixels left i width buffer)
unfolding pixels
pixels-IsSmall zero i width buffer h k = tt
pixels-IsSmall (suc left) i width buffer h k =
    All-append IsSmall (pixels_row width i 0 buffer)
      (pixels left (suc i) width (drop (3 * width) buffer))
      (pixels_row-IsSmall width i 0 buffer (omega arith) (omega arith))
      (pixels-IsSmall left (suc i) width (drop (3 * width) buffer) (omega arith) k)

shown-IsSmall :
    (s : Sight) (mask k r : ℕ) (ps : List Pixel)
    → All IsSmall ps
    → All IsSmall (shown s mask k r ps)
unfolding shown
shown-IsSmall s mask k r [] h = tt
shown-IsSmall s mask k r (p ∷ ps) h =
    let later = shown-IsSmall s mask k r ps h.1 in
    if_split (All IsSmall) (shows s mask k r p.handle) (p ∷ shown s mask k r ps)
      (shown s mask k r ps) (λ _. (h.0, later)) (λ _. later)

lookup-map_values :
    {A B : Type 0} (f : A → B) (k : ℕ) (m : List (ℕ × A))
    → lookup k (map_values f m) ≡ Option.map f (lookup k m)
unfolding lookup
lookup-map_values f k [] = refl
lookup-map_values f k ((j, v) ∷ rest) = ground (arith, lookup-map_values f k rest)

-- The box of a class and a root.
abbrev pub box_of : ℕ → ℕ → List (ℕ × List (ℕ × BoundingBox)) → Option BoundingBox
box_of k r boxes = lookup r (or_else (lookup k boxes) [])

box_of-map_values :
    (f : ImageRect → BoundingBox) (k r : ℕ) (rects : List (ℕ × List (ℕ × ImageRect)))
    → box_of k r (map_values (map_values f) rects) ≡ Option.map f (rect_of k r rects)
box_of-map_values f k r rects =
    rw (lookup-map_values (map_values f) k rects) (elim (Option-cases (lookup k rects)) [
      | inl e ↦ rw e (unfold lookup in refl)
      | inr (boxes, e) ↦ rw e (lookup-map_values f r boxes)
    ])

-- On an image of the given width and height, which are at most 65536, and where every object with
-- a class has a root, the detector gives boxes. The box of a class and of a root's low byte is that
-- of the smallest rectangle around the pixels that show such an object, if the mask has the class:
-- all these pixels are inside, and each side of the rectangle has one of them. If there is no such
-- pixel there is no box.
pub detect_bounding_boxes-IsTight :
    (m : Math) (s : Sight) (buffer : List ℕ) (width height mask : ℕ)
    → IsRooted s
    → width ≤ 2 ^ 16
    → height ≤ 2 ^ 16
    → length buffer ≡ 3 * (height * width)
    → (boxes : List (ℕ × List (ℕ × BoundingBox))) × (detect_bounding_boxes m s buffer width height
          mask
        ≡ some boxes)
      × ((k r : ℕ)
          → (rect : Option ImageRect) × (box_of k r boxes
              ≡ Option.map (box m (width % 2 ^ 16) (height % 2 ^ 16)) rect)
            × IsTight (shown s mask k r (pixels height 0 width buffer)) rect)
unfolding detect_bounding_boxes
detect_bounding_boxes-IsTight m s buffer width height mask rooted hw hh h =
    let (rects, scanned, found) = scan_rows_lem s mask rooted width height buffer h in
    let f = box m (width % 2 ^ 16) (height % 2 ^ 16) in
    (
      map_values (map_values f) rects,
      rw scanned refl,
      λ k r.
          let ps = shown s mask k r (pixels height 0 width buffer) in
          (
            grow_all ps none,
            rw (box_of-map_values f k r rects, found k r) refl,
            grow_all-IsTight ps (
                shown-IsSmall s mask k r _ (pixels-IsSmall height 0 width buffer (omega arith) hw)),
          ),
    )
