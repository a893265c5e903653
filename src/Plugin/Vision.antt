-- ===== src/Plugin/Vision.antt =====
-- robomaster_sim/coppeliaSim_plugin/coppeliasim_robot.cpp: the machine vision of a robot, in the
-- version without OpenCV. An image of the vision sensor shows each object in the colour that its
-- handle spells. `none` is a read behind the end of the image, or the exception of `at`.
pub mod Boxes
pub mod Tight
pub mod Detector
pub mod Classes
pub mod Models
pub mod Registered
use msde_robotics.Prelude.{
  ℕ, zero, suc, ◌+◌, ◌-◌, ◌*◌, ◌%◌, ◌^◌, List, [], ◌∷◌, ◌++◌, map, Bool, false, not, ◌&&◌, Option,
  none, some, ltb, leb, ◌==◌, if◌then◌else◌, bit_and,
}
use msde_robotics.Prelude.Int.{ℤ, pos, negsuc}
use msde_robotics.Prelude.SortedMap.{lookup, emplace, assign, update, or_else}
use msde_robotics.Wire.Bytes.{◌>>=◌, Float}
use msde_robotics.Robot.Platform.{Double, zero_f, one_f}
use msde_robotics.Robot.Maths.{Math, min_f, max_f, half_f}
use msde_robotics.Robot.Objects.{BoundingBox, Body, DetectedObjects}

pub record ImageRect : Type 0 where
  pub min_i : ℕ
  pub max_i : ℕ
  pub min_j : ℕ
  pub max_j : ℕ

-- The arguments are converted to `uint16_t`.
unfoldable pub image_rect : ℕ → ℕ → ImageRect
image_rect i j = record {
  min_i = i % 2 ^ 16;
  max_i = i % 2 ^ 16;
  min_j = j % 2 ^ 16;
  max_j = j % 2 ^ 16;
}

abbrev pub smaller : ℕ → ℕ → ℕ
smaller a b = if ltb b a then b else a

abbrev pub larger : ℕ → ℕ → ℕ
larger a b = if ltb a b then b else a

unfoldable pub update_rect : ℕ → ℕ → ImageRect → ImageRect
update_rect i j r = record {
  min_i = smaller r.min_i (i % 2 ^ 16);
  min_j = smaller r.min_j (j % 2 ^ 16);
  max_i = larger r.max_i (i % 2 ^ 16);
  max_j = larger r.max_j (j % 2 ^ 16);
}

-- A corner of a model's bounding box.
pub record Corner : Type 0 where
  pub x : Double
  pub y : Double
  pub z : Double

-- The members of the robot that its vision uses. The keys are handles of the simulator's objects.
pub record Sight : Type 0 where
  pub vision_class_for_handle : List (ℕ × ℕ)
  pub vertices_for_root : List (ℕ × List Corner)
  pub root_for_handle : List (ℕ × ℕ)
  pub root_handle : ℤ
  pub tan_fov_2 : Float
  pub min_detection_width : Float
  pub min_detection_height : Float
  pub detection_tolerance : Float

-- `(1 << k) & mask`, where the mask is a byte.
unfoldable pub in_mask : ℕ → ℕ → Bool
in_mask k mask = not (bit_and (2 ^ k) mask == 0)

-- The class, then the root, to the rectangle.
abbrev pub Rects : Type 0
Rects = List (ℕ × List (ℕ × ImageRect))

-- `count` classes from `k` on.
unfoldable pub empty_classes : ℕ → ℕ → ℕ → Rects
empty_classes zero k mask = []
empty_classes (suc count) k mask =
    let rest = empty_classes count (suc k) mask in if in_mask k mask then (k, []) ∷ rest else rest

-- A rectangle for the pixel, or the one that is there made larger.
unfoldable pub grow : ℕ → ℕ → Option ImageRect → ImageRect
unfolding image_rect update_rect
grow i j none = image_rect i j
grow i j (some rect) = update_rect i j rect

-- `rects[k]`, which the first access creates, and in it the rectangle of the root.
unfoldable pub add_pixel : ℕ → ℕ → ℕ → ℕ → Rects → Rects
unfolding grow
add_pixel k r i j rects =
    let boxes = or_else (lookup k rects) [] in
    assign k (assign r (grow i j (lookup r boxes)) boxes) rects

-- The body of the two loops: the root's handle is converted to `uint8_t`.
unfoldable pub see : Sight → ℕ → ℕ → ℕ → ℕ → Rects → Option Rects
unfolding add_pixel
see s mask i j handle rects = elim (lookup handle s.vision_class_for_handle) [
  | none ↦ some rects
  | some k ↦ elim (lookup handle s.root_for_handle) [
    | none ↦ none
    | some root ↦ some (if in_mask k mask then add_pixel k (root % 256) i j rects else rects)
  ]
]

-- The handle that a pixel's three bytes spell, and the rest of the image.
unfoldable pub read_pixel : List ℕ → Option (ℕ × List ℕ)
read_pixel (a ∷ b ∷ c ∷ rest) = some (a + b * 2 ^ 8 + c * 2 ^ 16, rest)
read_pixel _ = none

module _ (s : Sight) (mask : ℕ) where
  -- The loops with `left` rounds to go.
  unfoldable pub scan_row : ℕ → ℕ → ℕ → List ℕ → Rects → Option (List ℕ × Rects)
  unfolding read_pixel
  scan_row zero i j buffer rects = some (buffer, rects)
  scan_row (suc left) i j buffer rects = do
    p ← read_pixel buffer
    seen ← see s mask i j p.0 rects
    scan_row left i (suc j) p.1 seen

  unfoldable pub scan_rows : ℕ → ℕ → ℕ → List ℕ → Rects → Option Rects
  unfolding scan_row
  scan_rows zero i width buffer rects = some rects
  scan_rows (suc left) i width buffer rects = do
    r ← scan_row width i 0 buffer rects
    scan_rows left (suc i) width r.0 r.1

abbrev pub map_values : {A B : Type 0} → (A → B) → List (ℕ × A) → List (ℕ × B)
map_values f [] = []
map_values f ((k, v) ∷ rest) = (k, f v) ∷ map_values f rest

module _ (m : Math) where
  open m use {fp, sub_double, mul_double, div_double, narrow}
  open fp use {add, sub, mul, div, lt, of_ℕ, widen}

  -- 0x3fe0_0000_0000_0000 is 0.5 and 0x3ff0_0000_0000_0000 is 1.0. The sums and differences are
  -- those of `int`.
  unfoldable pub box : ℕ → ℕ → ImageRect → BoundingBox
  box w h r = record {
    x = narrow (mul_double (widen (div (of_ℕ (r.max_j + r.min_j)) (of_ℕ w))) 0x3fe0_0000_0000_0000);
    y = narrow (
        sub_double 0x3ff0_0000_0000_0000
          (mul_double (widen (div (of_ℕ (r.max_i + r.min_i)) (of_ℕ h))) 0x3fe0_0000_0000_0000));
    width = div (of_ℕ (r.max_j + 1 - r.min_j)) (of_ℕ w);
    height = div (of_ℕ (r.max_i + 1 - r.min_i)) (of_ℕ h);
  }

  unfoldable pub detect_bounding_boxes :
      Sight → List ℕ → ℕ → ℕ → ℕ → Option (List (ℕ × List (ℕ × BoundingBox)))
  unfolding scan_rows empty_classes box
  detect_bounding_boxes s buffer width height mask = do
    rects ← scan_rows s mask height 0 width buffer (empty_classes 8 0 mask)
    some (map_values (map_values (box (width % 2 ^ 16) (height % 2 ^ 16))) rects)
