-- ===== src/Plugin/Vision/Models.antt =====
-- When the detector of robomaster_sim/coppeliaSim_plugin/coppeliasim_robot.cpp finds the model of
-- every object that it sees, and what set_vision_class registers.
use msde_robotics.Prelude.{
  ℕ, zero, suc, ◌*◌, ◌%◌, ◌≡◌, refl, inl, inr, List, [], ◌∷◌, ◌^◌, Bool, Option, some, ◌==◌,
  if◌then◌else◌, length, arith, Option-cases, if_split, ltb,
}
use msde_robotics.Prelude.SortedMap.{lookup, assign, or_else}
use msde_robotics.Wire.Bytes.{Float}
use msde_robotics.Robot.Maths.{Math}
use msde_robotics.Robot.Objects.{BoundingBox, Body, DetectedObjects}
use msde_robotics.Plugin.Vision.{
  Corner, Sight, Rects, in_mask, empty_classes, add_pixel, map_values, box, detect_bounding_boxes,
}
use msde_robotics.Plugin.Vision.Detector.{project_model, detect_class, detect_classes, run_detector}
use msde_robotics.Plugin.Vision.Boxes.{Pixel, IsRooted, mark, mark_all, pixels, scan_rows-mark}

-- The low byte of every object's root is the handle of a registered model.
abbrev pub HasModels : Sight → Type 0
HasModels s =
    (h root : ℕ)
    → lookup h s.root_for_handle ≡ some root
    → (corners : List Corner) × (lookup (root % 256) s.vertices_for_root ≡ some corners)

module _ {A : Type 0} (P : ℕ → Type 0) where
  -- Every key of a map has the property.
  abbrev pub Keys : List (ℕ × A) → Type 0
  Keys [] = Unit {0}
  Keys ((k, v) ∷ rest) = P k × Keys rest

  assign-Keys : (k : ℕ) (v : A) (m : List (ℕ × A)) → P k → Keys m → Keys (assign k v m)
  unfolding assign
  assign-Keys k v [] p h = (p, tt)
  assign-Keys k v ((j, w) ∷ rest) p h =
      if_split Keys (ltb k j) _ _ (λ _. (p, h))
        (λ _. if_split Keys (j == k) _ _ (λ _. (p, h.1)) (λ _. (h.0, assign-Keys k v rest p h.1)))

module _ {A : Type 0} (P : A → Type 0) where
  -- Every value of a map has the property.
  abbrev pub Values : List (ℕ × A) → Type 0
  Values [] = Unit {0}
  Values ((k, v) ∷ rest) = P v × Values rest

  assign-Values : (k : ℕ) (v : A) (m : List (ℕ × A)) → P v → Values m → Values (assign k v m)
  unfolding assign
  assign-Values k v [] p h = (p, tt)
  assign-Values k v ((j, w) ∷ rest) p h =
      if_split Values (ltb k j) _ _ (λ _. (p, h))
        (λ _.
          if_split Values (j == k) _ _ (λ _. (p, h.1)) (λ _. (h.0, assign-Values k v rest p h.1)))

  lookup-Values : (k : ℕ) (d : A) (m : List (ℕ × A)) → P d → Values m → P (or_else (lookup k m) d)
  unfolding lookup
  lookup-Values k d [] p h = p
  lookup-Values k d ((j, w) ∷ rest) p h =
      if_split (λ o. P (or_else o d)) (j == k) _ _ (λ _. h.0) (λ _. lookup-Values k d rest p h.1)

module _ {A B : Type 0} (P : ℕ → Type 0) (f : A → B) where
  map_values-Keys : (m : List (ℕ × A)) → Keys P m → Keys P (map_values f m)
  map_values-Keys [] h = tt
  map_values-Keys ((k, v) ∷ rest) h = (h.0, map_values-Keys rest h.1)

-- The handle has a registered model.
HasModel : Sight → ℕ → Type 0
HasModel s r = (corners : List Corner) × (lookup r s.vertices_for_root ≡ some corners)

module _ (s : Sight) (mask : ℕ) (models : HasModels s) (rooted : IsRooted s) where
  abbrev Modelled : Rects → Type 0
  Modelled rects = Values (Keys (HasModel s)) rects

  mark-Modelled : (p : Pixel) (rects : Rects) → Modelled rects → Modelled (mark s mask p rects)
  unfolding mark add_pixel HasModel
  mark-Modelled p rects h = elim (Option-cases (lookup p.handle s.vision_class_for_handle)) [
    | inl e ↦ rw (e, mark) h
    | inr (k, e) ↦
        let (root, e') = rooted p.handle k e in
        rw (e, e', mark)
          (if_split Modelled (in_mask k mask) _ _
            (λ _.
              assign-Values (Keys (HasModel s)) k _ rects
                (assign-Keys (HasModel s) (root % 256) _ (or_else (lookup k rects) [])
                  (models p.handle root e') (lookup-Values (Keys (HasModel s)) k [] rects tt h))
                h)
            (λ _. h))
  ]

  mark_all-Modelled :
      (ps : List Pixel) (rects : Rects) → Modelled rects → Modelled (mark_all s mask ps rects)
  unfolding mark_all
  mark_all-Modelled [] rects h = h
  mark_all-Modelled (p ∷ ps) rects h = mark_all-Modelled ps _ (mark-Modelled p rects h)

  empty_classes-Modelled : (count k : ℕ) → Modelled (empty_classes count k mask)
  unfolding empty_classes
  empty_classes-Modelled zero k = tt
  empty_classes-Modelled (suc count) k =
      let later = empty_classes-Modelled count (suc k) in
      if_split Modelled (in_mask k mask) _ _ (λ _. (tt, later)) (λ _. later)

module _ (m : Math) (view : ℕ → Corner → Corner) (s : Sight) (ratio : Float) where
  detect_class-some :
      (boxes : List (ℕ × BoundingBox))
      → Keys (HasModel s) boxes
      → (bodies : List Body) × (detect_class m view s ratio boxes ≡ some bodies)
  unfolding detect_class project_model HasModel
  detect_class-some [] h = ([], refl)
  detect_class-some ((r, b) ∷ rest) ((corners, e), later) =
      let (bodies, e') = detect_class-some rest later in rw (e, e') (_, refl)

  -- The objects of a class, or none where the class is another.
  detect_if-some :
      (wanted : Bool) (boxes : List (ℕ × BoundingBox))
      → Keys (HasModel s) boxes
      → (bodies : List Body) × ((if wanted then detect_class m view s ratio boxes else some [])
          ≡ some bodies)
  detect_if-some wanted boxes h =
      if_split (λ (o : Option (List Body)). (bodies : List Body) × (o ≡ some bodies)) wanted _ _
        (λ _. detect_class-some boxes h) (λ _. ([], refl))

  detect_classes-some :
      (classes : List (ℕ × List (ℕ × BoundingBox)))
      → Values (Keys (HasModel s)) classes
      → (objects : DetectedObjects) × (detect_classes m view s ratio classes ≡ some objects)
  unfolding detect_classes
  detect_classes-some [] h = (_, refl)
  detect_classes-some ((k, boxes) ∷ rest) h =
      let (people, e) = detect_if-some (k == 1) boxes h.0 in
      let (robots, e') = detect_if-some (k == 7) boxes h.0 in
      let (others, e'') = detect_classes-some rest h.1 in rw (e, e', e'') (_, refl)

map_values-Values :
    (P : ℕ → Type 0) {A B : Type 0} (f : A → B) (m : List (ℕ × List (ℕ × A)))
    → Values (Keys P) m
    → Values (Keys P) (map_values (map_values f) m)
map_values-Values P f [] h = tt
map_values-Values P f ((k, v) ∷ rest) h =
    (map_values-Keys P f v h.0, map_values-Values P f rest h.1)

-- On an image of the given width and height the detector does not throw, whatever the image shows,
-- if every object with a class has a root, and the low byte of every root is the handle of a
-- registered model.
pub run_detector-some :
    (m : Math) (view : ℕ → Corner → Corner) (s : Sight) (buffer : List ℕ) (width height mask : ℕ)
    → IsRooted s
    → HasModels s
    → length buffer ≡ 3 * (height * width)
    → (objects : DetectedObjects) × (run_detector m view s buffer width height mask ≡ some objects)
unfolding run_detector detect_bounding_boxes
run_detector-some m view s buffer width height mask rooted models h =
    let start = empty_classes 8 0 mask in
    let rects = mark_all s mask (pixels height 0 width buffer) start in
    let f = box m (width % 2 ^ 16) (height % 2 ^ 16) in
    rw (scan_rows-mark s mask rooted height 0 width buffer start (omega arith)) (
      detect_classes-some m view s _ (map_values (map_values f) rects) (
        map_values-Values (HasModel s) f rects (
          mark_all-Modelled s mask models rooted (pixels height 0 width buffer) start
            (empty_classes-Modelled s mask models rooted 8 0))))
