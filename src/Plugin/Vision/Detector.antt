-- ===== src/Plugin/Vision/Detector.antt =====
-- robomaster_sim/coppeliaSim_plugin/coppeliasim_robot.cpp: which of the objects in the image are
-- detected.
use msde_robotics.Prelude.{
  ℕ, List, [], ◌∷◌, ◌++◌, map, Bool, ◌&&◌, Option, some, ◌==◌, if◌then◌else◌,
}
use msde_robotics.Prelude.Int.{pos}
use msde_robotics.Prelude.SortedMap.{lookup}
use msde_robotics.Wire.Bytes.{◌>>=◌, Float}
use msde_robotics.Robot.Platform.{zero_f}
use msde_robotics.Robot.Maths.{Math, min_f, max_f, half_f}
use msde_robotics.Robot.Objects.{BoundingBox, Body, DetectedObjects}
use msde_robotics.Plugin.Vision.{Corner, Sight, detect_bounding_boxes}

module _ (m : Math) where
  open m use {fp, mul_double, div_double, narrow}
  open fp use {add, sub, mul, div, lt, of_ℕ, widen}

  -- The smallest and largest coordinates of the corners in the image so far.
  pub record Extent : Type 0 where
    pub min_x : Float
    pub max_x : Float
    pub min_y : Float
    pub max_y : Float

  unfoldable pub extend : Sight → Float → Corner → Extent → Extent
  extend s ratio c e =
      let mx = narrow (mul_double c.z (widen s.tan_fov_2)) in
      let my = div mx ratio in
      let x = narrow (mul_double (div_double c.x (widen mx)) 0x3fe0_0000_0000_0000) in
      let y = narrow (mul_double (div_double c.y (widen my)) 0x3fe0_0000_0000_0000) in
      record {
        min_x = min_f m e.min_x x;
        min_y = min_f m e.min_y y;
        max_x = max_f m e.max_x x;
        max_y = max_f m e.max_y y;
      }

  unfoldable pub extend_all : Sight → Float → List Corner → Extent → Extent
  unfolding extend
  extend_all s ratio [] e = e
  extend_all s ratio (c ∷ cs) e = extend_all s ratio cs (extend s ratio c e)

  -- `view` is the object's corner as the camera sees it. 0x447a_0000 is 1e3f, 0xc47a_0000 -1e3f.
  unfoldable pub project_model : (ℕ → Corner → Corner) → Sight → ℕ → Float → Option BoundingBox
  unfolding extend_all
  project_model view s handle ratio = do
    corners ← lookup handle s.vertices_for_root
    let start : Extent = record {
      min_x = 0x447a_0000;
      max_x = 0xc47a_0000;
      min_y = 0x447a_0000;
      max_y = 0xc47a_0000;
    }
    let e = extend_all s ratio (map (view handle) corners) start
    some (record {
      x = sub half_f (mul half_f (add e.max_x e.min_x));
      y = sub half_f (mul half_f (add e.max_y e.min_y));
      width = sub e.max_x e.min_x;
      height = sub e.max_y e.min_y;
    })

  unfoldable pub should_detect : Sight → BoundingBox → BoundingBox → Bool
  should_detect s actual model =
      let e = s.detection_tolerance in
      lt (mul model.width s.min_detection_width) (add actual.width e)
      && lt (mul model.height s.min_detection_height) (add actual.height e)

  -- The objects of one class that are large enough.
  unfoldable pub detect_class :
      (ℕ → Corner → Corner) → Sight → Float → List (ℕ × BoundingBox) → Option (List Body)
  unfolding project_model should_detect
  detect_class view s ratio [] = some []
  detect_class view s ratio ((h, b) ∷ rest) = do
    model ← project_model view s h ratio
    others ← detect_class view s ratio rest
    some (
        if should_detect s b model
        then record { bounding_box = b; uid = pos h } ∷ others
        else others)

  -- PERSON is 1 and ROBOT is 7; the other classes are ignored.
  unfoldable pub detect_classes :
      (ℕ → Corner → Corner)
      → Sight
      → Float
      → List (ℕ × List (ℕ × BoundingBox))
      → Option DetectedObjects
  unfolding detect_class
  detect_classes view s ratio [] =
      some (record { people = []; gestures = []; lines = []; markers = []; robots = [] })
  detect_classes view s ratio ((k, boxes) ∷ rest) = do
    people ← if k == 1 then detect_class view s ratio boxes else some []
    robots ← if k == 7 then detect_class view s ratio boxes else some []
    others ← detect_classes view s ratio rest
    some (record others { people = people ++ others.people; robots = robots ++ others.robots })

  unfoldable pub run_detector :
      (ℕ → Corner → Corner) → Sight → List ℕ → ℕ → ℕ → ℕ → Option DetectedObjects
  unfolding detect_bounding_boxes detect_classes
  run_detector view s buffer width height mask = do
    boxes ← detect_bounding_boxes m s buffer width height mask
    detect_classes view s (div (of_ℕ width) (of_ℕ height)) boxes

  unfoldable pub configure_vision : Float → Float → Float → Sight → Sight
  configure_vision min_width min_height tolerance s = record s {
    min_detection_width = max_f m min_width zero_f;
    min_detection_height = max_f m min_height zero_f;
    detection_tolerance = max_f m tolerance zero_f;
  }
