-- ===== src/Robot/Objects.antt =====
-- robomaster_sim/include/robot/vision.hpp: what the camera detects.
use msde_robotics.Prelude.{ℕ, List}
use msde_robotics.Prelude.Int.{ℤ}
use msde_robotics.Wire.Bytes.{Float}

pub record BoundingBox : Type 0 where
  pub x : Float
  pub y : Float
  pub width : Float
  pub height : Float

-- A person or a robot.
pub record Body : Type 0 where
  pub bounding_box : BoundingBox
  pub uid : ℤ

pub record Gesture : Type 0 where
  pub bounding_box : BoundingBox
  pub id : ℕ

pub record Line : Type 0 where
  pub x : Float
  pub y : Float
  pub curvature : Float
  pub angle : Float
  pub info : ℕ

pub record Marker : Type 0 where
  pub bounding_box : BoundingBox
  pub id : ℕ
  pub distance : ℕ

pub record DetectedObjects : Type 0 where
  pub people : List Body
  pub gestures : List Gesture
  pub lines : List Line
  pub markers : List Marker
  pub robots : List Body
