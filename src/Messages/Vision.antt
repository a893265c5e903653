-- ===== src/Messages/Vision.antt =====
-- robomaster_sim/include/command_messages.hpp: the requests of the camera and the detectors.
use msde_robotics.Prelude.{ℕ, List, Option, some, ◌/◌, ◌%◌, ◌^◌, bit_and}
use msde_robotics.Wire.Bytes.{◌>>=◌, byte, read_at}
use msde_robotics.Wire.Frame.{RequestT}

pub record VisionDetectEnable : Type 0 where
  pub request : RequestT
  pub type : ℕ

unfoldable pub read_vision_detect_enable : RequestT → List ℕ → Option VisionDetectEnable
read_vision_detect_enable request buffer = do
  type ← read_at 2 0 buffer
  some (record { request = request; type = type })

pub record StreamCtrl : Type 0 where
  pub request : RequestT
  pub ctrl : ℕ
  pub conn_type : ℕ
  pub state : ℕ
  pub resolution : ℕ

unfoldable pub read_stream_ctrl : RequestT → List ℕ → Option StreamCtrl
read_stream_ctrl request buffer = do
  ctrl ← byte 0 buffer
  conn_type ← byte 1 buffer
  state ← byte 1 buffer
  resolution ← byte 2 buffer
  some (record {
    request = request;
    ctrl = ctrl;
    conn_type = conn_type / 2 ^ 4;
    state = bit_and state 0xf;
    resolution = resolution;
  })

pub record VisionDetectStatus : Type 0 where
  pub request : RequestT

unfoldable pub read_vision_detect_status : RequestT → List ℕ → Option VisionDetectStatus
read_vision_detect_status request buffer = some (record { request = request })

pub record VisionSetColor : Type 0 where
  pub request : RequestT
  pub type : ℕ
  pub color : ℕ

unfoldable pub read_vision_set_color : RequestT → List ℕ → Option VisionSetColor
read_vision_set_color request buffer = do
  type ← byte 0 buffer
  color ← byte 1 buffer
  some (record { request = request; type = type; color = color })

pub record TakePhoto : Type 0 where
  pub request : RequestT
  pub type : ℕ

unfoldable pub read_take_photo : RequestT → List ℕ → Option TakePhoto
read_take_photo request buffer = do
  type ← byte 0 buffer
  some (record { request = request; type = type })

pub record SetZoom : Type 0 where
  pub request : RequestT
  pub digital_enable : ℕ
  pub digital_type : ℕ
  pub digital_value : ℕ

unfoldable pub read_set_zoom : RequestT → List ℕ → Option SetZoom
read_set_zoom request buffer = do
  digital_enable ← byte 0 buffer
  digital_type ← byte 0 buffer
  digital_value ← read_at 2 4 buffer
  some (record {
    request = request;
    digital_enable = digital_enable / 2 ^ 3;
    digital_type = bit_and digital_type 0x7;
    digital_value = digital_value;
  })

pub record GetZoom : Type 0 where
  pub request : RequestT

unfoldable pub read_get_zoom : RequestT → List ℕ → Option GetZoom
read_get_zoom request buffer = some (record { request = request })

pub record SetWhiteBalance : Type 0 where
  pub request : RequestT
  pub type : ℕ
  pub temp1 : ℕ
  pub temp2 : ℕ
  pub tint : ℕ

unfoldable pub read_set_white_balance : RequestT → List ℕ → Option SetWhiteBalance
read_set_white_balance request buffer = do
  type ← byte 0 buffer
  temp1 ← byte 1 buffer
  temp2 ← byte 2 buffer
  tint ← read_at 2 3 buffer
  some (record { request = request; type = type; temp1 = temp1; temp2 = temp2; tint = tint % 256 })
