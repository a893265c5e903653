-- ===== src/Commands/Events.antt =====
-- robomaster_sim/include/event.hpp: the events that are pushed to the client. The value of `seq_id`
-- is the one that the response's constructor leaves uninitialised.
pub mod Decoded
use msde_robotics.Prelude.{
  ℕ, ◌+◌, ◌*◌, ◌%◌, ◌^◌, List, [], ◌∷◌, ◌++◌, not, ◌&&◌, ◌==◌, if◌then◌else◌, map, set, length,
  replicate, bit_and, bit_or,
}
use msde_robotics.Wire.Bytes.{write, Float}
use msde_robotics.Wire.Frame.{push_to, encode_msg}
use msde_robotics.Messages.Replies.{write_at}
use msde_robotics.Robot.Devices.{
  Detector, person, gesture, line, marker, robot, detector_type, is_enabled,
}

pub record ArmorHit : Type 0 where
  pub type : ℕ
  pub index : ℕ

unfoldable pub encode_armor_hit : ArmorHit → List ℕ
encode_armor_hit hit = (bit_or (hit.index * 2 ^ 4) hit.type % 256) ∷ write 2 0 ++ write 2 0

pub record IrHit : Type 0 where
  pub skill_id : ℕ
  pub role_id : ℕ
  pub recv_dev : ℕ
  pub recv_ir_pin : ℕ

unfoldable pub encode_ir_hit : IrHit → List ℕ
encode_ir_hit hit =
    (bit_or (hit.role_id * 2 ^ 4) hit.skill_id % 256)
    ∷ (hit.recv_dev % 256)
    ∷ (hit.recv_ir_pin % 256)
    ∷ []

-- `ArmorHitEvent::do_step`, for the subscriber `node_id`: one frame for each hit.
unfoldable pub step_armor_hit_event : ℕ → ℕ → List ArmorHit → List (List ℕ)
unfolding encode_armor_hit
step_armor_hit_event seq_id node_id hits =
    map (λ hit. encode_msg (push_to seq_id node_id 0x38) (encode_armor_hit hit) 0x3f 0x02) hits

-- `IRHitEvent::do_step`.
unfoldable pub step_ir_hit_event : ℕ → ℕ → List IrHit → List (List ℕ)
unfolding encode_ir_hit
step_ir_hit_event seq_id node_id hits =
    map (λ hit. encode_msg (push_to seq_id node_id 0x38) (encode_ir_hit hit) 0x3f 0x10) hits

pub record BoundingBox : Type 0 where
  pub x : Float
  pub y : Float
  pub width : Float
  pub height : Float

pub record Gesture : Type 0 where
  pub bounding_box : BoundingBox
  pub id : ℕ

pub record Line : Type 0 where
  pub x : Float
  pub y : Float
  pub angle : Float
  pub curvature : Float
  pub info : ℕ

pub record Marker : Type 0 where
  pub bounding_box : BoundingBox
  pub id : ℕ
  pub distance : ℕ

pub record DetectedObjects : Type 0 where
  pub people : List BoundingBox
  pub gestures : List Gesture
  pub lines : List Line
  pub markers : List Marker
  pub robots : List BoundingBox

-- The bytes that the overloads of `encode` write from `location` on.
unfoldable pub encode_box : BoundingBox → List ℕ
encode_box object =
    write 4 object.x ++ write 4 object.y ++ write 4 object.width ++ write 4 object.height

unfoldable pub encode_gesture : Gesture → List ℕ
unfolding encode_box
encode_gesture object = encode_box object.bounding_box ++ write 4 object.id

unfoldable pub encode_line : Line → List ℕ
encode_line object =
    write 4 object.x
    ++ write 4 object.y
    ++ write 4 object.angle
    ++ write 4 object.curvature
    ++ write 4 object.info

unfoldable pub encode_marker : Marker → List ℕ
unfolding encode_box
encode_marker object =
    encode_box object.bounding_box ++ write 2 object.id ++ write 2 object.distance

-- The loop of `add_message` over the items.
unfoldable pub encode_items {ℓ} : {A : Type ℓ} → (A → List ℕ) → ℕ → List A → List ℕ → List ℕ
encode_items encode location [] buffer = buffer
encode_items encode location (item ∷ items) buffer =
    encode_items encode (location + 20) items (write_at buffer location (encode item))

-- The payload of one message, for at most 255 items, the most that `number` counts.
unfoldable pub encode_vision_detect_info {ℓ} : {A : Type ℓ} → ℕ → (A → List ℕ) → List A → List ℕ
unfolding encode_items
encode_vision_detect_info type encode items =
    let number = length items % 256 in
    let buffer = encode_items encode 9 items (replicate (20 * number + 9) 0) in
    set (write_at (set (set buffer 0 type) 1 0) 6 (write 2 0)) 8 number

-- `add_message`; `enabled` is the field of `robot->vision`.
unfoldable pub add_message {ℓ} :
    {A : Type ℓ} → ℕ → ℕ → ℕ → ℕ → ℕ → Detector → (A → List ℕ) → List A → List (List ℕ)
unfolding encode_vision_detect_info detector_type is_enabled
add_message seq_id sender receiver type enabled detector encode items =
    let kind = detector_type detector in
    if not (bit_and type (2 ^ kind) == 0) && is_enabled detector enabled
    then encode_msg (push_to seq_id sender receiver) (encode_vision_detect_info kind encode items)
        0xa 0xa4
      ∷ []
    else []

-- `VisionEvent::do_step`.
unfoldable pub step_vision_event : ℕ → ℕ → ℕ → ℕ → ℕ → DetectedObjects → List (List ℕ)
unfolding add_message encode_box encode_gesture encode_line encode_marker
step_vision_event seq_id sender receiver type enabled objects =
    add_message seq_id sender receiver type enabled person encode_box objects.people
    ++ add_message seq_id sender receiver type enabled gesture encode_gesture objects.gestures
    ++ add_message seq_id sender receiver type enabled line encode_line objects.lines
    ++ add_message seq_id sender receiver type enabled marker encode_marker objects.markers
    ++ add_message seq_id sender receiver type enabled robot encode_box objects.robots
