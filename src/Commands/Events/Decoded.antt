-- ===== src/Commands/Events/Decoded.antt =====
-- What a client decodes of the events that are pushed to it.
use msde_robotics.Prelude.{
  ℕ, ◌+◌, ◌*◌, ◌/◌, ◌%◌, ◌<◌, ◌≡◌, refl, sym, ap, ap₂, ◌∙◌, List, [], ◌∷◌, ◌++◌, Option, none, some,
  map, length, All, true, ◌&&◌, ◌==◌, if◌then◌else◌, bit_or, arith,
}
use msde_robotics.Prelude.Bits.{all_below, agree_below}
use msde_robotics.Wire.Bytes.{write}
use msde_robotics.Wire.Crc.{crc16_calc}
use msde_robotics.Wire.Frame.{
  ResponseT, push_to, attri, contents, Verdict, accepted, decode_request,
}
use msde_robotics.Wire.Frame.RoundTrip.{decode_request_whole}
use msde_robotics.Commands.Events.{
  ArmorHit, encode_armor_hit, step_armor_hit_event, IrHit, encode_ir_hit, step_ir_hit_event,
}

-- The frame of an event with this payload, decoded: it comes from `sender` and goes to `receiver`.
pub event_of : ℕ → ℕ → ℕ → ℕ → ℕ → List ℕ → Option Verdict
event_of seq_id receiver sender cmd_set cmd payload =
    let r : ResponseT = push_to seq_id receiver sender in
    some (
      accepted (record {
        cmd_set = cmd_set;
        cmd_id = cmd;
        seq_id = seq_id;
        attri = attri r;
        sender = sender;
        receiver = receiver;
        payload = payload ++ write 2 (crc16_calc (contents r payload cmd_set cmd));
      }))

pub decode_all : List (List ℕ) → List (Option Verdict)
decode_all frames = map (λ frame. decode_request frame (length frame)) frames

step_armor_hit_event_frames :
    (seq_id node_id : ℕ) (hits : List ArmorHit)
    → seq_id < 65536
    → decode_all (step_armor_hit_event seq_id node_id hits)
      ≡ map (λ hit. event_of seq_id node_id 0x38 0x3f 0x02 (encode_armor_hit hit)) hits
unfolding decode_all step_armor_hit_event event_of push_to
step_armor_hit_event_frames seq_id node_id [] h = refl
step_armor_hit_event_frames seq_id node_id (hit ∷ hits) h =
    ap₂ ◌∷◌ (decode_request_whole (push_to seq_id node_id 0x38) (encode_armor_hit hit) 0x3f 0x02 h)
      (step_armor_hit_event_frames seq_id node_id hits h)

-- How a client reads a hit: the type is the low half of the first byte, the index its high half,
-- and the four bytes of the microphone are 0.
abbrev pub hit_in : List ℕ → Option ArmorHit
hit_in (b ∷ m ∷ m' ∷ l ∷ l' ∷ rest) =
    if m == 0 && m' == 0 && l == 0 && l' == 0
    then some (record { type = b % 16; index = b / 16 })
    else none
hit_in _ = none

-- The frame must come from 0x38, go to the node, and be of the set 0x3f and the command 0x02.
abbrev pub read_armor_hit : ℕ → Option Verdict → Option ArmorHit
read_armor_hit node_id (some (accepted d)) =
    if d.cmd_set == 0x3f && d.cmd_id == 0x02 && d.sender == 0x38 && d.receiver == node_id
    then hit_in d.payload
    else none
read_armor_hit node_id _ = none

-- The type and the index fit into half a byte each.
abbrev pub IsHalves : ArmorHit → Type 0
IsHalves hit = (hit.type < 16) × (hit.index < 16)

halves_table : all_below 256 (λ x. bit_or (x / 16 * 16) (x % 16) % 256 == x) ≡ true
unfolding all_below
halves_table = refl

packed_halves :
    (hit : ArmorHit)
    → IsHalves hit
    → bit_or (hit.index * 16) hit.type % 256 ≡ hit.index * 16 + hit.type
packed_halves hit h =
    let x = hit.index * 16 + hit.type in
    let high : x / 16 * 16 ≡ hit.index * 16 = omega (arith, h.0) in
    let low : x % 16 ≡ hit.type = omega (arith, h.0) in
    ap (λ (y : ℕ). y % 256) (ap₂ bit_or (sym high) (sym low))
    ∙ agree_below 256 (λ y. bit_or (y / 16 * 16) (y % 16) % 256) (λ y. y) x halves_table
        (omega (arith, h))

read_armor_hit-encode_armor_hit :
    (seq_id node_id : ℕ) (hit : ArmorHit)
    → IsHalves hit
    → read_armor_hit node_id (event_of seq_id node_id 0x38 0x3f 0x02 (encode_armor_hit hit))
      ≡ some hit
unfolding event_of push_to encode_armor_hit write
read_armor_hit-encode_armor_hit seq_id node_id hit h =
    let low : (bit_or (hit.index * 16) hit.type % 256) % 16 ≡ hit.type =
      omega (arith, packed_halves hit h, h) in
    let high : (bit_or (hit.index * 16) hit.type % 256) / 16 ≡ hit.index =
      omega (arith, packed_halves hit h, h) in
    let same : (node_id == node_id) ≡ true = ground arith in rw (same, low, high) refl

map-read_armor_hit :
    (seq_id node_id : ℕ) (hits : List ArmorHit)
    → All IsHalves hits
    → map
        (read_armor_hit node_id)
        (map (λ hit. event_of seq_id node_id 0x38 0x3f 0x02 (encode_armor_hit hit)) hits)
      ≡ map some hits
map-read_armor_hit seq_id node_id [] h = refl
map-read_armor_hit seq_id node_id (hit ∷ hits) h =
    ap₂ ◌∷◌ (read_armor_hit-encode_armor_hit seq_id node_id hit h.0)
      (map-read_armor_hit seq_id node_id hits h.1)

-- Where the sequence number has 16 bits and each hit's type and index have 4, a step pushes one frame
-- for each armor hit, in their order. The subscribed node decodes each frame and reads that hit's type
-- and index from the two halves of the payload's first byte, behind which four bytes are 0.
pub step_armor_hit_event_lem :
    (seq_id node_id : ℕ) (hits : List ArmorHit)
    → seq_id < 65536
    → All IsHalves hits
    → map (read_armor_hit node_id) (decode_all (step_armor_hit_event seq_id node_id hits))
      ≡ map some hits
step_armor_hit_event_lem seq_id node_id hits h halves =
    ap (map (read_armor_hit node_id)) (step_armor_hit_event_frames seq_id node_id hits h)
    ∙ map-read_armor_hit seq_id node_id hits halves

-- With a sequence number of 16 bits, a step pushes one frame for each infrared hit, in their
-- order, each of which the subscribed node decodes to the bytes that encode_ir_hit gives.
pub step_ir_hit_event_lem :
    (seq_id node_id : ℕ) (hits : List IrHit)
    → seq_id < 65536
    → decode_all (step_ir_hit_event seq_id node_id hits)
      ≡ map (λ hit. event_of seq_id node_id 0x38 0x3f 0x10 (encode_ir_hit hit)) hits
unfolding decode_all step_ir_hit_event event_of push_to
step_ir_hit_event_lem seq_id node_id [] h = refl
step_ir_hit_event_lem seq_id node_id (hit ∷ hits) h =
    ap₂ ◌∷◌ (decode_request_whole (push_to seq_id node_id 0x38) (encode_ir_hit hit) 0x3f 0x10 h)
      (step_ir_hit_event_lem seq_id node_id hits h)
