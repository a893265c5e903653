-- ===== src/Wire/Frame/RoundTrip.antt =====
-- `decode_request` reads back what `encode_msg` wrote.
use msde_robotics.Prelude.{
  ℕ, ◌+◌, ◌*◌, ◌/◌, ◌%◌, ◌^◌, ◌≤◌, ◌<◌, ◌≡◌, refl, sym, ap, ◌∙◌, List, [], ◌∷◌, ◌++◌, some, arith,
  length, length-append, bit_and, bit_or,
}
use mathlib.Core.List.{append_assoc, append-nil}
use msde_robotics.Prelude.Bits.{all_below, agree_below, bit_and_mask}
use msde_robotics.Wire.Bytes.{write}
use msde_robotics.Wire.Crc.{crc8_calc, crc16_calc}
use msde_robotics.Wire.Frame.{
  ResponseT, accepted, attri, header, contents, encode_msg, decode_request,
}

version_bit : (x : ℕ) → x < 4 → bit_or x 4 ≡ x + 4
unfolding all_below
version_bit x h = agree_below 4 (λ i. bit_or i 4) (λ i. i + 4) x refl h

-- What the receiver computes from the second and third byte: the length modulo 1024.
pub declared_length : ℕ → ℕ
declared_length len = bit_and (bit_or (bit_and (len / 2 ^ 8) 0x3) 4) 0x3 * 256 + bit_and len 0xff

pub declared_length_lem : (len : ℕ) → declared_length len ≡ len % 1024
unfolding declared_length
declared_length_lem len = ground (
  arith,
  bit_and_mask 2 (len / 2 ^ 8),
  version_bit (len / 2 ^ 8 % 4) (omega arith),
  bit_and_mask 2 (len / 2 ^ 8 % 4 + 4),
  bit_and_mask 8 len,
)

length_fits :
    (len received : ℕ)
    → len ≤ received
    → bit_and (bit_or (bit_and (len / 2 ^ 8) 0x3) 4) 0x3 * 256 + bit_and len 0xff ≤ received
unfolding declared_length
length_fits len received h = omega (arith, declared_length_lem len)

-- A frame that passes the four guards is accepted, and the fields are read at fixed places.
pub decode_request_accepts :
    (low high crc sender receiver seq_low seq_high attri set id : ℕ) (payload : List ℕ)
    (received : ℕ)
    → 4 ≤ received
    → crc8_calc (0x55 ∷ low ∷ high ∷ []) ≡ crc
    → bit_and high 0x3 * 256 + low ≤ received
    → decode_request
        (0x55 ∷ low ∷ high ∷ crc ∷ sender ∷ receiver ∷ seq_low ∷ seq_high ∷ attri ∷ set ∷ id
          ∷ payload)
        received
      ≡ some (
          accepted (record {
            cmd_set = set;
            cmd_id = id;
            seq_id = seq_high * 256 + seq_low;
            attri = attri;
            sender = sender;
            receiver = receiver;
            payload = payload;
          }))
unfolding decode_request
decode_request_accepts low high crc sender receiver seq_low seq_high attri set id payload received
      h4 hc hl =
    ground arith

seq_bytes : (seq : ℕ) → seq < 65536 → bit_and (seq / 2 ^ 8) 0xff * 256 + bit_and seq 0xff ≡ seq
seq_bytes seq h = omega (arith, bit_and_mask 8 (seq / 256), bit_and_mask 8 seq)

-- The two bytes behind the payload are not compared with anything: with any bytes in their place
-- a frame of encode_msg, with a sequence number of 16 bits and received up to its end, is
-- accepted, and only what follows the payload differs.
pub decode_request_any_checksum :
    (r : ResponseT) (payload : List ℕ) (set id : ℕ) (trailer : List ℕ) (received : ℕ)
    → r.seq_id < 65536
    → 13 + length payload ≤ received
    → decode_request (contents r payload set id ++ trailer) received
      ≡ some (
          accepted (record {
            cmd_set = set;
            cmd_id = id;
            seq_id = r.seq_id;
            attri = attri r;
            sender = r.sender;
            receiver = r.receiver;
            payload = payload ++ trailer;
          }))
unfolding contents
decode_request_any_checksum r payload set id trailer received hs hr =
    let len : ℕ = 13 + length payload in
    decode_request_accepts (bit_and len 0xff) (bit_or (bit_and (len / 2 ^ 8) 0x3) 4)
      (crc8_calc (header len)) r.sender r.receiver (bit_and r.seq_id 0xff)
      (bit_and (r.seq_id / 2 ^ 8) 0xff) (attri r) set id (payload ++ trailer) received (omega arith)
      refl (length_fits len received hr)
    ∙ ap
        (λ (q : ℕ). some (
          accepted (record {
            cmd_set = set;
            cmd_id = id;
            seq_id = q;
            attri = attri r;
            sender = r.sender;
            receiver = r.receiver;
            payload = payload ++ trailer;
          })))
        (seq_bytes r.seq_id hs)

-- Any frame that encode_msg writes, with a sequence number of 16 bits, is accepted by
-- decode_request, whatever bytes follow it in the receive buffer, once the received length
-- reaches its end, and all its fields come back; the payload pointer is followed by the frame's
-- checksum and those bytes.
pub decode_request-encode_msg :
    (r : ResponseT) (payload : List ℕ) (set id : ℕ) (rest : List ℕ) (received : ℕ)
    → r.seq_id < 65536
    → 13 + length payload ≤ received
    → decode_request (encode_msg r payload set id ++ rest) received
      ≡ some (
          accepted (record {
            cmd_set = set;
            cmd_id = id;
            seq_id = r.seq_id;
            attri = attri r;
            sender = r.sender;
            receiver = r.receiver;
            payload = (payload ++ write 2 (crc16_calc (contents r payload set id))) ++ rest;
          }))
unfolding encode_msg
decode_request-encode_msg r payload set id rest received hs hr =
    let sum : List ℕ = write 2 (crc16_calc (contents r payload set id)) in
    ap (λ (b : List ℕ). decode_request b received)
      (append_assoc (contents r payload set id) sum rest)
    ∙ decode_request_any_checksum r payload set id (sum ++ rest) received hs hr
    ∙ ap
        (λ (p : List ℕ). some (
          accepted (record {
            cmd_set = set;
            cmd_id = id;
            seq_id = r.seq_id;
            attri = attri r;
            sender = r.sender;
            receiver = r.receiver;
            payload = p;
          })))
        (sym (append_assoc payload sum rest))

pub length-encode_msg :
    (r : ResponseT) (payload : List ℕ) (cmd_set cmd : ℕ)
    → length (encode_msg r payload cmd_set cmd) ≡ 13 + length payload
unfolding encode_msg contents header write
length-encode_msg r payload cmd_set cmd =
    omega (arith, length-append payload (write 2 (crc16_calc (contents r payload cmd_set cmd))))

-- A frame on its own.
pub decode_request_whole :
    (r : ResponseT) (payload : List ℕ) (cmd_set cmd : ℕ)
    → r.seq_id < 65536
    → decode_request (encode_msg r payload cmd_set cmd) (length (encode_msg r payload cmd_set cmd))
      ≡ some (
          accepted (record {
            cmd_set = cmd_set;
            cmd_id = cmd;
            seq_id = r.seq_id;
            attri = attri r;
            sender = r.sender;
            receiver = r.receiver;
            payload = payload ++ write 2 (crc16_calc (contents r payload cmd_set cmd));
          }))
decode_request_whole r payload cmd_set cmd h =
    let frame : List ℕ = encode_msg r payload cmd_set cmd in
    let trailer : List ℕ = write 2 (crc16_calc (contents r payload cmd_set cmd)) in
    let decoded =
      decode_request-encode_msg r payload cmd_set cmd [] (length frame) h
        (omega (arith, length-encode_msg r payload cmd_set cmd)) in
    rw (append-nil frame, append-nil (payload ++ trailer)) at decoded
