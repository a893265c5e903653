-- ===== src/Server/Replies.antt =====
-- What a server sends back to a client.
use msde_robotics.Prelude.{
  ℕ, ◌+◌, ◌≤◌, ◌<◌, ◌≡◌, ◌≢◌, refl, ◌∙◌, List, [], ◌∷◌, ◌++◌, Option, some, arith, length,
  length-set, get_elem?, set, All, IsByte, Option-cases, inl, inr,
}
use mathlib.Core.List.{append-nil, append_assoc}
use msde_robotics.Wire.Bytes.{key_from, write}
use msde_robotics.Wire.Crc.{crc16_calc}
use msde_robotics.Wire.Frame.{
  RequestT, ResponseT, reply_to, attri, contents, encode_msg, Decoded, rejected, accepted,
  decode_request,
}
use msde_robotics.Wire.Frame.RoundTrip.{decode_request-encode_msg, length-encode_msg}
use msde_robotics.Wire.Frame.Errors.{decode_request_in_bounds, decode_request_header_change}
use msde_robotics.Messages.Registry.{find_callback}
use msde_robotics.Server.{
  Callback, callback, reply_frame, answer_decoded, answer_request, send, has_received_bytes,
}

-- The request that a client's frame carries.
pub request_of : ResponseT → RequestT
request_of q = record {
  attri = attri q;
  sender = q.sender;
  receiver = q.receiver;
  seq_id = q.seq_id;
}

-- The payload as the handler sees it: followed by the checksum and what else is in the buffer.
unfoldable pub seen : ResponseT → List ℕ → ℕ → ℕ → List ℕ → List ℕ
seen q payload cmd_set cmd rest =
    (payload ++ write 2 (crc16_calc (contents q payload cmd_set cmd))) ++ rest

send-encode_msg :
    (r : ResponseT) (payload : List ℕ) (cmd_set cmd : ℕ)
    → send (encode_msg r payload cmd_set cmd) ≡ encode_msg r payload cmd_set cmd ∷ []
unfolding send encode_msg contents
send-encode_msg r payload cmd_set cmd = refl

answer_decoded_found :
    {S : Type 0} (callbacks : List (ℕ × Callback S)) (h : Callback S) (d : Decoded) (s : S)
    → find_callback (key_from d.cmd_set d.cmd_id) callbacks ≡ some h
    → answer_decoded callbacks (accepted d) s ≡ h d.sender d.receiver d.seq_id d.attri d.payload s
unfolding answer_decoded
answer_decoded_found callbacks h d s found = rw (answer_decoded, found) refl

module _ {R S : Type 0} (read : RequestT → List ℕ → Option R)
    (answer : R → S → S × Option (List ℕ)) where
  callback_answers :
      (request : RequestT) (payload : List ℕ) (cmd_set cmd : ℕ) (fields : R) (s s' : S)
      (reply : List ℕ)
      → read request payload ≡ some fields
      → answer fields s ≡ (s', some reply)
      → callback read answer cmd_set cmd request.sender request.receiver request.seq_id
          request.attri payload s
        ≡ some (s', encode_msg (reply_to request) reply cmd_set cmd)
  unfolding callback reply_frame
  callback_answers request payload cmd_set cmd fields s s' reply reads answers =
      rw (reads, answers) refl

  -- A client's frame with a sequence number of 16 bits, received up to its end, whose key is
  -- registered and whose payload the request's constructor reads, is answered with exactly one
  -- frame if the handler has an answer. Decoding that frame gives the same set, command and
  -- sequence number, swapped addresses and the handler's payload, followed by some bytes.
  pub has_received_bytes-encode_msg :
      (q : ResponseT) (payload : List ℕ) (cmd_set cmd : ℕ) (rest : List ℕ) (received : ℕ)
      (callbacks : List (ℕ × Callback S)) (fields : R) (s s' : S) (reply : List ℕ)
      → q.seq_id < 65536
      → 13 + length payload ≤ received
      → find_callback (key_from cmd_set cmd) callbacks ≡ some (callback read answer cmd_set cmd)
      → read (request_of q) (seen q payload cmd_set cmd rest) ≡ some fields
      → answer fields s ≡ (s', some reply)
      → (frame : List ℕ) × (trailer : List ℕ) × (has_received_bytes callbacks
            (encode_msg q payload cmd_set cmd ++ rest)
            received
            s
          ≡ some (s', frame ∷ []))
        × (decode_request frame (length frame)
            ≡ some (
                accepted (record {
                  cmd_set = cmd_set;
                  cmd_id = cmd;
                  seq_id = q.seq_id;
                  attri = attri (reply_to (request_of q));
                  sender = q.receiver;
                  receiver = q.sender;
                  payload = reply ++ trailer;
                })))
  unfolding has_received_bytes answer_request request_of reply_to seen
  has_received_bytes-encode_msg q payload cmd_set cmd rest received callbacks fields s s' reply hs
        hr found reads answers =
      let r : ResponseT = reply_to (request_of q) in
      let frame : List ℕ = encode_msg r reply cmd_set cmd in
      let trailer : List ℕ = write 2 (crc16_calc (contents r reply cmd_set cmd)) in
      let decoded =
        decode_request-encode_msg r reply cmd_set cmd [] (length frame) hs
          (omega (arith, length-encode_msg r reply cmd_set cmd)) in
      (
        frame,
        trailer ++ [],
        rw
            (
              decode_request-encode_msg q payload cmd_set cmd rest received hs hr,
              answer_decoded_found callbacks (callback read answer cmd_set cmd) _ s found
                  ∙ callback_answers (request_of q) (seen q payload cmd_set cmd rest) cmd_set cmd
                      fields s s' reply reads answers,
              send-encode_msg r reply cmd_set cmd,
            )
            refl,
        rw (append-nil frame, append_assoc reply trailer []) at decoded,
      )

-- A datagram in a buffer of at least eleven bytes that was accepted leaves the state as it is
-- and is not answered once one of its first four bytes is changed to another byte.
pub has_received_bytes_header_change :
    {S : Type 0} (callbacks : List (ℕ × Callback S)) (buffer : List ℕ) (received i x : ℕ)
    (d : Decoded) (s : S)
    → 11 ≤ length buffer
    → All IsByte buffer
    → IsByte x
    → i < 4
    → decode_request buffer received ≡ some (accepted d)
    → get_elem? buffer i ≢ some x
    → has_received_bytes callbacks (set buffer i x) received s ≡ some (s, [])
unfolding has_received_bytes answer_request answer_decoded send
has_received_bytes_header_change callbacks buffer received i x d s long bytes hx hi old new =
    elim (Option-cases (decode_request (set buffer i x) received)) [
      | inl e ↦ absurd (
          decode_request_in_bounds (set buffer i x) received (omega (arith, length-set buffer i x))
            e)
      | inr (rejected why, e) ↦ rw e refl
      | inr (accepted e, again) ↦
          absurd (decode_request_header_change buffer received i x d e bytes hx hi old new again)
    ]
