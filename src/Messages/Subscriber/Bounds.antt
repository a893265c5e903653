-- ===== src/Messages/Subscriber/Bounds.antt =====
-- How many bytes a subscription needs.
use msde_robotics.Prelude.{
  ℕ, zero, suc, ◌+◌, ◌*◌, ◌≤◌, ◌<◌, ◌≡◌, refl, List, [], ◌∷◌, Option, none, some, arith, length,
  drop, length-drop, bit_and,
}
use msde_robotics.Wire.Bytes.{byte, read, ◌>>=◌}
use msde_robotics.Wire.Frame.{RequestT}
use msde_robotics.Messages.InBounds.{byte-some, read_at-some}
use msde_robotics.Messages.Subscriber.{AddSubMsg, read_uid_list, read_add_sub_msg}

read-none : (n : ℕ) (buffer : List ℕ) → length buffer < n → read n buffer ≡ none
unfolding read
read-none zero buffer h = absurd (omega arith)
read-none (suc n) [] h = refl
read-none (suc n) (b ∷ rest) h = rw (read-none n rest (omega arith)) refl

read_uid_list-some :
    (count start : ℕ) (buffer : List ℕ)
    → start + 8 * count ≤ length buffer
    → (uids : List ℕ) × (read_uid_list count start buffer ≡ some uids) × (length uids ≡ count)
unfolding read_uid_list
read_uid_list-some zero start buffer h = ([], refl, refl)
read_uid_list-some (suc count) start buffer h =
    let (uid, e) = read_at-some 8 start buffer (omega arith) in
    let (rest, es, n) = read_uid_list-some count (start + 8) buffer (omega arith) in
    (uid ∷ rest, rw (e, es) refl, rw n refl)

bind_none {ℓ κ} :
    {A : Type ℓ} {B : Type κ} (o : Option A) {f : A → Option B}
    → ((a : A) → f a ≡ none)
    → (o >>= f) ≡ none
bind_none none h = refl
bind_none (some a) h = h a

-- A subscription that announces n uids is read completely, with n uids, from a buffer of at
-- least 7 + 8 * n bytes.
pub read_add_sub_msg_enough :
    (request : RequestT) (buffer : List ℕ) (n : ℕ)
    → byte 4 buffer ≡ some n
    → 7 + 8 * n ≤ length buffer
    → (m : AddSubMsg) × (read_add_sub_msg request buffer ≡ some m)
      × (m.sub_data_num ≡ n)
      × (length m.sub_uid_list ≡ n)
unfolding read_add_sub_msg
read_add_sub_msg_enough request buffer n e h =
    let (node_id, e0) = byte-some 0 buffer (omega arith) in
    let (msg_id, e1) = byte-some 1 buffer (omega arith) in
    let (flags, e2) = byte-some 2 buffer (omega arith) in
    let (sub_mode, e3) = byte-some 3 buffer (omega arith) in
    let (uids, es, size) = read_uid_list-some n 5 buffer (omega arith) in
    let (freq, ef) = read_at-some 2 (5 + 8 * n) buffer (omega arith) in
    (
      record {
        request = request;
        node_id = node_id;
        msg_id = msg_id;
        timestamp = bit_and flags 0x1;
        stop_when_disconnect = bit_and flags 0x2;
        sub_mode = sub_mode;
        sub_data_num = n;
        sub_uid_list = uids;
        sub_freq = freq;
      },
      rw (e0, e1, e2, e3, e, es, ef) refl,
      refl,
      size,
    )

-- A subscription that announces n uids in a buffer shorter than 7 + 8 * n bytes is read behind
-- the buffer's end.
pub read_add_sub_msg_short :
    (request : RequestT) (buffer : List ℕ) (n : ℕ)
    → byte 4 buffer ≡ some n
    → length buffer < 7 + 8 * n
    → read_add_sub_msg request buffer ≡ none
unfolding read_add_sub_msg
read_add_sub_msg_short request buffer n e h =
    let freq =
      read-none 2 (drop (5 + 8 * n) buffer) (omega (arith, length-drop (5 + 8 * n) buffer)) in
    bind_none (byte 0 buffer) (λ _. bind_none (byte 1 buffer) (λ _. bind_none (byte 2 buffer) (λ _.
      bind_none (byte 3 buffer)
        (λ _. rw e (bind_none (read_uid_list n 5 buffer) (λ _. rw freq refl))))))
