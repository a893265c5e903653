-- ===== src/Server.antt =====
-- robomaster_sim/include/server.hpp and src/server.cpp: how a server answers the datagrams that it
-- receives. `S` is the state behind the server, which the handlers change.
pub mod Replies
pub mod Pushes
pub mod World
pub mod Answers
pub mod Node
pub mod Updates
pub mod Subjects
use msde_robotics.Prelude.{ℕ, List, [], ◌∷◌, Option, none, some}
use msde_robotics.Wire.Bytes.{◌>>=◌, key_from}
use msde_robotics.Wire.Frame.{
  RequestT, reply_to, encode_msg, Decoded, Verdict, rejected, accepted, decode_request,
}
use msde_robotics.Messages.Registry.{find_callback}

-- Sender, receiver, sequence number, attributes, payload and state to the state and the reply. `none` is an
-- access behind the end of the payload.
abbrev pub Callback : Type 0 → Type 0
Callback S = ℕ → ℕ → ℕ → ℕ → List ℕ → S → Option (S × List ℕ)

-- What the stored function returns: a frame where `R::answer` returned true.
unfoldable pub reply_frame : RequestT → ℕ → ℕ → Option (List ℕ) → List ℕ
reply_frame request set cmd none = []
reply_frame request set cmd (some payload) = encode_msg (reply_to request) payload set cmd

-- The function that `register_message<R>` stores. `read` is the constructor of `R::Request`, and
-- `answer` gives the payload that `R::Response` encodes, where `R::answer` returns true.
unfoldable pub callback :
    {R S : Type 0}
    → (RequestT → List ℕ → Option R)
    → (R → S → S × Option (List ℕ))
    → ℕ
    → ℕ
    → Callback S
unfolding reply_frame
callback read answer set cmd sender receiver seq_id attri buffer s =
    let request : RequestT = record {
      attri = attri;
      sender = sender;
      receiver = receiver;
      seq_id = seq_id;
    } in
    do
      fields ← read request buffer
      some ((answer fields s).0, reply_frame request set cmd (answer fields s).1)

-- `send`: the datagrams that leave the socket.
unfoldable pub send : List ℕ → List (List ℕ)
send [] = []
send (b ∷ bytes) = (b ∷ bytes) ∷ []

module _ {S : Type 0} where
  unfoldable pub answer_decoded : List (ℕ × Callback S) → Verdict → S → Option (S × List ℕ)
  answer_decoded callbacks (rejected why) s = some (s, [])
  answer_decoded callbacks (accepted d) s =
      elim (find_callback (key_from d.cmd_set d.cmd_id) callbacks) [
        | none ↦ some (s, [])
        | some h ↦ h d.sender d.receiver d.seq_id d.attri d.payload s
      ]

  unfoldable pub answer_request : List (ℕ × Callback S) → List ℕ → ℕ → S → Option (S × List ℕ)
  unfolding answer_decoded
  answer_request callbacks buffer received s = do
    verdict ← decode_request buffer received
    answer_decoded callbacks verdict s

  unfoldable pub has_received_bytes :
      List (ℕ × Callback S) → List ℕ → ℕ → S → Option (S × List (List ℕ))
  unfolding answer_request send
  has_received_bytes callbacks raw_request received s = do
    answered ← answer_request callbacks raw_request received s
    some (answered.0, send answered.1)
