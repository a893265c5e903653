-- ===== src/Examples/Messages.antt =====
-- Requests and the dispatch table.
use msde_robotics.Prelude.{ℕ, ◌≡◌, ◌≢◌, refl, List, [], ◌∷◌, none, some, arith, length, replicate}
use msde_robotics.Wire.Bytes.{key_from}
use msde_robotics.Wire.Frame.{RequestT}
use msde_robotics.Messages.System.{read_set_sdk_mode}
use msde_robotics.Messages.Subscriber.{AddSubMsg, read_add_sub_msg}
use msde_robotics.Messages.Subscriber.Bounds.{read_add_sub_msg_enough, read_add_sub_msg_short}
use msde_robotics.Messages.Registry.{set_sdk_mode, parsed, registered, find_callback}
use msde_robotics.Messages.Dispatch.{callback_in_bounds}

abbrev request : RequestT
request = record { attri = 64; sender = 9; receiver = 195; seq_id = 1 }

callback_in_bounds_example : parsed set_sdk_mode read_set_sdk_mode request (replicate 19 1) ≢ none
unfolding find_callback registered key_from
callback_in_bounds_example =
    callback_in_bounds (key_from 0x3f 0xd1) (parsed set_sdk_mode read_set_sdk_mode) request
      (replicate 19 1) (omega arith) refl (omega arith)

abbrev one_uid : List ℕ
one_uid = 2 ∷ 11 ∷ 0 ∷ 0 ∷ 1 ∷ 0x9c ∷ 0 ∷ 0xa4 ∷ 0x49 ∷ 9 ∷ 0 ∷ 2 ∷ 0 ∷ 10 ∷ 0 ∷ []

read_add_sub_msg_enough_example :
    (m : AddSubMsg) × (read_add_sub_msg request one_uid ≡ some m)
    × (m.sub_data_num ≡ 1)
    × (length m.sub_uid_list ≡ 1)
read_add_sub_msg_enough_example = read_add_sub_msg_enough request one_uid 1 refl (omega arith)

read_add_sub_msg_short_example :
    read_add_sub_msg request (2 ∷ 11 ∷ 0 ∷ 0 ∷ 255 ∷ replicate 20 0) ≡ none
read_add_sub_msg_short_example =
    read_add_sub_msg_short request (2 ∷ 11 ∷ 0 ∷ 0 ∷ 255 ∷ replicate 20 0) 255 refl (omega arith)
