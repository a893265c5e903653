-- ===== src/Examples/Commands.antt =====
-- The command server with one client.
use msde_robotics.Prelude.{
  ◌<◌, length, All, ℕ, ◌+◌, ◌-◌, ◌*◌, ◌/◌, ◌≡◌, inr, refl, List, [], ◌∷◌, true, false, none, some,
  ltb, leb, ◌==◌, if◌then◌else◌, arith, map,
}
use msde_robotics.Prelude.SortedMap.{IsSorted, lookup}
use msde_robotics.Wire.Bytes.{key_from}
use msde_robotics.Messages.Subscriber.{AddSubMsg, DelMsg}
use msde_robotics.Robot.Platform.{Arithmetic, zero_f}
use msde_robotics.Commands.{add_subscriber_node, Commands, answer_add_sub, stop_publisher}
use msde_robotics.Commands.Topics.{Topic, period, step_topic}
use msde_robotics.Commands.Step.{Observed, do_step}
use msde_robotics.Commands.Publishers.{
  first_known, restarted, answer_add_sub_lem, publisher_of, stop_publisher-answer_add_sub,
}
use msde_robotics.Commands.Reachable.{
  new_commands, created, node_added, subscribed, IsWellFormed, Reachable-IsWellFormed,
}
use msde_robotics.Commands.Connection.{later, IsChecked, do_step_lem}
use msde_robotics.Commands.Published.{Carries, step_topic-Carries}
use msde_robotics.Commands.Events.{step_armor_hit_event}
use msde_robotics.Commands.Events.Decoded.{read_armor_hit, decode_all, step_armor_hit_event_lem}

-- Whole numbers in place of floats, where a difference stops at 0.
abbrev whole_numbers : Arithmetic
whole_numbers = record {
  add = λ a b. a + b;
  sub = λ a b. a - b;
  mul = λ a b. a;
  div = λ a b. a / 1000;
  lt = ltb;
  le = leb;
  eq = λ a b. a == b;
  of_ℕ = λ n. n;
  widen = λ a. a * 1_000_000_000_000_000_000;
  lt_double = ltb;
}

-- A subscription whose list starts with an unknown uid.
abbrev request : AddSubMsg
request = record {
  request = record { attri = 0; sender = 9; receiver = 195; seq_id = 1 };
  node_id = 2;
  msg_id = 11;
  timestamp = 0;
  stop_when_disconnect = 0;
  sub_mode = 0;
  sub_data_num = 3;
  sub_uid_list = 5 ∷ 0x00020009eeb7cece ∷ 0x0002000949a4009c ∷ [];
  sub_freq = 10;
}

abbrev topic : Topic
topic = record { request = request; subject = 0x00020009eeb7cece; deadline = 2; active = true }

abbrev connected : Commands
connected = record {
  publishers = (key_from 2 11, topic) ∷ [];
  vision_event = none;
  armor_hit_event = some 2;
  ir_hit_event = none;
  enable_armor_hits = true;
  enable_ir_hits = false;
  last_heartbeat = 1;
  time = 4;
  connected = true;
  streaming = true;
  streamer_active = true;
}

answer_add_sub_lem_example :
    (lookup 523 (answer_add_sub request (record connected { publishers = [] })).publishers ≡ (
      if key_from 2 11 == 523
      then restarted request (first_known request.sub_uid_list) none
      else none))
    × IsSorted (answer_add_sub request (record connected { publishers = [] })).publishers
unfolding lookup
answer_add_sub_lem_example =
    answer_add_sub_lem 523 request (record connected { publishers = [] }) tt

abbrev deletion : DelMsg
deletion = record { request = request.request; node_id = 2; msg_id = 11; sub_mode = 0 }

stop_publisher-answer_add_sub_example :
    publisher_of 2 11 (stop_publisher deletion (answer_add_sub request connected)) ≡ none
stop_publisher-answer_add_sub_example =
    stop_publisher-answer_add_sub 2 11 request deletion connected (omega arith) (omega arith)
      (omega arith) (omega arith)

step_topic-Carries_example :
    (sent : ℕ) × (frames : List (List ℕ)) × (step_topic whole_numbers 2 (λ uid. uid ∷ []) 2 topic
      ≡ some
          (record topic { deadline = later whole_numbers sent (1_065_353_216 / 1000) 0 }, frames))
    × (leb (later whole_numbers sent (1_065_353_216 / 1000) 0) zero_f ≡ false)
    × ((j : ℕ) → j < sent → leb (later whole_numbers j (1_065_353_216 / 1000) 0) zero_f ≡ true)
    × (length frames ≡ sent)
    × All (Carries topic (0x00020009eeb7cece ∷ [])) frames
unfolding later
step_topic-Carries_example =
    step_topic-Carries whole_numbers 1 (λ uid. uid ∷ []) 2 topic refl (omega arith) refl

abbrev observed : Observed
observed = record {
  subject_data = λ uid. [];
  enabled = 0;
  objects = record { people = []; gestures = []; lines = []; markers = []; robots = [] };
  hits = record { type = 1; index = 2 } ∷ [];
  ir_hits = [];
  seq_id = 0;
}

-- The publisher is due, and the last heartbeat is more than three seconds ago.
do_step_lem_example :
    (c' : Commands) × (frames : List (List ℕ)) × (do_step whole_numbers 2 observed 2 connected
      ≡ some (c', frames))
    × (c'.time ≡ 6)
    × (c'.last_heartbeat ≡ 1)
    × IsChecked whole_numbers 2 connected c'
unfolding later period
do_step_lem_example = do_step_lem whole_numbers 1 observed 2 connected (inr refl, tt)

Reachable-IsWellFormed_example :
    IsWellFormed
      (answer_add_sub request (add_subscriber_node 2 (new_commands true false 0 false false)))
Reachable-IsWellFormed_example =
    Reachable-IsWellFormed whole_numbers
      (subscribed request (node_added 2 (created true false 0 false false)))

step_armor_hit_event_lem_example :
    map
      (read_armor_hit 2)
      (decode_all (step_armor_hit_event 7 2 (record { type = 1; index = 2 } ∷ [])))
    ≡ some (record { type = 1; index = 2 }) ∷ []
step_armor_hit_event_lem_example =
    step_armor_hit_event_lem 7 2 (record { type = 1; index = 2 } ∷ []) (omega arith)
      ((omega arith, omega arith), tt)
