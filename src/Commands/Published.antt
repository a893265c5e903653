-- ===== src/Commands/Published.antt =====
-- What a step of one subscription of robomaster_sim/src/topic.cpp publishes.
use msde_robotics.Prelude.{
  ℕ, zero, suc, ◌<◌, ◌≡◌, refl, ◌∙◌, Bool, not, if◌then◌else◌, List, ◌∷◌, ◌++◌, true, false, some,
  length, All,
}
use msde_robotics.Wire.Bytes.{Float, write}
use msde_robotics.Wire.Crc.{crc16_calc}
use msde_robotics.Wire.Frame.{reply_to, attri, contents, accepted, decode_request}
use msde_robotics.Wire.Frame.RoundTrip.{decode_request_whole}
use msde_robotics.Messages.Replies.{encode_push_period}
use msde_robotics.Robot.Platform.{Arithmetic, zero_f, one_f}
use msde_robotics.Commands.Topics.{Topic, push_response, publish, period, copies, step_topic}
use msde_robotics.Commands.Connection.{later, catch_up_enough}

-- A client decodes the frame as a push of this data for the subscription, from the robot to the node
-- that subscribed; behind the data comes the frame's checksum.
abbrev pub Carries : Topic → List ℕ → List ℕ → Type 0
Carries t data_of_subject frame =
    (attributes : ℕ) × (trailer : List ℕ) × (length trailer ≡ 2)
    × (decode_request frame (length frame)
        ≡ some (
            accepted (record {
              cmd_set = 0x48;
              cmd_id = 0x08;
              seq_id = t.request.request.seq_id;
              attri = attributes;
              sender = t.request.request.receiver;
              receiver = t.request.request.sender;
              payload = t.request.sub_mode ∷ t.request.msg_id ∷ data_of_subject ++ trailer;
            })))

publish-Carries :
    (subject_data : ℕ → List ℕ) (t : Topic)
    → t.request.request.seq_id < 65536
    → Carries t (subject_data t.subject) (publish subject_data t)
unfolding publish push_response encode_push_period write reply_to
publish-Carries subject_data t h =
    let r = push_response t.request.request in
    let payload = encode_push_period t.request.sub_mode t.request.msg_id (subject_data t.subject) in
    (
      attri r,
      write 2 (crc16_calc (contents r payload 0x48 0x08)),
      refl,
      decode_request_whole r payload 0x48 0x08 h,
    )

if_active : {A : Type 0} (b : Bool) (x y : A) → b ≡ true → (if not b then x else y) ≡ y
if_active b x y e = rw e refl

module _ (fp : Arithmetic) where
  open fp use {sub, div, le, of_ℕ}

  copies-All :
      (P : List ℕ → Type 0) (n : ℕ) (frame : List ℕ)
      → P frame
      → (length (copies fp n frame) ≡ n) × All P (copies fp n frame)
  unfolding copies
  copies-All P zero frame p = (refl, tt)
  copies-All P (suc n) frame p = let (e, rest) = copies-All P n frame p in (rw e refl, (p, rest))

  -- If the topic is active, its request's sequence number has 16 bits, and after the step and n
  -- periods of 1 / sub_freq the deadline is not due, a step with fuel for n rounds returns. The
  -- deadline moves on by as many periods as make it not due, and by no more; one frame is published
  -- for each of these periods. A client decodes each frame as a push for the subscription, with its
  -- mode, its message number and the subject's data.
  pub step_topic-Carries :
      (n : ℕ) (subject_data : ℕ → List ℕ) (time_step : Float) (t : Topic)
      → t.active ≡ true
      → t.request.request.seq_id < 65536
      → let after =
          λ (k : ℕ). later fp k (div one_f (of_ℕ t.request.sub_freq)) (sub t.deadline time_step) in
        le (after n) zero_f ≡ false
        → (sent : ℕ) × (frames : List (List ℕ)) × (step_topic fp (suc n) subject_data time_step t
            ≡ some (record t { deadline = after sent }, frames))
          × (le (after sent) zero_f ≡ false)
          × ((j : ℕ) → j < sent → le (after j) zero_f ≡ true)
          × (length frames ≡ sent)
          × All (Carries t (subject_data t.subject)) frames
  unfolding step_topic period
  step_topic-Carries n subject_data time_step t active h due_no_more =
      let start = sub t.deadline time_step in
      let (sent, runs, last, due, bound) = catch_up_enough fp n (period fp t) start due_no_more in
      let (count, all) =
        copies-All (Carries t (subject_data t.subject)) sent (publish subject_data t)
          (publish-Carries subject_data t h) in
      (
        sent,
        copies fp sent (publish subject_data t),
        if_active t.active _ _ active ∙ rw runs refl,
        last,
        due,
        count,
        all,
      )
