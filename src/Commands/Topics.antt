-- ===== src/Commands/Topics.antt =====
-- robomaster_sim/include/topic.hpp and src/topic.cpp: one subscription, published at its frequency.
use msde_robotics.Prelude.{
  ℕ, zero, suc, List, [], ◌∷◌, Bool, true, false, not, Option, none, some, if◌then◌else◌,
}
use msde_robotics.Wire.Bytes.{Float}
use msde_robotics.Wire.Frame.{RequestT, ResponseT, reply_to, encode_msg}
use msde_robotics.Messages.Subscriber.{AddSubMsg}
use msde_robotics.Messages.Replies.{encode_push_period}
use msde_robotics.Robot.Platform.{Arithmetic, zero_f, one_f}

-- `subject` is the uid of the subject. A new topic is started at once, so that the values that its
-- constructor leaves undefined are never read.
pub record Topic : Type 0 where
  pub request : AddSubMsg
  pub subject : ℕ
  pub deadline : Float
  pub active : Bool

unfoldable pub start : Topic → Topic
start t = record t { active = true; deadline = zero_f }

unfoldable pub stop : Topic → Topic
stop t = record t { active = false }

unfoldable pub new_topic : AddSubMsg → ℕ → Topic
new_topic request subject = record {
  request = request;
  subject = subject;
  deadline = zero_f;
  active = false;
}

-- `PushPeriodMsg::Response`: an answer to the subscription that neither is nor needs an
-- acknowledgement.
unfoldable pub push_response : RequestT → ResponseT
push_response request = record (reply_to request) { is_ack = 0; need_ack = 0 }

-- `subject_data uid` is what the subject's virtual `update` and `encode` give.
unfoldable pub publish : (ℕ → List ℕ) → Topic → List ℕ
unfolding push_response
publish subject_data t =
    encode_msg (push_response t.request.request)
      (encode_push_period t.request.sub_mode t.request.msg_id (subject_data t.subject)) 0x48 0x08

module _ (fp : Arithmetic) where
  open fp use {add, sub, div, le, of_ℕ}

  unfoldable pub period : Topic → Float
  period t = div one_f (of_ℕ t.request.sub_freq)

  -- The `while` loop of `do_step`: the deadline that it leaves and the number of frames sent.
  unfoldable pub catch_up : ℕ → Float → Float → Option (Float × ℕ)
  catch_up zero step deadline = none
  catch_up (suc fuel) step deadline = elim (le deadline zero_f) [
    | false ↦ some (deadline, 0)
    | true ↦ elim (catch_up fuel step (add deadline step)) [
      | none ↦ none
      | some (last, sent) ↦ some (last, suc sent)
    ]
  ]

  unfoldable pub copies : ℕ → List ℕ → List (List ℕ)
  copies zero frame = []
  copies (suc n) frame = frame ∷ copies n frame

  -- The frames are equal, since the robot does not change between them.
  unfoldable pub step_topic : ℕ → (ℕ → List ℕ) → Float → Topic → Option (Topic × List (List ℕ))
  unfolding copies
  step_topic fuel subject_data time_step t =
      if not t.active
      then some (t, [])
      else elim (catch_up fuel (period t) (sub t.deadline time_step)) [
        | none ↦ none
        | some (last, sent) ↦
            some (record t { deadline = last }, copies sent (publish subject_data t))
      ]
