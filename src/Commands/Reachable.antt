-- ===== src/Commands/Reachable.antt =====
-- What holds of the command server of robomaster_sim/src/command.cpp in every state that its
-- operations lead to.
use msde_robotics.Prelude.{
  ℕ, suc, ◌≡◌, refl, subst, List, [], ◌∷◌, Bool, true, false, none, some, arith, inl, inr, All,
  Bool-cases, Option-cases,
}
use mathlib.Core.Option.{some-injective}
use msde_robotics.Prelude.SortedMap.{
  emplace, update, erase, From, IsSorted, emplace-From, update-From, erase-From,
}
use msde_robotics.Wire.Bytes.{key_from, Float}
use msde_robotics.Messages.Subscriber.{AddSubMsg, DelMsg}
use msde_robotics.Robot.Platform.{Arithmetic, zero_f}
use msde_robotics.Commands.Topics.{Topic, new_topic, start, step_topic, catch_up, period}
use msde_robotics.Commands.Step.{Observed, step_publishers, check_heartbeat, is_lost, do_step}
use msde_robotics.Commands.{
  Commands, subject_uids, is_subject, add_subscriber_node, got_heartbeat, unconnect,
  reset_subscriber_node, set_enable_sdk, set_vision_request, create_publisher, create_publishers,
  answer_add_sub, stop_publisher,
}

-- The constructor. The last heartbeat is uninitialised there; the camera's flags are the robot's.
unfoldable pub new_commands : Bool → Bool → Float → Bool → Bool → Commands
new_commands enable_armor_hits enable_ir_hits last_heartbeat streaming streamer_active = record {
  publishers = [];
  vision_event = none;
  armor_hit_event = none;
  ir_hit_event = none;
  enable_armor_hits = enable_armor_hits;
  enable_ir_hits = enable_ir_hits;
  last_heartbeat = last_heartbeat;
  time = zero_f;
  connected = false;
  streaming = streaming;
  streamer_active = streamer_active;
}

module _ (fp : Arithmetic) where
  -- The states that the calls of the handlers and of the simulation lead to.
  pub data Reachable : Commands → Type 0 where
    created : (a b : Bool) (h : Float) (s t : Bool) → Reachable (new_commands a b h s t)
    node_added :
        {c : Commands} (node_id : ℕ) → Reachable c → Reachable (add_subscriber_node node_id c)
    heard : {c : Commands} → Reachable c → Reachable (got_heartbeat c)
    node_reset :
        {c : Commands} (node_id : ℕ) → Reachable c → Reachable (reset_subscriber_node node_id c)
    sdk_set : {c : Commands} (value : Bool) → Reachable c → Reachable (set_enable_sdk value c)
    vision_requested :
        {c : Commands} (sender receiver type : ℕ)
        → Reachable c
        → Reachable (set_vision_request sender receiver type c)
    subscribed :
        {c : Commands} (request : AddSubMsg) → Reachable c → Reachable (answer_add_sub request c)
    deleted : {c : Commands} (request : DelMsg) → Reachable c → Reachable (stop_publisher request c)
    camera_set :
        {c : Commands} (streaming streamer_active : Bool)
        → Reachable c
        → Reachable (record c { streaming = streaming; streamer_active = streamer_active })
    stepped :
        {c c' : Commands} (fuel : ℕ) (o : Observed) (time_step : Float) (frames : List (List ℕ))
        → Reachable c
        → do_step fp fuel o time_step c ≡ some (c', frames)
        → Reachable c'

-- The publisher runs and publishes a subject that is registered.
abbrev pub IsLive : ℕ × Topic → Type 0
IsLive entry = (entry.1.active ≡ true) × (is_subject entry.1.subject subject_uids ≡ true)

abbrev pub IsWellFormed : Commands → Type 0
IsWellFormed c = IsSorted c.publishers × All IsLive c.publishers

emplace-start-IsLive :
    (k uid : ℕ) (request : AddSubMsg) (m : List (ℕ × Topic))
    → is_subject uid subject_uids ≡ true
    → All IsLive m
    → All IsLive (update k start (emplace k (new_topic request uid) m))
unfolding update emplace start new_topic
emplace-start-IsLive k uid request [] known live = ground (arith, known)
emplace-start-IsLive k uid request ((j, t) ∷ m) known live =
    ground (arith, known, live.0, live.1, emplace-start-IsLive k uid request m known live.1)

erase-All : (k : ℕ) (m : List (ℕ × Topic)) → All IsLive m → All IsLive (erase k m)
unfolding erase
erase-All k [] live = tt
erase-All k ((j, t) ∷ m) live = ground (arith, live.0, live.1, erase-All k m live.1)

create_publisher-IsWellFormed :
    (uid : ℕ) (request : AddSubMsg) (c : Commands)
    → IsWellFormed c
    → IsWellFormed (create_publisher uid request c)
unfolding create_publisher
create_publisher-IsWellFormed uid request c (sorted, live) =
    let key = key_from request.node_id request.msg_id in
    elim (Bool-cases (is_subject uid subject_uids)) [
      | inl known ↦ rw known (
        update-From key 0 start (emplace key (new_topic request uid) c.publishers)
            (emplace-From key 0 (new_topic request uid) c.publishers (omega arith) sorted),
        emplace-start-IsLive key uid request c.publishers known live,
      )
      | inr unknown ↦ rw unknown (sorted, live)
    ]

create_publishers-IsWellFormed :
    (uids : List ℕ) (request : AddSubMsg) (c : Commands)
    → IsWellFormed c
    → IsWellFormed (create_publishers uids request c)
unfolding create_publishers
create_publishers-IsWellFormed [] request c w = w
create_publishers-IsWellFormed (uid ∷ uids) request c w =
    create_publishers-IsWellFormed uids request (create_publisher uid request c)
      (create_publisher-IsWellFormed uid request c w)

module _ (fp : Arithmetic) where
  -- A topic's own step changes its deadline only.
  step_topic-IsLive :
      (fuel : ℕ) (data_of : ℕ → List ℕ) (time_step : Float) (k : ℕ) (t : Topic)
      (r : Topic × List (List ℕ))
      → step_topic fp fuel data_of time_step t ≡ some r
      → IsLive (k, t)
      → IsLive (k, r.0)
  unfolding step_topic
  step_topic-IsLive fuel data_of time_step k t r e (active, known) =
      elim (Option-cases (catch_up fp fuel (period fp t) (fp.sub t.deadline time_step))) [
        | inl none_left ↦ absurd (cc (e, active, none_left))
        | inr (last, found) ↦
            subst (λ q. IsLive (k, q.0)) (some-injective _ _ (rw (found, active) at e))
              (refl, known)
      ]

  step_publishers-IsLive :
      (n fuel : ℕ) (data_of : ℕ → List ℕ) (time_step : Float) (m : List (ℕ × Topic))
      (r : List (ℕ × Topic) × List (List ℕ))
      → step_publishers fp fuel data_of time_step m ≡ some r
      → From n m
      → All IsLive m
      → From n r.0 × All IsLive r.0
  unfolding step_publishers
  step_publishers-IsLive n fuel data_of time_step [] r e sorted live =
      subst (λ q. From n q.0 × All IsLive q.0) (some-injective _ _ e) (tt, tt)
  step_publishers-IsLive n fuel data_of time_step ((key, topic) ∷ rest) r e sorted live =
      elim (Option-cases (step_topic fp fuel data_of time_step topic)) [
        | inl missing ↦ absurd (cc (rw missing at e))
        | inr (first, found) ↦
            elim (Option-cases (step_publishers fp fuel data_of time_step rest)) [
              | inl missing ↦ absurd (cc (rw (found, missing) at e))
              | inr (others, founds) ↦
                  let (others_sorted, others_live) =
                    step_publishers-IsLive (suc key) fuel data_of time_step rest others founds
                      sorted.1 live.1 in
                  subst (λ q. From n q.0 × All IsLive q.0)
                    (some-injective _ _ (rw (found, founds) at e))
                    (
                      (sorted.0, others_sorted),
                      (
                        step_topic-IsLive fuel data_of time_step key topic first found live.0,
                        others_live,
                      ),
                    )
            ]
      ]

  check_heartbeat-IsWellFormed :
      (time_step : Float) (c : Commands)
      → IsWellFormed c
      → IsWellFormed (check_heartbeat fp time_step c)
  unfolding check_heartbeat unconnect
  check_heartbeat-IsWellFormed time_step c w =
      elim (Bool-cases (is_lost fp (record c { time = fp.add c.time time_step }))) [
        | inl lost ↦ rw lost (tt, tt)
        | inr alive ↦ rw alive w
      ]

  do_step-IsWellFormed :
      (fuel : ℕ) (o : Observed) (time_step : Float) (c c' : Commands) (frames : List (List ℕ))
      → do_step fp fuel o time_step c ≡ some (c', frames)
      → IsWellFormed c
      → IsWellFormed c'
  unfolding do_step
  do_step-IsWellFormed fuel o time_step c c' frames e (sorted, live) =
      elim (Option-cases (step_publishers fp fuel o.subject_data time_step c.publishers)) [
        | inl missing ↦ absurd (cc (rw missing at e))
        | inr (published, found) ↦
            let kept =
              step_publishers-IsLive 0 fuel o.subject_data time_step c.publishers published found
                sorted live in
            subst (λ q. IsWellFormed q.0) (some-injective _ _ (rw found at e))
              (check_heartbeat-IsWellFormed time_step (record c { publishers = published.0 }) kept)
      ]

  -- In every state that the operations of the command server lead to, the publishers' keys
  -- ascend, every publisher runs, and each publishes a subject that is registered.
  pub Reachable-IsWellFormed : {c : Commands} → Reachable fp c → IsWellFormed c
  unfolding new_commands add_subscriber_node got_heartbeat reset_subscriber_node unconnect
      set_vision_request set_enable_sdk answer_add_sub stop_publisher
  Reachable-IsWellFormed (created a b h s t) = (tt, tt)
  Reachable-IsWellFormed (node_added node_id r) = Reachable-IsWellFormed r
  Reachable-IsWellFormed (heard r) = Reachable-IsWellFormed r
  Reachable-IsWellFormed (node_reset node_id r) = (tt, tt)
  Reachable-IsWellFormed (sdk_set true r) = Reachable-IsWellFormed r
  Reachable-IsWellFormed (sdk_set false r) = (tt, tt)
  Reachable-IsWellFormed (vision_requested sender receiver type r) = Reachable-IsWellFormed r
  Reachable-IsWellFormed (subscribed {c = c} request r) =
      create_publishers-IsWellFormed request.sub_uid_list request c (Reachable-IsWellFormed r)
  Reachable-IsWellFormed (deleted {c = c} request r) =
      let (sorted, live) = Reachable-IsWellFormed r in
      let key = key_from request.node_id request.msg_id in
      (erase-From key 0 c.publishers sorted, erase-All key c.publishers live)
  Reachable-IsWellFormed (camera_set a b r) = Reachable-IsWellFormed r
  Reachable-IsWellFormed (stepped {c = c} {c' = c'} fuel o time_step frames r e) =
      do_step-IsWellFormed fuel o time_step c c' frames e (Reachable-IsWellFormed r)
