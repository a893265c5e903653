-- ===== src/Commands/Publishers.antt =====
-- The publishers' table under the requests of robomaster_sim/include/subscriber_messages.hpp.
use msde_robotics.Prelude.{
  ℕ, ◌≡◌, refl, ◌∙◌, List, [], ◌∷◌, ◌&&◌, ◌==◌, Option, none, some, if◌then◌else◌, arith, inl, inr,
  Bool-cases, IsByte, ap₂,
}
use msde_robotics.Prelude.SortedMap.{
  lookup, emplace, IsSorted, or_else, lookup-emplace, lookup-update, lookup-erase, emplace-From,
  update-From, erase-From,
}
use msde_robotics.Wire.Bytes.{key_from, key_from-injective}
use msde_robotics.Messages.Subscriber.{AddSubMsg, DelMsg}
use msde_robotics.Commands.Topics.{Topic, new_topic, start}
use msde_robotics.Commands.{
  Commands, subject_uids, is_subject, create_publisher, create_publishers, answer_add_sub,
  stop_publisher,
}

-- The first uid of a list that names a subject.
pub first_known : List ℕ → Option ℕ
first_known [] = none
first_known (uid ∷ uids) = if is_subject uid subject_uids then some uid else first_known uids

-- The publisher under the request's key once a known uid asked for it, where `before` was there.
pub restarted : AddSubMsg → Option ℕ → Option Topic → Option Topic
restarted request none before = before
restarted request (some uid) before = some (start (or_else before (new_topic request uid)))

create_publisher_lem :
    (k uid : ℕ) (request : AddSubMsg) (c : Commands)
    → IsSorted c.publishers
    → lookup k (create_publisher uid request c).publishers ≡ (
        if is_subject uid subject_uids && key_from request.node_id request.msg_id == k
        then some (start (or_else (lookup k c.publishers) (new_topic request uid)))
        else lookup k c.publishers)
unfolding create_publisher
create_publisher_lem k uid request c sorted =
    let key = key_from request.node_id request.msg_id in
    elim (Bool-cases (is_subject uid subject_uids)) [
      | inl e ↦ rw e (
          lookup-update k key start (emplace key (new_topic request uid) c.publishers)
          ∙ rw (lookup-emplace k key 0 (new_topic request uid) c.publishers sorted) (ground arith))
      | inr e ↦ rw e refl
    ]

create_publisher-IsSorted :
    (uid : ℕ) (request : AddSubMsg) (c : Commands)
    → IsSorted c.publishers
    → IsSorted (create_publisher uid request c).publishers
unfolding create_publisher
create_publisher-IsSorted uid request c sorted = elim (Bool-cases (is_subject uid subject_uids)) [
  | inl e ↦ rw e (
      update-From _ 0 start
        (emplace (key_from request.node_id request.msg_id) (new_topic request uid) c.publishers)
        (emplace-From _ 0 (new_topic request uid) c.publishers (omega arith) sorted))
  | inr e ↦ rw e sorted
]

-- After the first known uid, the others only restart the same publisher.
restarted_again :
    (request : AddSubMsg) (uid : ℕ) (later : Option ℕ) (before : Option Topic)
    → restarted request later (some (start (or_else before (new_topic request uid))))
      ≡ restarted request (some uid) before
unfolding restarted start
restarted_again request uid none before = refl
restarted_again request uid (some other) before = refl

create_publishers_lem :
    (uids : List ℕ) (k : ℕ) (request : AddSubMsg) (c : Commands)
    → IsSorted c.publishers
    → (lookup k (create_publishers uids request c).publishers ≡ (
        if key_from request.node_id request.msg_id == k
        then restarted request (first_known uids) (lookup k c.publishers)
        else lookup k c.publishers))
      × IsSorted (create_publishers uids request c).publishers
unfolding create_publishers first_known
create_publishers_lem [] k request c sorted = (unfold restarted in ground arith, sorted)
create_publishers_lem (uid ∷ uids) k request c sorted =
    let (found, sorted') =
      create_publishers_lem uids k request (create_publisher uid request c)
        (create_publisher-IsSorted uid request c sorted) in
    let one = create_publisher_lem k uid request c sorted in
    (
      elim (Bool-cases (is_subject uid subject_uids)) [
        | inl e ↦
            rw (found, one, e)
              (ground
                (arith, restarted_again request uid (first_known uids) (lookup k c.publishers)))
        | inr e ↦ rw (found, one, e) (ground arith)
      ],
      sorted',
    )

-- Where the publishers' keys ascend, a subscription with its list of uids concerns one key only.
-- If none of its uids is a subject, nothing changes. Otherwise a publisher that is there keeps
-- its request and its subject and is started again, and where there was none a started one with
-- the first known uid stands: the other uids are dropped. The keys stay in their order.
pub answer_add_sub_lem :
    (k : ℕ) (request : AddSubMsg) (c : Commands)
    → IsSorted c.publishers
    → (lookup k (answer_add_sub request c).publishers ≡ (
        if key_from request.node_id request.msg_id == k
        then restarted request (first_known request.sub_uid_list) (lookup k c.publishers)
        else lookup k c.publishers))
      × IsSorted (answer_add_sub request c).publishers
unfolding answer_add_sub
answer_add_sub_lem k request c sorted =
    create_publishers_lem request.sub_uid_list k request c sorted

stop_publisher_lem :
    (k : ℕ) (request : DelMsg) (c : Commands)
    → IsSorted c.publishers
    → (lookup k (stop_publisher request c).publishers
        ≡ (if key_from request.node_id request.msg_id == k then none else lookup k c.publishers))
      × IsSorted (stop_publisher request c).publishers
unfolding stop_publisher
stop_publisher_lem k request c sorted = (
  lookup-erase k (key_from request.node_id request.msg_id) 0 c.publishers sorted,
  erase-From (key_from request.node_id request.msg_id) 0 c.publishers sorted,
)

-- The publisher of a node's message.
abbrev pub publisher_of : ℕ → ℕ → Commands → Option Topic
publisher_of node_id msg_id c = lookup (key_from node_id msg_id) c.publishers

-- The keys of two messages, which are bytes, agree where the nodes and the messages do.
key_test :
    (n i n' i' : ℕ) → IsByte i → IsByte i' → (key_from n i == key_from n' i') ≡ (n == n' && i == i')
key_test n i n' i' h h' =
    let apart = key_from-injective n i n' i' h h' in
    let together : n ≡ n' → i ≡ i' → key_from n i ≡ key_from n' i' = λ e d. ap₂ key_from e d in
    ground (arith, apart, together)

-- Where the publishers' keys ascend, and the message numbers are bytes, a subscription followed by a
-- deletion affects the publishers as follows, whichever node and message one looks at. The message
-- of the node that the deletion names has no publisher. Otherwise the message that the subscription
-- names has what the subscription gives it: a started publisher of the first known uid, the one
-- that was there started again, or what was there if no uid is known. Every other message of every
-- node has the publisher that it had before.
pub stop_publisher-answer_add_sub :
    (node_id msg_id : ℕ) (add : AddSubMsg) (del : DelMsg) (c : Commands)
    → IsByte msg_id
    → IsByte add.msg_id
    → IsByte del.msg_id
    → IsSorted c.publishers
    → publisher_of node_id msg_id (stop_publisher del (answer_add_sub add c)) ≡ (
        if del.node_id == node_id && del.msg_id == msg_id
        then none
        else if add.node_id == node_id && add.msg_id == msg_id
        then restarted add (first_known add.sub_uid_list) (publisher_of node_id msg_id c)
        else publisher_of node_id msg_id c)
stop_publisher-answer_add_sub node_id msg_id add del c h ha hd sorted =
    let k = key_from node_id msg_id in
    let (added, sorted') = answer_add_sub_lem k add c sorted in
    rw
      (
        (stop_publisher_lem k del (answer_add_sub add c) sorted').0,
        added,
        key_test del.node_id del.msg_id node_id msg_id hd h,
        key_test add.node_id add.msg_id node_id msg_id ha h,
      )
      refl
