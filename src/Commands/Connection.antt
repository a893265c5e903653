-- ===== src/Commands/Connection.antt =====
-- The connection with the client over one step of robomaster_sim/src/command.cpp, and the loop of
-- robomaster_sim/src/topic.cpp.
use msde_robotics.Prelude.{
  ℕ, zero, suc, ◌≤◌, ◌<◌, ◌≡◌, refl, ◌∙◌, List, [], ◌∷◌, ◌++◌, map, Bool, true, false, ◌&&◌, none,
  some, arith, inl, inr, ◌⊎◌, All, Bool-cases,
}
use msde_robotics.Wire.Bytes.{Float}
use msde_robotics.Robot.Platform.{Arithmetic, zero_f}
use msde_robotics.Commands.Topics.{Topic, period, catch_up, copies, publish, step_topic}
use msde_robotics.Commands.Step.{
  Observed, step_publishers, step_events, is_lost, check_heartbeat, do_step,
}
use msde_robotics.Commands.{Commands, unconnect}

module _ (fp : Arithmetic) where
  open fp use {add, sub, le, widen, lt_double}

  -- A deadline after `n` periods.
  unfoldable pub later : ℕ → Float → Float → Float
  later zero step deadline = deadline
  later (suc n) step deadline = later n step (add deadline step)

  each_due :
      (step deadline : Float) (sent : ℕ)
      → le deadline zero_f ≡ true
      → ((j : ℕ) → j < sent → le (later j step (add deadline step)) zero_f ≡ true)
      → (j : ℕ) → j < suc sent
      → le (later j step deadline) zero_f ≡ true
  unfolding later
  each_due step deadline sent e due zero below = e
  each_due step deadline sent e due (suc j) below = due j (omega arith)

  -- If a topic's deadline is not due after n periods, the publishing loop ends within n rounds, at the
  -- first deadline that is not due.
  pub catch_up_enough :
      (n : ℕ) (step deadline : Float)
      → le (later n step deadline) zero_f ≡ false
      → (sent : ℕ) × (catch_up fp (suc n) step deadline ≡ some (later sent step deadline, sent))
        × (le (later sent step deadline) zero_f ≡ false)
        × ((j : ℕ) → j < sent → le (later j step deadline) zero_f ≡ true)
        × (sent ≤ n)
  unfolding catch_up later
  catch_up_enough zero step deadline h =
      (0, rw (catch_up, h) refl, h, (λ j below. elim below [ ]), omega arith)
  catch_up_enough (suc n) step deadline h = elim (Bool-cases (le deadline zero_f)) [
    | inl e ↦
        let (sent, runs, last, due, bound) = catch_up_enough n step (add deadline step) h in
        (
          suc sent,
          rw (catch_up, e, runs) refl,
          last,
          each_due step deadline sent e due,
          omega (arith, bound),
        )
    | inr e ↦ (0, rw (catch_up, e) refl, e, (λ j below. elim below [ ]), omega arith)
  ]

  -- The loop of a topic ends within `n` rounds: it is not active, or its deadline after the step is
  -- not due after `n` periods.
  abbrev pub KeepsUp : ℕ → Float → Topic → Type 0
  KeepsUp n time_step t =
      (t.active ≡ false) ⊎ (le (later n (period fp t) (sub t.deadline time_step)) zero_f ≡ false)

  step_topic-some :
      (n : ℕ) (subject_data : ℕ → List ℕ) (time_step : Float) (t : Topic)
      → KeepsUp n time_step t
      → (r : Topic × List (List ℕ)) × (step_topic fp (suc n) subject_data time_step t ≡ some r)
  unfolding step_topic
  step_topic-some n subject_data time_step t (inl e) = ((t, []), rw e refl)
  step_topic-some n subject_data time_step t (inr e) =
      let (sent, runs, last, due, bound) =
        catch_up_enough n (period fp t) (sub t.deadline time_step) e in
      elim (Bool-cases t.active) [
        | inl a ↦ (
          (
            record t { deadline = later sent (period fp t) (sub t.deadline time_step) },
            copies fp sent (publish subject_data t),
          ),
          unfold step_topic in rw (runs, a) refl,
        )
        | inr a ↦ ((t, []), rw a refl)
      ]

  step_publishers-some :
      (n : ℕ) (subject_data : ℕ → List ℕ) (time_step : Float) (publishers : List (ℕ × Topic))
      → All (λ entry. KeepsUp n time_step entry.1) publishers
      → (r : List (ℕ × Topic) × List (List ℕ)) × (step_publishers fp
            (suc n)
            subject_data
            time_step
            publishers
          ≡ some r)
        × (map (λ entry. entry.0) r.0 ≡ map (λ entry. entry.0) publishers)
  unfolding step_publishers
  step_publishers-some n subject_data time_step [] h = (([], []), refl, refl)
  step_publishers-some n subject_data time_step ((key, topic) ∷ rest) h =
      let (first, e) = step_topic-some n subject_data time_step topic h.0 in
      let (others, es, keys) = step_publishers-some n subject_data time_step rest h.1 in
      (((key, first.0) ∷ others.0, first.1 ++ others.1), rw (e, es) refl, rw keys refl)

  -- What is left of a connection that is lost.
  abbrev pub IsCleared : Commands → Type 0
  IsCleared c =
      (c.connected ≡ false)
      × (c.publishers ≡ [])
      × (c.vision_event ≡ none)
      × (c.armor_hit_event ≡ none)
      × (c.ir_hit_event ≡ none)
      × (c.streaming ≡ false)
      × (c.streamer_active ≡ false)

  -- By the clock after the step, the last heartbeat is more than three seconds ago;
  -- 0x4008_0000_0000_0000 is 3.0.
  abbrev pub is_late : Float → Commands → Bool
  is_late time_step c =
      lt_double 0x4008_0000_0000_0000 (widen (sub (add c.time time_step) c.last_heartbeat))

  -- A connection that goes on.
  abbrev pub IsKept : Commands → Commands → Type 0
  IsKept c c' =
      (c'.connected ≡ c.connected)
      × (c'.vision_event ≡ c.vision_event)
      × (c'.armor_hit_event ≡ c.armor_hit_event)
      × (c'.ir_hit_event ≡ c.ir_hit_event)
      × (c'.streaming ≡ c.streaming)
      × (c'.streamer_active ≡ c.streamer_active)
      × (map (λ entry. entry.0) c'.publishers ≡ map (λ entry. entry.0) c.publishers)

  -- The connection is cleared if it was there and the heartbeat is late, and only then.
  abbrev pub IsChecked : Float → Commands → Commands → Type 0
  IsChecked time_step c c' =
      (((c.connected && is_late time_step c) ≡ true) × IsCleared c')
      ⊎ (((c.connected && is_late time_step c) ≡ false) × IsKept c c')

  check_heartbeat_lem :
      (time_step : Float) (c : Commands)
      → let c' = check_heartbeat fp time_step c in
        (c'.time ≡ add c.time time_step)
        × (c'.last_heartbeat ≡ c.last_heartbeat)
        × IsChecked time_step c c'
  unfolding check_heartbeat is_lost unconnect
  check_heartbeat_lem time_step c = elim (Bool-cases (c.connected && is_late time_step c)) [
    | inl lost ↦ rw lost (refl, refl, inl (refl, (refl, refl, refl, refl, refl, refl, refl)))
    | inr kept ↦ rw kept (refl, refl, inr (refl, (refl, refl, refl, refl, refl, refl, refl)))
  ]

  rekeyed :
      (time_step : Float) (c c' : Commands) (publishers : List (ℕ × Topic))
      → map (λ entry. entry.0) publishers ≡ map (λ entry. entry.0) c.publishers
      → IsChecked time_step (record c { publishers = publishers }) c'
      → IsChecked time_step c c'
  rekeyed time_step c c' publishers keys (inl lost) = inl lost
  rekeyed time_step c c' publishers keys (inr (alive, (a, b, d, e, f, g, same))) =
      inr (alive, (a, b, d, e, f, g, same ∙ keys))

  -- Where every publisher keeps up within n rounds, a step of the command server returns, and the
  -- clock advances by the step. If there was a connection and by that clock the last heartbeat is
  -- more than three seconds ago, the connection is cleared: no publisher and no event is left, and
  -- the video has stopped. Otherwise the flag of the connection, the events, the video's flags and
  -- the publishers' keys are as before.
  pub do_step_lem :
      (n : ℕ) (o : Observed) (time_step : Float) (c : Commands)
      → All (λ entry. KeepsUp n time_step entry.1) c.publishers
      → (c' : Commands) × (frames : List (List ℕ)) × (do_step fp (suc n) o time_step c
          ≡ some (c', frames))
        × (c'.time ≡ add c.time time_step)
        × (c'.last_heartbeat ≡ c.last_heartbeat)
        × IsChecked time_step c c'
  unfolding do_step
  do_step_lem n o time_step c h =
      let (published, e, keys) = step_publishers-some n o.subject_data time_step c.publishers h in
      let published_c : Commands = record c { publishers = published.0 } in
      let c' = check_heartbeat fp time_step published_c in
      let (clock, heard, checked) = check_heartbeat_lem time_step published_c in
      (
        c',
        published.1 ++ step_events o c,
        rw e refl,
        clock,
        heard,
        rekeyed time_step c c' published.0 keys checked,
      )
