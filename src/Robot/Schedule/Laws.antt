-- ===== src/Robot/Schedule/Laws.antt =====
-- The actions' life in the schedule: what `submit` and a step of the robot do to each name.
use msde_robotics.Prelude.{
  ℕ, suc, ◌<◌, ◌≡◌, ◌≢◌, refl, ◌∙◌, List, [], ◌∷◌, true, false, none, some, ◌==◌, if◌then◌else◌,
  arith, ◌⊎◌, inl, inr, Bool-cases, All, ℕ_discrete, subst,
}
use msde_robotics.Prelude.SortedMap.{
  lookup, emplace, assign, From, IsSorted, lookup-emplace, lookup_below, lookup-assign,
  emplace-From, From-weaken,
}
use msde_robotics.Wire.Bytes.{Float}
use msde_robotics.Robot.Action.{State, started, rejected, Action, done}
use msde_robotics.Robot.Schedule.{Schedule, submit, do_step_cb, run_actions}

module _ {B : Type 0} where
  -- Where the names ascend, a free name takes the action, in state started, the names stay in
  -- their order, and no other name changes.
  pub submit_free :
      (name other : ℕ) (action : Action B) (s : Schedule B)
      → IsSorted s.actions
      → lookup name s.actions ≡ none
      → ((submit name action s).1 ≡ started)
        × (IsSorted (submit name action s).0.actions)
        × (lookup other (submit name action s).0.actions ≡ (
            if name == other
            then some (record action { state = started })
            else lookup other s.actions))
  unfolding submit
  submit_free name other action s sorted free =
      let started_action : Action B = record action { state = started } in
      let result : submit name action s
          ≡ (record s { actions = emplace name started_action s.actions }, started) =
        rw (free, submit) in
      rw result (
        refl,
        emplace-From name 0 started_action s.actions (omega arith) sorted,
        lookup-emplace other name 0 started_action s.actions sorted ∙ rw free,
      )

  -- A name that is taken keeps its action: the new one is rejected and nothing changes.
  pub submit_taken :
      (name : ℕ) (action held : Action B) (s : Schedule B)
      → lookup name s.actions ≡ some held
      → submit name action s ≡ (s, rejected)
  unfolding submit
  submit_taken name action held s taken = rw (taken, submit)

module _ {B W : Type 0} (do_step : Float → Action B → W → Action B × W)
    (callback : Float → Action B → W → Action B × W) (time_step : Float) where
  abbrev pub advance : Action B → W → Action B × W
  advance = do_step_cb do_step callback time_step

  abbrev pub run :
      List (ℕ × Action B) → List (ℕ × State) → W → List (ℕ × Action B) × List (ℕ × State) × W
  run = run_actions do_step callback time_step

  run_nil : (previous : List (ℕ × State)) (w : W) → run [] previous w ≡ ([], previous, w)
  unfolding run_actions
  run_nil previous w = refl

  run_ended :
      (name : ℕ) (a : Action B) (rest : List (ℕ × Action B)) (previous : List (ℕ × State)) (w : W)
      → done (advance a w).0 ≡ true
      → run ((name, a) ∷ rest) previous w
        ≡ run rest (assign name (advance a w).0.state previous) (advance a w).1
  unfolding run_actions
  run_ended name a rest previous w e = rw e

  run_kept :
      (name : ℕ) (a : Action B) (rest : List (ℕ × Action B)) (previous : List (ℕ × State)) (w : W)
      → done (advance a w).0 ≡ false
      → run ((name, a) ∷ rest) previous w ≡ (
        (name, (advance a w).0) ∷ (run rest previous (advance a w).1).0,
        (run rest previous (advance a w).1).1,
        (run rest previous (advance a w).1).2,
      )
  unfolding run_actions
  run_kept name a rest previous w e = rw e

  pub run-From :
      (n : ℕ) (actions : List (ℕ × Action B)) (previous : List (ℕ × State)) (w : W)
      → From n actions
      → From n (run actions previous w).0
  run-From n [] previous w h = rw (run_nil previous w) tt
  run-From n ((name, a) ∷ rest) previous w h = elim (Bool-cases (done (advance a w).0)) [
    | inl e ↦ rw (run_ended name a rest previous w e) (
        From-weaken n (suc name) _ (omega (arith, h.0)) (
          run-From (suc name) rest (assign name (advance a w).0.state previous) (advance a w).1
            h.1))
    | inr e ↦
        rw (run_kept name a rest previous w e)
          (h.0, run-From (suc name) rest previous (advance a w).1 h.1)
  ]

  pub run_unfinished :
      (actions : List (ℕ × Action B)) (previous : List (ℕ × State)) (w : W)
      → All (λ entry. done entry.1 ≡ false) (run actions previous w).0
  run_unfinished [] previous w = rw (run_nil previous w) tt
  run_unfinished ((name, a) ∷ rest) previous w = elim (Bool-cases (done (advance a w).0)) [
    | inl e ↦
        rw (run_ended name a rest previous w e)
          (run_unfinished rest (assign name (advance a w).0.state previous) (advance a w).1)
    | inr e ↦
        rw (run_kept name a rest previous w e) (e, run_unfinished rest previous (advance a w).1)
  ]

  -- Names below the first one are not touched.
  run_below :
      (k n : ℕ) (actions : List (ℕ × Action B)) (previous : List (ℕ × State)) (w : W)
      → k < n
      → From n actions
      → lookup k (run actions previous w).1 ≡ lookup k previous
  run_below k n [] previous w lt h = rw (run_nil previous w)
  run_below k n ((name, a) ∷ rest) previous w lt h = elim (Bool-cases (done (advance a w).0)) [
    | inl e ↦ rw (run_ended name a rest previous w e) (
        run_below k (suc name) rest (assign name (advance a w).0.state previous) (advance a w).1
          (omega (arith, h.0)) h.1
        ∙ lookup-assign k name (advance a w).0.state previous
        ∙ ground (arith, h.0))
    | inr e ↦
        rw (run_kept name a rest previous w e)
          (run_below k (suc name) rest previous (advance a w).1 (omega (arith, h.0)) h.1)
  ]

  abbrev pub After :
      ℕ → List (ℕ × State) → List (ℕ × Action B) × List (ℕ × State) × W → Action B → Type 0
  After k previous r stepped =
      ((done stepped ≡ false) × (lookup k r.0 ≡ some stepped) × (lookup k r.1 ≡ lookup k previous))
      ⊎ ((done stepped ≡ true) × (lookup k r.0 ≡ none) × (lookup k r.1 ≡ some stepped.state))

  first_name :
      (k name : ℕ) (a : Action B) (rest : List (ℕ × Action B)) (previous : List (ℕ × State)) (w : W)
      → name ≡ k
      → From (suc name) rest
      → After k previous (run ((name, a) ∷ rest) previous w) (advance a w).0
  first_name k name a rest previous w same h = elim (Bool-cases (done (advance a w).0)) [
    | inl e ↦
        let stepped = advance a w in
        let previous' : List (ℕ × State) = assign name stepped.0.state previous in
        let low : k < suc name = omega arith in
        rw (run_ended name a rest previous w e) (
          inr (
            e,
            lookup_below k (suc name) _ low (run-From (suc name) rest previous' stepped.1 h),
            run_below k (suc name) rest previous' stepped.1 low h
                ∙ lookup-assign k name stepped.0.state previous
                ∙ ground arith,
          ))
    | inr e ↦
        let low : k < suc name = omega arith in
        rw (run_kept name a rest previous w e) (
          inl (
            e,
            unfold lookup in ground arith,
            run_below k (suc name) rest previous (advance a w).1 low h,
          ))
  ]

  later_name :
      (k name : ℕ) (a : Action B) (rest : List (ℕ × Action B)) (previous : List (ℕ × State)) (w : W)
      (b : Action B)
      → name ≢ k
      → ((q : List (ℕ × State)) (u : W) → (v : W) × After k q (run rest q u) (advance b v).0)
      → (v : W) × After k previous (run ((name, a) ∷ rest) previous w) (advance b v).0
  later_name k name a rest previous w b other ih = elim (Bool-cases (done (advance a w).0)) [
    | inl e ↦
        let stepped = advance a w in
        let (v, found) = ih (assign name stepped.0.state previous) stepped.1 in
        let skip : lookup k (assign name stepped.0.state previous) ≡ lookup k previous =
          lookup-assign k name stepped.0.state previous ∙ ground arith in
        (v, rw (run_ended name a rest previous w e) (rw skip at found))
    | inr e ↦
        let (v, found) = ih previous (advance a w).1 in
        (v, rw (run_kept name a rest previous w e) (unfold lookup in ground (arith, found)))
  ]

  pub run_present :
      (k n : ℕ) (actions : List (ℕ × Action B)) (previous : List (ℕ × State)) (w : W) (a : Action B)
      → From n actions
      → lookup k actions ≡ some a
      → (v : W) × After k previous (run actions previous w) (advance a v).0
  run_present k n [] previous w a h e = unfold lookup in cc
  run_present k n ((name, b) ∷ rest) previous w a h e = elim (ℕ_discrete name k) [
    | yes same ↦
        let here : b ≡ a = unfold lookup in ground arith in
        (
          w,
          subst
              (λ (c : Action B).
                After k previous (run ((name, b) ∷ rest) previous w) (advance c w).0)
              here (first_name k name b rest previous w same h.1),
        )
    | no other ↦
        later_name k name b rest previous w a other
          (λ q u. run_present k (suc name) rest q u a h.1 (unfold lookup in ground arith))
  ]
