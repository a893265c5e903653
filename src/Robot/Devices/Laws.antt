-- ===== src/Robot/Devices/Laws.antt =====
-- When a value is forwarded, which detectors run, and what `check` resets.
use msde_robotics.Prelude.{
  ℕ, ◌<◌, ◌≡◌, ◌⊎◌, inl, inr, refl, sym, subst, Option, none, some, Bool, true, false, ◌==◌,
  if◌then◌else◌, ==_iff, arith,
}
use msde_robotics.Prelude.Bits.{all_below, all_below_sound}
use msde_robotics.Robot.Devices.{
  ControllableValue, check, Detector, person, gesture, line, marker, robot, is_enabled, set_enable,
  check_led, check_composite_led,
}

module _ {T : Type 0} (differ : T → T → Bool) where
  -- check answers true and makes the target the desired value, or it answers false, changes
  -- nothing and the target did not differ; a second check answers false, as long as the desired
  -- value does not differ from itself.
  check_lem :
      (c : ControllableValue T)
      → differ c.desired c.desired ≡ false
      → ((((check differ c).1 ≡ true) × ((check differ c).0.target ≡ c.desired))
          ⊎ (((check differ c).1 ≡ false)
              × ((check differ c).0 ≡ c)
              × (differ c.target c.desired ≡ false)))
        × ((check differ (check differ c).0).1 ≡ false)
  unfolding check
  check_lem c h = (ground arith, ground arith)

-- The masks that `set_enable` accepts.
abbrev pub IsLegal : ℕ → Type 0
IsLegal v = (v ≡ 0) ⊎ (v ≡ 2) ⊎ (v ≡ 4) ⊎ (v ≡ 8) ⊎ (v ≡ 16) ⊎ (v ≡ 32) ⊎ (v ≡ 128)

-- A legal detector mask stays legal and 0 switches everything off; a mask that is not 0 is only
-- switched off or kept, never replaced by another.
set_enable_lem :
    (value enabled : ℕ)
    → IsLegal enabled
    → IsLegal (set_enable value enabled)
      × (set_enable 0 enabled ≡ 0)
      × ((enabled ≡ 0) ⊎ (set_enable value enabled ≡ 0) ⊎ (set_enable value enabled ≡ enabled))
unfolding set_enable
set_enable_lem value enabled h = (ground arith, ground arith, ground arith)

enabled_one : ℕ → Option Detector
enabled_one v =
    if v == 2
    then some person
    else if v == 4
    then some gesture
    else if v == 16
    then some line
    else if v == 32
    then some marker
    else if v == 128
    then some robot
    else none

AtMask : (v : ℕ) (a : Detector) → Type 0
AtMask v a = is_enabled a v ≡ true → enabled_one v ≡ some a

-- One row of the table for each legal mask.
mask_row :
    (v : ℕ)
    → AtMask v person
    → AtMask v gesture
    → AtMask v line
    → AtMask v marker
    → AtMask v robot
    → (a : Detector) → AtMask v a
mask_row v p g l m r person = p
mask_row v p g l m r gesture = g
mask_row v p g l m r line = l
mask_row v p g l m r marker = m
mask_row v p g l m r robot = r

only_detector : (v : ℕ) (a : Detector) → IsLegal v → is_enabled a v ≡ true → enabled_one v ≡ some a
unfolding AtMask is_enabled enabled_one
only_detector v a (inl e) h =
    subst (λ (u : ℕ). AtMask u a) (sym e)
      (mask_row 0 (λ q. cc) (λ q. cc) (λ q. cc) (λ q. cc) (λ q. cc) a) h
only_detector v a (inr (inl e)) h =
    subst (λ (u : ℕ). AtMask u a) (sym e)
      (mask_row 2 (λ q. refl) (λ q. cc) (λ q. cc) (λ q. cc) (λ q. cc) a) h
only_detector v a (inr (inr (inl e))) h =
    subst (λ (u : ℕ). AtMask u a) (sym e)
      (mask_row 4 (λ q. cc) (λ q. refl) (λ q. cc) (λ q. cc) (λ q. cc) a) h
only_detector v a (inr (inr (inr (inl e)))) h =
    subst (λ (u : ℕ). AtMask u a) (sym e)
      (mask_row 8 (λ q. cc) (λ q. cc) (λ q. cc) (λ q. cc) (λ q. cc) a) h
only_detector v a (inr (inr (inr (inr (inl e))))) h =
    subst (λ (u : ℕ). AtMask u a) (sym e)
      (mask_row 16 (λ q. cc) (λ q. cc) (λ q. refl) (λ q. cc) (λ q. cc) a) h
only_detector v a (inr (inr (inr (inr (inr (inl e)))))) h =
    subst (λ (u : ℕ). AtMask u a) (sym e)
      (mask_row 32 (λ q. cc) (λ q. cc) (λ q. cc) (λ q. refl) (λ q. cc) a) h
only_detector v a (inr (inr (inr (inr (inr (inr e)))))) h =
    subst (λ (u : ℕ). AtMask u a) (sym e)
      (mask_row 128 (λ q. cc) (λ q. cc) (λ q. cc) (λ q. cc) (λ q. refl) a) h

-- A legal mask enables at most one detector.
is_enabled_unique :
    (enabled : ℕ) (a b : Detector)
    → IsLegal enabled
    → is_enabled a enabled ≡ true
    → is_enabled b enabled ≡ true
    → a ≡ b
is_enabled_unique enabled a b legal ha hb =
    cc (only_detector enabled a legal ha, only_detector enabled b legal hb)

composite_table : all_below 8 (λ i. all_below 256 (λ c. (check_composite_led i c).0 == c)) ≡ true
unfolding all_below check_composite_led
composite_table = refl

-- For the first eight lights and changed bits below 256, CompositeLED::check leaves the changed
-- bits of its lights as they are, while ActiveLED::check clears them.
check_composite_led_keeps :
    (index changed : ℕ)
    → index < 8
    → changed < 256
    → ((check_composite_led index changed).0 ≡ changed) × ((check_led changed).0 ≡ 0)
unfolding check_led
check_composite_led_keeps index changed hi hc =
    let row = all_below_sound 8 _ index composite_table hi in
    ((==_iff _ _).0 (all_below_sound 256 _ changed row hc), refl)
