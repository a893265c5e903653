-- ===== src/Robot/Control/Lights.antt =====
-- What the simulator sees of a light with a steady effect.
use msde_robotics.Prelude.{
  ℕ, ◌≡◌, refl, ap, List, [], ◌∷◌, ◌++◌, Bool, true, false, ◌==◌, if◌then◌else◌, arith,
}
use msde_robotics.Wire.Bytes.{Float}
use msde_robotics.Robot.Maths.{Math}
use msde_robotics.Robot.Devices.{check_led}
use msde_robotics.Robot.Lights.{
  Color, black, off, on, is_steady, ActiveLed, update_active, step_active,
}
use msde_robotics.Robot.Machine.{Output, chassis_led}
use msde_robotics.Robot.Control.{control_chassis_led}

steady_color :
    (effect : ℕ) (c d : Color)
    → is_steady effect ≡ true
    → (if effect == off then black else if effect == on then c else d)
      ≡ (if effect == off then black else c)
steady_color effect c d h = ground arith

module _ (m : Math) (i : ℕ) where
  -- The outputs of a light of the chassis over several steps.
  pub watch : List Float → ActiveLed → List Output
  watch [] l = []
  watch (time_step ∷ rest) l =
      let next = control_chassis_led m time_step i l in next.1 ++ watch rest next.0

  idle_step :
      (time_step : Float) (l : ActiveLed)
      → l.active ≡ false
      → ((control_chassis_led m time_step i l).1 ≡ [])
        × ((control_chassis_led m time_step i l).0.active ≡ false)
  unfolding step_active check_led
  idle_step time_step l h = (ground arith, ground arith)

  watch_idle : (steps : List Float) (l : ActiveLed) → l.active ≡ false → watch steps l ≡ []
  unfolding watch
  watch_idle [] l h = refl
  watch_idle (time_step ∷ rest) l h =
      let (quiet, idle) = idle_step time_step l h in rw quiet (watch_idle rest _ idle)

  steady_step :
      (time_step : Float) (l : ActiveLed)
      → l.active ≡ true
      → is_steady l.effect ≡ true
      → ((control_chassis_led m time_step i l).1 ≡ chassis_led i l.color ∷ [])
        × ((control_chassis_led m time_step i l).0.active ≡ false)
  unfolding step_active check_led
  steady_step time_step l h e = (ground arith, ground arith)

  -- A light whose effect is set to `on` or `off` forwards its colour in the next step, which is
  -- black for `off`, and nothing in the steps behind it, however many there are.
  pub watch-update_active :
      (c : Color) (effect : ℕ) (period_1 period_2 : Float) (loop : Bool) (l : ActiveLed)
      (time_step : Float) (rest : List Float)
      → is_steady effect ≡ true
      → watch (time_step ∷ rest) (update_active m c effect period_1 period_2 loop l)
        ≡ chassis_led i (if effect == off then black else c) ∷ []
  unfolding watch update_active
  watch-update_active c effect period_1 period_2 loop l time_step rest e =
      let lit = update_active m c effect period_1 period_2 loop l in
      let (shown, idle) = steady_step time_step lit refl e in
      rw (shown, watch_idle rest (control_chassis_led m time_step i lit).0 idle)
        (ap (λ d. chassis_led i d ∷ []) (steady_color effect c l.color e))
