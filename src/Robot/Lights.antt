-- ===== src/Robot/Lights.antt =====
-- robomaster_sim/include/robot/led.hpp and src/robot/led.cpp: the lights and their effects, and
-- `set_led_effect` and `control_leds` of src/robot/robot.cpp.
pub mod Laws
use msde_robotics.Prelude.{
  ℕ, zero, suc, ◌+◌, ◌*◌, ◌^◌, ◌-◌, Bool, true, false, not, ◌&&◌, ◌||◌, ◌==◌, ltb, if◌then◌else◌,
  List, [], ◌∷◌, bit_and,
}
use msde_robotics.Prelude.SortedMap.{lookup, assign, or_else}
use msde_robotics.Wire.Bytes.{Float}
use msde_robotics.Robot.Platform.{zero_f, one_f}
use msde_robotics.Robot.Maths.{Math, clamp, half_pi_d}
use msde_robotics.Robot.Devices.{check_led, check_composite_led}

pub record Color : Type 0 where
  pub r : Float
  pub g : Float
  pub b : Float

abbrev pub black : Color
black = record { r = zero_f; g = zero_f; b = zero_f }

-- `LedEffect`; a request's four bits are cast to it, so other numbers occur.
abbrev pub off : ℕ
off = 0

abbrev pub on : ℕ
on = 1

abbrev pub breath : ℕ
breath = 2

abbrev pub flash : ℕ
flash = 3

abbrev pub scrolling : ℕ
scrolling = 4

abbrev pub is_steady : ℕ → Bool
is_steady effect = effect == off || effect == on

-- `changed` is an `unsigned`, `time` the field `_time`.
pub record ActiveLed : Type 0 where
  pub color : Color
  pub active : Bool
  pub tcolor : Color
  pub effect : ℕ
  pub period_1 : Float
  pub period_2 : Float
  pub period : Float
  pub loop : Bool
  pub time : Float
  pub changed : ℕ

-- `colors` is a map, whose keys ascend.
pub record CompositeLed : Type 0 where
  pub led : ActiveLed
  pub number : ℕ
  pub colors : List (ℕ × Color)

-- The constructors, on what the memory held before; they set three fields.
unfoldable pub active_led : ActiveLed → ActiveLed
active_led memory = record memory { color = black; active = false; time = zero_f }

unfoldable pub composite_led : ActiveLed → ℕ → CompositeLed
unfolding active_led
composite_led memory number = record { led = active_led memory; number = number; colors = [] }

-- `colors[i]` is assigned for the lights of the mask from light i on.
unfoldable pub paint : ℕ → ℕ → ℕ → Color → List (ℕ × Color) → List (ℕ × Color)
paint zero i mask c colors = colors
paint (suc n) i mask c colors =
    let painted = if not (bit_and mask (2 ^ i) == 0) then assign i c colors else colors in
    paint n (i + 1) mask c painted

unfoldable pub get_color : ℕ → CompositeLed → Color
get_color index l =
    if is_steady l.led.effect then or_else (lookup index l.colors) black else l.led.color

module _ (m : Math) where
  open m use {fp, add_double, mul_double, div_double, sin_double, cos_double, fmod, narrow}
  open fp use {add, sub, mul, div, lt, widen}

  unfoldable pub scale_color : Color → Float → Color
  scale_color c f = record {
    r = clamp m (mul c.r f) zero_f one_f;
    g = clamp m (mul c.g f) zero_f one_f;
    b = clamp m (mul c.b f) zero_f one_f;
  }

  unfoldable pub breath_led : Float → Color → Float → Float → Color
  unfolding scale_color
  breath_led time c period_1 period_2 =
      let f =
        if lt time period_1
        then narrow (sin_double (mul_double (widen (div time period_1)) half_pi_d))
        else narrow
            (cos_double (mul_double (widen (div (sub time period_1) period_2)) half_pi_d)) in
      scale_color c (mul f f)

  unfoldable pub flash_led : Float → Color → Float → Color
  flash_led time c period_1 = if lt time period_1 then c else black

  -- 0x3e33_3333 is 0.175f.
  unfoldable pub scroll_led : Float → Color → Float → Color
  scroll_led time c period_1 =
      if lt time 0x3e33_3333 then c else if lt time (add 0x3e33_3333 period_1) then black else c

  -- 0.175 + period_1 + 7.5 * period_2, as a `float`.
  unfoldable pub scrolling_period : Float → Float → Float
  scrolling_period period_1 period_2 = narrow (
      add_double (add_double 0x3fc6_6666_6666_6666 (widen period_1))
        (mul_double 0x401e_0000_0000_0000 (widen period_2)))

  unfoldable pub update_active : Color → ℕ → Float → Float → Bool → ActiveLed → ActiveLed
  unfolding scrolling_period
  update_active c effect period_1 period_2 loop l = record {
    color = if effect == off then black else if effect == on then c else l.color;
    active = true;
    tcolor = c;
    effect = effect;
    period_1 = period_1;
    period_2 = period_2;
    period =
        if effect == scrolling then scrolling_period period_1 period_2 else add period_1 period_2;
    loop = loop;
    time = zero_f;
    changed = 1;
  }

  -- `ActiveLED::do_step`
  unfoldable pub step_active : Float → ActiveLed → ActiveLed
  unfolding flash_led breath_led scroll_led
  step_active time_step l =
      let time = add l.time time_step in
      let rest = fmod time l.period in
      if not l.active
      then record l { changed = 0 }
      else if is_steady l.effect
      then record l { active = false; changed = 0xff }
      else if not l.loop && lt l.period time
      then record l { active = false; time = time; changed = 0xff }
      else record l {
        time = rest;
        changed = 0xff;
        color =
            if l.effect == flash
            then flash_led rest l.tcolor l.period_1
            else if l.effect == breath
            then breath_led rest l.tcolor l.period_1 l.period_2
            else if l.effect == scrolling
            then scroll_led rest l.tcolor l.period_1
            else l.color;
      }

  -- `CompositeLED::update`; the mask is a byte.
  unfoldable pub update_composite :
      Color → ℕ → Float → Float → Bool → ℕ → CompositeLed → CompositeLed
  unfolding update_active paint
  update_composite c effect period_1 period_2 loop mask l =
      let next = update_active c effect period_1 period_2 loop l.led in
      if is_steady effect
      then record l {
        led = record next { changed = mask };
        colors = paint l.number 0 mask (if effect == off then black else next.color) l.colors;
      }
      else record l { led = record next { changed = 0xff }; colors = [] }

  -- `do_step` on the base class of the light.
  unfoldable pub step_composite : Float → CompositeLed → CompositeLed
  unfolding step_active
  step_composite time_step l = record l { led = step_active time_step l.led }
