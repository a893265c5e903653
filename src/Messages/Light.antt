-- ===== src/Messages/Light.antt =====
-- robomaster_sim/include/command_messages.hpp: the requests of the lights and the blaster.
use msde_robotics.Prelude.{ℕ, List, Option, some, ◌/◌, ◌%◌, ◌^◌, bit_and}
use msde_robotics.Prelude.Int.{ℤ, signed}
use msde_robotics.Wire.Bytes.{◌>>=◌, byte, read_at}
use msde_robotics.Wire.Frame.{RequestT}

pub record SetSystemLed : Type 0 where
  pub request : RequestT
  pub comp_mask : ℕ
  pub led_mask : ℤ
  pub ctrl_mode : ℕ
  pub effect_mode : ℕ
  pub r : ℕ
  pub g : ℕ
  pub b : ℕ
  pub loop : ℕ
  pub t1 : ℤ
  pub t2 : ℤ

unfoldable pub read_set_system_led : RequestT → List ℕ → Option SetSystemLed
read_set_system_led request buffer = do
  comp_mask ← read_at 4 0 buffer
  led_mask ← read_at 2 4 buffer
  ctrl_mode ← byte 6 buffer
  effect_mode ← byte 6 buffer
  r ← byte 7 buffer
  g ← byte 8 buffer
  b ← byte 9 buffer
  loop ← byte 10 buffer
  t1 ← read_at 2 11 buffer
  t2 ← read_at 2 13 buffer
  some (record {
    request = request;
    comp_mask = comp_mask;
    led_mask = signed 16 led_mask;
    ctrl_mode = ctrl_mode / 2 ^ 4;
    effect_mode = bit_and effect_mode 0xf;
    r = r;
    g = g;
    b = b;
    loop = loop;
    t1 = signed 16 t1;
    t2 = signed 16 t2;
  })

pub record BlasterFire : Type 0 where
  pub request : RequestT
  pub times : ℕ
  pub type : ℕ

unfoldable pub read_blaster_fire : RequestT → List ℕ → Option BlasterFire
read_blaster_fire request buffer = do
  times ← byte 0 buffer
  type ← byte 0 buffer
  some (record { request = request; times = bit_and times 0xf; type = type / 2 ^ 4 })

pub record BlasterSetLed : Type 0 where
  pub request : RequestT
  pub mode : ℕ
  pub effect : ℕ
  pub r : ℕ
  pub g : ℕ
  pub b : ℕ
  pub times : ℕ
  pub t1 : ℕ
  pub t2 : ℕ

unfoldable pub read_blaster_set_led : RequestT → List ℕ → Option BlasterSetLed
read_blaster_set_led request buffer = do
  mode ← byte 0 buffer
  effect ← byte 0 buffer
  r ← byte 1 buffer
  g ← byte 2 buffer
  b ← byte 3 buffer
  times ← byte 4 buffer
  t1 ← read_at 2 5 buffer
  t2 ← read_at 2 5 buffer
  some (record {
    request = request;
    mode = mode / 2 ^ 4;
    effect = bit_and effect 0xf;
    r = r;
    g = g;
    b = b;
    times = times;
    t1 = t1 % 256;
    t2 = t2 % 256;
  })
