-- ===== src/Messages/Sensor.antt =====
-- robomaster_sim/include/command_messages.hpp: the requests of the armor and the sensor adapters.
use msde_robotics.Prelude.{ℕ, List, Option, some}
use msde_robotics.Wire.Bytes.{◌>>=◌, byte, read_at}
use msde_robotics.Wire.Frame.{RequestT}

pub record SetArmorParam : Type 0 where
  pub request : RequestT
  pub armor_mask : ℕ
  pub voice_energy_en : ℕ
  pub voice_energy_ex : ℕ
  pub voice_len_max : ℕ
  pub voice_len_min : ℕ
  pub voice_len_silence : ℕ
  pub voice_peak_count : ℕ
  pub voice_peak_min : ℕ
  pub voice_peak_ave : ℕ
  pub voice_peak_final : ℕ

unfoldable pub read_set_armor_param : RequestT → List ℕ → Option SetArmorParam
read_set_armor_param request buffer = do
  armor_mask ← byte 0 buffer
  voice_energy_en ← read_at 2 1 buffer
  voice_energy_ex ← read_at 2 3 buffer
  voice_len_max ← read_at 2 5 buffer
  voice_len_min ← read_at 2 7 buffer
  voice_len_silence ← read_at 2 9 buffer
  voice_peak_count ← read_at 2 11 buffer
  voice_peak_min ← read_at 2 13 buffer
  voice_peak_ave ← read_at 2 15 buffer
  voice_peak_final ← read_at 2 17 buffer
  some (record {
    request = request;
    armor_mask = armor_mask;
    voice_energy_en = voice_energy_en;
    voice_energy_ex = voice_energy_ex;
    voice_len_max = voice_len_max;
    voice_len_min = voice_len_min;
    voice_len_silence = voice_len_silence;
    voice_peak_count = voice_peak_count;
    voice_peak_min = voice_peak_min;
    voice_peak_ave = voice_peak_ave;
    voice_peak_final = voice_peak_final;
  })

pub record SensorGetData : Type 0 where
  pub request : RequestT
  pub port : ℕ

unfoldable pub read_sensor_get_data : RequestT → List ℕ → Option SensorGetData
read_sensor_get_data request buffer = do
  port ← byte 0 buffer
  some (record { request = request; port = port })
