-- ===== src/Mapper/Config/Tests.antt =====
-- A Mapper configuration (server/internal/app/mapper.go), and the theorems at it.
use gp_sdr.Prelude.{◌≤◌, ◌∷◌, true, ◌%◌, inr, ◌≡◌, refl, false, none, []}
use gp_sdr.Prelude.Int.{negsuc, pos}
use gp_sdr.Prelude.Text.{equal_fold, codes, codes_eq, trim_space, trim_left, is_space, to_lower}
use gp_sdr.Mapper.Config.{
  MapperConfig, normalize_config, valid, refused, bad_lna, validate_mapper_scan_config, is_one_of,
  is_rate_of, supported_user_sample_rate,
}
use gp_sdr.Tuning.State.{Levels, Device, Config}
use gp_sdr.Tuning.Job.{CaptureSpec, new_mapper_adaptive_tuning, apply}
use gp_sdr.Tuning.Job.Captures.{observe_all}
use gp_sdr.Mapper.Config.Gains.{apply-validate}
use gp_sdr.Mapper.Config.Laws.{validate-valid, IsRunnable, validate-IsRunnable}

abbrev pub airband : MapperConfig
airband = record {
  secret = codes "s";
  mode = codes " Adaptive";
  preferred_mode = codes "AM";
  preferred_decoder = codes "auto";
  device = codes "hackrf-0";
  start = pos 118000000000;
  end = pos 137000000000;
  step = pos 25000000;
  detection_bandwidth = pos 0;
  dwell = pos 1000;
  sample_rate = pos 10000000;
  concurrent_channels = pos 0;
  gain_mode = codes "manual";
  gain = pos 2000;
  lna_gain = pos 24;
  vga_gain = pos 20;
  amp_mode = [];
  sensitivity = [];
  noise_margin = pos 0;
  listen_seconds = pos 0;
  minimum_hits = pos 0;
  hit_source = [];
  minimum_occupancy = pos 0;
  seen_within = pos 0;
  maximum_channels = pos 0;
  order = [];
  include_location = false;
  location_precision = [];
  latitude = none;
  longitude = none;
  capture_policy = [];
  analysis_policy = [];
  rejected_policy = [];
  schedule_enabled = false;
  discovery_seconds = pos 0;
  identify_seconds = pos 0;
}

pub airband_valid : validate_mapper_scan_config airband ≡ valid (normalize_config airband)
unfolding validate_mapper_scan_config codes_eq trim_space trim_left is_space to_lower is_one_of
    is_rate_of supported_user_sample_rate
airband_valid = refl

-- A gain between two steps is refused.
odd_gain : validate_mapper_scan_config (record airband { lna_gain = pos 20 }) ≡ refused bad_lna
unfolding validate_mapper_scan_config codes_eq trim_space trim_left is_space to_lower is_one_of
    is_rate_of supported_user_sample_rate
odd_gain = refl

validate-valid_example :
    validate_mapper_scan_config (normalize_config airband) ≡ valid (normalize_config airband)
validate-valid_example = validate-valid airband (normalize_config airband) airband_valid

validate-IsRunnable_example : IsRunnable (normalize_config airband)
validate-IsRunnable_example = validate-IsRunnable airband (normalize_config airband) airband_valid

abbrev hackrf_device : Device
hackrf_device = record { kind = "HackRF"; calibration = none }

abbrev manual_gains : Config
manual_gains = record {
  gain_mode = "manual";
  config_gain_db = 2000;
  config_lna = 24;
  config_vga = 20;
  config_amp_mode = "auto";
  config_sensitivity = "auto";
  noise_margin = 600;
}

abbrev no_settings : CaptureSpec
no_settings = record {
  spec_gain_db = 0;
  spec_lna = 0;
  spec_vga = 0;
  spec_amp = false;
  auto_gain = false;
}

abbrev silence : Levels
silence = record { rms = negsuc 4999; peak = negsuc 2999; clipped = 0 }

apply-validate_example :
    let after =
      apply
        (observe_all
          (new_mapper_adaptive_tuning hackrf_device manual_gains)
          (silence ∷ silence ∷ []))
        no_settings in
    (after.spec_lna ≤ 40)
    × (after.spec_lna % 8 ≡ 0)
    × (after.spec_vga ≤ 62)
    × (after.spec_vga % 2 ≡ 0)
    × (manual_gains.config_amp_mode ≡ "off" → after.spec_amp ≡ false)
    × (manual_gains.config_amp_mode ≡ "on" → after.spec_amp ≡ true)
unfolding equal_fold normalize_config
apply-validate_example =
    apply-validate airband (normalize_config airband) hackrf_device manual_gains
      (silence ∷ silence ∷ []) no_settings airband_valid (refl, refl) refl tt (inr refl)
