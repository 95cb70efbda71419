-- ===== src/Tuning/State.antt =====
-- server/internal/app/mapper_tuning.go, lines 8-29: the RF settings of one Mapper job.
-- Levels are hundredths of a dB (or of a percent, for clipping) where Go has floats: the code only
-- compares them with constants that are whole hundredths. Gains are natural numbers, since
-- `validateMapperScanConfig` refuses negative ones and a calibration's are used only if positive.
use Prim.Native.String.{String}
use text.Mathlib.Text.{◌==◌ as str_eq}
use gp_sdr.Prelude.{ℕ, ◌+◌, Bool, ◌&&◌, Option, if◌then◌else◌}
use gp_sdr.Prelude.Int.{ℤ, negsuc, ltb_ℤ}
use gp_sdr.Prelude.Text.{equal_fold}

-- The texts that `lastDecision` takes.
pub data Decision : Type 0 where
  no_decision gain_stable receiver_agc saved_calibration manual_settings : Decision
  rtl_reduced rtl_minimum rtl_stable rtl_raised rtl_maximum : Decision
  amp_off vga_reduced lna_reduced amp_on lna_raised vga_raised maximum_gain : Decision

-- What `mapperCaptureLevels` measures of a capture.
pub record Levels : Type 0 where
  pub rms : ℤ
  pub peak : ℤ
  pub clipped : ℕ

pub record Tuning : Type 0 where
  pub device_kind : String
  pub mode : String
  pub amp_mode : String
  pub sensitivity : String
  pub gain_db : ℕ
  pub rtl_gain_db : ℕ
  pub lna_gain_db : ℕ
  pub vga_gain_db : ℕ
  pub amp_enabled : Bool
  pub quiet_captures : ℕ
  pub stable_captures : ℕ
  pub last_decision : Decision
  pub last_levels : Levels
  pub last_noise_margin : ℕ

pub record Calibration : Type 0 where
  pub lna : ℕ
  pub vga : ℕ
  pub amp : Bool

-- The fields of `SDRDevice` and `MapperConfig` that the tuning reads.
pub record Device : Type 0 where
  pub kind : String
  pub calibration : Option Calibration

pub record Config : Type 0 where
  pub gain_mode : String
  pub config_gain_db : ℕ
  pub config_lna : ℕ
  pub config_vga : ℕ
  pub config_amp_mode : String
  pub config_sensitivity : String
  pub noise_margin : ℕ

abbrev pub is_hackrf : String → Bool
is_hackrf kind = equal_fold kind "HackRF"

abbrev pub is_rtl : String → Bool
is_rtl kind = equal_fold kind "RTL-SDR"

-- The level below which a capture counts as quiet, 5 dB under the sensitivity's target.
unfoldable pub quiet_below : String → ℤ
quiet_below sensitivity =
    if str_eq sensitivity "weak"
    then negsuc 3299
    else if str_eq sensitivity "balanced"
    then negsuc 3899
    else if str_eq sensitivity "conservative"
    then negsuc 4499
    else negsuc 3899

-- rmsDBFS < target-5 && peakDBFS < -9
unfoldable pub is_quiet : Tuning → Levels → Bool
unfolding quiet_below
is_quiet state levels =
    ltb_ℤ levels.rms (quiet_below state.sensitivity) && ltb_ℤ levels.peak (negsuc 899)

-- The counters that both receivers keep of quiet and of other captures.
unfoldable pub count_capture : Tuning → Levels → Tuning
count_capture state levels =
    if is_quiet state levels
    then record state { quiet_captures = state.quiet_captures + 1; stable_captures = 0 }
    else record state { quiet_captures = 0; stable_captures = state.stable_captures + 1 }
