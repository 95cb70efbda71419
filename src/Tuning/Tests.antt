-- ===== src/Tuning/Tests.antt =====
-- Runs of server/internal/app/mapper_tuning.go at small inputs, and the theorems at inputs.
use text.Mathlib.Text.{◌==◌ as str_eq}
use gp_sdr.Prelude.{◌≤◌, ◌<◌, ◌&&◌, ◌≡◌, refl, true, false, none, some, List, [], ◌∷◌, arith}
use gp_sdr.Prelude.Int.{pos, negsuc}
use gp_sdr.Tuning.State.{
  Levels, Tuning, Device, Config, gain_stable, amp_on, is_quiet, count_capture,
}
use gp_sdr.Tuning.Rtl.{step_at, is_overloaded}
use gp_sdr.Tuning.Rtl.Gain.{IsStep, adjust_all, overload-minimum, overload_undone}
use gp_sdr.Tuning.HackRf.{adjust_hackrf, raise_stage, reduce_stage}
use gp_sdr.Tuning.HackRf
use gp_sdr.Tuning.HackRf.Stages
use gp_sdr.Tuning.HackRf.Stages.{IsSetting, AllLowered, IsNoHigher, IsRaised, IsQuiet}
use gp_sdr.Tuning.Job.{CaptureSpec, configured, new_mapper_adaptive_tuning, apply, observe}
use gp_sdr.Tuning.Job.Captures.{observe_all}
use gp_sdr.Tuning.Job.Laws.{apply-rtl_auto}
use gp_sdr.Tuning.Margin.{Observation, mapper_detection_margin, margin_bounds}
use gp_sdr.Prelude.Text.{equal_fold}

abbrev config : Config
config = record {
  gain_mode = "auto";
  config_gain_db = 0;
  config_lna = 16;
  config_vga = 20;
  config_amp_mode = "auto";
  config_sensitivity = "auto";
  noise_margin = 600;
}

abbrev rtl : Device
rtl = record { kind = "RTL-SDR"; calibration = none }

abbrev hackrf : Device
hackrf = record { kind = "HackRF"; calibration = some (record { lna = 24; vga = 0; amp = true }) }

-- A job in the middle of its work, with the gain on the second step.
abbrev working : Tuning
working = record {
  device_kind = "RTL-SDR";
  mode = "auto";
  amp_mode = "auto";
  sensitivity = "auto";
  gain_db = 0;
  rtl_gain_db = 900;
  lna_gain_db = 16;
  vga_gain_db = 20;
  amp_enabled = false;
  quiet_captures = 0;
  stable_captures = 3;
  last_decision = gain_stable;
  last_levels = record { rms = negsuc 2999; peak = negsuc 1999; clipped = 0 };
  last_noise_margin = 600;
}

abbrev quiet : Levels
quiet = record { rms = negsuc 5999; peak = negsuc 4999; clipped = 0 }

abbrev loud : Levels
loud = record { rms = negsuc 149; peak = pos 0; clipped = 300 }

abbrev seven_loud : List Levels
seven_loud = loud ∷ loud ∷ loud ∷ loud ∷ loud ∷ loud ∷ loud ∷ []

abbrev spec : CaptureSpec
spec = record { spec_gain_db = 0; spec_lna = 0; spec_vga = 0; spec_amp = false; auto_gain = true }

two_quiet :
    (observe_all (new_mapper_adaptive_tuning hackrf config) (quiet ∷ quiet ∷ [])).last_decision
    ≡ amp_on
unfolding observe_all observe new_mapper_adaptive_tuning configured equal_fold adjust_hackrf
    raise_stage count_capture is_quiet HackRf.is_overloaded
two_quiet = refl

overload-minimum_example : (adjust_all working seven_loud).rtl_gain_db ≡ 150
unfolding is_overloaded
overload-minimum_example = overload-minimum seven_loud working (ground arith) (omega arith)

overload_undone_example :
    ((adjust_all working (quiet ∷ loud ∷ [])).rtl_gain_db ≡ step_at 0)
    × ((adjust_all working (quiet ∷ loud ∷ quiet ∷ [])).rtl_gain_db ≡ step_at 1)
unfolding is_overloaded is_quiet
overload_undone_example =
    overload_undone working quiet loud quiet 0 refl (omega arith) refl (refl, refl) refl
      (refl, refl)

abbrev many_loud : List Levels
many_loud =
    loud ∷ loud ∷ loud ∷ loud ∷ loud ∷ loud ∷ loud ∷ loud ∷ loud ∷ loud ∷ loud ∷ loud ∷ loud ∷ loud
    ∷ seven_loud

overload_takes_stages_example :
    let t = Stages.adjust_all working many_loud in
    AllLowered working many_loud
    × ((str_eq t.amp_mode "auto" && t.amp_enabled) ≡ false)
    × (t.vga_gain_db < 4)
    × (t.lna_gain_db < 8)
unfolding HackRf.is_overloaded
overload_takes_stages_example =
    Stages.overload_takes_stages many_loud working (ground arith) (ground arith) (omega arith)

turned_on :
    ¬ IsNoHigher (adjust_hackrf working quiet) (adjust_hackrf (adjust_hackrf working quiet) quiet)
unfolding adjust_hackrf raise_stage count_capture is_quiet HackRf.is_overloaded
turned_on h = cc (h.amp refl)

raise_needs_two-IsQuiet_example : IsQuiet working quiet × IsQuiet working quiet
raise_needs_two-IsQuiet_example = Stages.raise_needs_two-IsQuiet working quiet quiet turned_on

apply-rtl_auto_example :
    ((apply (observe_all (new_mapper_adaptive_tuning rtl config) seven_loud) spec).auto_gain
      ≡ false)
    × IsStep
        (apply (observe_all (new_mapper_adaptive_tuning rtl config) seven_loud) spec).spec_gain_db
unfolding equal_fold
apply-rtl_auto_example = apply-rtl_auto rtl config seven_loud spec refl refl refl

abbrev busy : Observation
busy = record { noise_db = negsuc 4999; modulation = "DIGITAL"; confidence = 70 }

margin_bounds_example :
    (300 ≤ mapper_detection_margin "auto" 600 busy)
    × (mapper_detection_margin "auto" 600 busy ≤ 3000)
    × (str_eq "auto" "manual" ≡ false
        → (400 ≤ mapper_detection_margin "auto" 600 busy)
          × (mapper_detection_margin "auto" 600 busy ≤ 1000))
margin_bounds_example = margin_bounds "auto" 600 busy
