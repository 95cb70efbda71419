-- ===== src/Tuning/Job.antt =====
-- server/internal/app/mapper_tuning.go, lines 31-130 and 248-268: how a job's tuning starts,
-- what it asks of a capture, and how it follows the levels of one.
pub mod Captures
pub mod Laws
use Prim.Native.String.{String}
use text.Mathlib.Text.{◌==◌ as str_eq}
use gp_sdr.Prelude.{
  ℕ, zero, suc, ◌+◌, ◌-◌, ◌*◌, Bool, true, false, not, ◌&&◌, ◌||◌, Option, none, some, List, [],
  ◌∷◌, ltb, leb, if◌then◌else◌, get_or,
}
use gp_sdr.Prelude.Int.{ℤ, pos, negsuc, ltb_ℤ}
use gp_sdr.Prelude.Text.{equal_fold}
use gp_sdr.Tuning.State.{
  Decision, no_decision, gain_stable, receiver_agc, saved_calibration, manual_settings, Levels,
  Tuning, Calibration, Device, Config, is_hackrf, is_rtl,
}
use gp_sdr.Tuning.Rtl.{adjust_rtl}
use gp_sdr.Tuning.HackRf.{adjust_hackrf}

abbrev pub or_auto : String → String
or_auto s = if str_eq s "" then "auto" else s

-- A calibrated gain replaces the default where it is positive.
abbrev or_calibrated : ℕ → ℕ → ℕ
or_calibrated calibrated default_gain = if ltb 0 calibrated then calibrated else default_gain

start_gains : Option Calibration → Tuning → Tuning
start_gains calibration state = if str_eq state.mode "manual" then state else (elim calibration [
  | none ↦ record state { lna_gain_db = 16; vga_gain_db = 16 }
  | some c ↦ record state {
    lna_gain_db = or_calibrated c.lna 16;
    vga_gain_db = or_calibrated c.vga 16;
  }
])

start_amp : Option Calibration → Tuning → Tuning
start_amp calibration state =
    if str_eq state.amp_mode "on"
    then record state { amp_enabled = true }
    else if str_eq state.amp_mode "off"
    then record state { amp_enabled = false }
    else if str_eq state.mode "saved"
    then (elim calibration [ none ↦ state | some c ↦ record state { amp_enabled = c.amp } ])
    else state

start_rtl : Option Calibration → Tuning → Tuning
start_rtl calibration state = elim calibration [
  | none ↦ state
  | some c ↦ if ltb 0 c.vga then record state { rtl_gain_db = c.vga * 100 } else state
]

-- The state before the device's kind is looked at.
unfoldable pub configured : Device → Config → Tuning
configured device config = record {
  device_kind = device.kind;
  mode = or_auto config.gain_mode;
  amp_mode = or_auto config.config_amp_mode;
  sensitivity = or_auto config.config_sensitivity;
  gain_db = config.config_gain_db;
  rtl_gain_db = 150;
  lna_gain_db = config.config_lna;
  vga_gain_db = config.config_vga;
  amp_enabled = false;
  quiet_captures = 0;
  stable_captures = 0;
  last_decision = no_decision;
  last_levels = record { rms = pos 0; peak = pos 0; clipped = 0 };
  last_noise_margin = config.noise_margin;
}

unfoldable pub new_mapper_adaptive_tuning : Device → Config → Tuning
unfolding start_gains start_amp start_rtl
new_mapper_adaptive_tuning device config =
    let state = configured device config in
    if is_hackrf device.kind
    then start_amp device.calibration (start_gains device.calibration state)
    else if is_rtl device.kind && str_eq config.gain_mode "saved"
    then start_rtl device.calibration state
    else state

-- The fields of `CaptureSpec` that the tuning sets.
pub record CaptureSpec : Type 0 where
  pub spec_gain_db : ℕ
  pub spec_lna : ℕ
  pub spec_vga : ℕ
  pub spec_amp : Bool
  pub auto_gain : Bool

apply_auto : Tuning → CaptureSpec → CaptureSpec
apply_auto state spec =
    if is_hackrf state.device_kind
    then record spec {
      spec_lna = state.lna_gain_db;
      spec_vga = state.vga_gain_db;
      spec_amp = state.amp_enabled;
    }
    else if is_rtl state.device_kind
    then record spec { auto_gain = false; spec_gain_db = state.rtl_gain_db }
    else record spec { auto_gain = true }

apply_mode : Tuning → CaptureSpec → CaptureSpec
unfolding apply_auto
apply_mode state spec =
    if str_eq state.mode "auto"
    then apply_auto state spec
    else if str_eq state.mode "manual"
    then record spec {
      auto_gain = false;
      spec_gain_db = state.gain_db;
      spec_lna = state.lna_gain_db;
      spec_vga = state.vga_gain_db;
    }
    else if str_eq state.mode "saved" && is_rtl state.device_kind
    then record spec { auto_gain = false; spec_gain_db = state.rtl_gain_db }
    else spec

apply_amp : Tuning → CaptureSpec → CaptureSpec
apply_amp state spec =
    if str_eq state.amp_mode "on"
    then record spec { spec_amp = true }
    else if str_eq state.amp_mode "off"
    then record spec { spec_amp = false }
    else if str_eq state.amp_mode "auto"
    then record spec { spec_amp = state.amp_enabled }
    else spec

unfoldable pub apply : Tuning → CaptureSpec → CaptureSpec
unfolding apply_mode apply_amp
apply state spec =
    if is_hackrf state.device_kind
    then apply_amp state (apply_mode state spec)
    else apply_mode state spec

-- A capture's levels are noted before they are acted on.
unfoldable pub observe : Tuning → Levels → Tuning
observe state levels =
    let seen = record state { last_levels = levels; last_decision = gain_stable } in
    if str_eq state.mode "auto" && is_hackrf state.device_kind
    then adjust_hackrf seen levels
    else if str_eq state.mode "auto" && is_rtl state.device_kind
    then adjust_rtl seen levels
    else if str_eq state.mode "auto"
    then record seen { last_decision = receiver_agc }
    else if str_eq state.mode "saved"
    then record seen { last_decision = saved_calibration }
    else record seen { last_decision = manual_settings }

pub record TuningStatus : Type 0 where
  pub status_mode : String
  pub status_gain_db : ℕ
  pub status_lna : ℕ
  pub status_vga : ℕ
  pub status_amp : Bool
  pub status_noise_margin : ℕ
  pub status_levels : Levels
  pub status_decision : Decision

unfoldable pub status : Tuning → TuningStatus
status state = record {
  status_mode = state.mode;
  status_gain_db =
      if is_rtl state.device_kind && str_eq state.mode "auto"
      then state.rtl_gain_db
      else state.gain_db;
  status_lna = state.lna_gain_db;
  status_vga = state.vga_gain_db;
  status_amp = state.amp_enabled;
  status_noise_margin = state.last_noise_margin;
  status_levels = state.last_levels;
  status_decision = state.last_decision;
}

-- `setNoiseMargin` on a job that has a tuning.
unfoldable pub set_noise_margin : Tuning → ℕ → Tuning × TuningStatus
unfolding status
set_noise_margin state value =
    let noted : Tuning = record state { last_noise_margin = value } in (noted, status noted)
