-- ===== src/Tuning/Job/Captures.antt =====
-- What a run of captures keeps of a job's tuning (server/internal/app/mapper_tuning.go).
use text.Mathlib.Text.{◌==◌ as str_eq}
use gp_sdr.Prelude.{◌≡◌, ◌⊎◌, inl, inr, ◌∙◌, true, false, List, [], ◌∷◌, arith, ap}
use gp_sdr.Tuning.State.{Levels, Tuning, is_hackrf, is_rtl, count_capture, gain_stable}
use gp_sdr.Tuning.Rtl.{adjust_rtl, reduce_rtl, raise_rtl}
use gp_sdr.Tuning.Rtl.Gain.{IsStep, adjust_rtl-IsStep}
use gp_sdr.Tuning.HackRf.{adjust_hackrf, reduce_stage, raise_stage}
use gp_sdr.Tuning.HackRf.Stages.{IsSetting, adjust_hackrf-IsSetting}
use gp_sdr.Tuning.Job.{CaptureSpec, apply, observe}

-- The captures of a job, in order.
unfoldable pub observe_all : Tuning → List Levels → Tuning
observe_all s [] = s
observe_all s (l ∷ ls) = observe_all (observe s l) ls

-- What a capture never changes.
pub record IsSameJob (before after : Tuning) : Type 0 where
  pub kind : after.device_kind ≡ before.device_kind
  pub mode : after.mode ≡ before.mode
  pub amp_mode : after.amp_mode ≡ before.amp_mode
  pub sensitivity : after.sensitivity ≡ before.sensitivity
  pub manual_gain : after.gain_db ≡ before.gain_db

adjust_rtl-IsSameJob : (s : Tuning) (l : Levels) → IsSameJob s (adjust_rtl s l)
unfolding adjust_rtl count_capture reduce_rtl raise_rtl
adjust_rtl-IsSameJob s l = ground arith

adjust_hackrf-IsSameJob : (s : Tuning) (l : Levels) → IsSameJob s (adjust_hackrf s l)
unfolding adjust_hackrf count_capture reduce_stage raise_stage
adjust_hackrf-IsSameJob s l = ground arith

pub observe-IsSameJob : (s : Tuning) (l : Levels) → IsSameJob s (observe s l)
unfolding observe
observe-IsSameJob s l = ground (
  arith,
  adjust_rtl-IsSameJob (record s { last_levels = l; last_decision = gain_stable }) l,
  adjust_hackrf-IsSameJob (record s { last_levels = l; last_decision = gain_stable }) l,
)

-- An amplifier that is off and not automatic stays off.
pub raise-amp :
    (s : Tuning) (l : Levels)
    → str_eq s.amp_mode "auto" ≡ false
    → (adjust_hackrf s l).amp_enabled ≡ s.amp_enabled
unfolding adjust_hackrf count_capture reduce_stage raise_stage
raise-amp s l h = ground arith

pub observe_all-IsSameJob : (ls : List Levels) (s : Tuning) → IsSameJob s (observe_all s ls)
unfolding observe_all
observe_all-IsSameJob [] s = ground arith
observe_all-IsSameJob (l ∷ ls) s =
    let here = observe-IsSameJob s l in
    let rest = observe_all-IsSameJob ls (observe s l) in ground (arith, here, rest)

-- The settings that a capture is made with.
pub record IsSameSettings (before after : Tuning) : Type 0 where
  pub rtl : after.rtl_gain_db ≡ before.rtl_gain_db
  pub lna : after.lna_gain_db ≡ before.lna_gain_db
  pub vga : after.vga_gain_db ≡ before.vga_gain_db
  pub amp : after.amp_enabled ≡ before.amp_enabled

abbrev pub seen_with : Tuning → Levels → Tuning
seen_with s l = record s { last_levels = l; last_decision = gain_stable }

pub observe-cases :
    (s : Tuning) (l : Levels)
    → (is_hackrf s.device_kind ≡ true) × (observe s l ≡ adjust_hackrf (seen_with s l) l)
      ⊎ (is_hackrf s.device_kind ≡ false) × (observe s l ≡ adjust_rtl (seen_with s l) l)
      ⊎ IsSameSettings s (observe s l)
unfolding observe
observe-cases s l = ground arith

observe_manual :
    (s : Tuning) (l : Levels) → str_eq s.mode "auto" ≡ false → IsSameSettings s (observe s l)
unfolding observe
observe_manual s l h = ground arith

observe_rtl :
    (s : Tuning) (l : Levels)
    → is_hackrf s.device_kind ≡ false
    → IsStep s.rtl_gain_db
    → IsStep (observe s l).rtl_gain_db
observe_rtl s l other (index, h, e) = elim (observe-cases s l) [
  | inl (here, q) ↦ cc
  | inr (inl (here, q)) ↦ rw q (adjust_rtl-IsStep (seen_with s l) l (index, h, e))
  | inr (inr same) ↦ (index, h, same.rtl ∙ e)
]

observe_hackrf :
    (s : Tuning) (l : Levels)
    → is_hackrf s.device_kind ≡ true
    → IsSetting s
    → IsSetting (observe s l)
observe_hackrf s l here h = elim (observe-cases s l) [
  | inl (_, q) ↦ rw q (adjust_hackrf-IsSetting (seen_with s l) l (ground arith))
  | inr (inl (other, q)) ↦ cc
  | inr (inr same) ↦ ground (arith, same)
]

pub observe_all-IsStep :
    (ls : List Levels) (s : Tuning)
    → is_hackrf s.device_kind ≡ false
    → IsStep s.rtl_gain_db
    → IsStep (observe_all s ls).rtl_gain_db
unfolding observe_all
observe_all-IsStep [] s other h = h
observe_all-IsStep (l ∷ ls) s other h =
    observe_all-IsStep ls (observe s l) (ap is_hackrf (observe-IsSameJob s l).kind ∙ other)
      (observe_rtl s l other h)

pub observe_all-IsSetting :
    (ls : List Levels) (s : Tuning)
    → is_hackrf s.device_kind ≡ true
    → IsSetting s
    → IsSetting (observe_all s ls)
unfolding observe_all
observe_all-IsSetting [] s here h = h
observe_all-IsSetting (l ∷ ls) s here h =
    observe_all-IsSetting ls (observe s l) (ap is_hackrf (observe-IsSameJob s l).kind ∙ here)
      (observe_hackrf s l here h)

observe_all-manual :
    (ls : List Levels) (s : Tuning)
    → str_eq s.mode "auto" ≡ false
    → IsSameSettings s (observe_all s ls)
unfolding observe_all
observe_all-manual [] s h = ground arith
observe_all-manual (l ∷ ls) s h =
    let here = observe_manual s l h in
    let mode = ap (λ m. str_eq m "auto") (observe-IsSameJob s l).mode ∙ h in
    let rest = observe_all-manual ls (observe s l) mode in ground (arith, here, rest)

apply-same :
    (s t : Tuning) (spec : CaptureSpec)
    → IsSameJob s t
    → IsSameSettings s t
    → apply t spec ≡ apply s spec
unfolding apply
apply-same s t spec job same =
    rw (job.kind, job.mode, job.amp_mode, job.manual_gain, same.rtl, same.lna, same.vga, same.amp)

pub apply_rtl :
    (s : Tuning) (spec : CaptureSpec)
    → s.mode ≡ "auto"
    → is_hackrf s.device_kind ≡ false
    → is_rtl s.device_kind ≡ true
    → apply s spec ≡ record spec { auto_gain = false; spec_gain_db = s.rtl_gain_db }
unfolding apply
apply_rtl s spec mode other here = rw (mode, other, here)

-- The stages that a HackRF's capture is asked for, and its amplifier under a fixed setting.
pub apply_hackrf :
    (s : Tuning) (spec : CaptureSpec)
    → (s.mode ≡ "auto") ⊎ (s.mode ≡ "manual")
    → is_hackrf s.device_kind ≡ true
    → ((apply s spec).spec_lna ≡ s.lna_gain_db) × ((apply s spec).spec_vga ≡ s.vga_gain_db)
unfolding apply
apply_hackrf s spec (inl mode) here = rw (mode, here) (ground arith)
apply_hackrf s spec (inr mode) here = rw (mode, here) (ground arith)

pub apply_amp_fixed :
    (s : Tuning) (spec : CaptureSpec)
    → is_hackrf s.device_kind ≡ true
    → (s.amp_mode ≡ "off" → (apply s spec).spec_amp ≡ false)
      × (s.amp_mode ≡ "on" → (apply s spec).spec_amp ≡ true)
unfolding apply
apply_amp_fixed s spec here = (λ off. rw (here, off), λ on. rw (here, on))

-- With saved or manual gain no capture changes what the job asks of the next one.
pub apply-observe_all-manual :
    (s : Tuning) (ls : List Levels) (spec : CaptureSpec)
    → str_eq s.mode "auto" ≡ false
    → apply (observe_all s ls) spec ≡ apply s spec
apply-observe_all-manual s ls spec h =
    apply-same s (observe_all s ls) spec (observe_all-IsSameJob ls s) (observe_all-manual ls s h)
