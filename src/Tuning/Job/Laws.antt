-- ===== src/Tuning/Job/Laws.antt =====
-- What a job's tuning asks of its captures (server/internal/app/mapper_tuning.go).
use Prim.Native.String.{String}
use text.Mathlib.Text.{◌==◌ as str_eq}
use gp_sdr.Prelude.{
  ◌%◌, ◌≤◌, ◌≡◌, refl, ◌⊎◌, inl, inr, sym, ◌∙◌, true, false, List, [], ◌∷◌, arith, ap, Option, none,
  some,
}
use gp_sdr.Tuning.State.{
  Calibration, Levels, Tuning, Device, Config, is_hackrf, is_rtl, count_capture,
}
use gp_sdr.Tuning.Rtl.{adjust_rtl, reduce_rtl, raise_rtl}
use gp_sdr.Tuning.Rtl.Gain.{IsStep}
use gp_sdr.Tuning.HackRf.Stages.{IsSetting}
use gp_sdr.Tuning.Job.{
  or_auto, configured, start_gains, start_amp, CaptureSpec, new_mapper_adaptive_tuning, apply,
  observe, status,
}
use gp_sdr.Tuning.Job.Captures.{
  seen_with, IsSameJob, apply_amp_fixed, apply_hackrf, apply_rtl, observe-IsSameJob, observe-cases,
  observe_all, observe_all-IsSameJob, observe_all-IsSetting, observe_all-IsStep, raise-amp,
}

-- A calibration's gains are settings of the hardware.
abbrev pub IsCalibrated : Option Calibration → Type 0
IsCalibrated none = Unit
IsCalibrated (some c) = (c.lna ≤ 40) × (c.lna % 8 ≡ 0) × (c.vga ≤ 62) × (c.vga % 2 ≡ 0)

start_gains-IsSetting :
    (c : Option Calibration) (s : Tuning)
    → IsCalibrated c
    → IsSetting s
    → IsSetting (start_gains c s)
unfolding start_gains
start_gains-IsSetting none s hc h = ground arith
start_gains-IsSetting (some c) s hc h = ground arith

start_amp-keeps :
    (c : Option Calibration) (s : Tuning)
    → IsSetting s
    → IsSetting (start_amp c s) × IsSameJob s (start_amp c s)
unfolding start_amp
start_amp-keeps none s h = ground arith
start_amp-keeps (some c) s h = ground arith

start_gains-IsSameJob : (c : Option Calibration) (s : Tuning) → IsSameJob s (start_gains c s)
unfolding start_gains
start_gains-IsSameJob none s = ground arith
start_gains-IsSameJob (some c) s = ground arith

start_mode :
    {m g : String} → m ≡ or_auto g → (g ≡ "auto") ⊎ (g ≡ "manual") → (m ≡ "auto") ⊎ (m ≡ "manual")
start_mode e (inl q) = inl (e ∙ ap or_auto q)
start_mode e (inr q) = inr (e ∙ ap or_auto q)

adjust_rtl-amp : (s : Tuning) (l : Levels) → (adjust_rtl s l).amp_enabled ≡ s.amp_enabled
unfolding adjust_rtl count_capture reduce_rtl raise_rtl
adjust_rtl-amp s l = ground arith

-- An amplifier that is not automatic is left alone.
observe_all-amp :
    (ls : List Levels) (s : Tuning)
    → str_eq s.amp_mode "auto" ≡ false
    → (observe_all s ls).amp_enabled ≡ s.amp_enabled
unfolding observe_all
observe_all-amp [] s h = refl
observe_all-amp (l ∷ ls) s h =
    observe_all-amp ls (observe s l)
      (ap (λ m. str_eq m "auto") (observe-IsSameJob s l).amp_mode ∙ h)
    ∙ elim (observe-cases s l) [
      | inl (_, q) ↦ ap (λ t. t.amp_enabled) q ∙ raise-amp (seen_with s l) l h
      | inr (inl (_, q)) ↦ ap (λ t. t.amp_enabled) q ∙ adjust_rtl-amp (seen_with s l) l
      | inr (inr same) ↦ same.amp
    ]

start_amp_fixed :
    (c : Option Calibration) (s : Tuning)
    → (s.amp_mode ≡ "on" → (start_amp c s).amp_enabled ≡ true)
      × (s.amp_mode ≡ "off" → (start_amp c s).amp_enabled ≡ false)
unfolding start_amp
start_amp_fixed c s = (λ on. rw on, λ off. rw off)

status_fields :
    (s : Tuning)
    → ((status s).status_lna ≡ s.lna_gain_db)
      × ((status s).status_vga ≡ s.vga_gain_db)
      × ((status s).status_amp ≡ s.amp_enabled)
unfolding status
status_fields s = (refl, refl, refl)

apply_amp_auto :
    (s : Tuning) (spec : CaptureSpec)
    → is_hackrf s.device_kind ≡ true
    → s.amp_mode ≡ "auto"
    → (apply s spec).spec_amp ≡ s.amp_enabled
unfolding apply
apply_amp_auto s spec here auto = rw (here, auto)

module _ (device : Device) (config : Config) where
  abbrev start : Tuning
  start = new_mapper_adaptive_tuning device config

  start_rtl_auto :
      is_hackrf device.kind ≡ false
      → config.gain_mode ≡ "auto"
      → (start.rtl_gain_db ≡ 150) × (start.mode ≡ "auto") × (start.device_kind ≡ device.kind)
  unfolding new_mapper_adaptive_tuning configured
  start_rtl_auto other auto = rw (other, auto) (ground arith)

  new_hackrf :
      is_hackrf device.kind ≡ true
      → start
        ≡ start_amp device.calibration (start_gains device.calibration (configured device config))
  unfolding new_mapper_adaptive_tuning
  new_hackrf here = rw here

  configured_lem :
      ((configured device config).device_kind ≡ device.kind)
      × ((configured device config).mode ≡ or_auto config.gain_mode)
      × ((configured device config).amp_mode ≡ or_auto config.config_amp_mode)
  unfolding configured
  configured_lem = (refl, refl, refl)

  start_hackrf :
      is_hackrf device.kind ≡ true
      → IsCalibrated device.calibration
      → (config.config_lna ≤ 40)
      → (config.config_lna % 8 ≡ 0)
      → (config.config_vga ≤ 62)
      → (config.config_vga % 2 ≡ 0)
      → IsSetting start × IsSameJob (configured device config) start
  start_hackrf here hc l1 l2 v1 v2 =
      let c = device.calibration in
      let s0 = configured device config in
      let h0 : IsSetting s0 =
        unfold configured in record { lna_max = l1; lna_step = l2; vga_max = v1; vga_step = v2 } in
      let amp = start_amp-keeps c (start_gains c s0) (start_gains-IsSetting c s0 hc h0) in
      let gains = start_gains-IsSameJob c s0 in
      rw (new_hackrf here) (amp.0, ground (arith, amp.1, gains))

  -- An RTL-SDR job on automatic gain never turns the driver's own gain control on, and always asks
  -- for one of the eight automatic steps, after any captures.
  pub apply-rtl_auto :
      (ls : List Levels) (spec : CaptureSpec)
      → is_hackrf device.kind ≡ false
      → is_rtl device.kind ≡ true
      → config.gain_mode ≡ "auto"
      → ((apply (observe_all start ls) spec).auto_gain ≡ false)
        × IsStep (apply (observe_all start ls) spec).spec_gain_db
  apply-rtl_auto ls spec other here auto =
      let (gain, mode, kind) = start_rtl_auto other auto in
      let job = observe_all-IsSameJob ls start in
      let steps = observe_all-IsStep ls start (ap is_hackrf kind ∙ other) (0, omega arith, gain) in
      rw
        (apply_rtl (observe_all start ls) spec (job.mode ∙ mode)
          (ap is_hackrf (job.kind ∙ kind) ∙ other) (ap is_rtl (job.kind ∙ kind) ∙ here))
        (refl, steps)

  -- A HackRF job on automatic or manual gain, with a valid configuration and a calibration that
  -- holds settings of the hardware, asks after any captures for an LNA gain that is a multiple of 8
  -- up to 40 dB and an even VGA gain up to 62 dB; an amplifier that is configured off stays off,
  -- and one that is configured on stays on.
  pub apply-hackrf :
      (ls : List Levels) (spec : CaptureSpec)
      → is_hackrf device.kind ≡ true
      → IsCalibrated device.calibration
      → config.config_lna ≤ 40
      → config.config_lna % 8 ≡ 0
      → config.config_vga ≤ 62
      → config.config_vga % 2 ≡ 0
      → (config.gain_mode ≡ "auto") ⊎ (config.gain_mode ≡ "manual")
      → let after = apply (observe_all start ls) spec in
        (after.spec_lna ≤ 40)
        × (after.spec_lna % 8 ≡ 0)
        × (after.spec_vga ≤ 62)
        × (after.spec_vga % 2 ≡ 0)
        × (config.config_amp_mode ≡ "off" → after.spec_amp ≡ false)
        × (config.config_amp_mode ≡ "on" → after.spec_amp ≡ true)
  apply-hackrf ls spec here hc l1 l2 v1 v2 gain =
      let t = observe_all start ls in
      let (fits, first) = start_hackrf here hc l1 l2 v1 v2 in
      let rest = observe_all-IsSameJob ls start in
      let (kind, mode, amp) = configured_lem in
      let hack = ap is_hackrf (rest.kind ∙ first.kind ∙ kind) ∙ here in
      let kept = observe_all-IsSetting ls start (ap is_hackrf (first.kind ∙ kind) ∙ here) fits in
      let (lna, vga) = apply_hackrf t spec (start_mode (rest.mode ∙ first.mode ∙ mode) gain) hack in
      let (off, on) = apply_amp_fixed t spec hack in
      let same_amp = rest.amp_mode ∙ first.amp_mode ∙ amp in
      (
        rw lna kept.lna_max,
        rw lna kept.lna_step,
        rw vga kept.vga_max,
        rw vga kept.vga_step,
        λ e. off (same_amp ∙ ap or_auto e),
        λ e. on (same_amp ∙ ap or_auto e),
      )

  amp_agrees :
      (ls : List Levels) (spec : CaptureSpec) (amp : String)
      → is_hackrf device.kind ≡ true
      → IsSameJob (configured device config) start
      → config.config_amp_mode ≡ amp
      → (amp ≡ "auto") ⊎ (amp ≡ "on") ⊎ (amp ≡ "off")
      → (observe_all start ls).amp_enabled ≡ (apply (observe_all start ls) spec).spec_amp
  amp_agrees ls spec amp here first e which =
      let t = observe_all start ls in
      let rest = observe_all-IsSameJob ls start in
      let (kind, mode, amp_mode) = configured_lem in
      let hack = ap is_hackrf (rest.kind ∙ first.kind ∙ kind) ∙ here in
      let began = first.amp_mode ∙ amp_mode ∙ ap or_auto e in
      let gains = start_gains device.calibration (configured device config) in
      let fixed = start_amp_fixed device.calibration gains in
      let same = start_gains-IsSameJob device.calibration (configured device config) in
      let given = same.amp_mode ∙ amp_mode ∙ ap or_auto e in
      let (off, on) = apply_amp_fixed t spec hack in
      elim which [
        | inl q ↦ sym (apply_amp_auto t spec hack (rest.amp_mode ∙ began ∙ ap or_auto q))
        | inr (inl q) ↦
            observe_all-amp ls start (ap (λ m. str_eq m "auto") (began ∙ ap or_auto q))
            ∙ ap (λ s. s.amp_enabled) (new_hackrf here)
            ∙ fixed.0 (given ∙ ap or_auto q)
            ∙ sym (on (rest.amp_mode ∙ began ∙ ap or_auto q))
        | inr (inr q) ↦
            observe_all-amp ls start (ap (λ m. str_eq m "auto") (began ∙ ap or_auto q))
            ∙ ap (λ s. s.amp_enabled) (new_hackrf here)
            ∙ fixed.1 (given ∙ ap or_auto q)
            ∙ sym (off (rest.amp_mode ∙ began ∙ ap or_auto q))
      ]

  -- A HackRF job on automatic or manual gain and with a known amplifier mode, a valid configuration
  -- and a calibration that holds settings of the hardware, reports after any captures the LNA and
  -- VGA gains and the amplifier state that its next capture is asked for.
  pub status-apply :
      (ls : List Levels) (spec : CaptureSpec)
      → is_hackrf device.kind ≡ true
      → IsCalibrated device.calibration
      → config.config_lna ≤ 40
      → config.config_lna % 8 ≡ 0
      → config.config_vga ≤ 62
      → config.config_vga % 2 ≡ 0
      → (config.gain_mode ≡ "auto") ⊎ (config.gain_mode ≡ "manual")
      → (config.config_amp_mode ≡ "auto")
        ⊎ (config.config_amp_mode ≡ "on")
        ⊎ (config.config_amp_mode ≡ "off")
      → let after = apply (observe_all start ls) spec in
        let shown = status (observe_all start ls) in
        (shown.status_lna ≡ after.spec_lna)
        × (shown.status_vga ≡ after.spec_vga)
        × (shown.status_amp ≡ after.spec_amp)
  status-apply ls spec here hc l1 l2 v1 v2 gain which =
      let t = observe_all start ls in
      let (_, first) = start_hackrf here hc l1 l2 v1 v2 in
      let rest = observe_all-IsSameJob ls start in
      let (kind, mode, _) = configured_lem in
      let hack = ap is_hackrf (rest.kind ∙ first.kind ∙ kind) ∙ here in
      let (lna, vga) = apply_hackrf t spec (start_mode (rest.mode ∙ first.mode ∙ mode) gain) hack in
      let (shown_lna, shown_vga, shown_amp) = status_fields t in
      let amp = amp_agrees ls spec config.config_amp_mode here first refl which in
      (shown_lna ∙ sym lna, shown_vga ∙ sym vga, shown_amp ∙ amp)
