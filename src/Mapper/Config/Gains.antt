-- ===== src/Mapper/Config/Gains.antt =====
-- A Mapper job from its configuration (server/internal/app/mapper.go, lines 536-544) to the gains of its
-- captures (server/internal/app/mapper_tuning.go).
use gp_sdr.Prelude.{ℕ, ◌%◌, ◌≤◌, ◌≡◌, sym, ap, ◌∙◌, ◌⊎◌, true, false, List, subst}
use gp_sdr.Prelude.Int.{ℤ, pos, pos_part}
use gp_sdr.Tuning.State.{Levels, Device, Config, is_hackrf}
use gp_sdr.Tuning.Job.{CaptureSpec, new_mapper_adaptive_tuning, apply}
use gp_sdr.Tuning.Job.Captures.{observe_all}
use gp_sdr.Tuning.Job.Laws.{IsCalibrated, apply-hackrf}
use gp_sdr.Mapper.Config.{MapperConfig, valid, validate_mapper_scan_config}
use gp_sdr.Mapper.Config.Laws.{IsGain, validate-IsRunnable}

-- The gains that a job's tuning reads of its configuration.
abbrev pub HasGains : MapperConfig → Config → Type 0
HasGains d config = (d.lna_gain ≡ pos config.config_lna) × (d.vga_gain ≡ pos config.config_vga)

gain_number :
    (greatest step n : ℕ) (gain : ℤ)
    → gain ≡ pos n
    → IsGain greatest step gain
    → (n ≤ greatest) × (n % step ≡ 0)
gain_number greatest step n gain e (m, f, most, fits) =
    let same : m ≡ n = ap pos_part (sym f ∙ e) in
    (subst (λ x. x ≤ greatest) same most, subst (λ x. x % step ≡ 0) same fits)

-- A HackRF job whose configuration was accepted, on automatic or manual gain and with a calibration
-- that holds settings of the hardware, asks after any captures for an LNA gain that is a multiple of 8
-- up to 40 dB and an even VGA gain up to 62 dB; an amplifier that is configured off stays off, and one
-- that is configured on stays on.
pub apply-validate :
    (c d : MapperConfig) (device : Device) (config : Config) (ls : List Levels) (spec : CaptureSpec)
    → validate_mapper_scan_config c ≡ valid d
    → HasGains d config
    → is_hackrf device.kind ≡ true
    → IsCalibrated device.calibration
    → (config.gain_mode ≡ "auto") ⊎ (config.gain_mode ≡ "manual")
    → let after = apply (observe_all (new_mapper_adaptive_tuning device config) ls) spec in
      (after.spec_lna ≤ 40)
      × (after.spec_lna % 8 ≡ 0)
      × (after.spec_vga ≤ 62)
      × (after.spec_vga % 2 ≡ 0)
      × (config.config_amp_mode ≡ "off" → after.spec_amp ≡ false)
      × (config.config_amp_mode ≡ "on" → after.spec_amp ≡ true)
apply-validate c d device config ls spec h (lna, vga) here calibrated gain =
    let runs = validate-IsRunnable c d h in
    let (l1, l2) = gain_number 40 8 config.config_lna d.lna_gain lna runs.lna in
    let (v1, v2) = gain_number 62 2 config.config_vga d.vga_gain vga runs.vga in
    apply-hackrf device config ls spec here calibrated l1 l2 v1 v2 gain
