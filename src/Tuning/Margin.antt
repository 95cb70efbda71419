-- ===== src/Tuning/Margin.antt =====
-- server/internal/app/mapper_tuning.go, lines 295-319: the margin over the noise at which a channel
-- counts as active, in hundredths of a dB.
use Prim.Native.String.{String}
use text.Mathlib.Text.{◌==◌ as str_eq}
use gp_sdr.Prelude.{ℕ, ◌-◌, ◌≤◌, ◌≡◌, Bool, false, ◌&&◌, arith, ltb, leb, if◌then◌else◌}
use gp_sdr.Prelude.Int.{ℤ, negsuc, ltb_ℤ, ◌≤ℤ◌}

-- What is read of the channel's level and of its classification.
pub record Observation : Type 0 where
  pub noise_db : ℤ
  pub modulation : String
  pub confidence : ℕ

abbrev pub clamp : ℕ → ℕ → ℕ → ℕ
clamp value lo hi = if ltb value lo then lo else if ltb hi value then hi else value

abbrev pub automatic_margin : Observation → ℕ
automatic_margin seen =
    if ltb_ℤ (negsuc 5499) seen.noise_db
    then 1000
    else if ltb_ℤ (negsuc 6999) seen.noise_db
    then 800
    else if ltb_ℤ seen.noise_db (negsuc 9999)
    then 400
    else 600

abbrev pub is_digital : Observation → Bool
is_digital seen = str_eq seen.modulation "DIGITAL" && leb 65 seen.confidence

unfoldable pub mapper_detection_margin : String → ℕ → Observation → ℕ
mapper_detection_margin sensitivity noise_margin seen =
    if str_eq sensitivity "weak"
    then 400
    else if str_eq sensitivity "balanced"
    then 600
    else if str_eq sensitivity "conservative"
    then 1000
    else if str_eq sensitivity "manual"
    then clamp noise_margin 300 3000
    else (let margin = automatic_margin seen in
        clamp (if is_digital seen then margin - 100 else margin) 400 1200)

-- Whatever is configured and observed, the margin is between 3 and 30 dB; unless it is set by hand,
-- it is between 4 and 10 dB.
pub margin_bounds :
    (sensitivity : String) (noise_margin : ℕ) (seen : Observation)
    → (300 ≤ mapper_detection_margin sensitivity noise_margin seen)
      × (mapper_detection_margin sensitivity noise_margin seen ≤ 3000)
      × (str_eq sensitivity "manual" ≡ false
          → (400 ≤ mapper_detection_margin sensitivity noise_margin seen)
            × (mapper_detection_margin sensitivity noise_margin seen ≤ 1000))
unfolding mapper_detection_margin
margin_bounds sensitivity noise_margin seen = ground arith

automatic_mono :
    (quiet loud : Observation)
    → quiet.noise_db ≤ℤ loud.noise_db
    → automatic_margin quiet ≤ automatic_margin loud
automatic_mono quiet loud h = ground arith

clamp_mono : (a b lo hi : ℕ) → lo ≤ hi → a ≤ b → clamp a lo hi ≤ clamp b lo hi
clamp_mono a b lo hi range h = ground arith

-- A noisier channel is never given a smaller margin, the classification being the same.
pub margin_mono :
    (sensitivity : String) (noise_margin : ℕ) (quiet loud : Observation)
    → quiet.noise_db ≤ℤ loud.noise_db
    → is_digital quiet ≡ is_digital loud
    → mapper_detection_margin sensitivity noise_margin quiet
      ≤ mapper_detection_margin sensitivity noise_margin loud
unfolding mapper_detection_margin
margin_mono sensitivity noise_margin quiet loud h same =
    let lower = automatic_mono quiet loud h in
    let m = automatic_margin quiet in
    let n = automatic_margin loud in
    ground (arith, same, lower, clamp_mono m n 400 1200, clamp_mono (m - 100) (n - 100) 400 1200)
