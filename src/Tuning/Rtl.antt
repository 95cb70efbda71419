-- ===== src/Tuning/Rtl.antt =====
-- server/internal/app/mapper_tuning.go, lines 132-185: the gain steps of an RTL-SDR and how a
-- capture moves the gain between them.
pub mod Gain
use gp_sdr.Prelude.{
  ℕ, zero, suc, ◌-◌, Bool, ◌&&◌, ◌||◌, Option, none, some, List, [], ◌∷◌, ltb, leb, if◌then◌else◌,
  get_or,
}
use gp_sdr.Prelude.Int.{negsuc, ltb_ℤ}
use gp_sdr.Tuning.State.{
  rtl_reduced, rtl_minimum, rtl_stable, rtl_raised, rtl_maximum, Levels, Tuning, count_capture,
}

abbrev pub rtl_auto_gain_steps : List ℕ
rtl_auto_gain_steps = 150 ∷ 900 ∷ 1400 ∷ 1900 ∷ 2400 ∷ 2900 ∷ 3400 ∷ 4200 ∷ []

abbrev pub step_at : ℕ → ℕ
step_at index = get_or rtl_auto_gain_steps index 0

-- clipped >= .5 || peak > -1 || (rms > -3 && clipped > .01)
unfoldable pub is_overloaded : Levels → Bool
is_overloaded levels =
    leb 50 levels.clipped
    || ltb_ℤ (negsuc 99) levels.peak
    || (ltb_ℤ (negsuc 299) levels.rms && ltb 1 levels.clipped)

-- The loop from the last step down: the step below the first one that the gain reaches.
unfoldable pub lower_step : ℕ → ℕ → Option ℕ
lower_step gain zero = none
lower_step gain (suc index) =
    let further = lower_step gain index in
    if leb (step_at (suc index) - 1) gain then some (step_at index) else further

-- The loop up the steps: the first one that is above the gain.
unfoldable pub higher_step : ℕ → List ℕ → Option ℕ
higher_step gain [] = none
higher_step gain (step ∷ steps) = if ltb gain (step - 1) then some step else higher_step gain steps

abbrev pub last_index : ℕ
last_index = 7

unfoldable pub reduce_rtl : Tuning → Tuning
reduce_rtl state = elim (lower_step state.rtl_gain_db last_index) [
  | some step ↦ record state { rtl_gain_db = step; last_decision = rtl_reduced }
  | none ↦ record state { rtl_gain_db = step_at 0; last_decision = rtl_minimum }
]

unfoldable pub raise_rtl : Tuning → Tuning
raise_rtl state = elim (higher_step state.rtl_gain_db rtl_auto_gain_steps) [
  | some step ↦ record state { rtl_gain_db = step; last_decision = rtl_raised }
  | none ↦ record state { last_decision = rtl_maximum }
]

unfoldable pub adjust_rtl : Tuning → Levels → Tuning
adjust_rtl state levels =
    if is_overloaded levels
    then reduce_rtl state
    else (let counted = count_capture state levels in
        if ltb counted.quiet_captures 2
        then record counted { last_decision = rtl_stable }
        else raise_rtl (record counted { quiet_captures = 0 }))
