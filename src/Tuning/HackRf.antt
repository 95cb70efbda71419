-- ===== src/Tuning/HackRf.antt =====
-- server/internal/app/mapper_tuning.go, lines 187-246: how a capture moves the three gain stages of a
-- HackRF.
pub mod Stages
use text.Mathlib.Text.{◌==◌ as str_eq}
use gp_sdr.Prelude.{ℕ, ◌+◌, ◌-◌, Bool, true, false, not, ◌&&◌, ◌||◌, ltb, leb, if◌then◌else◌}
use gp_sdr.Prelude.Int.{negsuc, ltb_ℤ}
use gp_sdr.Tuning.State.{
  amp_off, vga_reduced, lna_reduced, amp_on, lna_raised, vga_raised, maximum_gain, Levels, Tuning,
  count_capture,
}

-- clipped >= .05 || peak > -1 || rms > -12
unfoldable pub is_overloaded : Levels → Bool
is_overloaded levels =
    leb 5 levels.clipped || ltb_ℤ (negsuc 99) levels.peak || ltb_ℤ (negsuc 1199) levels.rms

-- An overload takes off one stage: the amplifier, then VGA, then LNA.
unfoldable pub reduce_stage : Tuning → Tuning
reduce_stage state =
    if str_eq state.amp_mode "auto" && state.amp_enabled
    then record state { amp_enabled = false; last_decision = amp_off }
    else if leb 4 state.vga_gain_db
    then record state { vga_gain_db = state.vga_gain_db - 4; last_decision = vga_reduced }
    else if leb 8 state.lna_gain_db
    then record state { lna_gain_db = state.lna_gain_db - 8; last_decision = lna_reduced }
    else state

abbrev min_int : ℕ → ℕ → ℕ
min_int a b = if ltb a b then a else b

unfoldable pub raise_stage : Tuning → Tuning
raise_stage state =
    if str_eq state.amp_mode "auto" && not state.amp_enabled
    then record state { amp_enabled = true; last_decision = amp_on }
    else if ltb state.lna_gain_db 40 && leb state.lna_gain_db (state.vga_gain_db + 8)
    then record state { lna_gain_db = state.lna_gain_db + 8; last_decision = lna_raised }
    else if ltb state.vga_gain_db 62
    then record state {
      vga_gain_db = min_int 62 (state.vga_gain_db + 4);
      last_decision = vga_raised;
    }
    else record state { last_decision = maximum_gain }

unfoldable pub adjust_hackrf : Tuning → Levels → Tuning
adjust_hackrf state levels =
    if is_overloaded levels
    then reduce_stage (record state { quiet_captures = 0; stable_captures = 0 })
    else (let counted = count_capture state levels in
        if ltb counted.quiet_captures 2
        then counted
        else raise_stage (record counted { quiet_captures = 0 }))
