-- ===== src/Tuning/HackRf/Stages.antt =====
-- How captures move the gain stages of a HackRF (server/internal/app/mapper_tuning.go,
-- `adjustHackRF`).
use text.Mathlib.Text.{◌==◌ as str_eq}
use gp_sdr.Prelude.{
  ℕ, ◌+◌, ◌-◌, ◌/◌, ◌%◌, ◌≤◌, ◌<◌, ◌≡◌, inl, inr, true, false, ◌&&◌, List, [], ◌∷◌, arith, length,
  Bool-cases, sym, ◌∙◌, refl, leb, ltb, if◌then◌else◌,
}
use gp_sdr.Tuning.State.{Levels, Tuning, is_quiet, count_capture}
use gp_sdr.Tuning.HackRf.{is_overloaded, reduce_stage, raise_stage, adjust_hackrf}

-- The gains are settings that the hardware has.
pub record IsSetting (s : Tuning) : Type 0 where
  pub lna_max : s.lna_gain_db ≤ 40
  pub lna_step : s.lna_gain_db % 8 ≡ 0
  pub vga_max : s.vga_gain_db ≤ 62
  pub vga_step : s.vga_gain_db % 2 ≡ 0

reduce-IsSetting : (s : Tuning) → IsSetting s → IsSetting (reduce_stage s)
unfolding reduce_stage
reduce-IsSetting s h = ground arith

raise-IsSetting : (s : Tuning) → IsSetting s → IsSetting (raise_stage s)
unfolding raise_stage
raise-IsSetting s h = ground arith

-- The stages that an overload can still take off.
pub stages : Tuning → ℕ
stages s =
    (if str_eq s.amp_mode "auto" && s.amp_enabled then 1 else 0)
    + s.vga_gain_db / 4
    + s.lna_gain_db / 8

reduce-stages : (s : Tuning) → stages (reduce_stage s) ≡ stages s - 1
unfolding reduce_stage stages
reduce-stages s = ground arith

-- No stage goes up.
pub record IsNoHigher (before after : Tuning) : Type 0 where
  pub lna : after.lna_gain_db ≤ before.lna_gain_db
  pub vga : after.vga_gain_db ≤ before.vga_gain_db
  pub amp : after.amp_enabled ≡ true → before.amp_enabled ≡ true

reduce-IsNoHigher : (s : Tuning) → IsNoHigher s (reduce_stage s)
unfolding reduce_stage
reduce-IsNoHigher s = ground arith

-- The gain fields are left alone.
pub record IsSameGain (before after : Tuning) : Type 0 where
  pub lna : after.lna_gain_db ≡ before.lna_gain_db
  pub vga : after.vga_gain_db ≡ before.vga_gain_db
  pub amp : after.amp_enabled ≡ before.amp_enabled

count_capture-IsSameGain : (s : Tuning) (l : Levels) → IsSameGain s (count_capture s l)
unfolding count_capture
count_capture-IsSameGain s l = ground arith

raise-amp_mode : (s : Tuning) → (raise_stage s).amp_mode ≡ s.amp_mode
unfolding raise_stage
raise-amp_mode s = ground arith

adjust_overloaded :
    (s : Tuning) (l : Levels)
    → is_overloaded l ≡ true
    → adjust_hackrf s l ≡ reduce_stage (record s { quiet_captures = 0; stable_captures = 0 })
unfolding adjust_hackrf
adjust_overloaded s l h = rw h

-- Every capture keeps the gains on settings of the hardware: LNA a multiple of 8 up to 40 dB and
-- VGA an even number up to 62 dB.
pub adjust_hackrf-IsSetting :
    (s : Tuning) (l : Levels) → IsSetting s → IsSetting (adjust_hackrf s l)
unfolding adjust_hackrf
adjust_hackrf-IsSetting s l h = elim (Bool-cases (is_overloaded l)) [
  | inl over ↦
      rw over
        (reduce-IsSetting (record s { quiet_captures = 0; stable_captures = 0 }) (ground arith))
  | inr clear ↦
      let counted = count_capture s l in
      let kept : IsSetting counted = ground (arith, count_capture-IsSameGain s l) in
      elim (Bool-cases (ltb counted.quiet_captures 2)) [
        | inl wait ↦ rw (clear, wait) kept
        | inr raise ↦
            rw (clear, raise)
              (raise-IsSetting (record counted { quiet_captures = 0 }) (ground arith))
      ]
]

-- A run of captures.
pub adjust_all : Tuning → List Levels → Tuning
adjust_all s [] = s
adjust_all s (l ∷ ls) = adjust_all (adjust_hackrf s l) ls

abbrev pub AllOverloaded : List Levels → Type 0
AllOverloaded [] = Unit
AllOverloaded (l ∷ ls) = (is_overloaded l ≡ true) × AllOverloaded ls

overload-stages :
    (s : Tuning) (l : Levels) → is_overloaded l ≡ true → stages (adjust_hackrf s l) ≡ stages s - 1
unfolding stages
overload-stages s l h =
    rw (adjust_overloaded s l h)
      (reduce-stages (record s { quiet_captures = 0; stable_captures = 0 }))

adjust_all-stages :
    (ls : List Levels) (s : Tuning)
    → AllOverloaded ls
    → stages (adjust_all s ls) ≡ stages s - length ls
unfolding adjust_all
adjust_all-stages [] s all = omega arith
adjust_all-stages (l ∷ ls) s all =
    omega (arith, adjust_all-stages ls (adjust_hackrf s l) all.1, overload-stages s l all.0)

stages_taken :
    (s : Tuning)
    → stages s ≡ 0
    → ((str_eq s.amp_mode "auto" && s.amp_enabled) ≡ false)
      × (s.vga_gain_db < 4)
      × (s.lna_gain_db < 8)
unfolding stages
stages_taken s h = ground arith

stages-le : (s : Tuning) → IsSetting s → stages s ≤ 21
unfolding stages
stages-le s h = ground arith

-- The one stage that goes: an automatic amplifier that is on, else 4 dB of VGA, else 8 dB of LNA. With
-- none of them left, all stay.
pub data IsLowered (before after : Tuning) : Type 0 where
  amp_goes :
      (str_eq before.amp_mode "auto" && before.amp_enabled) ≡ true
      → after.amp_enabled ≡ false
      → after.vga_gain_db ≡ before.vga_gain_db
      → after.lna_gain_db ≡ before.lna_gain_db
      → IsLowered before after
  vga_goes :
      (str_eq before.amp_mode "auto" && before.amp_enabled) ≡ false
      → after.vga_gain_db + 4 ≡ before.vga_gain_db
      → after.lna_gain_db ≡ before.lna_gain_db
      → after.amp_enabled ≡ before.amp_enabled
      → IsLowered before after
  lna_goes :
      (str_eq before.amp_mode "auto" && before.amp_enabled) ≡ false
      → before.vga_gain_db < 4
      → after.lna_gain_db + 8 ≡ before.lna_gain_db
      → after.vga_gain_db ≡ before.vga_gain_db
      → after.amp_enabled ≡ before.amp_enabled
      → IsLowered before after
  none_left :
      (str_eq before.amp_mode "auto" && before.amp_enabled) ≡ false
      → before.vga_gain_db < 4
      → before.lna_gain_db < 8
      → IsSameGain before after
      → IsLowered before after

reduce-IsLowered : (s : Tuning) → IsLowered s (reduce_stage s)
unfolding reduce_stage
reduce-IsLowered s = elim (Bool-cases (str_eq s.amp_mode "auto" && s.amp_enabled)) [
  | inl on ↦ amp_goes on (rw on refl) (rw on refl) (rw on refl)
  | inr off ↦ elim (Bool-cases (leb 4 s.vga_gain_db)) [
    | inl vga ↦
        vga_goes off (rw (off, vga) (ground arith)) (rw (off, vga) refl) (rw (off, vga) refl)
    | inr low ↦ elim (Bool-cases (leb 8 s.lna_gain_db)) [
      | inl lna ↦
          lna_goes off (ground arith) (rw (off, low, lna) (ground arith)) (rw (off, low, lna) refl)
            (rw (off, low, lna) refl)
      | inr least ↦
          none_left off (ground arith) (ground arith)
            (rw (off, low, least) (record { lna = refl; vga = refl; amp = refl }))
    ]
  ]
]

overload-IsLowered :
    (s : Tuning) (l : Levels) → is_overloaded l ≡ true → IsLowered s (adjust_hackrf s l)
overload-IsLowered s l h =
    rw (adjust_overloaded s l h)
      (elim (reduce-IsLowered (record s { quiet_captures = 0; stable_captures = 0 })) [
        | amp_goes a b c d ↦ amp_goes a b c d
        | vga_goes a b c d ↦ vga_goes a b c d
        | lna_goes a b c d e ↦ lna_goes a b c d e
        | none_left a b c same ↦
            none_left a b c (record { lna = same.lna; vga = same.vga; amp = same.amp })
      ])

-- Every capture of a run lowers one stage.
abbrev pub AllLowered : Tuning → List Levels → Type 0
AllLowered s [] = Unit
AllLowered s (l ∷ ls) = IsLowered s (adjust_hackrf s l) × AllLowered (adjust_hackrf s l) ls

adjust_all-AllLowered : (ls : List Levels) (s : Tuning) → AllOverloaded ls → AllLowered s ls
adjust_all-AllLowered [] s all = tt
adjust_all-AllLowered (l ∷ ls) s all =
    (overload-IsLowered s l all.0, adjust_all-AllLowered ls (adjust_hackrf s l) all.1)

-- In a run of 21 or more overloaded captures, from gains that are settings of the hardware, each
-- capture takes off exactly one stage and raises none: an automatic amplifier that is on, else 4 dB of
-- VGA, else 8 dB of LNA, and nothing if none of these is left. The run ends with an automatic amplifier
-- off, VGA under 4 dB and LNA under 8 dB.
pub overload_takes_stages :
    (ls : List Levels) (s : Tuning)
    → IsSetting s
    → AllOverloaded ls
    → 21 ≤ length ls
    → let t = adjust_all s ls in
      AllLowered s ls
      × ((str_eq t.amp_mode "auto" && t.amp_enabled) ≡ false)
      × (t.vga_gain_db < 4)
      × (t.lna_gain_db < 8)
overload_takes_stages ls s h all len =
    let (amp, vga, lna) =
      stages_taken (adjust_all s ls) (omega (arith, adjust_all-stages ls s all, stages-le s h)) in
    (adjust_all-AllLowered ls s all, amp, vga, lna)

-- An overloaded capture raises no stage, and starts the count of quiet captures again.
pub overload-IsNoHigher :
    (s : Tuning) (l : Levels)
    → is_overloaded l ≡ true
    → IsNoHigher s (adjust_hackrf s l) × ((adjust_hackrf s l).quiet_captures ≡ 0)
overload-IsNoHigher s l h =
    let s0 : Tuning = record s { quiet_captures = 0; stable_captures = 0 } in
    let low = reduce-IsNoHigher s0 in
    rw (adjust_overloaded s l h)
      (record { lna = low.lna; vga = low.vga; amp = low.amp }, reduce-quiet s0)
  where
    reduce-quiet : (t : Tuning) → (reduce_stage t).quiet_captures ≡ t.quiet_captures
    reduce-quiet t = unfold reduce_stage in ground arith

-- A capture that is quiet and not overloaded.
abbrev pub IsQuiet : Tuning → Levels → Type 0
IsQuiet s l = (is_overloaded l ≡ false) × (is_quiet s l ≡ true)

-- Some stage is higher after than before.
abbrev pub IsRaised : Tuning → Tuning → Type 0
IsRaised before after = ¬ IsNoHigher before after

stage_quiet :
    (s : Tuning)
    → ((reduce_stage s).quiet_captures ≡ s.quiet_captures)
      × ((raise_stage s).quiet_captures ≡ s.quiet_captures)
unfolding reduce_stage raise_stage
stage_quiet s = (ground arith, ground arith)

raise_now :
    (s : Tuning) (l : Levels)
    → IsRaised s (adjust_hackrf s l)
    → IsQuiet s l × (1 ≤ s.quiet_captures)
unfolding adjust_hackrf
raise_now s l up = elim (Bool-cases (is_overloaded l)) [
  | inl over ↦ absurd (up (overload-IsNoHigher s l over).0)
  | inr clear ↦ elim (Bool-cases (ltb (count_capture s l).quiet_captures 2)) [
    | inl wait ↦
        let same = count_capture-IsSameGain s l in
        absurd (up (rw (clear, wait) (ground (arith, same))))
    | inr raise ↦ counted_twice s l clear raise
  ]
]
  where
    counted_twice :
        (t : Tuning) (m : Levels)
        → is_overloaded m ≡ false
        → ltb (count_capture t m).quiet_captures 2 ≡ false
        → IsQuiet t m × (1 ≤ t.quiet_captures)
    counted_twice t m clear raise = unfold count_capture in ground arith

counted-IsQuiet : (s : Tuning) (l : Levels) → 1 ≤ (adjust_hackrf s l).quiet_captures → IsQuiet s l
unfolding adjust_hackrf count_capture
counted-IsQuiet s l h = ground (
  arith,
  stage_quiet (record s { quiet_captures = 0; stable_captures = 0 }),
  stage_quiet (record s { quiet_captures = 0; stable_captures = 0 }),
)

adjust-sensitivity : (s : Tuning) (l : Levels) → (adjust_hackrf s l).sensitivity ≡ s.sensitivity
unfolding adjust_hackrf count_capture reduce_stage raise_stage
adjust-sensitivity s l = ground arith

quiet_by_sensitivity :
    (s t : Tuning) (l : Levels) → s.sensitivity ≡ t.sensitivity → is_quiet s l ≡ is_quiet t l
unfolding is_quiet
quiet_by_sensitivity s t l e = rw e

-- From any state, a capture raises a stage only if it and the capture before it were both quiet and
-- neither was overloaded.
pub raise_needs_two-IsQuiet :
    (s : Tuning) (first second : Levels)
    → IsRaised (adjust_hackrf s first) (adjust_hackrf (adjust_hackrf s first) second)
    → IsQuiet s first × IsQuiet s second
raise_needs_two-IsQuiet s first second up =
    let t = adjust_hackrf s first in
    let (now, counted) = raise_now t second up in
    let same = quiet_by_sensitivity t s second (adjust-sensitivity s first) in
    (counted-IsQuiet s first counted, (now.0, sym same ∙ now.1))
