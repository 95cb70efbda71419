-- ===== src/Tuning/Rtl/Gain.antt =====
-- How captures move the gain of an RTL-SDR (server/internal/app/mapper_tuning.go, `adjustRTL`).
use gp_sdr.Prelude.{
  ℕ, zero, suc, ◌-◌, ◌≤◌, ◌<◌, ◌≡◌, refl, ◌⊎◌, inl, inr, true, false, List, [], ◌∷◌, arith, length,
  Bool-cases, none, some, leb, ltb, subst, ◌∙◌, false,
}
use native.Mathlib.Decide.{dec_lt}
use gp_sdr.Tuning.State.{Levels, Tuning, rtl_stable, is_quiet, count_capture}
use gp_sdr.Tuning.Rtl.{
  step_at, last_index, is_overloaded, lower_step, higher_step, reduce_rtl, raise_rtl, adjust_rtl,
}

-- A gain is one of the eight automatic steps.
abbrev pub IsStep : ℕ → Type 0
IsStep gain = (index : ℕ) × (index ≤ 7) × (gain ≡ step_at index)

-- A gain is under the step after `index`, by the tolerance that the code allows.
abbrev pub Below : ℕ → ℕ → Type 0
Below index gain = (7 ≤ index) ⊎ (gain < step_at (suc index) - 1)

reduce-Below :
    (s : Tuning) (index : ℕ)
    → Below (suc index) s.rtl_gain_db
    → Below index (reduce_rtl s).rtl_gain_db
unfolding reduce_rtl lower_step
reduce-Below s zero h = ground arith
reduce-Below s (suc zero) h = ground arith
reduce-Below s (suc (suc zero)) h = ground arith
reduce-Below s (suc (suc (suc zero))) h = ground arith
reduce-Below s (suc (suc (suc (suc zero)))) h = ground arith
reduce-Below s (suc (suc (suc (suc (suc zero))))) h = ground arith
reduce-Below s (suc (suc (suc (suc (suc (suc zero)))))) h = ground arith
reduce-Below s (suc (suc (suc (suc (suc (suc (suc n))))))) h = inl (omega arith)

lower_step-cases :
    (gain k : ℕ)
    → (lower_step gain k ≡ none)
      ⊎ ((index : ℕ) × (index < k) × (lower_step gain k ≡ some (step_at index)))
unfolding lower_step
lower_step-cases gain zero = inl refl
lower_step-cases gain (suc k) = elim (Bool-cases (leb (step_at (suc k) - 1) gain)) [
  | inl reached ↦ inr (k, omega arith, rw reached)
  | inr under ↦ elim (lower_step-cases gain k) [
    | inl e ↦ inl (rw under e)
    | inr (index, h, e) ↦ inr (index, omega arith, rw under e)
  ]
]

reduce-IsStep : (s : Tuning) → IsStep (reduce_rtl s).rtl_gain_db
unfolding reduce_rtl
reduce-IsStep s = elim (lower_step-cases s.rtl_gain_db last_index) [
  | inl e ↦ rw (reduce_rtl, e) (0, omega arith, refl)
  | inr (index, h, e) ↦ rw (reduce_rtl, e) (index, omega arith, refl)
]

-- From one step an overload goes to the step below it, and a raise to the step above it.
reduce_at :
    (s : Tuning) (index : ℕ)
    → index ≤ 6
    → s.rtl_gain_db ≡ step_at (suc index)
    → (reduce_rtl s).rtl_gain_db ≡ step_at index
unfolding reduce_rtl lower_step
reduce_at s zero h e = ground arith
reduce_at s (suc zero) h e = ground arith
reduce_at s (suc (suc zero)) h e = ground arith
reduce_at s (suc (suc (suc zero))) h e = ground arith
reduce_at s (suc (suc (suc (suc zero)))) h e = ground arith
reduce_at s (suc (suc (suc (suc (suc zero))))) h e = ground arith
reduce_at s (suc (suc (suc (suc (suc (suc zero)))))) h e = ground arith
reduce_at s (suc (suc (suc (suc (suc (suc (suc n))))))) h e = absurd (omega arith)

raise_at :
    (s : Tuning) (index : ℕ)
    → index ≤ 6
    → s.rtl_gain_db ≡ step_at index
    → (raise_rtl s).rtl_gain_db ≡ step_at (suc index)
unfolding raise_rtl higher_step
raise_at s zero h e = ground arith
raise_at s (suc zero) h e = ground arith
raise_at s (suc (suc zero)) h e = ground arith
raise_at s (suc (suc (suc zero))) h e = ground arith
raise_at s (suc (suc (suc (suc zero)))) h e = ground arith
raise_at s (suc (suc (suc (suc (suc zero))))) h e = ground arith
raise_at s (suc (suc (suc (suc (suc (suc zero)))))) h e = ground arith
raise_at s (suc (suc (suc (suc (suc (suc (suc n))))))) h e = absurd (omega arith)

raise_top : (s : Tuning) → s.rtl_gain_db ≡ step_at 7 → (raise_rtl s).rtl_gain_db ≡ step_at 7
unfolding raise_rtl higher_step
raise_top s e = ground arith

raise-IsStep : (s : Tuning) → IsStep s.rtl_gain_db → IsStep (raise_rtl s).rtl_gain_db
raise-IsStep s (index, h, e) = elim (dec_lt index 7) [
  | yes below ↦ (suc index, below, raise_at s index (omega arith) e)
  | no top ↦
      let last : index ≡ 7 = omega arith in
      (7, omega arith, raise_top s (subst (λ n. s.rtl_gain_db ≡ step_at n) last e))
]

adjust_overloaded :
    (s : Tuning) (l : Levels) → is_overloaded l ≡ true → adjust_rtl s l ≡ reduce_rtl s
unfolding adjust_rtl
adjust_overloaded s l h = rw h

count_capture-gain : (s : Tuning) (l : Levels) → (count_capture s l).rtl_gain_db ≡ s.rtl_gain_db
unfolding count_capture
count_capture-gain s l = ground arith

-- Adaptation keeps the gain on the automatic steps, between 1.5 and 42 dB.
pub adjust_rtl-IsStep :
    (s : Tuning) (l : Levels) → IsStep s.rtl_gain_db → IsStep (adjust_rtl s l).rtl_gain_db
unfolding adjust_rtl
adjust_rtl-IsStep s l h = elim (Bool-cases (is_overloaded l)) [
  | inl over ↦ rw over (reduce-IsStep s)
  | inr clear ↦
      let counted = count_capture s l in
      let (index, small, e) = h in
      let kept : IsStep counted.rtl_gain_db = (index, small, count_capture-gain s l ∙ e) in
      elim (Bool-cases (ltb counted.quiet_captures 2)) [
        | inl wait ↦ rw (clear, wait) kept
        | inr raise ↦ rw (clear, raise) (raise-IsStep (record counted { quiet_captures = 0 }) kept)
      ]
]

lowest_step : (index : ℕ) → index ≤ 7 → Below 0 (step_at index) → step_at index ≡ step_at 0
lowest_step zero h under = refl
lowest_step (suc zero) h under = absurd (ground arith)
lowest_step (suc (suc zero)) h under = absurd (ground arith)
lowest_step (suc (suc (suc zero))) h under = absurd (ground arith)
lowest_step (suc (suc (suc (suc zero)))) h under = absurd (ground arith)
lowest_step (suc (suc (suc (suc (suc zero))))) h under = absurd (ground arith)
lowest_step (suc (suc (suc (suc (suc (suc zero)))))) h under = absurd (ground arith)
lowest_step (suc (suc (suc (suc (suc (suc (suc zero))))))) h under = absurd (ground arith)
lowest_step (suc (suc (suc (suc (suc (suc (suc (suc n)))))))) h under = absurd (omega arith)

-- A run of captures.
pub adjust_all : Tuning → List Levels → Tuning
adjust_all s [] = s
adjust_all s (l ∷ ls) = adjust_all (adjust_rtl s l) ls

abbrev pub AllOverloaded : List Levels → Type 0
AllOverloaded [] = Unit
AllOverloaded (l ∷ ls) = (is_overloaded l ≡ true) × AllOverloaded ls

adjust_all-minimum :
    (ls : List Levels) (s : Tuning) (index : ℕ)
    → AllOverloaded ls
    → Below index s.rtl_gain_db
    → IsStep s.rtl_gain_db
    → index ≤ length ls
    → (adjust_all s ls).rtl_gain_db ≡ step_at 0
unfolding adjust_all
adjust_all-minimum [] s zero all under (i, h, e) len =
    e ∙ lowest_step i h (subst (λ g. Below 0 g) e under)
adjust_all-minimum [] s (suc index) all under step len = absurd (omega arith)
adjust_all-minimum (l ∷ ls) s zero all under step len =
    rw (adjust_all, adjust_overloaded s l all.0)
      (adjust_all-minimum ls (reduce_rtl s) zero all.1 (reduce-Below s zero (ground arith))
        (reduce-IsStep s) (omega arith))
adjust_all-minimum (l ∷ ls) s (suc index) all under step len =
    rw (adjust_all, adjust_overloaded s l all.0)
      (adjust_all-minimum ls (reduce_rtl s) index all.1 (reduce-Below s index under)
        (reduce-IsStep s) (omega arith))

-- Whatever the gain is, seven overloaded captures in a row bring it to the lowest step, and it
-- stays there under more of them.
pub overload-minimum :
    (ls : List Levels) (s : Tuning)
    → AllOverloaded ls
    → 7 ≤ length ls
    → (adjust_all s ls).rtl_gain_db ≡ 150
unfolding adjust_all
overload-minimum [] s all len = absurd (omega arith)
overload-minimum (l ∷ ls) s all len =
    rw (adjust_all, adjust_overloaded s l all.0)
      (adjust_all-minimum ls (reduce_rtl s) 6 all.1 (reduce-Below s 6 (inl (omega arith)))
        (reduce-IsStep s) (omega arith))

-- From the automatic steps, one overloaded capture goes down by exactly one step.
pub overload_one_step :
    (s : Tuning) (l : Levels) (index : ℕ)
    → index ≤ 6
    → s.rtl_gain_db ≡ step_at (suc index)
    → is_overloaded l ≡ true
    → (adjust_rtl s l).rtl_gain_db ≡ step_at index
overload_one_step s l index h e over = rw (adjust_overloaded s l over) (reduce_at s index h e)

raised :
    (s : Tuning) (l : Levels)
    → is_overloaded l ≡ false
    → is_quiet s l ≡ true
    → s.quiet_captures ≡ 1
    → adjust_rtl s l ≡ raise_rtl (record s { quiet_captures = 0; stable_captures = 0 })
unfolding adjust_rtl count_capture
raised s l clear quiet e = rw (clear, quiet, e)

waits :
    (s : Tuning) (l : Levels)
    → is_overloaded l ≡ false
    → is_quiet s l ≡ true
    → s.quiet_captures ≡ 0
    → adjust_rtl s l
      ≡ record s { quiet_captures = 1; stable_captures = 0; last_decision = rtl_stable }
unfolding adjust_rtl count_capture
waits s l clear quiet e = rw (clear, quiet, e)

reduce_keeps :
    (s : Tuning)
    → ((reduce_rtl s).quiet_captures ≡ s.quiet_captures)
      × ((reduce_rtl s).sensitivity ≡ s.sensitivity)
unfolding reduce_rtl
reduce_keeps s = (ground arith, ground arith)

quiet_by_sensitivity :
    (s t : Tuning) (l : Levels) → s.sensitivity ≡ t.sensitivity → is_quiet s l ≡ is_quiet t l
unfolding is_quiet
quiet_by_sensitivity s t l e = rw e

-- A capture that is quiet and not overloaded.
abbrev pub IsQuiet : Tuning → Levels → Type 0
IsQuiet s l = (is_overloaded l ≡ false) × (is_quiet s l ≡ true)

-- With no quiet capture counted, two in a row raise the gain by one step, and one does not.
pub quiet_twice_raises :
    (s : Tuning) (first second : Levels) (index : ℕ)
    → s.quiet_captures ≡ 0
    → index ≤ 6
    → s.rtl_gain_db ≡ step_at index
    → IsQuiet s first
    → IsQuiet s second
    → ((adjust_rtl s first).rtl_gain_db ≡ step_at index)
      × ((adjust_rtl (adjust_rtl s first) second).rtl_gain_db ≡ step_at (suc index))
quiet_twice_raises s first second index none_yet h e q1 q2 =
    let wait = waits s first q1.0 q1.1 none_yet in
    let s1 : Tuning = record s {
      quiet_captures = 1;
      stable_captures = 0;
      last_decision = rtl_stable;
    } in
    let again = quiet_by_sensitivity s1 s second refl ∙ q2.1 in
    (
      rw wait e,
      rw (wait, raised s1 second q2.0 again refl)
          (raise_at (record s1 { quiet_captures = 0; stable_captures = 0 }) index h e),
    )

-- From a count of quiet captures of zero and a gain on a step of the table above the lowest, a quiet
-- capture and an overload take the gain one step down, and one more quiet capture brings it back to
-- the gain that had been overloaded. The two quiet captures are not overloaded.
pub overload_undone :
    (s : Tuning) (first over second : Levels) (index : ℕ)
    → s.quiet_captures ≡ 0
    → index ≤ 6
    → s.rtl_gain_db ≡ step_at (suc index)
    → IsQuiet s first
    → is_overloaded over ≡ true
    → IsQuiet s second
    → ((adjust_all s (first ∷ over ∷ [])).rtl_gain_db ≡ step_at index)
      × ((adjust_all s (first ∷ over ∷ second ∷ [])).rtl_gain_db ≡ step_at (suc index))
unfolding adjust_all
overload_undone s first over second index none_yet h e q1 o q2 =
    let wait = waits s first q1.0 q1.1 none_yet in
    let s1 : Tuning = record s {
      quiet_captures = 1;
      stable_captures = 0;
      last_decision = rtl_stable;
    } in
    let s2 : Tuning = reduce_rtl s1 in
    let lowered = reduce_at s1 index h e in
    let (count, same) = reduce_keeps s1 in
    let again = quiet_by_sensitivity s2 s second same ∙ q2.1 in
    (
      rw (adjust_all, wait, adjust_overloaded s1 over o) lowered,
      rw (adjust_all, wait, adjust_overloaded s1 over o, raised s2 second q2.0 again count)
          (raise_at (record s2 { quiet_captures = 0; stable_captures = 0 }) index h lowered),
    )
