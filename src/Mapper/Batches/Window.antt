-- ===== src/Mapper/Batches/Window.antt =====
-- Which targets one capture holds (server/internal/app/live_survey.go, lines 190-203), stated of the
-- targets one by one.
use gp_sdr.Prelude.{
  ℕ, ◌+◌, ◌*◌, ◌≤◌, ◌<◌, ◌≡◌, ◌↔◌, inl, inr, true, Bool-cases, List, [], ◌∷◌, arith, ltb,
  if◌then◌else◌,
}
use gp_sdr.Prelude.Int.{ℤ, pos, negsuc, pos_part, neg_part, sub_ℕ, ◌+ℤ◌, ◌-ℤ◌, ◌≤ℤ◌, ltb_ℤ}
use gp_sdr.Mapper.Batches.{
  SurveyTarget, minimum_ℤ, maximum_ℤ, margin_of, lowest, highest, mapper_targets_fit_sample_window,
}

-- What a capture has on each side of a target: two channel widths, of 12.5 kHz at least.
abbrev pub guard_band : SurveyTarget → ℕ
guard_band t =
    2 * (if ltb 12500000 (pos_part t.target_width) then pos_part t.target_width else 12500000)

-- From the lower edge of `u` to the upper edge of `t` are at most 84 % of the rate.
abbrev pub IsNear : ℕ → SurveyTarget → SurveyTarget → Type 0
IsNear rate t u =
    100 * (pos_part t.target_frequency + guard_band t + neg_part u.target_frequency + guard_band u)
    ≤ 84000 * rate + 100 * (neg_part t.target_frequency + pos_part u.target_frequency)

abbrev pub AllTargets : (SurveyTarget → Type 0) → List SurveyTarget → Type 0
AllTargets P [] = Unit
AllTargets P (t ∷ ts) = P t × AllTargets P ts

-- A capture at the rate holds the targets: any two of them are near.
abbrev pub IsHeld : List SurveyTarget → ℤ → Type 0
IsHeld targets rate =
    (0 < pos_part rate)
    × AllTargets (λ t. AllTargets (λ u. IsNear (pos_part rate) t u) targets) targets

AllTargets-map :
    {P Q : SurveyTarget → Type 0} (ts : List SurveyTarget)
    → ((t : SurveyTarget) → P t → Q t)
    → AllTargets P ts
    → AllTargets Q ts
AllTargets-map [] f h = tt
AllTargets-map (t ∷ ts) f h = (f t h.0, AllTargets-map ts f h.1)

abbrev lower_edge : SurveyTarget → ℤ
lower_edge t = t.target_frequency -ℤ margin_of t

abbrev upper_edge : SurveyTarget → ℤ
upper_edge t = t.target_frequency +ℤ margin_of t

margin_of-guard_band : (t : SurveyTarget) → margin_of t ≡ pos (guard_band t)
unfolding ◌+ℤ◌
margin_of-guard_band t = ground arith

sub_parts : (a b : ℕ) → pos_part (sub_ℕ a b) + b ≡ neg_part (sub_ℕ a b) + a
sub_parts a b = ground arith

lower_edge_parts :
    (t : SurveyTarget)
    → pos_part (lower_edge t) + neg_part t.target_frequency + guard_band t
      ≡ neg_part (lower_edge t) + pos_part t.target_frequency
unfolding ◌-ℤ◌
lower_edge_parts t = rw (margin_of-guard_band t) (
    omega (
      arith,
      sub_parts (pos_part t.target_frequency + 0) (neg_part t.target_frequency + guard_band t),
    ))

upper_edge_parts :
    (t : SurveyTarget)
    → pos_part (upper_edge t) + neg_part t.target_frequency
      ≡ neg_part (upper_edge t) + pos_part t.target_frequency + guard_band t
unfolding ◌+ℤ◌
upper_edge_parts t = rw (margin_of-guard_band t) (
    omega (
      arith,
      sub_parts (pos_part t.target_frequency + guard_band t) (neg_part t.target_frequency + 0),
    ))

abbrev Spans : ℕ → ℤ → ℤ → Type 0
Spans rate low high =
    100 * (pos_part high + neg_part low) ≤ 84000 * rate + 100 * (pos_part low + neg_part high)

IsNear-edges :
    (rate : ℕ) (t u : SurveyTarget) → IsNear rate t u ↔ Spans rate (lower_edge u) (upper_edge t)
IsNear-edges rate t u = (
  λ h. omega (arith, h, lower_edge_parts u, upper_edge_parts t),
  λ h. omega (arith, h, lower_edge_parts u, upper_edge_parts t),
)

minimum-elim : (P : ℤ → Type 0) (a b : ℤ) → P a → P b → P (minimum_ℤ a b)
minimum-elim P a b p q = elim (Bool-cases (ltb_ℤ b a)) [ inl c ↦ rw c q | inr c ↦ rw c p ]

maximum-elim : (P : ℤ → Type 0) (a b : ℤ) → P a → P b → P (maximum_ℤ a b)
maximum-elim P a b p q = elim (Bool-cases (ltb_ℤ a b)) [ inl c ↦ rw c q | inr c ↦ rw c p ]

lowest-elim :
    (P : ℤ → Type 0) (low : ℤ) (ts : List SurveyTarget)
    → P low
    → AllTargets (λ t. P (lower_edge t)) ts
    → P (lowest low ts)
unfolding lowest
lowest-elim P low [] p h = p
lowest-elim P low (t ∷ ts) p h =
    lowest-elim P (minimum_ℤ low (lower_edge t)) ts (minimum-elim P low (lower_edge t) p h.0) h.1

highest-elim :
    (P : ℤ → Type 0) (high : ℤ) (ts : List SurveyTarget)
    → P high
    → AllTargets (λ t. P (upper_edge t)) ts
    → P (highest high ts)
unfolding highest
highest-elim P high [] p h = p
highest-elim P high (t ∷ ts) p h =
    highest-elim P (maximum_ℤ high (upper_edge t)) ts (maximum-elim P high (upper_edge t) p h.0) h.1

minimum_le : (a b : ℤ) → (minimum_ℤ a b ≤ℤ a) × (minimum_ℤ a b ≤ℤ b)
minimum_le a b = ground arith

le_maximum : (a b : ℤ) → (a ≤ℤ maximum_ℤ a b) × (b ≤ℤ maximum_ℤ a b)
le_maximum a b = ground arith

le_trans : (a b c : ℤ) → a ≤ℤ b → b ≤ℤ c → a ≤ℤ c
le_trans a b c h k = omega arith

lowest_le :
    (low : ℤ) (ts : List SurveyTarget)
    → (lowest low ts ≤ℤ low) × AllTargets (λ t. lowest low ts ≤ℤ lower_edge t) ts
unfolding lowest
lowest_le low [] = (omega arith, tt)
lowest_le low (t ∷ ts) =
    let (here, there) = lowest_le (minimum_ℤ low (lower_edge t)) ts in
    let (old, new) = minimum_le low (lower_edge t) in
    (
      le_trans (lowest (minimum_ℤ low (lower_edge t)) ts) (minimum_ℤ low (lower_edge t)) low here
          old,
      (
        le_trans (lowest (minimum_ℤ low (lower_edge t)) ts) (minimum_ℤ low (lower_edge t))
            (lower_edge t) here new,
        there,
      ),
    )

le_highest :
    (high : ℤ) (ts : List SurveyTarget)
    → (high ≤ℤ highest high ts) × AllTargets (λ t. upper_edge t ≤ℤ highest high ts) ts
unfolding highest
le_highest high [] = (omega arith, tt)
le_highest high (t ∷ ts) =
    let (here, there) = le_highest (maximum_ℤ high (upper_edge t)) ts in
    let (old, new) = le_maximum high (upper_edge t) in
    (
      le_trans high (maximum_ℤ high (upper_edge t)) (highest (maximum_ℤ high (upper_edge t)) ts) old
          here,
      (
        le_trans (upper_edge t) (maximum_ℤ high (upper_edge t))
            (highest (maximum_ℤ high (upper_edge t)) ts) new here,
        there,
      ),
    )

Spans-between :
    (rate : ℕ) (low low' high high' : ℤ)
    → low ≤ℤ low'
    → high' ≤ℤ high
    → Spans rate low high
    → Spans rate low' high'
Spans-between rate low low' high high' h k s = omega arith

-- The test of the window says whether the capture holds the targets.
pub window_iff :
    (t : SurveyTarget) (ts : List SurveyTarget) (rate : ℤ)
    → (mapper_targets_fit_sample_window (t ∷ ts) rate ≡ true) ↔ IsHeld (t ∷ ts) rate
unfolding mapper_targets_fit_sample_window
window_iff t ts (negsuc n) = (λ h. absurd (ground (arith, h)), λ h. absurd (omega (arith, h.0)))
window_iff t ts (pos rate) =
    let all = t ∷ ts in
    let low = lowest (lower_edge t) ts in
    let high = highest (upper_edge t) ts in
    let lows : AllTargets (λ u. low ≤ℤ lower_edge u) all = lowest_le (lower_edge t) ts in
    let highs : AllTargets (λ u. upper_edge u ≤ℤ high) all = le_highest (upper_edge t) ts in
    (
      λ h.
          let spans : Spans rate low high = ground (arith, h) in
          (
            ground (arith, h),
            AllTargets-map all
                (λ v top.
                  AllTargets-map all
                    (λ u bottom.
                      (IsNear-edges rate v u).1 (
                        Spans-between rate low (lower_edge u) high (upper_edge v) bottom top spans))
                    lows)
                highs,
          ),
      λ held.
          let tops : AllTargets (λ v. Spans rate low (upper_edge v)) all =
            AllTargets-map all
              (λ v near.
                let edges : AllTargets (λ u. Spans rate (lower_edge u) (upper_edge v)) all =
                  AllTargets-map all (λ u n. (IsNear-edges rate v u).0 n) near in
                lowest-elim (λ l. Spans rate l (upper_edge v)) (lower_edge t) ts edges.0 edges.1)
              held.1 in
          let spans : Spans rate low high =
            highest-elim (λ h. Spans rate low h) (upper_edge t) ts tops.0 tops.1 in
          ground (arith, spans, held.0),
    )
