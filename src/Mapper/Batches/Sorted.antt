-- ===== src/Mapper/Batches/Sorted.antt =====
-- Sorting the targets of a Mapper job (server/internal/app/live_survey.go, line 207).
use mathlib.Core.List.{Perm}
use mathlib.Core.List.Perm
use gp_sdr.Prelude.{Bool-cases, inl, inr, List, [], ◌∷◌, arith}
use gp_sdr.Prelude.Int.{ltb_ℤ, ◌≤ℤ◌, ltb_ℤ-false→le}
use gp_sdr.Mapper.Batches.{SurveyTarget, insert_target, sort_targets}

insert_target-Perm :
    (t : SurveyTarget) (ts : List SurveyTarget) → Perm (insert_target t ts) (t ∷ ts)
unfolding insert_target
insert_target-Perm t [] = Perm.rfl
insert_target-Perm t (u ∷ ts) = elim (Bool-cases (ltb_ℤ u.target_frequency t.target_frequency)) [
  | inl below ↦ rw below (Perm.trans (Perm.cons u (insert_target-Perm t ts)) (Perm.swap t u ts))
  | inr above ↦ rw above Perm.rfl
]

pub sort_targets-Perm : (ts : List SurveyTarget) → Perm (sort_targets ts) ts
unfolding sort_targets
sort_targets-Perm [] = Perm.rfl
sort_targets-Perm (t ∷ ts) =
    Perm.trans (insert_target-Perm t (sort_targets ts)) (Perm.cons t (sort_targets-Perm ts))

-- The first target is not above `t`.
abbrev pub IsAbove : SurveyTarget → List SurveyTarget → Type 0
IsAbove t [] = Unit
IsAbove t (u ∷ ts) = t.target_frequency ≤ℤ u.target_frequency

-- The frequencies ascend.
abbrev pub IsSorted : List SurveyTarget → Type 0
IsSorted [] = Unit
IsSorted (t ∷ ts) = IsAbove t ts × IsSorted ts

insert_target-IsAbove :
    (u t : SurveyTarget) (ts : List SurveyTarget)
    → u.target_frequency ≤ℤ t.target_frequency
    → IsAbove u ts
    → IsAbove u (insert_target t ts)
unfolding insert_target
insert_target-IsAbove u t [] h k = h
insert_target-IsAbove u t (v ∷ ts) h k =
    elim (Bool-cases (ltb_ℤ v.target_frequency t.target_frequency)) [
      | inl below ↦ rw below k
      | inr above ↦ rw above h
    ]

insert_target-IsSorted :
    (t : SurveyTarget) (ts : List SurveyTarget) → IsSorted ts → IsSorted (insert_target t ts)
unfolding insert_target
insert_target-IsSorted t [] h = (tt, tt)
insert_target-IsSorted t (u ∷ ts) h =
    elim (Bool-cases (ltb_ℤ u.target_frequency t.target_frequency)) [
      | inl below ↦ rw below (
        insert_target-IsAbove u t ts (ground (arith, below)) h.0,
        insert_target-IsSorted t ts h.1,
      )
      | inr above ↦ rw above (ltb_ℤ-false→le u.target_frequency t.target_frequency above, h)
    ]

pub sort_targets-IsSorted : (ts : List SurveyTarget) → IsSorted (sort_targets ts)
unfolding sort_targets
sort_targets-IsSorted [] = tt
sort_targets-IsSorted (t ∷ ts) =
    insert_target-IsSorted t (sort_targets ts) (sort_targets-IsSorted ts)
