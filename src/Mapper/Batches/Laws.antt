-- ===== src/Mapper/Batches/Laws.antt =====
-- The batches of a Mapper job's targets (server/internal/app/live_survey.go, lines 201-229).
use mathlib.Core.List.{Perm}
use gp_sdr.Prelude.{
  ℕ, zero, suc, ◌≤◌, ◌≡◌, ◌↔◌, refl, sym, subst, ap, ◌∙◌, ◌⊎◌, inl, inr, true, false, ◌&&◌,
  Bool-cases, List, [], ◌∷◌, ◌++◌, append_assoc, arith, ltb, length, length-append,
}
use gp_sdr.Mapper.Config.{MapperConfig}
use gp_sdr.Mapper.Batches.{
  SurveyTarget, SurveyTargetBatch, Receiver, channel_limit, fits, grow_group, batch_of,
  mapper_batch_sample_rate, make_batches, sort_targets, mapper_job_target_batches,
}
use gp_sdr.Mapper.Batches.Window.{IsHeld, window_iff}
use gp_sdr.Mapper.Batches.Sorted.{sort_targets-Perm, IsSorted, sort_targets-IsSorted}

-- The targets of the batches, one batch after the other.
abbrev pub all_targets : List SurveyTargetBatch → List SurveyTarget
all_targets [] = []
all_targets (b ∷ bs) = b.batch_targets ++ all_targets bs

head_eq : {t u : SurveyTarget} {ts us : List SurveyTarget} → t ∷ ts ≡ u ∷ us → t ≡ u
head_eq {t} e = ap (λ l. elim l [ [] ↦ t | x ∷ xs ↦ x ]) e

module _ (device : Receiver) (config : MapperConfig) where
  -- What `grow_group` makes of a group and the targets behind it.
  record IsGrown (group targets : List SurveyTarget) (r : List SurveyTarget × List SurveyTarget)
      : Type 0 where
    joined : r.0 ++ r.1 ≡ group ++ targets
    bounded : (length r.0 ≤ channel_limit config) ⊎ (r.0 ≡ group)
    fitting : (fits device config r.0 ≡ true) ⊎ (r.0 ≡ group)
    longer : length group ≤ length r.0
    shorter : length r.1 ≤ length targets
    full :
        (t : SurveyTarget) (rest : List SurveyTarget)
        → r.1 ≡ t ∷ rest
        → (ltb (length r.0) (channel_limit config) && fits device config (r.0 ++ t ∷ [])) ≡ false

  grow_group-IsGrown :
      (group targets : List SurveyTarget)
      → IsGrown group targets (grow_group device config group targets)
  unfolding grow_group
  grow_group-IsGrown group [] = record {
    joined = refl;
    bounded = inr refl;
    fitting = inr refl;
    longer = omega arith;
    shorter = omega arith;
    full = λ t rest e. absurd (ground (arith, e));
  }
  grow_group-IsGrown group (t ∷ targets) =
      elim (Bool-cases
        (ltb (length group) (channel_limit config) && fits device config (group ++ t ∷ []))) [
          | inr stop ↦ rw stop (record {
            joined = refl;
            bounded = inr refl;
            fitting = inr refl;
            longer = omega arith;
            shorter = omega arith;
            full = λ u rest e.
                ap
                  (λ v.
                    ltb (length group) (channel_limit config)
                    && fits device config (group ++ v ∷ []))
                  (sym (head_eq e))
                ∙ stop;
          })
          | inl go ↦
              let ih = grow_group-IsGrown (group ++ t ∷ []) targets in
              rw go (record {
                joined = ih.joined ∙ append_assoc group (t ∷ []) targets;
                bounded = elim (ih.bounded) [
                  | inl within ↦ inl within
                  | inr same ↦
                      inl (ground (arith, go, length-append group (t ∷ []), ap length same))
                ];
                fitting = elim (ih.fitting) [
                  | inl fit ↦ inl fit
                  | inr same ↦ inl (ap (fits device config) same ∙ ground (arith, go))
                ];
                longer = omega (arith, ih.longer, length-append group (t ∷ []));
                shorter = omega (arith, ih.shorter);
                full = ih.full;
              })
        ]

  channel_limit_positive : 1 ≤ channel_limit config
  unfolding channel_limit
  channel_limit_positive = ground arith

  -- Enough fuel: the batches hold all the targets.
  all_targets-make_batches :
      (fuel : ℕ) (targets : List SurveyTarget)
      → length targets ≤ fuel
      → all_targets (make_batches device config fuel targets) ≡ targets
  unfolding make_batches
  all_targets-make_batches zero [] h = refl
  all_targets-make_batches zero (t ∷ ts) h = absurd (omega (arith, h))
  all_targets-make_batches (suc fuel) [] h = refl
  all_targets-make_batches (suc fuel) (t ∷ ts) h =
      let grown = grow_group-IsGrown (t ∷ []) ts in
      let r = grow_group device config (t ∷ []) ts in
      ap (λ l. r.0 ++ l) (all_targets-make_batches fuel r.1 (omega (arith, h, grown.shorter)))
      ∙ grown.joined

  fits_iff :
      (ts : List SurveyTarget)
      → 1 ≤ length ts
      → (fits device config ts ≡ true) ↔ IsHeld ts (mapper_batch_sample_rate device config ts)
  fits_iff [] h = absurd (omega (arith, h))
  fits_iff (t ∷ ts) h = window_iff t ts (mapper_batch_sample_rate device config (t ∷ ts))

  -- A batch has 1 to `channel_limit` targets, and where it has two or more, one capture at its rate
  -- holds them all.
  pub record IsBatch (b : SurveyTargetBatch) : Type 0 where
    filled : 1 ≤ length b.batch_targets
    limited : length b.batch_targets ≤ channel_limit config
    rated : b ≡ batch_of device config b.batch_targets
    fitted : 2 ≤ length b.batch_targets → IsHeld b.batch_targets b.batch_rate

  -- The target behind a batch would make it too long, or too wide for a capture.
  abbrev pub IsFull : List SurveyTarget → List SurveyTarget → Type 0
  IsFull group [] = Unit
  IsFull group (t ∷ targets) =
      (channel_limit config ≤ length group)
      ⊎ ¬ IsHeld (group ++ t ∷ []) (mapper_batch_sample_rate device config (group ++ t ∷ []))

  abbrev pub AreBatches : List SurveyTargetBatch → Type 0
  AreBatches [] = Unit
  AreBatches (b ∷ bs) = IsBatch b × IsFull b.batch_targets (all_targets bs) × AreBatches bs

  IsFull-cases :
      (group targets : List SurveyTarget)
      → ((t : SurveyTarget) (rest : List SurveyTarget)
          → targets ≡ t ∷ rest
          → (ltb (length group) (channel_limit config) && fits device config (group ++ t ∷ []))
            ≡ false)
      → IsFull group targets
  IsFull-cases group [] h = tt
  IsFull-cases group (t ∷ targets) h = elim (Bool-cases (fits device config (group ++ t ∷ []))) [
    | inr wide ↦ inr (λ held.
        let one : 1 ≤ length (group ++ t ∷ []) = omega (arith, length-append group (t ∷ [])) in
        let fit = (fits_iff (group ++ t ∷ []) one).1 held in cc)
    | inl fit ↦ inl (ground (arith, h t targets refl, fit))
  ]

  grown-IsBatch :
      (t : SurveyTarget) (targets : List SurveyTarget) (r : List SurveyTarget × List SurveyTarget)
      → IsGrown (t ∷ []) targets r
      → IsBatch (batch_of device config r.0)
  grown-IsBatch t targets r h = record {
    filled = h.longer;
    limited = elim (h.bounded) [
      | inl within ↦ within
      | inr same ↦ omega (arith, ap length same, channel_limit_positive)
    ];
    rated = refl;
    fitted = λ two. elim (h.fitting) [
      | inl fit ↦ (fits_iff r.0 (omega (arith, two))).0 fit
      | inr same ↦ absurd (omega (arith, ap length same, two))
    ];
  }

  make_batches-AreBatches :
      (fuel : ℕ) (targets : List SurveyTarget)
      → length targets ≤ fuel
      → AreBatches (make_batches device config fuel targets)
  unfolding make_batches
  make_batches-AreBatches zero targets h = tt
  make_batches-AreBatches (suc fuel) [] h = tt
  make_batches-AreBatches (suc fuel) (t ∷ ts) h =
      let grown = grow_group-IsGrown (t ∷ []) ts in
      let r = grow_group device config (t ∷ []) ts in
      let enough : length r.1 ≤ fuel = omega (arith, h, grown.shorter) in
      (
        grown-IsBatch t ts r grown,
        subst (IsFull r.0) (sym (all_targets-make_batches fuel r.1 enough))
            (IsFull-cases r.0 r.1 grown.full),
        make_batches-AreBatches fuel r.1 enough,
      )

  -- The batches hold every target once, in ascending order of frequency, so the loop takes no more
  -- rounds than there are targets.
  pub all_targets-mapper_job_target_batches :
      (targets : List SurveyTarget)
      → let ts = all_targets (mapper_job_target_batches device config targets) in
        Perm ts targets × IsSorted ts
  unfolding mapper_job_target_batches
  all_targets-mapper_job_target_batches targets =
      let same =
        all_targets-make_batches (length (sort_targets targets)) (sort_targets targets)
          (omega arith) in
      (
        subst (λ ts. Perm ts targets) (sym same) (sort_targets-Perm targets),
        subst IsSorted (sym same) (sort_targets-IsSorted targets),
      )

  -- Each batch has 1 to `channel_limit` targets; if it has two or more, one capture at the
  -- batch's rate holds them all: with two channel widths, of 12.5 kHz at least, on each side of every
  -- target, no two of them span more than 84 % of the rate. The target that comes next would exceed
  -- the limit or a capture at the rate of the longer list.
  pub mapper_job_target_batches-AreBatches :
      (targets : List SurveyTarget) → AreBatches (mapper_job_target_batches device config targets)
  unfolding mapper_job_target_batches
  mapper_job_target_batches-AreBatches targets =
      make_batches-AreBatches (length (sort_targets targets)) (sort_targets targets) (omega arith)
