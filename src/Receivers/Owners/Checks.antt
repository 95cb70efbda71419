-- ===== src/Receivers/Owners/Checks.antt =====
-- What the checks of server/internal/app/runtime.go, lines 202-235 and 768-825, find of the jobs that
-- hold a receiver.
use gp_sdr.Prelude.{
  ◌≡◌, ◌≢◌, refl, sym, subst, ap, ◌∙◌, ◌⊎◌, inl, inr, true, false, not, ◌&&◌, Bool-cases, none,
  some, List, [], ◌∷◌, arith,
}
use gp_sdr.Prelude.Text.{Text, codes_eq, codes_eq_iff}
use gp_sdr.Prelude.Maps.{Entries, lookup, some-injective, codes_eq-false}
use gp_sdr.Profiles.Profile.{DeviceAssignment}
use gp_sdr.Receivers.Plan.{
  PlanState, waiting, assigned_to, conflict, ReceiverPlanItem, connected_ids, is_in,
}
use gp_sdr.Receivers.Plan.Laws.{AreItemsOf}
use gp_sdr.Receivers.Owners.{
  Handle, ReceiverRuntime, has_text, is_assigned_to, any_item_uses, any_job_holds, Surroundings,
  any_live, any_owned, ready, unready, check_plan,
}

lookup_cases :
    {A : Type 0} (k key : Text) (a b : A) (entries : Entries A)
    → lookup key ((k, a) ∷ entries) ≡ some b
    → ((k ≡ key) × (a ≡ b)) ⊎ (lookup key entries ≡ some b)
unfolding lookup
lookup_cases k key a b entries h = elim (Bool-cases (codes_eq k key)) [
  | inl same ↦ inl ((codes_eq_iff k key).0 same, some-injective (sym (rw same refl) ∙ h))
  | inr other ↦ inr (sym (rw other refl) ∙ h)
]

pub any_job_holds-lookup :
    (device job : Text) (h : Handle) (jobs : Entries Handle)
    → lookup job jobs ≡ some h
    → h.handle_device ≡ device
    → any_job_holds device jobs ≡ true
unfolding any_job_holds lookup
any_job_holds-lookup device job h [] found e = absurd (ground (arith, found))
any_job_holds-lookup device job h ((k, a) ∷ jobs) found e =
    elim (lookup_cases k job a h jobs found) [
      | inl (same, f) ↦
          let own =
            (codes_eq_iff a.handle_device device).1 (ap (λ (x : Handle). x.handle_device) f ∙ e) in
          ground (arith, own)
      | inr old ↦ ground (arith, any_job_holds-lookup device job h jobs old e)
    ]

pub any_owned-lookup :
    (connected : List Text) (plan : List ReceiverPlanItem) (job : Text) (h : Handle)
    (jobs : Entries Handle)
    → any_owned connected jobs plan ≡ false
    → lookup job jobs ≡ some h
    → job ≢ []
    → is_in h.handle_device connected ≡ true
    → any_item_uses h.handle_device plan ≡ false
unfolding any_owned lookup
any_owned-lookup connected plan job h [] owned found n there = absurd (ground (arith, found))
any_owned-lookup connected plan job h ((k, a) ∷ jobs) owned found n there =
    elim (lookup_cases k job a h jobs found) [
      | inl (same, f) ↦
          let apart = codes_eq-false job [] n in
          let seen =
            subst
              (λ (x : Handle).
                (not (codes_eq job [])
                  && is_in x.handle_device connected
                  && any_item_uses x.handle_device plan)
                ≡ false)
              f
              (subst
                (λ j.
                  (not (codes_eq j [])
                    && is_in a.handle_device connected
                    && any_item_uses a.handle_device plan)
                  ≡ false)
                same (ground (arith, owned))) in
          ground (arith, seen, apart, there)
      | inr old ↦ any_owned-lookup connected plan job h jobs (ground (arith, owned)) old n there
    ]

assigned_state : (s : PlanState) → is_assigned_to s ≡ true → s ≡ assigned_to
assigned_state waiting h = absurd (ground (arith, h))
assigned_state assigned_to h = refl
assigned_state conflict h = absurd (ground (arith, h))

-- A receiver that the plan uses is one of those connected.
pub any_item_uses-connected :
    (device : Text) (connected : List Text) (assignments : List DeviceAssignment)
    (plan : List ReceiverPlanItem)
    → AreItemsOf connected assignments plan
    → any_item_uses device plan ≡ true
    → is_in device connected ≡ true
unfolding any_item_uses
any_item_uses-connected device connected [] [] h used = absurd (ground (arith, used))
any_item_uses-connected device connected [] (item ∷ plan) h used = absurd h
any_item_uses-connected device connected (a ∷ assignments) [] h used = absurd h
any_item_uses-connected device connected (a ∷ assignments) (item ∷ plan) h used =
    elim (Bool-cases (has_text device item.item_device && is_assigned_to item.item_state)) [
      | inr other ↦
          any_item_uses-connected device connected assignments plan h.1
            (ground (arith, used, other))
      | inl uses ↦
          let (id, e, there) = h.0.2 (assigned_state item.item_state (ground (arith, uses))) in
          let same =
            (codes_eq_iff id device).0 (ap (has_text device) (sym e) ∙ ground (arith, uses)) in
          ap (λ x. is_in x connected) (sym same) ∙ there
    ]

pub check_plan-ready :
    (around : Surroundings) (plan p : List ReceiverPlanItem) (r : ReceiverRuntime)
    → around.is_demo ≡ false
    → check_plan around plan r ≡ ready p
    → (plan ≡ p) × (any_owned (connected_ids r.sdr_devices) r.mapper_jobs plan ≡ false)
unfolding check_plan
check_plan-ready around plan p r d h =
    let connected = connected_ids r.sdr_devices in
    elim (Bool-cases (any_live connected plan)) [
      | inr dead ↦ absurd (ground (arith, rw (d, dead) at h))
      | inl live ↦ elim (Bool-cases (any_owned connected r.mapper_jobs plan)) [
        | inl owned ↦ absurd (ground (arith, rw (d, live, owned) at h))
        | inr free ↦ elim (Bool-cases (not around.uses_p25 && not around.has_targets)) [
          | inl empty ↦ absurd (ground (arith, rw (d, live, free, empty) at h))
          | inr some_targets ↦ elim (Bool-cases (around.uses_p25 && not around.op25_starts)) [
            | inl fails ↦ absurd (ground (arith, rw (d, live, free, some_targets, fails) at h))
            | inr starts ↦ (
              ap (λ x. elim x [ ready q ↦ q | unready e ↦ plan ])
                  (rw (d, live, free, some_targets, starts) at h),
              free,
            )
          ]
        ]
      ]
    ]

pub check_plan-live :
    (around : Surroundings) (plan p : List ReceiverPlanItem) (r : ReceiverRuntime)
    → around.is_demo ≡ false
    → check_plan around plan r ≡ ready p
    → any_live (connected_ids r.sdr_devices) plan ≡ true
unfolding check_plan
check_plan-live around plan p r d h =
    elim (Bool-cases (any_live (connected_ids r.sdr_devices) plan)) [
      | inl live ↦ live
      | inr dead ↦ absurd (ground (arith, rw (d, dead) at h))
    ]

-- A receiver that the plan uses is held by no job, where the plan has passed the check and every job
-- has an ID.
pub any_owned-free :
    (device : Text) (connected : List Text) (plan : List ReceiverPlanItem) (jobs : Entries Handle)
    → is_in device connected ≡ true
    → any_item_uses device plan ≡ true
    → lookup [] jobs ≡ none
    → any_owned connected jobs plan ≡ false
    → any_job_holds device jobs ≡ false
unfolding any_owned any_job_holds lookup
any_owned-free device connected plan [] there used named owned = refl
any_owned-free device connected plan ((k, a) ∷ jobs) there used named owned =
    elim (Bool-cases (codes_eq k [])) [
      | inl empty ↦ absurd (ground (arith, rw empty at named))
      | inr apart ↦
          let rest =
            any_owned-free device connected plan jobs there used (rw apart at named)
              (ground (arith, owned)) in
          elim (Bool-cases (codes_eq a.handle_device device)) [
            | inr other ↦ rw other rest
            | inl same ↦
                let e = (codes_eq_iff a.handle_device device).0 same in
                let held : (is_in a.handle_device connected && any_item_uses a.handle_device plan)
                    ≡ true =
                  subst (λ x. (is_in x connected && any_item_uses x plan) ≡ true) (sym e)
                    (ground (arith, there, used)) in
                absurd (ground (arith, owned, apart, held))
          ]
    ]
