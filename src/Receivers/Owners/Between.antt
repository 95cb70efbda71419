-- ===== src/Receivers/Owners/Between.antt =====
-- A Mapper job that starts between the two steps of `startProfile`
-- (server/internal/app/runtime.go, lines 798-808 and 829-834).
use gp_sdr.Prelude.{
  ◌≡◌, ◌≢◌, refl, sym, ap, ◌∙◌, inl, inr, true, false, ◌&&◌, ◌||◌, Bool-cases, Option-cases, none,
  some, List, [], ◌∷◌, arith,
}
use gp_sdr.Prelude.Text.{Text, codes_eq_iff}
use gp_sdr.Prelude.Maps.{lookup, lookup-put_self, codes_eq-false}
use gp_sdr.Profiles.Profile.{ScanProfile}
use gp_sdr.Receivers.Plan.{ReceiverPlanItem, connected_ids, is_in, build_plan}
use gp_sdr.Receivers.Owners.{
  Handle, ReceiverRuntime, has_text, is_assigned_to, any_item_uses, profile_uses_device,
  any_job_holds, start_mapper_job, stop_profile, Surroundings, has_conflict, any_live, check_plan,
  ready, prepare_profile, commit_profile,
}
use gp_sdr.Receivers.Owners.Checks.{check_plan-ready, check_plan-live, any_owned-free}
use gp_sdr.Receivers.Owners.Exclusive.{IsExclusive}

-- A job with a new ID starts on a connected receiver that no job holds, while no profile runs.
start_mapper_job-holds :
    (job device : Text) (r : ReceiverRuntime)
    → lookup job r.mapper_jobs ≡ none
    → device ≢ []
    → is_in device (connected_ids r.sdr_devices) ≡ true
    → any_job_holds device r.mapper_jobs ≡ false
    → let started = start_mapper_job false job device (stop_profile r) in
      (started.0 ≡ none)
      × (h : Handle) × (lookup job started.1.mapper_jobs ≡ some h)
      × (h.handle_device ≡ device)
unfolding start_mapper_job
start_mapper_job-holds job device r new named there free =
    let h : Handle = record {
      handle_number = r.next_handle;
      handle_device = device;
      is_stopping = false;
    } in
    rw (new, codes_eq-false device [] named, there, free)
      (refl, h, lookup-put_self job h r.mapper_jobs, refl)

-- Some receiver is connected and used by the plan.
any_live-used :
    (connected : List Text) (plan : List ReceiverPlanItem)
    → any_live connected plan ≡ true
    → (device : Text) × (is_in device connected ≡ true) × (any_item_uses device plan ≡ true)
unfolding any_live any_item_uses
any_live-used connected [] live = absurd (ground (arith, live))
any_live-used connected (item ∷ plan) live = elim (Option-cases item.item_device) [
  | inl e ↦
      let (device, there, used) = any_live-used connected plan (sym (rw e refl) ∙ live) in
      (device, there, ground (arith, used))
  | inr (id, e) ↦
      let seen : ((is_assigned_to item.item_state && is_in id connected) || any_live connected plan)
          ≡ true =
        sym (rw e refl) ∙ live in
      elim (Bool-cases (is_assigned_to item.item_state && is_in id connected)) [
        | inl here ↦
            let own = (codes_eq_iff id id).1 refl in
            let uses : has_text id item.item_device ≡ true = rw e own in
            (id, ground (arith, here), ground (arith, here, uses))
        | inr other ↦
            let (device, there, used) =
              any_live-used connected plan (ground (arith, seen, other)) in
            (device, there, ground (arith, used))
      ]
]

prepared_check :
    (around : Surroundings) (profile : ScanProfile) (plan : List ReceiverPlanItem)
    (r : ReceiverRuntime)
    → prepare_profile around profile r ≡ ready plan
    → check_plan around (build_plan r.sdr_devices profile) r ≡ ready plan
unfolding prepare_profile
prepared_check around profile plan r ok =
    elim (Bool-cases (has_conflict (build_plan r.sdr_devices profile))) [
      | inl clash ↦ absurd (ground (arith, rw clash at ok))
      | inr fine ↦ rw fine at ok
    ]

unnamed_none : (r : ReceiverRuntime) → IsExclusive r → lookup [] r.mapper_jobs ≡ none
unnamed_none r i = elim (Option-cases (lookup [] r.mapper_jobs)) [
  | inl e ↦ e
  | inr (h, e) ↦ absurd (i.named [] h e refl)
]

-- The job holds a receiver that the running profile uses.
pub record IsOwnedTwice (job device : Text) (r : ReceiverRuntime) : Type 0 where
  pub handle : Handle
  pub found : lookup job r.mapper_jobs ≡ some handle
  pub held : handle.handle_device ≡ device
  pub used : profile_uses_device device r ≡ true

shared_broken :
    (job device : Text) (r : ReceiverRuntime) → IsOwnedTwice job device r → ¬ IsExclusive r
shared_broken job device r s i =
    let free = i.unshared job s.handle s.found in
    let used = s.used in let same = ap (λ d. profile_uses_device d r) s.held in cc

-- Whenever a plan passes its checks for an exclusive runtime that is no demo, where no connected
-- receiver has an empty ID, there is a receiver on which a new Mapper job starts without error before
-- the plan is committed; and then the job holds it while the running profile uses it, so the commit
-- breaks the exclusion.
pub commit_profile-shared :
    (around : Surroundings) (profile : ScanProfile) (plan : List ReceiverPlanItem) (job : Text)
    (r : ReceiverRuntime)
    → IsExclusive r
    → around.is_demo ≡ false
    → is_in [] (connected_ids r.sdr_devices) ≡ false
    → lookup job r.mapper_jobs ≡ none
    → prepare_profile around profile (stop_profile r) ≡ ready plan
    → (device : Text) × ((start_mapper_job false job device (stop_profile r)).0 ≡ none)
      × IsOwnedTwice job device
          (commit_profile profile plan (start_mapper_job false job device (stop_profile r)).1)
      × (¬ IsExclusive
          (commit_profile profile plan (start_mapper_job false job device (stop_profile r)).1))
unfolding profile_uses_device
commit_profile-shared around profile plan job r i d named new ok =
    let connected = connected_ids r.sdr_devices in
    let built = build_plan r.sdr_devices profile in
    let checked = prepared_check around profile plan (stop_profile r) ok in
    let (same, free) = check_plan-ready around built plan (stop_profile r) d checked in
    let live = check_plan-live around built plan (stop_profile r) d checked in
    let (device, there, used) = any_live-used connected built live in
    let unheld =
      any_owned-free device connected built r.mapper_jobs there used (unnamed_none r i) free in
    let apart : device ≢ [] = λ e. cc (ap (λ x. is_in x connected) e, there, named) in
    let (starts, h, found, held) = start_mapper_job-holds job device r new apart there unheld in
    let after =
      commit_profile profile plan (start_mapper_job false job device (stop_profile r)).1 in
    let shared : IsOwnedTwice job device after = record {
      handle = h;
      found = found;
      held = held;
      used = ap (any_item_uses device) (sym same) ∙ used;
    } in
    (device, starts, shared, shared_broken job device after shared)
