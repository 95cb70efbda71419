-- ===== src/Receivers/Owners/Exclusive.antt =====
-- No receiver has two users (server/internal/app/runtime.go), if the calls come one after the other.
use gp_sdr.Prelude.{
  ℕ, ◌+◌, ◌≡◌, ◌≢◌, refl, sym, ap, ◌∙◌, ◌⊎◌, inl, inr, Bool, true, false, not, ◌&&◌, ◌||◌,
  Bool-cases, Option-cases, some, List, [], arith,
}
use gp_sdr.Prelude.Text.{Text, codes_eq}
use gp_sdr.Prelude.Maps.{lookup, remove, put, is_there, put_cases, remove_cases}
use gp_sdr.Profiles.Profile.{ScanProfile, items}
use gp_sdr.Receivers.Plan.{ReceiverPlanItem, connected_ids, is_in, build_plan}
use gp_sdr.Receivers.Plan.Laws.{build_plan-AreApart}
use gp_sdr.Receivers.Owners.{
  Handle, ReceiverRuntime, any_item_uses, profile_uses_device, any_job_holds, StartError,
  start_mapper_job, stop_mapper_job, is_handle, finish_mapper_job, stop_profile, Surroundings,
  has_conflict, Preparation, ready, unready, check_plan, prepare_profile, commit_profile,
  start_profile, OwnerCall, starts_profile, stops_profile, starts_job, stops_job, finishes_job,
  run_owner_call,
}
use gp_sdr.Receivers.Owners.Checks.{
  any_job_holds-lookup, any_owned-lookup, any_item_uses-connected, check_plan-ready,
}

-- Each job has an ID and a receiver of its own, which the running profile does not use.
pub record IsExclusive (r : ReceiverRuntime) : Type 0 where
  pub named : (job : Text) (h : Handle) → lookup job r.mapper_jobs ≡ some h → job ≢ []
  pub apart :
      (job other : Text) (h k : Handle)
      → lookup job r.mapper_jobs ≡ some h
      → lookup other r.mapper_jobs ≡ some k
      → h.handle_device ≡ k.handle_device
      → job ≡ other
  pub unshared :
      (job : Text) (h : Handle)
      → lookup job r.mapper_jobs ≡ some h
      → profile_uses_device h.handle_device r ≡ false

idle_unused :
    (device : Text) (r : ReceiverRuntime) → profile_uses_device device (stop_profile r) ≡ false
unfolding profile_uses_device
idle_unused device r = refl

stop_profile-IsExclusive : (r : ReceiverRuntime) → IsExclusive r → IsExclusive (stop_profile r)
stop_profile-IsExclusive r i = record {
  named = i.named;
  apart = i.apart;
  unshared = λ job h found. idle_unused h.handle_device r;
}

Preparation-cases :
    (x : Preparation)
    → ((e : StartError) × (x ≡ unready e)) ⊎ ((plan : List ReceiverPlanItem) × (x ≡ ready plan))
Preparation-cases (unready e) = inl (e, refl)
Preparation-cases (ready plan) = inr (plan, refl)

-- A committed plan that passed the check uses no receiver of a job.
commit_unshared :
    (around : Surroundings) (profile : ScanProfile) (plan : List ReceiverPlanItem)
    (r : ReceiverRuntime)
    → IsExclusive r
    → around.is_demo ≡ false
    → check_plan around (build_plan r.sdr_devices profile) r ≡ ready plan
    → (job : Text) (h : Handle) → lookup job r.mapper_jobs ≡ some h
    → any_item_uses h.handle_device plan ≡ false
commit_unshared around profile plan r i d ok job h found =
    let built = build_plan r.sdr_devices profile in
    let connected = connected_ids r.sdr_devices in
    let (same, free) = check_plan-ready around built plan r d ok in
    ap (any_item_uses h.handle_device) (sym same)
    ∙ elim (Bool-cases (any_item_uses h.handle_device built)) [
      | inr unused ↦ unused
      | inl used ↦
          any_owned-lookup connected built job h r.mapper_jobs free found (i.named job h found) (
            any_item_uses-connected h.handle_device connected (items profile.assignments) built
              (build_plan-AreApart r.sdr_devices profile).0 used)
    ]

commit_profile-IsExclusive :
    (profile : ScanProfile) (plan : List ReceiverPlanItem) (r : ReceiverRuntime)
    → IsExclusive r
    → ((job : Text) (h : Handle)
        → lookup job r.mapper_jobs ≡ some h
        → any_item_uses h.handle_device plan ≡ false)
    → IsExclusive (commit_profile profile plan r)
unfolding profile_uses_device
commit_profile-IsExclusive profile plan r i unused = record {
  named = i.named;
  apart = i.apart;
  unshared = unused;
}

start_profile-IsExclusive :
    (around : Surroundings) (profile : ScanProfile) (r : ReceiverRuntime)
    → around.is_demo ≡ false
    → IsExclusive r
    → IsExclusive (start_profile around profile r).1
unfolding start_profile prepare_profile
start_profile-IsExclusive around profile r d i =
    let s = stop_profile r in
    let stopped = stop_profile-IsExclusive r i in
    let built = build_plan r.sdr_devices profile in
    elim (Bool-cases (has_conflict built)) [
      | inl clash ↦ rw clash stopped
      | inr fine ↦ elim (Preparation-cases (check_plan around built s)) [
        | inl (e, bad) ↦ rw (fine, bad) stopped
        | inr (plan, ok) ↦
            rw (fine, ok)
              (commit_profile-IsExclusive profile plan s stopped
                (commit_unshared around profile plan s stopped d ok))
      ]
    ]

-- A write of a handle that keeps its receiver apart.
put_handle-IsExclusive :
    (job : Text) (h : Handle) (next : ℕ) (r : ReceiverRuntime)
    → job ≢ []
    → profile_uses_device h.handle_device r ≡ false
    → ((other : Text) (k : Handle)
        → lookup other r.mapper_jobs ≡ some k
        → h.handle_device ≡ k.handle_device
        → job ≡ other)
    → IsExclusive r
    → IsExclusive (record r { mapper_jobs = put job h r.mapper_jobs; next_handle = next })
unfolding profile_uses_device
put_handle-IsExclusive job h next r n unused own i = record {
  named = λ a x found. elim (put_cases job a h x r.mapper_jobs found) [
    | inl (e, _) ↦ λ k. n (e ∙ k)
    | inr (_, old) ↦ i.named a x old
  ];
  apart = λ a b x y found there e. elim (put_cases job a h x r.mapper_jobs found) [
    | inl (p, f) ↦ elim (put_cases job b h y r.mapper_jobs there) [
      | inl (q, g) ↦ sym p ∙ q
      | inr (_, old) ↦ sym p ∙ own b y old (ap (λ (z : Handle). z.handle_device) f ∙ e)
    ]
    | inr (_, old) ↦ elim (put_cases job b h y r.mapper_jobs there) [
      | inl (q, g) ↦ sym (own a x old (ap (λ (z : Handle). z.handle_device) g ∙ sym e)) ∙ q
      | inr (_, old') ↦ i.apart a b x y old old' e
    ]
  ];
  unshared = λ a x found. elim (put_cases job a h x r.mapper_jobs found) [
    | inl (_, f) ↦ ap (λ (z : Handle). profile_uses_device z.handle_device r) (sym f) ∙ unused
    | inr (_, old) ↦ i.unshared a x old
  ];
}

not_held :
    (device : Text) (r : ReceiverRuntime) (other : Text) (k : Handle)
    → any_job_holds device r.mapper_jobs ≡ false
    → lookup other r.mapper_jobs ≡ some k
    → k.handle_device ≢ device
not_held device r other k free found e =
    ground (arith, any_job_holds-lookup device other k r.mapper_jobs found e, free)

running_unused :
    (device : Text) (r : ReceiverRuntime)
    → (r.profile_running && profile_uses_device device r) ≡ false
    → profile_uses_device device r ≡ false
unfolding profile_uses_device
running_unused device r h = ground (arith, h)

remove_handle-IsExclusive :
    (job : Text) (r : ReceiverRuntime)
    → IsExclusive r
    → IsExclusive (record r { mapper_jobs = remove job r.mapper_jobs })
unfolding profile_uses_device
remove_handle-IsExclusive job r i = record {
  named = λ a x found. i.named a x (remove_cases job a x r.mapper_jobs found).1;
  apart = λ a b x y found there e.
      i.apart a b x y (remove_cases job a x r.mapper_jobs found).1
        (remove_cases job b y r.mapper_jobs there).1 e;
  unshared = λ a x found. i.unshared a x (remove_cases job a x r.mapper_jobs found).1;
}

start_mapper_job-IsExclusive :
    (characterizing : Bool) (job device : Text) (r : ReceiverRuntime)
    → job ≢ []
    → IsExclusive r
    → IsExclusive (start_mapper_job characterizing job device r).1
unfolding start_mapper_job
start_mapper_job-IsExclusive true job device r n i = i
start_mapper_job-IsExclusive false job device r n i =
    elim (Bool-cases (is_there (lookup job r.mapper_jobs))) [
      | inl there ↦ rw there i
      | inr new ↦
          elim (Bool-cases
            (codes_eq device [] || not (is_in device (connected_ids r.sdr_devices)))) [
              | inl gone ↦ rw (new, gone) i
              | inr there ↦ elim (Bool-cases (any_job_holds device r.mapper_jobs)) [
                | inl taken ↦ rw (new, there, taken) i
                | inr free ↦ elim (Bool-cases (r.profile_running && profile_uses_device device r)) [
                  | inl used ↦ rw (new, there, free, used) i
                  | inr unused ↦
                      let h : Handle = record {
                        handle_number = r.next_handle;
                        handle_device = device;
                        is_stopping = false;
                      } in
                      rw (new, there, free, unused)
                        (put_handle-IsExclusive job h (r.next_handle + 1) r n
                          (running_unused device r unused)
                          (λ other k found e. absurd (not_held device r other k free found (sym e)))
                          i)
                ]
              ]
            ]
    ]

stop_mapper_job-IsExclusive :
    (job : Text) (r : ReceiverRuntime) → IsExclusive r → IsExclusive (stop_mapper_job job r)
unfolding stop_mapper_job
stop_mapper_job-IsExclusive job r i = elim (Option-cases (lookup job r.mapper_jobs)) [
  | inl e ↦ rw (stop_mapper_job, e) i
  | inr (h, e) ↦
      rw (stop_mapper_job, e)
        (put_handle-IsExclusive job (record h { is_stopping = true }) r.next_handle r
          (i.named job h e) (i.unshared job h e)
          (λ other k found same. i.apart job other h k e found same) i)
]

finish_mapper_job-IsExclusive :
    (job : Text) (number : ℕ) (r : ReceiverRuntime)
    → IsExclusive r
    → IsExclusive (finish_mapper_job job number r)
unfolding finish_mapper_job
finish_mapper_job-IsExclusive job number r i =
    elim (Bool-cases (is_handle number (lookup job r.mapper_jobs))) [
      | inr other ↦ rw other i
      | inl own ↦ rw own (remove_handle-IsExclusive job r i)
    ]

-- A server that is no demo, and jobs with an ID.
abbrev pub IsProper : OwnerCall → Type 0
IsProper (starts_profile around profile) = around.is_demo ≡ false
IsProper (starts_job characterizing job device) = job ≢ []
IsProper _ = Unit

-- No receiver gets two users by calls that come one after the other: in a server that is no demo, the
-- jobs of the Mapper hold receivers that are apart, and that the running profile does not use.
pub run_owner_call-IsExclusive :
    (call : OwnerCall) (r : ReceiverRuntime)
    → IsProper call
    → IsExclusive r
    → IsExclusive (run_owner_call call r)
unfolding run_owner_call
run_owner_call-IsExclusive (starts_profile around profile) r h i =
    start_profile-IsExclusive around profile r h i
run_owner_call-IsExclusive stops_profile r h i = stop_profile-IsExclusive r i
run_owner_call-IsExclusive (starts_job characterizing job device) r h i =
    start_mapper_job-IsExclusive characterizing job device r h i
run_owner_call-IsExclusive (stops_job job) r h i = stop_mapper_job-IsExclusive job r i
run_owner_call-IsExclusive (finishes_job job number) r h i =
    finish_mapper_job-IsExclusive job number r i
