-- ===== src/Receivers/Owners.antt =====
-- server/internal/app/runtime.go, lines 187-238, 300-336, 763-849 and 956-980, and live_survey.go, lines
-- 687-703: which receivers the running profile and the Mapper's jobs hold. `start_profile` is in two
-- steps, since its check of the Mapper's jobs and its commit take the lock twice. The error texts,
-- the mixer, telemetry and the loops that are started are left out; what OP25 and the targets of a
-- profile come to is an input.
pub mod Checks
pub mod Exclusive
pub mod Between
mod Tests
use gp_sdr.Prelude.{
  ℕ, ◌+◌, Bool, true, false, not, ◌&&◌, ◌||◌, ◌==◌, Option, none, some, List, [], ◌∷◌,
  if◌then◌else◌,
}
use gp_sdr.Prelude.Text.{Text, codes_eq}
use gp_sdr.Prelude.Maps.{Entries, lookup, remove, put, is_there}
use gp_sdr.Profiles.Profile.{ScanProfile}
use gp_sdr.Receivers.Plan.{
  SdrDevice, PlanState, waiting, assigned_to, conflict, ReceiverPlanItem, connected_ids, is_in,
  build_plan,
}

-- A `*mapperJobRuntime`: its number stands for the pointer.
pub record Handle : Type 0 where
  pub handle_number : ℕ
  pub handle_device : Text
  pub is_stopping : Bool

pub record ReceiverRuntime : Type 0 where
  pub sdr_devices : List SdrDevice
  pub profile_running : Bool
  pub active_profile : Option ScanProfile
  pub receiver_plan : List ReceiverPlanItem
  pub mapper_jobs : Entries Handle
  pub next_handle : ℕ

abbrev pub has_text : Text → Option Text → Bool
has_text id none = false
has_text id (some other) = codes_eq other id

abbrev pub is_assigned_to : PlanState → Bool
is_assigned_to assigned_to = true
is_assigned_to _ = false

unfoldable pub any_item_uses : Text → List ReceiverPlanItem → Bool
any_item_uses id [] = false
any_item_uses id (item ∷ plan) =
    (has_text id item.item_device && is_assigned_to item.item_state) || any_item_uses id plan

unfoldable pub profile_uses_device : Text → ReceiverRuntime → Bool
unfolding any_item_uses
profile_uses_device id r =
    r.profile_running && is_there r.active_profile && any_item_uses id r.receiver_plan

unfoldable pub any_job_holds : Text → Entries Handle → Bool
any_job_holds id [] = false
any_job_holds id ((job, handle) ∷ jobs) = codes_eq handle.handle_device id || any_job_holds id jobs

pub data StartError : Type 0 where
  characterized already_started no_receiver held_by_job used_by_profile : StartError
  plan_conflict no_sdr mapper_holds no_targets decoder_failed : StartError

-- The receiver that the job's configuration names, and whether a characterization runs.
unfoldable pub start_mapper_job :
    Bool → Text → Text → ReceiverRuntime → Option StartError × ReceiverRuntime
start_mapper_job characterizing job device r =
    if characterizing
    then (some characterized, r)
    else if is_there (lookup job r.mapper_jobs)
    then (some already_started, r)
    else if codes_eq device [] || not (is_in device (connected_ids r.sdr_devices))
    then (some no_receiver, r)
    else if any_job_holds device r.mapper_jobs
    then (some held_by_job, r)
    else if r.profile_running && profile_uses_device device r
    then (some used_by_profile, r)
    else (
      none,
      record r {
        mapper_jobs =
            put job
              (record {
                handle_number = r.next_handle;
                handle_device = device;
                is_stopping = false;
              })
              r.mapper_jobs;
        next_handle = r.next_handle + 1;
      },
    )

unfoldable pub stop_mapper_job : Text → ReceiverRuntime → ReceiverRuntime
stop_mapper_job job r = elim (lookup job r.mapper_jobs) [
  | none ↦ r
  | some handle ↦ record r {
    mapper_jobs = put job (record handle { is_stopping = true }) r.mapper_jobs;
  }
]

abbrev pub is_handle : ℕ → Option Handle → Bool
is_handle number none = false
is_handle number (some handle) = handle.handle_number == number

unfoldable pub finish_mapper_job : Text → ℕ → ReceiverRuntime → ReceiverRuntime
finish_mapper_job job number r =
    if is_handle number (lookup job r.mapper_jobs)
    then record r { mapper_jobs = remove job r.mapper_jobs }
    else r

abbrev pub stop_profile : ReceiverRuntime → ReceiverRuntime
stop_profile r = record r { profile_running = false }

-- What `start_profile` gets from outside: whether the server runs as a demo, whether the profile has
-- enabled P25 systems or targets, and whether OP25 starts.
pub record Surroundings : Type 0 where
  pub is_demo : Bool
  pub uses_p25 : Bool
  pub has_targets : Bool
  pub op25_starts : Bool

unfoldable pub has_conflict : List ReceiverPlanItem → Bool
has_conflict [] = false
has_conflict (item ∷ plan) = elim (item.item_state) [ conflict ↦ true | _ ↦ has_conflict plan ]

-- Some item has a receiver of the list.
unfoldable pub any_live : List Text → List ReceiverPlanItem → Bool
any_live connected [] = false
any_live connected (item ∷ plan) =
    let rest = any_live connected plan in
    elim (item.item_device) [
      | none ↦ rest
      | some id ↦ (is_assigned_to item.item_state && is_in id connected) || rest
    ]

-- Some item has a receiver of the list that a job holds. A job with an empty ID counts for nobody.
unfoldable pub any_owned : List Text → Entries Handle → List ReceiverPlanItem → Bool
any_owned connected [] plan = false
any_owned connected ((job, handle) ∷ jobs) plan =
    (not (codes_eq job [])
      && is_in handle.handle_device connected
      && any_item_uses handle.handle_device plan)
    || any_owned connected jobs plan

pub data Preparation : Type 0 where
  ready : List ReceiverPlanItem → Preparation
  unready : StartError → Preparation

-- The checks behind the plan, which a demo does not make.
unfoldable pub check_plan : Surroundings → List ReceiverPlanItem → ReceiverRuntime → Preparation
unfolding any_live any_owned connected_ids
check_plan around plan r =
    let connected = connected_ids r.sdr_devices in
    if around.is_demo
    then ready plan
    else if not (any_live connected plan)
    then unready no_sdr
    else if any_owned connected r.mapper_jobs plan
    then unready mapper_holds
    else if not around.uses_p25 && not around.has_targets
    then unready no_targets
    else if around.uses_p25 && not around.op25_starts
    then unready decoder_failed
    else ready plan

unfoldable pub prepare_profile : Surroundings → ScanProfile → ReceiverRuntime → Preparation
unfolding has_conflict
prepare_profile around profile r =
    let plan = build_plan r.sdr_devices profile in
    if has_conflict plan then unready plan_conflict else check_plan around plan r

abbrev pub commit_profile : ScanProfile → List ReceiverPlanItem → ReceiverRuntime → ReceiverRuntime
commit_profile profile plan r = record r {
  profile_running = true;
  active_profile = some profile;
  receiver_plan = plan;
}

abbrev pub commit_prepared :
    ScanProfile → Preparation → ReceiverRuntime → Option StartError × ReceiverRuntime
commit_prepared profile (ready plan) r = (none, commit_profile profile plan r)
commit_prepared profile (unready e) r = (some e, r)

-- With no other call in between.
unfoldable pub start_profile :
    Surroundings → ScanProfile → ReceiverRuntime → Option StartError × ReceiverRuntime
start_profile around profile r =
    let stopped = stop_profile r in
    commit_prepared profile (prepare_profile around profile stopped) stopped

pub data OwnerCall : Type 0 where
  starts_profile : Surroundings → ScanProfile → OwnerCall
  stops_profile : OwnerCall
  starts_job : Bool → Text → Text → OwnerCall
  stops_job : Text → OwnerCall
  finishes_job : Text → ℕ → OwnerCall

unfoldable pub run_owner_call : OwnerCall → ReceiverRuntime → ReceiverRuntime
run_owner_call (starts_profile around profile) r = (start_profile around profile r).1
run_owner_call stops_profile r = stop_profile r
run_owner_call (starts_job characterizing job device) r =
    (start_mapper_job characterizing job device r).1
run_owner_call (stops_job job) r = stop_mapper_job job r
run_owner_call (finishes_job job number) r = finish_mapper_job job number r
