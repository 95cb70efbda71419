-- ===== src/Receivers/Owners/Tests.antt =====
-- One receiver, a profile and a Mapper job (server/internal/app/runtime.go), and the theorems at them.
use gp_sdr.Prelude.{◌≡◌, refl, true, false, none, some, [], ◌∷◌, arith}
use gp_sdr.Prelude.Int.{pos}
use gp_sdr.Prelude.Text.{Text, codes, codes_eq}
use gp_sdr.Prelude.Maps.{lookup}
use gp_sdr.Profiles.Profile.{ScanProfile, items}
use gp_sdr.Receivers.Plan.{
  SdrDevice, ReceiverPlanItem, assigned_to, connected_ids, is_in, first_free, plan_item, plan_items,
  build_plan,
}
use gp_sdr.Receivers.Plan.Laws.{AreItemsOf, AreApart, held, build_plan-AreApart}
use gp_sdr.Receivers.Owners.{
  ReceiverRuntime, profile_uses_device, any_job_holds, start_mapper_job, stop_profile, Surroundings,
  has_conflict, any_live, any_owned, check_plan, ready, prepare_profile, commit_profile, starts_job,
  run_owner_call,
}
use gp_sdr.Receivers.Owners.Exclusive.{IsExclusive, run_owner_call-IsExclusive}
use gp_sdr.Receivers.Owners.Between.{IsOwnedTwice, commit_profile-shared}

abbrev dongle : SdrDevice
dongle = record { sdr_id = codes "rtl-0"; is_connected = true; is_available = true }

abbrev live_profile : ScanProfile
live_profile = record {
  schema_version = pos 1;
  id = codes "p";
  name = codes "Live";
  reference_area = none;
  ranges = none;
  channels = none;
  assignments =
      some (record { assignment_id = codes "a"; assigned = none; role = codes "discovery" } ∷ []);
  systems = none;
  p25_rate = pos 0;
  settings = [];
  built_in = false;
}

abbrev at_rest : ReceiverRuntime
at_rest = record {
  sdr_devices = dongle ∷ [];
  profile_running = false;
  active_profile = none;
  receiver_plan = [];
  mapper_jobs = [];
  next_handle = 0;
}

abbrev targets_only : Surroundings
targets_only = record { is_demo = false; uses_p25 = false; has_targets = true; op25_starts = false }

abbrev one_item : ReceiverPlanItem
one_item = record {
  item_assignment = codes "a";
  item_role = codes "discovery";
  item_device = some (codes "rtl-0");
  item_state = assigned_to;
}

nobody : {A : Type 0} (id : Text) (a : A) → lookup id [] ≡ some a → ⊥
unfolding lookup
nobody id a h = ground (arith, h)

at_rest-IsExclusive : IsExclusive at_rest
at_rest-IsExclusive = record {
  named = λ job h found. absurd (nobody job h found);
  apart = λ job other h k found there e. absurd (nobody job h found);
  unshared = λ job h found. absurd (nobody job h found);
}

run_owner_call-IsExclusive_example :
    IsExclusive (run_owner_call (starts_job false (codes "j") (codes "rtl-0")) at_rest)
run_owner_call-IsExclusive_example =
    run_owner_call-IsExclusive (starts_job false (codes "j") (codes "rtl-0")) at_rest
      (λ e. absurd (ground (arith, e))) at_rest-IsExclusive

build_plan-AreApart_example :
    AreItemsOf
      (connected_ids (dongle ∷ []))
      (items live_profile.assignments)
      (build_plan (dongle ∷ []) live_profile)
    × AreApart [] (held (build_plan (dongle ∷ []) live_profile))
build_plan-AreApart_example = build_plan-AreApart (dongle ∷ []) live_profile

prepared : prepare_profile targets_only live_profile (stop_profile at_rest) ≡ ready (one_item ∷ [])
unfolding prepare_profile build_plan plan_items plan_item first_free is_in connected_ids
    has_conflict check_plan any_live any_owned codes_eq
prepared = refl

job_starts : (start_mapper_job false (codes "j") (codes "rtl-0") (stop_profile at_rest)).0 ≡ none
unfolding start_mapper_job lookup is_in connected_ids any_job_holds profile_uses_device codes_eq
job_starts = refl

no_unnamed : is_in [] (connected_ids (dongle ∷ [])) ≡ false
unfolding is_in connected_ids codes_eq
no_unnamed = refl

no_job : (id : Text) → lookup id at_rest.mapper_jobs ≡ none
unfolding lookup
no_job id = refl

commit_profile-shared_example :
    (device : Text) × ((start_mapper_job false (codes "j") device (stop_profile at_rest)).0 ≡ none)
    × IsOwnedTwice (codes "j") device (
        commit_profile live_profile
          (one_item ∷ [])
          (start_mapper_job false (codes "j") device (stop_profile at_rest)).1)
    × (¬ IsExclusive (
        commit_profile live_profile
          (one_item ∷ [])
          (start_mapper_job false (codes "j") device (stop_profile at_rest)).1))
commit_profile-shared_example =
    commit_profile-shared targets_only live_profile (one_item ∷ []) (codes "j") at_rest
      at_rest-IsExclusive refl no_unnamed (no_job (codes "j")) prepared
