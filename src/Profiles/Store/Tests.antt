-- ===== src/Profiles/Store/Tests.antt =====
-- A small profile store (server/internal/app/store.go), and the theorems at it.
use gp_sdr.Prelude.{◌≡◌, refl, sym, ap, ◌∙◌, inl, inr, true, false, none, some, [], ◌∷◌, arith}
use gp_sdr.Prelude.Int.{pos}
use gp_sdr.Prelude.Text.{Text, codes, codes_eq, has_prefix, trim_space, trim_left, is_space}
use gp_sdr.Profiles.Profile.{
  ScanProfile, ScanRange, byte_length, has_path_char, is_bad_id, is_sample_rate, any_bad_range,
  any_bad_channel, check_systems, check_content, validate_profile, normalize_profile,
}
use gp_sdr.Profiles.Store.{
  json, ProfileStore, persist, duplicate, copy_of, new_profile_store, duplicates, deletes, run_call,
  check_synced, replace_synced_profiles,
}
use gp_sdr.Prelude.Maps.{lookup, remove, put, put_cases}
use gp_sdr.Profiles.Store.Durable.{IsStored}
use gp_sdr.Profiles.Store.Sync.{replace_synced_profiles-drops}
use gp_sdr.Profiles.Store.Calls.{run_call-IsStored, run_call_keeps}
use gp_sdr.Profiles.Store.Reopen.{new_profile_store-same}

abbrev airband : ScanRange
airband = record {
  range_id = codes "r1";
  range_name = codes "Air";
  start = pos 118000000000;
  end = pos 137000000000;
  step = pos 25000000;
  dwell = pos 160;
  range_enabled = true;
}

abbrev discovery : ScanProfile
discovery = record {
  schema_version = pos 1;
  id = codes "d";
  name = codes "Air";
  reference_area = none;
  ranges = some (airband ∷ []);
  channels = none;
  assignments = none;
  systems = none;
  p25_rate = pos 0;
  settings = [];
  built_in = true;
}

abbrev fresh_store : ProfileStore
fresh_store = record { profiles = put (codes "d") discovery []; files = [] }

discovery_example : validate_profile discovery ≡ none
unfolding validate_profile codes_eq is_bad_id byte_length has_path_char trim_space trim_left
    is_space any_bad_range any_bad_channel check_systems is_sample_rate check_content
discovery_example = refl

not_there : {A : Type 0} (id : Text) (a : A) → lookup id [] ≡ some a → ⊥
unfolding lookup
not_there id a h = ground (arith, h)

fresh_store-IsStored : IsStored fresh_store
fresh_store-IsStored = record {
  named = λ id p h. elim (put_cases (codes "d") id discovery p [] h) [
    | inl (e, f) ↦ (
      ap (λ (x : ScanProfile). x.id) (sym f) ∙ e,
      ap validate_profile (sym f) ∙ discovery_example,
    )
    | inr (n, old) ↦ absurd (not_there id p old)
  ];
  on_disk = λ id p h u. elim (put_cases (codes "d") id discovery p [] h) [
    | inl (e, f) ↦ absurd (ground (arith, ap (λ (x : ScanProfile). x.built_in) f ∙ u))
    | inr (n, old) ↦ absurd (not_there id p old)
  ];
  in_memory = λ id c h. absurd (not_there id c h);
  once = tt;
}

abbrev copied : ProfileStore
copied = run_call (duplicates true (codes "c") (codes "d")) fresh_store

run_call-IsStored_example : IsStored copied
run_call-IsStored_example =
    run_call-IsStored (duplicates true (codes "c") (codes "d")) fresh_store fresh_store-IsStored tt

run_call_keeps_example :
    lookup (codes "d") (run_call (deletes true (codes "d")) fresh_store).profiles ≡ some discovery
unfolding lookup codes_eq
run_call_keeps_example =
    run_call_keeps (deletes true (codes "d")) fresh_store (codes "d") discovery refl refl tt

new_profile_store-same_example :
    let opened = new_profile_store (discovery ∷ []) copied.files in
    ((p : ScanProfile)
      → lookup (codes "c") copied.profiles ≡ some p
      → p.built_in ≡ false
      → lookup (codes "c") opened.profiles ≡ some (normalize_profile p))
    × ((q : ScanProfile)
        → lookup (codes "c") opened.profiles ≡ some q
        → q.built_in ≡ false
        → (p : ScanProfile) × (lookup (codes "c") copied.profiles ≡ some p)
          × (q ≡ normalize_profile p))
new_profile_store-same_example =
    new_profile_store-same (discovery ∷ []) copied (codes "c") (refl, tt)
      (run_call-IsStored (duplicates true (codes "c") (codes "d")) fresh_store fresh_store-IsStored
        tt)

-- The copy is there.
copied_example : lookup (codes "c") copied.profiles ≡ some (copy_of (codes "c") discovery)
unfolding run_call duplicate lookup remove codes_eq persist is_bad_id byte_length has_path_char
copied_example = refl

-- A saved profile under an ID of the synced ones.
abbrev mine : ScanProfile
mine = record discovery { id = codes "sheet-mine"; built_in = false }

abbrev with_mine : ProfileStore
with_mine = record {
  profiles = put (codes "sheet-mine") mine [];
  files = put (codes "sheet-mine") (json mine) [];
}

replace_synced_profiles-drops_example :
    (lookup (codes "sheet-mine") (replace_synced_profiles [] with_mine).1.profiles ≡ none)
    × ((replace_synced_profiles [] with_mine).1.files ≡ with_mine.files)
unfolding check_synced has_prefix
replace_synced_profiles-drops_example =
    replace_synced_profiles-drops [] with_mine (codes "sheet-mine") refl refl tt
