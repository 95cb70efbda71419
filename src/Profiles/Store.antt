-- ===== src/Profiles/Store.antt =====
-- server/internal/app/store.go, lines 24-199: the profile store, in memory and as a directory of
-- files. A file is named by its base name, without ".json". The ID that `NewID` makes, and whether
-- the writes of a call succeed, are arguments of the call.
pub mod Valid
pub mod Durable
pub mod Sync
pub mod Calls
pub mod Reopen
mod Tests
use gp_sdr.Prelude.{
  ℕ, Bool, true, false, not, ◌&&◌, ◌||◌, Option, none, some, List, [], ◌∷◌, ◌++◌, ltb, leb, ◌-◌,
  if◌then◌else◌, length, take,
}
use gp_sdr.Prelude.Maps.{Entries, lookup, remove, put, is_there}
use gp_sdr.Prelude.Text.{Text, codes, codes_eq, has_prefix}
use gp_sdr.Profiles.Profile.{
  ScanProfile, ProfileError, is_bad_id, max_name, validate_profile, normalize_profile,
}

-- What is in a file: a profile as JSON, or bytes that are none.
pub data Content : Type 0 where
  json : ScanProfile → Content
  garbage : Content

pub record ProfileStore : Type 0 where
  pub profiles : Entries ScanProfile
  pub files : Entries Content

pub data StoreError : Type 0 where
  invalid : ProfileError → StoreError
  not_found is_built_in too_large not_a_profile unsafe_id not_synced disk_failed : StoreError

pub data Result {ℓ} (A : Type ℓ) : Type ℓ where
  done : A → Result A
  failed : StoreError → Result A

-- `os.WriteFile` to a temporary file and `os.Rename`, which succeed together or leave the file.
abbrev pub Disk : Type 0
Disk = Bool

unfoldable pub persist : Disk → ScanProfile → ProfileStore → Option StoreError × ProfileStore
persist disk p store =
    if is_bad_id p.id
    then (some unsafe_id, store)
    else if disk
    then (none, record store { files = put p.id (json p) store.files })
    else (some disk_failed, store)

-- `persist`, and the write to memory that follows it.
abbrev pub keep_persisted :
    ScanProfile → Option StoreError × ProfileStore → Result ScanProfile × ProfileStore
keep_persisted p (some e, store) = (failed e, store)
keep_persisted p (none, store) = (done p, record store { profiles = put p.id p store.profiles })

abbrev pub put_profile : Disk → ScanProfile → ProfileStore → Result ScanProfile × ProfileStore
put_profile disk p store = keep_persisted p (persist disk p store)

abbrev pub as_user : ScanProfile → ScanProfile
as_user p = record (normalize_profile p) { built_in = false }

abbrev pub is_protected : Option ScanProfile → Bool
is_protected none = false
is_protected (some existing) = existing.built_in

unfoldable pub save : Disk → ScanProfile → ProfileStore → Result ScanProfile × ProfileStore
save disk p store = elim (validate_profile p) [
  | some e ↦ (failed (invalid e), store)
  | none ↦
      if is_protected (lookup p.id store.profiles)
      then (failed is_built_in, store)
      else put_profile disk (as_user p) store
]

-- The data is its size in bytes, and what json.Unmarshal reads of it.
unfoldable pub import_profile :
    Disk → Text → ℕ × Content → ProfileStore → Result ScanProfile × ProfileStore
import_profile disk new_id (size, content) store =
    if ltb 1000000 size then (failed too_large, store) else elim content [
      | garbage ↦ (failed not_a_profile, store)
      | json p ↦ elim (validate_profile p) [
        | some e ↦ (failed (invalid e), store)
        | none ↦
            let taken = is_there (lookup p.id store.profiles) || p.built_in in
            put_profile disk (as_user (if taken then (record p { id = new_id }) else p)) store
      ]
    ]

-- A copy has the name, cut to make room for the ending.
abbrev pub copy_name : Text → Text
copy_name name =
    (if ltb (max_name - 5) (length name) then take (max_name - 5) name else name) ++ codes " Copy"

abbrev pub copy_of : Text → ScanProfile → ScanProfile
copy_of new_id p = record p { id = new_id; name = copy_name p.name; built_in = false }

unfoldable pub duplicate : Disk → Text → Text → ProfileStore → Result ScanProfile × ProfileStore
duplicate disk new_id id store = elim (lookup id store.profiles) [
  | none ↦ (failed not_found, store)
  | some p ↦ put_profile disk (copy_of new_id p) store
]

unfoldable pub delete : Disk → Text → ProfileStore → Option StoreError × ProfileStore
delete disk id store = elim (lookup id store.profiles) [
  | none ↦ (some not_found, store)
  | some p ↦
      if p.built_in
      then (some is_built_in, store)
      else if disk
      then (none, record { profiles = remove id store.profiles; files = remove id store.files })
      else (some disk_failed, store)
]

abbrev pub is_synced : Text → Bool
is_synced id = has_prefix id (codes "sheet-")

-- The loop over the profiles of a synced sheet.
unfoldable pub check_synced : List ScanProfile → Option StoreError
check_synced [] = none
check_synced (p ∷ ps) =
    let rest = check_synced ps in
    if not (is_synced p.id) || not p.built_in
    then some not_synced
    else elim (validate_profile p) [ none ↦ rest | some e ↦ some (invalid e) ]

unfoldable pub drop_synced : Entries ScanProfile → Entries ScanProfile
drop_synced [] = []
drop_synced ((id, p) ∷ profiles) =
    let rest = drop_synced profiles in if is_synced id then rest else (id, p) ∷ rest

unfoldable pub add_synced : List ScanProfile → Entries ScanProfile → Entries ScanProfile
add_synced [] profiles = profiles
add_synced (p ∷ ps) profiles = add_synced ps (put p.id (normalize_profile p) profiles)

unfoldable pub replace_synced_profiles :
    List ScanProfile → ProfileStore → Option StoreError × ProfileStore
replace_synced_profiles ps store = elim (check_synced ps) [
  | some e ↦ (some e, store)
  | none ↦ (none, record store { profiles = add_synced ps (drop_synced store.profiles) })
]

unfoldable pub add_built_ins : List ScanProfile → Entries ScanProfile → Entries ScanProfile
add_built_ins [] profiles = profiles
add_built_ins (p ∷ ps) profiles = add_built_ins ps (put p.id p profiles)

-- A file that does not hold a valid profile is passed over.
abbrev pub load_file : Content → Entries ScanProfile → Entries ScanProfile
load_file garbage profiles = profiles
load_file (json p) profiles = elim (validate_profile p) [
  | some e ↦ profiles
  | none ↦ put p.id (normalize_profile p) profiles
]

unfoldable pub load_files : Entries Content → Entries ScanProfile → Entries ScanProfile
load_files [] profiles = profiles
load_files ((base, content) ∷ files) profiles = load_files files (load_file content profiles)

unfoldable pub new_profile_store : List ScanProfile → Entries Content → ProfileStore
new_profile_store built_ins files = record {
  profiles = load_files files (add_built_ins built_ins []);
  files = files;
}

-- A call of the store, with what it gets from outside.
pub data Call : Type 0 where
  saves : Disk → ScanProfile → Call
  imports : Disk → Text → ℕ × Content → Call
  duplicates : Disk → Text → Text → Call
  deletes : Disk → Text → Call
  syncs : List ScanProfile → Call

unfoldable pub run_call : Call → ProfileStore → ProfileStore
run_call (saves disk p) store = (save disk p store).1
run_call (imports disk new_id upload) store = (import_profile disk new_id upload store).1
run_call (duplicates disk new_id id) store = (duplicate disk new_id id store).1
run_call (deletes disk id) store = (delete disk id store).1
run_call (syncs ps) store = (replace_synced_profiles ps store).1
