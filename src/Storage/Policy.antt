-- ===== src/Storage/Policy.antt =====
-- server/internal/app/storage_policy.go, lines 15-89: the policy, its defaults, how it is loaded
-- and how it is validated. `encoding/json` is a parameter of `load_storage_policy`.
pub mod Bounds
mod Tests
use gp_sdr.Prelude.{
  ℕ, ◌+◌, ◌*◌, Bool, true, false, ◌&&◌, ◌||◌, Option, none, some, List, [], ◌∷◌, if◌then◌else◌,
}
use gp_sdr.Prelude.Int.{ℤ, pos, negsuc, ltb_ℤ, eqb_ℤ}

-- Go's int and int64 are read as integers: the code only compares these fields.
pub record StoragePolicy : Type 0 where
  pub auto_cleanup : Bool
  pub max_capture_days : ℤ
  pub recording_cap_bytes : ℤ
  pub iq_cap_bytes : ℤ
  pub capture_journal_cap_bytes : ℤ
  pub auto_remove_quarantine : Bool
  pub quarantine_retention_hours : ℤ

-- The four messages of `validateStoragePolicy`.
pub data PolicyError : Type 0 where
  capture_days quarantine_hours storage_caps journal_cap : PolicyError

abbrev pub gibibyte : ℕ
gibibyte = 1024 * 1024 * 1024

abbrev pub default_capture_journal_cap_bytes : ℕ
default_capture_journal_cap_bytes = 128 * 1024 * 1024

abbrev pub max_capture_journal_cap_bytes : ℕ
max_capture_journal_cap_bytes = 1024 * 1024 * 1024

unfoldable pub default_storage_policy : StoragePolicy
default_storage_policy = record {
  auto_cleanup = false;
  max_capture_days = pos 30;
  recording_cap_bytes = pos (15 * gibibyte);
  iq_cap_bytes = pos (10 * gibibyte);
  capture_journal_cap_bytes = pos default_capture_journal_cap_bytes;
  auto_remove_quarantine = true;
  quarantine_retention_hours = pos 24;
}

-- The loop over the two storage caps: whether one is out of range.
unfoldable pub bad_cap : List ℤ → Bool
bad_cap [] = false
bad_cap (cap_bytes ∷ caps) =
    ltb_ℤ cap_bytes (pos 0) || ltb_ℤ (pos (2 * 1024 * gibibyte)) cap_bytes || bad_cap caps

-- A zero retention under automatic removal becomes a day.
unfoldable pub default_hours : StoragePolicy → StoragePolicy
default_hours policy =
    if policy.auto_remove_quarantine && eqb_ℤ policy.quarantine_retention_hours (pos 0)
    then record policy { quarantine_retention_hours = pos 24 }
    else policy

abbrev bad_hours : StoragePolicy → Bool
bad_hours policy =
    ltb_ℤ policy.quarantine_retention_hours (pos 0)
    || ltb_ℤ (pos 168) policy.quarantine_retention_hours
    || (policy.auto_remove_quarantine && ltb_ℤ policy.quarantine_retention_hours (pos 1))

-- The policy that Go returns beside its error, which is `none` for nil.
unfoldable pub validate_storage_policy : StoragePolicy → StoragePolicy × Option PolicyError
unfolding bad_cap default_hours
validate_storage_policy policy =
    if ltb_ℤ policy.max_capture_days (pos 0) || ltb_ℤ (pos 3650) policy.max_capture_days
    then (policy, some capture_days)
    else (let checked = default_hours policy in
        if bad_hours checked
        then (checked, some quarantine_hours)
        else if bad_cap (checked.recording_cap_bytes ∷ checked.iq_cap_bytes ∷ [])
        then (checked, some storage_caps)
        else if ltb_ℤ checked.capture_journal_cap_bytes (pos 0)
            || ltb_ℤ (pos max_capture_journal_cap_bytes) checked.capture_journal_cap_bytes
        then (checked, some journal_cap)
        else (checked, none))

-- Which of the three newer fields the stored object names (the `raw` map of `loadStoragePolicy`).
pub record RawKeys : Type 0 where
  pub has_auto_remove : Bool
  pub has_hours : Bool
  pub has_journal_cap : Bool

-- The migration of an older file: a field that it does not name gets its default.
unfoldable pub migrate : RawKeys → StoragePolicy → StoragePolicy
migrate raw policy =
    let p1 =
      if raw.has_auto_remove then policy else record policy { auto_remove_quarantine = true } in
    let p2 = if raw.has_hours then p1 else record p1 { quarantine_retention_hours = pos 24 } in
    if raw.has_journal_cap
    then p2
    else record p2 { capture_journal_cap_bytes = pos default_capture_journal_cap_bytes }

abbrev accept : StoragePolicy × Option PolicyError → StoragePolicy
accept (validated, none) = validated
accept (validated, some err) = default_storage_policy

-- `decode` is json.Unmarshal into a policy that holds the defaults: what it leaves there is kept,
-- whatever error it returns. `raw_keys` is json.Unmarshal into the map, `none` where that fails.
module _ {Bytes : Type 0} (decode : Bytes → StoragePolicy → StoragePolicy)
    (raw_keys : Bytes → Option RawKeys) where
  unfoldable pub migrated : Option Bytes → StoragePolicy
  unfolding migrate
  migrated none = default_storage_policy
  migrated (some file) =
      let policy = decode file default_storage_policy in
      elim (raw_keys file) [ none ↦ policy | some raw ↦ migrate raw policy ]

  -- The argument is the file's content, `none` where it cannot be read.
  unfoldable pub load_storage_policy : Option Bytes → StoragePolicy
  load_storage_policy file = accept (validate_storage_policy (migrated file))
