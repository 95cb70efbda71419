-- ===== src/Storage/Policy/Bounds.antt =====
-- What a validated storage policy promises (server/internal/app/storage_policy.go).
use gp_sdr.Prelude.{◌*◌, ◌≡◌, ◌↔◌, true, Option, none, some, arith, ap, subst, sym, ◌∙◌}
use gp_sdr.Prelude.Int.{pos, ◌≤ℤ◌}
use gp_sdr.Storage.Policy.{
  StoragePolicy, RawKeys, gibibyte, max_capture_journal_cap_bytes, default_storage_policy,
  default_hours, validate_storage_policy, load_storage_policy, accept, migrated,
}

-- The ranges, stated without reference to the code's tests.
pub record IsValid (p : StoragePolicy) : Type 0 where
  pub days : (pos 0 ≤ℤ p.max_capture_days) × (p.max_capture_days ≤ℤ pos 3650)
  pub recordings :
      (pos 0 ≤ℤ p.recording_cap_bytes) × (p.recording_cap_bytes ≤ℤ pos (2048 * gibibyte))
  pub iq : (pos 0 ≤ℤ p.iq_cap_bytes) × (p.iq_cap_bytes ≤ℤ pos (2048 * gibibyte))
  pub journal :
      (pos 0 ≤ℤ p.capture_journal_cap_bytes)
      × (p.capture_journal_cap_bytes ≤ℤ pos max_capture_journal_cap_bytes)
  pub hours : (pos 0 ≤ℤ p.quarantine_retention_hours) × (p.quarantine_retention_hours ≤ℤ pos 168)
  pub removal_waits : p.auto_remove_quarantine ≡ true → pos 1 ≤ℤ p.quarantine_retention_hours

validate-IsValid :
    (p : StoragePolicy)
    → (validate_storage_policy p).1 ≡ none
    → IsValid (validate_storage_policy p).0
unfolding validate_storage_policy
validate-IsValid p h = ground arith

-- What acceptance returns is the policy with the default hours filled in.
validate-eq-hours :
    (p : StoragePolicy)
    → (validate_storage_policy p).1 ≡ none
    → (validate_storage_policy p).0 ≡ default_hours p
unfolding validate_storage_policy
validate-eq-hours p h = ground arith

IsValid-validate :
    (p : StoragePolicy)
    → IsValid (default_hours p)
    → validate_storage_policy p ≡ (default_hours p, none)
unfolding validate_storage_policy
IsValid-validate p v = ground arith

-- A policy is accepted exactly when it is valid once a zero retention under automatic removal has
-- been read as a day; what is returned with no error is the policy so read.
pub validate_iff :
    (p q : StoragePolicy)
    → (validate_storage_policy p ≡ (q, none)) ↔ ((q ≡ default_hours p) × IsValid q)
validate_iff p q = (
  λ h.
      let ok : (validate_storage_policy p).1 ≡ none = ap (λ r. r.1) h in
      let same : (validate_storage_policy p).0 ≡ q = ap (λ r. r.0) h in
      (sym same ∙ validate-eq-hours p ok, subst IsValid same (validate-IsValid p ok)),
  λ v.
      let valid : IsValid (default_hours p) = subst IsValid v.0 v.1 in
      subst (λ r. validate_storage_policy p ≡ (r, none)) (sym v.0) (IsValid-validate p valid),
)

accept-IsValid : (p : StoragePolicy) → IsValid (accept (validate_storage_policy p))
unfolding validate_storage_policy default_storage_policy
accept-IsValid p = ground arith

-- Whatever the file holds and whatever the decoder makes of it, the policy in force is valid.
pub load-IsValid :
    {Bytes : Type 0} (decode : Bytes → StoragePolicy → StoragePolicy)
    (raw_keys : Bytes → Option RawKeys) (file : Option Bytes)
    → IsValid (load_storage_policy decode raw_keys file)
unfolding load_storage_policy
load-IsValid decode raw_keys file = accept-IsValid (migrated decode raw_keys file)

default_hours_valid : (p : StoragePolicy) → IsValid p → default_hours p ≡ p
unfolding default_hours
default_hours_valid p v = ground arith

validate_valid : (p : StoragePolicy) → IsValid p → validate_storage_policy p ≡ (p, none)
validate_valid p v =
    let same = default_hours_valid p v in
    subst (λ q. validate_storage_policy p ≡ (q, none)) same
      (IsValid-validate p (subst IsValid (sym same) v))

-- Validation is idempotent: an accepted policy is accepted again, unchanged.
pub validate-validate :
    (p : StoragePolicy)
    → (validate_storage_policy p).1 ≡ none
    → validate_storage_policy (validate_storage_policy p).0 ≡ ((validate_storage_policy p).0, none)
validate-validate p h = validate_valid (validate_storage_policy p).0 (validate-IsValid p h)

module _ {Bytes : Type 0} (encode : StoragePolicy → Bytes)
    (decode : Bytes → StoragePolicy → StoragePolicy) (raw_keys : Bytes → Option RawKeys)
    (p : StoragePolicy) (reads : (start : StoragePolicy) → decode (encode p) start ≡ p)
    (keys : raw_keys (encode p)
      ≡ some (record { has_auto_remove = true; has_hours = true; has_journal_cap = true })) where
  migrated-encode : migrated decode raw_keys (some (encode p)) ≡ p
  unfolding migrated
  migrated-encode = rw (keys, migrated) (reads default_storage_policy)

  -- A valid policy is loaded back as it was saved, if the decoder reads what the encoder wrote and
  -- the file names the three newer fields.
  pub load-save : IsValid p → load_storage_policy decode raw_keys (some (encode p)) ≡ p
  unfolding load_storage_policy
  load-save v = rw (migrated-encode, validate_valid p v)
