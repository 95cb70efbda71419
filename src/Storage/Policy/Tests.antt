-- ===== src/Storage/Policy/Tests.antt =====
-- Runs of server/internal/app/storage_policy.go at small inputs, and the theorems at inputs.
use gp_sdr.Prelude.{◌≡◌, refl, none, some, true, arith}
use gp_sdr.Prelude.Int.{pos, negsuc}
use gp_sdr.Storage.Policy.{
  StoragePolicy, RawKeys, default_storage_policy, validate_storage_policy, load_storage_policy,
  capture_days, quarantine_hours, storage_caps, journal_cap, default_hours,
}
use gp_sdr.Storage.Policy.Bounds.{IsValid, load-IsValid, load-save, validate_iff}
use gp_sdr.Prelude.{◌↔◌}

abbrev legacy : StoragePolicy
legacy = record {
  auto_cleanup = true;
  max_capture_days = pos 7;
  recording_cap_bytes = pos 0;
  iq_cap_bytes = pos 4096;
  capture_journal_cap_bytes = pos 0;
  auto_remove_quarantine = true;
  quarantine_retention_hours = pos 0;
}

legacy_accepted :
    validate_storage_policy legacy ≡ (record legacy { quarantine_retention_hours = pos 24 }, none)
unfolding validate_storage_policy
legacy_accepted = refl

negative_days :
    validate_storage_policy (record legacy { max_capture_days = negsuc 0 })
    ≡ (record legacy { max_capture_days = negsuc 0 }, some capture_days)
unfolding validate_storage_policy
negative_days = refl

negative_hours_rejected :
    (validate_storage_policy (record legacy { quarantine_retention_hours = negsuc 4 })).1
    ≡ some quarantine_hours
unfolding validate_storage_policy
negative_hours_rejected = refl

huge_cap_rejected :
    (validate_storage_policy (record legacy { iq_cap_bytes = pos 99999999999999 })).1
    ≡ some storage_caps
unfolding validate_storage_policy
huge_cap_rejected = refl

huge_journal_rejected :
    (validate_storage_policy (record legacy { capture_journal_cap_bytes = pos 1073741825 })).1
    ≡ some journal_cap
unfolding validate_storage_policy
huge_journal_rejected = refl

default_accepted : validate_storage_policy default_storage_policy ≡ (default_storage_policy, none)
unfolding validate_storage_policy default_storage_policy
default_accepted = refl

validate_iff_example :
    (validate_storage_policy legacy ≡ (default_hours legacy, none))
    ↔ ((default_hours legacy ≡ default_hours legacy) × IsValid (default_hours legacy))
validate_iff_example = validate_iff legacy (default_hours legacy)

-- A file is a policy, and the decoder reads it whole.
abbrev all_keys : RawKeys
all_keys = record { has_auto_remove = true; has_hours = true; has_journal_cap = true }

load-IsValid_example :
    IsValid (load_storage_policy (λ file start. file) (λ file. none) (some legacy))
load-IsValid_example = load-IsValid (λ file start. file) (λ file. none) (some legacy)

load-save_example :
    load_storage_policy
      (λ file start. file)
      (λ file. some all_keys)
      (some (record legacy { quarantine_retention_hours = pos 24 }))
    ≡ record legacy { quarantine_retention_hours = pos 24 }
load-save_example =
    load-save (λ p. p) (λ file start. file) (λ file. some all_keys)
      (record legacy { quarantine_retention_hours = pos 24 }) (λ start. refl) refl (omega arith)
