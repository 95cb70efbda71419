-- ===== src/Storage/Prune/Laws.antt =====
-- What pruning to a cap deletes (server/internal/app/storage_policy.go).
use gp_sdr.Prelude.{ℕ, ◌+◌, ◌≤◌, ◌≡◌, ◌⊎◌, Bool, true, false, ◌||◌, List, [], ◌∷◌}
use gp_sdr.Prelude.Text.{Text, codes, contains}
use gp_sdr.Storage.Prune.{CaptureFile, priority_of, total_size, is_protected, Pruned}

-- Every file of a list may be deleted, or none may.
abbrev pub AllTests : (CaptureFile → Bool) → Bool → List CaptureFile → Type 0
AllTests test answer [] = Unit
AllTests test answer (file ∷ files) = (test file ≡ answer) × AllTests test answer files

-- A path of the pending captures, which are neither in quarantine nor retained.
abbrev pub IsPending : Text → Type 0
IsPending path =
    (contains path (codes "/Pending/") ≡ true)
    × (contains path (codes "/Quarantine/") ≡ false)
    × (contains path (codes "/Retained/") ≡ false)

-- The files have the priority of their paths.
abbrev AllRanked : List CaptureFile → Type 0
AllRanked [] = Unit
AllRanked (file ∷ files) = (file.priority ≡ priority_of file.path) × AllRanked files

module _ (outside fails : Text → Bool) (now : ℕ) where
  abbrev pub is_kept : CaptureFile → Bool
  is_kept file = is_protected now file || outside file.path

  -- Files that were written long enough ago, inside the root.
  abbrev pub AllOld : List CaptureFile → Type 0
  AllOld [] = Unit
  AllOld (file ∷ files) =
      ((file.modified + 600 ≤ now)
        × (IsPending file.path → file.modified + 86400 ≤ now)
        × (outside file.path ≡ false))
      × AllOld files

  pub record IsPruned (cap total : ℕ) (result : Pruned) : Type 0 where
    pub counted : total_size result.deleted + total_size result.left ≡ total
    pub only_old : AllOld result.deleted
    pub enough :
        result.failed ≡ false → (total_size result.left ≤ cap) ⊎ AllTests is_kept true result.left
