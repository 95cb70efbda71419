-- ===== src/Storage/Prune.antt =====
-- server/internal/app/storage_policy.go, lines 254-326: `pruneCaptureRootToCap`. Times are in
-- seconds. The walk is taken to succeed: its files are an input, without directories and symbolic
-- links. Whether os.Remove fails on a file, and whether its path is outside of the root, are inputs.
mod Laws
mod Tests
use gp_sdr.Prelude.{
  ℕ, zero, suc, ◌+◌, ◌-◌, Bool, true, false, not, ◌&&◌, ◌||◌, ◌==◌, List, [], ◌∷◌, ltb, leb,
  if◌then◌else◌,
}
use gp_sdr.Prelude.Int.{ℤ, pos, negsuc}
use gp_sdr.Prelude.Text.{Text, codes, contains, has_suffix}
use gp_sdr.Events.Text.{text_less}

pub record CaptureFile : Type 0 where
  pub path : Text
  pub size : ℕ
  pub modified : ℕ
  pub priority : ℕ

unfoldable pub priority_of : Text → ℕ
priority_of path =
    if contains path (codes "/Quarantine/")
    then 0
    else if contains path (codes "/Retained/")
    then 2
    else if contains path (codes "/Pending/")
    then 3
    else 1

-- The files of the walk, without those that are still written.
unfoldable pub capture_files : List CaptureFile → List CaptureFile
capture_files [] = []
capture_files (file ∷ files) =
    let rest = capture_files files in
    if has_suffix file.path (codes ".part")
    then rest
    else (record file { priority = priority_of file.path }) ∷ rest

abbrev pub total_size : List CaptureFile → ℕ
total_size [] = 0
total_size (file ∷ files) = file.size + total_size files

unfoldable pub comes_before : CaptureFile → CaptureFile → Bool
comes_before a b =
    if not (a.priority == b.priority)
    then ltb a.priority b.priority
    else if a.modified == b.modified
    then text_less a.path b.path
    else ltb a.modified b.modified

-- sort.Slice
unfoldable pub insert_file : CaptureFile → List CaptureFile → List CaptureFile
insert_file file [] = file ∷ []
insert_file file (other ∷ files) =
    let rest = insert_file file files in
    if comes_before other file then other ∷ rest else file ∷ other ∷ files

unfoldable pub sort_files : List CaptureFile → List CaptureFile
sort_files [] = []
sort_files (file ∷ files) = insert_file file (sort_files files)

-- Written in the last 10 minutes, or pending and written in the last day.
unfoldable pub is_protected : ℕ → CaptureFile → Bool
is_protected now file =
    ltb now (file.modified + 600) || ((file.priority == 3) && ltb now (file.modified + 86400))

-- What is deleted, in order, what is left, and whether a deletion failed.
pub record Pruned : Type 0 where
  pub deleted : List CaptureFile
  pub left : List CaptureFile
  pub failed : Bool

abbrev pub keep_file : CaptureFile → Pruned → Pruned
keep_file file rest = record rest { left = file ∷ rest.left }

abbrev pub delete_file : CaptureFile → Pruned → Pruned
delete_file file rest = record rest { deleted = file ∷ rest.deleted }

module _ (outside fails : Text → Bool) where
  -- The loop over the sorted files.
  unfoldable pub prune_files : ℕ → ℕ → ℕ → List CaptureFile → Pruned
  prune_files cap now total [] = record { deleted = []; left = []; failed = false }
  prune_files cap now total (file ∷ files) =
      let skipped = prune_files cap now total files in
      let removed = prune_files cap now (total - file.size) files in
      if leb total cap
      then record { deleted = []; left = file ∷ files; failed = false }
      else if is_protected now file || outside file.path
      then keep_file file skipped
      else if fails file.path
      then record { deleted = []; left = file ∷ files; failed = true }
      else delete_file file removed

  unfoldable pub prune_capture_root_to_cap : ℤ → ℕ → List CaptureFile → Pruned
  prune_capture_root_to_cap (pos zero) now walked = record {
    deleted = [];
    left = capture_files walked;
    failed = false;
  }
  prune_capture_root_to_cap (pos (suc cap)) now walked =
      let files = capture_files walked in
      if leb (total_size files) (suc cap)
      then record { deleted = []; left = files; failed = false }
      else prune_files (suc cap) now (total_size files) (sort_files files)
  prune_capture_root_to_cap (negsuc n) now walked = record {
    deleted = [];
    left = capture_files walked;
    failed = false;
  }
