-- ===== src/Storage/Journal.antt =====
-- server/internal/app/storage_policy.go, lines 155-206: `compactCaptureIntervalJournal`, which cuts
-- the capture timing journal down to its newest complete lines.
pub mod Lines
pub mod Laws
mod Tests
use gp_sdr.Prelude.{
  ℕ, zero, suc, ◌+◌, ◌-◌, Bool, true, false, Option, none, some, List, [], ◌∷◌, ◌++◌, leb, ◌==◌,
  if◌then◌else◌, length, get_or, take, drop,
}
use gp_sdr.Prelude.Int.{ℤ, pos, negsuc}

-- What os.Stat finds at the journal's path, with the bytes of a regular file.
pub data JournalFile : Type 0 where
  missing : JournalFile
  stat_fails : JournalFile
  irregular : JournalFile
  regular : List ℕ → JournalFile

-- Whether os.ReadFile and the atomic replacement of the file succeed.
pub record Disk : Type 0 where
  pub can_read : Bool
  pub can_write : Bool

pub data JournalError : Type 0 where
  stat_failed not_regular read_failed no_complete_records cap_too_small write_failed : JournalError

pub record Compaction : Type 0 where
  pub file : JournalFile
  pub removed : ℕ
  pub freed : ℕ
  pub error : Option JournalError

-- The first piece grows at its front.
unfoldable pub push_front : ℕ → List (List ℕ) → List (List ℕ)
push_front c [] = (c ∷ []) ∷ []
push_front c (line ∷ lines) = (c ∷ line) ∷ lines

-- bytes.SplitAfter at newlines: every piece but the last one ends with its newline.
unfoldable pub split_after : List ℕ → List (List ℕ)
unfolding push_front
split_after [] = [] ∷ []
split_after (c ∷ rest) =
    let lines = split_after rest in if c == b'\n' then (c ∷ []) ∷ lines else push_front c lines

-- Both branches that follow the split cut its last piece: an empty one, or an append without its
-- newline.
unfoldable pub without_last : List (List ℕ) → List (List ℕ)
without_last [] = []
without_last (line ∷ []) = []
without_last (line ∷ next ∷ lines) = line ∷ without_last (next ∷ lines)

-- The loop that moves `keptStart` down while the lines kept fit the cap.
unfoldable pub kept_start : List (List ℕ) → ℕ → ℕ → ℕ → ℕ
kept_start lines cap zero kept_bytes = zero
kept_start lines cap (suc k) kept_bytes =
    let size = kept_bytes + length (get_or lines k []) in
    let further = kept_start lines cap k size in if leb size cap then further else suc k

-- bytes.Join with no separator.
unfoldable pub join : List (List ℕ) → List ℕ
join [] = []
join (line ∷ lines) = line ++ join lines

abbrev keep : JournalFile → JournalError → Compaction
keep file err = record { file = file; removed = 0; freed = 0; error = some err }

abbrev unchanged : JournalFile → Compaction
unchanged file = record { file = file; removed = 0; freed = 0; error = none }

-- From the complete lines on.
unfoldable pub compact_lines : Disk → ℕ → List ℕ → List (List ℕ) → Compaction
compact_lines disk cap bytes lines =
    let start = kept_start lines cap (length lines) 0 in
    let compacted = join (drop start lines) in
    if length lines == 0
    then keep (regular bytes) no_complete_records
    else if start == length lines
    then keep (regular bytes) cap_too_small
    else if disk.can_write
    then record {
      file = regular compacted;
      removed = start;
      freed = length bytes - length compacted;
      error = none;
    }
    else keep (regular bytes) write_failed

unfoldable pub compact_file : Disk → ℕ → JournalFile → Compaction
compact_file disk cap missing = unchanged missing
compact_file disk cap stat_fails = keep stat_fails stat_failed
compact_file disk cap irregular = keep irregular not_regular
compact_file disk cap (regular bytes) =
    if leb (length bytes) cap
    then unchanged (regular bytes)
    else if disk.can_read
    then compact_lines disk cap bytes (without_last (split_after bytes))
    else keep (regular bytes) read_failed

-- A cap of zero or less leaves the journal alone.
unfoldable pub compact_capture_interval_journal : Disk → ℤ → JournalFile → Compaction
unfolding compact_file
compact_capture_interval_journal disk (pos zero) file = unchanged file
compact_capture_interval_journal disk (pos (suc cap)) file = compact_file disk (suc cap) file
compact_capture_interval_journal disk (negsuc n) file = unchanged file
