-- ===== src/Storage/Journal/Tests.antt =====
-- A small journal of server/internal/app/storage_policy.go, and the theorems at it.
use gp_sdr.Prelude.{ℕ, ◌≡◌, refl, true, false, none, some, List, [], ◌∷◌, arith, ap}
use gp_sdr.Prelude.Int.{pos}
use gp_sdr.Storage.Journal.{
  Disk, regular, cap_too_small, write_failed, split_after, without_last, kept_start, join,
  compact_lines, compact_capture_interval_journal,
}
use gp_sdr.Storage.Journal.Laws.{IsCompacted, compact-IsCompacted, compact_succeeds}

abbrev healthy : Disk
healthy = record { can_read = true; can_write = true }

abbrev full : Disk
full = record { can_read = true; can_write = false }

-- Two whole lines, and the start of a third.
abbrev torn : List ℕ
torn = b'a' ∷ b'\n' ∷ b'b' ∷ b'b' ∷ b'\n' ∷ b'c' ∷ []

abbrev newest_line : List ℕ
newest_line = b'b' ∷ b'b' ∷ b'\n' ∷ []

torn_compacted :
    compact_capture_interval_journal healthy (pos 4) (regular torn)
    ≡ record { file = regular newest_line; removed = 1; freed = 3; error = none }
unfolding compact_capture_interval_journal compact_lines split_after without_last kept_start join
torn_compacted = refl

cap_refused :
    (compact_capture_interval_journal healthy (pos 2) (regular torn)).error ≡ some cap_too_small
unfolding compact_capture_interval_journal compact_lines split_after without_last kept_start join
cap_refused = refl

write_refused :
    (compact_capture_interval_journal full (pos 4) (regular torn)).error ≡ some write_failed
unfolding compact_capture_interval_journal compact_lines split_after without_last kept_start join
write_refused = refl

compact-IsCompacted_example :
    IsCompacted torn 4 (compact_capture_interval_journal healthy (pos 4) (regular torn))
compact-IsCompacted_example =
    compact-IsCompacted healthy 4 torn (omega arith) (omega arith)
      (ap (λ c. c.error) torn_compacted)

compact_succeeds_example :
    ((compact_capture_interval_journal healthy (pos 4) (regular torn)).error ≡ none)
    × IsCompacted torn 4 (compact_capture_interval_journal healthy (pos 4) (regular torn))
unfolding split_after without_last
compact_succeeds_example =
    compact_succeeds healthy 4 torn ((b'a' ∷ b'\n' ∷ []) ∷ []) newest_line refl refl (omega arith)
      (omega arith) refl (omega arith)
