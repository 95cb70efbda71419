-- ===== src/Storage/Journal/Laws.antt =====
-- What `compactCaptureIntervalJournal` of server/internal/app/storage_policy.go promises.
use gp_sdr.Prelude.{
  ℕ, zero, suc, ◌+◌, ◌-◌, ◌≤◌, ◌<◌, ◌≡◌, ◌≢◌, refl, ap, sym, subst, ◌∙◌, true, none, some, List, [],
  ◌∷◌, ◌++◌, append_assoc, length, length-append, length-take, length-drop, take-append-drop, take,
  drop, arith,
}
use gp_sdr.Prelude.Int.{ℤ, pos, negsuc}
use gp_sdr.Storage.Journal.{
  JournalFile, regular, Disk, Compaction, JournalError, split_after, without_last, kept_start, join,
  compact_lines, compact_capture_interval_journal,
}
use gp_sdr.Storage.Journal.Lines.{
  size_from, size_from_all, kept_start-IsKept, EndsLine, All, join-split_after,
  split_after-EndsLine, HasNoNewline, split_after-EndsOpen, join-append, All-take, All-drop,
  size_from_before, size_from_last,
}

-- A file that was cut down to `cap` bytes: what it held were the lines `dropped`, then the lines
-- `kept`, then a piece with no newline; `kept` is what it holds now.
pub record IsCompacted (bytes : List ℕ) (cap : ℕ) (result : Compaction) : Type 0 where
  pub dropped : List (List ℕ)
  pub kept : List (List ℕ)
  pub tail : List ℕ
  pub whole : bytes ≡ join dropped ++ (join kept ++ tail)
  pub file : result.file ≡ regular (join kept)
  pub open_tail : HasNoNewline tail
  pub dropped_lines : All EndsLine dropped
  pub kept_lines : All EndsLine kept
  pub some_kept : kept ≢ []
  pub fits : length (join kept) ≤ cap
  pub counted : result.removed ≡ length dropped
  pub freed : result.freed + length (join kept) ≡ length bytes
  pub newest :
      (before : List (List ℕ)) (line : List ℕ)
      → dropped ≡ before ++ line ∷ []
      → cap < length line + length (join kept)

-- An error leaves the journal as it was, and counts nothing as removed or freed.
pub compact_error_unchanged :
    (disk : Disk) (cap : ℤ) (file : JournalFile) {e : JournalError}
    → (compact_capture_interval_journal disk cap file).error ≡ some e
    → ((compact_capture_interval_journal disk cap file).file ≡ file)
      × ((compact_capture_interval_journal disk cap file).removed ≡ 0)
      × ((compact_capture_interval_journal disk cap file).freed ≡ 0)
unfolding compact_capture_interval_journal compact_lines
compact_error_unchanged disk (pos zero) file h = cc
compact_error_unchanged disk (negsuc n) file h = cc
compact_error_unchanged disk (pos (suc cap)) file h = ground arith

compact_lines_ok :
    (disk : Disk) (cap : ℕ) (bytes : List ℕ) (lines : List (List ℕ))
    → (compact_lines disk cap bytes lines).error ≡ none
    → (kept_start lines cap (length lines) 0 ≢ length lines)
      × (compact_lines disk cap bytes lines ≡ record {
        file = regular (join (drop (kept_start lines cap (length lines) 0) lines));
        removed = kept_start lines cap (length lines) 0;
        freed = length bytes - length (join (drop (kept_start lines cap (length lines) 0) lines));
        error = none;
      })
unfolding compact_lines
compact_lines_ok disk cap bytes lines h = (ground arith, ground arith)

-- A successful run on the complete lines.
compact_lines-IsCompacted :
    (disk : Disk) (cap : ℕ) (bytes : List ℕ) (lines : List (List ℕ)) (tail : List ℕ)
    → bytes ≡ join lines ++ tail
    → HasNoNewline tail
    → All EndsLine lines
    → (compact_lines disk cap bytes lines).error ≡ none
    → IsCompacted bytes cap (compact_lines disk cap bytes lines)
compact_lines-IsCompacted disk cap bytes lines tail e open_end ends h =
    let r = kept_start lines cap (length lines) 0 in
    let (proper, result) = compact_lines_ok disk cap bytes lines h in
    let loop =
      kept_start-IsKept lines cap (length lines) 0 (omega arith) (sym (size_from_all lines))
        (omega arith) in
    let parts : take r lines ++ drop r lines ≡ lines = take-append-drop r lines in
    let joined : join lines ≡ join (take r lines) ++ join (drop r lines) =
      ap join (sym parts) ∙ join-append (take r lines) (drop r lines) in
    let kept = join (drop r lines) in
    let whole : bytes ≡ join (take r lines) ++ (kept ++ tail) =
      e ∙ ap (λ b. b ++ tail) joined ∙ append_assoc (join (take r lines)) kept tail in
    rw result (record {
      dropped = take r lines;
      kept = drop r lines;
      tail = tail;
      whole = whole;
      open_tail = open_end;
      file = refl;
      dropped_lines = All-take EndsLine r lines ends;
      kept_lines = All-drop EndsLine r lines ends;
      some_kept = λ q. proper (omega (arith, ap length q, length-drop r lines, loop.within));
      fits = loop.fits;
      counted = omega (arith, length-take r lines, loop.within);
      freed = omega (
        arith,
        ap length whole,
        length-append (join (take r lines)) (kept ++ tail),
        length-append kept tail,
      );
      newest = λ before line q.
          let stands : size_from lines (length before) ≡ length line + length kept =
            subst (λ l. size_from l (length before) ≡ length line + length kept)
              (ap (λ t. t ++ drop r lines) (sym q) ∙ parts)
              (size_from_before before line (drop r lines)) in
          let here : suc (length before) ≡ r = omega (
            arith,
            ap length q,
            length-take r lines,
            length-append before (line ∷ []),
            loop.within,
          ) in
          omega (arith, loop.tight (length before) here, stands);
    })

-- Above the cap and readable, the journal is cut by its complete lines.
compact_step :
    (disk : Disk) (cap : ℕ) (bytes : List ℕ)
    → suc cap < length bytes
    → disk.can_read ≡ true
    → compact_capture_interval_journal disk (pos (suc cap)) (regular bytes)
      ≡ compact_lines disk (suc cap) bytes (without_last (split_after bytes))
unfolding compact_capture_interval_journal
compact_step disk cap bytes big reads = ground arith

compact_ok_reads :
    (disk : Disk) (cap : ℕ) (bytes : List ℕ)
    → suc cap < length bytes
    → (compact_capture_interval_journal disk (pos (suc cap)) (regular bytes)).error ≡ none
    → disk.can_read ≡ true
unfolding compact_capture_interval_journal
compact_ok_reads disk cap bytes big ok = ground arith

-- A run that returns no error on a journal above a cap that is not zero drops its oldest complete
-- lines and the piece with no newline at its end, keeps all the newest complete lines that fit, at
-- least one, and counts the lines it dropped and the bytes it freed.
pub compact-IsCompacted :
    (disk : Disk) (cap : ℕ) (bytes : List ℕ)
    → cap < length bytes
    → 0 < cap
    → (compact_capture_interval_journal disk (pos cap) (regular bytes)).error ≡ none
    → IsCompacted bytes cap (compact_capture_interval_journal disk (pos cap) (regular bytes))
compact-IsCompacted disk zero bytes big h ok = absurd (omega arith)
compact-IsCompacted disk (suc cap) bytes big h ok =
    let step = compact_step disk cap bytes big (compact_ok_reads disk cap bytes big ok) in
    let lines = without_last (split_after bytes) in
    let (tail, open_end, e) = split_after-EndsOpen bytes in
    rw step (
      compact_lines-IsCompacted disk (suc cap) bytes lines tail (sym (join-split_after bytes) ∙ e)
        open_end (split_after-EndsLine bytes) (rw step at ok))

compact_lines_runs :
    (disk : Disk) (cap : ℕ) (bytes : List ℕ) (lines : List (List ℕ))
    → disk.can_write ≡ true
    → 0 < length lines
    → kept_start lines cap (length lines) 0 ≢ length lines
    → (compact_lines disk cap bytes lines).error ≡ none
unfolding compact_lines
compact_lines_runs disk cap bytes lines writes some_lines proper = ground arith

compact-error :
    (disk : Disk) (cap : ℕ) (bytes : List ℕ) (before : List (List ℕ)) (line : List ℕ)
    → disk.can_read ≡ true
    → disk.can_write ≡ true
    → cap < length bytes
    → 0 < cap
    → without_last (split_after bytes) ≡ before ++ line ∷ []
    → length line ≤ cap
    → (compact_capture_interval_journal disk (pos cap) (regular bytes)).error ≡ none
compact-error disk zero bytes before line reads writes big h e fits = absurd (omega arith)
compact-error disk (suc cap) bytes before line reads writes big h e fits =
    let lines = before ++ line ∷ [] in
    let count : length lines ≡ suc (length before) =
      omega (arith, length-append before (line ∷ [])) in
    let loop =
      kept_start-IsKept lines (suc cap) (length lines) 0 (omega arith) (sym (size_from_all lines))
        (omega arith) in
    let stands = size_from_last before line in
    rw (compact_step disk cap bytes big reads, e)
      (compact_lines_runs disk (suc cap) bytes lines writes (omega arith)
        (λ q. absurd (omega (arith, loop.tight (length before) (omega arith), stands))))

-- On a disk that reads and writes, a journal above a cap that is not zero whose last complete line
-- fits the cap is compacted with no error: its newest complete lines that fit are what is left.
pub compact_succeeds :
    (disk : Disk) (cap : ℕ) (bytes : List ℕ) (before : List (List ℕ)) (line : List ℕ)
    → disk.can_read ≡ true
    → disk.can_write ≡ true
    → cap < length bytes
    → 0 < cap
    → without_last (split_after bytes) ≡ before ++ line ∷ []
    → length line ≤ cap
    → ((compact_capture_interval_journal disk (pos cap) (regular bytes)).error ≡ none)
      × IsCompacted bytes cap (compact_capture_interval_journal disk (pos cap) (regular bytes))
compact_succeeds disk cap bytes before line reads writes big h e fits =
    let ok = compact-error disk cap bytes before line reads writes big h e fits in
    (ok, compact-IsCompacted disk cap bytes big h ok)
