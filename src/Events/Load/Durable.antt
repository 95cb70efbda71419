-- ===== src/Events/Load/Durable.antt =====
-- The calls of server/internal/app/store.go keep the journals in step with memory.
use gp_sdr.Prelude.{
  ℕ, ◌+◌, ◌≡◌, ◌≢◌, refl, sym, ap, ◌∙◌, subst, ◌⊎◌, inl, inr, Bool, true, false, Bool-cases, Option,
  Option-cases, none, some, List, [], ◌∷◌, ◌++◌, arith, length, length-append, get_elem?, set,
}
use gp_sdr.Prelude.Text.{Text, codes_eq, codes_eq_iff}
use gp_sdr.Events.Event.{TransmissionEvent}
use gp_sdr.Events.Store
use gp_sdr.Events.Store.{
  row, clean, Journal, Outcome, written, append_row, Positions, position, EventStore, StoreError,
  not_found, Call, append_event, set_transcript, set_analysis, set_messages, set_audio_path,
  set_iq_path, set_status, at_id, store_edited, run_call, edit_transcript, edit_analysis,
  edit_decoder, edit_audio_path, edit_iq_path, edit_status,
}
use gp_sdr.Events.Load.{
  event_row_limit, update_row_limit, repair_torn_event_tail, is_legacy_mapper_false_positive,
  replace, to_rows, rebuild, load_over, new_event_store,
}
use gp_sdr.Events.Load.Replay.{
  AllShort, positions_all, replay, AllCurrent, PointInto, AllKnown, load_updates-to_rows,
  load_rows-to_rows, to_rows-append, positions_all-append, replay-append, length-replay,
  replace-some, replay_fresh,
}

abbrev pub journal_of : List TransmissionEvent → Journal
journal_of events = record { rows = to_rows events; tail = clean }

-- The journals hold the events as they were appended and the updates that led to memory.
pub record IsDurable (store : EventStore) : Type 0 where
  pub originals : List TransmissionEvent
  pub edits : List TransmissionEvent
  pub base_rows : store.base ≡ journal_of originals
  pub update_rows : store.updates ≡ journal_of edits
  pub placed : store.positions ≡ positions_all originals
  pub replayed : replay store.positions originals edits ≡ store.events
  pub known : AllKnown store.positions edits
  pub inside : PointInto (length originals) store.positions
  pub current : AllCurrent originals

AllKnown-cons :
    (positions : Positions) (us : List TransmissionEvent) (fresh : Text) (n : ℕ)
    → AllKnown positions us
    → AllKnown ((fresh, n) ∷ positions) us
AllKnown-cons positions [] fresh n h = tt
AllKnown-cons positions (u ∷ us) fresh n h =
    (unfold position in ground (arith, h.0), AllKnown-cons positions us fresh n h.1)

AllKnown-append :
    (positions : Positions) (us : List TransmissionEvent) (u : TransmissionEvent)
    → AllKnown positions us
    → position u.id positions ≢ none
    → AllKnown positions (us ++ u ∷ [])
AllKnown-append positions [] u h k = (k, tt)
AllKnown-append positions (v ∷ us) u h k = (h.0, AllKnown-append positions us u h.1 k)

AllCurrent-append :
    (es : List TransmissionEvent) (e : TransmissionEvent)
    → AllCurrent es
    → is_legacy_mapper_false_positive e ≡ false
    → AllCurrent (es ++ e ∷ [])
AllCurrent-append [] e h c = (c, tt)
AllCurrent-append (x ∷ es) e h c = (h.0, AllCurrent-append es e h.1 c)

PointInto-cons :
    (positions : Positions) (n : ℕ) (fresh : Text)
    → PointInto n positions
    → PointInto (n + 1) ((fresh, n) ∷ positions)
unfolding position
PointInto-cons positions n fresh h key i e = ground (arith, h key i)

append_row-written :
    (es : List TransmissionEvent) (e : TransmissionEvent)
    → append_row (journal_of es) e written ≡ (journal_of (es ++ e ∷ []), true)
unfolding append_row
append_row-written es e =
    ap (λ r. (record { rows = r; tail = clean }, true)) (sym (to_rows-append es e))

pub at_id-cases :
    (store : EventStore) (id : Text)
    → ((k : ℕ → TransmissionEvent → EventStore × Option StoreError)
        → at_id store id k ≡ (store, some not_found))
      ⊎ ((i : ℕ) × (e : TransmissionEvent) × (position id store.positions ≡ some i)
          × (get_elem? store.events i ≡ some e)
          × (e.id ≡ id)
          × ((k : ℕ → TransmissionEvent → EventStore × Option StoreError)
              → at_id store id k ≡ k i e))
unfolding at_id
at_id-cases store id = elim (Option-cases (position id store.positions)) [
  | inl q ↦ inl (λ k. rw (at_id, q))
  | inr (i, q) ↦ elim (Option-cases (get_elem? store.events i)) [
    | inl r ↦ inl (λ k. rw (at_id, q, r))
    | inr (e, r) ↦ elim (Bool-cases (codes_eq e.id id)) [
      | inl same ↦ inr (i, e, q, r, (codes_eq_iff e.id id).0 same, λ k. rw (at_id, q, r, same))
      | inr other ↦ inl (λ k. rw (at_id, q, r, other))
    ]
  ]
]

-- The journals in step, from the fields of the store.
IsDurable-of :
    (after : EventStore) (originals edits evs : List TransmissionEvent) (p : Positions)
    → after.base ≡ journal_of originals
    → after.updates ≡ journal_of edits
    → after.positions ≡ p
    → after.events ≡ evs
    → p ≡ positions_all originals
    → replay p originals edits ≡ evs
    → AllKnown p edits
    → PointInto (length originals) p
    → AllCurrent originals
    → IsDurable after
IsDurable-of after originals edits evs p base updates same now placed replayed known inside
      current =
    record {
      originals = originals;
      edits = edits;
      base_rows = base;
      update_rows = updates;
      placed = same ∙ placed;
      replayed = rw (same, now) replayed;
      known = rw same known;
      inside = rw same inside;
      current = current;
    }

count_events : {store : EventStore} (d : IsDurable store) → length store.events ≡ length d.originals
count_events {store} d =
    ap length (sym d.replayed) ∙ length-replay store.positions d.edits d.originals

module _ (frequency_text : ℕ → Text) (extract : Text → List Text) where
  append_written :
      (store : EventStore) (e : TransmissionEvent) (originals : List TransmissionEvent)
      → store.base ≡ journal_of originals
      → let after = (Store.append frequency_text extract store e written).0 in
        (after.events ≡ store.events ++ e ∷ [])
        × (after.positions ≡ (e.id, length store.events) ∷ store.positions)
        × (after.base ≡ journal_of (originals ++ e ∷ []))
        × (after.updates ≡ store.updates)
  unfolding Store.append
  append_written store e originals rows =
      rw (rows, append_row-written originals e) (refl, refl, refl, refl)

  -- Appending an event with a new ID keeps the journals in step.
  append-IsDurable :
      (store : EventStore) (e : TransmissionEvent)
      → IsDurable store
      → position e.id store.positions ≡ none
      → is_legacy_mapper_false_positive e ≡ false
      → IsDurable (Store.append frequency_text extract store e written).0
  append-IsDurable store e d fresh current =
      let n = length d.originals in
      let (events, positions, base, updates) = append_written store e d.originals d.base_rows in
      let after = (Store.append frequency_text extract store e written).0 in
      let p : Positions = (e.id, n) ∷ store.positions in
      let placed : p ≡ positions_all (d.originals ++ e ∷ []) =
        ap (λ q. (e.id, n) ∷ q) d.placed ∙ sym (positions_all-append d.originals e) in
      IsDurable-of after (d.originals ++ e ∷ []) d.edits (store.events ++ e ∷ []) p base
        (updates ∙ d.update_rows)
        (positions ∙ ap (λ m. (e.id, m) ∷ store.positions) (count_events d)) events placed
        (replay_fresh store.positions d.edits d.originals e n refl fresh d.known d.inside
          ∙ ap (λ l. l ++ e ∷ []) d.replayed)
        (AllKnown-cons store.positions d.edits e.id n d.known)
        (subst (λ m. PointInto m p) (sym (length-append d.originals (e ∷ [])))
          (PointInto-cons store.positions n e.id d.inside))
        (AllCurrent-append d.originals e d.current current)

  edited_written :
      (reindex : Bool) (store : EventStore) (i : ℕ) (e : TransmissionEvent)
      (edits : List TransmissionEvent)
      → store.updates ≡ journal_of edits
      → let after = (store_edited frequency_text extract reindex store i e written).0 in
        (after.events ≡ set store.events i e)
        × (after.positions ≡ store.positions)
        × (after.base ≡ store.base)
        × (after.updates ≡ journal_of (edits ++ e ∷ []))
  unfolding store_edited
  edited_written reindex store i e edits rows =
      rw (rows, append_row-written edits e) (refl, refl, refl, refl)

  edited-IsDurable :
      (reindex : Bool) (store : EventStore) (i : ℕ) (e : TransmissionEvent)
      → IsDurable store
      → position e.id store.positions ≡ some i
      → IsDurable (store_edited frequency_text extract reindex store i e written).0
  edited-IsDurable reindex store i e d found =
      let (events, positions, base, updates) =
        edited_written reindex store i e d.edits d.update_rows in
      let p = store.positions in
      IsDurable-of (store_edited frequency_text extract reindex store i e written).0 d.originals
        (d.edits ++ e ∷ []) (set store.events i e) p (base ∙ d.base_rows) updates positions events
        d.placed
        (replay-append d.edits e p d.originals
          ∙ ap (λ l. replace p l e) d.replayed
          ∙ replace-some p store.events e i found)
        (AllKnown-append p d.edits e d.known (λ q. cc)) d.inside d.current

  -- Every update method, by its edit.
  update-IsDurable :
      (reindex : Bool) (edit : TransmissionEvent → TransmissionEvent) (store : EventStore)
      (id : Text)
      → ((e : TransmissionEvent) → (edit e).id ≡ e.id)
      → IsDurable store
      → IsDurable (Store.update frequency_text extract reindex edit store id written).0
  update-IsDurable reindex edit store id keeps d = elim (at_id-cases store id) [
    | inl absent ↦ rw (absent _) d
    | inr (i, e, found, there, same, hit) ↦ rw (hit _) (
        edited-IsDurable reindex store i (edit e) d
          (ap (λ k. position k store.positions) (keeps e ∙ same) ∙ found))
  ]

-- What a call must bring: an event that is appended has a new ID, and is not one of the legacy
-- events that loading drops.
abbrev pub IsFresh : EventStore → Call → Type 0
IsFresh store (append_event e) =
    (position e.id store.positions ≡ none) × (is_legacy_mapper_false_positive e ≡ false)
IsFresh store _ = Unit

module _ (frequency_text : ℕ → Text) (extract : Text → List Text) where
  -- Every call whose write succeeds keeps the journals in step with memory, where an event that is
  -- appended has a new ID and is not one of the legacy events that loading drops.
  pub run_call-IsDurable :
      (store : EventStore) (call : Call)
      → IsDurable store
      → IsFresh store call
      → IsDurable (run_call frequency_text extract store call written).0
  unfolding run_call
  run_call-IsDurable store (append_event e) d fresh =
      append-IsDurable frequency_text extract store e d fresh.0 fresh.1
  run_call-IsDurable store (set_transcript id transcript) d fresh =
      unfold Store.update_transcript in
      update-IsDurable frequency_text extract true (edit_transcript extract transcript) store id
        (λ e. unfold edit_transcript in refl) d
  run_call-IsDurable store (set_analysis id analysis) d fresh =
      unfold Store.update_analysis in
      update-IsDurable frequency_text extract true (edit_analysis analysis) store id
        (λ e. unfold edit_analysis in refl) d
  run_call-IsDurable store (set_messages id []) d fresh = unfold Store.update_decoder_messages in d
  run_call-IsDurable store (set_messages id (first ∷ rest)) d fresh =
      unfold Store.update_decoder_messages in
      update-IsDurable frequency_text extract true (edit_decoder first rest) store id
        (λ e. unfold edit_decoder in refl) d
  run_call-IsDurable store (set_audio_path id path) d fresh =
      unfold Store.update_audio_path in
      update-IsDurable frequency_text extract false (edit_audio_path path) store id
        (λ e. unfold edit_audio_path in refl) d
  run_call-IsDurable store (set_iq_path id path) d fresh =
      unfold Store.update_iq_path in
      update-IsDurable frequency_text extract false (edit_iq_path path) store id
        (λ e. unfold edit_iq_path in refl) d
  run_call-IsDurable store (set_status id status message now) d fresh =
      unfold Store.update_analysis_status in
      update-IsDurable frequency_text extract false (edit_status status message now) store id
        (λ e. unfold edit_status in refl) d

-- Every row of the journals is under the limit that the scanner of its journal has.
abbrev pub IsReadable : (TransmissionEvent → ℕ) → EventStore → Type 0
IsReadable row_length store =
    AllShort row_length event_row_limit store.base.rows
    × AllShort row_length update_row_limit store.updates.rows

module _ (row_length : TransmissionEvent → ℕ) (frequency_text : ℕ → Text) where
  load_over-journal_of :
      (kept us : List TransmissionEvent)
      → AllShort row_length update_row_limit (to_rows us)
      → load_over row_length frequency_text kept (journal_of us)
        ≡ some (rebuild frequency_text kept (replay (positions_all kept) kept us) (journal_of us))
  unfolding load_over
  load_over-journal_of kept us short =
      rw (load_updates-to_rows row_length (positions_all kept) us kept short, load_over)

  new_event_store-journal_of :
      (kept us : List TransmissionEvent)
      → AllCurrent kept
      → AllShort row_length event_row_limit (to_rows kept)
      → new_event_store row_length frequency_text (journal_of kept) (journal_of us)
        ≡ load_over row_length frequency_text kept (journal_of us)
  unfolding new_event_store repair_torn_event_tail
  new_event_store-journal_of kept us current short =
      rw (load_rows-to_rows row_length kept current short, new_event_store)

  -- A store whose journals are in step, with every row under the 2 MiB and 16 MiB that the scanners
  -- of the base and update journals take, is opened again with the same events.
  pub new_event_store-IsDurable :
      (store : EventStore)
      → IsDurable store
      → IsReadable row_length store
      → (opened : EventStore) × (new_event_store row_length frequency_text store.base store.updates
          ≡ some opened)
        × (opened.events ≡ store.events)
  new_event_store-IsDurable store d short =
      let base_short =
        subst (λ (j : Journal). AllShort row_length event_row_limit j.rows) d.base_rows short.0 in
      let updates_short =
        subst (λ (j : Journal). AllShort row_length update_row_limit j.rows) d.update_rows
          short.1 in
      let events = replay (positions_all d.originals) d.originals d.edits in
      (
        rebuild frequency_text d.originals events (journal_of d.edits),
        ap (λ b. new_event_store row_length frequency_text b store.updates) d.base_rows
            ∙ ap (λ u. new_event_store row_length frequency_text (journal_of d.originals) u)
                d.update_rows
            ∙ new_event_store-journal_of d.originals d.edits d.current base_short
            ∙ load_over-journal_of d.originals d.edits updates_short,
        unfold rebuild in ap (λ p. replay p d.originals d.edits) (sym d.placed) ∙ d.replayed,
      )
