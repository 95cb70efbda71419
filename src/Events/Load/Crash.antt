-- ===== src/Events/Load/Crash.antt =====
-- What is read back after a write of server/internal/app/store.go or event_journal.go went wrong.
use gp_sdr.Prelude.{
  ℕ, ◌≡◌, leb, Bool-cases, refl, sym, ap, ap₂, ◌∙◌, ◌⊎◌, inl, inr, Bool, true, false, none, some,
  List, [], ◌∷◌, ◌++◌,
}
use gp_sdr.Prelude.Text.{Text}
use gp_sdr.Events.Event.{TransmissionEvent}
use gp_sdr.Events.Store
use gp_sdr.Events.Store.{
  Row, row, bad, clean, Journal, Outcome, written, nothing, piece, no_newline, unsynced, append_row,
  EventStore, Call, append_event, set_transcript, set_analysis, set_messages, set_audio_path,
  set_iq_path, set_status, run_call, at_id, store_edited,
}
use gp_sdr.Events.Load.{event_row_limit, repair_torn_event_tail, load_rows, new_event_store}
use gp_sdr.Events.Load.Durable.{
  IsDurable, IsReadable, IsFresh, at_id-cases, journal_of, run_call-IsDurable,
  new_event_store-IsDurable,
}

-- A write that went wrong on a clean journal is repaired to the journal before it or to the one
-- that a write without error leaves.
repair-append_row :
    (es : List TransmissionEvent) (e : TransmissionEvent) (outcome : Outcome)
    → let after = repair_torn_event_tail (append_row (journal_of es) e outcome).0 in
      (after ≡ journal_of es) ⊎ (after ≡ (append_row (journal_of es) e written).0)
unfolding repair_torn_event_tail append_row
repair-append_row es e written = inr refl
repair-append_row es e nothing = inl refl
repair-append_row es e piece = inl refl
repair-append_row es e no_newline = inr refl
repair-append_row es e unsynced = inr refl

repair-repair :
    (j : Journal) → repair_torn_event_tail (repair_torn_event_tail j) ≡ repair_torn_event_tail j
unfolding repair_torn_event_tail
repair-repair j = refl

load_rows-bad :
    (row_length : TransmissionEvent → ℕ) (rows tail : List Row)
    → load_rows row_length (rows ++ bad ∷ tail) ≡ none
unfolding load_rows
load_rows-bad row_length [] tail = refl
load_rows-bad row_length (bad ∷ rows) tail = refl
load_rows-bad row_length (row e ∷ rows) tail =
    elim (Bool-cases (leb event_row_limit (row_length e))) [
      | inl long ↦ rw long refl
      | inr short ↦ rw (short, load_rows-bad row_length rows tail) refl
    ]

module _ (frequency_text : ℕ → Text) (extract : Text → List Text) where
  append_journals :
      (store : EventStore) (e : TransmissionEvent) (outcome : Outcome)
      → let after = Store.append frequency_text extract store e outcome in
        (after.0.base ≡ (append_row store.base e outcome).0) × (after.0.updates ≡ store.updates)
  unfolding Store.append append_row
  append_journals store e written = (refl, refl)
  append_journals store e nothing = (refl, refl)
  append_journals store e piece = (refl, refl)
  append_journals store e no_newline = (refl, refl)
  append_journals store e unsynced = (refl, refl)

  edited_journals :
      (reindex : Bool) (store : EventStore) (i : ℕ) (e : TransmissionEvent) (outcome : Outcome)
      → let after = store_edited frequency_text extract reindex store i e outcome in
        (after.0.base ≡ store.base) × (after.0.updates ≡ (append_row store.updates e outcome).0)
  unfolding store_edited
  edited_journals reindex store i e outcome = (refl, refl)

  append-written-none :
      (store : EventStore) (e : TransmissionEvent)
      → (Store.append frequency_text extract store e written).1 ≡ none
  unfolding Store.append append_row
  append-written-none store e = refl

  -- The journals of `after`, once repaired, are those of `store`.
  abbrev IsRepaired : EventStore → EventStore → Type 0
  IsRepaired after store =
      (repair_torn_event_tail after.base ≡ store.base)
      × (repair_torn_event_tail after.updates ≡ store.updates)

  repair-journal_of :
      (es : List TransmissionEvent) → repair_torn_event_tail (journal_of es) ≡ journal_of es
  unfolding repair_torn_event_tail
  repair-journal_of es = refl

  repair-durable :
      (j : Journal) (es : List TransmissionEvent) → j ≡ journal_of es → repair_torn_event_tail j ≡ j
  repair-durable j es h = rw h (repair-journal_of es)

  repair-write :
      (j : Journal) (es : List TransmissionEvent) (e : TransmissionEvent) (outcome : Outcome)
      → j ≡ journal_of es
      → (repair_torn_event_tail (append_row j e outcome).0 ≡ j)
        ⊎ (repair_torn_event_tail (append_row j e outcome).0 ≡ (append_row j e written).0)
  repair-write j es e outcome h = rw h (repair-append_row es e outcome)

  append-IsRepaired :
      (store : EventStore) (e : TransmissionEvent) (outcome : Outcome)
      → IsDurable store
      → let after = (Store.append frequency_text extract store e outcome).0 in
        IsRepaired after store
        ⊎ IsRepaired after (Store.append frequency_text extract store e written).0
  append-IsRepaired store e outcome d =
      let (base, updates) = append_journals store e outcome in
      let (base', updates') = append_journals store e written in
      let kept = repair-durable store.updates d.edits d.update_rows in
      elim (repair-write store.base d.originals e outcome d.base_rows) [
        | inl same ↦
            inl (ap repair_torn_event_tail base ∙ same, ap repair_torn_event_tail updates ∙ kept)
        | inr done ↦ inr (
          ap repair_torn_event_tail base ∙ done ∙ sym base',
          ap repair_torn_event_tail updates ∙ kept ∙ sym updates',
        )
      ]

  edited-IsRepaired :
      (reindex : Bool) (store : EventStore) (i : ℕ) (e : TransmissionEvent) (outcome : Outcome)
      → IsDurable store
      → let after = (store_edited frequency_text extract reindex store i e outcome).0 in
        IsRepaired after store
        ⊎ IsRepaired after (store_edited frequency_text extract reindex store i e written).0
  edited-IsRepaired reindex store i e outcome d =
      let (base, updates) = edited_journals reindex store i e outcome in
      let (base', updates') = edited_journals reindex store i e written in
      let kept = repair-durable store.base d.originals d.base_rows in
      elim (repair-write store.updates d.edits e outcome d.update_rows) [
        | inl same ↦
            inl (ap repair_torn_event_tail base ∙ kept, ap repair_torn_event_tail updates ∙ same)
        | inr done ↦ inr (
          ap repair_torn_event_tail base ∙ kept ∙ sym base',
          ap repair_torn_event_tail updates ∙ done ∙ sym updates',
        )
      ]

  update-IsRepaired :
      (reindex : Bool) (edit : TransmissionEvent → TransmissionEvent) (store : EventStore)
      (id : Text) (outcome : Outcome)
      → IsDurable store
      → let after = (Store.update frequency_text extract reindex edit store id outcome).0 in
        IsRepaired after store
        ⊎ IsRepaired after (Store.update frequency_text extract reindex edit store id written).0
  update-IsRepaired reindex edit store id outcome d = elim (at_id-cases store id) [
    | inl absent ↦ rw (absent _) (
        inl (
          repair-durable store.base d.originals d.base_rows,
          repair-durable store.updates d.edits d.update_rows,
        ))
    | inr (i, e, found, there, same, hit) ↦
        rw
          (
            hit (λ n f. store_edited frequency_text extract reindex store n (edit f) outcome),
            hit (λ n f. store_edited frequency_text extract reindex store n (edit f) written),
          )
          (edited-IsRepaired reindex store i (edit e) outcome d)
  ]

  run_call-IsRepaired :
      (store : EventStore) (call : Call) (outcome : Outcome)
      → IsDurable store
      → let after = (run_call frequency_text extract store call outcome).0 in
        IsRepaired after store
        ⊎ IsRepaired after (run_call frequency_text extract store call written).0
  unfolding run_call
  run_call-IsRepaired store (append_event e) outcome d = append-IsRepaired store e outcome d
  run_call-IsRepaired store (set_transcript id transcript) outcome d =
      unfold Store.update_transcript in update-IsRepaired true _ store id outcome d
  run_call-IsRepaired store (set_analysis id analysis) outcome d =
      unfold Store.update_analysis in update-IsRepaired true _ store id outcome d
  run_call-IsRepaired store (set_messages id []) outcome d =
      unfold Store.update_decoder_messages in
      inl (
        repair-durable store.base d.originals d.base_rows,
        repair-durable store.updates d.edits d.update_rows,
      )
  run_call-IsRepaired store (set_messages id (first ∷ rest)) outcome d =
      unfold Store.update_decoder_messages in update-IsRepaired true _ store id outcome d
  run_call-IsRepaired store (set_audio_path id path) outcome d =
      unfold Store.update_audio_path in update-IsRepaired false _ store id outcome d
  run_call-IsRepaired store (set_iq_path id path) outcome d =
      unfold Store.update_iq_path in update-IsRepaired false _ store id outcome d
  run_call-IsRepaired store (set_status id status message now) outcome d =
      unfold Store.update_analysis_status in update-IsRepaired false _ store id outcome d

module _ (row_length : TransmissionEvent → ℕ) (frequency_text : ℕ → Text)
    (extract : Text → List Text) where
  new_event_store-repair :
      (base updates : Journal)
      → new_event_store row_length frequency_text base updates
        ≡ new_event_store row_length frequency_text
            (repair_torn_event_tail base)
            (repair_torn_event_tail updates)
  unfolding new_event_store repair_torn_event_tail
  new_event_store-repair base updates = refl

  reopen :
      (after store : EventStore)
      → IsRepaired frequency_text extract after store
      → IsDurable store
      → IsReadable row_length store
      → (opened : EventStore) × (new_event_store row_length frequency_text after.base after.updates
          ≡ some opened)
        × (opened.events ≡ store.events)
  reopen after store same d readable =
      let (opened, opens, events) =
        new_event_store-IsDurable row_length frequency_text store d readable in
      (
        opened,
        new_event_store-repair after.base after.updates
            ∙ ap₂ (new_event_store row_length frequency_text) same.0 same.1
            ∙ opens,
        events,
      )

  -- A call whose write goes wrong in any way loses nothing: from journals that are in step, what is
  -- opened next has the events from before the call, or those that the call would have led to. An
  -- event that is appended has a new ID and is not one of the legacy events that loading drops. Every
  -- row of the journals, and the row of the call, is under the 2 MiB or 16 MiB that the scanner of its
  -- journal takes.
  pub crash_consistent :
      (store : EventStore) (call : Call) (outcome : Outcome)
      → IsDurable store
      → IsFresh store call
      → IsReadable row_length store
      → IsReadable row_length (run_call frequency_text extract store call written).0
      → let after = (run_call frequency_text extract store call outcome).0 in
        (opened : EventStore) × (new_event_store row_length frequency_text after.base after.updates
          ≡ some opened)
        × ((opened.events ≡ store.events)
            ⊎ (opened.events ≡ (run_call frequency_text extract store call written).0.events))
  crash_consistent store call outcome d fresh readable readable_done =
      let after = (run_call frequency_text extract store call outcome).0 in
      let done = (run_call frequency_text extract store call written).0 in
      elim (run_call-IsRepaired frequency_text extract store call outcome d) [
        | inl same ↦
            let (opened, opens, events) = reopen after store same d readable in
            (opened, opens, inl events)
        | inr same ↦
            let (opened, opens, events) =
              reopen after done same (run_call-IsDurable frequency_text extract store call d fresh)
                readable_done in
            (opened, opens, inr events)
      ]

  torn_base :
      (j : Journal) (first second : TransmissionEvent)
      → j.tail ≡ clean
      → (append_row (append_row j first piece).0 second written).0
        ≡ record { rows = j.rows ++ bad ∷ []; tail = clean }
  unfolding append_row
  torn_base j first second ends = rw ends

  bad_base :
      (rows : List Row) (updates : Journal)
      → new_event_store row_length frequency_text
          (record { rows = rows ++ bad ∷ []; tail = clean })
          updates
        ≡ none
  unfolding new_event_store repair_torn_event_tail
  bad_base rows updates = rw (load_rows-bad row_length rows [], new_event_store)

  -- The repair works on the last append alone. Where the journal ended at a newline, after an append
  -- that left a piece of its row, an append that succeeds joins its row to that piece, and the store
  -- cannot be opened any more.
  pub append-piece-append :
      (store : EventStore) (first second : TransmissionEvent)
      → store.base.tail ≡ clean
      → let torn_store = (Store.append frequency_text extract store first piece).0 in
        let after = Store.append frequency_text extract torn_store second written in
        (after.1 ≡ none)
        × (new_event_store row_length frequency_text after.0.base after.0.updates ≡ none)
  append-piece-append store first second ends =
      let torn_store = (Store.append frequency_text extract store first piece).0 in
      let after = Store.append frequency_text extract torn_store second written in
      let (base1, _) = append_journals frequency_text extract store first piece in
      let (base2, _) = append_journals frequency_text extract torn_store second written in
      let joined : after.0.base ≡ record { rows = store.base.rows ++ bad ∷ []; tail = clean } =
        base2
        ∙ ap (λ j. (append_row j second written).0) base1
        ∙ torn_base store.base first second ends in
      (
        append-written-none frequency_text extract torn_store second,
        ap (λ b. new_event_store row_length frequency_text b after.0.updates) joined
            ∙ bad_base store.base.rows after.0.updates,
      )
