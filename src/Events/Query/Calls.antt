-- ===== src/Events/Query/Calls.antt =====
-- Every call of server/internal/app/store.go leaves what Search reads in step with the events.
use gp_sdr.Prelude.{ℕ, ◌≡◌, refl, inl, inr, Bool, true, false, List, [], ◌∷◌}
use gp_sdr.Prelude.Text.{Text}
use gp_sdr.Events.Event.{TransmissionEvent}
use gp_sdr.Events.Index.{event_parts, tokens}
use gp_sdr.Events.Store
use gp_sdr.Events.Store.{
  Outcome, written, nothing, piece, no_newline, unsynced, append_row, EventStore, Call,
  append_event, set_transcript, set_analysis, set_messages, set_audio_path, set_iq_path, set_status,
  run_call, edit_transcript, edit_analysis, edit_decoder, edit_audio_path, edit_iq_path,
  edit_status,
}
use gp_sdr.Events.Load.Durable.{at_id-cases}
use gp_sdr.Events.Query.Index.{index_event-IsCoherent, AllOther, AllDistinct-append}
use gp_sdr.Events.Query.Noted.{IsSearchable, AllNoted-index_event, store_edited-IsSearchable}

-- An event that is appended has a new ID.
abbrev pub IsNew : EventStore → Call → Type 0
IsNew store (append_event e) = AllOther e.id store.events
IsNew store _ = Unit

module _ (frequency_text : ℕ → Text) (extract : Text → List Text) where
  update-IsSearchable :
      (reindex : Bool) (edit : TransmissionEvent → TransmissionEvent) (store : EventStore)
      (id : Text) (outcome : Outcome)
      → ((e : TransmissionEvent) → (edit e).id ≡ e.id)
      → (reindex ≡ false
          → (e : TransmissionEvent) → tokens frequency_text (edit e) ≡ tokens frequency_text e)
      → IsSearchable frequency_text store
      → IsSearchable frequency_text
          (Store.update frequency_text extract reindex edit store id outcome).0
  update-IsSearchable reindex edit store id outcome keeps toks h = elim (at_id-cases store id) [
    | inl absent ↦ rw (absent _) h
    | inr (i, e, found, there, same, hit) ↦ rw (hit _) (
        store_edited-IsSearchable frequency_text extract reindex store i e (edit e) outcome h there
          (keeps e) (λ q. toks q e))
  ]

  -- Whatever its write comes to, an append of an event with a new ID.
  append-IsSearchable :
      (store : EventStore) (e : TransmissionEvent) (outcome : Outcome)
      → IsSearchable frequency_text store
      → AllOther e.id store.events
      → IsSearchable frequency_text (Store.append frequency_text extract store e outcome).0
  unfolding Store.append append_row
  append-IsSearchable store e written h fresh = record {
    coherent = index_event-IsCoherent frequency_text store.index e h.coherent;
    noted = AllNoted-index_event frequency_text store.index store.events e fresh h.noted;
    distinct = AllDistinct-append store.events e h.distinct fresh;
  }
  append-IsSearchable store e nothing h fresh = record {
    coherent = h.coherent;
    noted = h.noted;
    distinct = h.distinct;
  }
  append-IsSearchable store e piece h fresh = record {
    coherent = h.coherent;
    noted = h.noted;
    distinct = h.distinct;
  }
  append-IsSearchable store e no_newline h fresh = record {
    coherent = h.coherent;
    noted = h.noted;
    distinct = h.distinct;
  }
  append-IsSearchable store e unsynced h fresh = record {
    coherent = h.coherent;
    noted = h.noted;
    distinct = h.distinct;
  }

  iq_path-tokens :
      (path : Text) (e : TransmissionEvent)
      → tokens frequency_text (edit_iq_path path e) ≡ tokens frequency_text e
  unfolding tokens event_parts edit_iq_path
  iq_path-tokens path e = refl

  -- Every call keeps the index in step with the events, whatever its write comes to: each ID is
  -- under its event's present tokens and no others, and no two events share an ID. An event that is
  -- appended must have a new ID. The three updates that do not index the event again keep it too.
  pub run_call-IsSearchable :
      (store : EventStore) (call : Call) (outcome : Outcome)
      → IsSearchable frequency_text store
      → IsNew store call
      → IsSearchable frequency_text (run_call frequency_text extract store call outcome).0
  unfolding run_call
  run_call-IsSearchable store (append_event e) outcome h fresh =
      append-IsSearchable store e outcome h fresh
  run_call-IsSearchable store (set_transcript id transcript) outcome h fresh =
      unfold Store.update_transcript in
      update-IsSearchable true (edit_transcript extract transcript) store id outcome
        (λ e. unfold edit_transcript in refl) (λ q. cc) h
  run_call-IsSearchable store (set_analysis id analysis) outcome h fresh =
      unfold Store.update_analysis in
      update-IsSearchable true (edit_analysis analysis) store id outcome
        (λ e. unfold edit_analysis in refl) (λ q. cc) h
  run_call-IsSearchable store (set_messages id []) outcome h fresh =
      unfold Store.update_decoder_messages in h
  run_call-IsSearchable store (set_messages id (first ∷ rest)) outcome h fresh =
      unfold Store.update_decoder_messages in
      update-IsSearchable true (edit_decoder first rest) store id outcome
        (λ e. unfold edit_decoder in refl) (λ q. cc) h
  run_call-IsSearchable store (set_audio_path id path) outcome h fresh =
      unfold Store.update_audio_path in
      update-IsSearchable false (edit_audio_path path) store id outcome
        (λ e. unfold edit_audio_path in refl)
        (λ q e. unfold edit_audio_path tokens event_parts in refl) h
  run_call-IsSearchable store (set_iq_path id path) outcome h fresh =
      unfold Store.update_iq_path in
      update-IsSearchable false (edit_iq_path path) store id outcome
        (λ e. unfold edit_iq_path in refl) (λ q. iq_path-tokens path) h
  run_call-IsSearchable store (set_status id status message now) outcome h fresh =
      unfold Store.update_analysis_status in
      update-IsSearchable false (edit_status status message now) store id outcome
        (λ e. unfold edit_status in refl) (λ q e. unfold edit_status tokens event_parts in refl) h
