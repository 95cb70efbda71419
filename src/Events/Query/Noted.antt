-- ===== src/Events/Query/Noted.antt =====
-- The updates of server/internal/app/store.go that do not index an event again need not.
use gp_sdr.Prelude.{
  ℕ, zero, suc, ◌≡◌, ◌≢◌, refl, sym, ap, ◌∙◌, subst, Bool, true, false, none, some, List, [], ◌∷◌,
  ◌++◌, arith, get_elem?, set,
}
use gp_sdr.Prelude.Text.{Text, codes_eq, codes_eq_iff, codes_eq_refl}
use gp_sdr.Events.Event.{TransmissionEvent}
use gp_sdr.Events.Index.{Index, tokens_of, tokens, index_event}
use gp_sdr.Events.Store
use gp_sdr.Events.Store.{
  Outcome, written, nothing, piece, no_newline, unsynced, append_row, EventStore, StoreError, Call,
  append_event, set_transcript, set_analysis, set_messages, set_audio_path, set_iq_path, set_status,
  at_id, store_edited, run_call, edit_transcript, edit_analysis, edit_decoder, edit_audio_path,
  edit_iq_path, edit_status,
}
use gp_sdr.Events.Query.Index.{
  IsCoherent, index_event-IsCoherent, AllNoted, AllOther, AllDistinct, AllOther-get,
  AllDistinct-set,
}

same_id : {x e : TransmissionEvent} → some x ≡ some e → x.id ≡ e.id
same_id {x} q = ap (λ o. elim o [ none ↦ x.id | some y ↦ y.id ]) q

tokens_of-other :
    (id key : Text) (toks : List Text) (noted : List (Text × List Text))
    → key ≢ id
    → tokens_of id ((key, toks) ∷ noted) ≡ tokens_of id noted
unfolding tokens_of
tokens_of-other id key toks noted h =
    let k : codes_eq key id ≡ false = ground (arith, codes_eq_iff key id) in simp k

tokens_of_self :
    (id : Text) (toks : List Text) (noted : List (Text × List Text))
    → tokens_of id ((id, toks) ∷ noted) ≡ toks
unfolding tokens_of
tokens_of_self id toks noted = rw (codes_eq_refl id) refl

module _ (frequency_text : ℕ → Text) where
  -- The index is coherent, it has the tokens of every event, and no two events share an ID.
  pub record IsSearchable (store : EventStore) : Type 0 where
    pub coherent : IsCoherent store.index
    pub noted : AllNoted frequency_text store.index.event_tokens store.events
    pub distinct : AllDistinct store.events

  AllNoted-other :
      (key : Text) (toks : List Text) (noted : List (Text × List Text))
      (es : List TransmissionEvent)
      → AllOther key es
      → AllNoted frequency_text noted es
      → AllNoted frequency_text ((key, toks) ∷ noted) es
  AllNoted-other key toks noted [] h k = tt
  AllNoted-other key toks noted (e ∷ es) h k = (
    tokens_of-other e.id key toks noted (λ q. h.0 (sym q)) ∙ k.0,
    AllNoted-other key toks noted es h.1 k.1,
  )

  AllNoted-append :
      (noted : List (Text × List Text)) (es : List TransmissionEvent) (e : TransmissionEvent)
      → AllNoted frequency_text noted es
      → tokens_of e.id noted ≡ tokens frequency_text e
      → AllNoted frequency_text noted (es ++ e ∷ [])
  AllNoted-append noted [] e h k = (k, tt)
  AllNoted-append noted (x ∷ es) e h k = (h.0, AllNoted-append noted es e h.1 k)

  -- An event that is indexed again.
  AllNoted-set :
      (noted : List (Text × List Text)) (es : List TransmissionEvent) (i : ℕ)
      (e new : TransmissionEvent)
      → AllDistinct es
      → AllNoted frequency_text noted es
      → get_elem? es i ≡ some e
      → new.id ≡ e.id
      → AllNoted frequency_text ((new.id, tokens frequency_text new) ∷ noted) (set es i new)
  AllNoted-set noted [] i e new d h g same = tt
  AllNoted-set noted (x ∷ es) zero e new d h g same = (
    tokens_of_self new.id (tokens frequency_text new) noted,
    AllNoted-other new.id (tokens frequency_text new) noted es
        (subst (λ id. AllOther id es) (same_id g ∙ sym same) d.0) h.1,
  )
  AllNoted-set noted (x ∷ es) (suc i) e new d h g same =
      let other = AllOther-get x.id es i e d.0 g in
      (
        tokens_of-other x.id new.id (tokens frequency_text new) noted (λ q. other (sym same ∙ q))
            ∙ h.0,
        AllNoted-set noted es i e new d.1 h.1 g same,
      )

  -- An event that is not, since its tokens are what they were.
  AllNoted-keep :
      (noted : List (Text × List Text)) (es : List TransmissionEvent) (i : ℕ)
      (e new : TransmissionEvent)
      → AllNoted frequency_text noted es
      → get_elem? es i ≡ some e
      → new.id ≡ e.id
      → tokens frequency_text new ≡ tokens frequency_text e
      → AllNoted frequency_text noted (set es i new)
  AllNoted-keep noted [] i e new h g same toks = tt
  AllNoted-keep noted (x ∷ es) zero e new h g same toks = (
    ap (λ id. tokens_of id noted) (same ∙ sym (same_id g))
        ∙ h.0
        ∙ ap (λ o. elim o [ none ↦ tokens frequency_text x | some y ↦ tokens frequency_text y ]) g
        ∙ sym toks,
    h.1,
  )
  AllNoted-keep noted (x ∷ es) (suc i) e new h g same toks =
      (h.0, AllNoted-keep noted es i e new h.1 g same toks)

  pub AllNoted-index_event :
      (index : Index) (es : List TransmissionEvent) (e : TransmissionEvent)
      → AllOther e.id es
      → AllNoted frequency_text index.event_tokens es
      → AllNoted frequency_text (index_event frequency_text index e).event_tokens (es ++ e ∷ [])
  unfolding index_event
  AllNoted-index_event index es e o h =
      AllNoted-append _ es e
        (AllNoted-other e.id (tokens frequency_text e) index.event_tokens es o h)
        (tokens_of_self e.id (tokens frequency_text e) index.event_tokens)

  module _ (extract : Text → List Text) where
    pub store_edited-IsSearchable :
        (reindex : Bool) (store : EventStore) (i : ℕ) (e new : TransmissionEvent)
        (outcome : Outcome)
        → IsSearchable store
        → get_elem? store.events i ≡ some e
        → new.id ≡ e.id
        → (reindex ≡ false → tokens frequency_text new ≡ tokens frequency_text e)
        → IsSearchable (Store.store_edited frequency_text extract reindex store i new outcome).0
    unfolding store_edited index_event
    store_edited-IsSearchable true store i e new outcome h g same toks = record {
      coherent = index_event-IsCoherent frequency_text store.index new h.coherent;
      noted = AllNoted-set store.index.event_tokens store.events i e new h.distinct h.noted g same;
      distinct = AllDistinct-set store.events i e new h.distinct g same;
    }
    store_edited-IsSearchable false store i e new outcome h g same toks = record {
      coherent = h.coherent;
      noted =
          AllNoted-keep store.index.event_tokens store.events i e new h.noted g same (toks refl);
      distinct = AllDistinct-set store.events i e new h.distinct g same;
    }
