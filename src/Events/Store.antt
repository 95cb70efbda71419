-- ===== src/Events/Store.antt =====
-- server/internal/app/store.go, lines 270-278, 368-398 and 475-592, and event_journal.go, lines
-- 18-32, 58-60 and 94-105: the event store in memory and the two journals it appends to. A method returns the new
-- store beside its error; the outcome of the write that it makes is an argument.
use gp_sdr.Prelude.{
  ℕ, Bool, true, false, ◌||◌, Option, none, some, List, [], ◌∷◌, ◌++◌, ltb, if◌then◌else◌, length,
  get_elem?, set,
}
use gp_sdr.Prelude.Text.{Text, codes, codes_eq, trim_space}
use gp_sdr.Events.Text.{merge_unique_strings}
use gp_sdr.Events.Index.{Index, index_event}
use gp_sdr.Events.Signals.{SignalSummary, aggregate}
use gp_sdr.Events.Event.{DecoderMessage, SignalIntelligence, TransmissionEvent}

-- A line of a journal: an event's row, or bytes that are no event.
pub data Row : Type 0 where
  row : TransmissionEvent → Row
  bad : Row

-- What follows the last newline: nothing, a piece of a row, or a whole row.
pub data Tail : Type 0 where
  clean torn : Tail
  whole : TransmissionEvent → Tail

pub record Journal : Type 0 where
  pub rows : List Row
  pub tail : Tail

-- What an append leaves on disk. Every outcome but the first is an error for the caller: nothing
-- written, a piece of the row, the row without its newline, or the row unsynced.
pub data Outcome : Type 0 where
  written nothing piece no_newline unsynced : Outcome

-- A row that is appended behind a tail joins it in one line.
unfoldable pub close_row : Tail → TransmissionEvent → Row
close_row clean event = row event
close_row torn event = bad
close_row (whole other) event = bad

unfoldable pub close_tail : Tail → Tail → Tail
close_tail clean new = new
close_tail torn new = torn
close_tail (whole other) new = torn

unfoldable pub append_row : Journal → TransmissionEvent → Outcome → Journal × Bool
unfolding close_row close_tail
append_row journal event written =
    (record { rows = journal.rows ++ close_row journal.tail event ∷ []; tail = clean }, true)
append_row journal event nothing = (journal, false)
append_row journal event piece = (record journal { tail = close_tail journal.tail torn }, false)
append_row journal event no_newline =
    (record journal { tail = close_tail journal.tail (whole event) }, false)
append_row journal event unsynced =
    (record { rows = journal.rows ++ close_row journal.tail event ∷ []; tail = clean }, false)

abbrev pub Positions : Type 0
Positions = List (Text × ℕ)

-- A Go map: the newest entry of a key counts.
unfoldable pub position : Text → Positions → Option ℕ
position id [] = none
position id ((key, index) ∷ entries) = if codes_eq key id then some index else position id entries

pub record EventStore : Type 0 where
  pub events : List TransmissionEvent
  pub positions : Positions
  pub index : Index
  pub signals : List SignalSummary
  pub base : Journal
  pub updates : Journal

pub data StoreError : Type 0 where
  not_found write_failed : StoreError

abbrev written_error : Bool → Option StoreError
written_error true = none
written_error false = some write_failed

-- The loop over `eventIndicesLocked(id)` that the update methods share: at most one position, and
-- the event there is edited if it still has the ID. The last argument is the rest of a method.
unfoldable pub at_id :
    EventStore
    → Text
    → (ℕ → TransmissionEvent → EventStore × Option StoreError)
    → EventStore × Option StoreError
unfolding position
at_id store id edit = elim (position id store.positions) [
  | none ↦ (store, some not_found)
  | some index ↦ elim (get_elem? store.events index) [
    | none ↦ (store, some not_found)
    | some event ↦ if codes_eq event.id id then edit index event else (store, some not_found)
  ]
]

-- The edits of the six update methods. `extract` is `ExtractCallsigns`.
unfoldable pub edit_transcript : (Text → List Text) → Text → TransmissionEvent → TransmissionEvent
edit_transcript extract transcript event =
    let found = extract transcript in
    record event {
      transcript = some transcript;
      callsigns = merge_unique_strings event.callsigns found;
      analysis = elim event.analysis [
        | none ↦ none
        | some a ↦
            some (record a { analysis_callsigns = merge_unique_strings a.analysis_callsigns found })
      ];
    }

abbrev max_float : ℕ → ℕ → ℕ
max_float a b = if ltb b a then a else b

abbrev string_value : Option Text → Text
string_value none = []
string_value (some s) = s

abbrev has_messages : List DecoderMessage → Bool
has_messages [] = false
has_messages (m ∷ ms) = true

-- A decoder's protocol and confidence stand over those of a language model.
unfoldable pub authoritative : TransmissionEvent → SignalIntelligence → SignalIntelligence
authoritative event a =
    if has_messages event.decoder_messages
    then record a {
      analysis_modulation = event.modulation;
      signal_family = string_value event.protocol_name;
      analysis_confidence = max_float a.analysis_confidence event.confidence;
    }
    else a

unfoldable pub edit_analysis : SignalIntelligence → TransmissionEvent → TransmissionEvent
unfolding authoritative
edit_analysis a event =
    let kept = authoritative event a in
    record event {
      analysis = some kept;
      callsigns = merge_unique_strings event.callsigns kept.analysis_callsigns;
    }

-- The loop over the messages.
unfoldable pub merge_messages : List Text → List DecoderMessage → List Text
merge_messages known [] = known
merge_messages known (m ∷ ms) = merge_messages (merge_unique_strings known m.message_callsigns) ms

unfoldable pub edit_decoder :
    DecoderMessage → List DecoderMessage → TransmissionEvent → TransmissionEvent
unfolding merge_messages
edit_decoder first rest event = record event {
  decoder_messages = first ∷ rest;
  protocol_name = some first.protocol;
  confidence = max_float event.confidence first.message_confidence;
  callsigns = merge_messages event.callsigns (first ∷ rest);
}

unfoldable pub edit_audio_path : Text → TransmissionEvent → TransmissionEvent
edit_audio_path path event = record event { audio_path = some path }

abbrev is_blank : Text → Bool
is_blank [] = true
is_blank (c ∷ s) = false

unfoldable pub edit_iq_path : Text → TransmissionEvent → TransmissionEvent
unfolding trim_space
edit_iq_path path event = record event {
  iq_path = if is_blank (trim_space path) then none else some path;
}

unfoldable pub edit_status : Text → Text → ℕ → TransmissionEvent → TransmissionEvent
unfolding trim_space
edit_status status message now event = record event {
  analysis_status = status;
  analysis_error = trim_space message;
  analysis_completed_at =
      if codes_eq status (codes "complete") || codes_eq status (codes "error")
      then some now
      else none;
}

-- The calls of the methods that change the store.
pub data Call : Type 0 where
  append_event : TransmissionEvent → Call
  set_transcript : Text → Text → Call
  set_analysis : Text → SignalIntelligence → Call
  set_messages : Text → List DecoderMessage → Call
  set_audio_path set_iq_path : Text → Text → Call
  set_status : Text → Text → Text → ℕ → Call

-- `frequency_text` formats a frequency for the search index, and `extract` is `ExtractCallsigns`.
module _ (frequency_text : ℕ → Text) (extract : Text → List Text) where
  -- `Append`: the row goes to the base journal first, and memory follows only if that succeeds.
  unfoldable pub append : EventStore → TransmissionEvent → Outcome → EventStore × Option StoreError
  append store event outcome =
      let (base', ok) = append_row store.base event outcome in
      if ok
      then (
        record store {
          events = store.events ++ event ∷ [];
          positions = (event.id, length store.events) ∷ store.positions;
          index = index_event frequency_text store.index event;
          signals = aggregate store.signals event;
          base = base';
        },
        none,
      )
      else (record store { base = base' }, some write_failed)

  -- The end of an update: the edited event is indexed again where its texts may have changed, and
  -- `persistUpdateLocked` appends it to the update journal. Memory keeps it whatever the write does.
  unfoldable pub store_edited :
      Bool → EventStore → ℕ → TransmissionEvent → Outcome → EventStore × Option StoreError
  store_edited reindex store position edited outcome =
      let (updates', ok) = append_row store.updates edited outcome in
      (
        record store {
          events = set store.events position edited;
          index = if reindex then index_event frequency_text store.index edited else store.index;
          updates = updates';
        },
        written_error ok,
      )

  abbrev pub update :
      Bool
      → (TransmissionEvent → TransmissionEvent)
      → EventStore
      → Text
      → Outcome
      → EventStore × Option StoreError
  update reindex edit store id outcome =
      at_id store id (λ position event. store_edited reindex store position (edit event) outcome)

  unfoldable pub update_transcript :
      EventStore → Text → Text → Outcome → EventStore × Option StoreError
  update_transcript store id transcript outcome =
      update true (edit_transcript extract transcript) store id outcome

  unfoldable pub update_analysis :
      EventStore → Text → SignalIntelligence → Outcome → EventStore × Option StoreError
  update_analysis store id analysis outcome = update true (edit_analysis analysis) store id outcome

  unfoldable pub update_decoder_messages :
      EventStore → Text → List DecoderMessage → Outcome → EventStore × Option StoreError
  update_decoder_messages store id [] outcome = (store, none)
  update_decoder_messages store id (first ∷ rest) outcome =
      update true (edit_decoder first rest) store id outcome

  unfoldable pub update_audio_path :
      EventStore → Text → Text → Outcome → EventStore × Option StoreError
  update_audio_path store id path outcome = update false (edit_audio_path path) store id outcome

  unfoldable pub update_iq_path :
      EventStore → Text → Text → Outcome → EventStore × Option StoreError
  update_iq_path store id path outcome = update false (edit_iq_path path) store id outcome

  unfoldable pub update_analysis_status :
      EventStore → Text → Text → Text → ℕ → Outcome → EventStore × Option StoreError
  update_analysis_status store id status message now outcome =
      update false (edit_status status message now) store id outcome

  unfoldable pub run_call : EventStore → Call → Outcome → EventStore × Option StoreError
  run_call store (append_event event) outcome = append store event outcome
  run_call store (set_transcript id transcript) outcome =
      update_transcript store id transcript outcome
  run_call store (set_analysis id analysis) outcome = update_analysis store id analysis outcome
  run_call store (set_messages id messages) outcome =
      update_decoder_messages store id messages outcome
  run_call store (set_audio_path id path) outcome = update_audio_path store id path outcome
  run_call store (set_iq_path id path) outcome = update_iq_path store id path outcome
  run_call store (set_status id status message now) outcome =
      update_analysis_status store id status message now outcome
