-- ===== src/Events/Load/Tests.antt =====
-- A small history of server/internal/app/store.go, and the theorems at it.
use gp_sdr.Prelude.{ℕ, ◌≡◌, arith, refl, ◌⊎◌, none, some, List, []}
use gp_sdr.Prelude.Int.{negsuc}
use gp_sdr.Prelude.Text.{Text, codes, codes_eq}
use gp_sdr.Events.Event.{TransmissionEvent}
use gp_sdr.Events.Index.{empty_index}
use gp_sdr.Events.Store
use gp_sdr.Events.Store.{
  EventStore, Journal, clean, written, piece, no_newline, position, append_event, set_audio_path,
  run_call,
}
use gp_sdr.Events.Load.{new_event_store, is_legacy_mapper_false_positive, positions_from}
use gp_sdr.Events.Load.Durable.{
  IsDurable, IsReadable, journal_of, run_call-IsDurable, new_event_store-IsDurable,
}
use gp_sdr.Events.Load.Replay.{replay-nil}
use gp_sdr.Events.Load.Crash.{crash_consistent, append-piece-append}

abbrev event : Text → TransmissionEvent
event id = record {
  id = id;
  started_at = 10;
  duration_hundredths = 150;
  frequency_hz = 162550000;
  signal_dbfs = negsuc 4199;
  noise_dbfs = negsuc 7999;
  modulation = codes "nfm";
  protocol_name = none;
  label = none;
  device_id = codes "rtl-0";
  location = none;
  ctcss_hundredths = none;
  system_name = none;
  transcript = none;
  callsigns = [];
  analysis = none;
  decoder_messages = [];
  confidence = 50;
  audio_path = none;
  iq_path = none;
  mapper_job_id = [];
  analysis_status = [];
  analysis_error = [];
  analysis_completed_at = none;
}

abbrev first : TransmissionEvent
first = event (codes "a")

abbrev second : TransmissionEvent
second = event (codes "b")

abbrev frequency_text : ℕ → Text
frequency_text f = []

abbrev row_length : TransmissionEvent → ℕ
row_length e = 400

abbrev extract : Text → List Text
extract s = []

abbrev no_events : EventStore
no_events = record {
  events = [];
  positions = [];
  index = empty_index;
  signals = [];
  base = journal_of [];
  updates = journal_of [];
}

no_events-IsDurable : IsDurable no_events
unfolding position positions_from
no_events-IsDurable = record {
  originals = [];
  edits = [];
  base_rows = refl;
  update_rows = refl;
  placed = refl;
  replayed = replay-nil [] [];
  known = tt;
  inside = λ key i e. cc;
  current = tt;
}

abbrev one_event : EventStore
one_event = (run_call frequency_text extract no_events (append_event first) written).0

run_call-IsDurable_example : IsDurable one_event
unfolding position is_legacy_mapper_false_positive
run_call-IsDurable_example =
    run_call-IsDurable frequency_text extract no_events (append_event first) no_events-IsDurable
      (refl, refl)

one_event-IsDurable : IsDurable one_event
unfolding position is_legacy_mapper_false_positive
one_event-IsDurable =
    run_call-IsDurable frequency_text extract no_events (append_event first) no_events-IsDurable
      (refl, refl)

one_event-IsReadable : IsReadable row_length one_event
unfolding run_call Store.append Store.append_row
one_event-IsReadable = omega arith

edited-IsReadable :
    IsReadable row_length
      (run_call frequency_text extract one_event
        (set_audio_path (codes "a") (codes "a.wav"))
        written).0
unfolding run_call Store.append Store.append_row Store.update_audio_path Store.at_id codes_eq
    Store.store_edited
edited-IsReadable = omega arith

new_event_store-IsDurable_example :
    (opened : EventStore) × (new_event_store row_length frequency_text one_event.base
        one_event.updates
      ≡ some opened)
    × (opened.events ≡ one_event.events)
new_event_store-IsDurable_example =
    new_event_store-IsDurable row_length frequency_text one_event one_event-IsDurable
      one_event-IsReadable

abbrev interrupted : EventStore
interrupted =
    (run_call frequency_text extract one_event (set_audio_path (codes "a") (codes "a.wav")) piece).0

crash_consistent_example :
    (opened : EventStore) × (new_event_store row_length frequency_text interrupted.base
        interrupted.updates
      ≡ some opened)
    × ((opened.events ≡ one_event.events)
        ⊎ (opened.events
            ≡ (run_call frequency_text extract one_event
                (set_audio_path (codes "a") (codes "a.wav"))
                written).0.events))
crash_consistent_example =
    crash_consistent row_length frequency_text extract one_event
      (set_audio_path (codes "a") (codes "a.wav")) piece one_event-IsDurable tt one_event-IsReadable
      edited-IsReadable

abbrev torn_store : EventStore
torn_store = (Store.append frequency_text extract no_events first piece).0

append-piece-append_example :
    ((Store.append frequency_text extract torn_store second written).1 ≡ none)
    × (new_event_store row_length frequency_text
          (Store.append frequency_text extract torn_store second written).0.base
          (Store.append frequency_text extract torn_store second written).0.updates
        ≡ none)
append-piece-append_example =
    append-piece-append row_length frequency_text extract no_events first second refl
