-- ===== src/Events/Load.antt =====
-- server/internal/app/store.go, lines 280-345, and event_journal.go, lines 62-92 and 107-157: how the
-- event store is read back from its two journals. Reads, and the repair of a journal's end, are
-- taken to succeed; an error for a bad row, or for one too long for the scanner, is `none`. How many
-- bytes the JSON of an event has is an input: the encoding is outside. A bufio.Scanner stops with an
-- error at a line that does not fit its buffer with the newline, so at one of the limit's size or
-- more.
pub mod Replay
pub mod Durable
pub mod Crash
mod Tests
use gp_sdr.Prelude.{
  ℕ, suc, ◌+◌, ◌*◌, leb, Bool, true, false, ◌&&◌, Option, none, some, List, [], ◌∷◌, ◌++◌, ◌==◌,
  if◌then◌else◌, set,
}
use gp_sdr.Prelude.Int.{ℤ, pos, eqb_ℤ}
use gp_sdr.Prelude.Text.{Text, codes, codes_eq}
use gp_sdr.Events.Event.{TransmissionEvent}
use gp_sdr.Events.Index.{Index, empty_index, index_all}
use gp_sdr.Events.Signals.{SignalSummary, aggregate_all}
use gp_sdr.Events.Store.{
  Row, row, bad, Tail, clean, torn, whole, Journal, Positions, position, EventStore,
}

-- `repairTornEventTail`: a whole row gets its newline, and any other tail is cut off.
unfoldable pub repair_tail : Tail → List Row → List Row
repair_tail clean rows = rows
repair_tail torn rows = rows
repair_tail (whole event) rows = rows ++ row event ∷ []

unfoldable pub repair_torn_event_tail : Journal → Journal
unfolding repair_tail
repair_torn_event_tail journal = record {
  rows = repair_tail journal.tail journal.rows;
  tail = clean;
}

abbrev label_is : Text → Option Text → Bool
label_is text none = false
label_is text (some label) = codes_eq label text

unfoldable pub is_legacy_mapper_false_positive : TransmissionEvent → Bool
is_legacy_mapper_false_positive event =
    eqb_ℤ event.noise_dbfs (pos 0)
    && (event.duration_hundredths == 20)
    && label_is (codes "Mapper discovery") event.label
    && (event.confidence == 72)

-- The limit of the base journal's scanner, 2 MiB.
abbrev pub event_row_limit : ℕ
event_row_limit = 2 * 1024 * 1024

-- The limit of the update journal's scanner, 16 MiB.
abbrev pub update_row_limit : ℕ
update_row_limit = 16 * 1024 * 1024

abbrev keep_row :
    TransmissionEvent → Option (List TransmissionEvent) → Option (List TransmissionEvent)
keep_row event none = none
keep_row event (some events) =
    some (if is_legacy_mapper_false_positive event then events else event ∷ events)

-- The events of the base journal, without the legacy ones.
unfoldable pub load_rows : (TransmissionEvent → ℕ) → List Row → Option (List TransmissionEvent)
load_rows row_length [] = some []
load_rows row_length (bad ∷ rows) = none
load_rows row_length (row event ∷ rows) =
    let rest = load_rows row_length rows in
    if leb event_row_limit (row_length event) then none else keep_row event rest

-- The loop that sets `positions[e.ID] = i`.
unfoldable pub positions_from : ℕ → Positions → List TransmissionEvent → Positions
positions_from i positions [] = positions
positions_from i positions (event ∷ events) =
    positions_from (suc i) ((event.id, i) ∷ positions) events

-- A row of the update journal replaces the event with its ID.
unfoldable pub replace :
    Positions → List TransmissionEvent → TransmissionEvent → List TransmissionEvent
replace positions events event = elim (position event.id positions) [
  | none ↦ events
  | some i ↦ set events i event
]

unfoldable pub load_updates :
    (TransmissionEvent → ℕ)
    → Positions
    → List TransmissionEvent
    → List Row
    → Option (List TransmissionEvent)
load_updates row_length positions events [] = some events
load_updates row_length positions events (bad ∷ rows) = none
load_updates row_length positions events (row event ∷ rows) =
    let rest = load_updates row_length positions (replace positions events event) rows in
    if leb update_row_limit (row_length event) then none else rest

abbrev pub to_rows : List TransmissionEvent → List Row
to_rows [] = []
to_rows (event ∷ events) = row event ∷ to_rows events

module _ (frequency_text : ℕ → Text) where
  -- The maps are built again from the events. A journal that held legacy events is written anew;
  -- one that held none has the rows of its events.
  unfoldable pub rebuild : List TransmissionEvent → List TransmissionEvent → Journal → EventStore
  rebuild kept events updates = record {
    events = events;
    positions = positions_from 0 [] events;
    index = index_all frequency_text empty_index events;
    signals = aggregate_all [] events;
    base = record { rows = to_rows kept; tail = clean };
    updates = updates;
  }

module _ (row_length : TransmissionEvent → ℕ) (frequency_text : ℕ → Text) where
  unfoldable pub load_over : List TransmissionEvent → Journal → Option EventStore
  load_over kept updates =
      elim (load_updates row_length (positions_from 0 [] kept) kept updates.rows) [
        | none ↦ none
        | some events ↦ some (rebuild frequency_text kept events updates)
      ]

  unfoldable pub new_event_store : Journal → Journal → Option EventStore
  new_event_store base updates = elim (load_rows row_length (repair_torn_event_tail base).rows) [
    | none ↦ none
    | some kept ↦ load_over kept (repair_torn_event_tail updates)
  ]
