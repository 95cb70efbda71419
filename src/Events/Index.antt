-- ===== src/Events/Index.antt =====
-- server/internal/app/store.go, lines 630-663: the search index. A Go map from tokens to sets of
-- IDs is the list of its pairs, and the map from an ID to its tokens is a list whose newest entry
-- counts.
use gp_sdr.Prelude.{
  ℕ, Bool, false, ◌&&◌, ◌||◌, Option, none, some, List, [], ◌∷◌, ◌++◌, if◌then◌else◌,
}
use gp_sdr.Prelude.Text.{Text, codes_eq}
use gp_sdr.Events.Text.{search_tokens}
use gp_sdr.Events.Event.{DecoderMessage, TransmissionEvent}

pub record Index : Type 0 where
  pub pairs : List (Text × Text)
  pub event_tokens : List (Text × List Text)

abbrev pub empty_index : Index
empty_index = record { pairs = []; event_tokens = [] }

unfoldable pub has_pair : Text → Text → List (Text × Text) → Bool
has_pair token id [] = false
has_pair token id ((t, i) ∷ pairs) = (codes_eq t token && codes_eq i id) || has_pair token id pairs

unfoldable pub tokens_of : Text → List (Text × List Text) → List Text
tokens_of id [] = []
tokens_of id ((key, tokens) ∷ entries) = if codes_eq key id then tokens else tokens_of id entries

-- delete(s.searchIndex[token], event.ID)
unfoldable pub delete_pair : Text → Text → List (Text × Text) → List (Text × Text)
delete_pair token id [] = []
delete_pair token id ((t, i) ∷ pairs) =
    let rest = delete_pair token id pairs in
    if codes_eq t token && codes_eq i id then rest else (t, i) ∷ rest

-- The two loops of `indexEventLocked`.
unfoldable pub delete_tokens : List Text → Text → List (Text × Text) → List (Text × Text)
delete_tokens [] id pairs = pairs
delete_tokens (token ∷ tokens) id pairs = delete_tokens tokens id (delete_pair token id pairs)

unfoldable pub add_tokens : List Text → Text → List (Text × Text) → List (Text × Text)
add_tokens [] id pairs = pairs
add_tokens (token ∷ tokens) id pairs = add_tokens tokens id ((token, id) ∷ pairs)

-- strings.Join with one space.
unfoldable pub join_space : List Text → Text
join_space [] = []
join_space (part ∷ []) = part
join_space (part ∷ next ∷ parts) = part ++ (32 ∷ join_space (next ∷ parts))

abbrev string_value : Option Text → Text
string_value none = []
string_value (some s) = s

unfoldable pub message_parts : List DecoderMessage → List Text
message_parts [] = []
message_parts (m ∷ ms) =
    m.decoder_id
    ∷ m.protocol
    ∷ m.summary
    ∷ m.raw_text
    ∷ join_space m.message_callsigns
    ∷ message_parts ms

-- `frequency_text` is fmt.Sprintf("%.0f %.6f", f, f/1e6).
module _ (frequency_text : ℕ → Text) where
  unfoldable pub event_parts : TransmissionEvent → List Text
  event_parts event =
      event.id
      ∷ frequency_text event.frequency_hz
      ∷ event.modulation
      ∷ string_value event.protocol_name
      ∷ string_value event.label
      ∷ event.device_id
      ∷ string_value event.system_name
      ∷ string_value event.transcript
      ∷ join_space event.callsigns
      ∷ message_parts event.decoder_messages

  unfoldable pub tokens : TransmissionEvent → List Text
  tokens event = search_tokens (join_space (event_parts event))

  unfoldable pub index_event : Index → TransmissionEvent → Index
  index_event index event =
      let old = tokens_of event.id index.event_tokens in
      record {
        pairs = add_tokens (tokens event) event.id (delete_tokens old event.id index.pairs);
        event_tokens = (event.id, tokens event) ∷ index.event_tokens;
      }

  -- `rebuildSearchIndexLocked`.
  unfoldable pub index_all : Index → List TransmissionEvent → Index
  index_all index [] = index
  index_all index (event ∷ events) = index_all (index_event index event) events
