-- ===== src/Events/Query.antt =====
-- server/internal/app/store.go, lines 400-462: `Recent` and `Search`. A set of
-- IDs is a list of them.
pub mod Index
pub mod Noted
pub mod Calls
pub mod Search
pub mod Scan
mod Tests
use gp_sdr.Prelude.{
  ℕ, zero, suc, Bool, true, false, not, ◌&&◌, ◌||◌, Option, none, some, List, [], ◌∷◌, ltb,
  if◌then◌else◌, length, get_elem?, take, reverse,
}
use gp_sdr.Prelude.Int.{ℤ, pos, negsuc}
use gp_sdr.Prelude.Text.{Text, codes, codes_eq, has_prefix}
use gp_sdr.Events.Text.{contains_text, search_tokens}
use gp_sdr.Events.Event.{TransmissionEvent}
use gp_sdr.Events.Store.{EventStore, position}

-- From 1 to 2000.
unfoldable pub clamp_limit : ℤ → ℕ
clamp_limit (pos n) = if ltb n 1 then 1 else if ltb 2000 n then 2000 else n
clamp_limit (negsuc n) = 1

-- The newest events first.
unfoldable pub recent : EventStore → ℤ → List TransmissionEvent
recent store limit = take (clamp_limit limit) (reverse store.events)

-- Whether a token of the index is one that a term of the query finds.
unfoldable pub is_hit : Text → Text → Bool
is_hit token term = codes_eq token term || has_prefix token term

-- The IDs under the tokens that a term finds.
unfoldable pub term_matches : Text → List (Text × Text) → List Text
term_matches term [] = []
term_matches term ((token, id) ∷ pairs) =
    let rest = term_matches term pairs in if is_hit token term then id ∷ rest else rest

-- The IDs that stay in `matches`.
unfoldable pub keep_in : List Text → List Text → List Text
keep_in found [] = []
keep_in found (id ∷ matches) =
    let rest = keep_in found matches in if contains_text id found then id ∷ rest else rest

unfoldable pub intersect_all : List Text → List Text → List (Text × Text) → List Text
intersect_all matches [] pairs = matches
intersect_all matches (term ∷ terms) pairs =
    intersect_all (keep_in (term_matches term pairs) matches) terms pairs

-- The loop over the events, newest first, that stops at the limit.
unfoldable pub collect : ℕ → List Text → List TransmissionEvent → List TransmissionEvent
collect limit matches [] = []
collect zero matches (event ∷ events) = []
collect (suc limit) matches (event ∷ events) = elim (contains_text event.id matches) [
  | true ↦ event ∷ collect limit matches events
  | false ↦ collect (suc limit) matches events
]

abbrev pub search_terms : EventStore → List Text → ℤ → List TransmissionEvent
search_terms store [] limit = recent store limit
search_terms store (term ∷ terms) limit =
    let pairs = store.index.pairs in
    collect (clamp_limit limit) (intersect_all (term_matches term pairs) terms pairs)
      (reverse store.events)

unfoldable pub search : EventStore → Text → ℤ → List TransmissionEvent
search store query limit = search_terms store (search_tokens query) limit
