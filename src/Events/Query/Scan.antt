-- ===== src/Events/Query/Scan.antt =====
-- Search by the index of server/internal/app/store.go, against a scan of the events.
use gp_sdr.Prelude.{
  ℕ, zero, suc, ◌≡◌, refl, sym, ap, ◌∙◌, inl, inr, Bool, ◌&&◌, Bool-cases, List, [], ◌∷◌, arith,
  take, reverse,
}
use gp_sdr.Prelude.Int.{ℤ}
use gp_sdr.Prelude.Text.{Text}
use gp_sdr.Events.Text.{contains_text, search_tokens}
use gp_sdr.Events.Event.{TransmissionEvent}
use gp_sdr.Events.Index.{Index, tokens_of, tokens}
use gp_sdr.Events.Store.{EventStore}
use gp_sdr.Events.Query.{
  clamp_limit, recent, term_matches, keep_in, intersect_all, collect, search_terms, search,
}
use gp_sdr.Events.Query.Index.{IsCoherent, AllNoted}
use gp_sdr.Events.Query.Noted.{IsSearchable}
use mathlib.Core.List.{reverse_aux}
use gp_sdr.Events.Query.Search.{
  finds, finds_all, select, equal_tests, matched_token, token_matches, found_token, token_finds,
  contains_text-keep_in,
}

module _ (index : Index) (coherent : IsCoherent index) where
  term_matches-finds :
      (term id : Text)
      → contains_text id (term_matches term index.pairs)
        ≡ finds term (tokens_of id index.event_tokens)
  term_matches-finds term id =
      equal_tests
        (λ h.
          let (token, q, p) = matched_token term id index.pairs h in
          token_finds term token _ (sym (coherent token id) ∙ q) p)
        (λ h.
          let (token, q, p) = found_token term _ h in
          token_matches term id token index.pairs (coherent token id ∙ q) p)

  intersect_all-finds_all :
      (terms matches : List Text) (id : Text)
      → contains_text id (intersect_all matches terms index.pairs)
        ≡ (contains_text id matches && finds_all terms (tokens_of id index.event_tokens))
  unfolding intersect_all finds_all
  intersect_all-finds_all [] matches id = ground arith
  intersect_all-finds_all (term ∷ terms) matches id =
      let ih = intersect_all-finds_all terms (keep_in (term_matches term index.pairs) matches) id in
      let kept = contains_text-keep_in id (term_matches term index.pairs) matches in
      ground (arith, ih, kept, term_matches-finds term id)

  search_matches-finds_all :
      (term : Text) (terms : List Text) (id : Text)
      → contains_text id (intersect_all (term_matches term index.pairs) terms index.pairs)
        ≡ finds_all (term ∷ terms) (tokens_of id index.event_tokens)
  unfolding finds_all
  search_matches-finds_all term terms id =
      let all = intersect_all-finds_all terms (term_matches term index.pairs) id in
      ground (arith, all, term_matches-finds term id)

-- The loop stops at the limit.
AllAgree : List Text → (TransmissionEvent → Bool) → List TransmissionEvent → Type 0
AllAgree matches test [] = Unit
AllAgree matches test (e ∷ es) = (contains_text e.id matches ≡ test e) × AllAgree matches test es

collect-select :
    (matches : List Text) (test : TransmissionEvent → Bool) (es : List TransmissionEvent)
    (limit : ℕ)
    → AllAgree matches test es
    → collect limit matches es ≡ take limit (select test es)
unfolding collect AllAgree
collect-select matches test [] zero h = refl
collect-select matches test [] (suc limit) h = refl
collect-select matches test (e ∷ es) zero h = refl
collect-select matches test (e ∷ es) (suc limit) h = elim (Bool-cases (test e)) [
  | inl taken ↦
      rw (taken, h.0 ∙ taken, collect) (ap (λ l. e ∷ l) (collect-select matches test es limit h.1))
  | inr left ↦ rw (left, h.0 ∙ left, collect) (collect-select matches test es (suc limit) h.1)
]

module _ (frequency_text : ℕ → Text) where
  -- Whether every term of a query is a prefix of one of the event's tokens.
  abbrev pub is_found : List Text → TransmissionEvent → Bool
  is_found terms event = finds_all terms (tokens frequency_text event)

  AllNoted-reverse_aux :
      (noted : List (Text × List Text)) (es rest : List TransmissionEvent)
      → AllNoted frequency_text noted es
      → AllNoted frequency_text noted rest
      → AllNoted frequency_text noted (reverse_aux es rest)
  AllNoted-reverse_aux noted [] rest h k = k
  AllNoted-reverse_aux noted (e ∷ es) rest h k =
      AllNoted-reverse_aux noted es (e ∷ rest) h.1 (h.0, k)

  AllNoted-AllAgree :
      (index : Index) (term : Text) (terms : List Text) (es : List TransmissionEvent)
      → IsCoherent index
      → AllNoted frequency_text index.event_tokens es
      → AllAgree
          (intersect_all (term_matches term index.pairs) terms index.pairs)
          (is_found (term ∷ terms))
          es
  unfolding AllAgree
  AllNoted-AllAgree index term terms [] c h = tt
  AllNoted-AllAgree index term terms (e ∷ es) c h = (
    search_matches-finds_all index c term terms e.id ∙ ap (finds_all (term ∷ terms)) h.0,
    AllNoted-AllAgree index term terms es c h.1,
  )

  select-all : (es : List TransmissionEvent) → select (is_found []) es ≡ es
  unfolding finds_all
  select-all [] = refl
  select-all (e ∷ es) = ap (λ l. e ∷ l) (select-all es)

  search_terms-scan :
      (store : EventStore) (terms : List Text) (limit : ℤ)
      → IsSearchable frequency_text store
      → search_terms store terms limit
        ≡ take (clamp_limit limit) (select (is_found terms) (reverse store.events))
  unfolding recent
  search_terms-scan store [] limit h =
      ap (take (clamp_limit limit)) (sym (select-all (reverse store.events)))
  search_terms-scan store (term ∷ terms) limit h =
      let agree =
        AllNoted-AllAgree store.index term terms (reverse store.events) h.coherent
          (AllNoted-reverse_aux store.index.event_tokens store.events [] h.noted tt) in
      collect-select _ (is_found (term ∷ terms)) (reverse store.events) (clamp_limit limit) agree

  -- In a store whose index is in step with its events, a search by the index finds what a scan of
  -- the events finds, in the same order: of the events newest first, those in which every term of
  -- the query is the start of a token, as many as the limit allows.
  pub search-scan :
      (store : EventStore) (query : Text) (limit : ℤ)
      → IsSearchable frequency_text store
      → search store query limit
        ≡ take (clamp_limit limit) (select (is_found (search_tokens query)) (reverse store.events))
  unfolding search
  search-scan store query limit h = search_terms-scan store (search_tokens query) limit h
