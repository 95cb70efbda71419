-- ===== src/Events/Query/Index.antt =====
-- The calls of server/internal/app/store.go keep the search index in step with the events.
use gp_sdr.Prelude.{
  ℕ, zero, suc, ◌≡◌, ◌≢◌, refl, sym, ap, ◌∙◌, subst, inl, inr, not, ◌&&◌, ◌||◌, Bool-cases, none,
  some, List, [], ◌∷◌, ◌++◌, arith, get_elem?, set,
}
use gp_sdr.Prelude.Text.{Text, codes_eq, codes_eq_iff}
use gp_sdr.Events.Text.{contains_text}
use gp_sdr.Events.Event.{TransmissionEvent}
use gp_sdr.Events.Index.{
  Index, has_pair, tokens_of, delete_pair, delete_tokens, add_tokens, tokens, index_event,
}

pub codes_eq_comm : (a b : Text) → codes_eq a b ≡ codes_eq b a
codes_eq_comm a b = ground (arith, codes_eq_iff a b, codes_eq_iff b a)

-- The pairs of the index are those of each ID with the tokens noted for it.
abbrev pub IsCoherent : Index → Type 0
IsCoherent index =
    (token id : Text)
    → has_pair token id index.pairs ≡ contains_text token (tokens_of id index.event_tokens)

has_pair-delete_pair :
    (t i token id : Text) (pairs : List (Text × Text))
    → has_pair t i (delete_pair token id pairs)
      ≡ (has_pair t i pairs && not (codes_eq token t && codes_eq id i))
unfolding has_pair delete_pair
has_pair-delete_pair t i token id [] = refl
has_pair-delete_pair t i token id ((u, j) ∷ pairs) =
    let ih = has_pair-delete_pair t i token id pairs in
    elim (Bool-cases (codes_eq u token && codes_eq j id)) [
      | inl same ↦
          let eu : u ≡ token = (codes_eq_iff u token).0 (ground arith) in
          let ej : j ≡ id = (codes_eq_iff j id).0 (ground arith) in
          let pt = ap (λ x. codes_eq x t) eu in
          let pi = ap (λ x. codes_eq x i) ej in ground (arith, ih, pt, pi)
      | inr other ↦ ground (
        arith,
        ih,
        codes_eq_iff u t,
        codes_eq_iff j i,
        codes_eq_iff token t,
        codes_eq_iff id i,
        codes_eq_iff u token,
        codes_eq_iff j id,
      )
    ]

has_pair-delete_tokens :
    (t i id : Text) (toks : List Text) (pairs : List (Text × Text))
    → has_pair t i (delete_tokens toks id pairs)
      ≡ (has_pair t i pairs && not (codes_eq id i && contains_text t toks))
unfolding delete_tokens contains_text
has_pair-delete_tokens t i id [] pairs = ground arith
has_pair-delete_tokens t i id (token ∷ toks) pairs =
    let ih = has_pair-delete_tokens t i id toks (delete_pair token id pairs) in
    ground (arith, ih, has_pair-delete_pair t i token id pairs, codes_eq_comm t token)

has_pair-add_tokens :
    (t i id : Text) (toks : List Text) (pairs : List (Text × Text))
    → has_pair t i (add_tokens toks id pairs)
      ≡ (has_pair t i pairs || (codes_eq id i && contains_text t toks))
unfolding add_tokens contains_text has_pair
has_pair-add_tokens t i id [] pairs = ground arith
has_pair-add_tokens t i id (token ∷ toks) pairs =
    let ih = has_pair-add_tokens t i id toks ((token, id) ∷ pairs) in
    ground (arith, ih, codes_eq_comm t token)

module _ (frequency_text : ℕ → Text) where
  pub index_event-IsCoherent :
      (index : Index) (event : TransmissionEvent)
      → IsCoherent index
      → IsCoherent (index_event frequency_text index event)
  unfolding index_event tokens_of
  index_event-IsCoherent index event h token id =
      let toks = tokens frequency_text event in
      let old = tokens_of event.id index.event_tokens in
      let added =
        has_pair-add_tokens token id event.id toks (delete_tokens old event.id index.pairs) in
      let deleted = has_pair-delete_tokens token id event.id old index.pairs in
      let before = h token id in
      elim (Bool-cases (codes_eq event.id id)) [
        | inl same ↦
            let here =
              ap (λ x. tokens_of x index.event_tokens) ((codes_eq_iff event.id id).0 same) in
            let known = before ∙ ap (contains_text token) (sym here) in
            rw (same, added, deleted, known) (ground arith)
        | inr other ↦ ground (arith, added, deleted, before, other)
      ]

  -- Every event's ID is noted with the event's tokens.
  abbrev pub AllNoted : List (Text × List Text) → List TransmissionEvent → Type 0
  AllNoted noted [] = Unit
  AllNoted noted (e ∷ es) = (tokens_of e.id noted ≡ tokens frequency_text e) × AllNoted noted es

-- No event of a list has the ID.
abbrev pub AllOther : Text → List TransmissionEvent → Type 0
AllOther id [] = Unit
AllOther id (e ∷ es) = (e.id ≢ id) × AllOther id es

abbrev pub AllDistinct : List TransmissionEvent → Type 0
AllDistinct [] = Unit
AllDistinct (e ∷ es) = AllOther e.id es × AllDistinct es

AllOther-append :
    (id : Text) (es : List TransmissionEvent) (e : TransmissionEvent)
    → AllOther id es
    → e.id ≢ id
    → AllOther id (es ++ e ∷ [])
AllOther-append id [] e h k = (k, tt)
AllOther-append id (x ∷ es) e h k = (h.0, AllOther-append id es e h.1 k)

pub AllDistinct-append :
    (es : List TransmissionEvent) (e : TransmissionEvent)
    → AllDistinct es
    → AllOther e.id es
    → AllDistinct (es ++ e ∷ [])
AllDistinct-append [] e h k = (tt, tt)
AllDistinct-append (x ∷ es) e h k =
    (AllOther-append x.id es e h.0 (λ q. k.0 (sym q)), AllDistinct-append es e h.1 k.1)

AllOther-set :
    (id : Text) (es : List TransmissionEvent) (i : ℕ) (e new : TransmissionEvent)
    → AllOther id es
    → get_elem? es i ≡ some e
    → new.id ≡ e.id
    → AllOther id (set es i new)
AllOther-set id [] i e new h g same = tt
AllOther-set id (x ∷ es) zero e new h g same =
    ((λ q. h.0 (ap (λ o. elim o [ none ↦ x.id | some y ↦ y.id ]) g ∙ sym same ∙ q)), h.1)
AllOther-set id (x ∷ es) (suc i) e new h g same = (h.0, AllOther-set id es i e new h.1 g same)

pub AllOther-get :
    (id : Text) (es : List TransmissionEvent) (i : ℕ) (e : TransmissionEvent)
    → AllOther id es
    → get_elem? es i ≡ some e
    → e.id ≢ id
AllOther-get id [] i e h g = absurd (ground arith)
AllOther-get id (x ∷ es) zero e h g =
    λ q. h.0 (ap (λ o. elim o [ none ↦ x.id | some y ↦ y.id ]) g ∙ q)
AllOther-get id (x ∷ es) (suc i) e h g = AllOther-get id es i e h.1 g

pub AllDistinct-set :
    (es : List TransmissionEvent) (i : ℕ) (e new : TransmissionEvent)
    → AllDistinct es
    → get_elem? es i ≡ some e
    → new.id ≡ e.id
    → AllDistinct (set es i new)
AllDistinct-set [] i e new h g same = tt
AllDistinct-set (x ∷ es) zero e new h g same =
    let q : new.id ≡ x.id = same ∙ sym (ap (λ o. elim o [ none ↦ x.id | some y ↦ y.id ]) g) in
    (subst (λ id. AllOther id es) (sym q) h.0, h.1)
AllDistinct-set (x ∷ es) (suc i) e new h g same =
    (AllOther-set x.id es i e new h.0 g same, AllDistinct-set es i e new h.1 g same)
