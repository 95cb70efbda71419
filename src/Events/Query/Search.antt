-- ===== src/Events/Query/Search.antt =====
-- What a term of a query finds in the search index of server/internal/app/store.go.
use gp_sdr.Prelude.{
  ◌≡◌, refl, sym, ap, ◌∙◌, inl, inr, Bool, true, false, ◌&&◌, ◌||◌, Bool-cases, List, [], ◌∷◌,
  arith, if◌then◌else◌,
}
use gp_sdr.Prelude.Text.{Text, codes_eq, codes_eq_iff, codes_eq_refl, has_prefix}
use gp_sdr.Events.Text.{contains_text}
use gp_sdr.Events.Event.{TransmissionEvent}
use gp_sdr.Events.Index.{has_pair, tokens}
use gp_sdr.Events.Query.{is_hit, term_matches, keep_in}
use gp_sdr.Events.Query.Index.{codes_eq_comm}

-- A term is a prefix of one of the tokens.
unfoldable pub finds : Text → List Text → Bool
finds term [] = false
finds term (token ∷ tokens) = has_prefix token term || finds term tokens

unfoldable pub finds_all : List Text → List Text → Bool
finds_all [] tokens = true
finds_all (term ∷ terms) tokens = finds term tokens && finds_all terms tokens

-- The events that a test takes, in their order.
abbrev pub select : (TransmissionEvent → Bool) → List TransmissionEvent → List TransmissionEvent
select test [] = []
select test (event ∷ events) =
    let rest = select test events in if test event then event ∷ rest else rest

has_prefix_self : (s : Text) → has_prefix s s ≡ true
unfolding has_prefix
has_prefix_self [] = refl
has_prefix_self (c ∷ s) = ground (arith, has_prefix_self s)

is_hit-has_prefix : (token term : Text) → is_hit token term ≡ has_prefix token term
unfolding is_hit
is_hit-has_prefix token term = elim (Bool-cases (codes_eq token term)) [
  | inr other ↦ rw other refl
  | inl same ↦
      let e = (codes_eq_iff token term).0 same in
      let p = ap (has_prefix token) (sym e) ∙ has_prefix_self token in ground (arith, same, p)
]

pub equal_tests : {a b : Bool} → (a ≡ true → b ≡ true) → (b ≡ true → a ≡ true) → a ≡ b
equal_tests {a} {b} f g = ground arith

-- An ID that a term matches is paired with a token that the term finds.
pub matched_token :
    (term id : Text) (pairs : List (Text × Text))
    → contains_text id (term_matches term pairs) ≡ true
    → (token : Text) × (has_pair token id pairs ≡ true) × (has_prefix token term ≡ true)
unfolding term_matches contains_text has_pair
matched_token term id [] h = absurd (ground arith)
matched_token term id ((t, i) ∷ pairs) h = elim (Bool-cases (is_hit t term)) [
  | inr miss ↦
      let k : contains_text id (term_matches term pairs) ≡ true = rw miss at h in
      let (token, q, p) = matched_token term id pairs k in (token, ground (arith, q), p)
  | inl hit ↦
      let k : (codes_eq id i || contains_text id (term_matches term pairs)) ≡ true = rw hit at h in
      elim (Bool-cases (codes_eq id i)) [
        | inl same ↦ (
          t,
          ground (arith, same, codes_eq_refl t, codes_eq_comm id i),
          sym (is_hit-has_prefix t term) ∙ hit,
        )
        | inr other ↦
            let (token, q, p) = matched_token term id pairs (ground (arith, k, other)) in
            (token, ground (arith, q), p)
      ]
]

pub token_matches :
    (term id token : Text) (pairs : List (Text × Text))
    → has_pair token id pairs ≡ true
    → has_prefix token term ≡ true
    → contains_text id (term_matches term pairs) ≡ true
unfolding term_matches contains_text has_pair
token_matches term id token [] h p = absurd (ground arith)
token_matches term id token ((t, i) ∷ pairs) h p =
    elim (Bool-cases (codes_eq t token && codes_eq i id)) [
      | inl here ↦
          let et : t ≡ token = (codes_eq_iff t token).0 (ground arith) in
          let hit = is_hit-has_prefix t term ∙ ap (λ x. has_prefix x term) et ∙ p in
          rw hit (ground (arith, here, codes_eq_comm id i))
      | inr there ↦
          let q = token_matches term id token pairs (ground arith) p in
          elim (Bool-cases (is_hit t term)) [
            | inl hit ↦ rw hit (ground (arith, q))
            | inr miss ↦ rw miss q
          ]
    ]

pub found_token :
    (term : Text) (toks : List Text)
    → finds term toks ≡ true
    → (token : Text) × (contains_text token toks ≡ true) × (has_prefix token term ≡ true)
unfolding finds contains_text
found_token term [] h = absurd (ground arith)
found_token term (t ∷ toks) h = elim (Bool-cases (has_prefix t term)) [
  | inl p ↦ (t, ground (arith, codes_eq_refl t), p)
  | inr n ↦
      let (token, c, q) = found_token term toks (ground arith) in (token, ground (arith, c), q)
]

pub token_finds :
    (term token : Text) (toks : List Text)
    → contains_text token toks ≡ true
    → has_prefix token term ≡ true
    → finds term toks ≡ true
unfolding finds contains_text
token_finds term token [] h p = absurd (ground arith)
token_finds term token (t ∷ toks) h p = elim (Bool-cases (codes_eq token t)) [
  | inl same ↦
      let q = ap (λ x. has_prefix x term) (sym ((codes_eq_iff token t).0 same)) ∙ p in
      ground (arith, q)
  | inr other ↦ let q = token_finds term token toks (ground arith) p in ground (arith, q)
]

pub contains_text-keep_in :
    (id : Text) (found matches : List Text)
    → contains_text id (keep_in found matches)
      ≡ (contains_text id matches && contains_text id found)
unfolding keep_in contains_text
contains_text-keep_in id found [] = refl
contains_text-keep_in id found (m ∷ matches) =
    let ih = contains_text-keep_in id found matches in
    let move = λ (e : id ≡ m). ap (λ x. contains_text x found) e in
    elim (Bool-cases (contains_text m found)) [
      | inl kept ↦ rw kept (ground (arith, ih, kept, codes_eq_iff id m, move))
      | inr gone ↦ rw gone (ground (arith, ih, gone, codes_eq_iff id m, move))
    ]
