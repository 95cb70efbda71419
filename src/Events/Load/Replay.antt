-- ===== src/Events/Load/Replay.antt =====
-- The journals of server/internal/app/store.go and event_journal.go hold what the store holds in
-- memory: a store that is opened again has the same events.
use gp_sdr.Prelude.{
  ℕ, zero, suc, ◌+◌, ◌<◌, ◌≡◌, ◌≢◌, leb, refl, sym, ap, ◌∙◌, subst, inl, inr, false, Bool-cases,
  Option-cases, none, some, List, [], ◌∷◌, ◌++◌, arith, length, length-set, set,
}
use gp_sdr.Prelude.Text.{Text, codes_eq, codes_eq_iff}
use gp_sdr.Events.Event.{TransmissionEvent}
use gp_sdr.Events.Store.{Row, row, bad, Positions, position}
use gp_sdr.Events.Load.{
  event_row_limit, update_row_limit, is_legacy_mapper_false_positive, load_rows, positions_from,
  replace, load_updates, to_rows,
}

abbrev pub positions_all : List TransmissionEvent → Positions
positions_all = positions_from 0 []

-- The events that a list of updates leads to.
pub replay : Positions → List TransmissionEvent → List TransmissionEvent → List TransmissionEvent
replay positions events [] = events
replay positions events (u ∷ us) = replay positions (replace positions events u) us

pub replay-nil :
    (positions : Positions) (events : List TransmissionEvent) → replay positions events [] ≡ events
unfolding replay
replay-nil positions events = refl

-- Every row is under the limit of its scanner.
abbrev pub AllShort : (TransmissionEvent → ℕ) → ℕ → List Row → Type 0
AllShort row_length limit [] = Unit
AllShort row_length limit (bad ∷ rows) = AllShort row_length limit rows
AllShort row_length limit (row event ∷ rows) =
    (row_length event < limit) × AllShort row_length limit rows

short_row : {n limit : ℕ} → n < limit → leb limit n ≡ false
short_row {n} {limit} h = ground arith

pub load_updates-to_rows :
    (row_length : TransmissionEvent → ℕ) (positions : Positions)
    (us events : List TransmissionEvent)
    → AllShort row_length update_row_limit (to_rows us)
    → load_updates row_length positions events (to_rows us) ≡ some (replay positions events us)
unfolding load_updates replay
load_updates-to_rows row_length positions [] events h = refl
load_updates-to_rows row_length positions (u ∷ us) events h =
    rw (short_row h.0)
      (load_updates-to_rows row_length positions us (replace positions events u) h.1)

abbrev pub AllCurrent : List TransmissionEvent → Type 0
AllCurrent [] = Unit
AllCurrent (e ∷ es) = (is_legacy_mapper_false_positive e ≡ false) × AllCurrent es

pub load_rows-to_rows :
    (row_length : TransmissionEvent → ℕ) (es : List TransmissionEvent)
    → AllCurrent es
    → AllShort row_length event_row_limit (to_rows es)
    → load_rows row_length (to_rows es) ≡ some es
unfolding load_rows
load_rows-to_rows row_length [] h short = refl
load_rows-to_rows row_length (e ∷ es) h short =
    rw (short_row short.0, load_rows-to_rows row_length es h.1 short.1, h.0) refl

pub to_rows-append :
    (xs : List TransmissionEvent) (e : TransmissionEvent)
    → to_rows (xs ++ e ∷ []) ≡ to_rows xs ++ row e ∷ []
to_rows-append [] e = refl
to_rows-append (x ∷ xs) e = ap (◌∷◌ (row x)) (to_rows-append xs e)

positions_from-append :
    (xs : List TransmissionEvent) (e : TransmissionEvent) (i : ℕ) (p : Positions)
    → positions_from i p (xs ++ e ∷ []) ≡ (e.id, i + length xs) ∷ positions_from i p xs
unfolding positions_from
positions_from-append [] e i p = ap (λ n. (e.id, n) ∷ p) (omega arith)
positions_from-append (x ∷ xs) e i p =
    positions_from-append xs e (suc i) ((x.id, i) ∷ p)
    ∙ ap (λ n. (e.id, n) ∷ positions_from (suc i) ((x.id, i) ∷ p) xs) (omega arith)

pub positions_all-append :
    (xs : List TransmissionEvent) (e : TransmissionEvent)
    → positions_all (xs ++ e ∷ []) ≡ (e.id, length xs) ∷ positions_all xs
positions_all-append xs e =
    positions_from-append xs e 0 [] ∙ ap (λ n. (e.id, n) ∷ positions_all xs) (omega arith)

pub replay-append :
    (us : List TransmissionEvent) (u : TransmissionEvent) (positions : Positions)
    (events : List TransmissionEvent)
    → replay positions events (us ++ u ∷ []) ≡ replace positions (replay positions events us) u
unfolding replay
replay-append [] u positions events = refl
replay-append (v ∷ us) u positions events =
    replay-append us u positions (replace positions events v)

replace-none :
    (positions : Positions) (events : List TransmissionEvent) (u : TransmissionEvent)
    → position u.id positions ≡ none
    → replace positions events u ≡ events
unfolding replace
replace-none positions events u e = rw (e, replace)

pub replace-some :
    (positions : Positions) (events : List TransmissionEvent) (u : TransmissionEvent) (i : ℕ)
    → position u.id positions ≡ some i
    → replace positions events u ≡ set events i u
unfolding replace
replace-some positions events u i e = rw (e, replace)

length-replace :
    (positions : Positions) (events : List TransmissionEvent) (u : TransmissionEvent)
    → length (replace positions events u) ≡ length events
length-replace positions events u = elim (Option-cases (position u.id positions)) [
  | inl e ↦ ap length (replace-none positions events u e)
  | inr (i, e) ↦ ap length (replace-some positions events u i e) ∙ length-set events i u
]

pub length-replay :
    (positions : Positions) (us events : List TransmissionEvent)
    → length (replay positions events us) ≡ length events
unfolding replay
length-replay positions [] events = refl
length-replay positions (u ∷ us) events =
    length-replay positions us (replace positions events u) ∙ length-replace positions events u

set-append :
    (xs : List TransmissionEvent) (e v : TransmissionEvent) (i : ℕ)
    → i < length xs
    → set (xs ++ e ∷ []) i v ≡ set xs i v ++ e ∷ []
set-append [] e v i h = elim h [ ]
set-append (x ∷ xs) e v zero h = refl
set-append (x ∷ xs) e v (suc i) h = ap (◌∷◌ x) (set-append xs e v i (omega arith))

-- The positions of `n` events point into them.
abbrev pub PointInto : ℕ → Positions → Type 0
PointInto n positions = (key : Text) (i : ℕ) → position key positions ≡ some i → i < n

-- An update of an event that is there.
abbrev pub AllKnown : Positions → List TransmissionEvent → Type 0
AllKnown positions [] = Unit
AllKnown positions (u ∷ us) = (position u.id positions ≢ none) × AllKnown positions us

position-other :
    (positions : Positions) (key fresh : Text) (n : ℕ)
    → position fresh positions ≡ none
    → position key positions ≢ none
    → position key ((fresh, n) ∷ positions) ≡ position key positions
unfolding position
position-other positions key fresh n absent known = elim (Bool-cases (codes_eq fresh key)) [
  | inl same ↦
      absurd
        (known (subst (λ k. position k positions ≡ none) ((codes_eq_iff fresh key).0 same) absent))
  | inr other ↦ rw other
]

replace-append :
    (positions : Positions) (events : List TransmissionEvent) (e u : TransmissionEvent)
    → position e.id positions ≡ none
    → position u.id positions ≢ none
    → PointInto (length events) positions
    → replace ((e.id, length events) ∷ positions) (events ++ e ∷ []) u
      ≡ replace positions events u ++ e ∷ []
replace-append positions events e u absent known inside =
    elim (Option-cases (position u.id positions)) [
      | inl q ↦ absurd (known q)
      | inr (i, q) ↦
          replace-some ((e.id, length events) ∷ positions) (events ++ e ∷ []) u i
            (position-other positions u.id e.id (length events) absent known ∙ q)
          ∙ set-append events e u i (inside u.id i q)
          ∙ ap (λ l. l ++ e ∷ []) (sym (replace-some positions events u i q))
    ]

pub replay_fresh :
    (positions : Positions) (us events : List TransmissionEvent) (e : TransmissionEvent) (n : ℕ)
    → n ≡ length events
    → position e.id positions ≡ none
    → AllKnown positions us
    → PointInto n positions
    → replay ((e.id, n) ∷ positions) (events ++ e ∷ []) us ≡ replay positions events us ++ e ∷ []
unfolding replay
replay_fresh positions [] events e n len absent known inside = refl
replay_fresh positions (u ∷ us) events e n len absent known inside =
    ap (λ l. replay ((e.id, n) ∷ positions) l us)
      (subst
        (λ m.
          replace ((e.id, m) ∷ positions) (events ++ e ∷ []) u
          ≡ replace positions events u ++ e ∷ [])
        (sym len)
        (replace-append positions events e u absent known.0
          (subst (λ m. PointInto m positions) len inside)))
    ∙ replay_fresh positions us (replace positions events u) e n
        (len ∙ sym (length-replace positions events u)) absent known.1 inside
