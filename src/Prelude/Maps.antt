-- ===== src/Prelude/Maps.antt =====
-- Maps from texts, as lists of entries, and what is found in one after a write or a removal.
use mathlib.Core.Path.{◌≡◌, refl, sym, ap, ◌∙◌}
use mathlib.Core.Logic.{◌≢◌, ◌⊎◌, inl, inr}
use mathlib.Core.Bool.{Bool, true, false}
use mathlib.Core.Option.{Option, none, some}
use mathlib.Core.List.{List, [], ◌∷◌}
use native.Mathlib.Omega.{arith}
use gp_sdr.Prelude.Tests.{Bool-cases, if◌then◌else◌}
use gp_sdr.Prelude.Text.{Text, codes_eq, codes_eq_iff, codes_eq_refl}

-- A map from texts: of two entries with one key, the one at the front counts.
abbrev pub Entries {ℓ} : Type ℓ → Type ℓ
Entries A = List (Text × A)

unfoldable pub lookup {ℓ} : {A : Type ℓ} → Text → Entries A → Option A
lookup key [] = none
lookup key ((k, a) ∷ entries) =
    let rest = lookup key entries in if codes_eq k key then some a else rest

unfoldable pub remove {ℓ} : {A : Type ℓ} → Text → Entries A → Entries A
remove key [] = []
remove key ((k, a) ∷ entries) =
    let rest = remove key entries in if codes_eq k key then rest else (k, a) ∷ rest

abbrev pub put {ℓ} : {A : Type ℓ} → Text → A → Entries A → Entries A
put key a entries = (key, a) ∷ remove key entries

abbrev pub is_there {ℓ} : {A : Type ℓ} → Option A → Bool
is_there none = false
is_there (some a) = true

pub codes_eq-false : (s t : Text) → s ≢ t → codes_eq s t ≡ false
codes_eq-false s t h = ground (arith, codes_eq_iff s t)

module _ {ℓ} {A : Type ℓ} where
  pub lookup-remove_self :
      (key : Text) (entries : Entries A) → lookup key (remove key entries) ≡ none
  unfolding lookup remove
  lookup-remove_self key [] = refl
  lookup-remove_self key ((k, a) ∷ entries) = elim (Bool-cases (codes_eq k key)) [
    | inl same ↦ rw same (lookup-remove_self key entries)
    | inr other ↦ rw other (rw other (lookup-remove_self key entries))
  ]

  pub lookup-remove_other :
      (key other : Text) (entries : Entries A)
      → key ≢ other
      → lookup other (remove key entries) ≡ lookup other entries
  unfolding lookup remove
  lookup-remove_other key other [] h = refl
  lookup-remove_other key other ((k, a) ∷ entries) h =
      let ih = lookup-remove_other key other entries h in
      elim (Bool-cases (codes_eq k key)) [
        | inl same ↦
            let gone = codes_eq-false k other (λ e. h (sym ((codes_eq_iff k key).0 same) ∙ e)) in
            rw (same, gone) ih
        | inr differs ↦ rw differs (ap (λ o. if codes_eq k other then some a else o) ih)
      ]

  pub lookup-put_self :
      (key : Text) (a : A) (entries : Entries A) → lookup key (put key a entries) ≡ some a
  unfolding lookup
  lookup-put_self key a entries = rw (codes_eq_refl key) refl

  pub lookup-put_other :
      (key other : Text) (a : A) (entries : Entries A)
      → key ≢ other
      → lookup other (put key a entries) ≡ lookup other entries
  unfolding lookup
  lookup-put_other key other a entries h =
      rw (codes_eq-false key other h) (lookup-remove_other key other entries h)

  -- No key has two entries.
  abbrev pub AllOnce : Entries A → Type ℓ
  AllOnce [] = Unit
  AllOnce ((k, a) ∷ entries) = (lookup k entries ≡ none) × AllOnce entries

  pub remove-AllOnce :
      (key : Text) (entries : Entries A) → AllOnce entries → AllOnce (remove key entries)
  unfolding remove
  remove-AllOnce key [] h = tt
  remove-AllOnce key ((k, a) ∷ entries) h = elim (Bool-cases (codes_eq k key)) [
    | inl same ↦ rw same (remove-AllOnce key entries h.1)
    | inr other ↦
        let apart = λ (e : key ≡ k). absurd (ground (arith, other, codes_eq_iff k key, sym e)) in
        rw other (lookup-remove_other key k entries apart ∙ h.0, remove-AllOnce key entries h.1)
  ]

  pub put-AllOnce :
      (key : Text) (a : A) (entries : Entries A) → AllOnce entries → AllOnce (put key a entries)
  put-AllOnce key a entries h = (lookup-remove_self key entries, remove-AllOnce key entries h)

  -- What is found behind the first entry is found.
  pub lookup_tail :
      (k key : Text) (a b : A) (entries : Entries A)
      → AllOnce ((k, a) ∷ entries)
      → lookup key entries ≡ some b
      → (k ≢ key) × (lookup key ((k, a) ∷ entries) ≡ some b)
  unfolding lookup
  lookup_tail k key a b entries h found =
      let apart = λ (e : k ≡ key).
        absurd (ground (arith, sym (h.0) ∙ ap (λ x. lookup x entries) e ∙ found)) in
      (apart, rw (codes_eq-false k key apart) found)

  pub some-injective : {a b : A} → some a ≡ some b → a ≡ b
  some-injective {a} e = ap (λ o. elim o [ none ↦ a | some x ↦ x ]) e

  pub put_cases :
      (key id : Text) (a b : A) (entries : Entries A)
      → lookup id (put key a entries) ≡ some b
      → ((key ≡ id) × (a ≡ b)) ⊎ ((key ≢ id) × (lookup id entries ≡ some b))
  put_cases key id a b entries h = elim (Bool-cases (codes_eq key id)) [
    | inl same ↦
        let e = (codes_eq_iff key id).0 same in
        inl (
          e,
          some-injective
              (sym (lookup-put_self key a entries) ∙ ap (λ k. lookup k (put key a entries)) e ∙ h),
        )
    | inr other ↦
        let apart = λ (e : key ≡ id). absurd (ground (arith, other, codes_eq_iff key id, e)) in
        inr (apart, sym (lookup-put_other key id a entries apart) ∙ h)
  ]

  pub remove_cases :
      (key id : Text) (b : A) (entries : Entries A)
      → lookup id (remove key entries) ≡ some b
      → (key ≢ id) × (lookup id entries ≡ some b)
  remove_cases key id b entries h = elim (Bool-cases (codes_eq key id)) [
    | inl same ↦
        let e = (codes_eq_iff key id).0 same in
        let gone =
          sym (lookup-remove_self key entries) ∙ ap (λ k. lookup k (remove key entries)) e ∙ h in
        absurd (ground (arith, gone))
    | inr other ↦
        let apart = λ (e : key ≡ id). absurd (ground (arith, other, codes_eq_iff key id, e)) in
        (apart, sym (lookup-remove_other key id entries apart) ∙ h)
  ]
