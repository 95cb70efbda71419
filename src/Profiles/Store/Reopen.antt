-- ===== src/Profiles/Store/Reopen.antt =====
-- What the profile store holds when it is opened again (server/internal/app/store.go).
use gp_sdr.Prelude.{
  ◌≡◌, refl, sym, ap, ◌∙◌, ◌⊎◌, inl, inr, true, false, Bool-cases, Option-cases, none, some, List,
  [], ◌∷◌, arith,
}
use gp_sdr.Prelude.Text.{Text, codes_eq, codes_eq_iff}
use gp_sdr.Profiles.Profile.{ScanProfile, validate_profile, normalize_profile}
use gp_sdr.Profiles.Store.{
  Content, json, garbage, ProfileStore, add_built_ins, load_file, load_files, new_profile_store,
}
use gp_sdr.Prelude.Maps.{
  Entries, lookup, put, lookup-put_self, lookup-put_other, AllOnce, put_cases, lookup_tail,
  some-injective,
}
use gp_sdr.Profiles.Store.Durable.{IsStored}

json-injective : {p q : ScanProfile} → json p ≡ json q → p ≡ q
json-injective {p} e = ap (λ c. elim c [ json x ↦ x | garbage ↦ p ]) e

not-found : (id : Text) (q : ScanProfile) → lookup {A = ScanProfile} id [] ≡ some q → ⊥
unfolding lookup
not-found id q h = ground (arith, h)

-- Every file holds a valid profile whose ID is the file's name.
abbrev AllNamed : Entries Content → Type 0
AllNamed [] = Unit
AllNamed ((base, c) ∷ files) =
    ((p : ScanProfile) × (c ≡ json p) × (p.id ≡ base) × (validate_profile p ≡ none))
    × AllNamed files

lookup-head :
    {A : Type 0} (k : Text) (a : A) (entries : Entries A) → lookup k ((k, a) ∷ entries) ≡ some a
unfolding lookup
lookup-head k a entries = rw ((codes_eq_iff k k).1 refl) refl

files-AllNamed :
    (files : Entries Content)
    → AllOnce files
    → ((id : Text) (c : Content)
        → lookup id files ≡ some c
        → (p : ScanProfile) × (c ≡ json p) × (p.id ≡ id) × (validate_profile p ≡ none))
    → AllNamed files
files-AllNamed [] once h = tt
files-AllNamed ((base, c) ∷ files) once h = (
  h base c (lookup-head base c files),
  files-AllNamed files once.1 (λ id d found. h id d (lookup_tail base id c d files once found).1),
)

put_file :
    (p : ScanProfile) (profiles : Entries ScanProfile)
    → validate_profile p ≡ none
    → load_file (json p) profiles ≡ put p.id (normalize_profile p) profiles
put_file p profiles v = rw (v, load_file) refl

-- A file's profile, normalised, is what is found under its name; under another ID it is what there
-- was before.
lookup-load_files :
    (files : Entries Content) (profiles : Entries ScanProfile) (id : Text)
    → AllOnce files
    → AllNamed files
    → (lookup id files ≡ none → lookup id (load_files files profiles) ≡ lookup id profiles)
      × ((p : ScanProfile)
          → lookup id files ≡ some (json p)
          → lookup id (load_files files profiles) ≡ some (normalize_profile p))
unfolding load_files lookup
lookup-load_files [] profiles id once named = (λ h. refl, λ p h. absurd (ground (arith, h)))
lookup-load_files ((base, c) ∷ files) profiles id once ((q, e, same, v), named) =
    let next = load_file c profiles in
    let (rest_none, rest_some) = lookup-load_files files next id once.1 named in
    let loaded : next ≡ put base (normalize_profile q) profiles =
      ap (λ x. load_file x profiles) e
      ∙ put_file q profiles v
      ∙ ap (λ k. put k (normalize_profile q) profiles) same in
    elim (Bool-cases (codes_eq base id)) [
      | inl here ↦
          let at : base ≡ id = (codes_eq_iff base id).0 here in
          let gone : lookup id files ≡ none = ap (λ k. lookup k files) (sym at) ∙ once.0 in
          let placed : lookup id next ≡ some (normalize_profile q) =
            ap (lookup id) loaded
            ∙ ap (λ k. lookup id (put k (normalize_profile q) profiles)) at
            ∙ lookup-put_self id (normalize_profile q) profiles in
          (
            λ h. absurd (ground (arith, here, h)),
            λ p h.
                let held : some c ≡ some (json p) = rw here at h in
                let same_profile = json-injective (sym e ∙ some-injective held) in
                rest_none gone ∙ placed ∙ ap (λ x. some (normalize_profile x)) same_profile,
          )
      | inr there ↦
          let apart =
            λ (f : base ≡ id). absurd (ground (arith, there, (codes_eq_iff base id).1 f)) in
          let passed : lookup id next ≡ lookup id profiles =
            ap (lookup id) loaded ∙ lookup-put_other base id (normalize_profile q) profiles apart in
          (
            λ h. let k : lookup id files ≡ none = rw there at h in rest_none k ∙ passed,
            λ p h. let k : lookup id files ≡ some (json p) = rw there at h in rest_some p k,
          )
    ]

-- The profiles are marked as built in.
abbrev pub AllBuiltIn : List ScanProfile → Type 0
AllBuiltIn [] = Unit
AllBuiltIn (p ∷ ps) = (p.built_in ≡ true) × AllBuiltIn ps

found_built_in :
    (ps : List ScanProfile) (profiles : Entries ScanProfile) (id : Text) (q : ScanProfile)
    → AllBuiltIn ps
    → lookup id (add_built_ins ps profiles) ≡ some q
    → (q.built_in ≡ true) ⊎ (lookup id profiles ≡ some q)
unfolding add_built_ins
found_built_in [] profiles id q a h = inr h
found_built_in (p ∷ ps) profiles id q a h =
    elim (found_built_in ps (put p.id p profiles) id q a.1 h) [
      | inl b ↦ inl b
      | inr old ↦ elim (put_cases p.id id p q profiles old) [
        | inl (e, f) ↦ inl (ap (λ (x : ScanProfile). x.built_in) (sym f) ∙ a.0)
        | inr (n, older) ↦ inr older
      ]
    ]

-- A store that is in step with its directory is opened again with the same profiles of the user,
-- normalised: each one is found under its ID, and each one that is found was there.
pub new_profile_store-same :
    (built_ins : List ScanProfile) (store : ProfileStore) (id : Text)
    → AllBuiltIn built_ins
    → IsStored store
    → let opened = new_profile_store built_ins store.files in
      ((p : ScanProfile)
        → lookup id store.profiles ≡ some p
        → p.built_in ≡ false
        → lookup id opened.profiles ≡ some (normalize_profile p))
      × ((q : ScanProfile)
          → lookup id opened.profiles ≡ some q
          → q.built_in ≡ false
          → (p : ScanProfile) × (lookup id store.profiles ≡ some p) × (q ≡ normalize_profile p))
unfolding new_profile_store
new_profile_store-same built_ins store id marked s =
    let named = files-AllNamed store.files s.once (λ i c found.
      let (p, e, there, user) = s.in_memory i c found in
      let (same, valid) = s.named i p there in (p, e, same, valid)) in
    let (none_case, some_case) =
      lookup-load_files store.files (add_built_ins built_ins []) id s.once named in
    (
      λ p h user. some_case p (s.on_disk id p h user),
      λ q h user. elim (Option-cases (lookup id store.files)) [
        | inr (c, found) ↦
            let (p, e, there, _) = s.in_memory id c found in
            (p, there, some-injective (sym h ∙ some_case p (found ∙ ap some e)))
        | inl absent ↦ elim (found_built_in built_ins [] id q marked (sym (none_case absent) ∙ h)) [
          | inl b ↦ absurd (ground (arith, b, user))
          | inr bad ↦ absurd (not-found id q bad)
        ]
      ],
    )
