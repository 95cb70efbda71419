-- ===== src/Profiles/Store/Sync.antt =====
-- The profiles of a synced sheet, which are kept in memory only (server/internal/app/store.go).
use gp_sdr.Prelude.{
  ◌≡◌, ◌≢◌, refl, sym, ap, ◌∙◌, ◌⊎◌, inl, inr, true, false, not, ◌||◌, Bool-cases, Option-cases,
  none, some, List, [], ◌∷◌, arith, if◌then◌else◌,
}
use gp_sdr.Prelude.Text.{Text, codes_eq}
use gp_sdr.Profiles.Profile.{ScanProfile, validate_profile, normalize_profile}
use gp_sdr.Profiles.Store.{
  ProfileStore, is_synced, check_synced, drop_synced, add_synced, replace_synced_profiles,
}
use gp_sdr.Prelude.Maps.{Entries, lookup, put, lookup-put_other, put_cases, codes_eq-false}
use gp_sdr.Profiles.Store.Durable.{IsStored}

abbrev pub AllSynced : List ScanProfile → Type 0
AllSynced [] = Unit
AllSynced (p ∷ ps) =
    ((is_synced p.id ≡ true) × (p.built_in ≡ true) × (validate_profile p ≡ none)) × AllSynced ps

check_synced-AllSynced : (ps : List ScanProfile) → check_synced ps ≡ none → AllSynced ps
unfolding check_synced
check_synced-AllSynced [] h = tt
check_synced-AllSynced (p ∷ ps) h = elim (Bool-cases (not (is_synced p.id) || not p.built_in)) [
  | inl bad ↦ absurd (ground (arith, bad, h))
  | inr good ↦ elim (Option-cases (validate_profile p)) [
    | inr (e, f) ↦ absurd (ground (arith, good, f, h))
    | inl f ↦
        let rest : check_synced ps ≡ none = rw (good, f) at h in
        ((ground arith, ground arith, f), check_synced-AllSynced ps rest)
  ]
]

normalize-validate : (p : ScanProfile) → validate_profile (normalize_profile p) ≡ validate_profile p
unfolding normalize_profile validate_profile
normalize-validate p = refl

-- What is found after the synced profiles are dropped.
lookup-drop_synced :
    (id : Text) (profiles : Entries ScanProfile)
    → is_synced id ≡ false
    → lookup id (drop_synced profiles) ≡ lookup id profiles
unfolding lookup drop_synced
lookup-drop_synced id [] h = refl
lookup-drop_synced id ((k, p) ∷ profiles) h =
    let ih = lookup-drop_synced id profiles h in
    elim (Bool-cases (is_synced k)) [
      | inl synced ↦
          let apart = λ (e : k ≡ id). absurd (ground (arith, sym synced ∙ ap is_synced e ∙ h)) in
          rw (synced, codes_eq-false k id apart) ih
      | inr kept ↦ rw kept (ap (λ o. if codes_eq k id then some p else o) ih)
    ]

lookup-drop_synced-none :
    (id : Text) (profiles : Entries ScanProfile)
    → is_synced id ≡ true
    → lookup id (drop_synced profiles) ≡ none
unfolding lookup drop_synced
lookup-drop_synced-none id [] h = refl
lookup-drop_synced-none id ((k, p) ∷ profiles) h =
    let ih = lookup-drop_synced-none id profiles h in
    elim (Bool-cases (is_synced k)) [
      | inl synced ↦ rw synced ih
      | inr kept ↦
          let apart = λ (e : k ≡ id). absurd (ground (arith, sym kept ∙ ap is_synced e ∙ h)) in
          rw kept (rw (codes_eq-false k id apart) ih)
    ]

-- No profile of a list has the ID.
abbrev pub AllApart : Text → List ScanProfile → Type 0
AllApart id [] = Unit
AllApart id (p ∷ ps) = (p.id ≢ id) × AllApart id ps

AllSynced-AllApart :
    (ps : List ScanProfile) (id : Text) → AllSynced ps → is_synced id ≡ false → AllApart id ps
AllSynced-AllApart [] id a h = tt
AllSynced-AllApart (p ∷ ps) id a h =
    (λ e. absurd (ground (arith, sym a.0.0 ∙ ap is_synced e ∙ h)), AllSynced-AllApart ps id a.1 h)

lookup-add_synced :
    (ps : List ScanProfile) (id : Text) (profiles : Entries ScanProfile)
    → AllApart id ps
    → lookup id (add_synced ps profiles) ≡ lookup id profiles
unfolding add_synced
lookup-add_synced [] id profiles a = refl
lookup-add_synced (p ∷ ps) id profiles a =
    lookup-add_synced ps id (put p.id (normalize_profile p) profiles) a.1
    ∙ lookup-put_other p.id id (normalize_profile p) profiles a.0

-- A profile of the sheet, or one that was there.
lookup-add_synced_cases :
    (ps : List ScanProfile) (id : Text) (profiles : Entries ScanProfile) (q : ScanProfile)
    → AllSynced ps
    → lookup id (add_synced ps profiles) ≡ some q
    → ((q.id ≡ id) × (q.built_in ≡ true) × (validate_profile q ≡ none))
      ⊎ (lookup id profiles ≡ some q)
unfolding add_synced normalize_profile
lookup-add_synced_cases [] id profiles q a h = inr h
lookup-add_synced_cases (p ∷ ps) id profiles q a h =
    elim (lookup-add_synced_cases ps id (put p.id (normalize_profile p) profiles) q a.1 h) [
      | inl new ↦ inl new
      | inr old ↦ elim (put_cases p.id id (normalize_profile p) q profiles old) [
        | inl (e, f) ↦ inl (
          ap (λ (x : ScanProfile). x.id) (sym f) ∙ e,
          ap (λ (x : ScanProfile). x.built_in) (sym f) ∙ a.0.1,
          ap validate_profile (sym f) ∙ normalize-validate p ∙ a.0.2,
        )
        | inr (n, older) ↦ inr older
      ]
    ]

-- No profile of the user has an ID of the synced ones.
abbrev pub IsUserFree : ProfileStore → Type 0
IsUserFree store =
    (id : Text) (p : ScanProfile)
    → lookup id store.profiles ≡ some p
    → is_synced id ≡ true
    → p.built_in ≡ true

unsynced :
    (store : ProfileStore) (id : Text) (p : ScanProfile)
    → IsUserFree store
    → lookup id store.profiles ≡ some p
    → p.built_in ≡ false
    → is_synced id ≡ false
unsynced store id p free h user = elim (Bool-cases (is_synced id)) [
  | inl synced ↦ absurd (ground (arith, free id p h synced, user))
  | inr other ↦ other
]

kept_profile :
    (id : Text) (p : ScanProfile) (profiles : Entries ScanProfile)
    → lookup id (drop_synced profiles) ≡ some p
    → lookup id profiles ≡ some p
kept_profile id p profiles f = elim (Bool-cases (is_synced id)) [
  | inl synced ↦ absurd (ground (arith, sym (lookup-drop_synced-none id profiles synced) ∙ f))
  | inr other ↦ sym (lookup-drop_synced id profiles other) ∙ f
]

pub replace_synced_profiles-IsStored :
    (ps : List ScanProfile) (store : ProfileStore)
    → IsStored store
    → IsUserFree store
    → IsStored (replace_synced_profiles ps store).1
unfolding replace_synced_profiles
replace_synced_profiles-IsStored ps store s free = elim (Option-cases (check_synced ps)) [
  | inr (e, h) ↦ rw (replace_synced_profiles, h) s
  | inl h ↦
      let a = check_synced-AllSynced ps h in
      let base = drop_synced store.profiles in
      let next : IsStored (record store { profiles = add_synced ps base }) = record {
        named = λ id p f. elim (lookup-add_synced_cases ps id base p a f) [
          | inl (e, b, v) ↦ (e, v)
          | inr kept ↦ s.named id p (kept_profile id p store.profiles kept)
        ];
        on_disk = λ id p f u. elim (lookup-add_synced_cases ps id base p a f) [
          | inl (e, b, v) ↦ absurd (ground (arith, b, u))
          | inr kept ↦ s.on_disk id p (kept_profile id p store.profiles kept) u
        ];
        in_memory = λ id c f.
            let (p, e, there, user) = s.in_memory id c f in
            let other = unsynced store id p free there user in
            (
              p,
              e,
              lookup-add_synced ps id base (AllSynced-AllApart ps id a other)
                  ∙ lookup-drop_synced id store.profiles other
                  ∙ there,
              user,
            );
        once = s.once;
      } in
      rw (replace_synced_profiles, h) next
]

-- A sync that succeeds drops a saved profile of the user whose ID starts as the synced ones do, if
-- the sheet has none with that ID; its file stays.
pub replace_synced_profiles-drops :
    (ps : List ScanProfile) (store : ProfileStore) (id : Text)
    → check_synced ps ≡ none
    → is_synced id ≡ true
    → AllApart id ps
    → (lookup id (replace_synced_profiles ps store).1.profiles ≡ none)
      × ((replace_synced_profiles ps store).1.files ≡ store.files)
unfolding replace_synced_profiles
replace_synced_profiles-drops ps store id h synced apart =
    rw (replace_synced_profiles, h)
      (
        lookup-add_synced ps id (drop_synced store.profiles) apart
            ∙ lookup-drop_synced-none id store.profiles synced,
        refl,
      )
