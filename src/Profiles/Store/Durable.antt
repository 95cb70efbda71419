-- ===== src/Profiles/Store/Durable.antt =====
-- The directory holds the profiles of the user, as they are in memory
-- (server/internal/app/store.go).
use gp_sdr.Prelude.{
  ℕ, ◌≡◌, refl, sym, ap, ◌∙◌, inl, inr, false, ◌||◌, Bool-cases, Option-cases, none, some, ltb,
}
use gp_sdr.Prelude.Text.{Text}
use gp_sdr.Profiles.Profile.{ScanProfile, is_bad_id, validate_profile, normalize_profile}
use gp_sdr.Profiles.Store.{
  Content, json, garbage, ProfileStore, Disk, persist, put_profile, as_user, is_protected, copy_of,
  save, import_profile, duplicate, delete,
}
use gp_sdr.Prelude.Maps.{
  lookup, remove, put, is_there, lookup-put_self, lookup-put_other, lookup-remove_other, AllOnce,
  remove-AllOnce, put-AllOnce, put_cases, remove_cases,
}
use gp_sdr.Profiles.Store.Valid.{as_user-validate, validate_rename, validate_copy}

-- A valid profile under its own ID, and in its own file if it is the user's; no other files.
pub record IsStored (store : ProfileStore) : Type 0 where
  pub named :
      (id : Text) (p : ScanProfile)
      → lookup id store.profiles ≡ some p
      → (p.id ≡ id) × (validate_profile p ≡ none)
  pub on_disk :
      (id : Text) (p : ScanProfile)
      → lookup id store.profiles ≡ some p
      → p.built_in ≡ false
      → lookup id store.files ≡ some (json p)
  pub in_memory :
      (id : Text) (c : Content)
      → lookup id store.files ≡ some c
      → (p : ScanProfile) × (c ≡ json p)
        × (lookup id store.profiles ≡ some p)
        × (p.built_in ≡ false)
  pub once : AllOnce store.files

-- A write of a user's profile to disk and to memory.
written_profile-IsStored :
    (q : ScanProfile) (store : ProfileStore)
    → IsStored store
    → validate_profile q ≡ none
    → q.built_in ≡ false
    → IsStored
        (record { profiles = put q.id q store.profiles; files = put q.id (json q) store.files })
written_profile-IsStored q store s valid user = record {
  named = λ id p h. elim (put_cases q.id id q p store.profiles h) [
    | inl (e, f) ↦ (ap (λ (x : ScanProfile). x.id) (sym f) ∙ e, ap validate_profile (sym f) ∙ valid)
    | inr (n, old) ↦ s.named id p old
  ];
  on_disk = λ id p h u. elim (put_cases q.id id q p store.profiles h) [
    | inl (e, f) ↦
        ap (λ k. lookup k (put q.id (json q) store.files)) (sym e)
        ∙ lookup-put_self q.id (json q) store.files
        ∙ ap (λ x. some (json x)) f
    | inr (n, old) ↦ lookup-put_other q.id id (json q) store.files n ∙ s.on_disk id p old u
  ];
  in_memory = λ id c h. elim (put_cases q.id id (json q) c store.files h) [
    | inl (e, f) ↦ (
      q,
      sym f,
      ap (λ k. lookup k (put q.id q store.profiles)) (sym e)
          ∙ lookup-put_self q.id q store.profiles,
      user,
    )
    | inr (n, old) ↦
        let (p, a, b, u) = s.in_memory id c old in
        (p, a, lookup-put_other q.id id q store.profiles n ∙ b, u)
  ];
  once = put-AllOnce q.id (json q) store.files s.once;
}

put_profile-IsStored :
    (disk : Disk) (q : ScanProfile) (store : ProfileStore)
    → IsStored store
    → (is_bad_id q.id ≡ false → validate_profile q ≡ none)
    → q.built_in ≡ false
    → IsStored (put_profile disk q store).1
unfolding persist
put_profile-IsStored disk q store s valid user = elim (Bool-cases (is_bad_id q.id)) [
  | inl bad ↦ rw bad s
  | inr good ↦ elim (Bool-cases disk) [
    | inl works ↦ rw (good, works) (written_profile-IsStored q store s (valid good) user)
    | inr fails ↦ rw (good, fails) s
  ]
]

pub save-IsStored :
    (disk : Disk) (p : ScanProfile) (store : ProfileStore)
    → IsStored store
    → IsStored (save disk p store).1
unfolding save
save-IsStored disk p store s = elim (Option-cases (validate_profile p)) [
  | inr (e, h) ↦ rw (save, h) s
  | inl h ↦ elim (Bool-cases (is_protected (lookup p.id store.profiles))) [
    | inl kept ↦ rw (save, h, kept) s
    | inr free ↦
        rw (save, h, free)
          (put_profile-IsStored disk (as_user p) store s (λ g. as_user-validate p ∙ h) refl)
  ]
]

pub delete-IsStored :
    (disk : Disk) (id : Text) (store : ProfileStore)
    → IsStored store
    → IsStored (delete disk id store).1
unfolding delete
delete-IsStored disk id store s = elim (Option-cases (lookup id store.profiles)) [
  | inl h ↦ rw (delete, h) s
  | inr (p, h) ↦ elim (Bool-cases p.built_in) [
    | inl kept ↦ rw (delete, h, kept) s
    | inr user ↦ elim (Bool-cases disk) [
      | inr fails ↦ rw (delete, h, user, fails) s
      | inl works ↦
          let gone : IsStored
              (record { profiles = remove id store.profiles; files = remove id store.files }) =
            record {
              named = λ i q f. s.named i q (remove_cases id i q store.profiles f).1;
              on_disk = λ i q f u.
                  let (n, old) = remove_cases id i q store.profiles f in
                  lookup-remove_other id i store.files n ∙ s.on_disk i q old u;
              in_memory = λ i c f.
                  let (n, old) = remove_cases id i c store.files f in
                  let (q, a, b, u) = s.in_memory i c old in
                  (q, a, lookup-remove_other id i store.profiles n ∙ b, u);
              once = remove-AllOnce id store.files s.once;
            } in
          rw (delete, h, user, works) gone
    ]
  ]
]

pub duplicate-IsStored :
    (disk : Disk) (new_id id : Text) (store : ProfileStore)
    → IsStored store
    → IsStored (duplicate disk new_id id store).1
unfolding duplicate
duplicate-IsStored disk new_id id store s = elim (Option-cases (lookup id store.profiles)) [
  | inl h ↦ rw (duplicate, h) s
  | inr (p, h) ↦
      rw (duplicate, h)
        (put_profile-IsStored disk (copy_of new_id p) store s
          (λ g. validate_copy p new_id (s.named id p h).1 g) refl)
]

pub import_profile-IsStored :
    (disk : Disk) (new_id : Text) (size : ℕ) (content : Content) (store : ProfileStore)
    → IsStored store
    → IsStored (import_profile disk new_id (size, content) store).1
unfolding import_profile normalize_profile
import_profile-IsStored disk new_id size garbage store s = elim (Bool-cases (ltb 1000000 size)) [
  | inl big ↦ rw big s
  | inr small ↦ rw small s
]
import_profile-IsStored disk new_id size (json p) store s = elim (Bool-cases (ltb 1000000 size)) [
  | inl big ↦ rw big s
  | inr small ↦ elim (Option-cases (validate_profile p)) [
    | inr (e, h) ↦ rw (import_profile, small, h) s
    | inl h ↦ elim (Bool-cases (is_there (lookup p.id store.profiles) || p.built_in)) [
      | inl taken ↦
          rw (import_profile, small, h, taken)
            (put_profile-IsStored disk (as_user (record p { id = new_id })) store s
              (λ g. as_user-validate (record p { id = new_id }) ∙ validate_rename p new_id h g)
              refl)
      | inr free ↦
          rw (import_profile, small, h, free)
            (put_profile-IsStored disk (as_user p) store s (λ g. as_user-validate p ∙ h) refl)
    ]
  ]
]
