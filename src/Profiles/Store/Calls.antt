-- ===== src/Profiles/Store/Calls.antt =====
-- Every call of the profile store (server/internal/app/store.go) keeps memory and disk in step, and
-- leaves the built-in profiles alone.
use gp_sdr.Prelude.{
  ℕ, ◌≡◌, ◌≢◌, sym, ap, ◌∙◌, inl, inr, true, false, ◌||◌, Bool-cases, Option-cases, none, some,
  arith, ltb,
}
use gp_sdr.Prelude.Text.{Text}
use gp_sdr.Profiles.Profile.{ScanProfile, is_bad_id, validate_profile, normalize_profile}
use gp_sdr.Profiles.Store.{
  Content, json, garbage, ProfileStore, Disk, persist, put_profile, as_user, is_protected, copy_of,
  save, import_profile, duplicate, delete, Call, saves, imports, duplicates, deletes, syncs,
  run_call,
}
use gp_sdr.Prelude.Maps.{lookup, is_there, lookup-put_other, lookup-remove_other}
use gp_sdr.Profiles.Store.Durable.{
  IsStored, save-IsStored, delete-IsStored, duplicate-IsStored, import_profile-IsStored,
}
use gp_sdr.Profiles.Store.Sync.{IsUserFree, replace_synced_profiles-IsStored}

-- What a sync needs: no profile of the user has an ID of the synced ones.
abbrev pub IsSyncable : Call → ProfileStore → Type 0
IsSyncable (syncs ps) store = IsUserFree store
IsSyncable _ store = Unit

-- Every call of the store, whether its writes succeed or not, keeps memory and the directory in step:
-- each profile in memory is valid and under its own ID; the user's profiles are those of the files,
-- each in the file of its ID. A sync does if no profile of the user has an ID of the synced ones.
pub run_call-IsStored :
    (call : Call) (store : ProfileStore)
    → IsStored store
    → IsSyncable call store
    → IsStored (run_call call store)
unfolding run_call
run_call-IsStored (saves disk p) store s free = save-IsStored disk p store s
run_call-IsStored (imports disk new_id (size, content)) store s free =
    import_profile-IsStored disk new_id size content store s
run_call-IsStored (duplicates disk new_id id) store s free =
    duplicate-IsStored disk new_id id store s
run_call-IsStored (deletes disk id) store s free = delete-IsStored disk id store s
run_call-IsStored (syncs ps) store s free = replace_synced_profiles-IsStored ps store s free

-- A call whose new ID, if it makes one, is not in use, and that is no sync.
abbrev pub IsFresh : Call → ProfileStore → Type 0
IsFresh (saves disk p) store = Unit
IsFresh (imports disk new_id upload) store = lookup new_id store.profiles ≡ none
IsFresh (duplicates disk new_id id) store = lookup new_id store.profiles ≡ none
IsFresh (deletes disk id) store = Unit
IsFresh (syncs ps) store = ⊥

put_profile-keeps :
    (disk : Disk) (q p : ScanProfile) (id : Text) (store : ProfileStore)
    → lookup id store.profiles ≡ some p
    → q.id ≢ id
    → lookup id (put_profile disk q store).1.profiles ≡ some p
unfolding persist
put_profile-keeps disk q p id store h n = elim (Bool-cases (is_bad_id q.id)) [
  | inl bad ↦ rw bad h
  | inr good ↦ elim (Bool-cases disk) [
    | inl works ↦ rw (good, works) (lookup-put_other q.id id q store.profiles n ∙ h)
    | inr fails ↦ rw (good, fails) h
  ]
]

-- A built-in profile is another than one that a check has found not to be there, or not built in.
apart_built_in :
    (id other : Text) (p : ScanProfile) (store : ProfileStore)
    → lookup id store.profiles ≡ some p
    → p.built_in ≡ true
    → is_protected (lookup other store.profiles) ≡ false
    → other ≢ id
apart_built_in id other p store h b free = λ e.
    let same = ap (λ k. is_protected (lookup k store.profiles)) e in
    absurd (ground (arith, sym free ∙ same ∙ ap is_protected h, b))

save_keeps :
    (disk : Disk) (q p : ScanProfile) (id : Text) (store : ProfileStore)
    → lookup id store.profiles ≡ some p
    → p.built_in ≡ true
    → lookup id (save disk q store).1.profiles ≡ some p
unfolding save normalize_profile
save_keeps disk q p id store h b = elim (Option-cases (validate_profile q)) [
  | inr (e, v) ↦ rw (save, v) h
  | inl v ↦ elim (Bool-cases (is_protected (lookup q.id store.profiles))) [
    | inl kept ↦ rw (save, v, kept) h
    | inr free ↦
        rw (save, v, free)
          (put_profile-keeps disk (as_user q) p id store h
            (apart_built_in id q.id p store h b free))
  ]
]

apart_there :
    (id other : Text) (p : ScanProfile) (store : ProfileStore)
    → lookup id store.profiles ≡ some p
    → is_there (lookup other store.profiles) ≡ false
    → other ≢ id
apart_there id other p store h free = λ e.
    let same = ap (λ k. is_there (lookup k store.profiles)) e in
    absurd (ground (arith, sym free ∙ same ∙ ap is_there h))

import_profile_keeps :
    (disk : Disk) (new_id : Text) (size : ℕ) (content : Content) (p : ScanProfile) (id : Text)
    (store : ProfileStore)
    → lookup id store.profiles ≡ some p
    → lookup new_id store.profiles ≡ none
    → lookup id (import_profile disk new_id (size, content) store).1.profiles ≡ some p
unfolding import_profile normalize_profile
import_profile_keeps disk new_id size garbage p id store h fresh =
    elim (Bool-cases (ltb 1000000 size)) [ inl big ↦ rw big h | inr small ↦ rw small h ]
import_profile_keeps disk new_id size (json q) p id store h fresh =
    elim (Bool-cases (ltb 1000000 size)) [
      | inl big ↦ rw big h
      | inr small ↦ elim (Option-cases (validate_profile q)) [
        | inr (e, v) ↦ rw (import_profile, small, v) h
        | inl v ↦ elim (Bool-cases (is_there (lookup q.id store.profiles) || q.built_in)) [
          | inl taken ↦
              rw (import_profile, small, v, taken)
                (put_profile-keeps disk (as_user (record q { id = new_id })) p id store h
                  (apart_there id new_id p store h (ap is_there fresh)))
          | inr free ↦
              rw (import_profile, small, v, free)
                (put_profile-keeps disk (as_user q) p id store h
                  (apart_there id q.id p store h (ground arith)))
        ]
      ]
    ]

duplicate_keeps :
    (disk : Disk) (new_id from : Text) (p : ScanProfile) (id : Text) (store : ProfileStore)
    → lookup id store.profiles ≡ some p
    → lookup new_id store.profiles ≡ none
    → lookup id (duplicate disk new_id from store).1.profiles ≡ some p
unfolding duplicate
duplicate_keeps disk new_id from p id store h fresh =
    elim (Option-cases (lookup from store.profiles)) [
      | inl v ↦ rw (duplicate, v) h
      | inr (q, v) ↦
          rw (duplicate, v)
            (put_profile-keeps disk (copy_of new_id q) p id store h
              (apart_there id new_id p store h (ap is_there fresh)))
    ]

delete_keeps :
    (disk : Disk) (from : Text) (p : ScanProfile) (id : Text) (store : ProfileStore)
    → lookup id store.profiles ≡ some p
    → p.built_in ≡ true
    → lookup id (delete disk from store).1.profiles ≡ some p
unfolding delete
delete_keeps disk from p id store h b = elim (Option-cases (lookup from store.profiles)) [
  | inl v ↦ rw (delete, v) h
  | inr (q, v) ↦ elim (Bool-cases q.built_in) [
    | inl kept ↦ rw (delete, v, kept) h
    | inr user ↦ elim (Bool-cases disk) [
      | inr fails ↦ rw (delete, v, user, fails) h
      | inl works ↦
          let apart = apart_built_in id from p store h b (ap is_protected v ∙ user) in
          rw (delete, v, user, works) (lookup-remove_other from id store.profiles apart ∙ h)
    ]
  ]
]

-- No call but a sync changes or removes a built-in profile, if an ID that the call makes is not in
-- use.
pub run_call_keeps :
    (call : Call) (store : ProfileStore) (id : Text) (p : ScanProfile)
    → lookup id store.profiles ≡ some p
    → p.built_in ≡ true
    → IsFresh call store
    → lookup id (run_call call store).profiles ≡ some p
unfolding run_call
run_call_keeps (saves disk q) store id p h b fresh = save_keeps disk q p id store h b
run_call_keeps (imports disk new_id (size, content)) store id p h b fresh =
    import_profile_keeps disk new_id size content p id store h fresh
run_call_keeps (duplicates disk new_id from) store id p h b fresh =
    duplicate_keeps disk new_id from p id store h fresh
run_call_keeps (deletes disk from) store id p h b fresh = delete_keeps disk from p id store h b
run_call_keeps (syncs ps) store id p h b fresh = absurd fresh
