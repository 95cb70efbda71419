-- ===== src/Receivers/Plan/Laws.antt =====
-- What the receiver plan (server/internal/app/runtime.go, lines 1068-1111) gives to the assignments.
use gp_sdr.Prelude.{
  ◌≡◌, refl, sym, subst, ap, ◌∙◌, ◌⊎◌, inl, inr, true, false, ◌||◌, Bool-cases, Option,
  Option-cases, none, some, List, [], ◌∷◌, arith,
}
use gp_sdr.Prelude.Text.{Text, codes_eq, codes_eq_refl}
use gp_sdr.Profiles.Profile.{DeviceAssignment, ScanProfile, items}
use gp_sdr.Receivers.Plan.{
  SdrDevice, assigned_to, conflict, ReceiverPlanItem, connected_ids, is_in, first_free, plan_item,
  plan_items, build_plan,
}

-- The receiver that an item has, where it is assigned.
abbrev pub held_by : ReceiverPlanItem → Option Text
held_by item = elim (item.item_state) [ assigned_to ↦ item.item_device | _ ↦ none ]

abbrev hold : Option Text → List Text → List Text
hold none ids = ids
hold (some id) ids = id ∷ ids

-- The receivers of the items that are assigned.
unfoldable pub held : List ReceiverPlanItem → List Text
held [] = []
held (item ∷ plan) = hold (held_by item) (held plan)

-- An item keeps a pinned receiver, has a receiver if it is assigned, and is in conflict only over a
-- pinned receiver that is connected.
abbrev pub IsItemOf : List Text → DeviceAssignment → ReceiverPlanItem → Type 0
IsItemOf connected a item =
    (item.item_role ≡ a.role)
    × ((id : Text) → a.assigned ≡ some id → item.item_device ≡ some id)
    × (item.item_state ≡ assigned_to
        → (id : Text) × (item.item_device ≡ some id) × (is_in id connected ≡ true))
    × (item.item_state ≡ conflict
        → (id : Text) × (a.assigned ≡ some id) × (is_in id connected ≡ true))

abbrev pub AreItemsOf : List Text → List DeviceAssignment → List ReceiverPlanItem → Type 0
AreItemsOf connected [] [] = Unit
AreItemsOf connected (a ∷ assignments) (item ∷ plan) =
    IsItemOf connected a item × AreItemsOf connected assignments plan
AreItemsOf connected _ _ = ⊥

-- No receiver stands twice, and none is used before.
abbrev pub AreApart : List Text → List Text → Type 0
AreApart used [] = Unit
AreApart used (id ∷ ids) = (is_in id used ≡ false) × AreApart (id ∷ used) ids

some_eq : {a b : Text} → some a ≡ some b → a ≡ b
some_eq {a} e = ap (λ o. elim o [ none ↦ a | some x ↦ x ]) e

first_free_cases :
    (used ids : List Text) (id : Text)
    → first_free used ids ≡ some id
    → (is_in id used ≡ false) × (is_in id ids ≡ true)
unfolding first_free is_in
first_free_cases used [] id h = absurd (ground (arith, h))
first_free_cases used (other ∷ ids) id h = elim (Bool-cases (is_in other used)) [
  | inl taken ↦
      let (free, there) = first_free_cases used ids id (sym (rw taken refl) ∙ h) in
      (free, ground (arith, there))
  | inr open_one ↦
      let e : other ≡ id = some_eq (sym (rw open_one refl) ∙ h) in
      (
        ap (λ k. is_in k used) (sym e) ∙ open_one,
        ap (λ k. codes_eq other k || is_in k ids) (sym e) ∙ ground (arith, codes_eq_refl other),
      )
]

-- What `plan_item` makes of an assignment, and of the receivers used so far.
abbrev IsPlanned : List Text → List Text → DeviceAssignment → ReceiverPlanItem × List Text → Type 0
IsPlanned connected used a r =
    IsItemOf connected a r.0
    × (((held_by r.0 ≡ none) × (r.1 ≡ used))
        ⊎ ((id : Text) × (held_by r.0 ≡ some id) × (is_in id used ≡ false) × (r.1 ≡ id ∷ used)))

plan_item-IsPlanned :
    (connected used : List Text) (a : DeviceAssignment)
    → IsPlanned connected used a (plan_item connected used a)
unfolding plan_item
plan_item-IsPlanned connected used a = elim (Option-cases (a.assigned)) [
  | inl e ↦ elim (Option-cases (first_free used connected)) [
    | inl f ↦
        rw (plan_item, e, f)
          (
            (
              refl,
              λ x k. absurd (ground (arith, k)),
              λ k. absurd (ground (arith, k)),
              λ k. absurd (ground (arith, k)),
            ),
            inl (refl, refl),
          )
    | inr (id, f) ↦
        rw (plan_item, e, f)
          (let (free, there) = first_free_cases used connected id f in
            (
              (
                refl,
                λ x k. absurd (ground (arith, k)),
                λ k. (id, refl, there),
                λ k. absurd (ground (arith, k)),
              ),
              inr (id, refl, free, refl),
            ))
  ]
  | inr (id, e) ↦ elim (Bool-cases (is_in id connected)) [
    | inr gone ↦
        rw (plan_item, e, gone)
          (
            (refl, λ x k. k, λ k. absurd (ground (arith, k)), λ k. absurd (ground (arith, k))),
            inl (refl, refl),
          )
    | inl there ↦ elim (Bool-cases (is_in id used)) [
      | inl taken ↦
          rw (plan_item, e, there, taken)
            (
              (refl, λ x k. k, λ k. absurd (ground (arith, k)), λ k. (id, refl, there)),
              inl (refl, refl),
            )
      | inr free ↦
          rw (plan_item, e, there, free)
            (
              (refl, λ x k. k, λ k. (id, refl, there), λ k. absurd (ground (arith, k))),
              inr (id, refl, free, refl),
            )
    ]
  ]
]

held-none :
    (item : ReceiverPlanItem) (plan : List ReceiverPlanItem)
    → held_by item ≡ none
    → held (item ∷ plan) ≡ held plan
unfolding held
held-none item plan h = ap (λ o. hold o (held plan)) h

held-some :
    (item : ReceiverPlanItem) (plan : List ReceiverPlanItem) (id : Text)
    → held_by item ≡ some id
    → held (item ∷ plan) ≡ id ∷ held plan
unfolding held
held-some item plan id h = ap (λ o. hold o (held plan)) h

plan_items-AreItemsOf :
    (connected used : List Text) (assignments : List DeviceAssignment)
    → AreItemsOf connected assignments (plan_items connected used assignments)
unfolding plan_items
plan_items-AreItemsOf connected used [] = tt
plan_items-AreItemsOf connected used (a ∷ assignments) = (
  (plan_item-IsPlanned connected used a).0,
  plan_items-AreItemsOf connected (plan_item connected used a).1 assignments,
)

held-plan_items-AreApart :
    (connected used : List Text) (assignments : List DeviceAssignment)
    → AreApart used (held (plan_items connected used assignments))
unfolding plan_items held
held-plan_items-AreApart connected used [] = tt
held-plan_items-AreApart connected used (a ∷ assignments) =
    let r = plan_item connected used a in
    let rest = plan_items connected r.1 assignments in
    let ih = held-plan_items-AreApart connected r.1 assignments in
    elim ((plan_item-IsPlanned connected used a).1) [
      | inl (h, e) ↦ rw (held-none r.0 rest h) (subst (λ u. AreApart u (held rest)) e ih)
      | inr (id, h, free, e) ↦
          rw (held-some r.0 rest id h) (free, subst (λ u. AreApart u (held rest)) e ih)
    ]

-- The plan has an item for each assignment of the profile, in order; an item keeps its role and its
-- pinned receiver; an item that is assigned has a receiver that is connected and available, and no two
-- have the same; only a pinned receiver that is there comes to a conflict.
pub build_plan-AreApart :
    (devices : List SdrDevice) (profile : ScanProfile)
    → AreItemsOf (connected_ids devices) (items profile.assignments) (build_plan devices profile)
      × AreApart [] (held (build_plan devices profile))
unfolding build_plan
build_plan-AreApart devices profile = (
  plan_items-AreItemsOf (connected_ids devices) [] (items profile.assignments),
  held-plan_items-AreApart (connected_ids devices) [] (items profile.assignments),
)
