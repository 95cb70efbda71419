-- ===== src/Receivers/Plan.antt =====
-- server/internal/app/models.go, lines 297-305, and runtime.go, lines 1068-1111: the plan that gives each
-- assignment of a profile a receiver. The texts of an item's note and name are left out.
pub mod Laws
use gp_sdr.Prelude.{
  Bool, true, false, not, ◌&&◌, ◌||◌, Option, none, some, List, [], ◌∷◌, if◌then◌else◌,
}
use gp_sdr.Prelude.Text.{Text, codes_eq}
use gp_sdr.Profiles.Profile.{DeviceAssignment, ScanProfile, items}

pub record SdrDevice : Type 0 where
  pub sdr_id : Text
  pub is_connected : Bool
  pub is_available : Bool

pub data PlanState : Type 0 where
  waiting assigned_to conflict : PlanState

pub record ReceiverPlanItem : Type 0 where
  pub item_assignment : Text
  pub item_role : Text
  pub item_device : Option Text
  pub item_state : PlanState

-- The IDs of the devices that are connected and available.
unfoldable pub connected_ids : List SdrDevice → List Text
connected_ids [] = []
connected_ids (d ∷ devices) =
    let rest = connected_ids devices in
    if d.is_connected && d.is_available then d.sdr_id ∷ rest else rest

unfoldable pub is_in : Text → List Text → Bool
is_in id [] = false
is_in id (other ∷ ids) = codes_eq other id || is_in id ids

-- The first ID that is not used.
unfoldable pub first_free : List Text → List Text → Option Text
unfolding is_in
first_free used [] = none
first_free used (id ∷ ids) =
    let rest = first_free used ids in if is_in id used then rest else some id

abbrev pub item_of : DeviceAssignment → Option Text → PlanState → ReceiverPlanItem
item_of a device state = record {
  item_assignment = a.assignment_id;
  item_role = a.role;
  item_device = device;
  item_state = state;
}

-- The item of an assignment, and the receivers used with it.
unfoldable pub plan_item : List Text → List Text → DeviceAssignment → ReceiverPlanItem × List Text
unfolding first_free
plan_item connected used a = elim (a.assigned) [
  | some id ↦
      if not (is_in id connected)
      then (item_of a (some id) waiting, used)
      else if is_in id used
      then (item_of a (some id) conflict, used)
      else (item_of a (some id) assigned_to, id ∷ used)
  | none ↦ elim (first_free used connected) [
    | none ↦ (item_of a none waiting, used)
    | some id ↦ (item_of a (some id) assigned_to, id ∷ used)
  ]
]

unfoldable pub plan_items : List Text → List Text → List DeviceAssignment → List ReceiverPlanItem
unfolding plan_item
plan_items connected used [] = []
plan_items connected used (a ∷ assignments) =
    let (item, more) = plan_item connected used a in item ∷ plan_items connected more assignments

unfoldable pub build_plan : List SdrDevice → ScanProfile → List ReceiverPlanItem
unfolding plan_items connected_ids
build_plan devices profile = plan_items (connected_ids devices) [] (items profile.assignments)
