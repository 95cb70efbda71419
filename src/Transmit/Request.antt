-- ===== src/Transmit/Request.antt =====
-- server/internal/app/transmit.go, lines 20-30 and 93-184: the checks of a transmit request, in the
-- order of `Transmit`. A float is a whole number of Hz, or of sample periods (half microseconds) for
-- a duration, or one of the values that are no number.
use Prim.Native.String.{String}
use gp_sdr.Prelude.{
  ℕ, Bool, true, false, not, ◌&&◌, ◌||◌, Option, none, some, List, [], ◌∷◌, map, ltb, if◌then◌else◌,
}
use gp_sdr.Prelude.Int.{ℤ, pos, ltb_ℤ}
use gp_sdr.Prelude.Text.{Text, codes, codes_eq, to_lower, trim_space, equal_fold}

pub data Float : Type 0 where
  nan : Float
  infinity : Bool → Float
  finite : ℤ → Float

pub record TransmitRequest : Type 0 where
  pub request_device : Text
  pub frequency : Float
  pub mode : Text
  pub has_audio : Bool
  pub duration : Float
  pub tx_gain_db : ℤ
  pub armed : Bool
  pub dry_run : Bool
  pub has_fixture : Bool

-- The fields of `SDRDevice` that the checks and the command lines read. The limits are in Hz, 0 where unknown.
pub record Device : Type 0 where
  pub device_id : Text
  pub kind : String
  pub connected : Bool
  pub available : Bool
  pub transmit_channels : ℕ
  pub frequency_minimum : ℕ
  pub frequency_maximum : ℕ
  pub has_warning : Bool
  pub serial : Option Text
  pub driver : Text
  pub device_arguments : Text

-- An assignment of the receiver plan: its device and whether its state is "assigned".
pub record PlanItem : Type 0 where
  pub plan_device : Option Text
  pub is_assigned : Bool

-- What the checks read of the runtime, under its lock. A Mapper job is the device that it holds.
pub record Runtime : Type 0 where
  pub devices : List Device
  pub is_running : Bool
  pub has_active : Bool
  pub plan : List PlanItem
  pub mapper_devices : List Text

pub data TransmitError : Type 0 where
  preparing already_running bad_mode bad_frequency bad_duration too_long bad_gain : TransmitError
  not_armed no_transmitter hackrf_gain below_range above_range unhealthy : TransmitError
  in_use mapper_owned no_audio generation_failed : TransmitError

-- What the checks come to: a value to go on with, or the error that `Transmit` returns.
pub data Checked {ℓ} (Value : Type ℓ) : Type ℓ where
  rejected : TransmitError → Checked Value
  accepted : Value → Checked Value

infixl 5 ◌>>=◌ ◌>>◌
abbrev pub ◌>>=◌ {ℓ κ} :
    {Value : Type ℓ} {Next : Type κ} → Checked Value → (Value → Checked Next) → Checked Next
check >>= next = elim check [ rejected why ↦ rejected why | accepted value ↦ next value ]

abbrev pub ◌>>◌ {ℓ} : {Next : Type ℓ} → Checked (Unit {0}) → Checked Next → Checked Next
check >> next = check >>= λ _. next

-- `if test { return ..., errors.New(...) }`
abbrev pub refuse : Bool → TransmitError → Checked (Unit {0})
refuse true e = rejected e
refuse false e = accepted tt

unfoldable pub normalize_mode : Text → Text
unfolding to_lower trim_space codes_eq
normalize_mode mode =
    let lowered = map to_lower (trim_space mode) in
    if codes_eq lowered (codes "fm") then codes "nfm" else lowered

abbrev pub known_mode : Text → Bool
known_mode mode =
    codes_eq mode (codes "am") || codes_eq mode (codes "nfm") || codes_eq mode (codes "wfm")

-- isFinitePositive, and the range from 1 MHz to 6 GHz.
unfoldable pub bad_frequency_value : Float → Bool
bad_frequency_value (finite hz) =
    not (ltb_ℤ (pos 0) hz) || ltb_ℤ hz (pos 1000000) || ltb_ℤ (pos 6000000000) hz
bad_frequency_value _ = true

abbrev pub is_no_number : Float → Bool
is_no_number (finite x) = false
is_no_number _ = true

-- A duration that is not positive becomes 5 seconds.
unfoldable pub default_duration : Float → Float
default_duration (finite periods) =
    if ltb_ℤ (pos 0) periods then finite periods else finite (pos 10000000)
default_duration x = x

-- Over 60 seconds.
unfoldable pub over_limit : Float → Bool
over_limit (finite periods) = ltb_ℤ (pos 120000000) periods
over_limit _ = false

unfoldable pub check_fields : TransmitRequest → Checked TransmitRequest
check_fields given = do
  let request : TransmitRequest = record given { mode = normalize_mode given.mode }
  refuse (not (known_mode request.mode)) bad_mode
  refuse (bad_frequency_value request.frequency) bad_frequency
  refuse (is_no_number request.duration) bad_duration
  let timed : TransmitRequest = record request { duration = default_duration request.duration }
  refuse (over_limit timed.duration) too_long
  refuse (ltb_ℤ timed.tx_gain_db (pos 0) || ltb_ℤ (pos 89) timed.tx_gain_db) bad_gain
  refuse (not timed.dry_run && not timed.armed) not_armed
  accepted timed

-- The zero `SDRDevice`, where no device has the ID.
abbrev pub no_device : Device
no_device = record {
  device_id = [];
  kind = "";
  connected = false;
  available = false;
  transmit_channels = 0;
  frequency_minimum = 0;
  frequency_maximum = 0;
  has_warning = false;
  serial = none;
  driver = [];
  device_arguments = [];
}

unfoldable pub find_device : Text → List Device → Device
find_device id [] = no_device
find_device id (device ∷ devices) =
    if codes_eq device.device_id id then device else find_device id devices

abbrev pub plans_device : Text → Option Text → Bool
plans_device id none = false
plans_device id (some d) = codes_eq d id

unfoldable pub plan_uses : Text → List PlanItem → Bool
plan_uses id [] = false
plan_uses id (item ∷ items) =
    (plans_device id item.plan_device && item.is_assigned) || plan_uses id items

-- `r.running && r.profileUsesDeviceLocked(device.ID)`
unfoldable pub is_busy : Runtime → Text → Bool
is_busy runtime id = runtime.is_running && (runtime.has_active && plan_uses id runtime.plan)

unfoldable pub mapper_owns : Text → List Text → Bool
mapper_owns id [] = false
mapper_owns id (device ∷ devices) = codes_eq device id || mapper_owns id devices

unfoldable pub is_hackrf : String → Bool
is_hackrf kind = equal_fold kind "HackRF"

unfoldable pub transmit_capable : Device → Bool
transmit_capable device =
    is_hackrf device.kind || (equal_fold device.kind "PlutoSDR" && ltb 0 device.transmit_channels)

abbrev pub under : Float → ℕ → Bool
under (finite hz) limit = ltb_ℤ hz (pos limit)
under _ limit = false

abbrev pub over : Float → ℕ → Bool
over (finite hz) limit = ltb_ℤ (pos limit) hz
over _ limit = false

abbrev pub has_no_id : Device → Bool
has_no_id device = codes_eq device.device_id []

-- Whether the device is missing, not at hand or unable to transmit.
unfoldable pub is_unfit : Device → Bool
is_unfit device =
    has_no_id device
    || (not device.connected || (not device.available || not (transmit_capable device)))

unfoldable pub check_device : Runtime → TransmitRequest → Device → Checked (Unit {0})
check_device runtime request device = do
  refuse (not request.dry_run && is_unfit device) no_transmitter
  refuse (is_hackrf device.kind && ltb_ℤ (pos 47) request.tx_gain_db) hackrf_gain
  refuse (ltb 0 device.frequency_minimum && under request.frequency device.frequency_minimum)
      below_range
  refuse (ltb 0 device.frequency_maximum && over request.frequency device.frequency_maximum)
      above_range
  refuse (device.has_warning && not request.dry_run) unhealthy
  refuse (is_busy runtime device.device_id) in_use
  refuse (mapper_owns device.device_id runtime.mapper_devices && not request.dry_run) mapper_owned
  refuse (not request.has_audio && not request.has_fixture) no_audio

-- The request as it is normalised, and the device that it names.
pub record Cleared : Type 0 where
  pub request : TransmitRequest
  pub device : Device

unfoldable pub clear_request : Runtime → TransmitRequest → Checked Cleared
clear_request runtime given = do
  checked ← check_fields given
  let chosen = find_device (trim_space checked.request_device) runtime.devices
  check_device runtime checked chosen
  accepted (record { request = checked; device = chosen })
