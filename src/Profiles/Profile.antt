-- ===== src/Profiles/Profile.antt =====
-- server/internal/app/models.go, lines 80-128 and 165-190, and store.go, lines 201-268: a scan profile
-- and `validateProfile`. Frequencies are in thousandths of a Hz, and degrees and miles in millionths:
-- the code only compares them. A slice that may be nil is an option.
use gp_sdr.Prelude.{
  ℕ, ◌+◌, Bool, true, false, not, ◌&&◌, ◌||◌, ◌==◌, Option, none, some, List, [], ◌∷◌, map, ltb,
  if◌then◌else◌, length,
}
use gp_sdr.Prelude.Int.{ℤ, pos, negsuc, ltb_ℤ, eqb_ℤ}
use gp_sdr.Prelude.Text.{Text, codes, codes_eq, to_lower, trim_space}

pub record ScanRange : Type 0 where
  pub range_id : Text
  pub range_name : Text
  pub start : ℤ
  pub end : ℤ
  pub step : ℤ
  pub dwell : ℤ
  pub range_enabled : Bool

pub record ChannelDefinition : Type 0 where
  pub channel_id : Text
  pub frequency : ℤ
  pub bandwidth : ℤ
  pub channel_enabled : Bool

pub record DeviceAssignment : Type 0 where
  pub assignment_id : Text
  pub assigned : Option Text
  pub role : Text

pub record P25System : Type 0 where
  pub system_name : Text
  pub control_channels : List ℤ
  pub talkgroups : List ℤ

pub record ReferenceArea : Type 0 where
  pub provider : Text
  pub latitude : ℤ
  pub longitude : ℤ
  pub radius : ℤ

-- The summary and the settings but the P25 rate are one field, which nothing here reads.
pub record ScanProfile : Type 0 where
  pub schema_version : ℤ
  pub id : Text
  pub name : Text
  pub reference_area : Option ReferenceArea
  pub ranges : Option (List ScanRange)
  pub channels : Option (List ChannelDefinition)
  pub assignments : Option (List DeviceAssignment)
  pub systems : Option (List P25System)
  pub p25_rate : ℤ
  pub settings : Text
  pub built_in : Bool

pub data ProfileError : Type 0 where
  bad_id bad_version bad_name too_many bad_rate bad_area bad_range bad_channel : ProfileError
  bad_system too_many_talkgroups bad_talkgroup duplicate_talkgroup bad_control : ProfileError

-- The elements of a slice.
abbrev pub items {ℓ} : {A : Type ℓ} → Option (List A) → List A
items none = []
items (some xs) = xs

-- The bytes of a text in UTF-8.
unfoldable pub byte_length : Text → ℕ
byte_length [] = 0
byte_length (c ∷ s) =
    (if ltb c 128 then 1 else if ltb c 2048 then 2 else if ltb c 65536 then 3 else 4)
    + byte_length s

-- strings.ContainsAny(id, "/\\\x00")
unfoldable pub has_path_char : Text → Bool
has_path_char [] = false
has_path_char (c ∷ s) = (c == 47) || (c == 92) || (c == 0) || has_path_char s

-- An absolute path starts with a slash, so it has a character that is refused.
unfoldable pub is_bad_id : Text → Bool
is_bad_id id =
    codes_eq id []
    || codes_eq id (codes ".")
    || codes_eq id (codes "..")
    || ltb 200 (byte_length id)
    || has_path_char id

abbrev pub max_name : ℕ
max_name = 160

unfoldable pub is_sample_rate : ℤ → Bool
is_sample_rate (negsuc n) = false
is_sample_rate (pos rate) =
    (rate == 1024000)
    || (rate == 1200000)
    || (rate == 1440000)
    || (rate == 1600000)
    || (rate == 1800000)
    || (rate == 1920000)
    || (rate == 2048000)
    || (rate == 2304000)
    || (rate == 2400000)
    || (rate == 2560000)
    || (rate == 2880000)
    || (rate == 5000000)
    || (rate == 8000000)
    || (rate == 10000000)
    || (rate == 20000000)

abbrev pub is_bad_area : Option ReferenceArea → Bool
is_bad_area none = false
is_bad_area (some area) =
    not (codes_eq (map to_lower (trim_space area.provider)) (codes "radioreference"))
    || ltb_ℤ area.latitude (negsuc 89999999)
    || ltb_ℤ (pos 90000000) area.latitude
    || ltb_ℤ area.longitude (negsuc 179999999)
    || ltb_ℤ (pos 180000000) area.longitude
    || ltb_ℤ area.radius (pos 1000000)
    || ltb_ℤ (pos 100000000) area.radius

unfoldable pub any_bad_range : List ScanRange → Bool
any_bad_range [] = false
any_bad_range (item ∷ ranges) =
    ltb_ℤ item.start (pos 0)
    || not (ltb_ℤ item.start item.end)
    || not (ltb_ℤ (pos 0) item.step)
    || ltb_ℤ item.dwell (pos 20)
    || any_bad_range ranges

unfoldable pub any_bad_channel : List ChannelDefinition → Bool
any_bad_channel [] = false
any_bad_channel (item ∷ channels) =
    not (ltb_ℤ (pos 0) item.frequency)
    || not (ltb_ℤ (pos 0) item.bandwidth)
    || any_bad_channel channels

unfoldable pub seen_before : ℤ → List ℤ → Bool
seen_before talkgroup [] = false
seen_before talkgroup (t ∷ seen) = eqb_ℤ t talkgroup || seen_before talkgroup seen

-- The loop over a system's talkgroups, with those that it has seen.
unfoldable pub check_talkgroups : List ℤ → List ℤ → Option ProfileError
check_talkgroups seen [] = none
check_talkgroups seen (t ∷ talkgroups) =
    let rest = check_talkgroups (t ∷ seen) talkgroups in
    if ltb_ℤ t (pos 1) || ltb_ℤ (pos 65535) t
    then some bad_talkgroup
    else if seen_before t seen
    then some duplicate_talkgroup
    else rest

unfoldable pub any_bad_control : List ℤ → Bool
any_bad_control [] = false
any_bad_control (f ∷ frequencies) = not (ltb_ℤ (pos 0) f) || any_bad_control frequencies

-- The first of two errors.
abbrev pub or_else : Option ProfileError → Option ProfileError → Option ProfileError
or_else none next = next
or_else (some e) next = some e

abbrev pub fail_if : Bool → ProfileError → Option ProfileError
fail_if true e = some e
fail_if false e = none

unfoldable pub check_systems : List P25System → Option ProfileError
check_systems [] = none
check_systems (system ∷ systems) =
    or_else
      (fail_if
        (codes_eq (trim_space system.system_name) []
          || (length system.control_channels == 0)
          || ltb 32 (length system.control_channels))
        bad_system)
      (or_else (fail_if (ltb 20000 (length system.talkgroups)) too_many_talkgroups) (
        or_else (check_talkgroups [] system.talkgroups) (
          or_else (fail_if (any_bad_control system.control_channels) bad_control)
            (check_systems systems))))

-- The checks of what a profile holds, beside its ID, version and name.
unfoldable pub check_content : ScanProfile → Option ProfileError
check_content p =
    or_else
      (fail_if
        (ltb 100 (length (items p.ranges))
          || ltb 5000 (length (items p.channels))
          || ltb 20 (length (items p.systems)))
        too_many)
      (or_else
        (fail_if (not (eqb_ℤ p.p25_rate (pos 0)) && not (is_sample_rate p.p25_rate)) bad_rate)
        (or_else (fail_if (is_bad_area p.reference_area) bad_area) (
          or_else (fail_if (any_bad_range (items p.ranges)) bad_range) (
            or_else (fail_if (any_bad_channel (items p.channels)) bad_channel)
              (check_systems (items p.systems))))))

abbrev pub is_refused_id : Text → Bool
is_refused_id id = not (codes_eq id []) && is_bad_id id

abbrev pub is_refused_name : Text → Bool
is_refused_name name = codes_eq (trim_space name) [] || ltb max_name (length name)

-- `none` is nil.
unfoldable pub validate_profile : ScanProfile → Option ProfileError
unfolding check_content
validate_profile p = or_else (fail_if (is_refused_id p.id) bad_id) (
    or_else (fail_if (not (eqb_ℤ p.schema_version (pos 1))) bad_version)
      (or_else (fail_if (is_refused_name p.name) bad_name) (check_content p)))

-- A nil slice becomes an empty one.
abbrev pub not_nil {ℓ} : {A : Type ℓ} → Option (List A) → Option (List A)
not_nil xs = some (items xs)

unfoldable pub normalize_profile : ScanProfile → ScanProfile
normalize_profile p = record p {
  ranges = not_nil p.ranges;
  channels = not_nil p.channels;
  assignments = not_nil p.assignments;
  systems = not_nil p.systems;
}
