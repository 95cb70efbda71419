-- ===== src/Mapper/Batches.antt =====
-- server/internal/app/live_survey.go, lines 16-28, 85-99, 133-156 and 180-229, and decoder_targets.go,
-- lines 146-171: the targets of a Mapper job, in batches that one capture holds. Frequencies and widths
-- are in thousandths of a Hz and rates in Hz; the products are exact where Go rounds floats.
pub mod Sorted
pub mod Window
pub mod Laws
mod Tests
use gp_sdr.Prelude.{
  ℕ, zero, suc, ◌+◌, ◌*◌, Bool, true, false, not, ◌&&◌, ◌||◌, ◌==◌, Option, none, some, List, [],
  ◌∷◌, ◌++◌, ltb, leb, if◌then◌else◌, length,
}
use gp_sdr.Prelude.Int.{ℤ, pos, negsuc, pos_part, neg_part, ◌+ℤ◌, ◌-ℤ◌, ltb_ℤ, eqb_ℤ}
use gp_sdr.Prelude.Text.{Text, codes, codes_eq, has_prefix}
use gp_sdr.Mapper.Config.{MapperConfig, cleaned, is_one_of, default_mapper_concurrent_channels}

pub record SurveyTarget : Type 0 where
  pub target_frequency : ℤ
  pub target_width : ℤ
  pub target_mode : Text
  pub target_label : Text
  pub dwell_time : ℕ
  pub decoder : Option Text

pub record SurveyTargetBatch : Type 0 where
  pub batch_targets : List SurveyTarget
  pub batch_rate : ℤ

-- The fields of `SDRDevice` that the rates depend on. A limit is in Hz.
pub record Receiver : Type 0 where
  pub receiver_kind : Text
  pub driver : Text
  pub rate_limit : Option ℤ

unfoldable pub canonical_decoder_id : Text → Text
canonical_decoder_id value =
    let id = cleaned value in
    if is_one_of (codes "rtl_433" ∷ codes "rtl433" ∷ []) id
    then codes "rtl-433"
    else if is_one_of (codes "ads-b" ∷ codes "adsb" ∷ codes "mode s" ∷ codes "ads-b / mode s" ∷ [])
        id
    then codes "dump1090"
    else if is_one_of (codes "ais-catcher" ∷ []) id
    then codes "ais"
    else if is_one_of (codes "dump978-fa" ∷ codes "uat" ∷ []) id
    then codes "dump978"
    else if is_one_of (codes "aprs" ∷ codes "ax.25" ∷ codes "packet" ∷ codes "packet-radio" ∷ []) id
    then codes "direwolf"
    else if is_one_of (codes "weather" ∷ codes "noaa" ∷ codes "apt" ∷ codes "noaa apt" ∷ []) id
    then codes "noaa-apt"
    else if is_one_of
        (codes "slow-scan"
          ∷ codes "slow scan"
          ∷ codes "sstv"
          ∷ codes "robot36"
          ∷ codes "pd120"
          ∷ codes "pd180"
          ∷ [])
        id
    then codes "sstv"
    else if is_one_of (codes "acars" ∷ []) id
    then codes "acarsdec"
    else if is_one_of (codes "pocsag" ∷ codes "flex" ∷ codes "mdc1200" ∷ codes "dtmf" ∷ []) id
    then codes "multimon-ng"
    else if is_one_of (codes "dmr" ∷ codes "nxdn" ∷ codes "d-star" ∷ codes "ysf" ∷ codes "m17" ∷ [])
        id
    then codes "dsd-fme"
    else id

abbrev pub decoder_text : Option Text → Text
decoder_text none = []
decoder_text (some decoder) = decoder

abbrev pub is_native : Text → Receiver → Bool
is_native kind device =
    codes_eq device.receiver_kind kind && not (has_prefix device.driver (codes "SoapySDR:"))

-- The branch for wide FM has the rate of the others.
unfoldable pub live_sample_rate : Receiver → SurveyTarget → ℤ
live_sample_rate device target =
    if is_native (codes "HackRF") device
    then pos 10000000
    else if codes_eq (canonical_decoder_id (decoder_text target.decoder)) (codes "dump1090")
    then pos 2400000
    else pos 1000000

abbrev pub minimum_ℤ : ℤ → ℤ → ℤ
minimum_ℤ a b = if ltb_ℤ b a then b else a

abbrev pub maximum_ℤ : ℤ → ℤ → ℤ
maximum_ℤ a b = if ltb_ℤ a b then b else a

abbrev pub limited : ℤ → Option ℤ → ℤ
limited rate none = rate
limited rate (some limit) = minimum_ℤ rate limit

abbrev pub maximum_capture_rate : Receiver → ℤ
maximum_capture_rate device = elim device.rate_limit [
  | none ↦ pos 20000000
  | some limit ↦ if ltb_ℤ (pos 0) limit then limit else pos 20000000
]

unfoldable pub compatible_user_sample_rate : Receiver → ℤ → ℤ → ℤ
compatible_user_sample_rate device requested automatic =
    let most =
      limited
        (if is_native (codes "RTL-SDR") device then pos 3200000 else maximum_capture_rate device)
        device.rate_limit in
    if eqb_ℤ requested (pos 0)
    then automatic
    else if ltb_ℤ most requested
        || (is_native (codes "HackRF") device && ltb_ℤ requested (pos 2000000))
    then automatic
    else requested

unfoldable pub automatic_rate : Receiver → ℤ → List SurveyTarget → ℤ
automatic_rate device rate [] = rate
automatic_rate device rate (target ∷ targets) =
    automatic_rate device (maximum_ℤ rate (live_sample_rate device target)) targets

unfoldable pub mapper_batch_sample_rate : Receiver → MapperConfig → List SurveyTarget → ℤ
unfolding automatic_rate
mapper_batch_sample_rate device config targets =
    compatible_user_sample_rate device config.sample_rate
      (automatic_rate device (pos 1000000) targets)

-- Twice the width, which is at least 12.5 kHz.
abbrev pub margin_of : SurveyTarget → ℤ
margin_of target = let width = maximum_ℤ target.target_width (pos 12500000) in width +ℤ width

unfoldable pub lowest : ℤ → List SurveyTarget → ℤ
lowest low [] = low
lowest low (t ∷ targets) = lowest (minimum_ℤ low (t.target_frequency -ℤ margin_of t)) targets

unfoldable pub highest : ℤ → List SurveyTarget → ℤ
highest high [] = high
highest high (t ∷ targets) = highest (maximum_ℤ high (t.target_frequency +ℤ margin_of t)) targets

-- high - low <= rate * 0.84
abbrev pub is_within : ℤ → ℤ → ℕ → Bool
is_within low high rate =
    leb (100 * (pos_part high + neg_part low)) (84000 * rate + 100 * (pos_part low + neg_part high))

unfoldable pub mapper_targets_fit_sample_window : List SurveyTarget → ℤ → Bool
unfolding lowest highest
mapper_targets_fit_sample_window [] rate = false
mapper_targets_fit_sample_window (t ∷ targets) (negsuc n) = false
mapper_targets_fit_sample_window (t ∷ targets) (pos rate) =
    ltb 0 rate
    && is_within (lowest (t.target_frequency -ℤ margin_of t) targets)
        (highest (t.target_frequency +ℤ margin_of t) targets) rate

unfoldable pub insert_target : SurveyTarget → List SurveyTarget → List SurveyTarget
insert_target t [] = t ∷ []
insert_target t (u ∷ targets) =
    let rest = insert_target t targets in
    if ltb_ℤ u.target_frequency t.target_frequency then u ∷ rest else t ∷ u ∷ targets

-- sort.SliceStable by frequency.
unfoldable pub sort_targets : List SurveyTarget → List SurveyTarget
unfolding insert_target
sort_targets [] = []
sort_targets (t ∷ targets) = insert_target t (sort_targets targets)

-- The limit of a job, within 1 and 1,024.
abbrev pub clamp_channels : ℤ → ℕ
clamp_channels (negsuc n) = 1
clamp_channels (pos n) = if ltb n 1 then 1 else if ltb 1024 n then 1024 else n

unfoldable pub channel_limit : MapperConfig → ℕ
channel_limit config = clamp_channels (
    if eqb_ℤ config.concurrent_channels (pos 0)
    then default_mapper_concurrent_channels config.mode
    else config.concurrent_channels)

module _ (device : Receiver) (config : MapperConfig) where
  abbrev pub fits : List SurveyTarget → Bool
  fits targets =
      mapper_targets_fit_sample_window targets (mapper_batch_sample_rate device config targets)

  -- The group that starts with `group`, and the targets behind it.
  unfoldable pub grow_group :
      List SurveyTarget → List SurveyTarget → List SurveyTarget × List SurveyTarget
  grow_group group [] = (group, [])
  grow_group group (t ∷ targets) =
      let more = grow_group (group ++ t ∷ []) targets in
      if ltb (length group) (channel_limit config) && fits (group ++ t ∷ [])
      then more
      else (group, t ∷ targets)

  abbrev pub batch_of : List SurveyTarget → SurveyTargetBatch
  batch_of group = record {
    batch_targets = group;
    batch_rate = mapper_batch_sample_rate device config group;
  }

  -- The outer loop, on fuel: each batch takes a target, so that as many as there are targets do.
  unfoldable pub make_batches : ℕ → List SurveyTarget → List SurveyTargetBatch
  unfolding grow_group
  make_batches zero targets = []
  make_batches (suc fuel) [] = []
  make_batches (suc fuel) (t ∷ targets) =
      let (group, rest) = grow_group (t ∷ []) targets in batch_of group ∷ make_batches fuel rest

  unfoldable pub mapper_job_target_batches : List SurveyTarget → List SurveyTargetBatch
  unfolding make_batches sort_targets
  mapper_job_target_batches targets =
      let ordered = sort_targets targets in make_batches (length ordered) ordered
