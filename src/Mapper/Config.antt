-- ===== src/Mapper/Config.antt =====
-- server/internal/app/mapper.go, lines 22-70, 409-575 and 587-595, and live_survey.go, lines 124-131
-- and 158-160: the configuration of a Mapper job, and `validateMapperScanConfig`. Frequencies are in
-- thousandths of a Hz, gains and margins in hundredths of a dB, and degrees and occupancy in
-- millionths: the code only compares them.
pub mod Words
pub mod Laws
pub mod Gains
pub mod Tests
use gp_sdr.Prelude.{
  ℕ, suc, ◌%◌, Bool, true, false, not, ◌&&◌, ◌||◌, ◌==◌, Option, none, some, List, [], ◌∷◌, map,
  if◌then◌else◌,
}
use gp_sdr.Prelude.Int.{ℤ, pos, negsuc, ltb_ℤ, eqb_ℤ}
use gp_sdr.Prelude.Text.{Text, codes, codes_eq, to_lower, trim_space}

-- The fields that the validation and the jobs read.
pub record MapperConfig : Type 0 where
  pub secret : Text
  pub mode : Text
  pub preferred_mode : Text
  pub preferred_decoder : Text
  pub device : Text
  pub start : ℤ
  pub end : ℤ
  pub step : ℤ
  pub detection_bandwidth : ℤ
  pub dwell : ℤ
  pub sample_rate : ℤ
  pub concurrent_channels : ℤ
  pub gain_mode : Text
  pub gain : ℤ
  pub lna_gain : ℤ
  pub vga_gain : ℤ
  pub amp_mode : Text
  pub sensitivity : Text
  pub noise_margin : ℤ
  pub listen_seconds : ℤ
  pub minimum_hits : ℤ
  pub hit_source : Text
  pub minimum_occupancy : ℤ
  pub seen_within : ℤ
  pub maximum_channels : ℤ
  pub order : Text
  pub include_location : Bool
  pub location_precision : Text
  pub latitude : Option ℤ
  pub longitude : Option ℤ
  pub capture_policy : Text
  pub analysis_policy : Text
  pub rejected_policy : Text
  pub schedule_enabled : Bool
  pub discovery_seconds : ℤ
  pub identify_seconds : ℤ

pub data ConfigError : Type 0 where
  bad_workflow bad_analysis bad_capture bad_rejected bad_discovery bad_identify : ConfigError
  bad_modulation bad_decoder no_receiver bad_span bad_step bad_dwell bad_listen : ConfigError
  bad_hits bad_source bad_occupancy bad_recent bad_limit bad_order bad_sample_rate : ConfigError
  bad_channels bad_width bad_tuning bad_gain bad_lna bad_vga bad_amp bad_sensitivity : ConfigError
  bad_margin bad_location : ConfigError

-- strings.ToLower(strings.TrimSpace(s))
abbrev pub cleaned : Text → Text
cleaned s = map to_lower (trim_space s)

abbrev pub or_text : Text → Text → Text
or_text default s = if codes_eq s [] then default else s

abbrev pub or_number : ℤ → ℤ → ℤ
or_number default n = if eqb_ℤ n (pos 0) then default else n

unfoldable pub is_one_of : List Text → Text → Bool
is_one_of [] s = false
is_one_of (word ∷ words) s = codes_eq s word || is_one_of words s

-- The words that `digitalVoiceProtocol` knows; it cleans a word that is clean already.
abbrev pub voice_words : List Text
voice_words =
    codes "dmr"
    ∷ codes "p25"
    ∷ codes "p25 phase 1"
    ∷ codes "p25 phase 2"
    ∷ codes "nxdn"
    ∷ codes "nxdn48"
    ∷ codes "nxdn96"
    ∷ codes "d-star"
    ∷ codes "dstar"
    ∷ codes "ysf"
    ∷ codes "m17"
    ∷ codes "digital"
    ∷ codes "dsd-fme"
    ∷ codes "auto-digital"
    ∷ []

abbrev pub decoder_words : List Text
decoder_words =
    codes ""
    ∷ codes "dsd-fme"
    ∷ codes "dmr"
    ∷ codes "nxdn"
    ∷ codes "d-star"
    ∷ codes "ysf"
    ∷ codes "m17"
    ∷ codes "rtl-433"
    ∷ codes "dump1090"
    ∷ codes "multimon-ng"
    ∷ codes "acarsdec"
    ∷ codes "ais"
    ∷ []

abbrev pub mode_words : List Text
mode_words = codes "adaptive" ∷ codes "discovery" ∷ codes "decipher" ∷ []

abbrev pub analysis_words : List Text
analysis_words = codes "live" ∷ codes "after-job" ∷ codes "manual" ∷ []

abbrev pub capture_words : List Text
capture_words = codes "channel" ∷ codes "archive" ∷ []

abbrev pub rejected_words : List Text
rejected_words = codes "delete" ∷ codes "quarantine" ∷ []

abbrev pub modulation_words : List Text
modulation_words = codes "auto" ∷ codes "am" ∷ codes "nfm" ∷ codes "wfm" ∷ voice_words

abbrev pub source_words : List Text
source_words = codes "discovery" ∷ codes "combined" ∷ []

abbrev pub order_words : List Text
order_words =
    codes "hits" ∷ codes "recent" ∷ codes "occupancy" ∷ codes "frequency" ∷ codes "oldest" ∷ []

abbrev pub gain_words : List Text
gain_words = codes "auto" ∷ codes "saved" ∷ codes "manual" ∷ []

abbrev pub amp_words : List Text
amp_words = codes "auto" ∷ codes "off" ∷ codes "on" ∷ []

abbrev pub sensitivity_words : List Text
sensitivity_words =
    codes "auto" ∷ codes "weak" ∷ codes "balanced" ∷ codes "conservative" ∷ codes "manual" ∷ []

abbrev pub default_mapper_concurrent_channels : Text → ℤ
default_mapper_concurrent_channels mode =
    if codes_eq (map to_lower mode) (codes "decipher")
    then pos 1
    else if codes_eq (map to_lower mode) (codes "discovery")
    then pos 512
    else pos 64

abbrev pub normal_mode : Text → Text
normal_mode mode = or_text (codes "discovery") (cleaned mode)

abbrev pub normal_analysis : Text → Text → Text
normal_analysis mode policy =
    or_text (if codes_eq mode (codes "discovery") then codes "manual" else codes "live")
      (cleaned policy)

abbrev pub normal_decoder : Text → Text
normal_decoder decoder = if codes_eq (cleaned decoder) (codes "auto") then [] else cleaned decoder

abbrev pub normal_hits : Text → ℤ → ℤ
normal_hits mode hits = if codes_eq mode (codes "decipher") then or_number (pos 2) hits else hits

-- The defaults, and the words in small letters. No field but the mode has a part in another's.
unfoldable pub normalize_config : MapperConfig → MapperConfig
normalize_config c =
    let mode = normal_mode c.mode in
    record c {
      mode = mode;
      analysis_policy = normal_analysis mode c.analysis_policy;
      capture_policy = or_text (codes "channel") c.capture_policy;
      rejected_policy = or_text (codes "delete") (cleaned c.rejected_policy);
      preferred_mode = or_text (codes "auto") (cleaned c.preferred_mode);
      preferred_decoder = normal_decoder c.preferred_decoder;
      listen_seconds = or_number (pos 60) c.listen_seconds;
      minimum_hits = normal_hits mode c.minimum_hits;
      hit_source = or_text (codes "discovery") (cleaned c.hit_source);
      order = or_text (codes "hits") (cleaned c.order);
      concurrent_channels =
          or_number (default_mapper_concurrent_channels mode) c.concurrent_channels;
      gain_mode = or_text (codes "auto") (cleaned c.gain_mode);
      amp_mode = or_text (codes "auto") (cleaned c.amp_mode);
      sensitivity = or_text (codes "auto") (cleaned c.sensitivity);
      noise_margin = or_number (pos 600) c.noise_margin;
      location_precision =
          if c.include_location
          then or_text (codes "approximate") c.location_precision
          else c.location_precision;
    }

abbrev pub is_outside : ℤ → ℤ → ℤ → Bool
is_outside low high n = ltb_ℤ n low || ltb_ℤ high n

abbrev pub not_multiple : ℕ → ℤ → Bool
not_multiple k (pos n) = not (n % k == 0)
not_multiple k (negsuc n) = not (suc n % k == 0)

abbrev pub is_bad_degree : ℤ → ℤ → Option ℤ → Bool
is_bad_degree low high none = true
is_bad_degree low high (some degrees) = is_outside low high degrees

abbrev pub selectable_capture_rates : List ℕ
selectable_capture_rates =
    1000000 ∷ 2000000 ∷ 2400000 ∷ 3200000 ∷ 4000000 ∷ 5000000 ∷ 8000000 ∷ 10000000 ∷ 12000000
    ∷ 16000000 ∷ 20000000 ∷ 24000000 ∷ 30720000 ∷ 40000000 ∷ 50000000 ∷ 61440000 ∷ []

unfoldable pub is_rate_of : List ℕ → ℤ → Bool
is_rate_of [] rate = false
is_rate_of (r ∷ rates) rate = eqb_ℤ rate (pos r) || is_rate_of rates rate

unfoldable pub supported_user_sample_rate : ℤ → Bool
unfolding is_rate_of
supported_user_sample_rate rate = is_rate_of (0 ∷ selectable_capture_rates) rate

-- Seven days, in seconds.
abbrev pub week : ℤ
week = pos 604800

abbrev pub scans : MapperConfig → Bool
scans c = not (codes_eq c.mode (codes "decipher")) || c.schedule_enabled

-- The checks in their order, each with its error.
abbrev pub checks : MapperConfig → List (Bool × ConfigError)
checks c =
    (not (is_one_of mode_words c.mode), bad_workflow)
    ∷ (not (is_one_of analysis_words c.analysis_policy), bad_analysis)
    ∷ (not (is_one_of capture_words c.capture_policy), bad_capture)
    ∷ (not (is_one_of rejected_words c.rejected_policy), bad_rejected)
    ∷ (c.schedule_enabled && is_outside (pos 5) week c.discovery_seconds, bad_discovery)
    ∷ (c.schedule_enabled && is_outside (pos 5) week c.identify_seconds, bad_identify)
    ∷ (not (is_one_of modulation_words c.preferred_mode), bad_modulation)
    ∷ (not (is_one_of decoder_words c.preferred_decoder), bad_decoder)
    ∷ (codes_eq (trim_space c.device) [], no_receiver)
    ∷ (
      scans c && (not (ltb_ℤ (pos 0) c.start) || not (ltb_ℤ (pos 0) c.end) || ltb_ℤ c.end c.start),
      bad_span,
    )
    ∷ (scans c && not (ltb_ℤ (pos 0) c.step), bad_step)
    ∷ (scans c && is_outside (pos 100) (pos 604800000) c.dwell, bad_dwell)
    ∷ (is_outside (pos 5) week c.listen_seconds, bad_listen)
    ∷ (is_outside (pos 0) (pos 10000) c.minimum_hits, bad_hits)
    ∷ (not (is_one_of source_words c.hit_source), bad_source)
    ∷ (is_outside (pos 0) (pos 1000000) c.minimum_occupancy, bad_occupancy)
    ∷ (is_outside (pos 0) (pos 8760) c.seen_within, bad_recent)
    ∷ (is_outside (pos 0) (pos 10000) c.maximum_channels, bad_limit)
    ∷ (not (is_one_of order_words c.order), bad_order)
    ∷ (not (supported_user_sample_rate c.sample_rate), bad_sample_rate)
    ∷ (is_outside (pos 1) (pos 1024) c.concurrent_channels, bad_channels)
    ∷ (
      not (eqb_ℤ c.detection_bandwidth (pos 0))
          && is_outside (pos 5000000) (pos 5000000000) c.detection_bandwidth,
      bad_width,
    )
    ∷ (not (is_one_of gain_words c.gain_mode), bad_tuning)
    ∷ (is_outside (pos 0) (pos 6200) c.gain, bad_gain)
    ∷ (is_outside (pos 0) (pos 40) c.lna_gain || not_multiple 8 c.lna_gain, bad_lna)
    ∷ (is_outside (pos 0) (pos 62) c.vga_gain || not_multiple 2 c.vga_gain, bad_vga)
    ∷ (not (is_one_of amp_words c.amp_mode), bad_amp)
    ∷ (not (is_one_of sensitivity_words c.sensitivity), bad_sensitivity)
    ∷ (is_outside (pos 300) (pos 3000) c.noise_margin, bad_margin)
    ∷ (
      c.include_location
          && (is_bad_degree (negsuc 89999999) (pos 90000000) c.latitude
              || is_bad_degree (negsuc 179999999) (pos 180000000) c.longitude),
      bad_location,
    )
    ∷ []

unfoldable pub first_error : List (Bool × ConfigError) → Option ConfigError
first_error [] = none
first_error ((failed, e) ∷ rest) = let later = first_error rest in if failed then some e else later

pub data Verdict : Type 0 where
  valid : MapperConfig → Verdict
  refused : ConfigError → Verdict

abbrev pub verdict : MapperConfig → Option ConfigError → Verdict
verdict c none = valid c
verdict c (some e) = refused e

-- The callers do not read the configuration that comes with an error.
unfoldable pub validate_mapper_scan_config : MapperConfig → Verdict
unfolding normalize_config first_error
validate_mapper_scan_config c =
    let normal = normalize_config c in verdict normal (first_error (checks normal))
