-- ===== src/Mapper/Job.antt =====
-- server/internal/app/mapper.go, lines 114-123 and 137-160: a Mapper job and its progress. A time is in
-- nanoseconds. Left out is what `ObserveJob` counts.
use gp_sdr.Prelude.{ℕ, Bool, false, Option, none, List, []}
use gp_sdr.Prelude.Int.{ℤ, pos}
use gp_sdr.Prelude.Text.{Text}
use gp_sdr.Tuning.Job.{TuningStatus}
use gp_sdr.Mapper.Config.{MapperConfig}

pub data JobState : Type 0 where
  no_state idle running stopping in_error : JobState

-- The tuning is `none` where Go has the zero value.
pub record Progress : Type 0 where
  pub is_running : Bool
  pub phase_mode : Text
  pub frequency : ℤ
  pub frequencies : List ℤ
  pub label : Text
  pub index : ℤ
  pub targets : ℕ
  pub batch : ℤ
  pub batches : ℕ
  pub monitored : ℕ
  pub passes : ℕ
  pub pass_started : Option ℕ
  pub pass_end : Option ℕ
  pub started : Option ℕ
  pub stopped : Option ℕ
  pub target_started : Option ℕ
  pub target_ends : Option ℕ
  pub phase_ends : Option ℕ
  pub tuning : Option TuningStatus

pub record MapperJob : Type 0 where
  pub job_id : Text
  pub job_name : Text
  pub config : MapperConfig
  pub state : JobState
  pub last_error : Text
  pub progress : Progress
  pub created : ℕ
  pub updated : ℕ

abbrev pub zero_progress : Progress
zero_progress = record {
  is_running = false;
  phase_mode = [];
  frequency = pos 0;
  frequencies = [];
  label = [];
  index = pos 0;
  targets = 0;
  batch = pos 0;
  batches = 0;
  monitored = 0;
  passes = 0;
  pass_started = none;
  pass_end = none;
  started = none;
  stopped = none;
  target_started = none;
  target_ends = none;
  phase_ends = none;
  tuning = none;
}

abbrev pub zero_config : MapperConfig
zero_config = record {
  secret = [];
  mode = [];
  preferred_mode = [];
  preferred_decoder = [];
  device = [];
  start = pos 0;
  end = pos 0;
  step = pos 0;
  detection_bandwidth = pos 0;
  dwell = pos 0;
  sample_rate = pos 0;
  concurrent_channels = pos 0;
  gain_mode = [];
  gain = pos 0;
  lna_gain = pos 0;
  vga_gain = pos 0;
  amp_mode = [];
  sensitivity = [];
  noise_margin = pos 0;
  listen_seconds = pos 0;
  minimum_hits = pos 0;
  hit_source = [];
  minimum_occupancy = pos 0;
  seen_within = pos 0;
  maximum_channels = pos 0;
  order = [];
  include_location = false;
  location_precision = [];
  latitude = none;
  longitude = none;
  capture_policy = [];
  analysis_policy = [];
  rejected_policy = [];
  schedule_enabled = false;
  discovery_seconds = pos 0;
  identify_seconds = pos 0;
}

-- The value of a job that is not in the map.
abbrev pub zero_job : MapperJob
zero_job = record {
  job_id = [];
  job_name = [];
  config = zero_config;
  state = no_state;
  last_error = [];
  progress = zero_progress;
  created = 0;
  updated = 0;
}
