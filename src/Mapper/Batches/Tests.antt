-- ===== src/Mapper/Batches/Tests.antt =====
-- Three targets of a HackRF (server/internal/app/live_survey.go), and the theorems at them.
use mathlib.Core.List.{Perm}
use gp_sdr.Prelude.{◌≡◌, refl, none, List, [], ◌∷◌, length, map}
use gp_sdr.Prelude.Int.{ℤ, pos, ◌+ℤ◌, ◌-ℤ◌}
use gp_sdr.Prelude.Text.{codes, codes_eq, has_prefix, trim_space, trim_left, is_space, to_lower}
use gp_sdr.Mapper.Config.{normalize_config, is_one_of}
use gp_sdr.Mapper.Config.Tests.{airband}
use gp_sdr.Mapper.Batches.{
  SurveyTarget, SurveyTargetBatch, Receiver, canonical_decoder_id, live_sample_rate,
  compatible_user_sample_rate, automatic_rate, mapper_batch_sample_rate, lowest, highest,
  mapper_targets_fit_sample_window, insert_target, sort_targets, channel_limit, grow_group,
  make_batches, mapper_job_target_batches,
}
use gp_sdr.Mapper.Batches.Sorted.{IsSorted}
use gp_sdr.Mapper.Batches.Laws.{
  all_targets, AreBatches, all_targets-mapper_job_target_batches,
  mapper_job_target_batches-AreBatches,
}

abbrev hackrf : Receiver
hackrf = record { receiver_kind = codes "HackRF"; driver = []; rate_limit = none }

abbrev target_at : ℤ → SurveyTarget
target_at f = record {
  target_frequency = f;
  target_width = pos 25000000;
  target_mode = codes "am";
  target_label = [];
  dwell_time = 0;
  decoder = none;
}

abbrev three : List SurveyTarget
three =
    target_at (pos 137000000000) ∷ target_at (pos 118000000000) ∷ target_at (pos 118025000000) ∷ []

-- Two of them are in one capture.
three_batches :
    map
      (λ (b : SurveyTargetBatch). length b.batch_targets)
      (mapper_job_target_batches hackrf (normalize_config airband) three)
    ≡ 2 ∷ 1 ∷ []
unfolding normalize_config codes_eq has_prefix trim_space trim_left is_space to_lower is_one_of
    canonical_decoder_id live_sample_rate compatible_user_sample_rate automatic_rate
    mapper_batch_sample_rate lowest highest mapper_targets_fit_sample_window insert_target
    sort_targets channel_limit grow_group make_batches mapper_job_target_batches ◌+ℤ◌ ◌-ℤ◌
three_batches = refl

all_targets-mapper_job_target_batches_example :
    let ts = all_targets (mapper_job_target_batches hackrf (normalize_config airband) three) in
    Perm ts three × IsSorted ts
all_targets-mapper_job_target_batches_example =
    all_targets-mapper_job_target_batches hackrf (normalize_config airband) three

mapper_job_target_batches-AreBatches_example :
    AreBatches hackrf
      (normalize_config airband)
      (mapper_job_target_batches hackrf (normalize_config airband) three)
mapper_job_target_batches-AreBatches_example =
    mapper_job_target_batches-AreBatches hackrf (normalize_config airband) three
