-- ===== src/Mapper/Jobs/Sessions.antt =====
-- server/internal/app/mapper.go, lines 577-585 and 686-812: what the run of a job tells the manager. Each
-- call names its session, and counts only while that session is the job's own. A batch's index is
-- below the number of batches, and the clock does not go back, so differences are numbers.
use gp_sdr.Prelude.{
  ℕ, ◌+◌, ◌-◌, ◌*◌, ◌/◌, Bool, true, false, ◌==◌, Option, none, some, List, [], ◌∷◌, ltb,
  if◌then◌else◌, length,
}
use gp_sdr.Prelude.Int.{ℤ, pos, negsuc}
use gp_sdr.Prelude.Text.{Text, trim_space}
use gp_sdr.Prelude.Maps.{lookup, remove, put}
use gp_sdr.Tuning.Job.{TuningStatus}
use gp_sdr.Mapper.Job.{
  JobState, idle, running, stopping, in_error, Progress, MapperJob, zero_progress,
}
use gp_sdr.Mapper.Jobs.{MapperManager, get_job, get_session, set_job, persist_jobs}

-- `edit` the job if the session is its own, as the calls of a run do.
abbrev pub in_session : Text → ℕ → (MapperJob → MapperJob) → MapperManager → MapperManager
in_session id session edit m =
    if get_session id m == session then set_job id (edit (get_job id m)) m else m

-- `edit` the job if there is one.
abbrev pub edit_job : Text → (MapperJob → MapperJob) → MapperManager → MapperManager
edit_job id edit m = elim (lookup id m.jobs) [ none ↦ m | some job ↦ set_job id (edit job) m ]

abbrev pub with_progress : (Progress → Progress) → MapperJob → MapperJob
with_progress edit job = record job { progress = edit job.progress }

unfoldable pub update_job_tuning : Text → ℕ → TuningStatus → MapperManager → MapperManager
update_job_tuning id session status =
    in_session id session (with_progress (λ p. record p { tuning = some status }))

abbrev pub failed_with : ℕ → Text → MapperJob → MapperJob
failed_with now message job = record job {
  state = in_error;
  last_error = trim_space message;
  progress = record job.progress { is_running = false };
  updated = now;
}

unfoldable pub set_job_error : Bool → ℕ → Text → Text → MapperManager → MapperManager
set_job_error disk now id message m = persist_jobs disk (edit_job id (failed_with now message) m)

abbrev pub stopping_state : JobState → JobState
stopping_state running = stopping
stopping_state state = state

abbrev pub stopping_job : MapperJob → MapperJob
stopping_job job = record job { state = stopping_state job.state }

unfoldable pub mark_job_stopping : Text → MapperManager → MapperManager
mark_job_stopping id = edit_job id stopping_job

abbrev pub begun : ℕ → ℕ → ℕ → MapperJob → MapperJob
begun now targets batches job = record job {
  state = running;
  last_error = [];
  progress = record zero_progress {
    is_running = true;
    phase_mode = job.config.mode;
    index = negsuc 0;
    batch = negsuc 0;
    targets = targets;
    batches = batches;
    started = some now;
    pass_started = some now;
  };
  updated = now;
}

-- The session is the manager's last one, afterwards.
unfoldable pub begin_job_session : ℕ → Text → ℕ → ℕ → MapperManager → MapperManager
begin_job_session now id targets batches m =
    let session = m.last_session + 1 in
    edit_job id (begun now targets batches)
      (record m { sessions = put id session m.sessions; last_session = session })

unfoldable pub set_job_phase : Text → ℕ → Text → Option ℕ → MapperManager → MapperManager
set_job_phase id session mode ends =
    in_session id session (with_progress (λ p. record p { phase_mode = mode; phase_ends = ends }))

-- What a batch is: its index of `batches`, the index of its first target of `targets`, its
-- frequencies and label, and how long it is listened to.
pub record Batch : Type 0 where
  pub batch_index : ℕ
  pub batch_total : ℕ
  pub target_index : ℕ
  pub target_total : ℕ
  pub batch_frequencies : List ℤ
  pub batch_label : Text
  pub listen_for : ℕ

abbrev pub first_frequency : List ℤ → ℤ → ℤ
first_frequency [] f = f
first_frequency (g ∷ fs) f = g

-- The pass starts with the first batch, or where it has no start.
abbrev pub start_pass : ℕ → Batch → Progress → Progress
start_pass now b p =
    let fresh = record p { pass_started = some now; pass_end = none } in
    if b.batch_index == 0 then fresh else elim p.pass_started [ none ↦ fresh | some t ↦ p ]

abbrev pub estimate : ℕ → Batch → Progress → Progress
estimate now b p =
    if ltb 0 b.listen_for
    then record p {
      target_ends = some (now + b.listen_for);
      pass_end = some (now + (b.batch_total - b.batch_index) * b.listen_for);
    }
    else let cleared = record p { target_ends = none } in
      elim p.pass_started [
        | none ↦ cleared
        | some t ↦
            if ltb 0 b.batch_index
            then record cleared {
              pass_end = some (now + (now - t) / b.batch_index * (b.batch_total - b.batch_index));
            }
            else cleared
      ]

abbrev pub at_batch : ℕ → Batch → Progress → Progress
at_batch now b p = estimate now b (
    start_pass now b (record p {
      is_running = true;
      index = pos b.target_index;
      targets = b.target_total;
      batch = pos b.batch_index;
      batches = b.batch_total;
      monitored = length b.batch_frequencies;
      frequencies = b.batch_frequencies;
      frequency = first_frequency b.batch_frequencies p.frequency;
      label = b.batch_label;
      target_started = some now;
    }))

unfoldable pub begin_job_batch : ℕ → Text → ℕ → Batch → MapperManager → MapperManager
begin_job_batch now id session b m =
    if get_session id m == session then edit_job id (with_progress (at_batch now b)) m else m

unfoldable pub begin_job_target :
    ℕ → Text → ℕ → ℕ → ℕ → ℤ → Text → ℕ → MapperManager → MapperManager
unfolding begin_job_batch
begin_job_target now id session i total f label listen_for =
    begin_job_batch now id session (record {
      batch_index = i;
      batch_total = total;
      target_index = i;
      target_total = total;
      batch_frequencies = f ∷ [];
      batch_label = label;
      listen_for = listen_for;
    })

unfoldable pub complete_job_pass : Text → ℕ → MapperManager → MapperManager
complete_job_pass id session =
    in_session id session (with_progress (λ p. record p { passes = p.passes + 1 }))

abbrev pub ended_job : ℕ → MapperJob → MapperJob
ended_job now job = record job {
  state = idle;
  progress = record job.progress { is_running = false; stopped = some now; target_ends = none };
  updated = now;
}

abbrev pub close_session : ℕ → Text → ℕ → MapperManager → MapperManager
close_session now id session m =
    if get_session id m == session
    then record (set_job id (ended_job now (get_job id m)) m) { sessions = remove id m.sessions }
    else m

unfoldable pub end_job_session : Bool → ℕ → Text → ℕ → MapperManager → MapperManager
end_job_session disk now id session m = persist_jobs disk (close_session now id session m)
