-- ===== src/Mapper/Jobs/Steps.antt =====
-- The calls of the manager of the Mapper's jobs (server/internal/app/mapper.go, lines 577-812) in any
-- order.
pub mod Managed
pub mod Ended
pub mod Saved
pub mod Deleted
mod Tests
use gp_sdr.Prelude.{ℕ, Bool, Option, List, [], ◌∷◌}
use gp_sdr.Prelude.Int.{ℤ}
use gp_sdr.Prelude.Text.{Text}
use gp_sdr.Tuning.Job.{TuningStatus}
use gp_sdr.Mapper.Job.{MapperJob}
use gp_sdr.Mapper.Jobs.{MapperManager, save_job, delete_job}
use gp_sdr.Mapper.Jobs.Sessions.{
  Batch, update_job_tuning, set_job_error, mark_job_stopping, begin_job_session, set_job_phase,
  begin_job_batch, complete_job_pass, end_job_session,
}

-- A call of the manager.
pub data Step : Type 0 where
  saves : (ℤ → ℤ → Text) → Bool → ℕ → Text → MapperJob → Step
  deletes : Bool → Text → Step
  tunes : Text → ℕ → TuningStatus → Step
  errs : Bool → ℕ → Text → Text → Step
  marks : Text → Step
  begins : ℕ → Text → ℕ → ℕ → Step
  phases : Text → ℕ → Text → Option ℕ → Step
  goes : ℕ → Text → ℕ → Batch → Step
  completes : Text → ℕ → Step
  ends : Bool → ℕ → Text → ℕ → Step

unfoldable pub run_step : Step → MapperManager → MapperManager
run_step (saves range_text disk now new_id job) m = (save_job range_text disk now new_id job m).1
run_step (deletes disk id) m = (delete_job disk id m).1
run_step (tunes id session status) m = update_job_tuning id session status m
run_step (errs disk now id message) m = set_job_error disk now id message m
run_step (marks id) m = mark_job_stopping id m
run_step (begins now id targets batches) m = begin_job_session now id targets batches m
run_step (phases id session mode until) m = set_job_phase id session mode until m
run_step (goes now id session b) m = begin_job_batch now id session b m
run_step (completes id session) m = complete_job_pass id session m
run_step (ends disk now id session) m = end_job_session disk now id session m

unfoldable pub run_steps : List Step → MapperManager → MapperManager
run_steps [] m = m
run_steps (step ∷ steps) m = run_steps steps (run_step step m)
