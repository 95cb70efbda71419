-- ===== src/Mapper/Jobs/Steps/Deleted.antt =====
-- A Mapper job that is deleted between the check and the start of its run
-- (server/internal/app/mapper.go, lines 708-812).
use gp_sdr.Prelude.{ℕ, ◌+◌, ◌==◌, ◌≡◌, refl, ap, ◌∙◌, true, Option, none, some, arith}
use gp_sdr.Prelude.Text.{Text}
use gp_sdr.Prelude.Maps.{lookup, put, lookup-put_self}
use gp_sdr.Mapper.Job.{MapperJob, zero_job, zero_progress}
use gp_sdr.Mapper.Jobs.{MapperManager, session_number, get_session, get_job, set_job, safe_job}
use gp_sdr.Mapper.Jobs.Sessions.{
  in_session, edit_job, with_progress, close_session, ended_job, begin_job_session, set_job_phase,
  end_job_session,
}
use gp_sdr.Mapper.Jobs.Steps.Saved.{saved_as, lookup-safe_jobs}

own_session :
    (id : Text) (s : ℕ) (m : MapperManager)
    → lookup id m.sessions ≡ some s
    → (get_session id m == s) ≡ true
own_session id s m h = ground (arith, ap session_number h)

in_session_own :
    (id : Text) (s : ℕ) (edit : MapperJob → MapperJob) (m : MapperManager)
    → lookup id m.sessions ≡ some s
    → in_session id s edit m ≡ set_job id (edit (get_job id m)) m
in_session_own id s edit m h = rw (own_session id s m h) refl

close_session_own :
    (now : ℕ) (id : Text) (s : ℕ) (m : MapperManager)
    → lookup id m.sessions ≡ some s
    → (close_session now id s m).jobs ≡ put id (ended_job now (get_job id m)) m.jobs
close_session_own now id s m h = rw (own_session id s m h) refl

begin_job_session_missing :
    (now : ℕ) (id : Text) (targets batches : ℕ) (m : MapperManager)
    → lookup id m.jobs ≡ none
    → begin_job_session now id targets batches m ≡ record m {
      sessions = put id (m.last_session + 1) m.sessions;
      last_session = m.last_session + 1;
    }
unfolding begin_job_session
begin_job_session_missing now id targets batches m h = rw (edit_job, h) refl

abbrev stored_job : Option MapperJob → MapperJob
stored_job none = zero_job
stored_job (some job) = job

-- A run that has its session and finds no job of its ID, then sets its phase and ends, leaves a job
-- under that ID in memory and in the file, which has no ID, no name and no configuration.
pub end_job_session-missing :
    (m : MapperManager) (id : Text) (targets batches now later : ℕ) (mode : Text) (until : Option ℕ)
    → lookup id m.jobs ≡ none
    → let session = m.last_session + 1 in
      let after =
        end_job_session true later id session
          (set_job_phase id session mode until (begin_job_session now id targets batches m)) in
      let job = ended_job later (record zero_job {
        progress = record zero_progress { phase_mode = mode; phase_ends = until };
      }) in
      (lookup id after.jobs ≡ some job) × (lookup id after.saved ≡ some (safe_job job))
unfolding begin_job_session set_job_phase end_job_session
end_job_session-missing m id targets batches now later mode until h =
    let session = m.last_session + 1 in
    let n = record m { sessions = put id session m.sessions; last_session = session } in
    let edit = with_progress (λ p. record p { phase_mode = mode; phase_ends = until }) in
    let own = lookup-put_self id session m.sessions in
    let p = set_job id (edit (get_job id n)) n in
    let first =
      ap (in_session id session edit) (begin_job_session_missing now id targets batches m h)
      ∙ in_session_own id session edit n own in
    let zero = ap stored_job h in
    let job = ended_job later (get_job id p) in
    let closed =
      ap (λ x. (close_session later id session x).jobs) first
      ∙ close_session_own later id session p own in
    let known = ap stored_job (lookup-put_self id (edit (get_job id n)) n.jobs) ∙ ap edit zero in
    let found =
      ap (lookup id) closed
      ∙ lookup-put_self id job p.jobs
      ∙ ap some (ap (ended_job later) known) in
    (found, lookup-safe_jobs id _ ∙ ap saved_as found)
