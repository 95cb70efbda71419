-- ===== src/Mapper/Jobs.antt =====
-- server/internal/app/mapper.go, lines 222-229 and 597-684: the jobs of the Mapper in memory and in
-- their file, how they are loaded, saved and deleted. A time is in nanoseconds of a clock that does
-- not go back, and a batch's index is below the number of batches, so differences are numbers. The
-- clock, the ID that `NewID` makes and whether a write succeeds are inputs. Left out is the manager's
-- text of its last error.
pub mod Sessions
pub mod Steps
use gp_sdr.Prelude.{
  ℕ, ◌+◌, ◌-◌, ◌*◌, ◌/◌, Bool, true, false, ◌||◌, ◌==◌, Option, none, some, List, [], ◌∷◌, ◌++◌,
  ltb, if◌then◌else◌, length,
}
use gp_sdr.Prelude.Int.{ℤ, pos, negsuc}
use gp_sdr.Prelude.Text.{Text, codes, codes_eq, trim_space}
use gp_sdr.Prelude.Maps.{Entries, lookup, remove, put}
use gp_sdr.Tuning.Job.{TuningStatus}
use gp_sdr.Mapper.Job.{
  JobState, idle, running, stopping, in_error, Progress, MapperJob, zero_progress, zero_job,
}
use gp_sdr.Mapper.Config.{MapperConfig, ConfigError, valid, refused, validate_mapper_scan_config}

-- `saved` is what the file of the jobs holds.
pub record MapperManager : Type 0 where
  pub jobs : Entries MapperJob
  pub sessions : Entries ℕ
  pub last_session : ℕ
  pub saved : Entries MapperJob

pub data JobError : Type 0 where
  refused_config : ConfigError → JobError
  stop_first unknown_job not_saved : JobError

pub data Reply : Type 0 where
  saved_job : MapperJob → Reply
  failed_job : JobError → Reply

abbrev pub get_job : Text → MapperManager → MapperJob
get_job id m = elim (lookup id m.jobs) [ none ↦ zero_job | some job ↦ job ]

-- A job without a session reads the session 0, which no session has.
abbrev pub session_number : Option ℕ → ℕ
session_number none = 0
session_number (some session) = session

abbrev pub get_session : Text → MapperManager → ℕ
get_session id m = session_number (lookup id m.sessions)

abbrev pub set_job : Text → MapperJob → MapperManager → MapperManager
set_job id job m = record m { jobs = put id job m.jobs }

abbrev pub safe_job : MapperJob → MapperJob
safe_job job = record job { config = record job.config { secret = [] } }

-- What `writeMapperJobs` writes.
unfoldable pub safe_jobs : Entries MapperJob → Entries MapperJob
safe_jobs [] = []
safe_jobs ((id, job) ∷ jobs) = (id, safe_job job) ∷ safe_jobs jobs

abbrev pub persist_jobs : Bool → MapperManager → MapperManager
persist_jobs disk m = if disk then (record m { saved = safe_jobs m.jobs }) else m

-- The name that a job without one gets; `range_text` prints its range.
unfoldable pub default_name : (ℤ → ℤ → Text) → MapperConfig → Text
unfolding codes_eq
default_name range_text config =
    if codes_eq config.mode (codes "decipher")
    then codes "Identify · found frequencies"
    else if codes_eq config.mode (codes "adaptive")
    then codes "Map · " ++ range_text config.start config.end
    else codes "Discovery · " ++ range_text config.start config.end

-- The job as it is written: the ID and the name are trimmed, and what is missing is filled in.
unfoldable pub prepared :
    (ℤ → ℤ → Text) → ℕ → Text → MapperConfig → MapperJob → Option MapperJob → MapperJob
unfolding default_name
prepared range_text now new_id config job existing =
    let id = trim_space job.job_id in
    let name = trim_space job.job_name in
    record {
      job_id = if codes_eq id [] then new_id else id;
      job_name = if codes_eq name [] then default_name range_text config else name;
      config = config;
      state = idle;
      last_error = [];
      progress = record zero_progress { phase_mode = config.mode; index = negsuc 0 };
      created = elim existing [
        | some other ↦ other.created
        | none ↦ if codes_eq id [] then now else job.created
      ];
      updated = now;
    }

abbrev pub job_key : Text → MapperJob → Text
job_key new_id job = if codes_eq (trim_space job.job_id) [] then new_id else trim_space job.job_id

abbrev pub is_state_running : Option MapperJob → Bool
is_state_running none = false
is_state_running (some job) = elim job.state [ running ↦ true | _ ↦ false ]

abbrev pub write_job : Bool → Text → MapperJob → MapperManager → Reply × MapperManager
write_job disk id job m =
    if disk
    then (saved_job job, record (set_job id job m) { saved = safe_jobs (put id job m.jobs) })
    else (failed_job not_saved, m)

unfoldable pub save_job :
    (ℤ → ℤ → Text) → Bool → ℕ → Text → MapperJob → MapperManager → Reply × MapperManager
unfolding prepared
save_job range_text disk now new_id job m = elim (validate_mapper_scan_config job.config) [
  | refused e ↦ (failed_job (refused_config e), m)
  | valid config ↦
      let id = job_key new_id job in
      let existing = lookup id m.jobs in
      if is_state_running existing
      then (failed_job stop_first, m)
      else write_job disk id (prepared range_text now new_id config job existing) m
]

abbrev pub is_busy : JobState → Bool
is_busy running = true
is_busy stopping = true
is_busy _ = false

unfoldable pub delete_job : Bool → Text → MapperManager → Option JobError × MapperManager
delete_job disk id m = elim (lookup id m.jobs) [
  | none ↦ (some unknown_job, m)
  | some job ↦
      if is_busy job.state
      then (some stop_first, m)
      else if disk
      then (
        none,
        record m {
          jobs = remove id m.jobs;
          sessions = remove id m.sessions;
          saved = safe_jobs (remove id m.jobs);
        },
      )
      else (some not_saved, m)
]

abbrev pub opened_job : MapperJob → MapperJob
opened_job job = record (safe_job job) {
  state = idle;
  progress = record job.progress { is_running = false };
}

unfoldable pub opened_jobs : Entries MapperJob → Entries MapperJob
opened_jobs [] = []
opened_jobs ((id, job) ∷ jobs) = (id, opened_job job) ∷ opened_jobs jobs

-- The manager's jobs as `NewMapperManager` loads them.
unfoldable pub new_mapper_manager : Entries MapperJob → MapperManager
unfolding opened_jobs
new_mapper_manager saved = record {
  jobs = opened_jobs saved;
  sessions = [];
  last_session = 0;
  saved = saved;
}
