-- ===== src/Mapper/Jobs/Steps/Tests.antt =====
-- A Mapper job that is saved, run and ended (server/internal/app/mapper.go), and the theorems at it.
use gp_sdr.Prelude.{◌≡◌, ◌≢◌, refl, sym, ◌∙◌, true, none, some, [], ◌∷◌, arith}
use gp_sdr.Prelude.Int.{ℤ}
use gp_sdr.Prelude.Text.{Text, codes, codes_eq, trim_space, trim_left, is_space, to_lower}
use gp_sdr.Prelude.Maps.{lookup, remove}
use gp_sdr.Mapper.Config.{
  is_one_of, is_rate_of, supported_user_sample_rate, normalize_config, validate_mapper_scan_config,
}
use gp_sdr.Mapper.Config.Tests.{airband, airband_valid}
use gp_sdr.Mapper.Job.{MapperJob, zero_job, zero_progress}
use gp_sdr.Mapper.Jobs.{MapperManager, saved_job, prepared, save_job, safe_job, new_mapper_manager}
use gp_sdr.Mapper.Jobs.Sessions.{ended_job, begin_job_session, set_job_phase, end_job_session}
use gp_sdr.Mapper.Jobs.Steps.{Step, saves, begins, ends, completes, run_step, run_steps}
use gp_sdr.Mapper.Jobs.Steps.Managed.{IsManaged, run_step-IsManaged}
use gp_sdr.Mapper.Jobs.Steps.Ended.{IsUnchanged, late_call-IsUnchanged}
use gp_sdr.Mapper.Jobs.Steps.Saved.{
  IsSecretFree, run_steps-IsSecretFree, opened_as, new_mapper_manager-save_job,
}
use gp_sdr.Mapper.Jobs.Steps.Deleted.{end_job_session-missing}

abbrev no_jobs : MapperManager
no_jobs = record { jobs = []; sessions = []; last_session = 0; saved = [] }

abbrev no_text : ℤ → ℤ → Text
no_text a b = []

abbrev air_job : MapperJob
air_job = record zero_job { job_id = codes "j"; job_name = codes "Air"; config = airband }

abbrev saving : Step
saving = saves no_text true 5 (codes "x") air_job

abbrev beginning : Step
beginning = begins 6 (codes "j") 4 1

abbrev with_job : MapperManager
with_job = run_step saving no_jobs

abbrev running_job : MapperManager
running_job = run_step beginning with_job

nothing_there : {A : Type 0} (id : Text) (a : A) → lookup id [] ≡ some a → ⊥
unfolding lookup
nothing_there id a h = ground (arith, h)

no_jobs-IsManaged : IsManaged no_jobs
no_jobs-IsManaged = record {
  issued = λ id s h. absurd (nothing_there id s h);
  apart = λ id other s h k. absurd (nothing_there id s h);
  owned = λ id job h active. absurd (nothing_there id job h);
}

run_step-IsManaged_example : IsManaged with_job
run_step-IsManaged_example = run_step-IsManaged saving no_jobs tt no_jobs-IsManaged

running_job-IsManaged : IsManaged running_job
running_job-IsManaged =
    run_step-IsManaged beginning with_job tt
      (run_step-IsManaged saving no_jobs tt no_jobs-IsManaged)

air_saved :
    (save_job no_text true 5 (codes "x") air_job no_jobs).0
    ≡ saved_job (prepared no_text 5 (codes "x") (normalize_config airband) air_job none)
unfolding save_job lookup codes_eq trim_space trim_left is_space
air_saved = rw (save_job, airband_valid) refl

running_session : lookup (codes "j") running_job.sessions ≡ some 1
unfolding run_step save_job prepared begin_job_session end_job_session validate_mapper_scan_config
    codes_eq trim_space trim_left is_space to_lower is_one_of is_rate_of supported_user_sample_rate
    lookup remove
running_session = refl

ended_session :
    lookup (codes "j") (run_step (ends true 9 (codes "j") 1) running_job).sessions ≡ none
unfolding run_step save_job prepared begin_job_session end_job_session validate_mapper_scan_config
    codes_eq trim_space trim_left is_space to_lower is_one_of is_rate_of supported_user_sample_rate
    lookup remove
ended_session = refl

late_call-IsUnchanged_example :
    let after =
      run_steps
        (begins 10 (codes "j") 4 1 ∷ [])
        (run_step (ends true 9 (codes "j") 1) running_job) in
    IsUnchanged after (run_step (completes (codes "j") 1) after)
late_call-IsUnchanged_example =
    late_call-IsUnchanged running_job (codes "j") 1 (ends true 9 (codes "j") 1)
      (begins 10 (codes "j") 4 1 ∷ []) (completes (codes "j") 1) running_job-IsManaged
      running_session (λ e. absurd (ground (arith, sym ended_session ∙ e))) refl

run_steps-IsSecretFree_example : IsSecretFree (run_steps (saving ∷ beginning ∷ []) no_jobs)
run_steps-IsSecretFree_example =
    run_steps-IsSecretFree (saving ∷ beginning ∷ []) no_jobs
      (λ id job h. absurd (nothing_there id job h))

abbrev air_written : MapperJob
air_written = prepared no_text 5 (codes "x") (normalize_config airband) air_job none

new_mapper_manager-save_job_example :
    let opened = new_mapper_manager (save_job no_text true 5 (codes "x") air_job no_jobs).1.saved in
    (lookup air_written.job_id opened.jobs ≡ some (safe_job air_written))
    × ((other : Text)
        → air_written.job_id ≢ other
        → lookup other opened.jobs ≡ opened_as (lookup other no_jobs.jobs))
new_mapper_manager-save_job_example =
    new_mapper_manager-save_job no_text true 5 (codes "x") air_job air_written no_jobs air_saved

end_job_session-missing_example :
    let after = end_job_session true 9 (codes "j") 1 (
      set_job_phase
        (codes "j")
        1
        (codes "adaptive")
        none
        (begin_job_session 6 (codes "j") 4 1 no_jobs)) in
    let job = ended_job 9 (record zero_job {
      progress = record zero_progress { phase_mode = codes "adaptive"; phase_ends = none };
    }) in
    (lookup (codes "j") after.jobs ≡ some job)
    × (lookup (codes "j") after.saved ≡ some (safe_job job))
unfolding lookup
end_job_session-missing_example =
    end_job_session-missing no_jobs (codes "j") 4 1 6 9 (codes "adaptive") none refl
