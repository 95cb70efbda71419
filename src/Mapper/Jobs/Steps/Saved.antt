-- ===== src/Mapper/Jobs/Steps/Saved.antt =====
-- The file of the Mapper's jobs (server/internal/app/mapper.go, lines 222-229 and 597-698).
use gp_sdr.Prelude.{
  ℕ, ◌+◌, ◌==◌, ◌≡◌, ◌≢◌, refl, sym, subst, ap, ◌∙◌, ◌⊎◌, inl, inr, Bool, true, false, Bool-cases,
  Option, Option-cases, none, some, List, [], ◌∷◌, arith,
}
use gp_sdr.Prelude.Int.{ℤ}
use gp_sdr.Prelude.Text.{Text, codes_eq}
use gp_sdr.Prelude.Maps.{Entries, lookup, put, lookup-put_self, lookup-put_other, some-injective}
use gp_sdr.Mapper.Config.{validate_mapper_scan_config}
use gp_sdr.Mapper.Job.{MapperJob}
use gp_sdr.Mapper.Jobs.{
  MapperManager, saved_job, failed_job, JobError, get_session, set_job, persist_jobs, prepared,
  job_key, is_state_running, is_busy, refused_config, stop_first, not_saved, save_job, delete_job,
  safe_job, safe_jobs, opened_job, opened_jobs, new_mapper_manager,
}
use gp_sdr.Mapper.Jobs.Sessions.{
  in_session, edit_job, with_progress, stopping_job, begun, at_batch, update_job_tuning,
  set_job_error, mark_job_stopping, begin_job_session, set_job_phase, begin_job_batch,
  complete_job_pass, end_job_session, close_session, failed_with,
}
use gp_sdr.Mapper.Jobs.Steps.{
  Step, saves, deletes, tunes, errs, marks, begins, phases, goes, completes, ends, run_step,
  run_steps,
}
use gp_sdr.Mapper.Jobs.Steps.Managed.{Verdict-cases}

-- A job as the file has it.
abbrev pub saved_as : Option MapperJob → Option MapperJob
saved_as none = none
saved_as (some job) = some (safe_job job)

abbrev pub opened_as : Option MapperJob → Option MapperJob
opened_as none = none
opened_as (some job) = some (opened_job job)

pub lookup-safe_jobs :
    (id : Text) (jobs : Entries MapperJob) → lookup id (safe_jobs jobs) ≡ saved_as (lookup id jobs)
unfolding lookup safe_jobs
lookup-safe_jobs id [] = refl
lookup-safe_jobs id ((k, job) ∷ jobs) = elim (Bool-cases (codes_eq k id)) [
  | inl same ↦ rw same refl
  | inr other ↦ rw other (lookup-safe_jobs id jobs)
]

lookup-opened_jobs :
    (id : Text) (jobs : Entries MapperJob)
    → lookup id (opened_jobs jobs) ≡ opened_as (lookup id jobs)
unfolding lookup opened_jobs
lookup-opened_jobs id [] = refl
lookup-opened_jobs id ((k, job) ∷ jobs) = elim (Bool-cases (codes_eq k id)) [
  | inl same ↦ rw same refl
  | inr other ↦ rw other (lookup-opened_jobs id jobs)
]

-- No job of the file has a secret.
abbrev pub IsSecretFree : MapperManager → Type 0
IsSecretFree m =
    (id : Text) (job : MapperJob) → lookup id m.saved ≡ some job → job.config.secret ≡ []

safe_jobs-secrets :
    (id : Text) (job : MapperJob) (jobs : Entries MapperJob)
    → lookup id (safe_jobs jobs) ≡ some job
    → job.config.secret ≡ []
safe_jobs-secrets id job jobs h = elim (Option-cases (lookup id jobs)) [
  | inl e ↦ absurd (ground (arith, sym (lookup-safe_jobs id jobs) ∙ h, ap saved_as e))
  | inr (j, e) ↦
      ap (λ (x : MapperJob). x.config.secret)
        (some-injective (sym h ∙ lookup-safe_jobs id jobs ∙ ap saved_as e))
]

-- The file is as it was, or is what the memory holds.
abbrev pub IsWritten : MapperManager → MapperManager → Type 0
IsWritten m n = (n.saved ≡ m.saved) ⊎ (n.saved ≡ safe_jobs n.jobs)

persist_jobs-IsWritten :
    (disk : Bool) (m n : MapperManager) → n.saved ≡ m.saved → IsWritten m (persist_jobs disk n)
persist_jobs-IsWritten true m n h = inr refl
persist_jobs-IsWritten false m n h = inl h

edit_job-saved :
    (id : Text) (edit : MapperJob → MapperJob) (m : MapperManager)
    → (edit_job id edit m).saved ≡ m.saved
edit_job-saved id edit m = elim (Option-cases (lookup id m.jobs)) [
  | inl e ↦ rw (edit_job, e) refl
  | inr (job, e) ↦ rw (edit_job, e) refl
]

in_session-saved :
    (id : Text) (s : ℕ) (edit : MapperJob → MapperJob) (m : MapperManager)
    → (in_session id s edit m).saved ≡ m.saved
in_session-saved id s edit m = elim (Bool-cases (get_session id m == s)) [
  | inl same ↦ rw same refl
  | inr other ↦ rw other refl
]

close_session-saved :
    (now : ℕ) (id : Text) (s : ℕ) (m : MapperManager) → (close_session now id s m).saved ≡ m.saved
close_session-saved now id s m = elim (Bool-cases (get_session id m == s)) [
  | inl same ↦ rw same refl
  | inr other ↦ rw other refl
]

delete_job-IsWritten :
    (disk : Bool) (id : Text) (m : MapperManager) → IsWritten m (delete_job disk id m).1
unfolding delete_job
delete_job-IsWritten disk id m = elim (Option-cases (lookup id m.jobs)) [
  | inl e ↦ rw (delete_job, e) (inl refl)
  | inr (job, e) ↦ elim (Bool-cases (is_busy job.state)) [
    | inl busy ↦ rw (delete_job, e, busy) (inl refl)
    | inr free ↦ elim (Bool-cases disk) [
      | inr fails ↦ rw (delete_job, e, free, fails) (inl refl)
      | inl works ↦ rw (delete_job, e, free, works) (inr refl)
    ]
  ]
]

-- What `save_job` did where it succeeds.
abbrev pub IsSaved : MapperManager → MapperJob → MapperManager → Type 0
IsSaved m job n =
    (n ≡ persist_jobs true (set_job job.job_id job m)) × (opened_job job ≡ safe_job job)

save_job-cases :
    (range_text : ℤ → ℤ → Text) (disk : Bool) (now : ℕ) (new_id : Text) (job : MapperJob)
    (m : MapperManager)
    → let (reply, n) = save_job range_text disk now new_id job m in
      ((n ≡ m) × ((e : JobError) × (reply ≡ failed_job e)))
      ⊎ ((written : MapperJob) × (reply ≡ saved_job written) × IsSaved m written n)
unfolding save_job prepared
save_job-cases range_text disk now new_id job m =
    elim (Verdict-cases (validate_mapper_scan_config job.config)) [
      | inl (e, v) ↦ rw (save_job, v) (inl (refl, (refused_config e, refl)))
      | inr (config, v) ↦
          elim (Bool-cases (is_state_running (lookup (job_key new_id job) m.jobs))) [
            | inl busy ↦ rw (save_job, v, busy) (inl (refl, (stop_first, refl)))
            | inr free ↦ elim (Bool-cases disk) [
              | inr fails ↦ rw (save_job, v, free, fails) (inl (refl, (not_saved, refl)))
              | inl works ↦
                  let written =
                    prepared range_text now new_id config job
                      (lookup (job_key new_id job) m.jobs) in
                  rw (save_job, v, free, works) (inr (written, refl, (refl, refl)))
            ]
          ]
    ]

save_job-IsWritten :
    (range_text : ℤ → ℤ → Text) (disk : Bool) (now : ℕ) (new_id : Text) (job : MapperJob)
    (m : MapperManager)
    → IsWritten m (save_job range_text disk now new_id job m).1
save_job-IsWritten range_text disk now new_id job m =
    elim (save_job-cases range_text disk now new_id job m) [
      | inl (e, _) ↦ inl (ap (λ (n : MapperManager). n.saved) e)
      | inr (written, _, (e, _)) ↦ inr (
          ap (λ (n : MapperManager). n.saved) e
          ∙ ap (λ (n : MapperManager). safe_jobs n.jobs) (sym e))
    ]

run_step-IsWritten : (step : Step) (m : MapperManager) → IsWritten m (run_step step m)
unfolding run_step update_job_tuning set_job_error mark_job_stopping begin_job_session set_job_phase
    begin_job_batch complete_job_pass end_job_session
run_step-IsWritten (saves range_text disk now new_id job) m =
    save_job-IsWritten range_text disk now new_id job m
run_step-IsWritten (deletes disk id) m = delete_job-IsWritten disk id m
run_step-IsWritten (tunes id s status) m =
    inl (in_session-saved id s (with_progress (λ p. record p { tuning = some status })) m)
run_step-IsWritten (errs disk now id message) m =
    persist_jobs-IsWritten disk m (edit_job id (failed_with now message) m)
      (edit_job-saved id (failed_with now message) m)
run_step-IsWritten (marks id) m = inl (edit_job-saved id stopping_job m)
run_step-IsWritten (begins now id targets batches) m = inl (
    edit_job-saved id (begun now targets batches) (record m {
      sessions = put id (m.last_session + 1) m.sessions;
      last_session = m.last_session + 1;
    }))
run_step-IsWritten (phases id s mode until) m = inl (
    in_session-saved id s (with_progress (λ p. record p { phase_mode = mode; phase_ends = until }))
      m)
run_step-IsWritten (goes now id s b) m = elim (Bool-cases (get_session id m == s)) [
  | inl same ↦ rw same (inl (edit_job-saved id (with_progress (at_batch now b)) m))
  | inr other ↦ rw other (inl refl)
]
run_step-IsWritten (completes id s) m =
    inl (in_session-saved id s (with_progress (λ p. record p { passes = p.passes + 1 })) m)
run_step-IsWritten (ends disk now id s) m =
    persist_jobs-IsWritten disk m (close_session now id s m) (close_session-saved now id s m)

-- If the file of the jobs holds no upload secret, it holds none after any sequence of calls.
pub run_steps-IsSecretFree :
    (steps : List Step) (m : MapperManager) → IsSecretFree m → IsSecretFree (run_steps steps m)
unfolding run_steps
run_steps-IsSecretFree [] m h = h
run_steps-IsSecretFree (step ∷ steps) m h =
    run_steps-IsSecretFree steps (run_step step m) (λ id job found.
      elim (run_step-IsWritten step m) [
        | inl e ↦ h id job (ap (lookup id) (sym e) ∙ found)
        | inr e ↦ safe_jobs-secrets id job (run_step step m).jobs (ap (lookup id) (sym e) ∙ found)
      ])

opened_as-saved_as : (o : Option MapperJob) → opened_as (saved_as o) ≡ opened_as o
opened_as-saved_as none = refl
opened_as-saved_as (some job) = refl

reopened :
    (id : Text) (jobs : Entries MapperJob)
    → lookup id (opened_jobs (safe_jobs jobs)) ≡ opened_as (lookup id jobs)
reopened id jobs =
    lookup-opened_jobs id (safe_jobs jobs)
    ∙ ap opened_as (lookup-safe_jobs id jobs)
    ∙ opened_as-saved_as (lookup id jobs)

-- A manager that is started anew after a job was saved has the job without its secret, and every other
-- job as the memory had it, idle and without a secret.
pub new_mapper_manager-save_job :
    (range_text : ℤ → ℤ → Text) (disk : Bool) (now : ℕ) (new_id : Text) (job written : MapperJob)
    (m : MapperManager)
    → (save_job range_text disk now new_id job m).0 ≡ saved_job written
    → let opened = new_mapper_manager (save_job range_text disk now new_id job m).1.saved in
      (lookup written.job_id opened.jobs ≡ some (safe_job written))
      × ((other : Text)
          → written.job_id ≢ other
          → lookup other opened.jobs ≡ opened_as (lookup other m.jobs))
unfolding new_mapper_manager
new_mapper_manager-save_job range_text disk now new_id job written m h =
    elim (save_job-cases range_text disk now new_id job m) [
      | inl (_, (e, f)) ↦ absurd (ground (arith, sym h ∙ f))
      | inr (w, f, (e, idle)) ↦
          let same = ap (λ r. elim r [ saved_job j ↦ j | failed_job x ↦ w ]) (sym f ∙ h) in
          let from = λ (id : Text).
            ap (λ (n : MapperManager). lookup id (opened_jobs n.saved)) e
            ∙ reopened id (put w.job_id w m.jobs) in
          subst
            (λ (v : MapperJob).
              (lookup v.job_id (opened_jobs (save_job range_text disk now new_id job m).1.saved)
                ≡ some (safe_job v))
              × ((other : Text)
                  → v.job_id ≢ other
                  → lookup other (opened_jobs (save_job range_text disk now new_id job m).1.saved)
                    ≡ opened_as (lookup other m.jobs)))
            same
            (
              from w.job_id ∙ ap opened_as (lookup-put_self w.job_id w m.jobs) ∙ ap some idle,
              λ other n. from other ∙ ap opened_as (lookup-put_other w.job_id other w m.jobs n),
            )
    ]
