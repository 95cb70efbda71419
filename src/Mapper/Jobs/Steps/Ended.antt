-- ===== src/Mapper/Jobs/Steps/Ended.antt =====
-- A session of a Mapper job that is over (server/internal/app/mapper.go, lines 577-812).
use gp_sdr.Prelude.{
  ℕ, ◌+◌, ◌≤◌, ◌<◌, ◌==◌, ◌≡◌, ◌≢◌, refl, sym, subst, ap, ◌∙◌, ◌⊎◌, inl, inr, Bool, true, false,
  Bool-cases, Option, Option-cases, none, some, List, [], ◌∷◌, arith,
}
use gp_sdr.Prelude.Int.{ℤ}
use gp_sdr.Prelude.Text.{Text}
use gp_sdr.Prelude.Maps.{lookup, put, put_cases, remove_cases, some-injective}
use gp_sdr.Mapper.Config.{validate_mapper_scan_config}
use gp_sdr.Mapper.Job.{MapperJob}
use gp_sdr.Mapper.Jobs.{
  MapperManager, get_session, get_job, set_job, persist_jobs, prepared, job_key, is_state_running,
  is_busy, save_job, delete_job,
}
use gp_sdr.Mapper.Jobs.Sessions.{
  with_progress, failed_with, stopping_job, at_batch, close_session, edit_job, in_session, begun,
  update_job_tuning, set_job_error, mark_job_stopping, begin_job_session, set_job_phase,
  begin_job_batch, complete_job_pass, end_job_session,
}
use gp_sdr.Mapper.Jobs.Steps.{
  Step, saves, deletes, tunes, errs, marks, begins, phases, goes, completes, ends, run_step,
  run_steps,
}
use gp_sdr.Mapper.Jobs.Steps.Managed.{IsManaged, Verdict-cases, get_session-there}

-- The session was given, and is no job's any more.
abbrev pub IsOver : ℕ → MapperManager → Type 0
IsOver s m = (1 ≤ s) × (s ≤ m.last_session) × ((id : Text) → lookup id m.sessions ≢ some s)

-- What a call does to the sessions: it keeps them, removes one, or gives a new one.
abbrev pub IsStep : MapperManager → MapperManager → Type 0
IsStep m n =
    (m.last_session ≤ n.last_session)
    × ((id : Text) (s : ℕ)
        → lookup id n.sessions ≡ some s
        → (lookup id m.sessions ≡ some s) ⊎ (m.last_session < s))

same-IsStep :
    (m n : MapperManager) → m.sessions ≡ n.sessions → m.last_session ≡ n.last_session → IsStep m n
same-IsStep m n e l = (omega (arith, l), λ id s h. inl (ap (lookup id) e ∙ h))

edit_job-sessions :
    (id : Text) (edit : MapperJob → MapperJob) (m : MapperManager)
    → (m.sessions ≡ (edit_job id edit m).sessions)
      × (m.last_session ≡ (edit_job id edit m).last_session)
edit_job-sessions id edit m = elim (Option-cases (lookup id m.jobs)) [
  | inl e ↦ rw (edit_job, e) (refl, refl)
  | inr (job, e) ↦ rw (edit_job, e) (refl, refl)
]

edit_job-IsStep :
    (id : Text) (edit : MapperJob → MapperJob) (m : MapperManager) → IsStep m (edit_job id edit m)
edit_job-IsStep id edit m =
    let (e, l) = edit_job-sessions id edit m in same-IsStep m (edit_job id edit m) e l

in_session-IsStep :
    (id : Text) (s : ℕ) (edit : MapperJob → MapperJob) (m : MapperManager)
    → IsStep m (in_session id s edit m)
in_session-IsStep id s edit m = elim (Bool-cases (get_session id m == s)) [
  | inl same ↦ rw same (same-IsStep m (set_job id (edit (get_job id m)) m) refl refl)
  | inr other ↦ rw other (same-IsStep m m refl refl)
]

persist_jobs-IsStep :
    (disk : Bool) (m n : MapperManager) → IsStep m n → IsStep m (persist_jobs disk n)
persist_jobs-IsStep true m n h = h
persist_jobs-IsStep false m n h = h

close_session-IsStep :
    (now : ℕ) (id : Text) (s : ℕ) (m : MapperManager) → IsStep m (close_session now id s m)
close_session-IsStep now id s m = elim (Bool-cases (get_session id m == s)) [
  | inl same ↦ rw same (omega arith, λ other t h. inl (remove_cases id other t m.sessions h).1)
  | inr other ↦ rw other (same-IsStep m m refl refl)
]

begin_job_session-IsStep :
    (now : ℕ) (id : Text) (targets batches : ℕ) (m : MapperManager)
    → IsStep m (begin_job_session now id targets batches m)
unfolding begin_job_session
begin_job_session-IsStep now id targets batches m =
    let n = record m {
      sessions = put id (m.last_session + 1) m.sessions;
      last_session = m.last_session + 1;
    } in
    let (e, l) = edit_job-sessions id (begun now targets batches) n in
    (
      omega (arith, l),
      λ other t h.
          elim (put_cases id other (m.last_session + 1) t m.sessions (ap (lookup other) e ∙ h)) [
            | inl (_, f) ↦ inr (omega (arith, f))
            | inr (_, old) ↦ inl old
          ],
    )

delete_job-IsStep :
    (disk : Bool) (id : Text) (m : MapperManager) → IsStep m (delete_job disk id m).1
unfolding delete_job
delete_job-IsStep disk id m = elim (Option-cases (lookup id m.jobs)) [
  | inl e ↦ rw (delete_job, e) (same-IsStep m m refl refl)
  | inr (job, e) ↦ elim (Bool-cases (is_busy job.state)) [
    | inl busy ↦ rw (delete_job, e, busy) (same-IsStep m m refl refl)
    | inr free ↦ elim (Bool-cases disk) [
      | inr fails ↦ rw (delete_job, e, free, fails) (same-IsStep m m refl refl)
      | inl works ↦
          rw (delete_job, e, free, works)
            (omega arith, λ other t h. inl (remove_cases id other t m.sessions h).1)
    ]
  ]
]

save_job-IsStep :
    (range_text : ℤ → ℤ → Text) (disk : Bool) (now : ℕ) (new_id : Text) (job : MapperJob)
    (m : MapperManager)
    → IsStep m (save_job range_text disk now new_id job m).1
unfolding save_job
save_job-IsStep range_text disk now new_id job m =
    elim (Verdict-cases (validate_mapper_scan_config job.config)) [
      | inl (e, v) ↦ rw (save_job, v) (same-IsStep m m refl refl)
      | inr (config, v) ↦
          elim (Bool-cases (is_state_running (lookup (job_key new_id job) m.jobs))) [
            | inl busy ↦ rw (save_job, v, busy) (same-IsStep m m refl refl)
            | inr free ↦ elim (Bool-cases disk) [
              | inr fails ↦ rw (save_job, v, free, fails) (same-IsStep m m refl refl)
              | inl works ↦
                  let written =
                    prepared range_text now new_id config job
                      (lookup (job_key new_id job) m.jobs) in
                  rw (save_job, v, free, works)
                    (same-IsStep m (persist_jobs true (set_job (job_key new_id job) written m)) refl
                      refl)
            ]
          ]
    ]

run_step-IsStep : (step : Step) (m : MapperManager) → IsStep m (run_step step m)
unfolding run_step update_job_tuning set_job_error mark_job_stopping set_job_phase begin_job_batch
    complete_job_pass end_job_session
run_step-IsStep (saves range_text disk now new_id job) m =
    save_job-IsStep range_text disk now new_id job m
run_step-IsStep (deletes disk id) m = delete_job-IsStep disk id m
run_step-IsStep (tunes id s status) m =
    in_session-IsStep id s (with_progress (λ p. record p { tuning = some status })) m
run_step-IsStep (errs disk now id message) m =
    persist_jobs-IsStep disk m (edit_job id (failed_with now message) m)
      (edit_job-IsStep id (failed_with now message) m)
run_step-IsStep (marks id) m = edit_job-IsStep id stopping_job m
run_step-IsStep (begins now id targets batches) m =
    begin_job_session-IsStep now id targets batches m
run_step-IsStep (phases id s mode until) m =
    in_session-IsStep id s (with_progress (λ p. record p { phase_mode = mode; phase_ends = until }))
      m
run_step-IsStep (goes now id s b) m = elim (Bool-cases (get_session id m == s)) [
  | inl same ↦ rw same (edit_job-IsStep id (with_progress (at_batch now b)) m)
  | inr other ↦ rw other (same-IsStep m m refl refl)
]
run_step-IsStep (completes id s) m =
    in_session-IsStep id s (with_progress (λ p. record p { passes = p.passes + 1 })) m
run_step-IsStep (ends disk now id s) m =
    persist_jobs-IsStep disk m (close_session now id s m) (close_session-IsStep now id s m)

step-IsOver : (s : ℕ) (m n : MapperManager) → IsStep m n → IsOver s m → IsOver s n
step-IsOver s m n (later, from) (one, last, gone) = (
  one,
  omega (arith, later, last),
  λ id h. elim (from id s h) [
    | inl old ↦ gone id old
    | inr new ↦ absurd (omega (arith, new, last))
  ],
)

run_steps-IsOver :
    (s : ℕ) (steps : List Step) (m : MapperManager) → IsOver s m → IsOver s (run_steps steps m)
unfolding run_steps
run_steps-IsOver s [] m h = h
run_steps-IsOver s (step ∷ steps) m h =
    run_steps-IsOver s steps (run_step step m)
      (step-IsOver s m (run_step step m) (run_step-IsStep step m) h)

-- The session that a call names.
abbrev pub session_of : Step → Option ℕ
session_of (tunes id session status) = some session
session_of (phases id session mode until) = some session
session_of (goes now id session b) = some session
session_of (completes id session) = some session
session_of (ends disk now id session) = some session
session_of _ = none

not_read : (id : Text) (s : ℕ) (m : MapperManager) → IsOver s m → (get_session id m == s) ≡ false
not_read id s m (one, last, gone) = elim (Bool-cases (get_session id m == s)) [
  | inl same ↦ absurd (gone id (get_session-there id s m one same))
  | inr other ↦ other
]

abbrev pub IsUnchanged : MapperManager → MapperManager → Type 0
IsUnchanged m n = (n.jobs ≡ m.jobs) × (n.sessions ≡ m.sessions) × (n.last_session ≡ m.last_session)

persist_jobs-IsUnchanged : (disk : Bool) (m : MapperManager) → IsUnchanged m (persist_jobs disk m)
persist_jobs-IsUnchanged true m = (refl, refl, refl)
persist_jobs-IsUnchanged false m = (refl, refl, refl)

over_same :
    (late : Step) (s : ℕ) (m : MapperManager)
    → IsOver s m
    → session_of late ≡ some s
    → IsUnchanged m (run_step late m)
unfolding run_step update_job_tuning set_job_phase begin_job_batch complete_job_pass end_job_session
over_same (tunes id t status) s m h e =
    rw (not_read id t m (subst (λ x. IsOver x m) (sym (some-injective e)) h)) (refl, refl, refl)
over_same (phases id t mode until) s m h e =
    rw (not_read id t m (subst (λ x. IsOver x m) (sym (some-injective e)) h)) (refl, refl, refl)
over_same (goes now id t b) s m h e =
    rw (not_read id t m (subst (λ x. IsOver x m) (sym (some-injective e)) h)) (refl, refl, refl)
over_same (completes id t) s m h e =
    rw (not_read id t m (subst (λ x. IsOver x m) (sym (some-injective e)) h)) (refl, refl, refl)
over_same (ends disk now id t) s m h e =
    rw (not_read id t m (subst (λ x. IsOver x m) (sym (some-injective e)) h))
      (persist_jobs-IsUnchanged disk m)
over_same (saves range_text disk now new_id job) s m h e = absurd (ground (arith, e))
over_same (deletes disk id) s m h e = absurd (ground (arith, e))
over_same (errs disk now id message) s m h e = absurd (ground (arith, e))
over_same (marks id) s m h e = absurd (ground (arith, e))
over_same (begins now id targets batches) s m h e = absurd (ground (arith, e))

taken-IsOver :
    (m : MapperManager) (id : Text) (s : ℕ) (closing : Step)
    → IsManaged m
    → lookup id m.sessions ≡ some s
    → lookup id (run_step closing m).sessions ≢ some s
    → IsOver s (run_step closing m)
taken-IsOver m id s closing i h taken =
    let (one, last) = i.issued id s h in
    let (later, from) = run_step-IsStep closing m in
    (
      one,
      omega (arith, later, last),
      λ other k. elim (from other s k) [
        | inl old ↦
            taken (ap (λ x. lookup x (run_step closing m).sessions) (i.apart id other s h old) ∙ k)
        | inr new ↦ absurd (omega (arith, new, last))
      ],
    )

-- Once a call has taken a session from its job, as the end of the session, a new one, or the job's
-- deletion does, no later call that names the session changes a job or a session, whatever calls come
-- between, also where a job of the same ID is there again.
pub late_call-IsUnchanged :
    (m : MapperManager) (id : Text) (s : ℕ) (closing : Step) (between : List Step) (late : Step)
    → IsManaged m
    → lookup id m.sessions ≡ some s
    → lookup id (run_step closing m).sessions ≢ some s
    → session_of late ≡ some s
    → let after = run_steps between (run_step closing m) in IsUnchanged after (run_step late after)
late_call-IsUnchanged m id s closing between late i h taken e =
    over_same late s (run_steps between (run_step closing m))
      (run_steps-IsOver s between (run_step closing m) (taken-IsOver m id s closing i h taken)) e
