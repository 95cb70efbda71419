-- ===== src/Mapper/Jobs/Steps/Managed.antt =====
-- The sessions of the Mapper's jobs (server/internal/app/mapper.go, lines 577-812): every call keeps them
-- numbered apart, and a job that runs has one.
use gp_sdr.Prelude.{
  ℕ, ◌+◌, ◌≤◌, ◌==◌, ◌≡◌, refl, sym, ap, ◌∙◌, ◌⊎◌, inl, inr, Bool, true, false, ◌||◌, Bool-cases,
  Option-cases, some, arith,
}
use gp_sdr.Prelude.Int.{ℤ}
use gp_sdr.Prelude.Text.{Text, codes_eq, codes_eq_iff}
use gp_sdr.Prelude.Maps.{
  lookup, put, lookup-put_self, lookup-put_other, put_cases, remove_cases, lookup-remove_other,
}
use gp_sdr.Mapper.Config.{
  Verdict, ConfigError, MapperConfig, valid, refused, validate_mapper_scan_config,
}
use gp_sdr.Mapper.Job.{MapperJob, JobState, idle, running, stopping, in_error, no_state}
use gp_sdr.Mapper.Jobs.{
  MapperManager, get_job, session_number, get_session, set_job, persist_jobs, prepared, job_key,
  is_state_running, save_job, is_busy, delete_job,
}
use gp_sdr.Mapper.Jobs.Sessions.{
  in_session, edit_job, with_progress, close_session, begun, failed_with, stopping_state,
  stopping_job, ended_job, update_job_tuning, set_job_error, mark_job_stopping, begin_job_session,
  set_job_phase, begin_job_batch, complete_job_pass, end_job_session, at_batch,
}
use gp_sdr.Mapper.Jobs.Steps.{
  Step, saves, deletes, tunes, errs, marks, begins, phases, goes, completes, ends, run_step,
}

-- A job that a run is busy with.
abbrev pub is_active : MapperJob → Bool
is_active job = is_busy job.state || job.progress.is_running

pub Verdict-cases :
    (v : Verdict) → ((e : ConfigError) × (v ≡ refused e)) ⊎ ((c : MapperConfig) × (v ≡ valid c))
Verdict-cases (refused e) = inl (e, refl)
Verdict-cases (valid c) = inr (c, refl)

-- Each session is below the last one and its own job's; a job that is active has one.
pub record IsManaged (m : MapperManager) : Type 0 where
  pub issued : (id : Text) (s : ℕ) → lookup id m.sessions ≡ some s → (1 ≤ s) × (s ≤ m.last_session)
  pub apart :
      (id other : Text) (s : ℕ)
      → lookup id m.sessions ≡ some s
      → lookup other m.sessions ≡ some s
      → id ≡ other
  pub owned :
      (id : Text) (job : MapperJob)
      → lookup id m.jobs ≡ some job
      → is_active job ≡ true
      → (s : ℕ) × (lookup id m.sessions ≡ some s)

-- The calls of a run name a session that `begin_job_session` has given, which is not 0.
abbrev pub IsIssued : Step → Type 0
IsIssued (tunes id session status) = 1 ≤ session
IsIssued (phases id session mode until) = 1 ≤ session
IsIssued (goes now id session b) = 1 ≤ session
IsIssued (completes id session) = 1 ≤ session
IsIssued (ends disk now id session) = 1 ≤ session
IsIssued _ = Unit

-- A session that is read and is not 0 is there.
pub get_session-there :
    (id : Text) (s : ℕ) (m : MapperManager)
    → 1 ≤ s
    → (get_session id m == s) ≡ true
    → lookup id m.sessions ≡ some s
get_session-there id s m one h = elim (Option-cases (lookup id m.sessions)) [
  | inl e ↦ absurd (ground (arith, ap session_number e, h, one))
  | inr (t, e) ↦ e ∙ ap some (ground (arith, ap session_number e, h))
]

-- A write of a job that is not active, or has a session.
set_job-IsManaged :
    (id : Text) (job : MapperJob) (m : MapperManager)
    → (is_active job ≡ true → (s : ℕ) × (lookup id m.sessions ≡ some s))
    → IsManaged m
    → IsManaged (set_job id job m)
set_job-IsManaged id job m has i = record {
  issued = i.issued;
  apart = i.apart;
  owned = λ other j found active. elim (put_cases id other job j m.jobs found) [
    | inl (e, f) ↦
        let (s, h) = has (ap is_active f ∙ active) in (s, ap (λ k. lookup k m.sessions) (sym e) ∙ h)
    | inr (n, old) ↦ i.owned other j old active
  ];
}

-- The file has no part in it.
persist_jobs-IsManaged :
    (disk : Bool) (m : MapperManager) → IsManaged m → IsManaged (persist_jobs disk m)
persist_jobs-IsManaged true m i = record { issued = i.issued; apart = i.apart; owned = i.owned }
persist_jobs-IsManaged false m i = i

in_session-IsManaged :
    (id : Text) (s : ℕ) (edit : MapperJob → MapperJob) (m : MapperManager)
    → 1 ≤ s
    → IsManaged m
    → IsManaged (in_session id s edit m)
in_session-IsManaged id s edit m one i = elim (Bool-cases (get_session id m == s)) [
  | inl same ↦ rw same (
      set_job-IsManaged id (edit (get_job id m)) m
        (λ active. (s, get_session-there id s m one same)) i)
  | inr other ↦ rw other i
]

edit_job-IsManaged :
    (id : Text) (edit : MapperJob → MapperJob) (m : MapperManager)
    → ((job : MapperJob)
        → lookup id m.jobs ≡ some job
        → is_active (edit job) ≡ true
        → (s : ℕ) × (lookup id m.sessions ≡ some s))
    → IsManaged m
    → IsManaged (edit_job id edit m)
edit_job-IsManaged id edit m has i = elim (Option-cases (lookup id m.jobs)) [
  | inl e ↦ rw (edit_job, e) i
  | inr (job, e) ↦ rw (edit_job, e) (set_job-IsManaged id (edit job) m (has job e) i)
]

stopping_busy : (state : JobState) → is_busy (stopping_state state) ≡ is_busy state
stopping_busy running = refl
stopping_busy stopping = refl
stopping_busy idle = refl
stopping_busy in_error = refl
stopping_busy no_state = refl

-- A number above the last session is nobody's.
begin_sessions :
    (id other : Text) (s : ℕ) (m : MapperManager)
    → IsManaged m
    → lookup other (put id (m.last_session + 1) m.sessions) ≡ some s
    → ((id ≡ other) × (s ≡ m.last_session + 1)) ⊎ (lookup other m.sessions ≡ some s)
begin_sessions id other s m i h = elim (put_cases id other (m.last_session + 1) s m.sessions h) [
  | inl (e, f) ↦ inl (e, sym f)
  | inr (n, old) ↦ inr old
]

registered : Text → MapperManager → MapperManager
registered id m = record m {
  sessions = put id (m.last_session + 1) m.sessions;
  last_session = m.last_session + 1;
}

registered-IsManaged : (id : Text) (m : MapperManager) → IsManaged m → IsManaged (registered id m)
unfolding registered
registered-IsManaged id m i = record {
  issued = λ other s h. elim (begin_sessions id other s m i h) [
    | inl (e, f) ↦ (omega (arith, f), omega (arith, f))
    | inr old ↦ let (one, last) = i.issued other s old in (one, omega (arith, last))
  ];
  apart = λ one two s h k. elim (begin_sessions id one s m i h) [
    | inl (e, f) ↦ elim (begin_sessions id two s m i k) [
      | inl (e', f') ↦ sym e ∙ e'
      | inr old ↦ absurd (omega (arith, f, (i.issued two s old).1))
    ]
    | inr old ↦ elim (begin_sessions id two s m i k) [
      | inl (e', f') ↦ absurd (omega (arith, f', (i.issued one s old).1))
      | inr old' ↦ i.apart one two s old old'
    ]
  ];
  owned = λ other job h active. elim (Bool-cases (codes_eq id other)) [
    | inl same ↦ (
      m.last_session + 1,
      ap (λ k. lookup k (put id (m.last_session + 1) m.sessions))
            (sym ((codes_eq_iff id other).0 same))
          ∙ lookup-put_self id (m.last_session + 1) m.sessions,
    )
    | inr differs ↦
        let (s, old) = i.owned other job h active in
        (
          s,
          lookup-put_other id other (m.last_session + 1) m.sessions
                (λ e. absurd (ground (arith, differs, codes_eq_iff id other, e)))
              ∙ old,
        )
  ];
}

begin_job_session-IsManaged :
    (now : ℕ) (id : Text) (targets batches : ℕ) (m : MapperManager)
    → IsManaged m
    → IsManaged (begin_job_session now id targets batches m)
unfolding begin_job_session registered
begin_job_session-IsManaged now id targets batches m i =
    edit_job-IsManaged id (begun now targets batches) (registered id m)
      (λ job h active. (m.last_session + 1, lookup-put_self id (m.last_session + 1) m.sessions))
      (registered-IsManaged id m i)

-- Removing the session of a job leaves the others' in place.
close_session-IsManaged :
    (now : ℕ) (id : Text) (s : ℕ) (m : MapperManager)
    → 1 ≤ s
    → IsManaged m
    → IsManaged (close_session now id s m)
close_session-IsManaged now id s m one i = elim (Bool-cases (get_session id m == s)) [
  | inr other ↦ rw other i
  | inl same ↦
      let j =
        set_job-IsManaged id (ended_job now (get_job id m)) m
          (λ active. (s, get_session-there id s m one same)) i in
      rw same (record {
        issued = λ other t h. i.issued other t (remove_cases id other t m.sessions h).1;
        apart = λ a b t h k.
            i.apart a b t (remove_cases id a t m.sessions h).1 (remove_cases id b t m.sessions k).1;
        owned = λ other job h active.
            elim (put_cases id other (ended_job now (get_job id m)) job m.jobs h) [
              | inl (e, f) ↦ absurd (ground (arith, ap is_active f ∙ active))
              | inr (n, old) ↦
                  let (t, k) = i.owned other job old active in
                  (t, lookup-remove_other id other m.sessions n ∙ k)
            ];
      })
]

delete_job-IsManaged :
    (disk : Bool) (id : Text) (m : MapperManager) → IsManaged m → IsManaged (delete_job disk id m).1
unfolding delete_job
delete_job-IsManaged disk id m i = elim (Option-cases (lookup id m.jobs)) [
  | inl e ↦ rw (delete_job, e) i
  | inr (job, e) ↦ elim (Bool-cases (is_busy job.state)) [
    | inl busy ↦ rw (delete_job, e, busy) i
    | inr free ↦ elim (Bool-cases disk) [
      | inr fails ↦ rw (delete_job, e, free, fails) i
      | inl works ↦
          rw (delete_job, e, free, works)
            (record {
              issued = λ other t h. i.issued other t (remove_cases id other t m.sessions h).1;
              apart = λ a b t h k.
                  i.apart a b t (remove_cases id a t m.sessions h).1
                    (remove_cases id b t m.sessions k).1;
              owned = λ other j h active.
                  let (n, old) = remove_cases id other j m.jobs h in
                  let (t, k) = i.owned other j old active in
                  (t, lookup-remove_other id other m.sessions n ∙ k);
            })
    ]
  ]
]

save_job-IsManaged :
    (range_text : ℤ → ℤ → Text) (disk : Bool) (now : ℕ) (new_id : Text) (job : MapperJob)
    (m : MapperManager)
    → IsManaged m
    → IsManaged (save_job range_text disk now new_id job m).1
unfolding save_job prepared
save_job-IsManaged range_text disk now new_id job m i =
    elim (Verdict-cases (validate_mapper_scan_config job.config)) [
      | inl (e, v) ↦ rw (save_job, v) i
      | inr (config, v) ↦
          let id = job_key new_id job in
          elim (Bool-cases (is_state_running (lookup id m.jobs))) [
            | inl busy ↦ rw (save_job, v, busy) i
            | inr free ↦ elim (Bool-cases disk) [
              | inr fails ↦ rw (save_job, v, free, fails) i
              | inl works ↦
                  rw (save_job, v, free, works)
                    (persist_jobs-IsManaged true
                      (set_job id (prepared range_text now new_id config job (lookup id m.jobs)) m)
                      (set_job-IsManaged id
                        (prepared range_text now new_id config job (lookup id m.jobs)) m
                        (λ active. absurd (ground (arith, active))) i))
            ]
          ]
    ]

-- Every call keeps the sessions of the jobs in order, if each call of a run names a session that it
-- was given: the sessions are numbered apart and up to the last one, and a job that is running, is
-- stopping or shows progress has a session of its own.
pub run_step-IsManaged :
    (step : Step) (m : MapperManager) → IsIssued step → IsManaged m → IsManaged (run_step step m)
unfolding run_step update_job_tuning set_job_error mark_job_stopping set_job_phase begin_job_batch
    complete_job_pass end_job_session
run_step-IsManaged (saves range_text disk now new_id job) m h i =
    save_job-IsManaged range_text disk now new_id job m i
run_step-IsManaged (deletes disk id) m h i = delete_job-IsManaged disk id m i
run_step-IsManaged (tunes id s status) m h i =
    in_session-IsManaged id s (with_progress (λ p. record p { tuning = some status })) m h i
run_step-IsManaged (errs disk now id message) m h i =
    persist_jobs-IsManaged disk (edit_job id (failed_with now message) m) (
      edit_job-IsManaged id (failed_with now message) m
        (λ job e active. absurd (ground (arith, active))) i)
run_step-IsManaged (marks id) m h i =
    edit_job-IsManaged id stopping_job m
      (λ job e active.
        i.owned id job e
          (ap (λ b. b || job.progress.is_running) (sym (stopping_busy job.state)) ∙ active))
      i
run_step-IsManaged (begins now id targets batches) m h i =
    begin_job_session-IsManaged now id targets batches m i
run_step-IsManaged (phases id s mode until) m h i =
    in_session-IsManaged id s
      (with_progress (λ p. record p { phase_mode = mode; phase_ends = until })) m h i
run_step-IsManaged (goes now id s b) m h i = elim (Bool-cases (get_session id m == s)) [
  | inl same ↦ rw same (
      edit_job-IsManaged id (with_progress (at_batch now b)) m
        (λ job e active. (s, get_session-there id s m h same)) i)
  | inr other ↦ rw other i
]
run_step-IsManaged (completes id s) m h i =
    in_session-IsManaged id s (with_progress (λ p. record p { passes = p.passes + 1 })) m h i
run_step-IsManaged (ends disk now id s) m h i =
    persist_jobs-IsManaged disk (close_session now id s m) (close_session-IsManaged now id s m h i)
