-- ===== src/Transmit/Job/Order.antt =====
-- What holds of every sequence of transmit calls, stops and ends of jobs
-- (server/internal/app/transmit.go), whatever the order in which they interleave.
use Prim.Native.String.{String}
use mathlib.Core.List.{Memᴰ}
use mathlib.Core.List.Memᴰ
use gp_sdr.Prelude.{
  ℕ, ◌<◌, ◌≡◌, ◌≢◌, refl, ap, ◌∙◌, subst, ◌⊎◌, inl, inr, ◌==◌, Option, none, some, List, [], ◌∷◌,
  arith, Bool-cases, Option-cases, ==_iff,
}
use gp_sdr.Prelude.Text.{Text}
use gp_sdr.Transmit.Request.{
  TransmitRequest, Runtime, TransmitError, Checked, accepted, rejected, Cleared, clear_request,
  preparing, already_running,
}
use gp_sdr.Transmit.Job.{
  running, Run, Transmitter, new_transmit_state, goes_on, fail, begin_transmit, running_status,
  started_run, start, finish_transmit, ended, without, complete_transmit, read_cancel, cancel_run,
  drop_stop, call_cancel,
}

-- One step of the transmitter: a call, the end of a job, or either half of a stop.
pub data Step (t : Transmitter) : Transmitter → Type 0 where
  begins :
      (runtime : Runtime) (request : TransmitRequest) → Step t (begin_transmit runtime request t).0
  finishes :
      (c : Cleared) (waveform : Option Text)
      → t.generation ≡ some c
      → Step t (finish_transmit c waveform t).0
  completes :
      (run : Run) (error : Option String) → Memᴰ run t.runs → Step t (complete_transmit run error t)
  reads : Step t (read_cancel t)
  cancels : (context : ℕ) → Memᴰ context t.stops → Step t (call_cancel context t)

pub data Reachable : Transmitter → Type 0 where
  at_start : Reachable new_transmit_state
  after : {t u : Transmitter} → Reachable t → Step t u → Reachable u

-- A runtime let the request through.
abbrev pub WasCleared : Cleared → Type 0
WasCleared c =
    (runtime : Runtime) × (request : TransmitRequest) × (clear_request runtime request ≡ accepted c)

-- No job, and no status that says there is one; or one, which the cancel function is of.
pub data HasJob (t : Transmitter) : Type 0 where
  no_job : t.cancel ≡ none → t.runs ≡ [] → t.status.state ≢ running → HasJob t
  one_job :
      (run : Run)
      → t.cancel ≡ some run.context
      → t.runs ≡ run ∷ []
      → t.status ≡ running_status run.cleared run.path
      → run.started ≡ running_status run.cleared run.path
      → run.context < t.next_context
      → WasCleared run.cleared
      → HasJob t

pub record IsOrderly (t : Transmitter) : Type 0 where
  pub job : HasJob t
  pub alone : (c : Cleared) → t.generation ≡ some c → (t.cancel ≡ none) × WasCleared c
  pub old_stops : (context : ℕ) → Memᴰ context t.stops → context < t.next_context

start-IsOrderly : IsOrderly new_transmit_state
unfolding new_transmit_state
start-IsOrderly = record {
  job = no_job refl refl (λ e. cc);
  alone = λ c e. cc;
  old_stops = λ context m. absurd (Memᴰ.not-nil m);
}

-- A call that begins is refused with nothing changed, or takes the lock with a request that was let
-- through where there is no job.
pub data Begun (runtime : Runtime) (request : TransmitRequest) (t : Transmitter) : Type 0 where
  refused :
      (e : TransmitError) → begin_transmit runtime request t ≡ fail t e → Begun runtime request t
  prepares :
      (c : Cleared)
      → t.generation ≡ none
      → t.cancel ≡ none
      → clear_request runtime request ≡ accepted c
      → begin_transmit runtime request t ≡ (record t { generation = some c }, goes_on)
      → Begun runtime request t

Checked-cases :
    {A : Type 0} (r : Checked A)
    → ((e : TransmitError) × (r ≡ rejected e)) ⊎ ((a : A) × (r ≡ accepted a))
Checked-cases (accepted a) = inr (a, refl)
Checked-cases (rejected e) = inl (e, refl)

pub begin_cases :
    (runtime : Runtime) (request : TransmitRequest) (t : Transmitter) → Begun runtime request t
unfolding begin_transmit
begin_cases runtime request t = elim (Option-cases t.generation) [
  | inr (other, g) ↦ refused preparing (simp (begin_transmit, g))
  | inl g ↦ elim (Option-cases t.cancel) [
    | inr (context, k) ↦ refused already_running (simp (begin_transmit, g, k))
    | inl k ↦ elim (Checked-cases (clear_request runtime request)) [
      | inl (e, r) ↦ refused e (simp (begin_transmit, g, k, r))
      | inr (c, r) ↦ prepares c g k r (simp (begin_transmit, g, k, r))
    ]
  ]
]

begin-IsOrderly :
    (runtime : Runtime) (request : TransmitRequest) (t : Transmitter)
    → IsOrderly t
    → IsOrderly (begin_transmit runtime request t).0
begin-IsOrderly runtime request t o = elim (begin_cases runtime request t) [
  | refused e h ↦ rw h o
  | prepares c g k r h ↦
      let next : IsOrderly (record t { generation = some c }) = record {
        job = elim o.job [
          | no_job a b d ↦ no_job a b d
          | one_job run a b d e f w ↦ one_job run a b d e f w
        ];
        alone = λ d e. (k, (runtime, request, cc));
        old_stops = o.old_stops;
      } in
      rw h next
]

abbrev released : Transmitter → Transmitter
released t = record t { generation = none }

released-IsOrderly : (t : Transmitter) → IsOrderly t → IsOrderly (released t)
released-IsOrderly t o = record {
  job = elim o.job [
    | no_job a b d ↦ no_job a b d
    | one_job run a b d e f w ↦ one_job run a b d e f w
  ];
  alone = λ c e. cc;
  old_stops = o.old_stops;
}

pub no_runs : (t : Transmitter) → HasJob t → t.cancel ≡ none → t.runs ≡ []
no_runs t j k = elim j [ no_job a b d ↦ b | one_job run a b d e f w ↦ cc ]

finish-IsOrderly :
    (c : Cleared) (waveform : Option Text) (t : Transmitter)
    → t.generation ≡ some c
    → IsOrderly t
    → IsOrderly (finish_transmit c waveform t).0
unfolding finish_transmit
finish-IsOrderly c none t g o = released-IsOrderly t o
finish-IsOrderly c (some path) t g o =
    let (k, w) = o.alone c g in
    let empty = no_runs t o.job k in
    let next : IsOrderly (start c path t) = record {
      job =
          one_job (started_run c path t.next_context) refl (rw empty refl) refl refl (omega arith)
            w;
      alone = λ d e. cc;
      old_stops = λ context m. ground (arith, o.old_stops context m);
    } in
    rw (finish_transmit, k) next

pub only : {run other : Run} {runs : List Run} → runs ≡ other ∷ [] → Memᴰ run runs → run ≡ other
only e m = Memᴰ.eq_of_singleton (subst (Memᴰ _) e m)

pub without_only : (run : Run) → without run.context (run ∷ []) ≡ []
without_only run = rw ((==_iff run.context run.context).1 refl) refl

ended_state : (run : Run) (error : Option String) → (ended run error).state ≢ running
ended_state run error = elim (Bool-cases run.is_cancelled) [
  | inl b ↦ λ e. absurd (ground (arith, b))
  | inr b ↦ elim error [
    | some x ↦ λ e. absurd (ground (arith, b))
    | none ↦ elim (Bool-cases run.cleared.request.dry_run) [
      | inl d ↦ λ e. absurd (ground (arith, b, d))
      | inr d ↦ λ e. absurd (ground (arith, b, d))
    ]
  ]
]

complete-IsOrderly :
    (run : Run) (error : Option String) (t : Transmitter)
    → Memᴰ run t.runs
    → IsOrderly t
    → IsOrderly (complete_transmit run error t)
unfolding complete_transmit
complete-IsOrderly run error t m o = elim o.job [
  | no_job a b d ↦ absurd (Memᴰ.not-nil (subst (Memᴰ _) b m))
  | one_job other a b d e f w ↦
      let same = only b m in
      record {
        job =
            no_job refl (ap (without run.context) b ∙ rw same (without_only other))
              (ended_state run error);
        alone = λ c g. (refl, (o.alone c g).1);
        old_stops = o.old_stops;
      }
]

read-IsOrderly : (t : Transmitter) → IsOrderly t → IsOrderly (read_cancel t)
unfolding read_cancel
read-IsOrderly t o = elim o.job [
  | no_job a b d ↦ rw (read_cancel, a) o
  | one_job run a b d e f w ↦
      let next : IsOrderly (record t { stops = run.context ∷ t.stops }) = record {
        job = one_job run a b d e f w;
        alone = o.alone;
        old_stops =
            λ context m. elim m [ Memᴰ.head q ↦ rw q f | Memᴰ.tail q ↦ o.old_stops context q ];
      } in
      rw (read_cancel, a) next
]

dropped_mem :
    (context : ℕ) {x : ℕ} (stops : List ℕ) → Memᴰ x (drop_stop context stops) → Memᴰ x stops
dropped_mem context [] m = m
dropped_mem context (c ∷ stops) m = elim (Bool-cases (c == context)) [
  | inl b ↦ let m1 : Memᴰ _ stops = rw b at m in Memᴰ.tail m1
  | inr b ↦
      let m1 : Memᴰ _ (c ∷ drop_stop context stops) = rw b at m in
      elim m1 [ Memᴰ.head q ↦ Memᴰ.head q | Memᴰ.tail q ↦ Memᴰ.tail (dropped_mem context stops q) ]
]

-- What a cancellation leaves of a goroutine.
cancel_run-keeps :
    (context : ℕ) (run : Run)
    → ((cancel_run context run).context ≡ run.context)
      × ((cancel_run context run).cleared ≡ run.cleared)
      × ((cancel_run context run).path ≡ run.path)
      × ((cancel_run context run).started ≡ run.started)
cancel_run-keeps context run = elim (Bool-cases (run.context == context)) [
  | inl b ↦ rw b (refl, refl, refl, refl)
  | inr b ↦ rw b (refl, refl, refl, refl)
]

cancel-IsOrderly : (context : ℕ) (t : Transmitter) → IsOrderly t → IsOrderly (call_cancel context t)
unfolding call_cancel
cancel-IsOrderly context t o = record {
  job = elim o.job [
    | no_job a b d ↦ no_job a (rw b refl) d
    | one_job run a b d e f w ↦
        let (q, r, p, s) = cancel_run-keeps context run in
        one_job (cancel_run context run) (rw q a) (rw b refl) (rw (r, p) d) (rw (r, p, s) e)
          (rw q f) (rw r w)
  ];
  alone = o.alone;
  old_stops = λ c m. o.old_stops c (dropped_mem context t.stops m);
}

Step-IsOrderly : (t u : Transmitter) → IsOrderly t → Step t u → IsOrderly u
Step-IsOrderly t u o (begins runtime request) = begin-IsOrderly runtime request t o
Step-IsOrderly t u o (finishes c waveform g) = finish-IsOrderly c waveform t g o
Step-IsOrderly t u o (completes run error m) = complete-IsOrderly run error t m o
Step-IsOrderly t u o reads = read-IsOrderly t o
Step-IsOrderly t u o (cancels context m) = cancel-IsOrderly context t o

-- In every state that calls of `Transmit`, stops and ends of jobs lead to, in any order: there is no
-- goroutine, no cancel function and no status "running", or there is one goroutine, the cancel
-- function is of its context, and the status is the one that it started with; a request that holds
-- the generation lock was let through, and then there is no cancel function; and no stop has read a
-- context that a later job will have.
pub Reachable-IsOrderly : (t : Transmitter) → Reachable t → IsOrderly t
Reachable-IsOrderly t at_start = start-IsOrderly
Reachable-IsOrderly t (after {t = s} r h) = Step-IsOrderly s t (Reachable-IsOrderly s r) h
