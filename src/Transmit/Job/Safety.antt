-- ===== src/Transmit/Job/Safety.antt =====
-- What a transmit job may do, and when (server/internal/app/transmit.go).
use Prim.Native.String.{String}
use mathlib.Core.List.{Memᴰ}
use mathlib.Core.List.Memᴰ
use gp_sdr.Prelude.{
  ℕ, ◌<◌, ◌≡◌, ◌≢◌, refl, sym, ap, ◌∙◌, subst, inl, inr, Bool, true, false, ◌==◌, Option, none,
  some, List, [], ◌∷◌, map, arith, Bool-cases, Option-cases, ==_iff,
}
use gp_sdr.Prelude.Text.{Text}
use gp_sdr.Transmit.Request.{
  TransmitRequest, Runtime, TransmitError, Cleared, is_hackrf, transmit_capable,
}
use gp_sdr.Prelude.Int.{pos, ◌≤ℤ◌}
use gp_sdr.Transmit.Clearance.{IsWithin, clear_request-IsSound}
use gp_sdr.Transmit.Command.{command, Arg, launch_transmit}
use gp_sdr.Transmit.Job.{
  stopped, TransmitStatus, Run, Transmitter, returns, goes_on, begin_transmit, running_status,
  started_run, start, finish_transmit, without, complete_transmit, read_cancel, cancel_run,
  call_cancel,
}
use gp_sdr.Transmit.Job.Order.{
  Reachable, WasCleared, no_job, one_job, refused, prepares, begin_cases, no_runs, only,
  without_only, Reachable-IsOrderly,
}

launched_armed :
    (installed : String → Bool) (c : Cleared) (path : Text) {tool : String} {args : List Arg}
    → launch_transmit installed c path ≡ command tool args
    → c.request.dry_run ≡ false
unfolding launch_transmit
launched_armed installed c path h = elim (Bool-cases c.request.dry_run) [
  | inl d ↦ absurd (ground (arith, d))
  | inr d ↦ d
]

-- A job of a reachable state that runs a command, which is how RF is sent, was started by a request
-- that is no dry run and was armed, with a frequency from 1 MHz to 6 GHz, a length of at most a
-- minute and a gain from 0 to 89 dB, 47 for a HackRF, on a device that can transmit.
pub Reachable-launch_transmit :
    (installed : String → Bool) (t : Transmitter) (run : Run) (tool : String) (args : List Arg)
    → Reachable t
    → Memᴰ run t.runs
    → launch_transmit installed run.cleared run.path ≡ command tool args
    → (run.cleared.request.dry_run ≡ false)
      × (run.cleared.request.armed ≡ true)
      × IsWithin 1000000 6000000000 run.cleared.request.frequency
      × IsWithin 1 120000000 run.cleared.request.duration
      × (pos 0 ≤ℤ run.cleared.request.tx_gain_db)
      × (run.cleared.request.tx_gain_db ≤ℤ pos 89)
      × (is_hackrf run.cleared.device.kind ≡ true → run.cleared.request.tx_gain_db ≤ℤ pos 47)
      × (transmit_capable run.cleared.device ≡ true)
Reachable-launch_transmit installed t run tool args r m h = elim (Reachable-IsOrderly t r).job [
  | no_job a b d ↦ absurd (Memᴰ.not-nil (subst (Memᴰ _) b m))
  | one_job other a b d e f w ↦
      let (runtime, request, k) : WasCleared run.cleared = rw (only b m) w in
      let (sound, ready, named) = clear_request-IsSound runtime request run.cleared k in
      let dry = launched_armed installed run.cleared run.path h in
      let (x0, x1, x2, capable, x4, x5) = ready.at_hand dry in
      (
        dry,
        sound.arming dry,
        sound.frequency,
        sound.duration,
        sound.gain.0,
        sound.gain.1,
        ready.hackrf_limit,
        capable,
      )
]

-- Where a reachable state has a request prepared and its waveform is saved, `Transmit` starts the
-- job and answers with its status: the second check for a job never refuses.
pub finish_transmit-starts :
    (t : Transmitter) (c : Cleared) (path : Text)
    → Reachable t
    → t.generation ≡ some c
    → finish_transmit c (some path) t ≡ (start c path t, returns (running_status c path) none)
unfolding finish_transmit
finish_transmit-starts t c path r g =
    let k = ((Reachable-IsOrderly t r).alone c g).0 in simp (finish_transmit, k)

-- A call of `Transmit` that is refused before the waveform changes nothing and answers with the
-- status that there is.
pub begin_transmit_error :
    (runtime : Runtime) (request : TransmitRequest) (t : Transmitter) (s : TransmitStatus)
    (e : Option TransmitError)
    → (begin_transmit runtime request t).1 ≡ returns s e
    → ((begin_transmit runtime request t).0 ≡ t) × (s ≡ t.status) × (e ≢ none)
begin_transmit_error runtime request t s e h = elim (begin_cases runtime request t) [
  | refused x q ↦
      let k : returns t.status (some x) ≡ returns s e = sym (ap (λ p. p.1) q) ∙ h in
      (ap (λ p. p.0) q, cc, λ n. cc)
  | prepares c g n k q ↦
      let bad : goes_on ≡ returns s e = sym (ap (λ p. p.1) q) ∙ h in absurd (ground (arith, bad))
]

read_cancel-runs : (t : Transmitter) → (read_cancel t).runs ≡ t.runs
unfolding read_cancel
read_cancel-runs t = elim (Option-cases t.cancel) [
  | inl k ↦ simp (read_cancel, k)
  | inr (context, k) ↦ simp (read_cancel, k)
]

only_run : (t : Transmitter) (run : Run) → Reachable t → Memᴰ run t.runs → t.runs ≡ run ∷ []
only_run t run r m = elim (Reachable-IsOrderly t r).job [
  | no_job a b d ↦ absurd (Memᴰ.not-nil (subst (Memᴰ _) b m))
  | one_job other a b d e f w ↦ b ∙ ap (λ x. x ∷ []) (sym (only b m))
]

cancel_run_self : (run : Run) → cancel_run run.context run ≡ record run { is_cancelled = true }
cancel_run_self run = let k = (==_iff run.context run.context).1 refl in simp k

cancel_run-other : (context : ℕ) (run : Run) → context < run.context → cancel_run context run ≡ run
cancel_run-other context run h =
    let k : (run.context == context) ≡ false = ground (arith, ==_iff run.context context) in simp k

-- In a reachable state where a job runs, a stop that reads the cancel function and calls it, and
-- then the end of the job, whatever its command's error, leave the status "stopped", no goroutine
-- and no cancel function, so that a request can be let through again.
pub stop_complete :
    (t : Transmitter) (run : Run) (error : Option String)
    → Reachable t
    → Memᴰ run t.runs
    → let u = call_cancel run.context (read_cancel t) in
      let v = complete_transmit (cancel_run run.context run) error u in
      (u.runs ≡ cancel_run run.context run ∷ [])
      × (v.status.state ≡ stopped)
      × (v.cancel ≡ none)
      × (v.runs ≡ [])
unfolding call_cancel read_cancel complete_transmit
stop_complete t run error r m =
    let e : (read_cancel t).runs ≡ run ∷ [] = read_cancel-runs t ∙ only_run t run r m in
    let k = (==_iff run.context run.context).1 refl in
    (
      ap (map (cancel_run run.context)) e,
      simp k,
      refl,
      ap (λ l. without (cancel_run run.context run).context (map (cancel_run run.context) l)) e
          ∙ without_only (cancel_run run.context run),
    )

-- A stop whose context was read before a job started does not cancel that job: in a reachable state
-- with a request prepared, the call of a cancel function that was read leaves the job that
-- `Transmit` starts as it is.
pub old_stop-start :
    (t : Transmitter) (c : Cleared) (path : Text) (context : ℕ)
    → Reachable t
    → t.generation ≡ some c
    → Memᴰ context t.stops
    → (call_cancel context (finish_transmit c (some path) t).0).runs
      ≡ started_run c path t.next_context ∷ []
unfolding call_cancel
old_stop-start t c path context r g m =
    let o = Reachable-IsOrderly t r in
    let started = finish_transmit-starts t c path r g in
    let empty = no_runs t o.job (o.alone c g).0 in
    ap (λ p. map (cancel_run context) p.0.runs) started
    ∙ ap (λ l. map (cancel_run context) (started_run c path t.next_context ∷ l)) empty
    ∙ ap (λ x. x ∷ [])
        (cancel_run-other context (started_run c path t.next_context) (o.old_stops context m))
