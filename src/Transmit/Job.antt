-- ===== src/Transmit/Job.antt =====
-- server/internal/app/transmit.go, lines 32-55, 93-103, 185-281 and 290-301: the life of a transmit
-- job. `Transmit` holds the generation lock while it prepares a waveform, so it is two steps here;
-- `StopTransmit` reads the cancel function under the lock and calls it after, so it is two as well.
-- A context is a number, fresh at each job; a time is not kept. The waveform's file comes from
-- outside as the path it is saved at, or as an error.
pub mod Order
pub mod Safety
use Prim.Native.String.{String}
use gp_sdr.Prelude.{
  ℕ, zero, suc, ◌+◌, Bool, true, false, ◌==◌, Option, none, some, List, [], ◌∷◌, map, ltb,
  if◌then◌else◌,
}
use gp_sdr.Prelude.Int.{ℤ, pos, negsuc}
use gp_sdr.Prelude.Text.{Text, codes}
use gp_sdr.Transmit.Request.{
  Float, nan, infinity, finite, TransmitRequest, Device, Runtime, TransmitError, preparing,
  already_running, generation_failed, Checked, accepted, rejected, Cleared, clear_request,
}

pub data State : Type 0 where
  idle running stopped failed complete : State

pub data Note : Type 0 where
  receive_only iq_generated stopped_by_user dry_run_complete transmit_completed : Note
  tool_error : String → Note

pub record TransmitStatus : Type 0 where
  pub state : State
  pub note : Note
  pub status_device : Text
  pub status_frequency : Float
  pub status_mode : Text
  pub is_finished : Bool
  pub iq_path : Text
  pub samples : ℕ
  pub is_dry_run : Bool

-- A goroutine of `runTransmit`: its context, whether that was cancelled, and what it was started with.
pub record Run : Type 0 where
  pub context : ℕ
  pub is_cancelled : Bool
  pub cleared : Cleared
  pub path : Text
  pub started : TransmitStatus

-- `transmitState`, with the request that holds the generation lock, the goroutines, the next context
-- and the contexts that calls of `StopTransmit` have read and not yet cancelled.
pub record Transmitter : Type 0 where
  pub generation : Option Cleared
  pub status : TransmitStatus
  pub cancel : Option ℕ
  pub runs : List Run
  pub next_context : ℕ
  pub stops : List ℕ

abbrev pub idle_status : TransmitStatus
idle_status = record {
  state = idle;
  note = receive_only;
  status_device = [];
  status_frequency = finite (pos 0);
  status_mode = [];
  is_finished = false;
  iq_path = [];
  samples = 0;
  is_dry_run = false;
}

unfoldable pub new_transmit_state : Transmitter
new_transmit_state = record {
  generation = none;
  status = idle_status;
  cancel = none;
  runs = [];
  next_context = 0;
  stops = [];
}

-- A call that returns with `TransmitStatus()` and an error or none, or that goes on.
pub data Answer : Type 0 where
  returns : TransmitStatus → Option TransmitError → Answer
  goes_on : Answer

abbrev pub fail : Transmitter → TransmitError → Transmitter × Answer
fail t e = (t, returns t.status (some e))

-- `Transmit` up to the waveform.
unfoldable pub begin_transmit : Runtime → TransmitRequest → Transmitter → Transmitter × Answer
begin_transmit runtime request t = elim t.generation [
  | some other ↦ fail t preparing
  | none ↦ elim t.cancel [
    | some context ↦ fail t already_running
    | none ↦ elim (clear_request runtime request) [
      | rejected e ↦ fail t e
      | accepted c ↦ (record t { generation = some c }, goes_on)
    ]
  ]
]

-- `int(math.Round(request.DurationSecond * 2_000_000))`, at least 1.
unfoldable pub sample_count : Float → ℕ
sample_count (finite (pos n)) = if ltb n 1 then 2000000 else n
sample_count _ = 2000000

abbrev pub running_status : Cleared → Text → TransmitStatus
running_status c path = record {
  state = running;
  note = iq_generated;
  status_device = c.device.device_id;
  status_frequency = c.request.frequency;
  status_mode = c.request.mode;
  is_finished = false;
  iq_path = path;
  samples = sample_count c.request.duration;
  is_dry_run = c.request.dry_run;
}

abbrev pub started_run : Cleared → Text → ℕ → Run
started_run c path context = record {
  context = context;
  is_cancelled = false;
  cleared = c;
  path = path;
  started = running_status c path;
}

abbrev pub start : Cleared → Text → Transmitter → Transmitter
start c path t = record t {
  generation = none;
  status = running_status c path;
  cancel = some t.next_context;
  runs = started_run c path t.next_context ∷ t.runs;
  next_context = 1 + t.next_context;
}

-- `Transmit` from the waveform on. It gives the lock back on every way out.
unfoldable pub finish_transmit : Cleared → Option Text → Transmitter → Transmitter × Answer
finish_transmit c none t = fail (record t { generation = none }) generation_failed
finish_transmit c (some path) t = elim t.cancel [
  | some context ↦ fail (record t { generation = none }) already_running
  | none ↦ (start c path t, returns (running_status c path) none)
]

-- How a job ends: by its context, by the command's error, or well.
abbrev pub ended : Run → Option String → TransmitStatus
ended run error =
    let finished : TransmitStatus = record run.started { is_finished = true } in
    if run.is_cancelled
    then (record finished { state = stopped; note = stopped_by_user })
    else elim error [
      | some e ↦ record finished { state = failed; note = tool_error e }
      | none ↦
          if run.cleared.request.dry_run
          then (record finished { state = complete; note = dry_run_complete })
          else (record finished { state = complete; note = transmit_completed })
    ]

abbrev pub without : ℕ → List Run → List Run
without context [] = []
without context (run ∷ runs) =
    let rest = without context runs in if run.context == context then rest else run ∷ rest

-- The end of `runTransmit`.
unfoldable pub complete_transmit : Run → Option String → Transmitter → Transmitter
complete_transmit run error t = record t {
  status = ended run error;
  cancel = none;
  runs = without run.context t.runs;
}

-- `StopTransmit` up to the unlock.
unfoldable pub read_cancel : Transmitter → Transmitter
read_cancel t = elim t.cancel [ none ↦ t | some context ↦ record t { stops = context ∷ t.stops } ]

abbrev pub cancel_run : ℕ → Run → Run
cancel_run context run =
    if run.context == context then (record run { is_cancelled = true }) else run

abbrev pub drop_stop : ℕ → List ℕ → List ℕ
drop_stop context [] = []
drop_stop context (c ∷ stops) =
    let rest = drop_stop context stops in if c == context then stops else c ∷ rest

-- The call of the cancel function.
unfoldable pub call_cancel : ℕ → Transmitter → Transmitter
call_cancel context t = record t {
  runs = map (cancel_run context) t.runs;
  stops = drop_stop context t.stops;
}
