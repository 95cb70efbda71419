-- ===== src/Events/Signals.antt =====
-- server/internal/app/store.go, lines 681-713: the summary of the events on one frequency. The key
-- fmt.Sprintf("%.0f") of a frequency is the frequency itself, in whole Hz.
use gp_sdr.Prelude.{ℕ, ◌+◌, Option, none, some, List, [], ◌∷◌, ltb, leb, ◌==◌, if◌then◌else◌}
use gp_sdr.Prelude.Int.{ℤ, ltb_ℤ}
use gp_sdr.Prelude.Text.{Text}
use gp_sdr.Events.Event.{ObservationLocation, TransmissionEvent}

pub record SignalSummary : Type 0 where
  pub summary_hz : ℕ
  pub first_seen : ℕ
  pub last_seen : ℕ
  pub event_count : ℕ
  pub strongest_dbfs : ℤ
  pub summary_modulation : Text
  pub summary_protocol : Option Text
  pub summary_label : Option Text
  pub summary_confidence : ℕ
  pub summary_location : Option ObservationLocation
  pub summary_ctcss : Option ℤ

abbrev first_summary : TransmissionEvent → SignalSummary
first_summary event = record {
  summary_hz = event.frequency_hz;
  first_seen = event.started_at;
  last_seen = event.started_at;
  event_count = 1;
  strongest_dbfs = event.signal_dbfs;
  summary_modulation = event.modulation;
  summary_protocol = event.protocol_name;
  summary_label = event.label;
  summary_confidence = event.confidence;
  summary_location = event.location;
  summary_ctcss = event.ctcss_hundredths;
}

-- What the event has, or else what the summary had.
abbrev or_old : {A : Type 0} → Option A → Option A → Option A
or_old none old = old
or_old (some new) old = some new

identify : TransmissionEvent → SignalSummary → SignalSummary
identify event summary =
    if leb summary.summary_confidence event.confidence
    then record summary {
      summary_modulation = event.modulation;
      summary_protocol = event.protocol_name;
      summary_label = or_old event.label summary.summary_label;
      summary_confidence = event.confidence;
    }
    else summary

unfoldable pub extend_summary : TransmissionEvent → SignalSummary → SignalSummary
unfolding identify
extend_summary event summary = identify event (record summary {
  first_seen =
      if ltb event.started_at summary.first_seen then event.started_at else summary.first_seen;
  last_seen =
      if ltb summary.last_seen event.started_at then event.started_at else summary.last_seen;
  event_count = summary.event_count + 1;
  strongest_dbfs =
      if ltb_ℤ summary.strongest_dbfs event.signal_dbfs
      then event.signal_dbfs
      else summary.strongest_dbfs;
  summary_location = or_old event.location summary.summary_location;
  summary_ctcss = or_old event.ctcss_hundredths summary.summary_ctcss;
})

unfoldable pub aggregate : List SignalSummary → TransmissionEvent → List SignalSummary
unfolding extend_summary
aggregate [] event = first_summary event ∷ []
aggregate (summary ∷ signals) event =
    if summary.summary_hz == event.frequency_hz
    then extend_summary event summary ∷ signals
    else summary ∷ aggregate signals event

unfoldable pub aggregate_all : List SignalSummary → List TransmissionEvent → List SignalSummary
unfolding aggregate
aggregate_all signals [] = signals
aggregate_all signals (event ∷ events) = aggregate_all (aggregate signals event) events
