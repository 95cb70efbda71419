-- ===== src/Events/Event.antt =====
-- server/internal/app/models.go, lines 192-253, and decoder_runner.go, lines 21-35: the fields of a
-- transmission event that the event store reads or writes. Confidences are in hundredths,
-- levels in hundredths of a dB, the tone of a squelch in hundredths of a Hz, frequencies in Hz and times in ticks: the store only compares them.
use gp_sdr.Prelude.{ℕ, Option, List}
use gp_sdr.Prelude.Int.{ℤ}
use gp_sdr.Prelude.Text.{Text}

pub record DecoderMessage : Type 0 where
  pub decoder_id : Text
  pub protocol : Text
  pub summary : Text
  pub raw_text : Text
  pub message_callsigns : List Text
  pub message_confidence : ℕ

pub record SignalIntelligence : Type 0 where
  pub analysis_modulation : Text
  pub signal_family : Text
  pub analysis_confidence : ℕ
  pub analysis_callsigns : List Text

-- The degrees are in millionths.
pub record ObservationLocation : Type 0 where
  pub latitude : ℤ
  pub longitude : ℤ
  pub place_label : Text
  pub precision : Text

pub record TransmissionEvent : Type 0 where
  pub id : Text
  pub started_at : ℕ
  pub duration_hundredths : ℕ
  pub frequency_hz : ℕ
  pub signal_dbfs : ℤ
  pub noise_dbfs : ℤ
  pub modulation : Text
  pub protocol_name : Option Text
  pub ctcss_hundredths : Option ℤ
  pub label : Option Text
  pub device_id : Text
  pub location : Option ObservationLocation
  pub system_name : Option Text
  pub transcript : Option Text
  pub callsigns : List Text
  pub analysis : Option SignalIntelligence
  pub decoder_messages : List DecoderMessage
  pub confidence : ℕ
  pub audio_path : Option Text
  pub iq_path : Option Text
  pub mapper_job_id : Text
  pub analysis_status : Text
  pub analysis_error : Text
  pub analysis_completed_at : Option ℕ
