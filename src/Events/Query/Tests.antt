-- ===== src/Events/Query/Tests.antt =====
-- Searches of server/internal/app/store.go in a small history.
use gp_sdr.Prelude.{ℕ, ◌≡◌, refl, true, none, some, List, [], ◌∷◌, take, reverse}
use gp_sdr.Prelude.Int.{pos, negsuc}
use gp_sdr.Prelude.Text.{Text, codes, has_prefix}
use gp_sdr.Events.Text.{contains_text, search_tokens}
use gp_sdr.Events.Event.{TransmissionEvent}
use gp_sdr.Events.Index.{empty_index, has_pair, tokens_of}
use gp_sdr.Events.Store.{EventStore, clean, written, piece, append_event, set_transcript, run_call}
use gp_sdr.Events.Query.{clamp_limit, search}
use gp_sdr.Events.Query.Search.{finds, finds_all, select}
use gp_sdr.Events.Query.Noted.{IsSearchable}
use gp_sdr.Events.Query.Calls.{run_call-IsSearchable}
use gp_sdr.Events.Query.Scan.{is_found, search-scan}

abbrev heard : TransmissionEvent
heard = record {
  id = codes "e1";
  started_at = 10;
  duration_hundredths = 150;
  frequency_hz = 162550000;
  signal_dbfs = negsuc 4199;
  noise_dbfs = negsuc 7999;
  modulation = codes "nfm";
  protocol_name = none;
  label = some (codes "Weather Radio");
  device_id = codes "rtl";
  location = none;
  ctcss_hundredths = none;
  system_name = none;
  transcript = none;
  callsigns = [];
  analysis = none;
  decoder_messages = [];
  confidence = 50;
  audio_path = none;
  iq_path = none;
  mapper_job_id = [];
  analysis_status = [];
  analysis_error = [];
  analysis_completed_at = none;
}

abbrev megahertz : ℕ → Text
megahertz f = codes "162"

abbrev no_callsigns : Text → List Text
no_callsigns s = []

abbrev silence : EventStore
silence = record {
  events = [];
  positions = [];
  index = empty_index;
  signals = [];
  base = record { rows = []; tail = clean };
  updates = record { rows = []; tail = clean };
}

silence-IsSearchable : IsSearchable megahertz silence
unfolding has_pair tokens_of contains_text
silence-IsSearchable = record { coherent = λ token id. refl; noted = tt; distinct = tt }

abbrev history : EventStore
history = (run_call megahertz no_callsigns silence (append_event heard) written).0

history-IsSearchable : IsSearchable megahertz history
history-IsSearchable =
    run_call-IsSearchable megahertz no_callsigns silence (append_event heard) written
      silence-IsSearchable tt

-- The write of the update fails; memory and index have the transcript all the same.
run_call-IsSearchable_example :
    IsSearchable megahertz
      (run_call megahertz no_callsigns history
        (set_transcript (codes "e1") (codes "storm warning"))
        piece).0
run_call-IsSearchable_example =
    run_call-IsSearchable megahertz no_callsigns history
      (set_transcript (codes "e1") (codes "storm warning")) piece history-IsSearchable tt

search-scan_example :
    search history (codes "RADIO nf") (pos 10)
    ≡ take
        (clamp_limit (pos 10))
        (select (is_found megahertz (search_tokens (codes "RADIO nf"))) (reverse history.events))
search-scan_example = search-scan megahertz history (codes "RADIO nf") (pos 10) history-IsSearchable

abbrev terms : List Text
terms = codes "radio" ∷ codes "nf" ∷ []

found_example : finds_all terms (codes "e1" ∷ codes "nfm" ∷ codes "radio" ∷ []) ≡ true
unfolding finds_all finds has_prefix
found_example = refl
