-- ===== src/Transmit/Tests.antt =====
-- Transmit jobs on a HackRF (server/internal/app/transmit.go), run on concrete requests.
use mathlib.Core.List.{Memᴰ}
use gp_sdr.Prelude.{◌≡◌, refl, subst, true, false, none, some, List, [], ◌∷◌}
use gp_sdr.Prelude.Int.{pos, ◌≤ℤ◌}
use gp_sdr.Prelude.Text.{
  Text, codes, codes_eq, to_lower, trim_left, trim_space, is_space, equal_fold,
}
use gp_sdr.Transmit.Request.{
  finite, TransmitRequest, Device, Runtime, accepted, no_device, Cleared, clear_request,
  check_fields, check_device, normalize_mode, bad_frequency_value, default_duration, over_limit,
  find_device, plan_uses, is_busy, mapper_owns, is_hackrf, transmit_capable, is_unfit,
}
use gp_sdr.Transmit.Clearance.{IsWithin, IsSound, IsReady, IsNamed, clear_request-IsSound}
use gp_sdr.Transmit.Command.{command, Arg, flag, text, number, launch_transmit, hackrf_args}
use gp_sdr.Transmit.Job.{
  Run, Transmitter, new_transmit_state, begin_transmit, started_run, start, finish_transmit,
  complete_transmit, read_cancel, call_cancel, goes_on, Answer,
}
use gp_sdr.Transmit.Job.Order.{
  begins, finishes, completes, reads, Reachable, at_start, after, IsOrderly, Reachable-IsOrderly,
}
use gp_sdr.Transmit.Job.Safety.{Reachable-launch_transmit, old_stop-start}

abbrev hackrf : Device
hackrf = record no_device {
  device_id = codes "hackrf-1";
  kind = "HackRF";
  connected = true;
  available = true;
  frequency_minimum = 1000000;
  frequency_maximum = 6000000000;
}

abbrev bench : Runtime
bench = record {
  devices = hackrf ∷ [];
  is_running = true;
  has_active = true;
  plan = (record { plan_device = some (codes "rtl-0"); is_assigned = true }) ∷ [];
  mapper_devices = codes "rtl-0" ∷ [];
}

abbrev asked : TransmitRequest
asked = record {
  request_device = codes " hackrf-1 ";
  frequency = finite (pos 146520000);
  mode = codes " FM";
  has_audio = true;
  duration = finite (pos 0);
  tx_gain_db = pos 20;
  armed = true;
  dry_run = false;
  has_fixture = false;
}

abbrev cleared : Cleared
cleared = record {
  request = record asked { mode = codes "nfm"; duration = finite (pos 10000000) };
  device = hackrf;
}

cleared_example : clear_request bench asked ≡ accepted cleared
unfolding clear_request check_fields check_device normalize_mode bad_frequency_value
    default_duration over_limit find_device plan_uses is_busy mapper_owns is_hackrf transmit_capable
    is_unfit codes_eq to_lower trim_space trim_left is_space equal_fold
cleared_example = refl

-- The request is let through.
clear_request-IsSound_example :
    IsSound cleared.request × IsReady bench cleared.request cleared.device × IsNamed bench cleared
clear_request-IsSound_example = clear_request-IsSound bench asked cleared cleared_example

abbrev prepared : Transmitter
prepared = record new_transmit_state { generation = some cleared }

begun_example : begin_transmit bench asked new_transmit_state ≡ (prepared, goes_on)
unfolding begin_transmit new_transmit_state
begun_example = rw (begin_transmit, cleared_example) refl

abbrev file : Text
file = codes "/data/tx.cs8"

abbrev on_air : Transmitter
on_air = start cleared file prepared

begins_example : Reachable prepared
begins_example =
    subst (λ (p : Transmitter × Answer). Reachable p.0) begun_example
      (after at_start (begins bench asked))

finishes_example : Reachable on_air
unfolding finish_transmit new_transmit_state
finishes_example = after begins_example (finishes cleared (some file) refl)

Reachable-IsOrderly_example : IsOrderly on_air
Reachable-IsOrderly_example = Reachable-IsOrderly on_air finishes_example

abbrev on_air_run : Run
on_air_run = started_run cleared file 0

abbrev no_serial_args : List Arg
no_serial_args =
    flag "-t"
    ∷ text file
    ∷ flag "-f"
    ∷ number (pos 146520000)
    ∷ flag "-s"
    ∷ number (pos 2000000)
    ∷ flag "-x"
    ∷ number (pos 20)
    ∷ []

launch_example :
    launch_transmit (λ tool. true) cleared file ≡ command "hackrf_transfer" no_serial_args
unfolding launch_transmit is_hackrf equal_fold to_lower codes_eq hackrf_args
launch_example = refl

Reachable-launch_transmit_example :
    (false ≡ false)
    × (true ≡ true)
    × IsWithin 1000000 6000000000 (finite (pos 146520000))
    × IsWithin 1 120000000 (finite (pos 10000000))
    × (pos 0 ≤ℤ pos 20)
    × (pos 20 ≤ℤ pos 89)
    × (is_hackrf "HackRF" ≡ true → pos 20 ≤ℤ pos 47)
    × (transmit_capable hackrf ≡ true)
unfolding new_transmit_state
Reachable-launch_transmit_example =
    Reachable-launch_transmit (λ tool. true) on_air on_air_run "hackrf_transfer" no_serial_args
      finishes_example (Memᴰ.head refl) launch_example

-- The stop reads the context of the first job, which ends before the cancel function is called.
abbrev stopping : Transmitter
stopping = record on_air { stops = 0 ∷ [] }

abbrev between : Transmitter
between = complete_transmit on_air_run none stopping

abbrev prepared_again : Transmitter
prepared_again = record between { generation = some cleared }

reads_example : Reachable stopping
unfolding read_cancel new_transmit_state
reads_example = after finishes_example reads

again_example : begin_transmit bench asked between ≡ (prepared_again, goes_on)
unfolding begin_transmit complete_transmit
again_example = rw (begin_transmit, cleared_example) refl

prepared_again_example : Reachable prepared_again
unfolding new_transmit_state
prepared_again_example =
    subst (λ (p : Transmitter × Answer). Reachable p.0) again_example
      (after (after reads_example (completes on_air_run none (Memᴰ.head refl)))
        (begins bench asked))

old_stop-start_example :
    (call_cancel 0 (finish_transmit cleared (some file) prepared_again).0).runs
    ≡ started_run cleared file 1 ∷ []
unfolding complete_transmit new_transmit_state
old_stop-start_example =
    old_stop-start prepared_again cleared file 0 prepared_again_example refl (Memᴰ.head refl)
