-- ===== src/Transmit/Command.antt =====
-- server/internal/app/transmit.go, lines 240-264 and 283-288, and server/internal/app/capture.go,
-- lines 142-152: the command that a transmit job runs.
use Prim.Native.String.{String}
use gp_sdr.Prelude.{Bool, not, ◌++◌, ◌==◌, Option, none, some, List, [], ◌∷◌, if◌then◌else◌}
use gp_sdr.Prelude.Int.{ℤ, pos}
use gp_sdr.Prelude.Text.{Text, codes, codes_eq, trim_space}
use gp_sdr.Transmit.Request.{Float, finite, TransmitRequest, Device, is_hackrf, Cleared}

-- An argument: a flag, a text, or a number in decimal.
pub data Arg : Type 0 where
  flag : String → Arg
  text : Text → Arg
  number : ℤ → Arg

-- What the job's goroutine does first: nothing for a dry run, an error where the tool is not
-- installed, or a command.
pub data Launch : Type 0 where
  nothing : Launch
  missing_tool : String → Launch
  command : String → List Arg → Launch

-- `strings.TrimPrefix`: what is left of a text after a prefix, if it starts with it.
abbrev pub strip : Text → Text → Option Text
strip [] source = some source
strip (c ∷ prefix) [] = none
strip (c ∷ prefix) (d ∷ source) = let rest = strip prefix source in if c == d then rest else none

unfoldable pub trim_prefix : Text → Text → Text
trim_prefix prefix source = elim (strip prefix source) [ none ↦ source | some rest ↦ rest ]

abbrev pub serial_of : Device → Text
serial_of device = elim device.serial [ none ↦ [] | some serial ↦ serial ]

unfoldable pub soapy_device_arguments : Device → Text
unfolding codes_eq trim_space
soapy_device_arguments device =
    let driver = codes "driver=" ++ trim_prefix (codes "SoapySDR:") device.driver in
    if not (codes_eq (trim_space device.device_arguments) [])
    then device.device_arguments
    else if not (codes_eq (serial_of device) [])
    then driver ++ codes ",serial=" ++ serial_of device
    else driver

-- `int64(f)`, of a finite frequency.
abbrev pub to_int : Float → ℤ
to_int (finite hz) = hz
to_int _ = pos 0

unfoldable pub hackrf_args : Device → TransmitRequest → Text → List Arg
unfolding codes_eq
hackrf_args device request path =
    let args =
      flag "-t"
      ∷ text path
      ∷ flag "-f"
      ∷ number (to_int request.frequency)
      ∷ flag "-s"
      ∷ number (pos 2000000)
      ∷ flag "-x"
      ∷ number request.tx_gain_db
      ∷ [] in
    if not (codes_eq (serial_of device) [])
    then args ++ (flag "-d" ∷ text (serial_of device) ∷ [])
    else args

unfoldable pub soapy_transmit_args : Device → TransmitRequest → Text → List Arg
soapy_transmit_args device request path =
    flag "--device"
    ∷ text (soapy_device_arguments device)
    ∷ flag "--frequency"
    ∷ number (to_int request.frequency)
    ∷ flag "--rate"
    ∷ number (pos 2000000)
    ∷ flag "--gain"
    ∷ number request.tx_gain_db
    ∷ flag "--bandwidth"
    ∷ number (pos 2000000)
    ∷ flag "--tx-file"
    ∷ text path
    ∷ []

-- `findTool`, and the command with the tool's arguments.
abbrev pub launch_tool : (String → Bool) → String → List Arg → Launch
launch_tool installed tool args = if installed tool then command tool args else missing_tool tool

unfoldable pub launch_transmit : (String → Bool) → Cleared → Text → Launch
launch_transmit installed c path =
    if not c.request.dry_run
    then (if is_hackrf c.device.kind
        then launch_tool installed "hackrf_transfer" (hackrf_args c.device c.request path)
        else launch_tool installed "gpsdr-soapy" (soapy_transmit_args c.device c.request path))
    else nothing
