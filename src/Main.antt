-- ===== src/Main.antt =====
-- rfid-tool/src/main.cpp: the options, and what the program does with them. `getopt_long` gives the
-- options as a list, with the text behind each; `strtol` is a parameter. What is printed is the
-- list of reports; the log is left out.
pub mod Options
pub mod Outcomes
pub mod Parsing
use rfid_tool.Base.{ℕ, ℤ, pos, negsuc, ◌%◌, u8, u32, if◌then◌else◌, Bool, true, false, not, ◌&&◌}
use rfid_tool.Base.{Option, none, some, List, [], ◌∷◌, ◌++◌, map, get_or}
use rfid_tool.Interface.{Sample}
use rfid_tool.HostUsb.{
  UsbDevice, Driver, Error, Result, ok, err, Action, lift, ◌>>=◌, ◌>>◌, reset, get_version,
}
use rfid_tool.HostUsb.Open.{Search, usb, new_instance}
use rfid_tool.HostUsb.Receive.{get_samples}
use rfid_tool.HostUsb.Send.{put_samples}
use rfid_tool.Em4100Eprom.{generate}
use rfid_tool.T5557Encoder
use rfid_tool.T5557Encoder.{Params, DataRate, default_params, encode_block, encode_parameters}
use rfid_tool.Reader.{Reader, TokenReport, start, read_samples}
use rfid_tool.Main.Options.{
  ExecutionOptions, Modulation, unknown_modulation, manchester, biphase, Bitrate, unknown_bitrate,
  bitrate_16, bitrate_32, bitrate_64,
}

-- The message before the help.
pub data HelpMessage : Type 0 where
  no_message unknown_modulation_message unknown_bitrate_message : HelpMessage

-- What is printed.
pub data Report : Type 0 where
  help : HelpMessage → Report
  new_token : TokenReport → Report
  failure : Error → Report

-- The exit status and what was printed.
pub record Exit : Type 0 where
  pub status : ℤ
  pub reports : List Report

abbrev pub minus_one : ℤ
minus_one = negsuc 0

-- The two `switch`es on the options; an unknown value leaves the default.
abbrev pub with_data_rate : Bitrate → Params → Params
with_data_rate unknown_bitrate p = p
with_data_rate bitrate_16 p = record p { data_rate = DataRate.rate_16 }
with_data_rate bitrate_32 p = record p { data_rate = DataRate.rate_32 }
with_data_rate bitrate_64 p = record p { data_rate = DataRate.rate_64 }

abbrev pub with_coding : Modulation → Params → Params
with_coding unknown_modulation p = p
with_coding manchester p = record p { modulation = T5557Encoder.Modulation.manchester }
with_coding biphase p = record p { modulation = T5557Encoder.Modulation.biphase }

-- Two data blocks follow the configuration block.
unfoldable pub tag_params : ExecutionOptions → Params
tag_params o = record (with_coding o.modulation (with_data_rate o.bitrate default_params)) {
  max_block = 2;
}

abbrev pub nothing_to_do : ExecutionOptions → Bool
nothing_to_do o = not o.read && not o.write

abbrev bitrate_refused : Bitrate → Option HelpMessage
bitrate_refused unknown_bitrate = some unknown_bitrate_message
bitrate_refused bitrate_16 = none
bitrate_refused bitrate_32 = none
bitrate_refused bitrate_64 = none

abbrev pub write_refused : Modulation → Bitrate → Option HelpMessage
write_refused unknown_modulation b = some unknown_modulation_message
write_refused manchester b = bitrate_refused b
write_refused biphase b = bitrate_refused b

-- The options that end the program before it looks for the device.
unfoldable pub refused : ExecutionOptions → Option HelpMessage
refused o =
    if o.show_help
    then some no_message
    else if o.write
    then write_refused o.modulation o.bitrate
    else none

module _ (D : UsbDevice) where
  -- The configuration block, then the two words of the EM4100 frame. `memory` is what the two words
  -- hold before.
  unfoldable pub write_tag : Driver → ExecutionOptions → List ℕ → Action D.State (List Report)
  write_tag d o memory = do
    let words = generate memory o.customer_id o.token
    put_samples D d (encode_parameters (tag_params o) false 0 [])
    put_samples D d (encode_block 0 1 false false 0 (get_or words 0 0) [])
    put_samples D d (encode_block 0 2 false false 0 (get_or words 1 0) [])
    lift (ok [])

  -- `memory` is what the decoders hold before their constructors.
  unfoldable pub read_tag : Driver → Reader → Action D.State (List Report)
  read_tag d memory = do
    samples ← get_samples D d
    lift (ok (map (λ t. new_token t) (read_samples (start memory) samples).1))

  unfoldable pub act : ExecutionOptions → Reader → List ℕ → Driver → Action D.State (List Report)
  act o reader words d =
      if o.reset_iface
      then (reset D d >> lift (ok []))
      else if nothing_to_do o
      then lift (ok (help no_message ∷ []))
      else if o.read
      then read_tag d reader
      else write_tag d o words

  -- What the `catch` makes of the outcome.
  abbrev pub exit_of : Result (List Report) → Exit
  exit_of (ok reports) = record { status = pos 0; reports = reports }
  exit_of (err e) = record { status = minus_one; reports = failure e ∷ [] }

  -- The `try`, once the interface is opened: the version is always asked for.
  unfoldable pub session :
      ExecutionOptions → Reader → List ℕ → Action D.State Driver → Action D.State (List Report)
  session o reader words connect = do d ← connect; _ ← get_version D d; act o reader words d

  abbrev pub run_opened :
      Option (Action D.State Driver)
      → ExecutionOptions
      → Reader
      → List ℕ
      → D.State
      → Option (Exit × D.State)
  run_opened none o reader words s = none
  run_opened (some connect) o reader words s =
      let (r, s') = session o reader words connect s in some (exit_of r, s')

  abbrev pub run_checked :
      Option HelpMessage
      → Option (Action D.State Driver)
      → ExecutionOptions
      → Reader
      → List ℕ
      → D.State
      → Option (Exit × D.State)
  run_checked (some message) connect o reader words s =
      some (record { status = minus_one; reports = help message ∷ [] }, s)
  run_checked none connect o reader words s = run_opened connect o reader words s

  -- `main` after the options; `none` where the search for the device does not end.
  unfoldable pub run_main :
      ExecutionOptions → Search → Reader → List ℕ → D.State → Option (Exit × D.State)
  run_main o search reader words s =
      run_checked (refused o) (new_instance D usb search) o reader words s
