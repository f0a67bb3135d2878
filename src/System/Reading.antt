-- ===== src/System/Reading.antt =====
-- The whole run of rfid-tool/src/main.cpp that reads tags, from the search for the device on.
use rfid_tool.Base.{ℕ, ◌≡◌, ◌≢◌, refl, sym, ap, ◌∙◌, pos}
use rfid_tool.Base.{true, false, Option, some, none, List, map}
use rfid_tool.Firmware.Sampler.Recording.{heard, heard-same}
use rfid_tool.HostUsb.{UsbDevice, Driver, Result, ok, lift, ◌>>=◌, check_connection, get_version}
use rfid_tool.HostUsb.Open.{found, with_sizes, ask_device, open_interface}
use rfid_tool.HostUsb.Received.{samples_of_bits}
use rfid_tool.Interface.{Sample}
use rfid_tool.Main.{
  Report, new_token, Exit, HelpMessage, refused, read_tag, act, session, run_opened, run_checked,
  run_main, exit_of,
}
use rfid_tool.Main.Options.{ExecutionOptions}
use rfid_tool.Reader.{Reader, start, read_samples}
use rfid_tool.System.{IsAttached, HasEdge}
use rfid_tool.Firmware.{IsReady}
use rfid_tool.System.Receiving.{asleep}
use rfid_tool.System.Listening.{get_samples-heard}
use rfid_tool.System.Program.{firmware_driver, firmware_driver-IsOpen, ask_device-attached}

-- What the program prints for a run of voltages.
abbrev pub printed : Reader → List Sample → List Report
printed reader samples = map (λ t. new_token t) (read_samples (start reader) samples).1

module _ {D : UsbDevice} (a : IsAttached D) (e : HasEdge a) where
  act-read_tag :
      (o : ExecutionOptions) (reader : Reader) (memory : List ℕ) (d : Driver)
      → o.reset_iface ≡ false
      → o.read ≡ true
      → act D o reader memory d ≡ read_tag D d reader
  unfolding act
  act-read_tag o reader memory d no_reset read = rw (no_reset, read) refl

  -- On a ready device that hears an edge within 100 milliseconds of each sleep of the host and has no
  -- reset pending: a run with accepted options that ask for reading and not for a reset, where the
  -- device is found. The program ends with the status 0, nothing is played, and it prints the tokens
  -- that the decoders make of the samples of what the device hears after the edge, one bit for each
  -- voltage, in the state in which the host goes to sleep: that after the questions of the constructor
  -- and then the request for a transfer.
  pub run_main-printed :
      (o : ExecutionOptions) (reader : Reader) (memory : List ℕ) (s : D.State)
      → IsReady (a.view s)
      → (a.view s).command ≢ 2
      → refused o ≡ none
      → o.reset_iface ≡ false
      → o.read ≡ true
      → let asleep_at = asleep D firmware_driver (ask_device D s).1 in
        (s' : D.State) × (run_main D o found reader memory s
          ≡ some (
            record {
              status = pos 0;
              reports = printed reader (samples_of_bits (heard (a.view s) 0 (a.signal asleep_at)));
            },
            s',
          ))
        × (a.played s' ≡ a.played s)
  unfolding run_main session open_interface get_version check_connection with_sizes read_tag
  run_main-printed o reader memory s r c accepted no_reset read =
      let (s0, asked, quiet, r0, same) = ask_device-attached a s r in
      let (s1, s2, slept, done, silent) =
        get_samples-heard a e firmware_driver s0 firmware_driver-IsOpen r0
          (λ k. c (sym same ∙ k)) in
      let signals =
        heard-same (a.view s) (a.view s0) 0 (a.signal s1) (r0.high ∙ sym r.high)
          (r0.low ∙ sym r.low) in
      let checked : Option HelpMessage → Option (Exit × D.State) =
        λ q. run_checked D q (some (ask_device D)) o reader memory s in
      let connected : Result Driver × D.State → Option (Exit × D.State) =
        λ q. run_opened D (some (λ _. q)) o reader memory s in
      let finish : Result (List Report) × D.State → Option (Exit × D.State) =
        λ q. some (exit_of D q.0, q.1) in
      let print : Result (List Sample) × D.State → Result (List Report) × D.State =
        λ q. ((λ _. q) >>= λ samples. lift (ok (printed reader samples))) s0 in
      let acts = act-read_tag o reader memory firmware_driver no_reset read in
      let at : asleep D firmware_driver (ask_device D s).1 ≡ s1 =
        ap (λ (q : Result Driver × D.State). asleep D firmware_driver q.1) asked ∙ slept in
      (
        s2,
        ap checked accepted
            ∙ (ap connected asked
                ∙ (ap (λ k. finish (k s0)) acts
                    ∙ (ap (λ q. finish (print q)) done
                        ∙ (ap (λ bs. finish (print (ok (samples_of_bits bs), s2))) signals
                            ∙ ap
                                (λ x. finish (
                                  print
                                    (ok (samples_of_bits (heard (a.view s) 0 (a.signal x))), s2)))
                                (sym at))))),
        silent ∙ quiet,
      )
