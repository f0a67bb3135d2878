-- ===== src/System/Program.antt =====
-- The whole run of rfid-tool/src/main.cpp that writes a tag, from the search for the device on.
use mathlib.Core.Path.{subst}
use rfid_tool.Base.{ℕ, ◌^◌, ◌<◌, ◌≡◌, refl, sym, ap, ◌∙◌, arith, pos}
use rfid_tool.Base.{true, false, Option, some, none, List, [], ◌∷◌, ◌++◌, length}
use rfid_tool.Bits.{bit_list}
use rfid_tool.Em4100Eprom.Frame.{frame}
use rfid_tool.Firmware.{Firmware}
use rfid_tool.Firmware.Setup.{usb_function_setup, handle, respond}
use rfid_tool.HostUsb.{UsbDevice, Driver, Result, ok, check_connection, get_version}
use rfid_tool.HostUsb.Open.{found, with_sizes, ask_device, open_interface}
use rfid_tool.HostUsb.Opening.{versioned, ask_device-supported}
use rfid_tool.Main.{
  Report, Exit, HelpMessage, refused, write_tag, act, session, run_opened, run_checked, run_main,
  exit_of,
}
use rfid_tool.Main.Options.{ExecutionOptions}
use rfid_tool.Reader.{Reader}
use rfid_tool.System.{IsAttached, HasEdge}
use rfid_tool.Firmware.{IsReady}
use rfid_tool.System.Sending.{IsOpen}
use rfid_tool.System.Programming.{programmed, write_tag-played}

-- The driver for this firmware.
abbrev pub firmware_driver : Driver
firmware_driver = with_sizes (versioned 0 1) (4 ∷ 1 ∷ 0 ∷ 192 ∷ 0 ∷ 7 ∷ [])

pub firmware_driver-IsOpen : IsOpen firmware_driver
unfolding with_sizes check_connection
firmware_driver-IsOpen = record { ready = refl; widths_size = refl; buffer_size = refl }

answered-IsReady :
    (f g : Firmware) (bytes : List ℕ) → g ≡ (respond f bytes).0 → IsReady f → IsReady g
unfolding respond
answered-IsReady f g bytes e r =
    subst (λ h. IsReady h) (sym e)
      (record { buffer = r.buffer; vector = r.vector; low = r.low; high = r.high })

module _ {D : UsbDevice} (a : IsAttached D) where
  -- The questions of the constructor.
  pub ask_device-attached :
      (s : D.State)
      → IsReady (a.view s)
      → (s' : D.State) × (ask_device D s ≡ (ok firmware_driver, s'))
        × (a.played s' ≡ a.played s)
        × IsReady (a.view s')
        × ((a.view s').command ≡ (a.view s).command)
  unfolding usb_function_setup handle respond
  ask_device-attached s r =
      let (s1, version, seen1, quiet1) = a.answers 1 0 0 3 s (omega arith) (omega arith) in
      let (s2, sizes, seen2, quiet2) = a.answers 8 0 0 7 s1 (omega arith) (omega arith) in
      (
        s2,
        ask_device-supported D s s1 s2 (4 ∷ 1 ∷ 0 ∷ 192 ∷ 0 ∷ 7 ∷ []) version sizes,
        quiet2 ∙ quiet1,
        answered-IsReady (a.view s1) (a.view s2) (0 ∷ 4 ∷ 1 ∷ 0 ∷ 192 ∷ 0 ∷ 7 ∷ []) seen2
            (answered-IsReady (a.view s) (a.view s1) (0 ∷ 0 ∷ 1 ∷ []) seen1 r),
        ap (λ f. f.command) (seen2) ∙ ap (λ f. f.command) seen1,
      )

module _ {D : UsbDevice} (a : IsAttached D) (e : HasEdge a) where
  act-write_tag :
      (o : ExecutionOptions) (reader : Reader) (memory : List ℕ) (d : Driver)
      → o.reset_iface ≡ false
      → o.read ≡ false
      → o.write ≡ true
      → act D o reader memory d ≡ write_tag D d o memory
  unfolding act
  act-write_tag o reader memory d no_reset no_read write = rw (no_reset, no_read, write) refl

  -- On a ready device that hears an edge within 100 milliseconds of each sleep of the host: a run with accepted options that ask
  -- for a tag to be written, and neither for a reset nor for reading, with an id of 8 and 32 bits and
  -- an array of two words, where the device is found. The program ends with the status 0 and prints
  -- nothing. The transmitter has then played three block writes, each followed by one low pulse: the
  -- configuration of the options into block 0, then into the blocks 1 and 2 two words whose bits, in
  -- order, are the EM4100 frame of the id.
  pub run_main-programmed :
      (o : ExecutionOptions) (reader : Reader) (memory : List ℕ) (s : D.State)
      → IsReady (a.view s)
      → refused o ≡ none
      → o.reset_iface ≡ false
      → o.read ≡ false
      → o.write ≡ true
      → length memory ≡ 2
      → o.customer_id < 2 ^ 8
      → o.token < 2 ^ 32
      → (first second : ℕ) × (bit_list 32 first ++ bit_list 32 second ≡ frame o.customer_id o.token)
        × (s' : D.State) × (run_main D o found reader memory s
            ≡ some (record { status = pos 0; reports = [] }, s'))
        × (a.played s' ≡ a.played s ++ programmed o (bit_list 32 first) (bit_list 32 second))
  unfolding run_main session open_interface get_version check_connection with_sizes
  run_main-programmed o reader memory s r accepted no_reset no_read write two hc ht =
      let (s1, asked, quiet, r1, _) = ask_device-attached a s r in
      let (first, second, bits, s2, done, played, r2) =
        write_tag-played a e firmware_driver o memory s1 firmware_driver-IsOpen r1 two hc ht in
      let checked : Option HelpMessage → Option (Exit × D.State) =
        λ q. run_checked D q (some (ask_device D)) o reader memory s in
      let connected : Result Driver × D.State → Option (Exit × D.State) =
        λ q. run_opened D (some (λ _. q)) o reader memory s in
      let finish : Result (List Report) × D.State → Option (Exit × D.State) =
        λ q. some (exit_of D q.0, q.1) in
      let acts = act-write_tag o reader memory firmware_driver no_reset no_read write in
      (
        first,
        second,
        bits,
        s2,
        ap checked accepted
            ∙ (ap connected asked ∙ (ap (λ k. finish (k s1)) acts ∙ ap finish done)),
        played ∙ ap (λ ps. ps ++ programmed o (bit_list 32 first) (bit_list 32 second)) quiet,
      )
