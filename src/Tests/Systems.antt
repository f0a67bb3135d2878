-- ===== src/Tests/Systems.antt =====
-- The driver on the firmware: all bytes of a request in one packet, and an edge in each sleep.
use rfid_tool.Base.{zero, suc, ◌<◌}
use rfid_tool.Firmware.{State, tx, rx, idle, starting, wait_condition, finished}
use rfid_tool.Firmware.Usb.{target_size, read_target}
use rfid_tool.Base.{ℕ, ◌≡◌, refl, ap, ◌∙◌, arith, ℤ, pos, negsuc, true, Option, some, none}
use rfid_tool.Base.{List, [], ◌∷◌, ◌++◌, append-nil, length, take, map}
use rfid_tool.Bits.{bit_list}
use rfid_tool.Em4100Eprom.Frame.{frame}
use rfid_tool.Firmware.{Firmware}
use rfid_tool.Firmware.MainLoop.{poll}
use rfid_tool.Firmware.Sampler.{conversions}
use rfid_tool.Firmware.Setup.{usb_function_setup}
use rfid_tool.Firmware.Setup.Download.{read_all}
use rfid_tool.Firmware.Setup.RoundTrip.{selected, selected-setup, request_of-write, request_of-read}
use rfid_tool.Firmware.Setup.Upload.{write_all, then_write}
use rfid_tool.Firmware.Transmitter.Playback.{Played, playback}
use rfid_tool.Firmware.Usb.{Target, write_target, write_to, write_loop, usb_function_write}
use rfid_tool.HostUsb.{UsbDevice, Driver, ok, check_connection}
use rfid_tool.HostUsb.Open.{found}
use rfid_tool.HostUsb.Opening.{versioned}
use rfid_tool.HostUsb.Received.{samples_of_bits}
use rfid_tool.Firmware.Sampler.Recording.{heard}
use rfid_tool.HostUsb.Send.{pulses_loop, insert_pulse, put_samples}
use rfid_tool.HostUsb.Send.Pulses.{sample_pulse, trailer}
use rfid_tool.Main.{refused, run_main}
use rfid_tool.Main.Options.{ExecutionOptions, default_options, manchester, bitrate_64}
use rfid_tool.System.{IsAttached, HasEdge, request_for}
use rfid_tool.Firmware.{IsReady}
use rfid_tool.System.Program.{run_main-programmed}
use rfid_tool.System.Programming.{programmed}
use rfid_tool.System.Reading.{printed, run_main-printed}
use rfid_tool.System.Sending.{IsOpen, put_samples-played}
use rfid_tool.Tests.Chains.{a_chain}
use rfid_tool.Tests.Hosts.{three_samples}
use rfid_tool.Tests.Devices.{booted}

abbrev Seen : Type 0
Seen = Firmware × List Played

abbrev volts : List ℕ
volts = 12 ∷ 13 ∷ 250 ∷ []

abbrev written : Option Firmware → ℕ → Seen → ℤ × Seen
written none n s = (negsuc 0, s)
written (some g) n s = (pos n, (g, s.1))

abbrev polled : Option Firmware → Seen → Seen
polled none s = s
polled (some g) s = (g, s.1)

-- High and low in turn, with all bits of the buffer.
abbrev turns : ℕ → List ℕ
turns zero = []
turns (suc n) = 12 ∷ 13 ∷ 250 ∷ turns n

abbrev signals : List ℕ
signals = turns 512

-- It plays if it is transmitting, and otherwise it listens.
abbrev busy : State → Firmware → Seen → Seen
busy tx f s = let r = playback 385 f in polled (poll r.0) (r.0, s.1 ++ r.1)
busy rx f s = let r = conversions f signals in polled (poll r) (r, s.1)
busy idle f s = s
busy starting f s = s
busy wait_condition f s = s
busy finished f s = s

abbrev waited : Option Firmware → Seen → Seen
waited none s = s
waited (some g) s = busy (conversions g volts).ctx.state (conversions g volts) s

abbrev answered : Firmware × ℕ → List Played → (ℤ × List ℕ) × Seen
answered r played = ((pos r.1, take r.1 r.0.response), (r.0, played))

abbrev gave : Firmware × List ℕ → List Played → (ℤ × List ℕ) × Seen
gave r played = ((pos (length r.1), r.1), (r.0, played))

abbrev respond_to : Option Target → Firmware × ℕ → List Played → (ℤ × List ℕ) × Seen
respond_to none r played = answered r played
respond_to (some t) r played = gave (read_all (target_size t ∷ []) r.0) played

abbrev device : UsbDevice
device = record {
  State = Seen;
  control_in = λ command value index size s.
      respond_to (read_target command) (usb_function_setup s.0 (request_for command value index))
        s.1;
  control_out = λ command value index bytes s.
      written (write_all (bytes ∷ []) (usb_function_setup s.0 (request_for command value index)).0)
        (length bytes) s;
  usleep = λ us s. waited (poll s.0) s;
}

not_read :
    (command value index : ℕ) (f : Firmware) (o : Option Target)
    → read_target command ≡ o
    → (usb_function_setup f (request_for command value index)).1 < 255
    → o ≡ none
not_read command value index f none r small = refl
not_read command value index f (some t) r small = absurd (
    omega (
      arith,
      small,
      ap (λ q. q.1)
          (selected-setup f (request_for command value index) (request_of-read command t r)),
    ))

one_packet :
    (command value index : ℕ) (bytes : List ℕ) (t : Target) (f : Firmware)
    → write_target command ≡ some t
    → (g : Firmware) × (write_all
          (bytes ∷ [])
          (usb_function_setup f (request_for command value index)).0
        ≡ some g)
unfolding usb_function_write write_to
one_packet command value index bytes t f w =
    let begun = selected-setup f (request_for command value index) (request_of-write command t w) in
    (
      (write_loop bytes t (selected f command)).0,
      ap (λ q. write_all (bytes ∷ []) q.0) begun
          ∙ ap (λ o. then_write (write_to o (selected f command) bytes) (λ g. write_all [] g)) w,
    )

abbrev attached_device : IsAttached device
attached_device = record {
  view = λ s. s.0;
  played = λ s. s.1;
  heard = λ s. volts;
  delay = λ s. 96;
  signal = λ s. signals;
  answers = λ command value index size s fits small.
      let r = usb_function_setup s.0 (request_for command value index) in
      let other = not_read command value index s.0 (read_target command) refl small in
      ((r.0, s.1), ap (λ o. respond_to o r s.1) other, refl, refl);
  takes = λ command value index bytes t s w fits.
      let (g, run) = one_packet command value index bytes t s.0 w in
      ((g, s.1), bytes ∷ [], append-nil bytes, ap (λ r. written r (length bytes) s) run, run, refl);
  gives = λ command value index t s r.
      let reply = usb_function_setup s.0 (request_for command value index) in
      (
        ((read_all (target_size t ∷ []) reply.0).0, s.1),
        target_size t ∷ [],
        omega arith,
        (ap (λ o. respond_to o reply s.1) r, refl, refl),
      );
  waits = λ us g h s begun sending fits ended.
      let f = conversions g volts in
      let r = playback 385 f in
      let whole =
        ap (λ o. waited o s) begun
        ∙ (ap (λ q. busy q f s) sending ∙ ap (λ o. polled o (r.0, s.1 ++ r.1)) ended) in
      (ap (λ q. q.0) whole, ap (λ q. q.1) whole);
  listens = λ us g h s begun receiving fits done ended.
      let f = conversions g volts in
      let r = conversions f signals in
      let whole =
        ap (λ o. waited o s) begun
        ∙ (ap (λ q. busy q f s) receiving ∙ ap (λ o. polled o (r, s.1)) ended) in
      (ap (λ q. q.0) whole, ap (λ q. q.1) whole);
}

device_edges : HasEdge attached_device
device_edges = record {
  lows = λ s. 12 ∷ 13 ∷ [];
  high = λ s. 250;
  heard = λ s. refl;
  below = λ s. (omega arith, (omega arith, tt));
  soon = λ s. omega arith;
  above = λ s. omega arith;
  prompt = λ s. omega arith;
  whole = λ s. refl;
}

abbrev start_state : Seen
start_state = (booted, [])

booted-IsReady : IsReady booted
booted-IsReady = record { buffer = refl; vector = refl; low = refl; high = refl }

abbrev programming : ExecutionOptions
programming = record default_options {
  write = true;
  customer_id = 0x4b;
  token = 0x166b24;
  modulation = manchester;
  bitrate = bitrate_64;
}

run_main-programmed_example :
    (first second : ℕ) × (bit_list 32 first ++ bit_list 32 second ≡ frame 0x4b 0x166b24)
    × (s' : Seen) × (run_main device programming found a_chain (7 ∷ 7 ∷ []) start_state
        ≡ some (record { status = pos 0; reports = [] }, s'))
    × (s'.1 ≡ [] ++ programmed programming (bit_list 32 first) (bit_list 32 second))
unfolding refused
run_main-programmed_example =
    run_main-programmed attached_device device_edges programming a_chain (7 ∷ 7 ∷ []) start_state
      booted-IsReady refl refl refl refl refl (omega arith) (omega arith)

abbrev a_driver : Driver
a_driver = record (versioned 0 1) { pulse_vector_size = 7; sample_vector_size = 192 }

a_driver-IsOpen : IsOpen a_driver
unfolding check_connection
a_driver-IsOpen = record { ready = refl; widths_size = refl; buffer_size = refl }

put_samples-played_example :
    (s' : Seen) × (put_samples device a_driver three_samples start_state ≡ (ok tt, s'))
    × (s'.1
        ≡ []
          ++ (map sample_pulse three_samples
              ++ trailer (pulses_loop three_samples []) three_samples))
    × IsReady s'.0
unfolding pulses_loop insert_pulse
put_samples-played_example =
    put_samples-played attached_device device_edges a_driver three_samples start_state
      a_driver-IsOpen booted-IsReady (ground arith) (ground arith) (ground arith) (ground arith)

abbrev reading : ExecutionOptions
reading = record default_options { read = true }

run_main-printed_example :
    (s' : Seen) × (run_main device reading found a_chain [] start_state
      ≡ some (
        record {
          status = pos 0;
          reports = printed a_chain (samples_of_bits (heard booted 0 signals));
        },
        s',
      ))
    × (s'.1 ≡ [])
unfolding refused
run_main-printed_example =
    run_main-printed attached_device device_edges reading a_chain [] start_state booted-IsReady
      (omega arith) refl refl refl
