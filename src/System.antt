-- ===== src/System.antt =====
-- The host's driver (rfid-tool/src/rfid/impl/InterfaceUsbImpl.cpp) and the firmware
-- (firmware/src/main.c) with the USB between them.
pub mod Writing
pub mod Sending
pub mod Programming
pub mod Program
pub mod Receiving
pub mod Listening
pub mod Reading
use rfid_tool.Base.{
  ℕ, suc, ◌+◌, ◌*◌, ◌≤◌, ◌<◌, ◌≡◌, ℤ, pos, Option, some, List, [], ◌∷◌, ◌++◌, length, take,
}
use rfid_tool.Firmware.{Firmware, rx, tx, finished, adc_lo, adc_hi}
use rfid_tool.Firmware.Edge.{AllUpTo}
use rfid_tool.Firmware.MainLoop.{poll}
use rfid_tool.Firmware.Sampler.{conversions}
use rfid_tool.Firmware.Setup.{SetupData, usb_function_setup}
use rfid_tool.Firmware.Setup.Download.{read_all, total}
use rfid_tool.Firmware.Setup.Upload.{write_all, joined}
use rfid_tool.Firmware.Transmitter.Playback.{Played, playback}
use rfid_tool.Firmware.Usb.{Target, target_size, read_target, write_target}
use rfid_tool.HostUsb.{UsbDevice}

abbrev pub request_for : (command value index : ℕ) → SetupData
request_for command value index = record { request = command; value = value; index = index }

-- How many periods of the carrier pulses last.
abbrev pub periods : List Played → ℕ
periods [] = 0
periods (p ∷ ps) = suc p.ocr0a + periods ps

-- What it means that the device behind libusb is the firmware. `played` is all that its
-- transmitter has set so far.
--   answers: a request that `usbFunctionSetup` answers from its response gives that answer
--   takes: a write request gives all its bytes to `usbFunctionWrite`, in packets
--   gives: a read request of a whole array gives the bytes of `usbFunctionRead`, in packets
--   waits: while the host sleeps the main loop comes round, the voltages `heard` are converted, in
--          `delay` microseconds, and once the firmware transmits the timer matches until the end; if
--          all its pulses, each period of 8 microseconds, fit the rest of the sleep, the main loop
--          comes round again
--   listens: or it receives: if the voltages of `signal`, one in each `prescaler_value` periods, fit
--          the rest of the sleep, they are converted after the edge until it has finished, and the
--          main loop comes round again
pub record IsAttached (D : UsbDevice) : Type 0 where
  pub view : D.State → Firmware
  pub played : D.State → List Played
  pub heard : D.State → List ℕ
  pub delay : D.State → ℕ
  pub signal : D.State → List ℕ
  pub answers :
      (command value index size : ℕ) (s : D.State)
      → let (f, n) = usb_function_setup (view s) (request_for command value index) in
        n ≤ size
        → n < 0xff
        → (s' : D.State) × (D.control_in command value index size s
            ≡ ((pos n, take n f.response), s'))
          × (view s' ≡ f)
          × (played s' ≡ played s)
  pub takes :
      (command value index : ℕ) (bytes : List ℕ) (t : Target) (s : D.State)
      → write_target command ≡ some t
      → length bytes ≤ target_size t
      → (s' : D.State) × (packets : List (List ℕ)) × (joined packets ≡ bytes)
        × (D.control_out command value index bytes s ≡ (pos (length bytes), s'))
        × (write_all packets (usb_function_setup (view s) (request_for command value index)).0
            ≡ some (view s'))
        × (played s' ≡ played s)
  pub gives :
      (command value index : ℕ) (t : Target) (s : D.State)
      → read_target command ≡ some t
      → (s' : D.State) × (lens : List ℕ) × (target_size t ≤ total lens)
        × (let (g, bytes) =
              read_all lens (usb_function_setup (view s) (request_for command value index)).0 in
            (D.control_in command value index (target_size t) s ≡ ((pos (length bytes), bytes), s'))
            × (view s' ≡ g)
            × (played s' ≡ played s))
  pub waits :
      (us : ℕ) (g h : Firmware) (s : D.State)
      → poll (view s) ≡ some g
      → (conversions g (heard s)).ctx.state ≡ tx
      → let r = playback 385 (conversions g (heard s)) in
        delay s + 8 * periods r.1 ≤ us
        → poll r.0 ≡ some h
        → (view (D.usleep us s) ≡ h) × (played (D.usleep us s) ≡ played s ++ r.1)
  pub listens :
      (us : ℕ) (g h : Firmware) (s : D.State)
      → poll (view s) ≡ some g
      → (conversions g (heard s)).ctx.state ≡ rx
      → delay s + 8 * (g.ctx.prescaler_value * length (signal s)) ≤ us
      → (conversions (conversions g (heard s)) (signal s)).ctx.state ≡ finished
      → poll (conversions (conversions g (heard s)) (signal s)) ≡ some h
      → (view (D.usleep us s) ≡ h) × (played (D.usleep us s) ≡ played s)

-- Whenever the host sleeps, the signal falls before the timeout of a transmission and within 100
-- milliseconds, and what is received just fills the buffer.
pub record HasEdge {D : UsbDevice} (a : IsAttached D) : Type 0 where
  pub lows : D.State → List ℕ
  pub high : D.State → ℕ
  pub heard : (s : D.State) → a.heard s ≡ lows s ++ high s ∷ []
  pub below : (s : D.State) → AllUpTo adc_lo (lows s)
  pub soon : (s : D.State) → length (lows s) ≤ 21248
  pub above : (s : D.State) → adc_hi ≤ high s
  pub prompt : (s : D.State) → a.delay s ≤ 100000
  pub whole : (s : D.State) → length (a.signal s) ≡ 1536
