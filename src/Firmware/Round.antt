-- ===== src/Firmware/Round.antt =====
-- One round of the loop of `main` in firmware/src/main.c: the wait for a packet on the bus, what is
-- done if none comes, and the work of the USB driver. Left out is the last wait of a round, in
-- assembly, and the reset of the watchdog, which change no variable.
pub mod Waiting
use rfid_tool.Base.{
  ℕ, zero, suc, ◌+◌, ◌-◌, ◌==◌, ◌&&◌, not, ltb, u8, u16, bit_and, if◌then◌else◌, Bool, true, false,
  Option, none, some,
}
use rfid_tool.Firmware.{Firmware}
use rfid_tool.Firmware.Calibration.{calibrate}
use rfid_tool.Firmware.MainLoop.{poll}

-- What a round of the wait reads: `USBIN & USBMASK`, and the bit of USB_INTR_PENDING after it.
pub record Line : Type 0 where
  pub active : Bool
  pub pending : Bool

-- The counters of the wait, and the variables that it changes.
pub record Wait : Type 0 where
  pub fastctr : ℕ
  pub resetctr : ℕ
  pub usb_new_device_addr : ℕ
  pub usb_device_addr : ℕ
  pub osccal : ℕ

-- `(uint16_t)(F_CPU / (1000.0f * 15.0f / 5.0f))` at 16.5 MHz.
abbrev pub rounds : ℕ
rounds = 5500

abbrev pub begin_wait : Wait → Wait
begin_wait w = record w { fastctr = rounds; resetctr = 100 }

abbrev pub with_osccal : Wait → Option ℕ → Option Wait
with_osccal w none = none
with_osccal w (some value) =
    some (record w { usb_new_device_addr = 0; usb_device_addr = 0; osccal = value })

-- The rest of one round of the wait, and `next` for the rounds after it.
unfoldable pub wait_on : Line → (next : Wait → Option Wait) → Option Wait → Option Wait
wait_on line next none = none
wait_on line next (some w) =
    let left = u16 (w.fastctr + 65535) in
    let counted = record w { fastctr = left } in
    if line.pending then some w else if left == 0 then some counted else next counted

-- `usbMeasureFrameLength` while OSCCAL has a value, and the fuel of the calibration.
module _ (measure : ℕ → ℕ) (steps : ℕ) where
  unfoldable pub count_reset : Wait → Line → Option Wait
  count_reset w line =
      let left = u8 ((if line.active then 100 else w.resetctr) + 255) in
      let counted = record w { resetctr = left } in
      if left == 0 then with_osccal counted (calibrate measure steps) else some counted

  -- The loop of the wait, with the bus in each round; `none` is one that has not ended.
  unfoldable pub wait_loop : (ℕ → Line) → ℕ → Wait → ℕ → Option Wait
  wait_loop bus zero w i = none
  wait_loop bus (suc fuel) w i =
      wait_on (bus i) (λ counted. wait_loop bus fuel counted (suc i)) (count_reset w (bus i))

-- `usbRxLen`, `usbTxLen` and `usbMsgLen` of the USB driver, as bytes.
pub record Driver : Type 0 where
  pub rx_len : ℕ
  pub tx_len : ℕ
  pub msg_len : ℕ

abbrev pub Machine : Type 0
Machine = Firmware × Driver

-- The driver's routines: USB_INTR_VECTOR, which takes a packet off the bus; `usbProcessRx`, with the
-- length of the packet; `usbBuildTxBlock`; and USB_NO_MSG.
module _ (intr_vector : Driver → Driver) (process_rx : ℕ → Machine → Machine)
    (build_tx_block : Machine → Machine) (no_msg : ℕ) where
  -- `usbRxLen - 3` as an `int8_t`, where a byte from 128 on is negative.
  unfoldable pub receive : Machine → Machine
  receive m =
      let len = u8 (m.1.rx_len + 253) in
      let done = process_rx len m in
      if ltb len 128 then (done.0, record (done.1) { rx_len = 0 }) else m

  unfoldable pub service : Machine → Machine
  service m =
      let r = receive m in
      if not (bit_and r.1.tx_len 0x10 == 0) && not (r.1.msg_len == no_msg)
      then build_tx_block r
      else r

  abbrev pub served : Driver → Wait → Option Firmware → Option (Machine × Wait)
  served d w none = none
  served d w (some f) = some (service (f, d), w)

  -- A wait that a packet has ended calls USB_INTR_VECTOR as its last act, and leaves `fastctr` above
  -- 0.
  abbrev pub after_wait : Machine → Option Wait → Option (Machine × Wait)
  after_wait m none = none
  after_wait m (some w) =
      (if w.fastctr == 0 then served m.1 w (poll m.0) else served (intr_vector m.1) w (some m.0))

  -- `none`: the reset command has jumped to the bootloader, or a loop has not ended.
  unfoldable pub round :
      (bus : ℕ → Line) (measure : ℕ → ℕ) (steps fuel : ℕ) → Machine → Wait → Option (Machine × Wait)
  round bus measure steps fuel m w =
      after_wait m (wait_loop measure steps bus fuel (begin_wait w) 0)
