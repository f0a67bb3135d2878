-- ===== src/Firmware/Steps/Phases.antt =====
-- The phases of a transfer in firmware/src/main.c, and which registers go with each.
use rfid_tool.Base.{ℕ, ◌≡◌, ◌==◌, ltb, leb, Bool, true, not, ◌&&◌, ◌||◌, if◌then◌else◌, some, arith}
use rfid_tool.Firmware.{
  Firmware, State, idle, starting, wait_condition, rx, tx, finished, prescaller_start,
  prescaller_stop,
}
use rfid_tool.Firmware.MainLoop.{
  poll, transfer_step, on_starting, on_finished, prepare, first_state,
}
use rfid_tool.Firmware.Sampler.{
  conversion, compare_signal, on_signal, edge_seen, begin_transfer, count_timeout, record_signal,
  store_signal,
}
use rfid_tool.Firmware.Transmitter.{timer_match, stop_tx, emit_pulse}
use rfid_tool.Base.{zero, suc, ◌+◌, u8, List, [], ◌∷◌, set, none}
use rfid_tool.Firmware.Steps.{is_allowed}
use rfid_tool.Firmware.Usb.{
  Target, contents, with_contents, read_target, read_loop, read_from, usb_function_read, write_loop,
}
use rfid_tool.Firmware.Setup.{
  SetupData, usb_function_setup, handle, respond, start_transfer, answer_status,
}

-- No interrupt is wanted while there is no transfer. A reception counts 1536 bits up, a transmission
-- 384 nibbles, and only one of the two interrupts works on the buffer.
abbrev pub is_in : State → Firmware → Bool
is_in idle f = not f.interrupts && not f.prescaler.interrupt
is_in starting f =
    (not f.interrupts && not f.prescaler.interrupt) && (not f.ctx.transmit || f.ctx.edge_start)
is_in wait_condition f =
    not f.prescaler.interrupt
    && (f.op_offset == 0 && f.op_length == (if f.ctx.transmit then 384 else 1536))
is_in rx f = not f.prescaler.interrupt && (ltb f.op_offset 1536 && f.op_length == 1536)
is_in tx f = not f.adc_running && (leb f.op_offset 384 && f.op_length == 384)
is_in finished f = not f.prescaler.running && not f.prescaler.interrupt

abbrev pub is_phase : Firmware → Bool
is_phase f = is_in f.ctx.state f

pub conversion-is_phase :
    (f : Firmware) (v : ℕ)
    → f.interrupts ≡ true
    → f.adc_running ≡ true
    → f.prescaler.running ≡ true
    → is_phase f ≡ true
    → is_phase (conversion f v) ≡ true
unfolding conversion compare_signal on_signal edge_seen begin_transfer count_timeout record_signal
    store_signal prescaller_start prescaller_stop
conversion-is_phase f v on adc run p = ground arith

pub timer_match-is_phase :
    (f : Firmware)
    → f.interrupts ≡ true
    → f.prescaler.interrupt ≡ true
    → f.prescaler.running ≡ true
    → is_phase f ≡ true
    → is_phase (timer_match f) ≡ true
unfolding timer_match stop_tx emit_pulse prescaller_stop
timer_match-is_phase f on i run p = ground arith

transfer_step-is_phase : (f : Firmware) → is_phase f ≡ true → is_phase (transfer_step f) ≡ true
unfolding transfer_step on_starting on_finished prepare first_state prescaller_start prescaller_stop
transfer_step-is_phase f p = ground arith

pub poll-is_phase : (f g : Firmware) → poll f ≡ some g → is_phase f ≡ true → is_phase g ≡ true
unfolding poll
poll-is_phase f g e p = ground (arith, transfer_step-is_phase f p)

pub setup-is_phase :
    (f : Firmware) (rq : SetupData)
    → is_allowed f rq ≡ true
    → is_phase f ≡ true
    → is_phase (usb_function_setup f rq).0 ≡ true
unfolding usb_function_setup handle respond start_transfer answer_status
setup-is_phase f rq ok p = ground arith

-- The phase does not depend on the arrays.
stored-is_phase :
    (s : State) (f : Firmware) (t : Target) (xs : List ℕ) (offset : ℕ)
    → is_in s f ≡ is_in s (record (with_contents f t xs) { io_buffer_offset = offset })
stored-is_phase s f t xs offset = ground arith

pub write_loop-is_phase :
    (bs : List ℕ) (t : Target) (f : Firmware)
    → is_phase f ≡ true
    → is_phase (write_loop bs t f).0 ≡ true
unfolding write_loop
write_loop-is_phase [] t f p = p
write_loop-is_phase (b ∷ bs) t f p =
    let next : Firmware = record (with_contents f t (set (contents f t) f.io_buffer_offset b)) {
      io_buffer_offset = u8 (f.io_buffer_offset + 1);
    } in
    let q : is_phase next ≡ true = ground (
      arith,
      stored-is_phase f.ctx.state f t (set (contents f t) f.io_buffer_offset b)
          (u8 (f.io_buffer_offset + 1)),
    ) in
    ground (arith, write_loop-is_phase bs t next q)

read_loop-is_phase :
    (n : ℕ) (t : Target) (f : Firmware) → is_phase f ≡ true → is_phase (read_loop n t f).0 ≡ true
unfolding read_loop
read_loop-is_phase zero t f p = p
read_loop-is_phase (suc n) t f p =
    let next : Firmware = record f { io_buffer_offset = u8 (f.io_buffer_offset + 1) } in
    let q : is_phase next ≡ true = ground arith in ground (arith, read_loop-is_phase n t next q)

pub read-is_phase :
    (f : Firmware) (len : ℕ) → is_phase f ≡ true → is_phase (usb_function_read f len).0 ≡ true
unfolding usb_function_read read_from
read-is_phase f len p =
    elim (read_target f.command) as (λ o. is_phase (read_from o f len).0 ≡ true) [
      | none ↦ p
      | some t ↦ read_loop-is_phase len t f p
    ]
