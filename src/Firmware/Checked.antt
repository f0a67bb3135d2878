-- ===== src/Firmware/Checked.antt =====
-- The handlers of firmware/src/main.c once more, with each access to an array checked: a read or a
-- write behind the end of `ioBuffer`, `sampleVector` or `response` is `none`.
pub mod Inside
use rfid_tool.Base.{
  ℕ, zero, suc, ◌+◌, ◌-◌, ◌/◌, ◌%◌, u8, u16, ◌>>>◌, ◌<<<◌, bit_and, bit_or, ◌==◌, if◌then◌else◌,
  Bool, true, false, Option, none, some, List, [], ◌∷◌, length,
}
use rfid_tool.Firmware.{
  Firmware, State, idle, starting, wait_condition, rx, tx, finished, with_state, pulse_vector_size,
  sample_buffer_size, prescaller_stop, coil_start, coil_stop,
}
use rfid_tool.Firmware.Sampler.{
  is_minus_one, compare_signal, edge_seen, begin_transfer, count_timeout,
}
use rfid_tool.Firmware.Setup.{
  SetupData, Reply, start_transfer, status_of, firmware_version_major, firmware_version_minor,
}
use rfid_tool.Firmware.Transmitter.{stop_tx}
use rfid_tool.Firmware.Usb.{
  Target, target_size, contents, with_contents, Request, coil_enable, get_version, get_buffer_size,
  reset, transfer_start, transfer_status, vector_access, invalid, request_of, unknown, status_value,
  rc_ok, rc_invalid_cmd, rc_invalid_val,
}

infixl 5 ◌>>=◌
abbrev pub ◌>>=◌ : {A B : Type 0} → Option A → (A → Option B) → Option B
none >>= next = none
some a >>= next = next a

abbrev pub at : List ℕ → ℕ → Option ℕ
at [] i = none
at (x ∷ xs) zero = some x
at (x ∷ xs) (suc i) = at xs i

abbrev pub put : List ℕ → ℕ → ℕ → Option (List ℕ)
put [] i v = none
put (x ∷ xs) zero v = some (v ∷ xs)
put (x ∷ xs) (suc i) v = put xs i v >>= λ ys. some (x ∷ ys)

unfoldable pub checked_store_signal : Firmware → Option Firmware
checked_store_signal f = do
  let mask = 1 <<< f.op_offset % 8
  byte ← at f.io_buffer (f.op_offset / 8)
  buffer ←
      put f.io_buffer (f.op_offset / 8)
        (if f.adc_last_signal == 0 then bit_and byte (255 - mask) else u8 (bit_or byte mask))
  some (record f { io_buffer = buffer })

unfoldable pub checked_record_signal : Firmware → Option Firmware
checked_record_signal f = do
  stored ← checked_store_signal f
  let next = record stored { op_offset = u16 (stored.op_offset + 1) }
  some (
      if next.op_offset == next.op_length then with_state (prescaller_stop next) finished else next)

unfoldable pub checked_on_signal : Firmware → ℕ → Option Firmware
checked_on_signal f old_signal = elim f.ctx.state [
  | wait_condition ↦ some (if edge_seen f old_signal then begin_transfer f else count_timeout f)
  | idle ↦ checked_record_signal f
  | starting ↦ checked_record_signal f
  | rx ↦ checked_record_signal f
  | tx ↦ checked_record_signal f
  | finished ↦ checked_record_signal f
]

-- `ISR(ADC_vect)`
unfoldable pub checked_conversion : Firmware → ℕ → Option Firmware
checked_conversion f adch =
    let cleared = record f { prescaler = record (f.prescaler) { compare_flag = false } } in
    let compared = compare_signal cleared adch in
    if is_minus_one f.adc_last_signal
    then some compared
    else checked_on_signal compared f.adc_last_signal

unfoldable pub checked_pulse_idx : Firmware → Option ℕ
checked_pulse_idx f = do
  byte ← at f.io_buffer (f.op_offset >>> 1)
  some (if bit_and f.op_offset 1 == 0 then bit_and byte 0x0f else byte >>> 4)

unfoldable pub checked_emit_pulse : Firmware → ℕ → Option Firmware
checked_emit_pulse f idx = do
  width ← at f.sample_vector (bit_and idx 0x07)
  some (record f {
    prescaler = record (f.prescaler) { ocr0a = u8 (width + 255) };
    coil_output = if bit_and idx 0x08 == 0 then true else false;
    op_offset = u16 (f.op_offset + 1);
  })

abbrev pub checked_pulse : Firmware → ℕ → Option Firmware
checked_pulse f idx =
    if bit_and idx 0x07 == 0x07 then some (stop_tx f) else checked_emit_pulse f idx

-- `ISR(TIMER0_COMPA_vect)`
unfoldable pub checked_timer_match : Firmware → Option Firmware
checked_timer_match f =
    if f.op_offset == f.op_length
    then some (stop_tx f)
    else (checked_pulse_idx f >>= checked_pulse f)

-- The loop of `usbFunctionRead`
unfoldable pub checked_read_loop : ℕ → Target → Firmware → Option (Firmware × List ℕ)
checked_read_loop zero t f = some (f, [])
checked_read_loop (suc left) t f =
    let next = record f { io_buffer_offset = u8 (f.io_buffer_offset + 1) } in
    let rest = checked_read_loop left t next in
    if f.io_buffer_offset == target_size t
    then some (f, [])
    else (at (contents f t) f.io_buffer_offset >>= λ byte. rest >>= λ r. some (r.0, byte ∷ r.1))

abbrev pub stored : Firmware → Target → List ℕ → Firmware
stored f t array = record (with_contents f t array) {
  io_buffer_offset = u8 (f.io_buffer_offset + 1);
}

-- The loop of `usbFunctionWrite`
unfoldable pub checked_write_loop : List ℕ → Target → Firmware → Option (Firmware × ℕ)
checked_write_loop [] t f = some (f, 0)
checked_write_loop (b ∷ bs) t f =
    let more = λ (array : List ℕ). checked_write_loop bs t (stored f t array) in
    if f.io_buffer_offset == target_size t
    then some (f, 0)
    else (put (contents f t) f.io_buffer_offset b >>= λ array.
        more array >>= λ r. some (r.0, suc r.1))

-- `response[ret++] = …` for each byte, from the index `ret` on.
unfoldable pub checked_fill : List ℕ → (ret : ℕ) → List ℕ → Option (List ℕ)
checked_fill [] ret response = some response
checked_fill (b ∷ bs) ret response = put response ret b >>= λ next. checked_fill bs (suc ret) next

unfoldable pub checked_respond : Firmware → List ℕ → Option Reply
checked_respond f bytes = do
  response ← checked_fill bytes 0 f.response
  some (record f { response = response }, length bytes)

unfoldable pub checked_answer_status : Firmware → SetupData → Option Reply
checked_answer_status f rq =
    if rq.index == f.ctx.id
    then checked_respond f (
        rc_ok ∷ status_value (status_of f) ∷ u8 (f.op_offset >>> 8) ∷ bit_and f.op_offset 0xff ∷ [])
    else checked_respond f (rc_invalid_val ∷ status_value unknown ∷ 0 ∷ 0 ∷ [])

-- The branches of the switch in `usbFunctionSetup`.
unfoldable pub checked_handle : Request → Firmware → SetupData → Option Reply
checked_handle coil_enable f rq = some (if rq.value == 0 then coil_stop f else coil_start f, 0)
checked_handle get_version f rq =
    checked_respond f (rc_ok ∷ firmware_version_major ∷ firmware_version_minor ∷ [])
checked_handle get_buffer_size f rq = checked_respond f (
    rc_ok
    ∷ 4
    ∷ 1
    ∷ (sample_buffer_size >>> 8)
    ∷ bit_and sample_buffer_size 0xff
    ∷ (pulse_vector_size >>> 8)
    ∷ bit_and pulse_vector_size 0xff
    ∷ [])
checked_handle reset f rq = checked_respond (record f { command = rq.request }) (rc_ok ∷ [])
checked_handle transfer_start f rq =
    (let started = start_transfer f rq in checked_respond started (rc_ok ∷ started.ctx.id ∷ []))
checked_handle transfer_status f rq = checked_answer_status f rq
checked_handle vector_access f rq =
    some (record f { io_buffer_offset = 0; command = rq.request }, 0xff)
checked_handle invalid f rq = checked_respond f (rc_invalid_cmd ∷ [])

unfoldable pub checked_setup : Firmware → SetupData → Option Reply
checked_setup f rq = checked_handle (request_of rq.request) f rq
