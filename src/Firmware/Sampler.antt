-- ===== src/Firmware/Sampler.antt =====
-- The sampler of firmware/src/main.c: the interrupt at the end of an analog conversion.
pub mod Bytes
pub mod Recording
use rfid_tool.Base.{ℕ, ◌+◌, ◌-◌, ◌/◌, ◌%◌, u8, u16, ◌<<<◌, bit_and, bit_or, leb, ◌==◌}
use rfid_tool.Base.{if◌then◌else◌, Bool, true, false, not, ◌&&◌, get_or, set, List, [], ◌∷◌}
use rfid_tool.Firmware.{
  Firmware, wait_condition, rx, tx, finished, with_state, prescaller_start, prescaller_stop,
  adc_stop, idle, starting,
}

-- An unsigned byte, taken as an `int`, is never -1.
abbrev pub is_minus_one : ℕ → Bool
is_minus_one byte = false

-- The comparator with its two thresholds; between them the last signal stays.
unfoldable pub compare_signal : Firmware → ℕ → Firmware
compare_signal f adch =
    if leb f.adc_hi_val adch
    then record f { adc_last_signal = 0 }
    else if leb adch f.adc_low_val
    then record f { adc_last_signal = 1 }
    else f

unfoldable pub edge_seen : Firmware → ℕ → Bool
edge_seen f old_signal =
    if f.ctx.falling_edge
    then not (old_signal == 0) && (f.adc_last_signal == 0)
    else (old_signal == 0) && not (f.adc_last_signal == 0)

unfoldable pub begin_transfer : Firmware → Firmware
begin_transfer f =
    let c = f.ctx in
    if c.transmit
    then prescaller_start (adc_stop (prescaller_stop (with_state f tx))) true c.prescaler_value
        c.prescaler_comp_on_start
    else prescaller_start (prescaller_stop (with_state f rx)) false c.prescaler_value
        c.prescaler_comp_on_start

-- No edge yet: the timeout runs down, and ends the transfer.
unfoldable pub count_timeout : Firmware → Firmware
count_timeout f =
    if f.ctx.timeout == 0
    then prescaller_stop (record f { ctx = record (f.ctx) { state = finished; timed_out = true } })
    else record f { ctx = record (f.ctx) { timeout = f.ctx.timeout - 1 } }

-- One bit into the buffer, lowest bit of a byte first.
unfoldable pub store_signal : Firmware → Firmware
store_signal f =
    let mask = 1 <<< f.op_offset % 8 in
    let byte = get_or f.io_buffer (f.op_offset / 8) 0 in
    record f {
      io_buffer =
          set f.io_buffer (f.op_offset / 8)
            (if f.adc_last_signal == 0 then bit_and byte (255 - mask) else u8 (bit_or byte mask));
    }

unfoldable pub record_signal : Firmware → Firmware
record_signal f =
    let stored = store_signal f in
    let next = record stored { op_offset = u16 (stored.op_offset + 1) } in
    if next.op_offset == next.op_length then with_state (prescaller_stop next) finished else next

-- What the handler does for the state it finds, after the comparison.
unfoldable pub on_signal : Firmware → ℕ → Firmware
on_signal f old_signal = elim f.ctx.state [
  | wait_condition ↦ if edge_seen f old_signal then begin_transfer f else count_timeout f
  | idle ↦ record_signal f
  | starting ↦ record_signal f
  | rx ↦ record_signal f
  | tx ↦ record_signal f
  | finished ↦ record_signal f
]

-- `ISR(ADC_vect)`, with the value of ADCH.
unfoldable pub conversion : Firmware → ℕ → Firmware
conversion f adch =
    let cleared = record f { prescaler = record (f.prescaler) { compare_flag = false } } in
    let compared = compare_signal cleared adch in
    if is_minus_one f.adc_last_signal then compared else on_signal compared f.adc_last_signal

-- One conversion for each voltage.
abbrev pub conversions : Firmware → List ℕ → Firmware
conversions g [] = g
conversions g (v ∷ vs) = conversions (conversion g v) vs
