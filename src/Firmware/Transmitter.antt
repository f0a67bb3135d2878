-- ===== src/Firmware/Transmitter.antt =====
-- The transmitter of firmware/src/main.c: the interrupt of the compare match on timer 0.
pub mod Playback
pub mod Kept
use rfid_tool.Base.{ℕ, ◌+◌, u8, u16, ◌>>>◌, bit_and, ◌==◌, if◌then◌else◌, true, false, get_or}
use rfid_tool.Firmware.{Firmware, finished, with_state, prescaller_stop}

unfoldable pub stop_tx : Firmware → Firmware
stop_tx f = with_state (record (prescaller_stop f) { coil_output = false }) finished

-- The nibble of the buffer at `opOffset`: the low one of a byte first.
unfoldable pub pulse_idx : Firmware → ℕ
pulse_idx f =
    let byte = get_or f.io_buffer (f.op_offset >>> 1) 0 in
    if bit_and f.op_offset 1 == 0 then bit_and byte 0x0f else byte >>> 4

unfoldable pub emit_pulse : Firmware → ℕ → Firmware
emit_pulse f idx = record f {
  prescaler = record (f.prescaler) {
    ocr0a = u8 (get_or f.sample_vector (bit_and idx 0x07) 0 + 255);
  };
  coil_output = if bit_and idx 0x08 == 0 then true else false;
  op_offset = u16 (f.op_offset + 1);
}

-- `ISR(TIMER0_COMPA_vect)`
unfoldable pub timer_match : Firmware → Firmware
timer_match f =
    if f.op_offset == f.op_length
    then stop_tx f
    else if bit_and (pulse_idx f) 0x07 == 0x07
    then stop_tx f
    else emit_pulse f (pulse_idx f)
