-- ===== src/Firmware.antt =====
-- firmware/src/main.c: the state of the device and the routines that its handlers share. A
-- register is kept as the bits that the code sets, clears or loads.
pub mod Transmitter
pub mod Sampler
pub mod Usb
pub mod Setup
pub mod MainLoop
pub mod Edge
pub mod Transfer
pub mod Reception
pub mod Calibration
pub mod Start
pub mod Round
pub mod Steps
pub mod Checked
use rfid_tool.Base.{
  ℕ, ◌+◌, ◌*◌, ◌-◌, ◌/◌, ◌≡◌, u8, ltb, if◌then◌else◌, Bool, true, false, List, length,
}

pub data State : Type 0 where
  idle starting wait_condition rx tx finished : State

-- `_CommonContext`; `transmit` is its flag `tx`.
pub record Context : Type 0 where
  pub state : State
  pub timeout : ℕ
  pub timed_out : Bool
  pub falling_edge : Bool
  pub prescaler_comp_on_start : Bool
  pub edge_start : Bool
  pub transmit : Bool
  pub prescaler_value : ℕ
  pub id : ℕ

-- Timer 0: OCR0A, TCNT0, its clock bits in TCCR0B, OCIE0A and OCF0A (which a store of 1 clears), and
-- TSM of GTCCR, which holds the prescaler.
pub record Prescaler : Type 0 where
  pub ocr0a : ℕ
  pub tcnt0 : ℕ
  pub running : Bool
  pub interrupt : Bool
  pub compare_flag : Bool
  pub held : Bool

pub record Firmware : Type 0 where
  pub command : ℕ
  pub response : List ℕ
  pub sample_vector : List ℕ
  pub io_buffer : List ℕ
  pub io_buffer_offset : ℕ
  pub op_length : ℕ
  pub op_offset : ℕ
  pub ctx : Context
  -- `adcLastSignal` as a byte: -1 is 255.
  pub adc_last_signal : ℕ
  pub adc_low_val : ℕ
  pub adc_hi_val : ℕ
  pub prescaler : Prescaler
  -- ADATE, ADIE and ADSC of ADCSRA, which always change together.
  pub adc_running : Bool
  -- The coil pin is an output, which drives it low.
  pub coil_output : Bool
  -- COM1A0 of TCCR1.
  pub coil_running : Bool
  pub interrupts : Bool

abbrev pub pulse_vector_size : ℕ
pulse_vector_size = 7

abbrev pub sample_buffer_size : ℕ
sample_buffer_size = 192

abbrev pub prescaler_minimal_value : ℕ
prescaler_minimal_value = 4

abbrev pub adc_hi : ℕ
adc_hi = u8 ((4750 - 100) * 255 / 4750)

abbrev pub adc_lo : ℕ
adc_lo = u8 ((4750 - 350) * 255 / 4750)

-- The arrays have their sizes, and the thresholds are those of the start.
pub record IsReady (f : Firmware) : Type 0 where
  pub buffer : length f.io_buffer ≡ 192
  pub vector : length f.sample_vector ≡ 7
  pub low : f.adc_low_val ≡ adc_lo
  pub high : f.adc_hi_val ≡ adc_hi

abbrev pub with_state : Firmware → State → Firmware
with_state f s = record f { ctx = record (f.ctx) { state = s } }

abbrev pub prescaller_start_at : ℕ → Bool → ℕ
prescaller_start_at value compare_on_start =
    if compare_on_start then if ltb 2 value then value - 2 else 0 else 0

unfoldable pub prescaller_start : Firmware → Bool → ℕ → Bool → Firmware
prescaller_start f interrupt value compare_on_start = record f {
  prescaler = record {
    ocr0a = u8 (value + 255);
    tcnt0 = prescaller_start_at value compare_on_start;
    running = true;
    interrupt = if interrupt then true else f.prescaler.interrupt;
    compare_flag = if interrupt then false else f.prescaler.compare_flag;
    held = false;
  };
}

unfoldable pub prescaller_stop : Firmware → Firmware
prescaller_stop f = record f {
  prescaler = record (f.prescaler) { running = false; interrupt = false };
}

abbrev pub adc_start : Firmware → Firmware
adc_start f = record f { adc_running = true }

abbrev pub adc_stop : Firmware → Firmware
adc_stop f = record f { adc_running = false }

abbrev pub coil_start : Firmware → Firmware
coil_start f = record f { coil_running = true }

abbrev pub coil_stop : Firmware → Firmware
coil_stop f = record f { coil_running = false }
