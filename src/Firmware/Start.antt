-- ===== src/Firmware/Start.antt =====
-- The start of firmware/src/main.c: the initial values of its variables, `_init` and what `main` does
-- before its loop. The calls of the USB driver and the delay act on no part of this state.
use rfid_tool.Base.{
  ℕ, zero, suc, ◌+◌, ◌<◌, ◌^◌, ◌≡◌, refl, ap, ◌∙◌, if◌then◌else◌, Bool, true, false, Option, none,
  some, replicate, Bool-cases, inl, inr, arith,
}
use rfid_tool.Firmware.{
  Firmware, Prescaler, idle, pulse_vector_size, sample_buffer_size, prescaler_minimal_value, adc_hi,
  adc_lo, coil_start,
}

-- The variables, and the bits that only the start sets, under their names in the code. `converting`
-- is ADSC during the first conversion, which the converter clears; `coil_high` and `gen_output` are
-- the bits of PORTB and DDRB for the coil and the generator.
pub record Board : Type 0 where
  pub device : Firmware
  pub pcke : Bool
  pub coil_high : Bool
  pub gen_output : Bool
  pub ocr1c : ℕ
  pub ctc1 : Bool
  pub cs10 : Bool
  pub wgm01 : Bool
  pub adlar : Bool
  pub adps2 : Bool
  pub aden : Bool
  pub adts0 : Bool
  pub adts1 : Bool
  pub converting : Bool

-- The static variables as they are initialised, those without a value to zero; the registers are the
-- hardware's.
unfoldable pub with_static_values : Firmware → Firmware
with_static_values f = record f {
  command = 0;
  response = replicate 7 0;
  sample_vector = replicate pulse_vector_size 0;
  io_buffer = replicate sample_buffer_size 0;
  io_buffer_offset = 0;
  op_length = 0;
  op_offset = 0;
  ctx = record {
    state = idle;
    timeout = 0;
    timed_out = false;
    falling_edge = false;
    prescaler_comp_on_start = false;
    edge_start = false;
    transmit = false;
    prescaler_value = prescaler_minimal_value;
    id = 0;
  };
  adc_last_signal = 0;
  adc_low_val = adc_lo;
  adc_hi_val = adc_hi;
}

abbrev pub coil_init : Board → Board
coil_init b = record b { gen_output = true; ocr1c = 65; ctc1 = true; cs10 = true }

abbrev pub prescaller_init : Board → Board
prescaller_init b = record b {
  device = record (b.device) { prescaler = record (b.device.prescaler) { compare_flag = false } };
  wgm01 = true;
}

-- `while(! (ADCSRA & _BV(ADIF)));`, with what each read of ADIF gives; `none` is a wait that has not
-- ended.
unfoldable pub await_conversion : (ℕ → Bool) → ℕ → ℕ → Option ℕ
await_conversion adif zero reads = none
await_conversion adif (suc fuel) reads =
    let rest = await_conversion adif fuel (suc reads) in if adif reads then some reads else rest

abbrev pub adc_configured : Board → Board
adc_configured b = record b {
  adlar = true;
  adps2 = true;
  aden = true;
  adts0 = true;
  adts1 = true;
  converting = true;
}

abbrev pub adc_converted : Board → Option ℕ → Option Board
adc_converted b none = none
adc_converted b (some reads) = some (record b { converting = false })

unfoldable pub adc_init : (ℕ → Bool) → ℕ → Board → Option Board
adc_init adif fuel b = adc_converted (adc_configured b) (await_conversion adif fuel 0)

-- `_init`
unfoldable pub init : (ℕ → Bool) → ℕ → Board → Option Board
init adif fuel b =
    let disconnected = record b {
      device = record (b.device) { coil_output = false };
      pcke = false;
      coil_high = false;
    } in
    adc_init adif fuel (prescaller_init (coil_init disconnected))

abbrev pub with_coil_started : Option Board → Option Board
with_coil_started none = none
with_coil_started (some b) = some (record b { device = coil_start b.device })

-- `main` up to its loop.
unfoldable pub start : (ℕ → Bool) → ℕ → Board → Option Board
start adif fuel b = with_coil_started (
    init adif fuel
      (record b { device = record (with_static_values b.device) { interrupts = false } }))

-- The state at the entry of the loop.
unfoldable pub started : Board → Board
started b = record {
  device = record (with_static_values b.device) {
    prescaler = record (b.device.prescaler) { compare_flag = false };
    coil_output = false;
    coil_running = true;
    interrupts = false;
  };
  pcke = false;
  coil_high = false;
  gen_output = true;
  ocr1c = 65;
  ctc1 = true;
  cs10 = true;
  wgm01 = true;
  adlar = true;
  adps2 = true;
  aden = true;
  adts0 = true;
  adts1 = true;
  converting = false;
}

-- A microcontroller after its reset has the timer's interrupt off, and registers of eight bits.
pub record IsReset (p : Prescaler) : Type 0 where
  pub off : p.interrupt ≡ false
  pub ocr0a : p.ocr0a < 2 ^ 8
  pub tcnt0 : p.tcnt0 < 2 ^ 8

await_conversion_ends :
    (adif : ℕ → Bool) (fuel reads n : ℕ)
    → adif (reads + n) ≡ true
    → n < fuel
    → (k : ℕ) × (await_conversion adif fuel reads ≡ some k)
unfolding await_conversion
await_conversion_ends adif zero reads n e h = absurd (omega arith)
await_conversion_ends adif (suc fuel) reads zero e h =
    let now : adif reads ≡ true = ap adif (omega arith) ∙ e in (reads, ground arith)
await_conversion_ends adif (suc fuel) reads (suc n) e h =
    let (k, later) =
      await_conversion_ends adif fuel (suc reads) n (ap adif (omega arith) ∙ e) (omega arith) in
    elim (Bool-cases (adif reads)) [ inl t ↦ (reads, ground arith) | inr t ↦ (k, ground arith) ]

pub start-started :
    (b : Board) (adif : ℕ → Bool) (fuel n : ℕ)
    → adif n ≡ true
    → n < fuel
    → start adif fuel b ≡ some (started b)
unfolding start started init adc_init with_static_values
start-started b adif fuel n e h =
    let (k, done) = await_conversion_ends adif fuel 0 n (ap adif (omega arith) ∙ e) h in
    rw done refl
