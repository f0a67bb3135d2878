-- ===== src/Firmware/Sampler/Recording.antt =====
-- What the sampler of firmware/src/main.c records into its buffer.
use mathlib.Core.Path.{subst}
use rfid_tool.Base.{ℕ, suc, ◌+◌, ◌*◌, ◌/◌, ◌%◌, ◌^◌, ◌<◌, ◌≡◌, refl, sym, ap, ap₂, ◌∙◌, arith}
use rfid_tool.Base.{Bool, false, not, leb, ◌==◌, if◌then◌else◌}
use rfid_tool.Base.{
  List, [], ◌∷◌, ◌++◌, append_assoc, length, get_or, set, take, length-append, length-set,
  take-set-suc, take-length,
}
use rfid_tool.Firmware.{Firmware, rx, finished, prescaller_stop}
use rfid_tool.Firmware.Sampler.{compare_signal, store_signal, record_signal, on_signal, conversion}
use rfid_tool.Firmware.Sampler.Bytes.{byte_bits, length-byte_bits, with_bit, byte_bits-with_bit}
use rfid_tool.Firmware.Sampler.{conversions}

-- The signal that a voltage gives: 0 from the upper threshold, 1 up to the lower, else the last.
abbrev pub next_signal : Firmware → ℕ → ℕ → ℕ
next_signal f last v = if leb f.adc_hi_val v then 0 else if leb v f.adc_low_val then 1 else last

-- The signals of a run of voltages, as bits.
abbrev pub heard : Firmware → ℕ → List ℕ → List Bool
heard f last [] = []
heard f last (v ∷ vs) = not (next_signal f last v == 0) ∷ heard f (next_signal f last v) vs

-- The state in which the conversion records.
abbrev listening : Firmware → ℕ → Firmware
listening f v = record f {
  prescaler = record (f.prescaler) { compare_flag = false };
  adc_last_signal = next_signal f f.adc_last_signal v;
}

compare_signal-listening :
    (f : Firmware) (v : ℕ)
    → compare_signal (record f { prescaler = record (f.prescaler) { compare_flag = false } }) v
      ≡ listening f v
unfolding compare_signal
compare_signal-listening f v = ground arith

record Recorded (f : Firmware) (signal : ℕ) (g : Firmware) : Type 0 where
  buffer :
      g.io_buffer
      ≡ set f.io_buffer
          (f.op_offset / 8)
          (with_bit (get_or f.io_buffer (f.op_offset / 8) 0) (f.op_offset % 8) (not (signal == 0)))
  offset : g.op_offset ≡ f.op_offset + 1
  len : g.op_length ≡ f.op_length
  high : g.adc_hi_val ≡ f.adc_hi_val
  low : g.adc_low_val ≡ f.adc_low_val
  last : g.adc_last_signal ≡ signal
  going : f.op_offset + 1 < f.op_length → g.ctx.state ≡ rx
  ended : f.op_offset + 1 ≡ f.op_length → (g.ctx.state ≡ finished) × (g.prescaler.running ≡ false)

record_signal-buffer :
    (f : Firmware)
    → (record_signal f).io_buffer
      ≡ set f.io_buffer (f.op_offset / 8) (
          with_bit
            (get_or f.io_buffer (f.op_offset / 8) 0)
            (f.op_offset % 8)
            (not (f.adc_last_signal == 0)))
unfolding record_signal store_signal prescaller_stop
record_signal-buffer f = ground arith

record_signal-Recorded :
    (f : Firmware)
    → f.ctx.state ≡ rx
    → f.op_offset < f.op_length
    → f.op_length < 2 ^ 16
    → Recorded f f.adc_last_signal (record_signal f)
unfolding record_signal store_signal prescaller_stop
record_signal-Recorded f s h bound = record {
  buffer = record_signal-buffer f;
  offset = ground arith;
  len = ground arith;
  high = ground arith;
  low = ground arith;
  last = ground arith;
  going = λ k. ground arith;
  ended = λ k. ground arith;
}

on_signal-rx :
    (g : Firmware) (old_signal : ℕ) → g.ctx.state ≡ rx → on_signal g old_signal ≡ record_signal g
unfolding on_signal
on_signal-rx g old_signal s = ground arith

conversion-recording :
    (f : Firmware) (v : ℕ) → f.ctx.state ≡ rx → conversion f v ≡ record_signal (listening f v)
unfolding conversion
conversion-recording f v s =
    ap (λ g. on_signal g f.adc_last_signal) (compare_signal-listening f v)
    ∙ on_signal-rx (listening f v) f.adc_last_signal s

conversion-Recorded :
    (f : Firmware) (v : ℕ)
    → f.ctx.state ≡ rx
    → f.op_offset < f.op_length
    → f.op_length < 2 ^ 16
    → Recorded f (next_signal f f.adc_last_signal v) (conversion f v)
conversion-Recorded f v s h bound =
    let r = record_signal-Recorded (listening f v) s h bound in
    subst (Recorded f (next_signal f f.adc_last_signal v)) (sym (conversion-recording f v s))
      (record {
        buffer = r.buffer;
        offset = r.offset;
        len = r.len;
        high = r.high;
        low = r.low;
        last = r.last;
        going = r.going;
        ended = r.ended;
      })

-- The recording is complete and the sampler's timer stopped.
pub record IsRecorded (g : Firmware) (signals : List Bool) : Type 0 where
  pub bits : byte_bits g.io_buffer ≡ signals
  pub state : g.ctx.state ≡ finished
  pub timer : g.prescaler.running ≡ false

pub heard-same :
    (f g : Firmware) (last : ℕ) (vs : List ℕ)
    → g.adc_hi_val ≡ f.adc_hi_val
    → g.adc_low_val ≡ f.adc_low_val
    → heard g last vs ≡ heard f last vs
heard-same f g last [] h l = refl
heard-same f g last (v ∷ vs) h l =
    let same : next_signal g last v ≡ next_signal f last v =
      ap₂ (λ a b. if leb a v then 0 else if leb v b then 1 else last) h l in
    ap₂ (λ a bs. not (a == 0) ∷ bs) same
      (heard-same f g (next_signal g last v) vs h l ∙ ap (λ a. heard f a vs) same)

-- The buffer after one conversion, of which the first bits are `before`.
prefix-Recorded :
    (f g : Firmware) (signal : ℕ) (before : List Bool)
    → Recorded f signal g
    → length before ≡ f.op_offset
    → f.op_offset < 8 * length f.io_buffer
    → take (length before) (byte_bits f.io_buffer) ≡ before
    → (take (length (before ++ not (signal == 0) ∷ [])) (byte_bits g.io_buffer)
        ≡ before ++ not (signal == 0) ∷ [])
      × (length g.io_buffer ≡ length f.io_buffer)
prefix-Recorded f g signal before r at room p =
    let b = not (signal == 0) in
    let bits = byte_bits f.io_buffer in
    let size : length (before ++ b ∷ []) ≡ suc (length before) =
      omega (arith, length-append {0} before (b ∷ [])) in
    let written : byte_bits g.io_buffer ≡ set bits (length before) b =
      ap byte_bits r.buffer
      ∙ (byte_bits-with_bit f.io_buffer (f.op_offset / 8) (f.op_offset % 8) b (omega arith)
            (omega arith)
          ∙ ap (λ k. set bits k b) (omega (arith, at))) in
    (
      ap₂ take size written
          ∙ (take-set-suc bits (length before) b (omega (arith, at, length-byte_bits f.io_buffer))
              ∙ ap (λ r. r ++ b ∷ []) p),
      ap length r.buffer ∙ length-set {0} f.io_buffer (f.op_offset / 8) _,
    )

conversions-heard :
    (v : ℕ) (vs : List ℕ) (f : Firmware) (before : List Bool)
    → f.ctx.state ≡ rx
    → length before ≡ f.op_offset
    → f.op_offset + suc (length vs) ≡ f.op_length
    → f.op_length ≡ 8 * length f.io_buffer
    → f.op_length < 2 ^ 16
    → take (length before) (byte_bits f.io_buffer) ≡ before
    → IsRecorded (conversions f (v ∷ vs)) (before ++ heard f f.adc_last_signal (v ∷ vs))
conversions-heard v [] f before s at rest len bound p =
    let signal = next_signal f f.adc_last_signal v in
    let g = conversion f v in
    let r = conversion-Recorded f v s (omega arith) bound in
    let (q, same) = prefix-Recorded f g signal before r at (omega arith) p in
    let bits = byte_bits g.io_buffer in
    let ended = r.ended (omega arith) in
    let all : length bits ≡ length (before ++ not (signal == 0) ∷ []) = omega (
      arith,
      length-byte_bits g.io_buffer,
      same,
      length-append {0} before (not (signal == 0) ∷ []),
      at,
    ) in
    record {
      bits = sym (take-length bits) ∙ (ap (λ k. take k bits) all ∙ q);
      state = ended.0;
      timer = ended.1;
    }
conversions-heard v (w ∷ vs) f before s at rest len bound p =
    let signal = next_signal f f.adc_last_signal v in
    let b = not (signal == 0) in
    let g = conversion f v in
    let r = conversion-Recorded f v s (omega arith) bound in
    let (q, same) = prefix-Recorded f g signal before r at (omega arith) p in
    let more : g.op_offset ≡ suc f.op_offset = omega (arith, r.offset) in
    let later =
      conversions-heard w vs g (before ++ b ∷ []) (r.going (omega arith))
        (omega (arith, length-append {0} before (b ∷ []), at, more)) (omega (arith, more, r.len))
        (r.len ∙ omega (arith, len, same)) (omega (arith, r.len)) q in
    let signals : heard g g.adc_last_signal (w ∷ vs) ≡ heard f signal (w ∷ vs) =
      ap (λ a. heard g a (w ∷ vs)) r.last ∙ heard-same f g signal (w ∷ vs) r.high r.low in
    subst (IsRecorded (conversions g (w ∷ vs)))
      (append_assoc before (b ∷ []) _ ∙ ap (λ bs. before ++ b ∷ bs) signals) later

-- A receiving transfer at the start of its buffer, with as many bits to go as the buffer has (fewer
-- than 65536), and one conversion for each: the buffer then holds, bit by bit and in order, the
-- signals of the voltages under the comparator with two thresholds, the transfer is finished and
-- its timer stopped.
pub conversions-recording :
    (v : ℕ) (vs : List ℕ) (f : Firmware)
    → f.ctx.state ≡ rx
    → f.op_offset ≡ 0
    → f.op_length ≡ suc (length vs)
    → f.op_length ≡ 8 * length f.io_buffer
    → f.op_length < 2 ^ 16
    → IsRecorded (conversions f (v ∷ vs)) (heard f f.adc_last_signal (v ∷ vs))
conversions-recording v vs f s at len size bound =
    conversions-heard v vs f [] s (sym at) (omega arith) size bound refl
