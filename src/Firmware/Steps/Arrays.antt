-- ===== src/Firmware/Steps/Arrays.antt =====
-- The arrays of firmware/src/main.c and the offsets into them: which elements each step touches.
use rfid_tool.Base.{
  ℕ, zero, suc, ◌+◌, ◌/◌, ◌≡◌, refl, ap, ◌∙◌, u8, ◌==◌, leb, Bool, true, false, ◌||◌, if◌then◌else◌,
  none, some, List, [], ◌∷◌, length, set, length-set, Bool-cases, inl, inr, arith,
}
use rfid_tool.Firmware.{Firmware, adc_lo, adc_hi, prescaller_start, prescaller_stop}
use rfid_tool.Firmware.MainLoop.{
  poll, transfer_step, on_starting, on_finished, prepare, first_state,
}
use rfid_tool.Firmware.Sampler.{
  conversion, compare_signal, on_signal, edge_seen, begin_transfer, count_timeout, record_signal,
  store_signal,
}
use rfid_tool.Firmware.Setup.{
  SetupData, usb_function_setup, handle, respond, start_transfer, answer_status,
}
use rfid_tool.Firmware.Transmitter.{timer_match, stop_tx, emit_pulse}
use rfid_tool.Firmware.Usb.{
  Target, widths, data_buffer, target_size, contents, with_contents, read_target, read_loop,
  write_target, write_loop,
}

-- The size of the array that the last command for an array was about, as far as `command` tells.
abbrev pub selected_size : ℕ → ℕ
selected_size command = if command == 6 || command == 7 then 7 else 192

abbrev pub is_selected : Firmware → Bool
is_selected f = leb f.io_buffer_offset (selected_size f.command)

pub record Arrays (f : Firmware) : Type 0 where
  pub buffer : length f.io_buffer ≡ 192
  pub vector : length f.sample_vector ≡ 7
  pub answer : length f.response ≡ 7
  pub offset : is_selected f ≡ true
  pub low : f.adc_low_val ≡ adc_lo
  pub high : f.adc_hi_val ≡ adc_hi

store_signal-length : (f : Firmware) → length (store_signal f).io_buffer ≡ length f.io_buffer
unfolding store_signal
store_signal-length f = length-set f.io_buffer (f.op_offset / 8) _

record_signal-length : (f : Firmware) → length (record_signal f).io_buffer ≡ length f.io_buffer
unfolding record_signal prescaller_stop
record_signal-length f = ground (arith, store_signal-length f)

on_signal-length :
    (f : Firmware) (old : ℕ) → length (on_signal f old).io_buffer ≡ length f.io_buffer
unfolding on_signal edge_seen begin_transfer count_timeout prescaller_start prescaller_stop
on_signal-length f old = ground (arith, record_signal-length f)

pub conversion-length :
    (f : Firmware) (v : ℕ) → length (conversion f v).io_buffer ≡ length f.io_buffer
unfolding conversion compare_signal
conversion-length f v =
    let cleared : Firmware = record f {
      prescaler = record (f.prescaler) { compare_flag = false };
    } in
    let compared : Firmware = compare_signal cleared v in
    let same : length compared.io_buffer ≡ length f.io_buffer = ground arith in
    on_signal-length compared f.adc_last_signal ∙ same

pub conversion-Arrays : (f : Firmware) (v : ℕ) → Arrays f → Arrays (conversion f v)
unfolding conversion compare_signal on_signal edge_seen begin_transfer count_timeout record_signal
    store_signal prescaller_start prescaller_stop
conversion-Arrays f v a = record {
  buffer = conversion-length f v ∙ a.buffer;
  vector = ground (arith, a.vector);
  answer = ground (arith, a.answer);
  offset = ground (arith, a.offset);
  low = ground (arith, a.low);
  high = ground (arith, a.high);
}

pub timer_match-Arrays : (f : Firmware) → Arrays f → Arrays (timer_match f)
unfolding timer_match stop_tx emit_pulse prescaller_stop
timer_match-Arrays f a = record {
  buffer = ground (arith, a.buffer);
  vector = ground (arith, a.vector);
  answer = ground (arith, a.answer);
  offset = ground (arith, a.offset);
  low = ground (arith, a.low);
  high = ground (arith, a.high);
}

pub poll-Arrays : (f g : Firmware) → poll f ≡ some g → Arrays f → Arrays g
unfolding poll transfer_step on_starting on_finished prepare first_state prescaller_start
    prescaller_stop
poll-Arrays f g e a = record {
  buffer = ground (arith, a.buffer);
  vector = ground (arith, a.vector);
  answer = ground (arith, a.answer);
  offset = ground (arith, a.offset);
  low = ground (arith, a.low);
  high = ground (arith, a.high);
}

pub setup-Arrays : (f : Firmware) (rq : SetupData) → Arrays f → Arrays (usb_function_setup f rq).0
unfolding usb_function_setup handle respond start_transfer answer_status
setup-Arrays f rq a = record {
  buffer = ground (arith, a.buffer);
  vector = ground (arith, a.vector);
  answer = ground (arith, a.answer);
  offset = ground (arith, a.offset);
  low = ground (arith, a.low);
  high = ground (arith, a.high);
}

pub stored-Arrays :
    (f : Firmware) (t : Target) (b : ℕ)
    → selected_size f.command ≡ target_size t
    → (f.io_buffer_offset == target_size t) ≡ false
    → Arrays f
    → Arrays (record (with_contents f t (set (contents f t) f.io_buffer_offset b)) {
      io_buffer_offset = u8 (f.io_buffer_offset + 1);
    })
stored-Arrays f widths b c e a = record {
  buffer = a.buffer;
  vector = length-set f.sample_vector f.io_buffer_offset b ∙ a.vector;
  answer = a.answer;
  offset = ground (arith, a.offset);
  low = ground (arith, a.low);
  high = ground (arith, a.high);
}
stored-Arrays f data_buffer b c e a = record {
  buffer = length-set f.io_buffer f.io_buffer_offset b ∙ a.buffer;
  vector = a.vector;
  answer = a.answer;
  offset = ground (arith, a.offset);
  low = ground (arith, a.low);
  high = ground (arith, a.high);
}

pub stored-command :
    (f : Firmware) (t : Target) (xs : List ℕ) → (with_contents f t xs).command ≡ f.command
stored-command f widths xs = refl
stored-command f data_buffer xs = refl

pub write_loop-Arrays :
    (bs : List ℕ) (t : Target) (f : Firmware)
    → selected_size f.command ≡ target_size t
    → Arrays f
    → Arrays (write_loop bs t f).0
unfolding write_loop
write_loop-Arrays [] t f c a = a
write_loop-Arrays (b ∷ bs) t f c a =
    let array = set (contents f t) f.io_buffer_offset b in
    let next : Firmware = record (with_contents f t array) {
      io_buffer_offset = u8 (f.io_buffer_offset + 1);
    } in
    elim (Bool-cases (f.io_buffer_offset == target_size t)) [
      | inl e ↦ rw e a
      | inr e ↦ rw e (
          write_loop-Arrays bs t next (ap selected_size (stored-command f t array) ∙ c)
            (stored-Arrays f t b c e a))
    ]

pub read_loop-Arrays :
    (n : ℕ) (t : Target) (f : Firmware)
    → selected_size f.command ≡ target_size t
    → Arrays f
    → Arrays (read_loop n t f).0
unfolding read_loop
read_loop-Arrays zero t f c a = a
read_loop-Arrays (suc n) t f c a =
    let next : Firmware = record f { io_buffer_offset = u8 (f.io_buffer_offset + 1) } in
    elim (Bool-cases (f.io_buffer_offset == target_size t)) [
      | inl e ↦ rw e a
      | inr e ↦ rw e (
          read_loop-Arrays n t next c (record {
            buffer = a.buffer;
            vector = a.vector;
            answer = a.answer;
            offset = elim (read_target f.command) [
              | none ↦ ground (arith, a.offset)
              | some u ↦ ground (arith, a.offset)
            ];
            low = a.low;
            high = a.high;
          }))
    ]

pub write_target-size :
    (command : ℕ) (t : Target)
    → write_target command ≡ some t
    → selected_size command ≡ target_size t
write_target-size command t e = ground arith

pub read_target-size :
    (command : ℕ) (t : Target)
    → read_target command ≡ some t
    → selected_size command ≡ target_size t
read_target-size command t e = ground arith
