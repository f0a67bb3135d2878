-- ===== src/Firmware/Checked/Inside.antt =====
-- Where the indices are inside, the checked handlers of firmware/src/main.c do what the handlers do.
use rfid_tool.Base.{
  ℕ, zero, suc, ◌+◌, ◌/◌, ◌<◌, ◌≤◌, ◌≡◌, refl, sym, ap, ◌∙◌, u8, ◌>>>◌, bit_and, ◌==◌, ltb, ◌||◌,
  true, false, Bool-cases, inl, inr, some, List, [], ◌∷◌, ◌++◌, append_assoc, length, get_or, set,
  drop, length-append, arith,
}
use rfid_tool.Bits.{bit_and-bound}
use rfid_tool.Firmware.{Firmware}
use rfid_tool.Firmware.Checked.{
  ◌>>=◌, at, put, checked_store_signal, checked_record_signal, checked_on_signal,
  checked_conversion, checked_pulse_idx, checked_emit_pulse, checked_timer_match, checked_read_loop,
  checked_write_loop, stored, checked_fill, checked_respond, checked_answer_status, checked_handle,
  checked_setup,
}
use rfid_tool.Firmware.MainLoop.{is_waiting}
use rfid_tool.Firmware.Sampler.{conversion, compare_signal, on_signal, record_signal, store_signal}
use rfid_tool.Firmware.Setup.{
  SetupData, usb_function_setup, handle, respond, start_transfer, answer_status,
}
use rfid_tool.Firmware.Steps.Arrays.{Arrays, selected_size, stored-Arrays, stored-command}
use rfid_tool.Firmware.Steps.Phases.{is_phase}
use rfid_tool.Firmware.Transmitter.{timer_match, pulse_idx, emit_pulse}
use rfid_tool.Firmware.Usb.{
  Target, widths, data_buffer, target_size, contents, read_loop, write_loop, Request, coil_enable,
  get_version, get_buffer_size, reset, transfer_start, transfer_status, vector_access, invalid,
  request_of,
}

at-get_or : (xs : List ℕ) (i : ℕ) → i < length xs → at xs i ≡ some (get_or xs i 0)
at-get_or [] i h = absurd (omega arith)
at-get_or (x ∷ xs) zero h = refl
at-get_or (x ∷ xs) (suc i) h = at-get_or xs i (omega arith)

put-set : (xs : List ℕ) (i v : ℕ) → i < length xs → put xs i v ≡ some (set xs i v)
put-set [] i v h = absurd (omega arith)
put-set (x ∷ xs) zero v h = refl
put-set (x ∷ xs) (suc i) v h = rw (put-set xs i v (omega arith)) refl

store_signal_inside :
    (f : Firmware)
    → f.op_offset / 8 < length f.io_buffer
    → checked_store_signal f ≡ some (store_signal f)
unfolding checked_store_signal store_signal
store_signal_inside f h =
    rw (at-get_or f.io_buffer (f.op_offset / 8) h)
      (rw (put-set f.io_buffer (f.op_offset / 8) _ h) refl)

record_signal_inside :
    (f : Firmware)
    → f.op_offset / 8 < length f.io_buffer
    → checked_record_signal f ≡ some (record_signal f)
unfolding checked_record_signal record_signal
record_signal_inside f h = rw (store_signal_inside f h) refl

on_signal_inside :
    (f : Firmware) (old : ℕ)
    → (is_waiting f.ctx.state || ltb (f.op_offset / 8) (length f.io_buffer)) ≡ true
    → checked_on_signal f old ≡ some (on_signal f old)
unfolding checked_on_signal on_signal
on_signal_inside f old h = ground (arith, record_signal_inside f)

pub conversion_inside :
    (f : Firmware) (v : ℕ)
    → f.interrupts ≡ true
    → f.adc_running ≡ true
    → f.prescaler.running ≡ true
    → is_phase f ≡ true
    → Arrays f
    → checked_conversion f v ≡ some (conversion f v)
unfolding checked_conversion conversion compare_signal
conversion_inside f v on adc run p a =
    let cleared : Firmware = record f {
      prescaler = record (f.prescaler) { compare_flag = false };
    } in
    let compared : Firmware = compare_signal cleared v in
    let inside : (is_waiting compared.ctx.state
          || ltb (compared.op_offset / 8) (length compared.io_buffer))
        ≡ true =
      ground (arith, a.buffer) in
    on_signal_inside compared f.adc_last_signal inside

pulse_idx_inside :
    (f : Firmware)
    → f.op_offset >>> 1 < length f.io_buffer
    → checked_pulse_idx f ≡ some (pulse_idx f)
unfolding checked_pulse_idx pulse_idx
pulse_idx_inside f h = rw (at-get_or f.io_buffer (f.op_offset >>> 1) h) refl

emit_pulse_inside :
    (f : Firmware) (idx : ℕ)
    → bit_and idx 7 < length f.sample_vector
    → checked_emit_pulse f idx ≡ some (emit_pulse f idx)
unfolding checked_emit_pulse emit_pulse
emit_pulse_inside f idx h = rw (at-get_or f.sample_vector (bit_and idx 7) h) refl

pub timer_match_inside :
    (f : Firmware)
    → f.interrupts ≡ true
    → f.prescaler.interrupt ≡ true
    → f.prescaler.running ≡ true
    → is_phase f ≡ true
    → Arrays f
    → checked_timer_match f ≡ some (timer_match f)
unfolding checked_timer_match timer_match
timer_match_inside f on i run p a =
    let mask = bit_and-bound 3 (pulse_idx f) 7 in
    elim (Bool-cases (f.op_offset == f.op_length)) [
      | inl e ↦ rw e refl
      | inr e ↦
          (let room : f.op_offset >>> 1 < length f.io_buffer = ground (arith, a.buffer) in
            let fetched = pulse_idx_inside f room in
            elim (Bool-cases (bit_and (pulse_idx f) 7 == 7)) [
              | inl z ↦ rw (e, fetched, z) refl
              | inr z ↦
                  (let few : bit_and (pulse_idx f) 7 < length f.sample_vector =
                      ground (arith, a.vector, mask) in
                    rw (e, fetched, z) (emit_pulse_inside f (pulse_idx f) few))
            ])
    ]

contents-length : (f : Firmware) (t : Target) → Arrays f → length (contents f t) ≡ target_size t
contents-length f widths a = a.vector
contents-length f data_buffer a = a.buffer

inside_contents :
    (f : Firmware) (t : Target)
    → selected_size f.command ≡ target_size t
    → (f.io_buffer_offset == target_size t) ≡ false
    → Arrays f
    → f.io_buffer_offset < length (contents f t)
inside_contents f t c e a = ground (arith, a.offset, contents-length f t a)

pub write_loop_inside :
    (bs : List ℕ) (t : Target) (f : Firmware)
    → selected_size f.command ≡ target_size t
    → Arrays f
    → checked_write_loop bs t f ≡ some (write_loop bs t f)
unfolding checked_write_loop write_loop
write_loop_inside [] t f c a = refl
write_loop_inside (b ∷ bs) t f c a =
    let array = set (contents f t) f.io_buffer_offset b in
    elim (Bool-cases (f.io_buffer_offset == target_size t)) [
      | inl e ↦ rw e refl
      | inr e ↦
          (let next : Firmware = stored f t array in
            let rest =
              write_loop_inside bs t next (ap selected_size (stored-command f t array) ∙ c)
                (stored-Arrays f t b c e a) in
            rw (e, put-set (contents f t) f.io_buffer_offset b (inside_contents f t c e a))
              (rw rest refl))
    ]

pub read_loop_inside :
    (n : ℕ) (t : Target) (f : Firmware)
    → selected_size f.command ≡ target_size t
    → Arrays f
    → checked_read_loop n t f ≡ some (read_loop n t f)
unfolding checked_read_loop read_loop
read_loop_inside zero t f c a = refl
read_loop_inside (suc n) t f c a =
    let next : Firmware = record f { io_buffer_offset = u8 (f.io_buffer_offset + 1) } in
    elim (Bool-cases (f.io_buffer_offset == target_size t)) [
      | inl e ↦ rw e refl
      | inr e ↦
          (let moved : Arrays next = record {
            buffer = a.buffer;
            vector = a.vector;
            answer = a.answer;
            offset = ground (arith, a.offset);
            low = a.low;
            high = a.high;
          } in
            let rest = read_loop_inside n t next c moved in
            rw (e, at-get_or (contents f t) f.io_buffer_offset (inside_contents f t c e a))
              (rw rest refl))
    ]

put-append : (pre xs : List ℕ) (x b : ℕ) → put (pre ++ x ∷ xs) (length pre) b ≡ some (pre ++ b ∷ xs)
put-append [] xs x b = refl
put-append (y ∷ pre) xs x b = rw (put-append pre xs x b) refl

fill-append :
    (bytes pre xs : List ℕ)
    → length bytes ≤ length xs
    → checked_fill bytes (length pre) (pre ++ xs) ≡ some (pre ++ (bytes ++ drop (length bytes) xs))
unfolding checked_fill
fill-append [] pre xs h = refl
fill-append (b ∷ bytes) pre [] h = absurd (omega arith)
fill-append (b ∷ bytes) pre (x ∷ xs) h =
    let count : suc (length pre) ≡ length (pre ++ b ∷ []) =
      omega (arith, length-append {0} pre (b ∷ [])) in
    let rest = fill-append bytes (pre ++ b ∷ []) xs (omega arith) in
    ap (λ q. q >>= λ next. checked_fill bytes (suc (length pre)) next) (put-append pre xs x b)
    ∙ (ap (λ n. checked_fill bytes n (pre ++ b ∷ xs)) count
        ∙ (ap (checked_fill bytes (length (pre ++ b ∷ []))) (sym (append_assoc pre (b ∷ []) xs))
            ∙ (rest ∙ ap some (append_assoc pre (b ∷ []) _))))

respond_inside :
    (f : Firmware) (bytes : List ℕ)
    → length bytes ≤ length f.response
    → checked_respond f bytes ≡ some (respond f bytes)
unfolding checked_respond respond
respond_inside f bytes h = rw (fill-append bytes [] f.response h) refl

answer_status_inside :
    (f : Firmware) (rq : SetupData)
    → length f.response ≡ 7
    → checked_answer_status f rq ≡ some (answer_status f rq)
unfolding checked_answer_status answer_status
answer_status_inside f rq a = elim (Bool-cases (rq.index == f.ctx.id)) [
  | inl e ↦ rw e (respond_inside f _ (omega (arith, a)))
  | inr e ↦ rw e (respond_inside f _ (omega (arith, a)))
]

handle_inside :
    (r : Request) (f : Firmware) (rq : SetupData)
    → length f.response ≡ 7
    → checked_handle r f rq ≡ some (handle r f rq)
unfolding checked_handle handle start_transfer
handle_inside coil_enable f rq a = refl
handle_inside get_version f rq a = respond_inside f _ (omega (arith, a))
handle_inside get_buffer_size f rq a = respond_inside f _ (omega (arith, a))
handle_inside reset f rq a = respond_inside _ _ (omega (arith, a))
handle_inside transfer_start f rq a = respond_inside _ _ (omega (arith, a))
handle_inside transfer_status f rq a = answer_status_inside f rq a
handle_inside vector_access f rq a = refl
handle_inside invalid f rq a = respond_inside f _ (omega (arith, a))

pub setup_inside :
    (f : Firmware) (rq : SetupData) → Arrays f → checked_setup f rq ≡ some (usb_function_setup f rq)
unfolding checked_setup usb_function_setup
setup_inside f rq a = handle_inside (request_of rq.request) f rq a.answer
