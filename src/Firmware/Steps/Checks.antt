-- ===== src/Firmware/Steps/Checks.antt =====
-- The steps of the device with each access to an array of firmware/src/main.c checked.
use rfid_tool.Base.{
  ℕ, ◌+◌, ◌/◌, ◌≡◌, refl, sym, ap, ◌∙◌, true, Option, none, some, List, [], ◌∷◌, length, arith,
}
use rfid_tool.Firmware.{Firmware, rx, finished, prescaller_stop}
use rfid_tool.Firmware.Checked.{
  ◌>>=◌, at, checked_store_signal, checked_record_signal, checked_on_signal, checked_conversion,
  checked_timer_match, checked_read_loop, checked_write_loop, checked_setup,
}
use rfid_tool.Firmware.Checked.Inside.{
  conversion_inside, timer_match_inside, write_loop_inside, read_loop_inside, setup_inside,
}
use rfid_tool.Firmware.MainLoop.{poll}
use rfid_tool.Firmware.Sampler.{conversion, compare_signal, on_signal, record_signal, store_signal}
use rfid_tool.Firmware.Steps.{Step, request, written, sent, polled, converted, matched}
use rfid_tool.Firmware.Steps.Arrays.{Arrays, write_target-size, read_target-size, conversion-length}
use rfid_tool.Firmware.Steps.Phases.{is_phase}
use rfid_tool.Firmware.Usb.{read_from, usb_function_read}

-- The device after the checked handler of a step; the main loop reads and writes no array.
unfoldable pub checked_step : {f g : Firmware} → Step f g → Option Firmware
checked_step {f} (request rq ok c v i e) = checked_setup f rq >>= λ r. some r.0
checked_step {f} (written t bytes w b e) = checked_write_loop bytes t f >>= λ r. some r.0
checked_step {f} (sent t len r e) = checked_read_loop len t f >>= λ q. some q.0
checked_step {f} (polled e) = poll f
checked_step {f} (converted v b on adc run e) = checked_conversion f v
checked_step {f} (matched on i run e) = checked_timer_match f

pub Step_inside :
    {f g : Firmware} (st : Step f g) → is_phase f ≡ true → Arrays f → checked_step st ≡ some g
unfolding checked_step usb_function_read read_from
Step_inside {f} (request rq ok c v i e) p a =
    ap (λ q. q >>= λ r. some r.0) (setup_inside f rq a) ∙ ap some (sym e)
Step_inside {f} (written t bytes w b e) p a =
    ap (λ q. q >>= λ r. some r.0) (write_loop_inside bytes t f (write_target-size f.command t w) a)
    ∙ ap some (sym e)
Step_inside {f} (sent t len r e) p a =
    let one = read_loop_inside len t f (read_target-size f.command t r) a in
    ap (λ q. q >>= λ s. some s.0) one
    ∙ (ap (λ o. some (read_from o f len).0) (sym r) ∙ ap some (sym e))
Step_inside (polled e) p a = e
Step_inside {f} (converted v b on adc run e) p a =
    conversion_inside f v on adc run p a ∙ ap some (sym e)
Step_inside {f} (matched on i run e) p a = timer_match_inside f on i run p a ∙ ap some (sym e)

at-none : (xs : List ℕ) (i : ℕ) → at xs (length xs + i) ≡ none
at-none [] i = refl
at-none (x ∷ xs) i = ground (arith, at-none xs i)

-- A conversion with the whole buffer behind it.
checked_conversion-full :
    (f : Firmware) (v : ℕ)
    → f.ctx.state ≡ finished
    → f.op_offset ≡ 1536
    → length f.io_buffer ≡ 192
    → checked_conversion f v ≡ none
unfolding checked_conversion checked_on_signal checked_record_signal checked_store_signal
    compare_signal
checked_conversion-full f v state offset size =
    let behind : at f.io_buffer (f.op_offset / 8) ≡ none =
      ap (at f.io_buffer) (omega (arith, offset, size)) ∙ at-none f.io_buffer 0 in
    ground (arith, behind)

-- The conversion of the last of 1536 samples, in a buffer of 192 bytes, ends the reception; one more
-- conversion, which the timer can have started before it is stopped, is behind the end of the buffer.
pub checked_conversion-conversion :
    (f : Firmware) (v w : ℕ)
    → f.ctx.state ≡ rx
    → f.op_offset ≡ 1535
    → f.op_length ≡ 1536
    → length f.io_buffer ≡ 192
    → ((conversion f v).ctx.state ≡ finished) × (checked_conversion (conversion f v) w ≡ none)
unfolding conversion compare_signal on_signal record_signal store_signal prescaller_stop
checked_conversion-conversion f v w state offset len size =
    let ends : (conversion f v).ctx.state ≡ finished = ground arith in
    let behind : (conversion f v).op_offset ≡ 1536 = ground arith in
    (ends, checked_conversion-full (conversion f v) w ends behind (conversion-length f v ∙ size))
