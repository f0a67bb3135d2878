-- ===== src/Firmware/Steps/Invariant.antt =====
-- What holds of the device of firmware/src/main.c whatever happens to it after the start, by
-- induction on the steps.
use mathlib.Core.Path.{subst}
use rfid_tool.Base.{◌≡◌, sym, ap, ◌∙◌, true}
use rfid_tool.Firmware.{Firmware}
use rfid_tool.Firmware.Steps.{
  Step, request, written, sent, polled, converted, matched, Reachable, here, next,
}
use rfid_tool.Firmware.Steps.Phases.{
  is_phase, setup-is_phase, write_loop-is_phase, read-is_phase, poll-is_phase, conversion-is_phase,
  timer_match-is_phase,
}
use rfid_tool.Firmware.Steps.Arrays.{
  Arrays, setup-Arrays, write_loop-Arrays, read_loop-Arrays, poll-Arrays, conversion-Arrays,
  timer_match-Arrays, write_target-size, read_target-size,
}
use rfid_tool.Firmware.Usb.{read_from, usb_function_read}

Step-is_phase : {f g : Firmware} → Step f g → is_phase f ≡ true → is_phase g ≡ true
Step-is_phase {f} (request rq ok c v i e) p = ap is_phase e ∙ setup-is_phase f rq ok p
Step-is_phase {f} (written t bytes w a e) p = ap is_phase e ∙ write_loop-is_phase bytes t f p
Step-is_phase {f} (sent t len r e) p = ap is_phase e ∙ read-is_phase f len p
Step-is_phase {f} {g} (polled e) p = poll-is_phase f g e p
Step-is_phase {f} (converted v b on adc run e) p =
    ap is_phase e ∙ conversion-is_phase f v on adc run p
Step-is_phase {f} (matched on i run e) p = ap is_phase e ∙ timer_match-is_phase f on i run p

Step-Arrays : {f g : Firmware} → Step f g → Arrays f → Arrays g
unfolding usb_function_read read_from
Step-Arrays {f} (request rq ok c v i e) a = subst Arrays (sym e) (setup-Arrays f rq a)
Step-Arrays {f} (written t bytes w b e) a =
    subst Arrays (sym e) (write_loop-Arrays bytes t f (write_target-size f.command t w) a)
Step-Arrays {f} (sent t len r e) a =
    let one = read_loop-Arrays len t f (read_target-size f.command t r) a in
    subst Arrays (sym e) (subst (λ o. Arrays (read_from o f len).0) (sym r) one)
Step-Arrays {f} {g} (polled e) a = poll-Arrays f g e a
Step-Arrays {f} (converted v b on adc run e) a = subst Arrays (sym e) (conversion-Arrays f v a)
Step-Arrays {f} (matched on i run e) a = subst Arrays (sym e) (timer_match-Arrays f a)

pub Reachable-is_phase : {s f : Firmware} → Reachable s f → is_phase s ≡ true → is_phase f ≡ true
Reachable-is_phase here p = p
Reachable-is_phase (next r st) p = Step-is_phase st (Reachable-is_phase r p)

pub Reachable-Arrays : {s f : Firmware} → Reachable s f → Arrays s → Arrays f
Reachable-Arrays here a = a
Reachable-Arrays (next r st) a = Step-Arrays st (Reachable-Arrays r a)
