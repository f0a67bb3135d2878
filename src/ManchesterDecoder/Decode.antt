-- ===== src/ManchesterDecoder/Decode.antt =====
-- The decoder against the line code.
use rfid_tool.Base.{◌≡◌, refl, ap, Bool, true, false, not, List, [], ◌∷◌, map}
use rfid_tool.LineCode.{pulse_event, runs, pulses, manchester_levels}
use rfid_tool.ManchesterDecoder.{Manchester, on_pulse, on_event, reset, run}

-- The decoder waits at the middle of a bit `b` that it has reported.
abbrev pub at_middle : Bool → Manchester
at_middle b = record { ff_out = b; timer_running = false }

abbrev last_of : Bool → List Bool → Bool
last_of b [] = b
last_of b (c ∷ cs) = last_of c cs

-- The line from the middle of bit `b` on: the rest of `b`, and then `bits`.
pub run-runs :
    (b : Bool) (bits : List Bool)
    → run (at_middle b) (map pulse_event (runs (not b) 1 (manchester_levels bits)))
      ≡ (record { ff_out = last_of b bits; timer_running = true }, bits)
unfolding run on_event on_pulse
run-runs true [] = refl
run-runs false [] = refl
run-runs true (true ∷ bits) = ap (λ r. (r.0, true ∷ r.1)) (run-runs true bits)
run-runs true (false ∷ bits) = ap (λ r. (r.0, false ∷ r.1)) (run-runs false bits)
run-runs false (true ∷ bits) = ap (λ r. (r.0, true ∷ r.1)) (run-runs true bits)
run-runs false (false ∷ bits) = ap (λ r. (r.0, false ∷ r.1)) (run-runs false bits)

-- From its reset, the decoder reports the bits that follow a 0 on a Manchester line: the second
-- half of the 0 is high, and the bits come after it. Each bit is reported once and in order.
pub run-manchester_levels :
    (m : Manchester) (bits : List Bool)
    → (run (reset m) (map pulse_event (pulses (true ∷ manchester_levels bits)))).1 ≡ bits
unfolding reset
run-manchester_levels m bits = ap (λ r. r.1) (run-runs false bits)
