-- ===== src/BiphaseDecoder/Decode.antt =====
-- The decoder against the line code.
use rfid_tool.Base.{◌≡◌, refl, ap, Bool, true, false, List, [], ◌∷◌, map}
use rfid_tool.LineCode.{pulse_event, pulses, biphase_levels}
use rfid_tool.BiphaseDecoder.{Biphase, on_pulse, on_event, reset, run}

-- At the start of a bit.
abbrev between_bits : Biphase
between_bits = record { last_short = false }

run-pulses :
    (level : Bool) (bits : List Bool)
    → run between_bits (map pulse_event (pulses (biphase_levels level bits))) ≡ (between_bits, bits)
unfolding run on_event on_pulse
run-pulses level [] = refl
run-pulses true (true ∷ []) = refl
run-pulses true (false ∷ []) = refl
run-pulses false (true ∷ []) = refl
run-pulses false (false ∷ []) = refl
run-pulses true (true ∷ true ∷ bits) = ap (λ r. (r.0, true ∷ r.1)) (run-pulses false (true ∷ bits))
run-pulses true (true ∷ false ∷ bits) =
    ap (λ r. (r.0, true ∷ r.1)) (run-pulses false (false ∷ bits))
run-pulses true (false ∷ true ∷ bits) = ap (λ r. (r.0, false ∷ r.1)) (run-pulses true (true ∷ bits))
run-pulses true (false ∷ false ∷ bits) =
    ap (λ r. (r.0, false ∷ r.1)) (run-pulses true (false ∷ bits))
run-pulses false (true ∷ true ∷ bits) = ap (λ r. (r.0, true ∷ r.1)) (run-pulses true (true ∷ bits))
run-pulses false (true ∷ false ∷ bits) =
    ap (λ r. (r.0, true ∷ r.1)) (run-pulses true (false ∷ bits))
run-pulses false (false ∷ true ∷ bits) =
    ap (λ r. (r.0, false ∷ r.1)) (run-pulses false (true ∷ bits))
run-pulses false (false ∷ false ∷ bits) =
    ap (λ r. (r.0, false ∷ r.1)) (run-pulses false (false ∷ bits))

-- From its reset, the decoder reports exactly the bits of a biphase line, in order, whatever
-- level the line had before, and is left between two bits.
pub run-biphase_levels :
    (b : Biphase) (level : Bool) (bits : List Bool)
    → run (reset b) (map pulse_event (pulses (biphase_levels level bits)))
      ≡ (record { last_short = false }, bits)
unfolding reset
run-biphase_levels b level bits = run-pulses level bits
