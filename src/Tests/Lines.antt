-- ===== src/Tests/Lines.antt =====
-- Concrete inputs for the line decoders.
use rfid_tool.Base.{◌≡◌, Bool, true, false, List, [], ◌∷◌, map}
use rfid_tool.LineCode.{pulses, manchester_levels, biphase_levels, pulse_event}
use rfid_tool.ManchesterDecoder.{Manchester}
use rfid_tool.ManchesterDecoder.{reset, run}
use rfid_tool.ManchesterDecoder.Decode.{run-manchester_levels}
use rfid_tool.BiphaseDecoder.{Biphase}
use rfid_tool.BiphaseDecoder.{reset as biphase_reset, run as biphase_run}
use rfid_tool.BiphaseDecoder.Decode.{run-biphase_levels}

abbrev some_bits : List Bool
some_bits = true ∷ true ∷ false ∷ true ∷ false ∷ false ∷ []

abbrev stopped : Manchester
stopped = record { ff_out = true; timer_running = true }

abbrev half_bit : Biphase
half_bit = record { last_short = true }

run-manchester_levels_example :
    (run (reset stopped) (map pulse_event (pulses (true ∷ manchester_levels some_bits)))).1
    ≡ some_bits
run-manchester_levels_example = run-manchester_levels stopped some_bits

run-biphase_levels_example :
    biphase_run (biphase_reset half_bit) (map pulse_event (pulses (biphase_levels true some_bits)))
    ≡ (record { last_short = false }, some_bits)
run-biphase_levels_example = run-biphase_levels half_bit true some_bits
