-- ===== src/Tests/Machines.antt =====
-- Concrete runs of the firmware from its start, and a concrete dump.
use rfid_tool.Base.{
  ℕ, ◌+◌, ◌*◌, ◌-◌, ◌%◌, ◌≡◌, refl, ◌==◌, leb, ◌&&◌, if◌then◌else◌, Bool, true, false, some, List,
  [], ◌∷◌, map, length, arith,
}
use rfid_tool.Base.{none}
use rfid_tool.Firmware.{Firmware, State, IsReady, prescaller_start}
use rfid_tool.Firmware.Calibration.{calibrate, search_loop, neighbour_loop}
use rfid_tool.Firmware.MainLoop.{poll, transfer_step, on_starting, prepare, first_state}
use rfid_tool.Firmware.Round.{Line, Wait, Driver, Machine, rounds, round, served}
use rfid_tool.Firmware.Round.Waiting.{Waited, quiet_rounds, round-Waited}
use rfid_tool.Firmware.Sampler.{conversion}
use rfid_tool.Firmware.Setup.{SetupData, usb_function_setup, handle, respond, start_transfer}
use rfid_tool.Firmware.Start.{Board, start, started, with_static_values}
use rfid_tool.Firmware.Steps.{Step, request, polled, converted, Reachable, here, next}
use rfid_tool.Firmware.Checked.{checked_conversion}
use rfid_tool.Firmware.Steps.Checks.{checked_step, checked_conversion-conversion}
use rfid_tool.Firmware.Steps.Phases.{is_phase}
use rfid_tool.Firmware.Steps.Safety.{start-is_phase, checked_step-Reachable}
use rfid_tool.Log.{shown, dump}
use rfid_tool.Log.Dump.{characters, hex_bytes, blanks, characters-dump}
use rfid_tool.Tests.Devices.{booted}

abbrev board : Board
board = record {
  device = booted;
  pcke = true;
  coil_high = false;
  gen_output = false;
  ocr1c = 0;
  ctc1 = false;
  cs10 = false;
  wgm01 = false;
  adlar = false;
  adps2 = false;
  aden = false;
  adts0 = false;
  adts1 = false;
  converting = false;
}

-- A reception with two samples for each bit, from the start on.
abbrev receive_request : SetupData
receive_request = record { request = 9; value = 3; index = 8 }

abbrev requested : Firmware
requested = (usb_function_setup (started board).device receive_request).0

abbrev receiving : Firmware
receiving = transfer_step requested

receiving_polled : poll requested ≡ some receiving
unfolding poll usb_function_setup handle respond start_transfer started with_static_values
receiving_polled = refl

receiving_reached : Reachable (started board).device receiving
unfolding started with_static_values
receiving_reached =
    next (next here (request receive_request refl (omega arith) (omega arith) (omega arith) refl))
      (polled receiving_polled)

low_sample : Step receiving (conversion receiving 10)
unfolding started with_static_values usb_function_setup handle respond start_transfer transfer_step
    on_starting prepare first_state prescaller_start
low_sample = converted 10 (omega arith) refl refl refl refl

start-is_phase_example :
    (start (λ reads. leb 3 reads) 10 board ≡ some (started board))
    × IsReady receiving
    × (is_phase receiving ≡ true)
start-is_phase_example =
    start-is_phase board (λ reads. leb 3 reads) 10 3 receiving
      (record { off = refl; ocr0a = omega arith; tcnt0 = omega arith }) refl (omega arith)
      receiving_reached

checked_step-Reachable_example : checked_step low_sample ≡ some (conversion receiving 10)
checked_step-Reachable_example =
    checked_step-Reachable board receiving (conversion receiving 10)
      (record { off = refl; ocr0a = omega arith; tcnt0 = omega arith }) receiving_reached low_sample

-- All samples but one are there.
abbrev nearly_full : Firmware
nearly_full = record booted {
  op_offset = 1535;
  op_length = 1536;
  ctx = record (booted.ctx) { state = State.rx };
}

checked_conversion-conversion_example :
    ((conversion nearly_full 10).ctx.state ≡ State.finished)
    × (checked_conversion (conversion nearly_full 10) 20 ≡ none)
checked_conversion-conversion_example =
    checked_conversion-conversion nearly_full 10 20 refl refl refl refl

-- A keep-alive in every round but no packet before the third.
abbrev busy_bus : ℕ → Line
busy_bus i = record { active = true; pending = i == 3 }

abbrev powered : Wait
powered = record {
  fastctr = 0;
  resetctr = 0;
  usb_new_device_addr = 7;
  usb_device_addr = 7;
  osccal = 90;
}

abbrev idle_driver : Driver
idle_driver = record { rx_len = 0; tx_len = 0; msg_len = 255 }

abbrev oscillator : ℕ → ℕ
oscillator k = 1000 + 20 * k

oscillator_calibrated : calibrate oscillator 8 ≡ some 68
unfolding calibrate search_loop neighbour_loop
oscillator_calibrated = refl

-- The driver's routines, where no packet has an effect.
abbrev packet_taken : Driver → Driver
packet_taken d = record d { rx_len = 4 }

abbrev packet_ignored : ℕ → Machine → Machine
packet_ignored len m = m

abbrev block_built : Machine → Machine
block_built m = m

round-Waited_example :
    (r : Wait) × Waited busy_bus 68 rounds 0 0 powered r
    × (round packet_taken packet_ignored block_built 255 busy_bus oscillator 8 rounds
          (receiving, idle_driver)
          powered
        ≡ (if quiet_rounds busy_bus rounds 0 == rounds
            then served packet_taken packet_ignored block_built 255 idle_driver r (poll receiving)
            else served packet_taken packet_ignored block_built 255
                (packet_taken idle_driver)
                r
                (some receiving)))
round-Waited_example =
    round-Waited busy_bus oscillator 8 68 rounds packet_taken packet_ignored block_built 255
      (receiving, idle_driver) powered oscillator_calibrated (omega arith)

-- The letters are printable.
abbrev is_letter : ℕ → Bool
is_letter byte = leb 65 byte && leb byte 122

abbrev text : List ℕ
text = 65 ∷ 7 ∷ 66 ∷ []

characters-dump_example :
    (characters (dump is_letter 2 (9 ∷ 9 ∷ 9 ∷ []) text) ≡ map (shown is_letter 2) text)
    × (hex_bytes (dump is_letter 2 (9 ∷ 9 ∷ 9 ∷ []) text) ≡ text)
    × (blanks (dump is_letter 2 (9 ∷ 9 ∷ 9 ∷ []) text) ≡ (16 - length text % 16) % 16)
characters-dump_example =
    characters-dump is_letter 2 65 (7 ∷ 66 ∷ []) (9 ∷ 9 ∷ 9 ∷ []) refl (omega arith) refl
