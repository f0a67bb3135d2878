-- ===== src/Firmware/Steps/Safety.antt =====
-- What is true of the device of firmware/src/main.c in every state after its start.
use rfid_tool.Base.{ℕ, ◌<◌, ◌≡◌, refl, Bool, true, false, some, arith}
use rfid_tool.Firmware.{Firmware, IsReady}
use rfid_tool.Firmware.Start.{Board, IsReset, start, started, start-started, with_static_values}
use rfid_tool.Firmware.Steps.{Step, Reachable}
use rfid_tool.Firmware.Steps.Checks.{checked_step, Step_inside}
use rfid_tool.Firmware.Steps.Arrays.{Arrays}
use rfid_tool.Firmware.Steps.Invariant.{Reachable-is_phase, Reachable-Arrays}
use rfid_tool.Firmware.Steps.Phases.{is_phase}

started-is_phase :
    (b : Board) → b.device.prescaler.interrupt ≡ false → is_phase (started b).device ≡ true
unfolding started with_static_values
started-is_phase b off = ground arith

started-Arrays : (b : Board) → Arrays (started b).device
unfolding started with_static_values
started-Arrays b = record {
  buffer = refl;
  vector = refl;
  answer = refl;
  offset = refl;
  low = refl;
  high = refl;
}

Arrays-IsReady : (f : Firmware) → Arrays f → IsReady f
Arrays-IsReady f a = record { buffer = a.buffer; vector = a.vector; low = a.low; high = a.high }

-- On hardware that is reset, when a read of ADIF within the fuel gives 1: the start ends in the state
-- `started`. In every state that the steps reach from there the device is ready, with its arrays and
-- thresholds, and the registers agree with the phase of the transfer. Without a transfer, and while
-- one is about to start, no interrupt is enabled. While an edge is waited for, the timer's interrupt
-- is off and the offset is 0, of the 384 nibbles of a transmission or the 1536 bits of a reception. A
-- reception has the timer's interrupt off and some of its 1536 bits left; a transmission has the
-- sampler off and is at most at the end of its 384 nibbles; a finished transfer has the timer and its
-- interrupt off.
pub start-is_phase :
    (b : Board) (adif : ℕ → Bool) (fuel n : ℕ) (f : Firmware)
    → IsReset b.device.prescaler
    → adif n ≡ true
    → n < fuel
    → Reachable (started b).device f
    → (start adif fuel b ≡ some (started b)) × IsReady f × (is_phase f ≡ true)
start-is_phase b adif fuel n f r e h reached = (
  start-started b adif fuel n e h,
  Arrays-IsReady f (Reachable-Arrays reached (started-Arrays b)),
  Reachable-is_phase reached (started-is_phase b r.off),
)

-- On hardware that is reset, in every state that the steps reach from the start: each step, run with
-- every access to `ioBuffer`, `sampleVector` and `response` checked, finds all of them inside, and ends
-- as the handler does. The steps are the requests, the packets for an array, the rounds of the main
-- loop, the conversions and the timer's matches. A request starts a transfer only without another one,
-- and a transmission only on an edge; a conversion or a match comes only while its timer and its
-- interrupt are on, so that no conversion is under way when the timer is stopped.
pub checked_step-Reachable :
    (b : Board) (f g : Firmware)
    → IsReset b.device.prescaler
    → Reachable (started b).device f
    → (st : Step f g) → checked_step st ≡ some g
checked_step-Reachable b f g r reached st =
    Step_inside st (Reachable-is_phase reached (started-is_phase b r.off))
      (Reachable-Arrays reached (started-Arrays b))
