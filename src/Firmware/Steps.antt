-- ===== src/Firmware/Steps.antt =====
-- firmware/src/main.c as a state machine: what can happen to the device, one call at a time. An
-- interrupt can come between any two calls of the main loop while it is enabled.
pub mod Phases
pub mod Arrays
pub mod Invariant
pub mod Checks
pub mod Safety
use rfid_tool.Base.{ℕ, ◌^◌, ◌<◌, ◌≡◌, ◌==◌, Bool, true, not, ◌&&◌, ◌||◌, some, List, [], ◌∷◌}
use rfid_tool.Firmware.{Firmware}
use rfid_tool.Firmware.MainLoop.{poll}
use rfid_tool.Firmware.Sampler.{conversion}
use rfid_tool.Firmware.Setup.{SetupData, flag_set, is_idle, usb_function_setup}
use rfid_tool.Firmware.Transmitter.{timer_match}
use rfid_tool.Firmware.Usb.{Target, read_target, write_target, usb_function_read, write_loop}

abbrev pub AllBytes : List ℕ → Type 0
AllBytes [] = Unit {0}
AllBytes (b ∷ bs) = (b < 256) × AllBytes bs

-- A request is allowed unless it starts a transfer while there is one, or a transmission without an
-- edge to wait for.
abbrev pub is_allowed : Firmware → SetupData → Bool
is_allowed f rq =
    not (rq.request == 9)
    || (is_idle f.ctx.state && (not (flag_set rq.index 0x1000) || flag_set rq.index 0x4000))

-- What can happen. The USB driver calls `usbFunctionRead` and `usbFunctionWrite` only after a request
-- for an array. The analog-to-digital converter is triggered by the timer, and each interrupt comes
-- only while it is enabled.
pub data Step (f g : Firmware) : Type 0 where
  request :
      (rq : SetupData)
      → is_allowed f rq ≡ true
      → rq.request < 2 ^ 8
      → rq.value < 2 ^ 16
      → rq.index < 2 ^ 16
      → g ≡ (usb_function_setup f rq).0
      → Step f g
  written :
      (t : Target) (bytes : List ℕ)
      → write_target f.command ≡ some t
      → AllBytes bytes
      → g ≡ (write_loop bytes t f).0
      → Step f g
  sent :
      (t : Target) (len : ℕ)
      → read_target f.command ≡ some t
      → g ≡ (usb_function_read f len).0
      → Step f g
  polled : poll f ≡ some g → Step f g
  converted :
      (adch : ℕ)
      → adch < 2 ^ 8
      → f.interrupts ≡ true
      → f.adc_running ≡ true
      → f.prescaler.running ≡ true
      → g ≡ conversion f adch
      → Step f g
  matched :
      f.interrupts ≡ true
      → f.prescaler.interrupt ≡ true
      → f.prescaler.running ≡ true
      → g ≡ timer_match f
      → Step f g

pub data Reachable (s : Firmware) : Firmware → Type 0 where
  here : Reachable s s
  next : {f g : Firmware} → Reachable s f → Step f g → Reachable s g
