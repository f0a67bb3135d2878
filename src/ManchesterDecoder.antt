-- ===== src/ManchesterDecoder.antt =====
-- rfid-tool/src/rfid/impl/ManchesterDecoder.cpp: from pulses to bits.
pub mod Decode
use rfid_tool.Base.{Bool, true, false, xor, if◌then◌else◌, Option, none, some, List, [], ◌∷◌, map}
use rfid_tool.CarrierDecoder.{CarrierEvent, sync_changed, new_pulse, emit}
use rfid_tool.LineCode.{Pulse}

pub record Manchester : Type 0 where
  pub ff_out : Bool
  pub timer_running : Bool

unfoldable pub reset : Manchester → Manchester
reset m = record m { ff_out = false; timer_running = false }

-- The bit is what `notify(EVENT_NEW_BIT)` reports.
unfoldable pub on_pulse : Manchester → Bool → Bool → Manchester × Option Bool
unfolding xor
on_pulse m is_high is_long =
    if m.timer_running
    then (let latched = record m { ff_out = is_high; timer_running = is_long } in
        (
          record latched {
            timer_running =
                if latched.timer_running then xor latched.ff_out is_high else latched.timer_running;
          },
          some latched.ff_out,
        ))
    else (let timer_trigger = xor is_high m.ff_out in
        if timer_trigger
        then (if is_long
            then (record m { timer_running = false; ff_out = is_high }, some is_high)
            else (record m { timer_running = true }, none))
        else (m, none))

unfoldable pub on_event : Manchester → CarrierEvent → Manchester × Option Bool
on_event m (new_pulse is_high is_long) = on_pulse m is_high is_long
on_event m (sync_changed has_sync divider) = (reset m, none)

unfoldable pub run : Manchester → List CarrierEvent → Manchester × List Bool
run m [] = (m, [])
run m (e ∷ es) = let (m', out) = on_event m e in let (m'', bits) = run m' es in (m'', emit out bits)
