-- ===== src/BiphaseDecoder.antt =====
-- rfid-tool/src/rfid/impl/BiphaseDecoder.cpp: from pulses to bits.
pub mod Decode
use rfid_tool.Base.{Bool, true, false, if◌then◌else◌, Option, none, some, List, [], ◌∷◌}
use rfid_tool.CarrierDecoder.{CarrierEvent, sync_changed, new_pulse, emit}

pub record Biphase : Type 0 where
  pub last_short : Bool

unfoldable pub reset : Biphase → Biphase
reset b = record b { last_short = false }

unfoldable pub on_pulse : Biphase → Bool → Biphase × Option Bool
on_pulse b is_long =
    if is_long
    then (record b { last_short = false }, some true)
    else if b.last_short
    then (record b { last_short = false }, some false)
    else (record b { last_short = true }, none)

unfoldable pub on_event : Biphase → CarrierEvent → Biphase × Option Bool
on_event b (new_pulse is_high is_long) = on_pulse b is_long
on_event b (sync_changed has_sync divider) = (reset b, none)

unfoldable pub run : Biphase → List CarrierEvent → Biphase × List Bool
run b [] = (b, [])
run b (e ∷ es) = let (b', out) = on_event b e in let (b'', bits) = run b' es in (b'', emit out bits)
