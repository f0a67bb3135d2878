-- ===== src/CarrierDecoder.antt =====
-- rfid-tool/src/rfid/CarrierDecoder.cpp: from samples to pulses of the carrier in use, trying the
-- dividers 16, 32 and 64 in turn. The log lines are left out; a call of `notify` is an event
-- beside the new state.
pub mod Invariant
pub mod Sync
pub mod Search
pub mod Acquire
use rfid_tool.Base.{ℕ, ◌+◌, ◌-◌, ◌*◌, ◌/◌, u8, u16, ◌>>>◌, ◌<<<◌, ltb, leb, ◌==◌, if◌then◌else◌}
use rfid_tool.Base.{Bool, true, false, not, ◌&&◌, Option, none, some, List, [], ◌∷◌}
use rfid_tool.Interface.{Sample, is_low}

-- `Event` with `EventSyncData` and `EventPulseData`.
pub data CarrierEvent : Type 0 where
  sync_changed : Bool → ℕ → CarrierEvent
  new_pulse : Bool → Bool → CarrierEvent

pub record Carrier : Type 0 where
  pub long_min : ℕ
  pub long_max : ℕ
  pub short_min : ℕ
  pub short_max : ℕ
  pub pulse_count : ℕ
  pub lo_count : ℕ
  pub hi_count : ℕ
  pub error_count : ℕ
  pub carrier_divider : ℕ
  pub has_sync : Bool

abbrev pub carrier_pulse_length : ℕ
carrier_pulse_length = 8

abbrev pub pulse_max : ℕ
pulse_max = 50

abbrev pub error_threshold : ℕ
error_threshold = 10

unfoldable pub update_pulse_range : Carrier → Carrier
update_pulse_range c =
    let pulse_length = u16 (c.carrier_divider * carrier_pulse_length / 2) in
    let delta = pulse_length >>> 2 in
    let doubled = u16 (pulse_length <<< 1) in
    record c {
      short_min = u16 (pulse_length - delta);
      short_max = u16 (pulse_length + delta);
      long_min = u16 (doubled - delta);
      long_max = u16 (doubled + delta);
    }

unfoldable pub reset : Carrier → Carrier
reset c = update_pulse_range (record c {
  carrier_divider = 16;
  error_count = 0;
  pulse_count = 0;
  has_sync = false;
  lo_count = 0;
  hi_count = 0;
})

abbrev pub pulse_short : Carrier → ℕ → Bool
pulse_short c pulse = leb c.short_min pulse && leb pulse c.short_max

abbrev pub pulse_long : Carrier → ℕ → Bool
pulse_long c pulse = leb c.long_min pulse && leb pulse c.long_max

-- The `switch` has no default: any other divider stays.
abbrev pub next_divider : ℕ → ℕ
next_divider d = if d == 16 then 32 else if d == 32 then 64 else if d == 64 then 16 else d

unfoldable pub next_carrier : Carrier → Carrier × Option CarrierEvent
next_carrier c = (
  update_pulse_range (record c {
    has_sync = false;
    lo_count = 0;
    hi_count = 0;
    error_count = 0;
    pulse_count = 0;
    carrier_divider = next_divider c.carrier_divider;
  }),
  some (sync_changed false 0),
)

-- Which counter a pulse goes to before synchronisation.
unfoldable pub count_pulse : Carrier → ℕ → Carrier
count_pulse c len =
    if pulse_short c len
    then record c { lo_count = u8 (c.lo_count + 1) }
    else if pulse_long c len
    then record c { hi_count = u8 (c.hi_count + 1) }
    else record c { error_count = u8 (c.error_count + 1) }

-- Enough pulses of both lengths and few errors give synchronisation.
unfoldable pub decide_sync : Carrier → Carrier × Option CarrierEvent
decide_sync c =
    if ltb 4 c.hi_count && (ltb 4 c.lo_count && ltb c.error_count 4)
    then (record c { has_sync = true }, some (sync_changed true c.carrier_divider))
    else (c, none)

unfoldable pub search_sync : Carrier → Sample → Carrier × Option CarrierEvent
unfolding decide_sync
search_sync c sample = decide_sync (count_pulse c sample.length_us)

unfoldable pub in_sync : Carrier → Sample → Carrier × Option CarrierEvent
in_sync c sample =
    let is_high = not (is_low sample) in
    if pulse_long c sample.length_us
    then (c, some (new_pulse is_high true))
    else if pulse_short c sample.length_us
    then (c, some (new_pulse is_high false))
    else (record c { error_count = u8 (c.error_count + 1) }, none)

-- `pulseCount++`
unfoldable pub counted : Carrier → Carrier
counted c = record c { pulse_count = u8 (c.pulse_count + 1) }

-- After `PULSE_MAX` pulses the errors are counted anew.
unfoldable pub windowed : Carrier → Carrier
windowed c = if c.pulse_count == pulse_max then record c { pulse_count = 0; error_count = 0 } else c

-- One round of the loop in `checkPulses`.
unfoldable pub check_pulse : Carrier → Sample → Carrier × Option CarrierEvent
check_pulse c sample =
    let c' = counted c in
    if leb error_threshold c'.error_count
    then next_carrier c'
    else (let w = windowed c' in if w.has_sync then in_sync w sample else search_sync w sample)

abbrev pub emit {ℓ} : {A : Type ℓ} → Option A → List A → List A
emit none xs = xs
emit (some x) xs = x ∷ xs

unfoldable pub check_pulses : Carrier → List Sample → Carrier × List CarrierEvent
check_pulses c [] = (c, [])
check_pulses c (s ∷ ss) =
    let (c', out) = check_pulse c s in
    let (c'', events) = check_pulses c' ss in (c'', emit out events)
