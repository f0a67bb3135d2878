-- ===== src/CarrierDecoder/Invariant.antt =====
-- The bounds on the counters, and the pulse ranges that belong to the divider in use.
use rfid_tool.Base.{ℕ, ◌*◌, ◌<◌, ◌≤◌, ◌≡◌, refl, ◌⊎◌, inl, inr, false, arith}
use rfid_tool.Base.{Bool-cases, leb, List, [], ◌∷◌}
use rfid_tool.Interface.{Sample}
use rfid_tool.CarrierDecoder.{
  Carrier, next_divider, update_pulse_range, reset, next_carrier, count_pulse, search_sync, in_sync,
  counted, windowed, check_pulse, check_pulses,
}

-- One of the three dividers; half a bit lasts `4 * divider` microseconds, and the ranges reach a
-- quarter of that to each side of one half and of two halves.
pub record IsValid (c : Carrier) : Type 0 where
  pub divider : (c.carrier_divider ≡ 16) ⊎ ((c.carrier_divider ≡ 32) ⊎ (c.carrier_divider ≡ 64))
  pub short_from : c.short_min ≡ 3 * c.carrier_divider
  pub short_to : c.short_max ≡ 5 * c.carrier_divider
  pub long_from : c.long_min ≡ 7 * c.carrier_divider
  pub long_to : c.long_max ≡ 9 * c.carrier_divider
  pub pulses : c.pulse_count < 50
  pub errors : c.error_count ≤ 10

update_pulse_range-IsValid :
    (c : Carrier)
    → (c.carrier_divider ≡ 16) ⊎ ((c.carrier_divider ≡ 32) ⊎ (c.carrier_divider ≡ 64))
    → c.pulse_count < 50
    → c.error_count ≤ 10
    → IsValid (update_pulse_range c)
unfolding update_pulse_range
update_pulse_range-IsValid c (inl e) p q = ground arith
update_pulse_range-IsValid c (inr (inl e)) p q = ground arith
update_pulse_range-IsValid c (inr (inr e)) p q = ground arith

-- A reset carrier is valid.
pub reset-IsValid : (c : Carrier) → IsValid (reset c)
unfolding reset
reset-IsValid c = update_pulse_range-IsValid _ (inl refl) (omega arith) (omega arith)

next_divider-lem :
    (d : ℕ)
    → (d ≡ 16) ⊎ ((d ≡ 32) ⊎ (d ≡ 64))
    → (next_divider d ≡ 16) ⊎ ((next_divider d ≡ 32) ⊎ (next_divider d ≡ 64))
next_divider-lem d (inl e) = inr (inl (ground arith))
next_divider-lem d (inr (inl e)) = inr (inr (ground arith))
next_divider-lem d (inr (inr e)) = inl (ground arith)

next_carrier-IsValid : (c : Carrier) → IsValid c → IsValid (next_carrier (counted c)).0
unfolding next_carrier counted
next_carrier-IsValid c v =
    update_pulse_range-IsValid _ (next_divider-lem c.carrier_divider v.divider) (omega arith)
      (omega arith)

pub windowed-IsValid :
    (c : Carrier)
    → IsValid c
    → (leb 10 (counted c).error_count) ≡ false
    → IsValid (windowed (counted c)) × ((windowed (counted c)).error_count < 10)
unfolding windowed counted
windowed-IsValid c v h = ground arith

search_sync-IsValid :
    {c : Carrier} (s : Sample) → IsValid c → c.error_count < 10 → IsValid (search_sync c s).0
unfolding search_sync count_pulse
search_sync-IsValid s v h = ground arith

in_sync-IsValid :
    {c : Carrier} (s : Sample) → IsValid c → c.error_count < 10 → IsValid (in_sync c s).0
unfolding in_sync
in_sync-IsValid s v h = ground arith

pub check_pulse-IsValid : {c : Carrier} (s : Sample) → IsValid c → IsValid (check_pulse c s).0
unfolding check_pulse
check_pulse-IsValid {c} s v = elim (Bool-cases (leb 10 (counted c).error_count)) [
  | inl many ↦ rw many (next_carrier-IsValid c v)
  | inr few ↦
      let w = windowed (counted c) in
      let (valid, errors) = windowed-IsValid c v few in
      ground
        (arith, in_sync-IsValid {c = w} s valid errors, search_sync-IsValid {c = w} s valid errors)
]

-- Samples of any lengths keep the bounds and the ranges.
pub check_pulses-IsValid :
    {c : Carrier} (ss : List Sample) → IsValid c → IsValid (check_pulses c ss).0
unfolding check_pulses
check_pulses-IsValid [] v = v
check_pulses-IsValid {c} (s ∷ ss) v =
    check_pulses-IsValid {c = (check_pulse c s).0} ss (check_pulse-IsValid s v)
