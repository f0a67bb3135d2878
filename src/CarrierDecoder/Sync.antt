-- ===== src/CarrierDecoder/Sync.antt =====
-- Keeping, finding and losing synchronisation.
use rfid_tool.Base.{ℕ, ◌*◌, ◌<◌, ◌≤◌, ◌≡◌, refl, ap, ◌∙◌, ◌⊎◌, arith}
use rfid_tool.Base.{true, ltb, if◌then◌else◌}
use rfid_tool.Base.{some, List, [], ◌∷◌, map}
use rfid_tool.Interface.{Sample}
use rfid_tool.CarrierDecoder.{
  Carrier, CarrierEvent, new_pulse, search_sync, in_sync, counted, windowed, check_pulse,
  check_pulses,
}
use rfid_tool.CarrierDecoder.Invariant.{IsValid}

-- A length that belongs to divider `d`: about one or two halves of a bit.
abbrev pub IsShort : ℕ → Sample → Type 0
IsShort d s = (3 * d ≤ s.length_us) × (s.length_us ≤ 5 * d)

abbrev pub IsLong : ℕ → Sample → Type 0
IsLong d s = (7 * d ≤ s.length_us) × (s.length_us ≤ 9 * d)

abbrev pub InRange : ℕ → List Sample → Type 0
InRange d [] = Unit {0}
InRange d (s ∷ ss) = (IsShort d s ⊎ IsLong d s) × InRange d ss

-- The pulse that a sample in range stands for; the midpoint of the ranges tells them apart.
abbrev pub pulse_of_sample : ℕ → Sample → CarrierEvent
pulse_of_sample d s = new_pulse s.is_high (ltb (6 * d) s.length_us)

pub record Locked (d : ℕ) (c : Carrier) : Type 0 where
  pub valid : IsValid c
  pub divider : c.carrier_divider ≡ d
  pub on : c.has_sync ≡ true
  pub errors : c.error_count < 10

-- The window of fifty pulses changes two counters only.
abbrev pub at_round : Carrier → Carrier
at_round c = windowed (counted c)

pub check_pulse_of_few :
    (c : Carrier) (s : Sample)
    → c.error_count < 10
    → check_pulse c s ≡ (if c.has_sync then in_sync (at_round c) s else search_sync (at_round c) s)
unfolding check_pulse counted windowed
check_pulse_of_few c s h = ground arith

at_round-Locked : {d : ℕ} {c : Carrier} → Locked d c → Locked d (at_round c)
unfolding windowed counted
at_round-Locked k = ground arith

in_sync-Locked :
    {d : ℕ} {c : Carrier} (s : Sample)
    → IsShort d s ⊎ IsLong d s
    → Locked d c
    → in_sync c s ≡ (c, some (pulse_of_sample d s))
unfolding in_sync
in_sync-Locked s h k = ground arith

check_pulse-Locked :
    {d : ℕ} (c : Carrier) (s : Sample)
    → IsShort d s ⊎ IsLong d s
    → Locked d c
    → check_pulse c s ≡ (at_round c, some (pulse_of_sample d s))
check_pulse-Locked c s h k =
    check_pulse_of_few c s k.errors
    ∙ ground (arith, in_sync-Locked {c = at_round c} s h (at_round-Locked k))

pub check_pulses-Locked :
    {d : ℕ} (c : Carrier) (ss : List Sample)
    → InRange d ss
    → Locked d c
    → Locked d (check_pulses c ss).0 × ((check_pulses c ss).1 ≡ map (pulse_of_sample d) ss)
unfolding check_pulses
check_pulses-Locked c [] h k = (k, refl)
check_pulses-Locked {d} c (s ∷ ss) h k =
    let rest = check_pulses-Locked (at_round c) ss h.1 (at_round-Locked k) in
    rw (check_pulse-Locked c s h.0 k) (rest.0, ap (λ es. pulse_of_sample d s ∷ es) rest.1)

-- In a valid state with synchronisation and fewer than ten errors counted: while every sample fits
-- the divider in use, synchronisation is kept, the divider stays, and each sample is reported as one
-- pulse, in order and with its level and length class.
pub check_pulses_in_sync :
    (c : Carrier) (ss : List Sample)
    → IsValid c
    → c.has_sync ≡ true
    → c.error_count < 10
    → InRange c.carrier_divider ss
    → ((check_pulses c ss).0.has_sync ≡ true)
      × ((check_pulses c ss).0.carrier_divider ≡ c.carrier_divider)
      × ((check_pulses c ss).1 ≡ map (pulse_of_sample c.carrier_divider) ss)
check_pulses_in_sync c ss v on few h =
    let (k, events) =
      check_pulses-Locked c ss h (record { valid = v; divider = refl; on = on; errors = few }) in
    (k.on, k.divider, events)
