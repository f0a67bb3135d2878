-- ===== src/Tests/Carriers.antt =====
-- Concrete inputs for the search of the carrier.
use rfid_tool.Base.{◌≡◌, refl, inl, true, false, List, [], ◌∷◌, ◌++◌, map, replicate, arith}
use rfid_tool.Interface.{Sample}
use rfid_tool.CarrierDecoder.{Carrier, sync_changed, reset, check_pulses}
use rfid_tool.CarrierDecoder.Invariant.{IsValid, reset-IsValid, check_pulses-IsValid}
use rfid_tool.CarrierDecoder.Sync.{InRange, check_pulses_in_sync, pulse_of_sample}
use rfid_tool.CarrierDecoder.Search.{tuned, AllNoise, check_pulses_of_three_bursts}
use rfid_tool.CarrierDecoder.Acquire.{acquire, check_pulses_from_reset}

abbrev some_samples : List Sample
some_samples =
    record { length_us = 64; is_high = true }
    ∷ record { length_us = 130; is_high = false }
    ∷ record { length_us = 70; is_high = true }
    ∷ []

abbrev ten_glitches : List Sample
ten_glitches = replicate 10 (record { length_us = 9; is_high = true })

abbrev ten_pauses : List Sample
ten_pauses = replicate 10 (record { length_us = 3000; is_high = false })

abbrev a_sample : Sample
a_sample = record { length_us = 128; is_high = false }

check_pulses-IsValid_example : IsValid (check_pulses (reset (tuned 64 3 4 5 6)) some_samples).0
check_pulses-IsValid_example = check_pulses-IsValid some_samples (reset-IsValid (tuned 64 3 4 5 6))

some_samples-InRange : InRange 16 some_samples
some_samples-InRange = ground arith

-- In sync at the divider 16.
abbrev locked : Carrier
locked = record (tuned 16 30 2 5 5) { has_sync = true }

locked-IsValid : IsValid locked
locked-IsValid = record {
  divider = inl refl;
  short_from = refl;
  short_to = refl;
  long_from = refl;
  long_to = refl;
  pulses = omega arith;
  errors = omega arith;
}

check_pulses_in_sync_example :
    ((check_pulses locked some_samples).0.has_sync ≡ true)
    × ((check_pulses locked some_samples).0.carrier_divider ≡ 16)
    × ((check_pulses locked some_samples).1 ≡ map (pulse_of_sample 16) some_samples)
check_pulses_in_sync_example =
    check_pulses_in_sync locked some_samples locked-IsValid refl (omega arith) some_samples-InRange

glitches-AllNoise : AllNoise ten_glitches
glitches-AllNoise = ground arith

pauses-AllNoise : AllNoise ten_pauses
pauses-AllNoise = ground arith

check_pulses_of_three_bursts_example :
    check_pulses
      (reset locked)
      (ten_glitches ++ a_sample ∷ (ten_pauses ++ a_sample ∷ (ten_glitches ++ a_sample ∷ [])))
    ≡ (reset locked, sync_changed false 0 ∷ sync_changed false 0 ∷ sync_changed false 0 ∷ [])
check_pulses_of_three_bursts_example =
    check_pulses_of_three_bursts locked ten_glitches ten_pauses ten_glitches a_sample a_sample
      a_sample (refl, glitches-AllNoise) (refl, pauses-AllNoise) (refl, glitches-AllNoise)

check_pulses_from_reset_example :
    (check_pulses (reset locked) some_samples).1 ≡ acquire 16 0 0 some_samples
check_pulses_from_reset_example = check_pulses_from_reset locked some_samples some_samples-InRange
