-- ===== src/CarrierDecoder/Acquire.antt =====
-- Finding synchronisation at a divider.
use rfid_tool.Base.{ℕ, ◌+◌, ◌*◌, ◌<◌, ◌≡◌, refl, ap, ◌∙◌, ◌⊎◌, inl, inr, arith}
use rfid_tool.Base.{true, ◌&&◌, Bool-cases, ltb, ◌==◌, if◌then◌else◌, u8}
use rfid_tool.Base.{Option, none, some, List, [], ◌∷◌, map}
use rfid_tool.Interface.{Sample}
use rfid_tool.CarrierDecoder.{
  Carrier, CarrierEvent, sync_changed, reset, count_pulse, decide_sync, search_sync, counted,
  windowed, check_pulse, check_pulses, emit,
}
use rfid_tool.CarrierDecoder.Sync.{
  IsShort, IsLong, InRange, pulse_of_sample, Locked, check_pulses-Locked,
}
use rfid_tool.CarrierDecoder.Sync.{at_round, check_pulse_of_few}
use rfid_tool.CarrierDecoder.Search.{IsDivider, tuned, reset-tuned}

check_pulses-events :
    (c : Carrier) (s : Sample) (ss : List Sample)
    → (check_pulses c (s ∷ ss)).1 ≡ emit (check_pulse c s).1 (check_pulses (check_pulse c s).0 ss).1
unfolding check_pulses
check_pulses-events c s ss = refl

-- The events from the first sample on: pulses are counted, in bytes, until more than four of
-- each length were seen; from then on every sample is a pulse.
abbrev pub acquire : ℕ → ℕ → ℕ → List Sample → List CarrierEvent
acquire d lo hi [] = []
acquire d lo hi (s ∷ ss) =
    let long = ltb (6 * d) s.length_us in
    let lo' = if long then lo else u8 (lo + 1) in
    let hi' = if long then u8 (hi + 1) else hi in
    let rest = acquire d lo' hi' ss in
    if ltb 4 hi' && ltb 4 lo' then sync_changed true d ∷ map (pulse_of_sample d) ss else rest

count_pulse_in_range :
    (d p lo hi : ℕ) (s : Sample)
    → IsDivider d
    → IsShort d s ⊎ IsLong d s
    → let long = ltb (6 * d) s.length_us in
      count_pulse (tuned d p 0 lo hi) s.length_us
      ≡ tuned d p 0 (if long then lo else u8 (lo + 1)) (if long then u8 (hi + 1) else hi)
unfolding count_pulse
count_pulse_in_range d p lo hi s hd h = ground arith

abbrev next_pulse : ℕ → ℕ
next_pulse p = if p + 1 == 50 then 0 else p + 1

at_round-next_pulse :
    (d p lo hi : ℕ) → p < 50 → at_round (tuned d p 0 lo hi) ≡ tuned d (next_pulse p) 0 lo hi
unfolding windowed counted
at_round-next_pulse d p lo hi h = ground arith

-- The state and the event once the pulse is counted.
abbrev counted_up : ℕ → ℕ → ℕ → ℕ → Carrier × Option CarrierEvent
counted_up d p lo hi =
    if ltb 4 hi && ltb 4 lo
    then (record (tuned d p 0 lo hi) { has_sync = true }, some (sync_changed true d))
    else (tuned d p 0 lo hi, none)

decide_sync-tuned : (d p lo hi : ℕ) → decide_sync (tuned d p 0 lo hi) ≡ counted_up d p lo hi
unfolding decide_sync
decide_sync-tuned d p lo hi = ground arith

check_pulse-counted_up :
    (d p lo hi lo' hi' : ℕ) (s : Sample)
    → p < 50
    → count_pulse (tuned d (next_pulse p) 0 lo hi) s.length_us ≡ tuned d (next_pulse p) 0 lo' hi'
    → check_pulse (tuned d p 0 lo hi) s ≡ counted_up d (next_pulse p) lo' hi'
unfolding search_sync
check_pulse-counted_up d p lo hi lo' hi' s hp e =
    check_pulse_of_few (tuned d p 0 lo hi) s (omega arith)
    ∙ (ap (λ c. search_sync c s) (at_round-next_pulse d p lo hi hp)
        ∙ (ap decide_sync e ∙ decide_sync-tuned d (next_pulse p) lo' hi'))

tuned-Locked :
    (d p lo hi : ℕ)
    → IsDivider d
    → p < 50
    → Locked d (record (tuned d p 0 lo hi) { has_sync = true })
tuned-Locked d p lo hi hd hp = record {
  valid = record {
    divider = hd;
    short_from = refl;
    short_to = refl;
    long_from = refl;
    long_to = refl;
    pulses = hp;
    errors = omega arith;
  };
  divider = refl;
  on = refl;
  errors = omega arith;
}

rest_of_counted_up :
    (d p lo hi : ℕ) (ss : List Sample)
    → IsDivider d
    → p < 50
    → InRange d ss
    → (check_pulses (tuned d p 0 lo hi) ss).1 ≡ acquire d lo hi ss
    → emit (counted_up d p lo hi).1 (check_pulses (counted_up d p lo hi).0 ss).1 ≡ (
        if ltb 4 hi && ltb 4 lo
        then sync_changed true d ∷ map (pulse_of_sample d) ss
        else acquire d lo hi ss)
rest_of_counted_up d p lo hi ss hd hp h ih = elim (Bool-cases (ltb 4 hi && ltb 4 lo)) [
  | inl on ↦ rw on (
      ap (λ es. sync_changed true d ∷ es)
        (check_pulses-Locked _ ss h (tuned-Locked d p lo hi hd hp)).1)
  | inr off ↦ rw off ih
]

check_pulses-acquire :
    (d p lo hi : ℕ) (ss : List Sample)
    → IsDivider d
    → p < 50
    → InRange d ss
    → (check_pulses (tuned d p 0 lo hi) ss).1 ≡ acquire d lo hi ss
check_pulses-acquire d p lo hi [] hd hp h = unfold check_pulses in refl
check_pulses-acquire d p lo hi (s ∷ ss) hd hp h =
    let long = ltb (6 * d) s.length_us in
    let lo' = if long then lo else u8 (lo + 1) in
    let hi' = if long then u8 (hi + 1) else hi in
    let p' = next_pulse p in
    let hp' : next_pulse p < 50 = ground arith in
    let step =
      check_pulse-counted_up d p lo hi lo' hi' s hp (count_pulse_in_range d p' lo hi s hd h.0) in
    check_pulses-events (tuned d p 0 lo hi) s ss
    ∙ (ap (λ r. emit r.1 (check_pulses r.0 ss).1) step
        ∙ rest_of_counted_up d p' lo' hi' ss hd hp' h.1
            (check_pulses-acquire d p' lo' hi' ss hd hp' h.1))

-- From a reset, where every sample fits the divider 16: nothing is reported until more than four
-- short and more than four long pulses were counted (in bytes, which wrap); the sample that
-- completes them reports the synchronisation, and every later one its pulse.
pub check_pulses_from_reset :
    (c : Carrier) (ss : List Sample)
    → InRange 16 ss
    → (check_pulses (reset c) ss).1 ≡ acquire 16 0 0 ss
check_pulses_from_reset c ss h =
    rw reset-tuned (check_pulses-acquire 16 0 0 0 ss (inl refl) (omega arith) h)
