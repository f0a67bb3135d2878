-- ===== src/CarrierDecoder/Search.antt =====
-- Giving up a divider and moving on to the next one.
use rfid_tool.Base.{ℕ, zero, suc, ◌+◌, ◌*◌, ◌<◌, ◌≡◌, refl, ap, ◌∙◌, ◌⊎◌, inl, inr, arith}
use rfid_tool.Base.{false}
use rfid_tool.Base.{none, some, List, [], ◌∷◌, ◌++◌, length}
use rfid_tool.Interface.{Sample}
use rfid_tool.CarrierDecoder.{
  Carrier, CarrierEvent, sync_changed, next_divider, update_pulse_range, reset, next_carrier,
  count_pulse, search_sync, counted, windowed, check_pulse, check_pulses,
}
use rfid_tool.CarrierDecoder.Sync.{at_round, check_pulse_of_few}

abbrev pub IsDivider : ℕ → Type 0
IsDivider d = (d ≡ 16) ⊎ ((d ≡ 32) ⊎ (d ≡ 64))

-- Tuned to divider `d` and not in sync.
abbrev pub tuned : ℕ → ℕ → ℕ → ℕ → ℕ → Carrier
tuned d pulses errors lo hi = record {
  long_min = 7 * d;
  long_max = 9 * d;
  short_min = 3 * d;
  short_max = 5 * d;
  pulse_count = pulses;
  lo_count = lo;
  hi_count = hi;
  error_count = errors;
  carrier_divider = d;
  has_sync = false;
}

pub reset-tuned : (c : Carrier) → reset c ≡ tuned 16 0 0 0 0
unfolding reset update_pulse_range
reset-tuned c = refl

-- A length that fits no divider.
abbrev pub IsNoise : Sample → Type 0
IsNoise s = (s.length_us < 48) ⊎ (576 < s.length_us)

abbrev pub AllNoise : List Sample → Type 0
AllNoise [] = Unit {0}
AllNoise (s ∷ ss) = IsNoise s × AllNoise ss

at_round-tuned : (d p e lo hi : ℕ) → p < 49 → at_round (tuned d p e lo hi) ≡ tuned d (p + 1) e lo hi
unfolding windowed counted
at_round-tuned d p e lo hi h = ground arith

search_sync_of_noise :
    (d k : ℕ) (s : Sample)
    → IsDivider d
    → k < 10
    → IsNoise s
    → search_sync (tuned d (k + 1) k 0 0) s ≡ (tuned d (k + 1) (k + 1) 0 0, none)
unfolding search_sync count_pulse
search_sync_of_noise d k s hd hk h = ground arith

check_pulse_of_noise :
    (d k : ℕ) (s : Sample)
    → IsDivider d
    → k < 10
    → IsNoise s
    → check_pulse (tuned d k k 0 0) s ≡ (tuned d (k + 1) (k + 1) 0 0, none)
check_pulse_of_noise d k s hd hk h =
    check_pulse_of_few (tuned d k k 0 0) s hk
    ∙ (ap (λ c. search_sync c s) (at_round-tuned d k k 0 0 (omega arith))
        ∙ search_sync_of_noise d k s hd hk h)

next_divider-IsDivider : (d : ℕ) → IsDivider d → IsDivider (next_divider d)
next_divider-IsDivider d (inl e) = inr (inl (ground arith))
next_divider-IsDivider d (inr (inl e)) = inr (inr (ground arith))
next_divider-IsDivider d (inr (inr e)) = inl (ground arith)

check_pulse_of_many :
    (d : ℕ) (s : Sample)
    → IsDivider d
    → check_pulse (tuned d 10 10 0 0) s
      ≡ (tuned (next_divider d) 0 0 0 0, some (sync_changed false 0))
unfolding check_pulse counted next_carrier update_pulse_range
check_pulse_of_many d s (inl e) = ground arith
check_pulse_of_many d s (inr (inl e)) = ground arith
check_pulse_of_many d s (inr (inr e)) = ground arith

-- Noise fills the error count, and the sample after that, whatever it is, changes the divider.
check_pulses_of_noise :
    (d left k : ℕ) (ss : List Sample) (s : Sample) (rest : List Sample)
    → IsDivider d
    → k + left ≡ 10
    → length ss ≡ left
    → AllNoise ss
    → check_pulses (tuned d k k 0 0) (ss ++ s ∷ rest) ≡ (
        let (last, events) = check_pulses (tuned (next_divider d) 0 0 0 0) rest in
        (last, sync_changed false 0 ∷ events))
unfolding check_pulses
check_pulses_of_noise d zero k [] s rest hd e l h =
    let ten : k ≡ 10 = omega arith in rw (ten, check_pulse_of_many d s hd)
check_pulses_of_noise d (suc left) k [] s rest hd e l h = absurd (omega arith)
check_pulses_of_noise d zero k (n ∷ ss) s rest hd e l h = absurd (omega arith)
check_pulses_of_noise d (suc left) k (n ∷ ss) s rest hd e l h =
    rw (check_pulse_of_noise d k n hd (omega arith) h.0)
      (check_pulses_of_noise d left (k + 1) ss s rest hd (omega arith) (omega arith) h.1)

abbrev lose : Carrier × List CarrierEvent → Carrier × List CarrierEvent
lose r = (r.0, sync_changed false 0 ∷ r.1)

check_pulses-nil : (c : Carrier) → check_pulses c [] ≡ (c, [])
unfolding check_pulses
check_pulses-nil c = refl

-- A reset decoder that hears ten samples of no divider gives up the divider 16 at the next
-- sample, whatever that is, then likewise 32 and 64, and is then as after a reset. It reports
-- the loss three times.
pub check_pulses_of_three_bursts :
    (c : Carrier) (noise1 noise2 noise3 : List Sample) (s1 s2 s3 : Sample)
    → (length noise1 ≡ 10) × AllNoise noise1
    → (length noise2 ≡ 10) × AllNoise noise2
    → (length noise3 ≡ 10) × AllNoise noise3
    → check_pulses (reset c) (noise1 ++ s1 ∷ (noise2 ++ s2 ∷ (noise3 ++ s3 ∷ [])))
      ≡ (reset c, sync_changed false 0 ∷ sync_changed false 0 ∷ sync_changed false 0 ∷ [])
check_pulses_of_three_bursts c n1 n2 n3 s1 s2 s3 h1 h2 h3 =
    let sixteen : IsDivider 16 = inl refl in
    let thirty_two : IsDivider 32 = inr (inl refl) in
    let sixty_four : IsDivider 64 = inr (inr refl) in
    rw reset-tuned (
      check_pulses_of_noise 16 10 0 n1 s1 (n2 ++ s2 ∷ (n3 ++ s3 ∷ [])) sixteen refl h1.0 h1.1
      ∙ (ap lose (
          check_pulses_of_noise 32 10 0 n2 s2 (n3 ++ s3 ∷ []) thirty_two refl h2.0 h2.1
          ∙ ap lose (
              check_pulses_of_noise 64 10 0 n3 s3 [] sixty_four refl h3.0 h3.1
              ∙ ap lose (check_pulses-nil (tuned 16 0 0 0 0))))))
