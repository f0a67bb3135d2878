-- ===== src/HostUsb/Send/Pulses.antt =====
-- The pulses that the device's transmitter plays from what `putSamples` sends.
use rfid_tool.Base.{ℕ, zero, suc, ◌+◌, ◌-◌, ◌*◌, ◌^◌, ◌≤◌, ◌<◌, ◌≡◌, refl, ap, ap₂, ◌∙◌, arith}
use rfid_tool.Base.{Bool, true, false, ◌&&◌, ◌==◌, ==_iff, if◌then◌else◌, u8, bit_or, bit_and}
use rfid_tool.Base.{
  all_below, append_assoc, all_below_sound, List, [], ◌∷◌, ◌++◌, map, length, get_or, replicate,
}
use rfid_tool.Interface.{Sample, is_low}
use rfid_tool.HostUsb.{ok}
use rfid_tool.HostUsb.Send.{pulses_loop, width, index_of, pulse_vector, sample_value, pack_loop}
use rfid_tool.HostUsb.Send.Widths.{AllIn, has, index_of-has, get_or-pulse_vector, pulses_loop-AllIn}
use rfid_tool.HostUsb.Send.Packing.{AllNibbles, odd, values, packed, pack_loop-values}
use rfid_tool.Firmware.Transmitter.Playback.{Played, nibbles, played_of, before_end}

-- The four bits of a value: an index under seven, and the level.
high_value : (i : ℕ) → i < 7 → u8 (bit_or 8 i) ≡ 8 + i
unfolding all_below
high_value i h = (==_iff _ _).0 (all_below_sound 7 (λ k. u8 (bit_or 8 k) == 8 + k) i refl h)

low_value : (i : ℕ) → i < 7 → u8 (bit_or 0 i) ≡ i
unfolding all_below
low_value i h = (==_iff _ _).0 (all_below_sound 7 (λ k. u8 (bit_or 0 k) == k) i refl h)

high_parts : (i : ℕ) → i < 7 → (bit_and (8 + i) 7 == i && bit_and (8 + i) 8 == 8) ≡ true
unfolding all_below
high_parts i h = all_below_sound 7 (λ k. bit_and (8 + k) 7 == k && bit_and (8 + k) 8 == 8) i refl h

low_parts : (i : ℕ) → i < 7 → (bit_and i 7 == i && bit_and i 8 == 0) ≡ true
unfolding all_below
low_parts i h = all_below_sound 7 (λ k. bit_and k 7 == k && bit_and k 8 == 0) i refl h

record ValueParts (pulses : List ℕ) (s : Sample) (v : ℕ) : Type 0 where
  small : v < 16
  index : bit_and v 7 ≡ index_of (width s) pulses
  level : (if bit_and v 8 == 0 then true else false) ≡ is_low s

sample_value-ValueParts :
    (pulses : List ℕ) (s : Sample)
    → index_of (width s) pulses < 7
    → ValueParts pulses s (sample_value pulses s)
unfolding sample_value
sample_value-ValueParts pulses s h =
    let i = index_of (width s) pulses in
    record {
      small = ground (arith, high_value i h, low_value i h);
      index = ground (arith, high_value i h, low_value i h, high_parts i h, low_parts i h);
      level = ground (arith, high_value i h, low_value i h, high_parts i h, low_parts i h);
    }

-- Widths that a byte holds.
abbrev pub AllWidths : List Sample → Type 0
AllWidths [] = Unit {0}
AllWidths (s ∷ ss) = (0 < width s) × (width s < 256) × AllWidths ss

-- What a sample is to the device: the ticks until the next pulse, less one, and the level.
abbrev pub sample_pulse : Sample → Played
sample_pulse s = record { ocr0a = width s - 1; coil_output = is_low s }

played_of-sample_value :
    (pulses : List ℕ) (size : ℕ) (s : Sample)
    → length pulses ≤ 7
    → has (width s) pulses ≡ true
    → 0 < width s
    → width s < 256
    → (played_of (pulse_vector size pulses) (sample_value pulses s) ≡ sample_pulse s)
      × ((bit_and (sample_value pulses s) 0x07 == 0x07) ≡ false)
      × (sample_value pulses s < 16)
played_of-sample_value pulses size s few member from to =
    let v = sample_value pulses s in
    let vector = pulse_vector size pulses in
    let (below, found) = index_of-has (width s) pulses member in
    let parts = sample_value-ValueParts pulses s (omega arith) in
    let wide : get_or vector (bit_and v 0x07) 0 ≡ u8 (width s) =
      ap (λ k. get_or vector k 0) parts.index
      ∙ (get_or-pulse_vector size pulses (index_of (width s) pulses) below ∙ ap u8 found) in
    let ticks : u8 (get_or vector (bit_and v 0x07) 0 + 255) ≡ width s - 1 = omega (arith, wide) in
    (
      ap₂ (λ a b. record { ocr0a = a; coil_output = b }) ticks parts.level,
      ground (arith, parts.index),
      parts.small,
    )

before_end-ones : (n : ℕ) → before_end (replicate n 15) ≡ []
before_end-ones zero = refl
before_end-ones (suc n) = refl

-- The values of samples with widths in the set, then nibbles that play nothing or one pulse.
map-before_end-values :
    (pulses : List ℕ) (size : ℕ) (ss : List Sample) (rest : List ℕ)
    → length pulses ≤ 7
    → AllIn pulses ss
    → AllWidths ss
    → map (played_of (pulse_vector size pulses)) (before_end (map (sample_value pulses) ss ++ rest))
      ≡ map sample_pulse ss ++ map (played_of (pulse_vector size pulses)) (before_end rest)
map-before_end-values pulses size [] rest few members wide = refl
map-before_end-values pulses size (s ∷ ss) rest few members wide =
    let one = played_of-sample_value pulses size s few members.0 wide.0 wide.1 in
    ap
      (λ q. map (played_of (pulse_vector size pulses)) (
        if q
        then []
        else sample_value pulses s ∷ before_end (map (sample_value pulses) ss ++ rest)))
      one.1
    ∙ ap₂ (λ a b. a ∷ b) one.0 (map-before_end-values pulses size ss rest few members.1 wide.2)

all_nibbles :
    (pulses : List ℕ) (ss : List Sample)
    → length pulses ≤ 7
    → AllIn pulses ss
    → AllWidths ss
    → AllNibbles pulses ss
all_nibbles pulses [] few members wide = tt
all_nibbles pulses (s ∷ ss) few members wide = (
  (played_of-sample_value pulses 7 s few members.0 wide.0 wide.1).2,
  all_nibbles pulses ss few members.1 wide.2,
)

-- An odd number of samples leaves a 0 in the upper half of the last byte: one more pulse, low and
-- of the smallest width.
abbrev pub trailer : List ℕ → List Sample → List Played
trailer pulses ss = if odd ss then played_of (pulse_vector 7 pulses) 0 ∷ [] else []

map-before_end-nibbles :
    (pulses : List ℕ) (ss : List Sample) (n : ℕ)
    → length pulses ≤ 7
    → AllIn pulses ss
    → AllWidths ss
    → map (played_of (pulse_vector 7 pulses)) (before_end (values pulses ss ++ replicate n 15))
      ≡ map sample_pulse ss ++ trailer pulses ss
map-before_end-nibbles pulses ss n few members wide =
    let plays = λ (ns : List ℕ). map (played_of (pulse_vector 7 pulses)) (before_end ns) in
    let tail : List ℕ = if odd ss then 0 ∷ [] else [] in
    let rest : plays (tail ++ replicate n 15) ≡ trailer pulses ss = after_values (odd ss) in
    ap plays (append_assoc (map (sample_value pulses) ss) tail (replicate n 15))
    ∙ (map-before_end-values pulses 7 ss (tail ++ replicate n 15) few members wide
        ∙ ap (λ r. map sample_pulse ss ++ r) rest)
  where
    after_values :
        (b : Bool)
        → map
            (played_of (pulse_vector 7 pulses))
            (before_end ((if b then 0 ∷ [] else []) ++ replicate n 15))
          ≡ (if b then played_of (pulse_vector 7 pulses) 0 ∷ [] else [])
    after_values true =
        ap (λ r. played_of (pulse_vector 7 pulses) 0 ∷ map (played_of (pulse_vector 7 pulses)) r)
          (before_end-ones n)
    after_values false = ap (λ r. map (played_of (pulse_vector 7 pulses)) r) (before_end-ones n)

-- Samples of at most seven different widths, each from 1 to 255 periods, that fit the buffer, of
-- fewer than 32768 bytes: the
-- packing writes nowhere else, and the device's transmitter plays the samples from the result, in
-- order and each with its width and level, and then one low pulse more where their number is odd.
pub pack_loop-pulses :
    (ss : List Sample) (size : ℕ)
    → length (pulses_loop ss []) ≤ 7
    → AllWidths ss
    → length ss ≤ 2 * size
    → 2 * size < 2 ^ 16
    → let pulses = pulses_loop ss [] in
      (buffer : List ℕ) × (pack_loop pulses ss 0 (replicate size 0xff) ≡ ok buffer)
      × (map (played_of (pulse_vector 7 pulses)) (before_end (nibbles buffer))
          ≡ map sample_pulse ss ++ trailer pulses ss)
      × (length buffer ≡ size)
pack_loop-pulses ss size few wide room bound =
    let pulses = pulses_loop ss [] in
    let members = pulses_loop-AllIn ss [] in
    let (buffer, done, held, len) =
      pack_loop-values pulses ss size (all_nibbles pulses ss few members wide) room bound in
    (
      buffer,
      done,
      ap (λ ns. map (played_of (pulse_vector 7 pulses)) (before_end ns)) held
          ∙ map-before_end-nibbles pulses ss (2 * (size - length (packed pulses ss))) few members
              wide,
      len,
    )
