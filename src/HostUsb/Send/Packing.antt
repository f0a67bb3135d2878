-- ===== src/HostUsb/Send/Packing.antt =====
-- The buffer that `putSamples` packs, as nibbles.
use rfid_tool.Base.{
  ℕ, zero, suc, ◌+◌, ◌-◌, ◌*◌, ◌/◌, ◌%◌, ◌^◌, ◌≤◌, ◌<◌, ◌≡◌, refl, sym, ap, ap₂, ◌∙◌, arith,
}
use rfid_tool.Base.{Bool, true, false, ◌==◌, ==_iff, if◌then◌else◌, u8, u16, ◌<<<◌}
use rfid_tool.Base.{bit_or, all_below, all_pairs_sound, append_assoc}
use rfid_tool.Base.{
  List, [], ◌∷◌, ◌++◌, map, length, get_or, replicate, length-replicate, length-append,
  set-append_right,
}
use rfid_tool.Bits.{bit_and-one}
use rfid_tool.Interface.{Sample}
use rfid_tool.HostUsb.{ok}
use rfid_tool.HostUsb.Send.{put_value, pack_loop, sample_value}
use rfid_tool.Firmware.Transmitter.Playback.{nibbles}

-- Two samples in a byte; the upper half of the last is empty where the number is odd.
abbrev pub packed : List ℕ → List Sample → List ℕ
packed pulses [] = []
packed pulses (s ∷ []) = sample_value pulses s ∷ []
packed pulses (s ∷ (t ∷ ss)) =
    (sample_value pulses s + sample_value pulses t * 16) ∷ packed pulses ss

abbrev pub odd : {A : Type 0} → List A → Bool
odd [] = false
odd (x ∷ []) = true
odd (x ∷ (y ∷ ys)) = odd ys

-- Every value that is sent fits four bits.
abbrev pub AllNibbles : List ℕ → List Sample → Type 0
AllNibbles pulses [] = Unit {0}
AllNibbles pulses (s ∷ ss) = (sample_value pulses s < 16) × AllNibbles pulses ss

joined_nibbles : (a b : ℕ) → a < 16 → b < 16 → u8 (bit_or a (b <<< 4)) ≡ a + b * 16
unfolding all_below
joined_nibbles a b ha hb =
    (==_iff _ _).0
      (all_pairs_sound 16 16 (λ x y. u8 (bit_or x (y <<< 4)) == x + y * 16) a b refl ha hb)

get_or-append_right :
    (xs ys : List ℕ) (i d : ℕ) → get_or (xs ++ ys) (length xs + i) d ≡ get_or ys i d
get_or-append_right [] ys i d = ap (λ k. get_or ys k d) (omega arith)
get_or-append_right (x ∷ xs) ys i d = ground (arith, get_or-append_right xs ys i d)

put_value-even :
    (done : List ℕ) (b value : ℕ) (rest : List ℕ)
    → put_value (done ++ b ∷ rest) (2 * length done) value ≡ done ++ value ∷ rest
unfolding put_value
put_value-even done b value rest =
    let at : 2 * length done / 2 ^ 1 ≡ length done + 0 = omega arith in
    rw (bit_and-one (2 * length done))
      (rw at (ground (arith, set-append_right done (b ∷ rest) 0 value)))

put_value-odd :
    (done : List ℕ) (a value : ℕ) (rest : List ℕ)
    → a < 16
    → value < 16
    → put_value (done ++ a ∷ rest) (2 * length done + 1) value ≡ done ++ (a + value * 16) ∷ rest
unfolding put_value
put_value-odd done a value rest ha hv =
    let at : (2 * length done + 1) / 2 ^ 1 ≡ length done + 0 = omega arith in
    let upper : (2 * length done + 1) % 2 ≡ 1 = omega arith in
    rw (bit_and-one (2 * length done + 1)) (
      rw (at, upper)
        (rw (get_or-append_right done (a ∷ rest) 0 0) (
          rw (joined_nibbles a value ha hv) (set-append_right done (a ∷ rest) 0 (a + value * 16)))))

pack_loop-step :
    (pulses : List ℕ) (s : Sample) (ss : List Sample) (written : ℕ) (buffer : List ℕ)
    → written / 2 ^ 1 < length buffer
    → pack_loop pulses (s ∷ ss) written buffer
      ≡ pack_loop pulses ss (u16 (written + 1)) (put_value buffer written (sample_value pulses s))
unfolding pack_loop
pack_loop-step pulses s ss written buffer h = ground arith

-- `free` bytes are not yet written, and `left` stay so.
pack_loop-packed :
    (pulses : List ℕ) (ss : List Sample) (done : List ℕ) (free left : ℕ)
    → AllNibbles pulses ss
    → left + length (packed pulses ss) ≡ free
    → 2 * (length done + free) < 2 ^ 16
    → pack_loop pulses ss (2 * length done) (done ++ replicate free 0xff)
      ≡ ok (done ++ (packed pulses ss ++ replicate left 0xff))
unfolding pack_loop
pack_loop-packed pulses [] done free left h room bound =
    ap (λ k. ok (done ++ replicate k 0xff)) {x = free} {y = left} (omega arith)
pack_loop-packed pulses (s ∷ []) done zero left h room bound = absurd (omega arith)
pack_loop-packed pulses (s ∷ (t ∷ ss)) done zero left h room bound = absurd (omega arith)
pack_loop-packed pulses (s ∷ []) done (suc free) left h room bound =
    let rest : List ℕ = replicate free 0xff in
    let size = length-append done (0xff ∷ rest) in
    pack_loop-step pulses s [] (2 * length done) (done ++ 0xff ∷ rest) (omega (arith, size))
    ∙ (ap ok (put_value-even done 0xff (sample_value pulses s) rest)
        ∙ ap (λ k. ok (done ++ sample_value pulses s ∷ replicate k 0xff)) {x = free} {y = left}
            (omega arith))
pack_loop-packed pulses (s ∷ (t ∷ ss)) done (suc free) left h room bound =
    let rest : List ℕ = replicate free 0xff in
    let a = sample_value pulses s in
    let b = sample_value pulses t in
    let whole = a + b * 16 in
    let next : u16 (2 * length done + 1) ≡ 2 * length done + 1 = omega arith in
    let after : u16 (2 * length done + 1 + 1) ≡ 2 * length (done ++ whole ∷ []) =
      omega (arith, length-append done (whole ∷ [])) in
    let one : pack_loop pulses (s ∷ (t ∷ ss)) (2 * length done) (done ++ 0xff ∷ rest)
        ≡ pack_loop pulses (t ∷ ss) (2 * length done + 1) (done ++ a ∷ rest) =
      pack_loop-step pulses s (t ∷ ss) (2 * length done) (done ++ 0xff ∷ rest)
        (omega (arith, length-append done (0xff ∷ rest)))
      ∙ ap₂ (λ w buf. pack_loop pulses (t ∷ ss) w buf) next (put_value-even done 0xff a rest) in
    let two : pack_loop pulses (t ∷ ss) (2 * length done + 1) (done ++ a ∷ rest)
        ≡ pack_loop pulses ss (2 * length (done ++ whole ∷ [])) ((done ++ whole ∷ []) ++ rest) =
      pack_loop-step pulses t ss (2 * length done + 1) (done ++ a ∷ rest)
        (omega (arith, length-append done (a ∷ rest)))
      ∙ ap₂ (λ w buf. pack_loop pulses ss w buf) after
          (put_value-odd done a b rest h.0 h.1.0 ∙ sym (append_assoc done (whole ∷ []) rest)) in
    one
    ∙ (two
        ∙ (pack_loop-packed pulses ss (done ++ whole ∷ []) free left h.1.1 (omega arith)
              (omega (arith, length-append done (whole ∷ [])))
            ∙ ap ok (append_assoc done (whole ∷ []) _)))

nibbles-append : (xs ys : List ℕ) → nibbles (xs ++ ys) ≡ nibbles xs ++ nibbles ys
nibbles-append [] ys = refl
nibbles-append (x ∷ xs) ys = ap (λ r. x % 16 ∷ x / 16 ∷ r) (nibbles-append xs ys)

nibbles-ones : (n : ℕ) → nibbles (replicate n 0xff) ≡ replicate (2 * n) 15
nibbles-ones zero = refl
nibbles-ones (suc n) =
    ap (λ r. 15 ∷ 15 ∷ r) (nibbles-ones n)
    ∙ ap (λ k. replicate k 15) {x = suc (suc (2 * n))} {y = 2 * suc n} (omega arith)

-- The values of the samples, and a 0 behind an odd number of them.
abbrev pub values : List ℕ → List Sample → List ℕ
values pulses ss = map (sample_value pulses) ss ++ (if odd ss then 0 ∷ [] else [])

nibbles-packed :
    (pulses : List ℕ) (ss : List Sample)
    → AllNibbles pulses ss
    → nibbles (packed pulses ss) ≡ values pulses ss
nibbles-packed pulses [] h = refl
nibbles-packed pulses (s ∷ []) h = ap₂ (λ a b. a ∷ b ∷ []) (omega (arith, h.0)) (omega (arith, h.0))
nibbles-packed pulses (s ∷ (t ∷ ss)) h =
    let a = sample_value pulses s in
    let b = sample_value pulses t in
    let low : (a + b * 16) % 16 ≡ a = omega (arith, h.0) in
    let high : (a + b * 16) / 16 ≡ b = omega (arith, h.0) in
    ap₂ (λ x y. x ∷ y ∷ nibbles (packed pulses ss)) low high
    ∙ ap (λ r. a ∷ b ∷ r) (nibbles-packed pulses ss h.1.1)

length-packed : (pulses : List ℕ) (ss : List Sample) → 2 * length (packed pulses ss) ≤ length ss + 1
length-packed pulses [] = omega arith
length-packed pulses (s ∷ []) = omega arith
length-packed pulses (s ∷ (t ∷ ss)) = omega (arith, length-packed pulses ss)

-- The whole buffer: no write is out of bounds, and its nibbles are the values with ones behind.
pub pack_loop-values :
    (pulses : List ℕ) (ss : List Sample) (size : ℕ)
    → AllNibbles pulses ss
    → length ss ≤ 2 * size
    → 2 * size < 2 ^ 16
    → (buffer : List ℕ) × (pack_loop pulses ss 0 (replicate size 0xff) ≡ ok buffer)
      × (nibbles buffer ≡ values pulses ss ++ replicate (2 * (size - length (packed pulses ss))) 15)
      × (length buffer ≡ size)
pack_loop-values pulses ss size h room bound =
    let left = size - length (packed pulses ss) in
    let fits : left + length (packed pulses ss) ≡ size = omega (arith, length-packed pulses ss) in
    (
      packed pulses ss ++ replicate left 0xff,
      pack_loop-packed pulses ss [] size left h fits (omega arith),
      nibbles-append (packed pulses ss) (replicate left 0xff)
          ∙ ap₂ (λ xs ys. xs ++ ys) (nibbles-packed pulses ss h) (nibbles-ones left),
      omega (
        arith,
        length-append (packed pulses ss) (replicate left 0xff),
        length-replicate {A = ℕ} left 0xff,
        fits,
      ),
    )
