-- ===== src/HostUsb/Send/Blocks.antt =====
-- The blocks of rfid-tool/src/rfid/T5557Encoder.cpp in the buffers that `putSamples` of
-- rfid-tool/src/rfid/impl/InterfaceUsbImpl.cpp fills.
use mathlib.Core.List.{reverse}
use mathlib.Core.Path.{subst}
use rfid_tool.Base.{ℕ, ◌*◌, ◌%◌, ◌^◌, ◌≤◌, ◌<◌, ◌≡◌, refl, sym, ap, ◌∙◌, ◌⊎◌, inl, inr, arith}
use rfid_tool.Base.{
  Bool, true, false, ◌==◌, if◌then◌else◌, List, [], ◌∷◌, ◌++◌, map, length, replicate,
}
use rfid_tool.Base.{length-append}
use rfid_tool.Bits.{bit_list, bits_down-reverse, length-bits_down, length-bit_list}
use rfid_tool.Interface.{Sample}
use rfid_tool.T5557Encoder.{encode_block}
use rfid_tool.T5557Encoder.Pulses.{pulses_of, start_gap, block_bits, encode_block-pulses}
use rfid_tool.HostUsb.{ok}
use rfid_tool.HostUsb.Send.{pulses_loop, insert_pulse, pulse_vector, pack_loop}
use rfid_tool.HostUsb.Send.Packing.{odd}
use rfid_tool.HostUsb.Send.Pulses.{AllWidths, sample_pulse, trailer, pack_loop-pulses}
use rfid_tool.Firmware.Transmitter.Playback.{Played, nibbles, played_of, before_end}

-- The widths of the gaps and of a 1, and those with a 0 as well.
abbrev without_zero : List ℕ
without_zero = 19 ∷ 30 ∷ 55 ∷ []

abbrev with_zero : List ℕ
with_zero = 19 ∷ 23 ∷ 30 ∷ 55 ∷ []

pulses_loop-with_zero : (bs : List Bool) → pulses_loop (pulses_of bs) with_zero ≡ with_zero
unfolding pulses_loop insert_pulse
pulses_loop-with_zero [] = refl
pulses_loop-with_zero (true ∷ bs) = pulses_loop-with_zero bs
pulses_loop-with_zero (false ∷ bs) = pulses_loop-with_zero bs

pulses_loop-without_zero :
    (bs : List Bool)
    → (pulses_loop (pulses_of bs) without_zero ≡ without_zero)
      ⊎ (pulses_loop (pulses_of bs) without_zero ≡ with_zero)
unfolding pulses_loop insert_pulse
pulses_loop-without_zero [] = inl refl
pulses_loop-without_zero (true ∷ bs) = pulses_loop-without_zero bs
pulses_loop-without_zero (false ∷ bs) = inr (pulses_loop-with_zero bs)

pulses_of-AllWidths : (bs : List Bool) → AllWidths (pulses_of bs)
pulses_of-AllWidths [] = tt
pulses_of-AllWidths (true ∷ bs) =
    (omega arith, omega arith, (omega arith, omega arith, pulses_of-AllWidths bs))
pulses_of-AllWidths (false ∷ bs) =
    (omega arith, omega arith, (omega arith, omega arith, pulses_of-AllWidths bs))

length-pulses_of : (bs : List Bool) → length (pulses_of bs) ≡ 2 * length bs
length-pulses_of [] = refl
length-pulses_of (b ∷ bs) = omega (arith, length-pulses_of bs)

odd-pulses_of : (bs : List Bool) → odd (start_gap ∷ pulses_of bs) ≡ true
odd-pulses_of [] = refl
odd-pulses_of (b ∷ bs) = odd-pulses_of bs

length-reverse : (n w : ℕ) → length (reverse (bit_list n w)) ≡ n
length-reverse n w = sym (ap length (bits_down-reverse n w)) ∙ length-bits_down n w

length-block_bits :
    (page block : ℕ) (lock send : Bool) (password word : ℕ)
    → length (block_bits page block lock send password word) ≤ 70
length-block_bits page block lock true password word = omega (
  arith,
  length-append (reverse (bit_list 32 password))
      (lock ∷ bit_list 32 word ++ reverse (bit_list 3 block)),
  length-append (bit_list 32 word) (reverse (bit_list 3 block)),
  length-reverse 32 password,
  length-reverse 3 block,
  length-bit_list 32 word,
)
length-block_bits page block lock false password word = omega (
  arith,
  length-append (bit_list 32 word) (reverse (bit_list 3 block)),
  length-reverse 3 block,
  length-bit_list 32 word,
)

-- The pulse that follows each block: low, and of the smallest width.
abbrev pub after_block : Played
after_block = record { ocr0a = 18; coil_output = true }

trailer-pulses_of :
    (bs : List Bool) (pulses : List ℕ)
    → (pulses ≡ without_zero) ⊎ (pulses ≡ with_zero)
    → trailer pulses (start_gap ∷ pulses_of bs) ≡ after_block ∷ []
unfolding pulse_vector
trailer-pulses_of bs pulses (inl e) = rw (odd-pulses_of bs, e)
trailer-pulses_of bs pulses (inr e) = rw (odd-pulses_of bs, e)

few_widths : (pulses : List ℕ) → (pulses ≡ without_zero) ⊎ (pulses ≡ with_zero) → length pulses ≤ 4
few_widths pulses (inl e) = rw e (omega arith)
few_widths pulses (inr e) = rw e (omega arith)

-- What it means for samples to be played from a buffer of `size` bytes, and then one pulse more.
abbrev pub IsPlayed : ℕ → List Sample → Type 0
IsPlayed size ss =
    let pulses = pulses_loop ss [] in
    (length pulses ≤ 4)
    × (buffer : List ℕ) × (pack_loop pulses ss 0 (replicate size 0xff) ≡ ok buffer)
    × (map (played_of (pulse_vector 7 pulses)) (before_end (nibbles buffer))
        ≡ map sample_pulse ss ++ after_block ∷ [])
    × (length buffer ≡ size)

pulses_of-IsPlayed :
    (bs : List Bool) (size : ℕ)
    → length bs < 70
    → 71 ≤ size
    → 2 * size < 2 ^ 16
    → IsPlayed size (start_gap ∷ pulses_of (true ∷ bs))
unfolding pulses_loop insert_pulse
pulses_of-IsPlayed bs size few room bound =
    let ss = start_gap ∷ pulses_of (true ∷ bs) in
    let widths = pulses_loop-without_zero bs in
    let short = few_widths (pulses_loop ss []) widths in
    let (buffer, done, plays, len) =
      pack_loop-pulses ss size (omega (arith, short))
        (omega arith, omega arith, pulses_of-AllWidths (true ∷ bs))
        (omega (arith, length-pulses_of bs)) bound in
    (
      short,
      buffer,
      done,
      plays
          ∙ ap (λ r. map sample_pulse ss ++ r)
              (trailer-pulses_of (true ∷ bs) (pulses_loop ss []) widths),
      len,
    )

-- Every block, with a password or without, fits a buffer of at least 71 bytes with no more than four
-- widths: the transmitter plays its pulses in order, and then one more, low and of 19 periods.
pub pack_loop-encode_block :
    (page block : ℕ) (lock send : Bool) (password word size : ℕ)
    → 71 ≤ size
    → 2 * size < 2 ^ 16
    → IsPlayed size (encode_block page block lock send password word [])
pack_loop-encode_block page block lock send password word size room bound =
    let bits =
      (page % 2 == 1)
      ∷ ((if send then reverse (bit_list 32 password) else [])
          ++ (lock ∷ bit_list 32 word ++ reverse (bit_list 3 block))) in
    subst (λ ss. IsPlayed size ss) (sym (encode_block-pulses page block lock send password word []))
      (pulses_of-IsPlayed bits size
        (omega (arith, length-block_bits page block lock send password word)) room bound)

-- A block has at most 141 pulses.
pub length-encode_block :
    (page block : ℕ) (lock send : Bool) (password word : ℕ)
    → length (encode_block page block lock send password word []) ≤ 141
length-encode_block page block lock send password word =
    let bits =
      (page % 2 == 1)
      ∷ ((if send then reverse (bit_list 32 password) else [])
          ++ (lock ∷ bit_list 32 word ++ reverse (bit_list 3 block))) in
    omega (
      arith,
      ap length (encode_block-pulses page block lock send password word []),
      length-pulses_of (true ∷ bits),
      length-block_bits page block lock send password word,
    )
