-- ===== src/T5557Encoder/Pulses.antt =====
-- The pulses of a block as the pulses of a bit string.
use mathlib.Core.List.{reverse}
use rfid_tool.Base.{
  ℕ, zero, suc, ◌+◌, ◌%◌, bit_and, bit_or, ◌<<<◌, ◌≡◌, refl, sym, ap, ◌∙◌, ◌⊎◌, inl, inr, arith,
}
use rfid_tool.Base.{
  Bool, true, false, ◌==◌, if◌then◌else◌, List, [], ◌∷◌, ◌++◌, append_assoc, append-nil,
}
use rfid_tool.Bits.{
  bit_list, bits_from, bits_from-bit_list, bits_down, bits_down-reverse, test_bit, bit_and-one,
}
use rfid_tool.Interface.{Sample}
use rfid_tool.T5557Encoder.{
  TransferData, fixed_bit_length, add_pulse, transfer_data, add_bit, add_bits_lsb, add_bits_msb,
  encode_block,
}

-- A bit is a high pulse, longer for a 1, and then the write gap.
abbrev pub bit_pulses : Bool → List Sample
bit_pulses b =
    record { length_us = if b then 440 else 184; is_high = true }
    ∷ record { length_us = 152; is_high = false }
    ∷ []

abbrev pub pulses_of : List Bool → List Sample
pulses_of [] = []
pulses_of (b ∷ bs) = bit_pulses b ++ pulses_of bs

pub pulses_of-append : (bs cs : List Bool) → pulses_of (bs ++ cs) ≡ pulses_of bs ++ pulses_of cs
pulses_of-append [] cs = refl
pulses_of-append (b ∷ bs) cs = ap (λ r. bit_pulses b ++ r) (pulses_of-append bs cs)

abbrev pub start_gap : Sample
start_gap = record { length_us = 240; is_high = false }

abbrev fixed : List Sample → TransferData
fixed ss = record { protocol = fixed_bit_length; samples = ss }

add_bit-fixed : (ss : List Sample) (b : Bool) → add_bit (fixed ss) b ≡ fixed (ss ++ bit_pulses b)
unfolding add_bit add_pulse
add_bit-fixed ss true = ap fixed (append_assoc ss _ _)
add_bit-fixed ss false = ap fixed (append_assoc ss _ _)

add_bits_lsb-fixed :
    (left i : ℕ) (ss : List Sample) (w : ℕ)
    → add_bits_lsb left i (fixed ss) w ≡ fixed (ss ++ pulses_of (bits_from i left w))
unfolding add_bits_lsb
add_bits_lsb-fixed zero i ss w = ap fixed (sym (append-nil ss))
add_bits_lsb-fixed (suc left) i ss w =
    ap (λ t. add_bits_lsb left (i + 1) t w) (add_bit-fixed ss (test_bit w i))
    ∙ (add_bits_lsb-fixed left (i + 1) (ss ++ bit_pulses (test_bit w i)) w
        ∙ ap fixed (append_assoc ss (bit_pulses (test_bit w i)) _))

add_bits_msb-fixed :
    (n : ℕ) (ss : List Sample) (w : ℕ)
    → add_bits_msb n (fixed ss) w ≡ fixed (ss ++ pulses_of (bits_down n w))
unfolding add_bits_msb
add_bits_msb-fixed zero ss w = ap fixed (sym (append-nil ss))
add_bits_msb-fixed (suc n) ss w =
    ap (λ t. add_bits_msb n t w) (add_bit-fixed ss (test_bit w n))
    ∙ (add_bits_msb-fixed n (ss ++ bit_pulses (test_bit w n)) w
        ∙ ap fixed (append_assoc ss (bit_pulses (test_bit w n)) _))

-- Opcode `1` and the page, the password if it is sent, the lock bit, the word from its lowest
-- bit on, and the three bits of the block's number from the highest on.
abbrev pub block_bits : ℕ → ℕ → Bool → Bool → ℕ → ℕ → List Bool
block_bits page block lock password_send password word =
    (true ∷ (page % 2 == 1) ∷ [])
    ++ ((if password_send then reverse (bit_list 32 password) else [])
        ++ (lock ∷ bit_list 32 word ++ reverse (bit_list 3 block)))

add_bits_lsb-all :
    (n : ℕ) (ss : List Sample) (w : ℕ)
    → add_bits_lsb n 0 (fixed ss) w ≡ fixed (ss ++ pulses_of (bit_list n w))
add_bits_lsb-all n ss w =
    add_bits_lsb-fixed n 0 ss w ∙ ap (λ bs. fixed (ss ++ pulses_of bs)) (bits_from-bit_list n w)

add_bits_msb-all :
    (n : ℕ) (ss : List Sample) (w : ℕ)
    → add_bits_msb n (fixed ss) w ≡ fixed (ss ++ pulses_of (reverse (bit_list n w)))
add_bits_msb-all n ss w =
    add_bits_msb-fixed n ss w ∙ ap (λ bs. fixed (ss ++ pulses_of bs)) (bits_down-reverse n w)

opcode_bits :
    (page : ℕ) → bit_list 2 (bit_or 1 (bit_and page 0x01 <<< 1)) ≡ true ∷ (page % 2 == 1) ∷ []
unfolding bit_list
opcode_bits page =
    let parity : (page % 2 ≡ 0) ⊎ (page % 2 ≡ 1) = omega arith in
    elim parity [ inl e ↦ rw (bit_and-one page, e) | inr e ↦ rw (bit_and-one page, e) ]

-- The lock bit, the word and the address, after what is there already.
finish_block :
    (ss : List Sample) (lock : Bool) (word block : ℕ)
    → (add_bits_msb 3 (add_bits_lsb 32 0 (add_bit (fixed ss) lock) word) block).samples
      ≡ ss ++ pulses_of (lock ∷ bit_list 32 word ++ reverse (bit_list 3 block))
finish_block ss lock word block =
    simp (add_bits_lsb-all, add_bits_msb-all, add_bit-fixed, pulses_of-append, append_assoc)

start_block :
    (ss : List Sample) (page : ℕ)
    → add_bits_lsb 2 0 (transfer_data fixed_bit_length ss) (bit_or 1 (bit_and page 0x01 <<< 1))
      ≡ fixed (ss ++ start_gap ∷ pulses_of (true ∷ (page % 2 == 1) ∷ []))
unfolding transfer_data add_pulse
start_block ss page =
    add_bits_lsb-all 2 (ss ++ start_gap ∷ []) (bit_or 1 (bit_and page 0x01 <<< 1))
    ∙ (ap (λ bs. fixed ((ss ++ start_gap ∷ []) ++ pulses_of bs)) (opcode_bits page)
        ∙ ap fixed (append_assoc ss (start_gap ∷ []) _))

-- `encodeBlock` appends the start gap and the pulses of exactly those bits.
pub encode_block-pulses :
    (page block : ℕ) (lock password_send : Bool) (password word : ℕ) (samples : List Sample)
    → encode_block page block lock password_send password word samples
      ≡ samples ++ start_gap ∷ pulses_of (block_bits page block lock password_send password word)
unfolding encode_block
encode_block-pulses page block lock true password word samples =
    let opcode = true ∷ (page % 2 == 1) ∷ [] in
    let started = samples ++ start_gap ∷ pulses_of opcode in
    let rest = lock ∷ bit_list 32 word ++ reverse (bit_list 3 block) in
    let secret = reverse (bit_list 32 password) in
    let tail = λ (t : TransferData).
      (add_bits_msb 3 (add_bits_lsb 32 0 (add_bit t lock) word) block).samples in
    ap (λ t. tail (add_bits_msb 32 t password)) (start_block samples page)
    ∙ (ap tail (add_bits_msb-all 32 started password)
        ∙ (finish_block (started ++ pulses_of secret) lock word block
            ∙ (append_assoc started (pulses_of secret) (pulses_of rest)
                ∙ (ap (λ r. started ++ r) (sym (pulses_of-append secret rest))
                    ∙ append_assoc samples (start_gap ∷ pulses_of opcode)
                        (pulses_of (secret ++ rest))))))
encode_block-pulses page block lock false password word samples =
    let opcode = true ∷ (page % 2 == 1) ∷ [] in
    let started = samples ++ start_gap ∷ pulses_of opcode in
    let rest = lock ∷ bit_list 32 word ++ reverse (bit_list 3 block) in
    let tail = λ (t : TransferData).
      (add_bits_msb 3 (add_bits_lsb 32 0 (add_bit t lock) word) block).samples in
    ap tail (start_block samples page)
    ∙ (finish_block started lock word block
        ∙ append_assoc samples (start_gap ∷ pulses_of opcode) (pulses_of rest))
