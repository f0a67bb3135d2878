-- ===== src/T5557Encoder/Config.antt =====
-- The configuration word as the fields of its bit string.
use rfid_tool.Base.{ℕ, ◌+◌, ◌<◌, ◌≤◌, ◌≡◌, refl, sym, ap, ◌∙◌, arith}
use rfid_tool.Base.{
  Bool, true, false, List, [], ◌∷◌, ◌++◌, append-nil, length, length-append, take, take-length,
}
use rfid_tool.Base.{get_or, if◌then◌else◌}
use rfid_tool.Bits.{bit_list, bits_down, length-bits_down}
use rfid_tool.DataUtils.{put_bit}
use rfid_tool.DataUtils.Buffer.{
  word_bits, length-word_bits, prefix-put_bit, prefix-put_bits_msb, length-put_bit,
}
use rfid_tool.T5557Encoder.{ConfigWord, put_field, put_flag, config_of, Params, encode_parameters}
use rfid_tool.T5557Encoder.Pulses.{start_gap, pulses_of, encode_block-pulses}
use rfid_tool.Interface.{Sample}
use mathlib.Core.List.{reverse}
use rfid_tool.T5557Encoder.{rate_value, modulation_value, psk_value}

-- The fields put so far.
pub record HasFields (c : ConfigWord) (bits : List Bool) : Type 0 where
  pub one_word : length c.word ≡ 1
  pub prefix : take (length bits) (word_bits c.word) ≡ bits
  pub offset : c.bit_offset ≡ length bits

put_field-HasFields :
    {c : ConfigWord} (before : List Bool) (bits count : ℕ)
    → length before + count ≤ 32
    → HasFields c before
    → HasFields (put_field c bits count) (before ++ bits_down count bits)
unfolding put_field
put_field-HasFields {c} before bits count h f =
    let total : length (before ++ bits_down count bits) ≡ length before + count =
      omega (arith, length-append {0} before (bits_down count bits), length-bits_down count bits) in
    let put = prefix-put_bits_msb c.word before bits count (omega arith) (omega arith) f.prefix in
    rw f.offset (record {
      one_word = put.0 ∙ f.one_word;
      prefix = rw total put.2;
      offset = omega (arith, put.1);
    })

put_flag-HasFields :
    {c : ConfigWord} (before : List Bool) (b : Bool)
    → length before < 32
    → HasFields c before
    → HasFields (put_flag c b) (before ++ b ∷ [])
unfolding put_flag
put_flag-HasFields {c} before b h f =
    let total : length (before ++ b ∷ []) ≡ length before + 1 =
      omega (arith, length-append {0} before (b ∷ [])) in
    let one : (put_bit c.word (length before) b).1 ≡ 1 = unfold put_bit in refl in
    rw f.offset (record {
      one_word = length-put_bit c.word (length before) b ∙ f.one_word;
      prefix = prefix-put_bit c.word before b (omega arith) f.prefix;
      offset = omega arith;
    })

-- The configuration block of the T5557, the first bit first.
abbrev pub config_bits : Params → List Bool
config_bits p =
    bits_down 4 p.master_key
    ++ bits_down 7 0
    ++ bits_down 3 (rate_value p.data_rate)
    ++ (false ∷ [])
    ++ bits_down 5 (modulation_value p.modulation)
    ++ bits_down 2 (psk_value p.psk_subcarrier)
    ++ (p.answer_on_request ∷ [])
    ++ (false ∷ [])
    ++ bits_down 3 p.max_block
    ++ (p.password ∷ [])
    ++ (p.sequence_terminator ∷ [])
    ++ bits_down 2 0
    ++ (p.power_on_reset_delay ∷ [])

config_of-HasFields : (p : Params) → HasFields (config_of p) (config_bits p)
unfolding config_of
config_of-HasFields p =
    let start : HasFields (record { word = 0 ∷ []; bit_offset = 0 }) [] = record {
      one_word = refl;
      prefix = refl;
      offset = refl;
    } in
    let f1 = put_field-HasFields [] p.master_key 4 (omega arith) start in
    let f2 = put_field-HasFields _ 0 7 (omega arith) f1 in
    let f3 = put_field-HasFields _ (rate_value p.data_rate) 3 (omega arith) f2 in
    let f4 = put_flag-HasFields _ false (omega arith) f3 in
    let f5 = put_field-HasFields _ (modulation_value p.modulation) 5 (omega arith) f4 in
    let f6 = put_field-HasFields _ (psk_value p.psk_subcarrier) 2 (omega arith) f5 in
    let f7 = put_flag-HasFields _ p.answer_on_request (omega arith) f6 in
    let f8 = put_flag-HasFields _ false (omega arith) f7 in
    let f9 = put_field-HasFields _ p.max_block 3 (omega arith) f8 in
    let f10 = put_flag-HasFields _ p.password (omega arith) f9 in
    let f11 = put_flag-HasFields _ p.sequence_terminator (omega arith) f10 in
    let f12 = put_field-HasFields _ 0 2 (omega arith) f11 in
    put_flag-HasFields _ p.power_on_reset_delay (omega arith) f12

one_word_bits : (ws : List ℕ) → length ws ≡ 1 → word_bits ws ≡ bit_list 32 (get_or ws 0 0)
unfolding word_bits
one_word_bits (w ∷ []) h = append-nil (bit_list 32 w)
one_word_bits _ h = absurd (omega arith)

-- The configuration word carries its fields at their places: all 32 bits, whatever the parameters.
pub bit_list-config_of : (p : Params) → bit_list 32 (get_or (config_of p).word 0 0) ≡ config_bits p
bit_list-config_of p =
    let f = config_of-HasFields p in
    let words = (config_of p).word in
    let whole : length (word_bits words) ≡ length (config_bits p) =
      omega (arith, length-word_bits words, f.one_word) in
    sym (one_word_bits words f.one_word)
    ∙ (sym (take-length (word_bits words)) ∙ (ap (λ k. take k (word_bits words)) whole ∙ f.prefix))

-- What is sent for a set of parameters: opcode 10, the password if wanted, the lock bit, the
-- configuration fields in order, and block number 0.
pub encode_parameters-pulses :
    (p : Params) (password_send : Bool) (password : ℕ) (samples : List Sample)
    → encode_parameters p password_send password samples
      ≡ samples
        ++ start_gap
          ∷ pulses_of (
              (true ∷ false ∷ [])
              ++ ((if password_send then reverse (bit_list 32 password) else [])
                  ++ (p.lock ∷ config_bits p ++ (false ∷ false ∷ false ∷ []))))
unfolding encode_parameters bit_list
encode_parameters-pulses p send password samples =
    encode_block-pulses 0 0 p.lock send password (get_or (config_of p).word 0 0) samples
    ∙ ap
        (λ bs.
          samples
          ++ start_gap
            ∷ pulses_of (
                (true ∷ false ∷ [])
                ++ ((if send then reverse (bit_list 32 password) else [])
                    ++ (p.lock ∷ bs ++ (false ∷ false ∷ false ∷ [])))))
        (bit_list-config_of p)
