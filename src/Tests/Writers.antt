-- ===== src/Tests/Writers.antt =====
-- Concrete inputs for the T5557 encoder.
use rfid_tool.Base.{◌≡◌, true, false, List, [], ◌∷◌, ◌++◌, get_or}
use rfid_tool.Base.{if◌then◌else◌}
use mathlib.Core.List.{reverse}
use rfid_tool.Bits.{bit_list}
use rfid_tool.Interface.{Sample}
use rfid_tool.T5557Encoder.{
  encode_block, encode_parameters, default_params, config_of, Params, fsk2a, rate_40,
}
use rfid_tool.T5557Encoder.Pulses.{start_gap, pulses_of, block_bits, encode_block-pulses}
use rfid_tool.T5557Encoder.Config.{config_bits, bit_list-config_of, encode_parameters-pulses}

abbrev a_sample : List Sample
a_sample = record { length_us = 640; is_high = true } ∷ []

abbrev fsk_params : Params
fsk_params = record default_params {
  modulation = fsk2a;
  data_rate = rate_40;
  max_block = 3;
  lock = true;
}

encode_block-pulses_example :
    encode_block 1 5 true true 0xcafe 0x12345678 a_sample
    ≡ a_sample ++ start_gap ∷ pulses_of (block_bits 1 5 true true 0xcafe 0x12345678)
encode_block-pulses_example = encode_block-pulses 1 5 true true 0xcafe 0x12345678 a_sample

bit_list-config_of_example :
    bit_list 32 (get_or (config_of fsk_params).word 0 0) ≡ config_bits fsk_params
bit_list-config_of_example = bit_list-config_of fsk_params

encode_parameters-pulses_example :
    encode_parameters fsk_params true 0xcafe a_sample
    ≡ a_sample
      ++ start_gap
        ∷ pulses_of (
            (true ∷ false ∷ [])
            ++ ((if true then reverse (bit_list 32 0xcafe) else [])
                ++ (fsk_params.lock ∷ config_bits fsk_params ++ (false ∷ false ∷ false ∷ []))))
encode_parameters-pulses_example = encode_parameters-pulses fsk_params true 0xcafe a_sample
