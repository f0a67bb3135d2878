-- ===== src/T5557Encoder.antt =====
-- rfid-tool/src/rfid/T5557Encoder.cpp and inc/rfid/T5557Encoder.hpp: the pulses that write one
-- block of a T5557 tag. `samples` is a vector passed by reference, so it is returned.
pub mod Pulses
pub mod Config
use rfid_tool.Base.{ℕ, zero, suc, ◌+◌, ◌-◌, ◌*◌, ◌/◌, u8, ◌<<<◌, bit_and, bit_or, if◌then◌else◌}
use rfid_tool.Base.{Bool, true, false, not, ◌==◌, List, [], ◌∷◌, ◌++◌, get_or}
use rfid_tool.Interface.{Sample, carrier_us}
use rfid_tool.DataUtils.{put_bit, put_bits_msb}

pub data Protocol : Type 0 where
  fixed_bit_length : Protocol

pub record TransferData : Type 0 where
  pub protocol : Protocol
  pub samples : List Sample

abbrev pub fixed_data_one : ℕ
fixed_data_one = carrier_us * ((48 + 63) / 2)

abbrev pub fixed_data_zero : ℕ
fixed_data_zero = carrier_us * ((16 + 31) / 2)

abbrev pub fixed_write_gap : ℕ
fixed_write_gap = carrier_us * ((8 + 30) / 2)

abbrev pub fixed_start_gap : ℕ
fixed_start_gap = carrier_us * ((10 + 50) / 2)

unfoldable pub add_pulse : TransferData → Bool → ℕ → TransferData
add_pulse t high len = record t {
  samples = t.samples ++ record { length_us = len; is_high = high } ∷ [];
}

-- The constructor.
unfoldable pub transfer_data : Protocol → List Sample → TransferData
transfer_data fixed_bit_length samples =
    add_pulse (record { protocol = fixed_bit_length; samples = samples }) false fixed_start_gap

unfoldable pub add_bit : TransferData → Bool → TransferData
add_bit t bit = elim t.protocol [
  | fixed_bit_length ↦
      add_pulse (add_pulse t true (if bit then fixed_data_one else fixed_data_zero)) false
        fixed_write_gap
]

-- The loop at round `i` with `left` rounds left.
unfoldable pub add_bits_lsb : ℕ → ℕ → TransferData → ℕ → TransferData
add_bits_lsb zero i t word = t
add_bits_lsb (suc left) i t word =
    add_bits_lsb left (i + 1) (add_bit t (not (bit_and word (1 <<< i) == 0))) word

unfoldable pub add_bits_msb : ℕ → TransferData → ℕ → TransferData
add_bits_msb zero t word = t
add_bits_msb (suc i) t word = add_bits_msb i (add_bit t (not (bit_and word (1 <<< i) == 0))) word

unfoldable pub encode_block : ℕ → ℕ → Bool → Bool → ℕ → ℕ → List Sample → List Sample
encode_block page block lock password_send password word samples =
    let started = transfer_data fixed_bit_length samples in
    let opcode = add_bits_lsb 2 0 started (bit_or 1 (bit_and page 0x01 <<< 1)) in
    let unlocked = if password_send then add_bits_msb 32 opcode password else opcode in
    let locked = add_bit unlocked lock in
    let filled = add_bits_lsb 32 0 locked word in (add_bits_msb 3 filled block).samples

pub data DataRate : Type 0 where
  rate_8 rate_16 rate_32 rate_40 rate_50 rate_64 rate_100 rate_128 : DataRate

pub data Modulation : Type 0 where
  direct psk1 psk2 psk3 fsk1 fsk2 fsk1a fsk2a manchester biphase : Modulation

pub data PskSubcarrier : Type 0 where
  rf_2 rf_4 rf_8 : PskSubcarrier

pub record Params : Type 0 where
  pub lock : Bool
  pub master_key : ℕ
  pub data_rate : DataRate
  pub modulation : Modulation
  pub psk_subcarrier : PskSubcarrier
  pub answer_on_request : Bool
  pub max_block : ℕ
  pub password : Bool
  pub sequence_terminator : Bool
  pub power_on_reset_delay : Bool

abbrev pub default_params : Params
default_params = record {
  lock = false;
  master_key = 0;
  data_rate = rate_16;
  modulation = manchester;
  psk_subcarrier = rf_2;
  answer_on_request = true;
  max_block = 0;
  password = false;
  sequence_terminator = false;
  power_on_reset_delay = false;
}

abbrev pub rate_value : DataRate → ℕ
rate_value rate_8 = 0
rate_value rate_16 = 1
rate_value rate_32 = 2
rate_value rate_40 = 3
rate_value rate_50 = 4
rate_value rate_64 = 5
rate_value rate_100 = 6
rate_value rate_128 = 7

abbrev pub modulation_value : Modulation → ℕ
modulation_value direct = 0
modulation_value psk1 = 1
modulation_value psk2 = 2
modulation_value psk3 = 3
modulation_value fsk1 = 4
modulation_value fsk2 = 5
modulation_value fsk1a = 6
modulation_value fsk2a = 7
modulation_value manchester = 8
modulation_value biphase = 24

abbrev pub psk_value : PskSubcarrier → ℕ
psk_value rf_2 = 0
psk_value rf_4 = 1
psk_value rf_8 = 2

-- `data`, an array of one word, and `bitOffset`.
pub record ConfigWord : Type 0 where
  pub word : List ℕ
  pub bit_offset : ℕ

unfoldable pub put_field : ConfigWord → ℕ → ℕ → ConfigWord
put_field c bits count =
    let (word, n) = put_bits_msb c.word c.bit_offset bits count in
    record { word = word; bit_offset = u8 (c.bit_offset + n) }

unfoldable pub put_flag : ConfigWord → Bool → ConfigWord
put_flag c bit =
    let (word, n) = put_bit c.word c.bit_offset bit in
    record { word = word; bit_offset = u8 (c.bit_offset + n) }

unfoldable pub config_of : Params → ConfigWord
config_of p =
    let key = put_field (record { word = 0 ∷ []; bit_offset = 0 }) p.master_key 4 in
    let unused = put_field key 0 7 in
    let rate = put_field unused (rate_value p.data_rate) 3 in
    let fixed = put_flag rate false in
    let modulated = put_field fixed (modulation_value p.modulation) 5 in
    let psk = put_field modulated (psk_value p.psk_subcarrier) 2 in
    let answer = put_flag psk p.answer_on_request in
    let gap = put_flag answer false in
    let blocks = put_field gap p.max_block 3 in
    let password = put_flag blocks p.password in
    let terminator = put_flag password p.sequence_terminator in
    put_flag (put_field terminator 0 2) p.power_on_reset_delay

unfoldable pub encode_parameters : Params → Bool → ℕ → List Sample → List Sample
encode_parameters p password_send password samples =
    encode_block 0 0 p.lock password_send password (get_or (config_of p).word 0 0) samples
