-- ===== src/Tests/Chains.antt =====
-- A tag that is read from the first sample on.
use rfid_tool.Base.{
  ℕ, ◌≡◌, ◌⊎◌, ◌*◌, ltb, refl, ap₂, inl, inr, true, false, Bool, if◌then◌else◌, arith,
}
use rfid_tool.Base.{List, [], ◌∷◌, ◌++◌, map, replicate}
use rfid_tool.DataUtils.Buffer.{word_bits}
use rfid_tool.Interface.{Sample}
use rfid_tool.CarrierDecoder.{check_pulses, new_pulse}
use rfid_tool.CarrierDecoder.Search.{tuned}
use rfid_tool.CarrierDecoder.Sync.{IsShort, IsLong, InRange, pulse_of_sample}
use rfid_tool.LineCode.{Pulse, pulses, pulse_event, manchester_levels, biphase_levels}
use rfid_tool.ManchesterDecoder
use rfid_tool.BiphaseDecoder
use rfid_tool.Em4100Decoder
use rfid_tool.Em4100Decoder.{Decoder, Token, preamble}
use rfid_tool.Em4100Decoder.RoundTrip.{repeated}
use rfid_tool.Em4100Eprom.{generate}
use rfid_tool.Reader.{manchester, biphase, Reader, start, read_samples}
use rfid_tool.Reader.Tokens.{tokens_of, tokens_of-read_samples}
use rfid_tool.Reader.Tags.{InRange-append, tokens_of-manchester_tag, tokens_of-biphase_tag}

abbrev a_decoder : Decoder
a_decoder = record {
  state = preamble;
  bit_count = 0;
  nibble = 9;
  nibble_len = 3;
  nibble_count = 7;
  bytes = 1 ∷ 2 ∷ 3 ∷ 4 ∷ 5 ∷ 6 ∷ [];
}

abbrev pub a_chain : Reader
a_chain = record {
  carrier = tuned 64 3 4 5 6;
  manchester_decoder = record { ff_out = true; timer_running = true };
  biphase_decoder = record { last_short = true };
  manchester_tokens = a_decoder;
  biphase_tokens = a_decoder;
}

-- Samples as a tag at the divider 16 sends them.
abbrev sample_of : Pulse → Sample
sample_of p = record { length_us = if p.is_long then 128 else 64; is_high = p.is_high }

abbrev sent_as : List Pulse → List Sample
sent_as ps = map sample_of ps

sent_as-InRange : (ps : List Pulse) → InRange 16 (sent_as ps)
sent_as-InRange [] = tt
sent_as-InRange (p ∷ ps) = (in_range p.is_long, sent_as-InRange ps)
  where
    in_range :
        (long : Bool)
        → IsShort 16 (record { length_us = if long then 128 else 64; is_high = p.is_high })
          ⊎ IsLong 16 (record { length_us = if long then 128 else 64; is_high = p.is_high })
    in_range true = inr (omega arith, omega arith)
    in_range false = inl (omega arith, omega arith)

pulse_of_sample-sent_as :
    (ps : List Pulse) → map (pulse_of_sample 16) (sent_as ps) ≡ map pulse_event ps
pulse_of_sample-sent_as [] = refl
pulse_of_sample-sent_as (p ∷ ps) =
    ap₂ (λ x xs. new_pulse p.is_high x ∷ xs) (is_long p.is_long) (pulse_of_sample-sent_as ps)
  where
    is_long : (long : Bool) → ltb (6 * 16) (if long then 128 else 64) ≡ long
    is_long true = refl
    is_long false = refl

abbrev lead_pulses : List Pulse
lead_pulses =
    replicate 5 (record { is_high = true; is_long = false })
    ++ replicate 5 (record { is_high = false; is_long = true })

abbrev dirty_words : List ℕ
dirty_words = 0xdead ∷ 0xbeef ∷ []

abbrev tag_bits : List Bool
tag_bits = repeated 1 (word_bits (generate dirty_words 0x4b 0x166b24))

abbrev manchester_pulses : List Pulse
manchester_pulses = pulses (true ∷ manchester_levels tag_bits)

abbrev biphase_pulses : List Pulse
biphase_pulses = pulses (biphase_levels false tag_bits)

tokens_of-manchester_tag_example :
    tokens_of manchester
      (read_samples (start a_chain) (sent_as lead_pulses ++ sent_as manchester_pulses)).1
    ≡ replicate 1 (record { token = 0x166b24; version_or_customer_id = 0x4b })
tokens_of-manchester_tag_example =
    tokens_of-manchester_tag 1 0x4b 0x166b24 dirty_words a_chain (sent_as lead_pulses)
      (sent_as manchester_pulses) (omega arith) (omega arith) refl refl
      (InRange-append 16 (sent_as lead_pulses) (sent_as manchester_pulses)
        (sent_as-InRange lead_pulses) (sent_as-InRange manchester_pulses))
      refl (pulse_of_sample-sent_as manchester_pulses)

tokens_of-biphase_tag_example :
    tokens_of biphase
      (read_samples (start a_chain) (sent_as lead_pulses ++ sent_as biphase_pulses)).1
    ≡ replicate 1 (record { token = 0x166b24; version_or_customer_id = 0x4b })
tokens_of-biphase_tag_example =
    tokens_of-biphase_tag 1 0x4b 0x166b24 dirty_words a_chain false (sent_as lead_pulses)
      (sent_as biphase_pulses) (omega arith) (omega arith) refl refl
      (InRange-append 16 (sent_as lead_pulses) (sent_as biphase_pulses)
        (sent_as-InRange lead_pulses) (sent_as-InRange biphase_pulses))
      refl (pulse_of_sample-sent_as biphase_pulses)

tokens_of-read_samples_example :
    (tokens_of manchester (read_samples a_chain (sent_as lead_pulses)).1
      ≡ (Em4100Decoder.run a_chain.manchester_tokens
          (ManchesterDecoder.run a_chain.manchester_decoder
            (check_pulses a_chain.carrier (sent_as lead_pulses)).1).1).1)
    × (tokens_of biphase (read_samples a_chain (sent_as lead_pulses)).1
        ≡ (Em4100Decoder.run a_chain.biphase_tokens
            (BiphaseDecoder.run a_chain.biphase_decoder
              (check_pulses a_chain.carrier (sent_as lead_pulses)).1).1).1)
tokens_of-read_samples_example = tokens_of-read_samples a_chain (sent_as lead_pulses)
