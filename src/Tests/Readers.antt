-- ===== src/Tests/Readers.antt =====
-- Concrete inputs for the EM4100 encoder and decoder.
use rfid_tool.Base.{ℕ, ◌≡◌, refl, true, List, [], ◌∷◌, arith}
use rfid_tool.DataUtils.Buffer.{word_bits}
use rfid_tool.Em4100Eprom.{generate}
use rfid_tool.Em4100Eprom.Frame.{frame}
use rfid_tool.Em4100Eprom.Generate.{word_bits-generate}
use rfid_tool.Em4100Decoder.{Decoder, Token, new_bit, preamble, reset, run, on_event}
use rfid_tool.Em4100Decoder.RoundTrip.{repeated, decode-generate}
use rfid_tool.Em4100Decoder.Invariant.{IsValid, on_event-IsValid, reset-IsValid}

abbrev a_decoder : Decoder
a_decoder = record {
  state = preamble;
  bit_count = 0;
  nibble = 9;
  nibble_len = 3;
  nibble_count = 7;
  bytes = 1 ∷ 2 ∷ 3 ∷ 4 ∷ 5 ∷ 6 ∷ [];
}

abbrev readme_token : Token
readme_token = record { token = 0x166b24; version_or_customer_id = 0x4b }

abbrev dirty_words : List ℕ
dirty_words = 0xdead ∷ 0xbeef ∷ []

decode-generate_example :
    (run (reset a_decoder) (repeated 2 (word_bits (generate dirty_words 0x4b 0x166b24)))).1
    ≡ readme_token ∷ readme_token ∷ []
decode-generate_example =
    decode-generate 2 0x4b 0x166b24 dirty_words a_decoder (omega arith) (omega arith) refl refl

word_bits-generate_example : word_bits (generate dirty_words 0x4b 0x166b24) ≡ frame 0x4b 0x166b24
word_bits-generate_example =
    word_bits-generate dirty_words 0x4b 0x166b24 refl (omega arith) (omega arith)

on_event-IsValid_example : IsValid (on_event (reset a_decoder) (new_bit true)).0
on_event-IsValid_example = on_event-IsValid (new_bit true) (reset-IsValid a_decoder refl)
