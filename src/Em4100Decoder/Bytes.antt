-- ===== src/Em4100Decoder/Bytes.antt =====
-- The bytes of a frame: their column parity, and the id that they make.
use rfid_tool.Base.{ℕ, ◌+◌, ◌*◌, ◌/◌, ◌%◌, ◌^◌, ◌<◌, bit_and, bit_or, bit_xor, u8, u32, ◌<<<◌}
use rfid_tool.Base.{◌≡◌, refl, ◌==◌, ==_iff, arith}
use rfid_tool.Base.{List, [], ◌∷◌, all_below, all_pairs_sound}
use rfid_tool.Bits.{bit_or-shifted}
use rfid_tool.DataUtils.Nibbles.{xor_all, xor_all-lt}
use rfid_tool.Em4100Eprom.Frame.{id_nibbles}
use rfid_tool.Em4100Decoder.{columns_parity, token_of}

-- An array of six bytes.
abbrev pub six : ℕ → ℕ → ℕ → ℕ → ℕ → ℕ → List ℕ
six a b c d e f = a ∷ b ∷ c ∷ d ∷ e ∷ f ∷ []

abbrev pub byte_nibbles : List ℕ → List ℕ
byte_nibbles [] = []
byte_nibbles (v ∷ vs) = v / 16 ∷ v % 16 ∷ byte_nibbles vs

columns_round :
    (a v : ℕ)
    → a < 16
    → v < 256
    → u8 (bit_xor (bit_xor (a * 16) (bit_and v 0xf0)) (u8 (v <<< 4)))
      ≡ bit_xor (bit_xor a (v / 16)) (v % 16) * 16
unfolding all_below
columns_round a v ha hv = (==_iff _ _).0 (
    all_pairs_sound 16 256
      (λ a v.
        u8 (bit_xor (bit_xor (a * 16) (bit_and v 0xf0)) (u8 (v <<< 4)))
        == bit_xor (bit_xor a (v / 16)) (v % 16) * 16)
      a v refl ha hv)

-- The byte at the end of a frame holds the column parity in its upper half.
pub columns_parity-xor_all :
    (a b c d e f : ℕ)
    → a < 256
    → b < 256
    → c < 256
    → d < 256
    → e < 256
    → columns_parity 5 0 (six a b c d e f) 0
      ≡ xor_all 0 (byte_nibbles (a ∷ b ∷ c ∷ d ∷ e ∷ [])) * 16
unfolding columns_parity
columns_parity-xor_all a b c d e f ha hb hc hd he =
    let s1 = xor_all 0 (byte_nibbles (a ∷ [])) in
    let s2 = xor_all s1 (byte_nibbles (b ∷ [])) in
    let s3 = xor_all s2 (byte_nibbles (c ∷ [])) in
    let s4 = xor_all s3 (byte_nibbles (d ∷ [])) in
    let h0 : 0 < 16 = omega arith in
    let h1 = xor_all-lt 0 (byte_nibbles (a ∷ [])) h0 (omega arith) in
    let h2 = xor_all-lt s1 (byte_nibbles (b ∷ [])) h1 (omega arith) in
    let h3 = xor_all-lt s2 (byte_nibbles (c ∷ [])) h2 (omega arith) in
    let h4 = xor_all-lt s3 (byte_nibbles (d ∷ [])) h3 (omega arith) in
    rw (
      columns_round 0 a h0 ha,
      columns_round s1 b h1 hb,
      columns_round s2 c h2 hc,
      columns_round s3 d h3 hd,
      columns_round s4 e h4 he,
    )

join_byte : (q r : ℕ) → q < 2 ^ 24 → r < 256 → bit_or (u32 (q <<< 8)) r ≡ q * 256 + r
join_byte q r hq hr =
    let fits : u32 (q <<< 8) ≡ q * 2 ^ 8 = omega arith in
    rw fits (omega (arith, bit_or-shifted 8 q r hr))

pub token_of_bytes :
    (a b c d e f : ℕ)
    → b < 256
    → c < 256
    → d < 256
    → e < 256
    → token_of (six a b c d e f)
      ≡ record { token = ((b * 256 + c) * 256 + d) * 256 + e; version_or_customer_id = a }
unfolding token_of
token_of_bytes a b c d e f hb hc hd he = rw (
  join_byte b c (omega arith) hc,
  join_byte (b * 256 + c) d (omega arith) hd,
  join_byte ((b * 256 + c) * 256 + d) e (omega arith) he,
)

-- The bytes of an id as the frame carries them.
abbrev pub id_bytes : ℕ → ℕ → List ℕ
id_bytes c t = c ∷ t / 2 ^ 24 % 256 ∷ t / 2 ^ 16 % 256 ∷ t / 2 ^ 8 % 256 ∷ t % 256 ∷ []

pub id_nibbles-id_bytes :
    (c t : ℕ) → c < 256 → t < 2 ^ 32 → id_nibbles c t ≡ byte_nibbles (id_bytes c t)
id_nibbles-id_bytes c t hc ht = ground arith
