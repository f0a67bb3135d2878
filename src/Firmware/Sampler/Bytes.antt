-- ===== src/Firmware/Sampler/Bytes.antt =====
-- A byte array as the string of its bits, and writing one of them.
use rfid_tool.Base.{ℕ, zero, suc, ◌+◌, ◌-◌, ◌*◌, ◌^◌, ◌<◌, ◌≡◌, refl, sym, ap, ◌∙◌, arith}
use rfid_tool.Base.{Bool, true, false, u8, ◌<<<◌}
use rfid_tool.Base.{
  List, [], ◌∷◌, ◌++◌, bit_and, bit_or, length, get_or, set, length-append, set-append_left,
  set-append_right,
}
use rfid_tool.Bits.{bit_list, length-bit_list, bit_list-bit_or, bit_list-bit_and}

-- The bits of a byte array, the lowest of the first byte first.
unfoldable pub byte_bits : List ℕ → List Bool
byte_bits [] = []
byte_bits (b ∷ bs) = bit_list 8 b ++ byte_bits bs

pub length-byte_bits : (bs : List ℕ) → length (byte_bits bs) ≡ 8 * length bs
unfolding byte_bits
length-byte_bits [] = refl
length-byte_bits (b ∷ bs) = omega (
  arith,
  length-append {0} (bit_list 8 b) (byte_bits bs),
  length-bit_list 8 b,
  length-byte_bits bs,
)

bit_list-u8 : (w : ℕ) → bit_list 8 (u8 w) ≡ bit_list 8 w
unfolding bit_list
bit_list-u8 w = ground arith

-- One bit of a byte, as the sampler writes it.
abbrev pub with_bit : ℕ → ℕ → Bool → ℕ
with_bit byte pos true = u8 (bit_or byte (1 <<< pos))
with_bit byte pos false = bit_and byte (255 - (1 <<< pos))

one_shifted : (pos : ℕ) → 1 <<< pos ≡ 2 ^ pos
one_shifted pos = omega arith

bit_list-with_bit :
    (byte pos : ℕ) (b : Bool)
    → pos < 8
    → bit_list 8 (with_bit byte pos b) ≡ set (bit_list 8 byte) pos b
bit_list-with_bit byte pos true h =
    bit_list-u8 (bit_or byte (1 <<< pos))
    ∙ (ap (λ m. bit_list 8 (bit_or byte m)) (one_shifted pos) ∙ bit_list-bit_or 8 pos byte h)
bit_list-with_bit byte pos false h =
    ap (λ m. bit_list 8 (bit_and byte (255 - m))) (one_shifted pos) ∙ bit_list-bit_and 8 pos byte h

pub byte_bits-with_bit :
    (bs : List ℕ) (idx pos : ℕ) (b : Bool)
    → idx < length bs
    → pos < 8
    → byte_bits (set bs idx (with_bit (get_or bs idx 0) pos b))
      ≡ set (byte_bits bs) (idx * 8 + pos) b
unfolding byte_bits
byte_bits-with_bit [] idx pos b h hp = absurd (omega arith)
byte_bits-with_bit (w ∷ bs) zero pos b h hp =
    ap (λ r. r ++ byte_bits bs) (bit_list-with_bit w pos b hp)
    ∙ (sym
          (set-append_left (bit_list 8 w) (byte_bits bs) pos b (omega (arith, length-bit_list 8 w)))
        ∙ ap (λ k. set (bit_list 8 w ++ byte_bits bs) k b) (omega arith))
byte_bits-with_bit (w ∷ bs) (suc idx) pos b h hp =
    ap (λ r. bit_list 8 w ++ r) (byte_bits-with_bit bs idx pos b (omega arith) hp)
    ∙ (sym (set-append_right (bit_list 8 w) (byte_bits bs) (idx * 8 + pos) b)
        ∙ ap (λ k. set (bit_list 8 w ++ byte_bits bs) k b) (omega (arith, length-bit_list 8 w)))
