-- ===== src/DataUtils/Nibbles.antt =====
-- The nibble tables of DataUtils against the binary digits of a nibble, checked over all nibbles.
use rfid_tool.Base.{ℕ, ◌/◌, ◌%◌, ◌<◌, bit_and, bit_xor, ◌≡◌, refl, arith}
use rfid_tool.Base.{true, List, [], ◌∷◌, ltb, ◌==◌, ==_iff}
use rfid_tool.Base.{all_below, all_below_sound, all_pairs_sound}
use rfid_tool.Bits.{bit_and-digit, bit_and-zero}
use rfid_tool.DataUtils.{reverse_nibble}

-- `x & 0x0f`
pub bit_and-low_nibble : (a : ℕ) → bit_and a 0x0f ≡ a % 16
bit_and-low_nibble a = ground (
  arith,
  bit_and-digit a 15,
  bit_and-digit (a / 2) 7,
  bit_and-digit (a / 2 / 2) 3,
  bit_and-digit (a / 2 / 2 / 2) 1,
  bit_and-zero (a / 2 / 2 / 2 / 2),
)

ltb-true : (a b : ℕ) → ltb a b ≡ true → a < b
ltb-true a b h = ground arith

pub reverse_nibble-lt : (n : ℕ) → n < 16 → reverse_nibble n < 16
unfolding reverse_nibble all_below
reverse_nibble-lt n h = ltb-true _ _ (all_below_sound 16 (λ n. ltb (reverse_nibble n) 16) n refl h)

pub bit_xor-lt : (v n : ℕ) → v < 16 → n < 16 → bit_xor v n < 16
unfolding all_below
bit_xor-lt v n hv hn =
    ltb-true _ _ (all_pairs_sound 16 16 (λ v n. ltb (bit_xor v n) 16) v n refl hv hn)

-- Reversing goes through `^`.
pub reverse_nibble-bit_xor :
    (v n : ℕ)
    → v < 16
    → n < 16
    → bit_xor (reverse_nibble v) (reverse_nibble n) ≡ reverse_nibble (bit_xor v n)
unfolding reverse_nibble all_below
reverse_nibble-bit_xor v n hv hn = (==_iff _ _).0 (
    all_pairs_sound 16 16
      (λ v n. bit_xor (reverse_nibble v) (reverse_nibble n) == reverse_nibble (bit_xor v n)) v n
      refl hv hn)

-- The exclusive or of all the nibbles of a list, on top of `v`.
abbrev pub xor_all : ℕ → List ℕ → ℕ
xor_all v [] = v
xor_all v (n ∷ ns) = xor_all (bit_xor v n) ns

abbrev pub AllNibbles : List ℕ → Type 0
AllNibbles [] = Unit {0}
AllNibbles (n ∷ ns) = (n < 16) × AllNibbles ns

pub xor_all-lt : (v : ℕ) (ns : List ℕ) → v < 16 → AllNibbles ns → xor_all v ns < 16
xor_all-lt v [] hv h = hv
xor_all-lt v (n ∷ ns) hv h = xor_all-lt (bit_xor v n) ns (bit_xor-lt v n hv h.0) h.1
