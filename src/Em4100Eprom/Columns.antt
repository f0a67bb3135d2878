-- ===== src/Em4100Eprom/Columns.antt =====
-- Rows of a frame as nibbles: column parity is the exclusive or of the nibbles.
use rfid_tool.Base.{ℕ, ◌<◌, bit_xor, ◌≡◌, refl, ap, ◌∙◌, arith}
use rfid_tool.Base.{
  Bool, xor, List, [], ◌∷◌, all_below, all_pairs_sound, same_bits, same_bits_sound,
}
use rfid_tool.DataUtils.Nibbles.{xor_all, AllNibbles, bit_xor-lt}
use rfid_tool.Em4100Eprom.Frame.{Row, row_of, add_rows, columns_from}

abbrev pub four_bits : Row → List Bool
four_bits r = r.b3 ∷ r.b2 ∷ r.b1 ∷ r.b0 ∷ []

Row-ext : (r s : Row) → four_bits r ≡ four_bits s → r ≡ s
Row-ext r s h = ground arith

row_of-bit_xor : (v n : ℕ) → v < 16 → n < 16 → add_rows (row_of v) (row_of n) ≡ row_of (bit_xor v n)
unfolding all_below same_bits xor
row_of-bit_xor v n hv hn = Row-ext _ _ (
    same_bits_sound _ _ (
      all_pairs_sound 16 16
        (λ v n.
          same_bits (four_bits (add_rows (row_of v) (row_of n))) (four_bits (row_of (bit_xor v n))))
        v n refl hv hn))

pub columns_from-xor_all :
    (v : ℕ) (ns : List ℕ)
    → v < 16
    → AllNibbles ns
    → columns_from (row_of v) ns ≡ row_of (xor_all v ns)
columns_from-xor_all v [] hv h = refl
columns_from-xor_all v (n ∷ ns) hv h =
    ap (λ r. columns_from r ns) (row_of-bit_xor v n hv h.0)
    ∙ columns_from-xor_all (bit_xor v n) ns (bit_xor-lt v n hv h.0) h.1
