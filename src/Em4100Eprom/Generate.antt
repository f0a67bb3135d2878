-- ===== src/Em4100Eprom/Generate.antt =====
-- `generate` lays out exactly the frame of an id.
use mathlib.Core.Path.{subst}
use rfid_tool.Base.{ℕ, ◌+◌, ◌*◌, ◌%◌, ◌^◌, ◌≤◌, ◌<◌, bit_and, bit_or, bit_xor, arith}
use rfid_tool.Base.{◌>>>◌, ◌<<<◌, ◌≡◌, refl, sym, ap, ap₂, ◌∙◌, Bool, true, xor}
use rfid_tool.Base.{List, [], ◌∷◌, ◌++◌, append_assoc, append-nil, length, length-append, replicate}
use rfid_tool.Base.{all_below, all_below_sound, same_bits, same_bits_sound}
use rfid_tool.Bits.{bits_from}
use rfid_tool.DataUtils.{parity_nibble, reverse_nibble}
use rfid_tool.DataUtils.Buffer.{word_bits}
use rfid_tool.DataUtils.Nibbles.{bit_and-low_nibble, reverse_nibble-bit_xor, bit_xor-lt}
use rfid_tool.DataUtils.Nibbles.{xor_all, xor_all-lt, AllNibbles}
use rfid_tool.Em4100Eprom.{Progress, add_bits, add_nibble, add_token, generate}
use rfid_tool.Em4100Eprom.Frame.{
  row_of, row_bits, rows_bits, columns, column_bits, id_nibbles, nibble_at, token_nibbles, frame,
}
use rfid_tool.Em4100Eprom.Columns.{columns_from-xor_all}
use rfid_tool.Em4100Eprom.Layout.{Starts, HasWritten, add_bits-HasWritten, Starts-all}

-- A nibble reversed, with its parity above it, is sent as its row.
row_written :
    (n : ℕ)
    → n < 16
    → bits_from 0 5 (bit_or (reverse_nibble n) (parity_nibble (reverse_nibble n) <<< 4))
      ≡ row_bits (row_of n)
unfolding all_below same_bits reverse_nibble parity_nibble xor
row_written n h = same_bits_sound _ _ (
    all_below_sound 16
      (λ n.
        same_bits
          (bits_from 0 5 (bit_or (reverse_nibble n) (parity_nibble (reverse_nibble n) <<< 4)))
          (row_bits (row_of n)))
      n refl h)

columns_written : (n : ℕ) → n < 16 → bits_from 0 5 (reverse_nibble n) ≡ column_bits (row_of n)
unfolding all_below same_bits reverse_nibble
columns_written n h = same_bits_sound _ _ (
    all_below_sound 16 (λ n. same_bits (bits_from 0 5 (reverse_nibble n)) (column_bits (row_of n)))
      n refl h)

-- The rows `ns` are written, and the parity so far is that of the nibbles, reversed.
record HasRows (p : Progress) (before : List Bool) (v : ℕ) : Type 0 where
  written : HasWritten p before
  parity : p.parity ≡ reverse_nibble v

parity-add_bits : (p : Progress) (bits n : ℕ) → (add_bits p bits n).parity ≡ p.parity
unfolding add_bits
parity-add_bits p bits n = refl

add_nibble-HasRows :
    {p : Progress} {before : List Bool} {v : ℕ} (n : ℕ)
    → n < 16
    → v < 16
    → length before + 5 ≤ 64
    → HasRows p before v
    → HasRows (add_nibble p n) (before ++ row_bits (row_of n)) (bit_xor v n)
unfolding add_nibble
add_nibble-HasRows {p} {before} {v} n hn hv room r =
    let bits : ℕ = bit_or (reverse_nibble n) (parity_nibble (reverse_nibble n) <<< 4) in
    let w = add_bits-HasWritten before bits 5 room r.written in
    let w' : HasWritten (add_bits p bits 5) (before ++ row_bits (row_of n)) = rw row_written at w in
    record {
      written = record { starts = w'.starts; count = w'.count };
      parity = rw (parity-add_bits, r.parity) (reverse_nibble-bit_xor v n hv hn);
    }

abbrev add_nibbles : Progress → List ℕ → Progress
add_nibbles p [] = p
add_nibbles p (n ∷ ns) = add_nibbles (add_nibble p n) ns

add_nibbles-HasRows :
    {p : Progress} {before : List Bool} {v : ℕ} (ns : List ℕ)
    → AllNibbles ns
    → v < 16
    → length before + 5 * length ns ≤ 64
    → HasRows p before v
    → HasRows (add_nibbles p ns) (before ++ rows_bits ns) (xor_all v ns)
add_nibbles-HasRows [] h hv room r = rw append-nil r
add_nibbles-HasRows {p} {before} {v} (n ∷ ns) h hv room r =
    let row = row_bits (row_of n) in
    let first = add_nibble-HasRows n h.0 hv (omega arith) r in
    rw append_assoc at (
      add_nibbles-HasRows {p = add_nibble p n} {before = before ++ row} {v = bit_xor v n} ns h.1
        (bit_xor-lt v n hv h.0) (omega (arith, length-append {0} before row)) first)

-- The nibbles in the order in which the code takes them.
add_token-eq-add_nibbles :
    (t : ℕ) (p : Progress) → add_token 8 0 t p ≡ add_nibbles p (token_nibbles t)
unfolding add_token
add_token-eq-add_nibbles t p = simp bit_and-low_nibble

abbrev preamble : List ℕ → Progress
preamble result = add_bits (record { result = result; written = 0; parity = 0 }) 0x1ff 9

preamble-HasRows :
    (result : List ℕ) → length result ≡ 2 → HasRows (preamble result) (replicate 9 true) 0
unfolding reverse_nibble
preamble-HasRows result two = record {
  written =
      add_bits-HasWritten [] 0x1ff 9 (omega arith)
        (record { starts = record { two_words = two; prefix = refl }; count = refl });
  parity = parity-add_bits _ 0x1ff 9;
}

-- All ten rows after the preamble are those of the id.
rows_of_generate :
    (result : List ℕ) (c t : ℕ)
    → c < 2 ^ 8
    → add_token 8 0 t (add_nibble (add_nibble (preamble result) (c >>> 4)) (bit_and c 0x0f))
      ≡ add_nibbles (preamble result) (id_nibbles c t)
rows_of_generate result c t hc =
    let high : c >>> 4 ≡ nibble_at 1 c = omega arith in
    let low : c % 16 ≡ nibble_at 0 c = omega arith in
    let two_more = λ (a b : ℕ). add_nibble (add_nibble (preamble result) a) b in
    rw bit_and-low_nibble (
      add_token-eq-add_nibbles t (two_more (c >>> 4) (c % 16))
      ∙ ap₂ (λ a b. add_nibbles (two_more a b) (token_nibbles t)) high low)

pub id_nibbles-AllNibbles : (c t : ℕ) → AllNibbles (id_nibbles c t)
id_nibbles-AllNibbles c t = omega arith

-- The last write: the column parities and the stop bit.
Starts-generate :
    (result : List ℕ) (c t : ℕ)
    → length result ≡ 2
    → c < 2 ^ 8
    → Starts (generate result c t) (frame c t)
unfolding generate frame
Starts-generate result c t two hc =
    let ns = id_nibbles c t in
    let small = id_nibbles-AllNibbles c t in
    let zero_lt : 0 < 16 = omega arith in
    let rows =
      add_nibbles-HasRows {before = replicate 9 true} {v = 0} ns small zero_lt (omega arith)
        (preamble-HasRows result two) in
    let ten = add_nibbles (preamble result) ns in
    let done = add_bits ten ten.parity 5 in
    let filled =
      add_bits-HasWritten (replicate 9 true ++ rows_bits ns) ten.parity 5 (omega arith)
        rows.written in
    let parity_sent : bits_from 0 5 ten.parity ≡ column_bits (columns ns) =
      ap (bits_from 0 5) rows.parity
      ∙ (columns_written (xor_all 0 ns) (xor_all-lt 0 ns zero_lt small)
          ∙ ap column_bits (sym (columns_from-xor_all 0 ns zero_lt small))) in
    subst (λ r. Starts (add_bits r r.parity 5).result (frame c t))
      (sym (rows_of_generate result c t hc))
      (subst (λ b. Starts done.result ((replicate 9 true ++ rows_bits ns) ++ b)) parity_sent
        filled.starts)

-- For an id of 8 and 32 bits `generate` fills two words with the frame of the id, whatever they
-- held before.
pub word_bits-generate :
    (result : List ℕ) (customer_id token : ℕ)
    → length result ≡ 2
    → customer_id < 2 ^ 8
    → token < 2 ^ 32
    → word_bits (generate result customer_id token) ≡ frame customer_id token
word_bits-generate result c t two hc ht =
    Starts-all (frame c t) (unfold frame in refl) (Starts-generate result c t two hc)
