-- ===== src/Em4100Eprom/Frame.antt =====
-- The EM4100 frame as bits, in the order in which a tag sends them, described by its rows and
-- columns and independently of the code.
use rfid_tool.Base.{ℕ, ◌/◌, ◌%◌, ◌^◌, Bool, true, false, xor, ◌==◌}
use rfid_tool.Base.{List, [], ◌∷◌, ◌++◌, replicate}

-- The four bits of a nibble, the highest first.
pub record Row : Type 0 where
  pub b3 : Bool
  pub b2 : Bool
  pub b1 : Bool
  pub b0 : Bool

abbrev pub row_of : ℕ → Row
row_of n = record { b3 = n / 8 % 2 == 1; b2 = n / 4 % 2 == 1; b1 = n / 2 % 2 == 1; b0 = n % 2 == 1 }

-- Even parity over the row.
abbrev pub row_parity : Row → Bool
row_parity r = xor (xor r.b3 r.b2) (xor r.b1 r.b0)

abbrev pub row_bits : Row → List Bool
row_bits r = r.b3 ∷ r.b2 ∷ r.b1 ∷ r.b0 ∷ row_parity r ∷ []

-- Two rows added column by column.
abbrev pub add_rows : Row → Row → Row
add_rows r s = record {
  b3 = xor r.b3 s.b3;
  b2 = xor r.b2 s.b2;
  b1 = xor r.b1 s.b1;
  b0 = xor r.b0 s.b0;
}

abbrev pub columns_from : Row → List ℕ → Row
columns_from r [] = r
columns_from r (n ∷ ns) = columns_from (add_rows r (row_of n)) ns

abbrev pub columns : List ℕ → Row
columns ns = columns_from (row_of 0) ns

abbrev pub rows_bits : List ℕ → List Bool
rows_bits [] = []
rows_bits (n ∷ ns) = row_bits (row_of n) ++ rows_bits ns

-- Four column parity bits and the stop bit, which is 0.
abbrev pub column_bits : Row → List Bool
column_bits r = r.b3 ∷ r.b2 ∷ r.b1 ∷ r.b0 ∷ false ∷ []

-- Nibble `k` of a number, nibble 0 being the lowest.
abbrev pub nibble_at : ℕ → ℕ → ℕ
nibble_at k n = n / 16 ^ k % 16

abbrev pub token_nibbles : ℕ → List ℕ
token_nibbles token =
    nibble_at 7 token
    ∷ nibble_at 6 token
    ∷ nibble_at 5 token
    ∷ nibble_at 4 token
    ∷ nibble_at 3 token
    ∷ nibble_at 2 token
    ∷ nibble_at 1 token
    ∷ nibble_at 0 token
    ∷ []

-- The ten nibbles of an id, the highest first: two of the customer, eight of the token.
abbrev pub id_nibbles : ℕ → ℕ → List ℕ
id_nibbles customer_id token =
    nibble_at 1 customer_id ∷ nibble_at 0 customer_id ∷ token_nibbles token

-- Nine ones, ten rows of four bits with their parity, and the column parities with the stop bit.
unfoldable pub frame : ℕ → ℕ → List Bool
frame customer_id token =
    let ns = id_nibbles customer_id token in
    replicate 9 true ++ (rows_bits ns ++ column_bits (columns ns))
