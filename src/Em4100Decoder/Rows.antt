-- ===== src/Em4100Decoder/Rows.antt =====
-- The decoder over one row of a frame: four bits become the nibble, the parity bit stores it.
use rfid_tool.Base.{ℕ, ◌+◌, ◌-◌, ◌*◌, ◌/◌, ◌%◌, ◌<◌, bit_and, bit_or, u8, ◌<<<◌, ◌>>>◌, arith}
use rfid_tool.Base.{◌≡◌, refl, ap, ap₂, ◌∙◌, Bool, true, false, xor, ◌==◌, if◌then◌else◌, ==_iff}
use rfid_tool.Base.{
  none, List, ◌∷◌, ◌++◌, set, length, get_or-set_self, set-set, all_below, all_below_sound,
  all_pairs_sound,
}
use rfid_tool.Bits.{bit_and-one}
use rfid_tool.DataUtils.{parity_nibble}
use rfid_tool.Em4100Eprom.Frame.{Row, row_of, row_bits, row_parity}
use rfid_tool.Em4100Eprom.Columns.{four_bits}
use rfid_tool.Em4100Decoder.{
  Decoder, in_data, from_bool, collect_bit, parity_ok, store_nibble, take_parity, on_data, on_bit,
  on_event, new_bit, run,
}

-- Inside the data of a frame.
abbrev pub in_row : ℕ → ℕ → ℕ → ℕ → List ℕ → Decoder
in_row bit_count nibble len count bytes = record {
  state = in_data;
  bit_count = bit_count;
  nibble = nibble;
  nibble_len = len;
  nibble_count = count;
  bytes = bytes;
}

-- What `collect_bit` makes of the nibble.
abbrev with_bit : ℕ → ℕ → Bool → ℕ
with_bit nibble len b =
    if b then u8 (bit_or nibble (1 <<< 3 - len)) else bit_and nibble (255 - (1 <<< 3 - len))

abbrev with_bits : ℕ → Row → ℕ
with_bits x r = with_bit (with_bit (with_bit (with_bit x 0 r.b3) 1 r.b2) 2 r.b1) 3 r.b0

-- Four bits replace whatever nibble was there.
with_bits_lem : (x n : ℕ) → x < 16 → n < 16 → with_bits x (row_of n) ≡ n
unfolding all_below
with_bits_lem x n hx hn =
    (==_iff _ _).0 (all_pairs_sound 16 16 (λ x n. with_bits x (row_of n) == n) x n refl hx hn)

row_parity_lem : (n : ℕ) → n < 16 → (parity_nibble n == from_bool (row_parity (row_of n))) ≡ true
unfolding all_below parity_nibble xor
row_parity_lem n h =
    all_below_sound 16 (λ n. parity_nibble n == from_bool (row_parity (row_of n))) n refl h

-- A step that reports nothing.
run-none :
    (d d' : Decoder) (b : Bool) (rest : List Bool)
    → on_event d (new_bit b) ≡ (d', none)
    → run d (b ∷ rest) ≡ run d' rest
unfolding run
run-none d d' b rest h = rw h

pub run-four_bits :
    (bc x count n : ℕ) (bytes : List ℕ) (rest : List Bool)
    → x < 16
    → n < 16
    → run (in_row bc x 0 count bytes) (four_bits (row_of n) ++ rest)
      ≡ run (in_row bc n 4 count bytes) rest
unfolding run on_event on_bit on_data collect_bit
run-four_bits bc x count n bytes rest hx hn =
    ap (λ v. run (in_row bc v 4 count bytes) rest) (with_bits_lem x n hx hn)

-- The parity of the row is accepted before the last row, and the nibble is stored.
row_stored :
    (bc count n : ℕ) (bytes : List ℕ)
    → count < 10
    → n < 16
    → on_event (in_row bc n 4 count bytes) (new_bit (row_parity (row_of n)))
      ≡ (store_nibble (in_row bc n 4 count bytes), none)
unfolding on_event on_bit on_data take_parity parity_ok
row_stored bc count n bytes hc hn =
    let not_ten : (count == 10) ≡ false = ground arith in
    let not_done : ((store_nibble (in_row bc n 4 count bytes)).nibble_count == 11) ≡ false =
      unfold store_nibble in ground arith in
    rw (not_ten, row_parity_lem n hn, not_done)

pub run-row_bits :
    (bc x count n : ℕ) (bytes : List ℕ) (rest : List Bool)
    → x < 16
    → n < 16
    → count < 10
    → run (in_row bc x 0 count bytes) (row_bits (row_of n) ++ rest)
      ≡ run (store_nibble (in_row bc n 4 count bytes)) rest
run-row_bits bc x count n bytes rest hx hn hc =
    run-four_bits bc x count n bytes (row_parity (row_of n) ∷ rest) hx hn
    ∙ run-none _ _ (row_parity (row_of n)) rest (row_stored bc count n bytes hc hn)

-- Two rows make a byte.
pub byte_high : (n : ℕ) → n < 16 → u8 (bit_or 0 (n <<< 4)) ≡ n * 16
unfolding all_below
byte_high n h =
    (==_iff _ _).0 (all_below_sound 16 (λ n. u8 (bit_or 0 (n <<< 4)) == n * 16) n refl h)

byte_low : (h l : ℕ) → h < 16 → l < 16 → u8 (bit_or (h * 16) (l <<< 0)) ≡ h * 16 + l
unfolding all_below
byte_low h l hh hl =
    (==_iff _ _).0
      (all_pairs_sound 16 16 (λ h l. u8 (bit_or (h * 16) (l <<< 0)) == h * 16 + l) h l refl hh hl)

store_high :
    (bc j h : ℕ) (bytes : List ℕ)
    → j < length bytes
    → h < 16
    → store_nibble (in_row bc h 4 (2 * j) bytes)
      ≡ in_row bc h 0 (u8 (2 * j + 1)) (set bytes j (h * 16))
unfolding store_nibble
store_high bc j h bytes hj hh =
    let index : 2 * j >>> 1 ≡ j = omega arith in
    let even : bit_and (2 * j) 1 ≡ 0 = omega (arith, bit_and-one (2 * j)) in
    rw (index, even, get_or-set_self bytes j 0 0 hj, set-set, byte_high h hh)

store_low :
    (bc j h l : ℕ) (bytes : List ℕ)
    → j < length bytes
    → h < 16
    → l < 16
    → store_nibble (in_row bc l 4 (2 * j + 1) (set bytes j (h * 16)))
      ≡ in_row bc l 0 (u8 (2 * j + 1 + 1)) (set bytes j (h * 16 + l))
unfolding store_nibble
store_low bc j h l bytes hj hh hl =
    let index : 2 * j + 1 >>> 1 ≡ j = omega arith in
    let odd : bit_and (2 * j + 1) 1 ≡ 1 = omega (arith, bit_and-one (2 * j + 1)) in
    rw (index, odd, get_or-set_self bytes j (h * 16) 0 hj, set-set, byte_low h l hh hl)

abbrev pub byte_rows : ℕ → List Bool
byte_rows v = row_bits (row_of (v / 16)) ++ row_bits (row_of (v % 16))

-- The two rows of a byte store it.
pub run-byte_rows :
    (bc x j v : ℕ) (bytes : List ℕ) (rest : List Bool)
    → j < 5
    → j < length bytes
    → x < 16
    → v < 256
    → run (in_row bc x 0 (2 * j) bytes) (byte_rows v ++ rest)
      ≡ run (in_row bc (v % 16) 0 (2 * j + 2) (set bytes j v)) rest
run-byte_rows bc x j v bytes rest hj hb hx hv =
    let high : v / 16 < 16 = omega arith in
    let low : v % 16 < 16 = omega arith in
    let odd_count : u8 (2 * j + 1) ≡ 2 * j + 1 = omega arith in
    let next_count : u8 (2 * j + 1 + 1) ≡ 2 * j + 2 = omega arith in
    let whole : v / 16 * 16 + v % 16 ≡ v = omega arith in
    run-row_bits bc x (2 * j) (v / 16) bytes (row_bits (row_of (v % 16)) ++ rest) hx high
      (omega arith)
    ∙ (ap (λ d. run d (row_bits (row_of (v % 16)) ++ rest))
          (store_high bc j (v / 16) bytes hb high
            ∙ ap (λ k. in_row bc (v / 16) 0 k (set bytes j (v / 16 * 16))) odd_count)
        ∙ (run-row_bits bc (v / 16) (2 * j + 1) (v % 16) (set bytes j (v / 16 * 16)) rest high low
              (omega arith)
            ∙ ap (λ d. run d rest)
                (store_low bc j (v / 16) (v % 16) bytes hb high low
                  ∙ ap₂ (λ k w. in_row bc (v % 16) 0 k (set bytes j w)) next_count whole)))
