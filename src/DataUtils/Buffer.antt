-- ===== src/DataUtils/Buffer.antt =====
-- What writing bits does to the bit string that an array of words holds.
use native.Mathlib.Nat.{zero-add}
use rfid_tool.Base.{
  ℕ, zero, suc, ◌+◌, ◌*◌, ◌/◌, ◌-◌, ◌%◌, ◌^◌, ◌≤◌, ◌<◌, ◌≡◌, refl, ap, ◌∙◌, Bool, true, false,
}
use rfid_tool.Base.{List, [], ◌∷◌, ◌++◌, length, set, ◌<<<◌, sym, arith}
use rfid_tool.Base.{
  length-append, length-set, take, take-set-suc, append_assoc, append-nil, u8, set-append_left,
  set-append_right,
}
use rfid_tool.Bits.{
  test_bit, bits_down, bit_list, length-bit_list, bit_list-bit_or, bit_list-bit_and,
}
use rfid_tool.DataUtils.{write_bit, put_bit, put_bits_msb_loop, put_bits_msb}

-- The bits of an array of 32-bit words, the lowest of the first word first.
unfoldable pub word_bits : List ℕ → List Bool
word_bits [] = []
word_bits (w ∷ ws) = bit_list 32 w ++ word_bits ws

pub length-word_bits : (ws : List ℕ) → length (word_bits ws) ≡ 32 * length ws
unfolding word_bits
length-word_bits [] = refl
length-word_bits (w ∷ ws) = omega (
  arith,
  length-append {0} (bit_list 32 w) (word_bits ws),
  length-bit_list 32 w,
  length-word_bits ws,
)

one_shifted : (pos : ℕ) → 1 <<< pos ≡ 2 ^ pos
one_shifted pos = omega arith

word_bits-write_bit :
    (ws : List ℕ) (idx pos : ℕ) (b : Bool)
    → idx < length ws
    → pos < 32
    → word_bits (write_bit ws idx pos b) ≡ set (word_bits ws) (idx * 32 + pos) b
unfolding word_bits write_bit
word_bits-write_bit [] idx pos b h hp = absurd (omega arith)
word_bits-write_bit (w ∷ ws) zero pos true h hp =
    let in_word : pos < length (bit_list 32 w) = rw (length-bit_list 32 w) hp in
    rw (one_shifted pos, zero-add, bit_list-bit_or 32 pos w hp)
      (sym (set-append_left (bit_list 32 w) (word_bits ws) pos true in_word))
word_bits-write_bit (w ∷ ws) zero pos false h hp =
    let in_word : pos < length (bit_list 32 w) = rw (length-bit_list 32 w) hp in
    rw (zero-add, bit_list-bit_and 32 pos w hp)
      (sym (set-append_left (bit_list 32 w) (word_bits ws) pos false in_word))
word_bits-write_bit (w ∷ ws) (suc idx) pos b h hp =
    let rest = word_bits-write_bit ws idx pos b (omega arith) hp in
    let further : suc idx * 32 + pos ≡ length (bit_list 32 w) + (idx * 32 + pos) =
      omega (arith, length-bit_list 32 w) in
    ap (λ r. bit_list 32 w ++ r) rest
    ∙ (sym (set-append_right (bit_list 32 w) (word_bits ws) (idx * 32 + pos) b)
        ∙ ap (λ k. set (bit_list 32 w ++ word_bits ws) k b) (sym further))

-- One bit is written where the offset says, and no other changes.
pub word_bits-put_bit :
    (ws : List ℕ) (offset : ℕ) (b : Bool)
    → offset < 32 * length ws
    → word_bits (put_bit ws offset b).0 ≡ set (word_bits ws) offset b
unfolding put_bit
word_bits-put_bit ws offset b h =
    word_bits-write_bit ws (offset / 32) (offset % 32) b (omega arith) (omega arith)
    ∙ ap (λ k. set (word_bits ws) k b) (omega arith)

pub length-put_bit :
    (ws : List ℕ) (offset : ℕ) (b : Bool) → length (put_bit ws offset b).0 ≡ length ws
unfolding put_bit write_bit
length-put_bit ws offset b = length-set {0} ws (offset / 32) _

length_snoc : (xs : List Bool) (x : Bool) → length (xs ++ x ∷ []) ≡ suc (length xs)
length_snoc xs x = omega (arith, length-append {0} xs (x ∷ []))

-- Where the words start with `before`, a bit put just after it extends it.
pub prefix-put_bit :
    (ws : List ℕ) (before : List Bool) (b : Bool)
    → length before < 32 * length ws
    → take (length before) (word_bits ws) ≡ before
    → take (length (before ++ b ∷ [])) (word_bits (put_bit ws (length before) b).0)
      ≡ before ++ b ∷ []
prefix-put_bit ws before b h p =
    let inside : length before < length (word_bits ws) = omega (arith, length-word_bits ws) in
    rw (length_snoc before b, word_bits-put_bit ws (length before) b h)
      (take-set-suc (word_bits ws) (length before) b inside ∙ ap (λ r. r ++ b ∷ []) p)

-- The same for the bits of a number, from its bit `i - 1` down.
put_bits_msb_loop-prefix :
    (i : ℕ) (ws : List ℕ) (offset bits count : ℕ) (before : List Bool)
    → length before + i ≡ offset + count
    → i ≤ count
    → offset + count < 256
    → offset + count ≤ 32 * length ws
    → take (length before) (word_bits ws) ≡ before
    → (length (put_bits_msb_loop i ws offset bits count) ≡ length ws)
      × (take (length before + i) (word_bits (put_bits_msb_loop i ws offset bits count))
          ≡ before ++ bits_down i bits)
unfolding put_bits_msb_loop
put_bits_msb_loop-prefix zero ws offset bits count before e hi small room p =
    let none_left : length before + 0 ≡ length before = omega arith in
    (refl, rw (none_left, append-nil) p)
put_bits_msb_loop-prefix (suc i) ws offset bits count before e hi small room p =
    let b = test_bit bits i in
    let at : u8 (offset + count - suc i) ≡ length before = omega arith in
    let rest =
      put_bits_msb_loop-prefix i (put_bit ws (length before) b).0 offset bits count
        (before ++ b ∷ []) (omega (arith, length_snoc before b)) (omega arith) small
        (omega (arith, length-put_bit ws (length before) b))
        (prefix-put_bit ws before b (omega arith) p) in
    let written = put_bits_msb_loop i (put_bit ws (length before) b).0 offset bits count in
    let more : length (before ++ b ∷ []) + i ≡ length before + suc i =
      omega (arith, length_snoc before b) in
    rw at (
      rest.0 ∙ length-put_bit ws (length before) b,
      ap (λ k. take k (word_bits written)) {x = length before + suc i} (sym more)
          ∙ (rest.1 ∙ append_assoc before (b ∷ []) (bits_down i bits)),
    )

-- `putBitsMsb` extends a start of the words by the bits of a number, the highest first.
pub prefix-put_bits_msb :
    (ws : List ℕ) (before : List Bool) (bits count : ℕ)
    → length before + count < 256
    → length before + count ≤ 32 * length ws
    → take (length before) (word_bits ws) ≡ before
    → let (ws', n) = put_bits_msb ws (length before) bits count in
      (length ws' ≡ length ws)
      × (n ≡ count)
      × (take (length before + count) (word_bits ws') ≡ before ++ bits_down count bits)
unfolding put_bits_msb
prefix-put_bits_msb ws before bits count small room p =
    let r =
      put_bits_msb_loop-prefix count ws (length before) bits count before refl (omega arith) small
        room p in
    (r.0, refl, r.1)
