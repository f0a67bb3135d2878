-- ===== src/Log/Dump.antt =====
-- The dump of rfid-tool/src/common/Log.cpp shows every byte of the buffer, in order.
use rfid_tool.Base.{
  ℕ, zero, suc, ◌+◌, ◌-◌, ◌%◌, ◌<◌, ◌≤◌, ◌≡◌, ◌≢◌, refl, ap, ◌∙◌, ◌==◌, ltb, Bool, false,
  Bool-cases, inl, inr, List, [], ◌∷◌, ◌++◌, append_assoc, map, set, length, length-set,
  length-append, sym, arith,
}
use rfid_tool.Log.{
  Printed, offset, hex, blank, ascii, c_string, pad_loop, shown, with_char, dump_loop, dump,
}
use native.Mathlib.Nat.{mod-eq_of_lt, mod-add-mod, mod-lt, mod-eq-sub-mod}

-- The bytes that are printed as numbers, the characters of all rows, and the number of blanks.
unfoldable pub hex_bytes : List Printed → List ℕ
hex_bytes [] = []
hex_bytes (offset n ∷ ps) = hex_bytes ps
hex_bytes (hex b ∷ ps) = b ∷ hex_bytes ps
hex_bytes (blank ∷ ps) = hex_bytes ps
hex_bytes (ascii cs ∷ ps) = hex_bytes ps

unfoldable pub characters : List Printed → List ℕ
characters [] = []
characters (offset n ∷ ps) = characters ps
characters (hex b ∷ ps) = characters ps
characters (blank ∷ ps) = characters ps
characters (ascii cs ∷ ps) = cs ++ characters ps

unfoldable pub blanks : List Printed → ℕ
blanks [] = 0
blanks (offset n ∷ ps) = blanks ps
blanks (hex b ∷ ps) = blanks ps
blanks (blank ∷ ps) = suc (blanks ps)
blanks (ascii cs ∷ ps) = blanks ps

c_string-with_char :
    (buffer : List ℕ) (k c : ℕ)
    → length (c_string buffer) ≡ k
    → suc k < length buffer
    → c ≢ 0
    → c_string (set (set buffer k c) (suc k) 0) ≡ c_string buffer ++ c ∷ []
c_string-with_char [] k c e h n = absurd (omega arith)
c_string-with_char (x ∷ []) k c e h n = absurd (omega arith)
c_string-with_char (x ∷ y ∷ xs) zero c e h n = ground (arith, e)
c_string-with_char (x ∷ y ∷ xs) (suc k) c e h n = ground (arith, e, c_string-with_char (y ∷ xs) k c)

c_string-first :
    (buffer : List ℕ) (c : ℕ)
    → 1 < length buffer
    → c ≢ 0
    → c_string (set (set buffer 0 c) 1 0) ≡ c ∷ []
c_string-first [] c h n = absurd (omega arith)
c_string-first (x ∷ []) c h n = absurd (omega arith)
c_string-first (x ∷ y ∷ xs) c h n = ground (arith, n)

-- The next column, unless a row begins.
next_column : (i n : ℕ) → 0 < n → (suc i % n == 0) ≡ false → suc i % n ≡ suc (i % n)
next_column i n h e =
    let step = mod-add-mod i n 1 in
    let bound : i % n < n = mod-lt i h in
    elim (Bool-cases (ltb (i % n + 1) n)) [
      | inl l ↦
          (let small : (i % n + 1) % n ≡ i % n + 1 = mod-eq_of_lt (ground arith) in ground arith)
      | inr l ↦
          (let full : i % n + 1 ≡ n = ground arith in
            let again : (i % n + 1) % n ≡ (i % n + 1 - n) % n = mod-eq-sub-mod (ground arith) in
            let zero_left : (i % n + 1 - n) % n ≡ i % n + 1 - n = mod-eq_of_lt (omega arith) in
            ground arith)
    ]

hex_bytes-pad_loop :
    (fuel i : ℕ) (ps : List Printed) → hex_bytes (pad_loop fuel i ++ ps) ≡ hex_bytes ps
unfolding hex_bytes pad_loop
hex_bytes-pad_loop zero i ps = refl
hex_bytes-pad_loop (suc fuel) i ps = ground (arith, hex_bytes-pad_loop fuel (suc i) ps)

characters-pad_loop :
    (fuel i : ℕ) (ps : List Printed) → characters (pad_loop fuel i ++ ps) ≡ characters ps
unfolding characters pad_loop
characters-pad_loop zero i ps = refl
characters-pad_loop (suc fuel) i ps = ground (arith, characters-pad_loop fuel (suc i) ps)

blanks-pad_loop :
    (fuel i : ℕ) (ps : List Printed)
    → (16 - i % 16) % 16 ≤ fuel
    → blanks (pad_loop fuel i ++ ps) ≡ (16 - i % 16) % 16 + blanks ps
unfolding blanks pad_loop
blanks-pad_loop zero i ps h = omega arith
blanks-pad_loop (suc fuel) i ps h = ground (arith, blanks-pad_loop fuel (suc i) ps)

module _ (isprint : ℕ → Bool) (line_length : ℕ) where
  hex_bytes-dump_loop :
      (buffer : List ℕ) (i : ℕ) (ascii_buffer : List ℕ)
      → hex_bytes (dump_loop isprint line_length buffer i ascii_buffer) ≡ buffer
  unfolding hex_bytes dump_loop
  hex_bytes-dump_loop [] i a = hex_bytes-pad_loop 16 i (ascii (c_string a) ∷ [])
  hex_bytes-dump_loop (b ∷ bs) i a =
      ground (arith, hex_bytes-dump_loop bs (suc i) (with_char isprint line_length i a b))

  blanks-dump_loop :
      (buffer : List ℕ) (i : ℕ) (ascii_buffer : List ℕ)
      → blanks (dump_loop isprint line_length buffer i ascii_buffer)
        ≡ (16 - (i + length buffer) % 16) % 16
  unfolding blanks dump_loop
  blanks-dump_loop [] i a = ground (arith, blanks-pad_loop 16 i (ascii (c_string a) ∷ []))
  blanks-dump_loop (b ∷ bs) i a =
      ground (arith, blanks-dump_loop bs (suc i) (with_char isprint line_length i a b))

  -- `cur`: the characters of the row so far.
  characters-dump_loop :
      (buffer : List ℕ) (i : ℕ) (a cur : List ℕ)
      → isprint 0 ≡ false
      → 0 < line_length
      → length a ≡ suc line_length
      → c_string a ≡ cur
      → ((suc i % line_length == 0) ≡ false → length cur ≡ suc i % line_length)
      → characters (dump_loop isprint line_length buffer (suc i) a)
        ≡ cur ++ map (shown isprint line_length) buffer
  unfolding dump_loop characters
  characters-dump_loop [] i a cur p n size row column =
      characters-pad_loop 16 (suc i) (ascii (c_string a) ∷ []) ∙ ap (λ r. r ++ []) row
  characters-dump_loop (b ∷ bs) i a cur p n size row column =
      let c = shown isprint line_length b in
      let next = with_char isprint line_length (suc i) a b in
      let visible : c ≢ 0 = ground arith in
      let whole : length next ≡ suc line_length =
        length-set (set a (suc i % line_length) c) (suc i % line_length + 1) 0
        ∙ (length-set a (suc i % line_length) c ∙ size) in
      elim (Bool-cases (suc i % line_length == 0)) [
        | inl e ↦
            (let start : suc i % line_length ≡ 0 = ground arith in
              let first : c_string next ≡ c ∷ [] =
                rw start (c_string-first a c (omega arith) visible) in
              let rest =
                characters-dump_loop bs (suc i) next (c ∷ []) p n whole first
                  (λ q. sym (next_column (suc i) line_length n q ∙ ap suc start)) in
              ground (arith, rest, row))
        | inr e ↦
            (let bound : suc i % line_length < line_length = mod-lt (suc i) n in
              let more : c_string next ≡ cur ++ c ∷ [] =
                ground (arith, c_string-with_char a (suc i % line_length) c, row, column e) in
              let rest = characters-dump_loop bs (suc i) next (cur ++ c ∷ []) p n whole more (λ q.
                omega (
                  arith,
                  length-append {0} cur (c ∷ []),
                  column e,
                  next_column (suc i) line_length n q,
                )) in
              ground (arith, rest, append_assoc cur (c ∷ []) (map (shown isprint line_length) bs)))
      ]

first_row :
    (isprint : ℕ → Bool) (n b : ℕ) (bs a : List ℕ)
    → 0 % n ≡ 0
    → characters (dump_loop isprint n (b ∷ bs) 0 a)
      ≡ characters (dump_loop isprint n bs 1 (with_char isprint n 0 a b))
unfolding dump_loop characters
first_row isprint n b bs a e = ground arith

-- Of a buffer that is not empty, where 0 is not printable, a row has at least one byte and the local
-- array has a character more than a row: the dump prints each byte once as a number and once as a
-- character, a point for those that are not printable, both in the order of the buffer. The last row
-- is filled with three blanks for each byte that the buffer lacks of a multiple of 16, whatever the
-- length of a row is.
pub characters-dump :
    (isprint : ℕ → Bool) (line_length b : ℕ) (bs ascii_buffer : List ℕ)
    → isprint 0 ≡ false
    → 0 < line_length
    → length ascii_buffer ≡ suc line_length
    → (characters (dump isprint line_length ascii_buffer (b ∷ bs))
        ≡ map (shown isprint line_length) (b ∷ bs))
      × (hex_bytes (dump isprint line_length ascii_buffer (b ∷ bs)) ≡ b ∷ bs)
      × (blanks (dump isprint line_length ascii_buffer (b ∷ bs)) ≡ (16 - length (b ∷ bs) % 16) % 16)
unfolding dump
characters-dump isprint n b bs a p pos size =
    let zero_column : 0 % n ≡ 0 = mod-eq_of_lt pos in
    let count : 0 + length (b ∷ bs) ≡ length (b ∷ bs) = omega arith in
    let next = with_char isprint n 0 a b in
    let c = shown isprint n b in
    let visible : c ≢ 0 = ground arith in
    let whole : length next ≡ suc n =
      length-set (set a (0 % n) c) (0 % n + 1) 0 ∙ (length-set a (0 % n) c ∙ size) in
    let first : c_string next ≡ c ∷ [] =
      rw zero_column (c_string-first a c (omega arith) visible) in
    let rest =
      characters-dump_loop isprint n bs 0 next (c ∷ []) p pos whole first
        (λ q. sym (next_column 0 n pos q ∙ ap suc zero_column)) in
    (
      first_row isprint n b bs a zero_column ∙ rest,
      hex_bytes-dump_loop isprint n (b ∷ bs) 0 a,
      blanks-dump_loop isprint n (b ∷ bs) 0 a ∙ ap (λ k. (16 - k % 16) % 16) count,
    )
