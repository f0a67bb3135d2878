-- ===== src/Em4100Decoder/RoundTrip.antt =====
-- A frame is read back as the id that it was made of, whatever came before and after it.
use rfid_tool.Base.{ℕ, zero, suc, ◌+◌, ◌*◌, ◌/◌, ◌%◌, ◌^◌, ◌<◌}
use rfid_tool.Base.{◌≡◌, refl, ap, ◌∙◌, Bool, true, false, ◌==◌, arith}
use rfid_tool.Base.{some, List, [], ◌∷◌, ◌++◌, length, replicate}
use rfid_tool.DataUtils.Nibbles.{xor_all, xor_all-lt}
use rfid_tool.Em4100Eprom.Frame.{row_of, rows_bits, column_bits, id_nibbles, frame}
use rfid_tool.Em4100Eprom.Columns.{columns_from-xor_all}
use rfid_tool.Em4100Eprom.{generate}
use rfid_tool.DataUtils.Buffer.{word_bits}
use rfid_tool.Em4100Eprom.Generate.{word_bits-generate, id_nibbles-AllNibbles}
use rfid_tool.Em4100Decoder.{
  Decoder, preamble, Token, parity_ok, store_nibble, columns_parity, token_of, finish, take_parity,
  on_data, in_preamble, on_bit, on_event, new_bit, run, reset,
}
use rfid_tool.Em4100Decoder.Rows.{in_row, run-four_bits, byte_high, byte_rows, run-byte_rows}
use rfid_tool.Em4100Decoder.Bytes.{
  six, byte_nibbles, columns_parity-xor_all, token_of_bytes, id_bytes, id_nibbles-id_bytes,
}

-- Looking for a preamble, with no bit of it seen; what the other fields hold does not matter.
abbrev pub ready : ℕ → ℕ → ℕ → List ℕ → Decoder
ready nibble len count bytes = record {
  state = preamble;
  bit_count = 0;
  nibble = nibble;
  nibble_len = len;
  nibble_count = count;
  bytes = bytes;
}

run-preamble :
    (x len count : ℕ) (bytes : List ℕ) (rest : List Bool)
    → run (ready x len count bytes) (replicate 9 true ++ rest) ≡ run (in_row 0 x 0 0 bytes) rest
unfolding run on_event on_bit in_preamble
run-preamble x len count bytes rest = refl

run-some :
    (d d' : Decoder) (b : Bool) (rest : List Bool) (t : Token)
    → on_event d (new_bit b) ≡ (d', some t)
    → run d (b ∷ rest) ≡ (let (last, tokens) = run d' rest in (last, t ∷ tokens))
unfolding run
run-some d d' b rest t h = rw h

stop_bit :
    (p a b c d e f : ℕ)
    → p < 16
    → columns_parity 5 0 (six a b c d e (p * 16)) 0 ≡ p * 16
    → on_event (in_row 0 p 4 10 (six a b c d e f)) (new_bit false)
      ≡ (ready p 0 11 (six a b c d e (p * 16)), some (token_of (six a b c d e (p * 16))))
unfolding on_event on_bit on_data take_parity parity_ok store_nibble finish
stop_bit p a b c d e f hp h =
    let agrees : (p * 16 == p * 16) ≡ true = ground arith in rw (byte_high p hp, h, agrees)

-- The last row: the column parities of the nibbles before it, and the stop bit.
run-column_bits :
    (x p : ℕ) (a b c d e f : ℕ) (rest : List Bool)
    → x < 16
    → p < 16
    → columns_parity 5 0 (six a b c d e (p * 16)) 0 ≡ p * 16
    → run (in_row 0 x 0 10 (six a b c d e f)) (column_bits (row_of p) ++ rest) ≡ (
        let (last, tokens) = run (ready p 0 11 (six a b c d e (p * 16))) rest in
        (last, token_of (six a b c d e (p * 16)) ∷ tokens))
run-column_bits x p a b c d e f rest hx hp h =
    run-four_bits 0 x 10 p (six a b c d e f) (false ∷ rest) hx hp
    ∙ run-some _ _ false rest _ (stop_bit p a b c d e f hp h)

abbrev check_nibble : List ℕ → ℕ
check_nibble bytes = xor_all 0 (byte_nibbles bytes)

abbrev frame_of : List ℕ → List Bool
frame_of ns = replicate 9 true ++ (rows_bits ns ++ column_bits (row_of (xor_all 0 ns)))

module _ (a b c d e : ℕ) (ha : a < 256) (hb : b < 256) (hc : c < 256) (hd : d < 256)
    (he : e < 256) where
  abbrev five : List ℕ
  five = a ∷ b ∷ c ∷ d ∷ e ∷ []

  run-frame_of :
      (x len count y0 y1 y2 y3 y4 y5 : ℕ) (rest : List Bool)
      → x < 16
      → run (ready x len count (six y0 y1 y2 y3 y4 y5)) (frame_of (byte_nibbles five) ++ rest) ≡ (
          let p = check_nibble five in
          let (last, tokens) = run (ready p 0 11 (six a b c d e (p * 16))) rest in
          (last, token_of (six a b c d e (p * 16)) ∷ tokens))
  run-frame_of x len count y0 y1 y2 y3 y4 y5 rest hx =
      let p = check_nibble five in
      let hp : p < 16 = xor_all-lt 0 (byte_nibbles five) (omega arith) (omega arith) in
      let r5 = column_bits (row_of p) ++ rest in
      let r4 = byte_rows e ++ r5 in
      let r3 = byte_rows d ++ r4 in
      let r2 = byte_rows c ++ r3 in
      let r1 = byte_rows b ++ r2 in
      run-preamble x len count (six y0 y1 y2 y3 y4 y5) (byte_rows a ++ r1)
      ∙ (run-byte_rows 0 x 0 a (six y0 y1 y2 y3 y4 y5) r1 (omega arith) (omega arith) hx ha
          ∙ (run-byte_rows 0 (a % 16) 1 b (six a y1 y2 y3 y4 y5) r2 (omega arith) (omega arith)
                (omega arith) hb
              ∙ (run-byte_rows 0 (b % 16) 2 c (six a b y2 y3 y4 y5) r3 (omega arith) (omega arith)
                    (omega arith) hc
                  ∙ (run-byte_rows 0 (c % 16) 3 d (six a b c y3 y4 y5) r4 (omega arith)
                        (omega arith) (omega arith) hd
                      ∙ (run-byte_rows 0 (d % 16) 4 e (six a b c d y4 y5) r5 (omega arith)
                            (omega arith) (omega arith) he
                          ∙ run-column_bits (e % 16) p a b c d e y5 rest (omega arith) hp
                              (columns_parity-xor_all a b c d e (p * 16) ha hb hc hd he))))))

-- What the decoder is left in: ready for the next frame.
abbrev pub after_frame : ℕ → ℕ → Decoder
after_frame c t =
    let p = check_nibble (id_bytes c t) in
    ready p 0 11 (six c (t / 2 ^ 24 % 256) (t / 2 ^ 16 % 256) (t / 2 ^ 8 % 256) (t % 256) (p * 16))

frame-eq-frame_of :
    (c t : ℕ) → c < 256 → t < 2 ^ 32 → frame c t ≡ frame_of (byte_nibbles (id_bytes c t))
unfolding frame
frame-eq-frame_of c t hc ht =
    let ns = id_nibbles c t in
    ap (λ r. replicate 9 true ++ (rows_bits ns ++ column_bits r))
      (columns_from-xor_all 0 ns (omega arith) (id_nibbles-AllNibbles c t))
    ∙ ap frame_of (id_nibbles-id_bytes c t hc ht)

six_cases : (bytes : List ℕ) → length bytes ≡ 6 → (a b c d e f : ℕ) × (bytes ≡ six a b c d e f)
six_cases (a ∷ b ∷ c ∷ d ∷ e ∷ f ∷ []) h = (a, b, c, d, e, f, refl)
six_cases _ h = absurd (omega arith)

-- From any ready state, a frame followed by anything is read as its id.
pub run-frame :
    (c t x len count : ℕ) (bytes : List ℕ) (rest : List Bool)
    → c < 2 ^ 8
    → t < 2 ^ 32
    → x < 16
    → length bytes ≡ 6
    → run (ready x len count bytes) (frame c t ++ rest) ≡ (
        let (last, tokens) = run (after_frame c t) rest in
        (last, record { token = t; version_or_customer_id = c } ∷ tokens))
run-frame c t x len count bytes rest hc ht hx hb =
    let (y0, y1, y2, y3, y4, y5, e) = six_cases bytes hb in
    let d3 = t / 2 ^ 24 % 256 in
    let d2 = t / 2 ^ 16 % 256 in
    let d1 = t / 2 ^ 8 % 256 in
    let d0 = t % 256 in
    let whole : ((d3 * 256 + d2) * 256 + d1) * 256 + d0 ≡ t = omega arith in
    let id =
      token_of_bytes c d3 d2 d1 d0 (check_nibble (id_bytes c t) * 16) (omega arith) (omega arith)
        (omega arith) (omega arith) in
    let done = run (after_frame c t) rest in
    rw (e, frame-eq-frame_of c t hc ht)
      (run-frame_of c d3 d2 d1 d0 hc (omega arith) (omega arith) (omega arith) (omega arith) x len
          count y0 y1 y2 y3 y4 y5 rest hx
        ∙ ap (λ k. (done.0, k ∷ done.1))
            (id ∙ ap (λ n. record { token = n; version_or_customer_id = c }) whole))

-- A stream that repeats `bits` `n` times.
abbrev pub repeated : ℕ → List Bool → List Bool
repeated zero bits = []
repeated (suc n) bits = bits ++ repeated n bits

run-repeated :
    (n c t x len count : ℕ) (bytes : List ℕ)
    → c < 2 ^ 8
    → t < 2 ^ 32
    → x < 16
    → length bytes ≡ 6
    → (run (ready x len count bytes) (repeated n (frame c t))).1
      ≡ replicate n (record { token = t; version_or_customer_id = c })
run-repeated zero c t x len count bytes hc ht hx hb = unfold run in refl
run-repeated (suc n) c t x len count bytes hc ht hx hb =
    let p = check_nibble (id_bytes c t) in
    let hp : p < 16 = xor_all-lt 0 (byte_nibbles (id_bytes c t)) (omega arith) (omega arith) in
    ap (λ r. r.1) (run-frame c t x len count bytes (repeated n (frame c t)) hc ht hx hb)
    ∙ ap (λ ts. record { token = t; version_or_customer_id = c } ∷ ts)
        (run-repeated n c t p 0 11
          (six c (t / 2 ^ 24 % 256) (t / 2 ^ 16 % 256) (t / 2 ^ 8 % 256) (t % 256) (p * 16)) hc ht
          hp refl)

-- A tag programmed with the words of `generate` sends their bits over and over, the lowest bit
-- of the first word first. From its reset the decoder reports the id once for each repetition,
-- and nothing else, for every customer id of 8 bits and token of 32.
pub decode-generate :
    (n customer_id token : ℕ) (result : List ℕ) (d : Decoder)
    → customer_id < 2 ^ 8
    → token < 2 ^ 32
    → length result ≡ 2
    → length d.bytes ≡ 6
    → (run (reset d) (repeated n (word_bits (generate result customer_id token)))).1
      ≡ replicate n (record { token = token; version_or_customer_id = customer_id })
unfolding reset
decode-generate n c t result d hc ht two six_bytes =
    rw (word_bits-generate result c t two hc ht)
      (run-repeated n c t 0 d.nibble_len d.nibble_count d.bytes hc ht (omega arith) six_bytes)
