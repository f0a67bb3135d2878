-- ===== src/Em4100Eprom/Layout.antt =====
-- What the calls of `_bufferAddBits` leave in the two words: each appends its bits to those
-- written before.
use rfid_tool.Base.{ℕ, zero, suc, ◌+◌, ◌*◌, ◌/◌, ◌≤◌, ◌<◌, bit_and, ◌<<<◌, u8}
use rfid_tool.Base.{◌≡◌, refl, sym, ap, ap₂, ◌∙◌, Bool, not, ◌==◌, List, [], ◌∷◌, ◌++◌, arith}
use rfid_tool.Base.{
  length, take, set, length-set, take-set-suc, length-append, take-length, append_assoc, append-nil,
}
use rfid_tool.Bits.{bits_from, length-bits_from}
use rfid_tool.DataUtils.{write_bit, put_bit}
use rfid_tool.DataUtils.Buffer.{word_bits, length-word_bits, word_bits-put_bit}
use rfid_tool.Em4100Eprom.{buffer_add_bit, add_bits_loop, buffer_add_bits, Progress, add_bits}

-- The two words hold `bits` at their start.
pub record Starts (buffer : List ℕ) (bits : List Bool) : Type 0 where
  pub two_words : length buffer ≡ 2
  pub prefix : take (length bits) (word_bits buffer) ≡ bits

length-buffer_add_bit :
    (buffer : List ℕ) (k : ℕ) (b : Bool) → length (buffer_add_bit buffer k b).0 ≡ length buffer
unfolding buffer_add_bit write_bit
length-buffer_add_bit buffer k b = length-set {0} buffer (k / 32) _

word_bits-buffer_add_bit :
    (buffer : List ℕ) (k : ℕ) (b : Bool)
    → k < 32 * length buffer
    → word_bits (buffer_add_bit buffer k b).0 ≡ set (word_bits buffer) k b
unfolding buffer_add_bit put_bit
word_bits-buffer_add_bit = word_bits-put_bit

count-buffer_add_bit : (buffer : List ℕ) (k : ℕ) (b : Bool) → (buffer_add_bit buffer k b).1 ≡ 1
unfolding buffer_add_bit
count-buffer_add_bit buffer k b = refl

length_snoc {ℓ} : {A : Type ℓ} (xs : List A) (x : A) → length (xs ++ x ∷ []) ≡ suc (length xs)
length_snoc [] x = refl
length_snoc (y ∷ xs) x = ap suc (length_snoc xs x)

buffer_add_bit-Starts :
    {buffer : List ℕ} (bits : List Bool) (b : Bool)
    → length bits < 64
    → Starts buffer bits
    → Starts (buffer_add_bit buffer (length bits) b).0 (bits ++ b ∷ [])
buffer_add_bit-Starts {buffer} bits b h s =
    let room : length bits < 32 * length buffer = omega arith in
    let inside : length bits < length (word_bits buffer) = omega (arith, length-word_bits buffer) in
    record {
      two_words = length-buffer_add_bit buffer (length bits) b ∙ s.two_words;
      prefix =
          rw (length_snoc bits b, word_bits-buffer_add_bit buffer (length bits) b room)
            (take-set-suc (word_bits buffer) (length bits) b inside
              ∙ ap (λ r. r ++ b ∷ []) s.prefix);
    }

module _ (bits : ℕ) where
  -- One round, where no counter wraps.
  add_bits_loop-suc :
      (left i : ℕ) (buffer : List ℕ) (offset ret k : ℕ)
      → offset + ret ≡ k
      → k < 64
      → add_bits_loop (suc left) i buffer offset bits ret
        ≡ add_bits_loop left
            (i + 1)
            (buffer_add_bit buffer k (not (bit_and bits (1 <<< i) == 0))).0
            offset
            bits
            (ret + 1)
  unfolding add_bits_loop
  add_bits_loop-suc left i buffer offset ret k e h =
      let here : u8 (offset + ret) ≡ k = omega arith in
      let b = not (bit_and bits (1 <<< i) == 0) in
      let next : u8 (ret + (buffer_add_bit buffer (u8 (offset + ret)) b).1) ≡ ret + 1 =
        omega (arith, count-buffer_add_bit buffer (u8 (offset + ret)) b) in
      ap₂ (λ at r. add_bits_loop left (i + 1) (buffer_add_bit buffer at b).0 offset bits r) here
        next

  add_bits_loop-Starts :
      (left i : ℕ) {buffer : List ℕ} (offset ret : ℕ) (before : List Bool)
      → offset + ret ≡ length before
      → offset + ret + left ≤ 64
      → Starts buffer before
      → Starts (add_bits_loop left i buffer offset bits ret).0 (before ++ bits_from i left bits)
        × ((add_bits_loop left i buffer offset bits ret).1 ≡ ret + left)
  unfolding add_bits_loop
  add_bits_loop-Starts zero i offset ret before e h s = (rw append-nil s, omega arith)
  add_bits_loop-Starts (suc left) i {buffer} offset ret before e h s =
      let b = not (bit_and bits (1 <<< i) == 0) in
      let rest =
        add_bits_loop-Starts left (i + 1) offset (ret + 1) (before ++ b ∷ [])
          (omega (arith, length_snoc {0} before b)) (omega arith)
          (buffer_add_bit-Starts before b (omega arith) s) in
      rw (add_bits_loop-suc left i buffer offset ret (length before) e (omega arith))
        (rw append_assoc at rest.0, omega (arith, rest.1))

-- The writes so far: the words start with `bits`, and `written` counts them.
pub record HasWritten (p : Progress) (bits : List Bool) : Type 0 where
  pub starts : Starts p.result bits
  pub count : p.written ≡ length bits

pub add_bits-HasWritten :
    {p : Progress} (before : List Bool) (bits n : ℕ)
    → length before + n ≤ 64
    → HasWritten p before
    → HasWritten (add_bits p bits n) (before ++ bits_from 0 n bits)
unfolding add_bits buffer_add_bits
add_bits-HasWritten {p} before bits n h w =
    let added =
      add_bits_loop-Starts bits n 0 p.written 0 before (omega (arith, w.count))
        (omega (arith, w.count)) w.starts in
    record {
      starts = added.0;
      count = omega (
        arith,
        added.1,
        w.count,
        length-append {0} before (bits_from 0 n bits),
        length-bits_from 0 n bits,
      );
    }

-- Words whose start of 64 bits is known are known.
pub Starts-all :
    {buffer : List ℕ} (bits : List Bool)
    → length bits ≡ 64
    → Starts buffer bits
    → word_bits buffer ≡ bits
Starts-all {buffer} bits h s =
    let all : length (word_bits buffer) ≡ length bits =
      omega (arith, length-word_bits buffer, s.two_words) in
    sym (take-length (word_bits buffer)) ∙ (ap (λ k. take k (word_bits buffer)) all ∙ s.prefix)
