-- ===== src/Bits/Order.antt =====
-- Bits read one after another by `(w & (1 << i)) != 0`, from below and from above.
use mathlib.Core.List.{reverse, reverse-append}
use rfid_tool.Base.{ℕ, zero, suc, ◌+◌, ◌/◌, ◌%◌, ◌^◌, bit_and, ◌<<<◌, ◌≡◌, refl, sym, ap, ap₂, ◌∙◌}
use rfid_tool.Base.{Bool, not, ◌==◌, List, [], ◌∷◌, ◌++◌, length, arith}
use rfid_tool.Bits.Fields.{bit_list, bit_and-one, bit_and-double}

abbrev pub test_bit : ℕ → ℕ → Bool
test_bit w i = not (bit_and w (1 <<< i) == 0)

-- Bits `i`, `i + 1`, … , `n` of them.
abbrev pub bits_from : ℕ → ℕ → ℕ → List Bool
bits_from i zero w = []
bits_from i (suc n) w = test_bit w i ∷ bits_from (i + 1) n w

-- Bits `n - 1`, … , `0`.
abbrev pub bits_down : ℕ → ℕ → List Bool
bits_down zero w = []
bits_down (suc n) w = test_bit w n ∷ bits_down n w

pub length-bits_from : (i n w : ℕ) → length (bits_from i n w) ≡ n
length-bits_from i zero w = refl
length-bits_from i (suc n) w = ap suc (length-bits_from (i + 1) n w)

pub length-bits_down : (n w : ℕ) → length (bits_down n w) ≡ n
length-bits_down zero w = refl
length-bits_down (suc n) w = ap suc (length-bits_down n w)

test_bit-zero : (w : ℕ) → test_bit w 0 ≡ (w % 2 == 1)
test_bit-zero w = ground (arith, bit_and-one w)

test_bit-suc : (w i : ℕ) → test_bit w (i + 1) ≡ test_bit (w / 2) i
test_bit-suc w i =
    let up : 1 <<< i + 1 ≡ 2 ^ suc i = let e : i + 1 ≡ suc i = omega arith in rw e (omega arith) in
    let same : 1 <<< i ≡ 2 ^ i = omega arith in rw (up, same) (ground (arith, bit_and-double w i))

bits_from-suc : (i n w : ℕ) → bits_from (i + 1) n w ≡ bits_from i n (w / 2)
bits_from-suc i zero w = refl
bits_from-suc i (suc n) w = ap₂ ◌∷◌ (test_bit-suc w i) (bits_from-suc (i + 1) n w)

pub bits_from-bit_list : (n w : ℕ) → bits_from 0 n w ≡ bit_list n w
unfolding bit_list
bits_from-bit_list zero w = refl
bits_from-bit_list (suc n) w =
    ap₂ ◌∷◌ (test_bit-zero w) (bits_from-suc 0 n w ∙ bits_from-bit_list n (w / 2))

bits_from_snoc : (i n w : ℕ) → bits_from i (suc n) w ≡ bits_from i n w ++ test_bit w (i + n) ∷ []
bits_from_snoc i zero w = ap (λ k. test_bit w k ∷ []) (omega arith)
bits_from_snoc i (suc n) w =
    ap (λ r. test_bit w i ∷ r)
      (bits_from_snoc (i + 1) n w
        ∙ ap (λ k. bits_from (i + 1) n w ++ test_bit w k ∷ []) (omega arith))

down_reverse : (n w : ℕ) → bits_down n w ≡ reverse (bits_from 0 n w)
down_reverse zero w = refl
down_reverse (suc n) w =
    let top : 0 + n ≡ n = omega arith in
    ap (λ r. test_bit w n ∷ r) (down_reverse n w)
    ∙ (sym (reverse-append (bits_from 0 n w) (test_bit w n ∷ []))
        ∙ ap reverse
            (sym (bits_from_snoc 0 n w ∙ ap (λ k. bits_from 0 n w ++ test_bit w k ∷ []) top)))

-- Read from above, the bits come in the opposite order.
pub bits_down-reverse : (n w : ℕ) → bits_down n w ≡ reverse (bit_list n w)
bits_down-reverse n w = down_reverse n w ∙ ap reverse (bits_from-bit_list n w)
