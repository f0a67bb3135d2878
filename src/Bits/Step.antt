-- ===== src/Bits/Step.antt =====
-- One equation for the lowest binary digit of each bit operation.
use Prim.Native.Nat.{min, max, digits, bitwise, bit_and-bitwise, bit_or-bitwise}
use rfid_tool.Base.{ℕ, zero, suc, ◌+◌, ◌-◌, ◌*◌, ◌/◌, ◌%◌, ◌≤◌, bit_and, bit_or, ◌≡◌, refl, ap, ◌∙◌}
use rfid_tool.Base.{arith}

module _ (z : ℕ → ℕ) (f : ℕ → ℕ → ℕ) where
  -- One unit of fuel more than the number needs changes nothing.
  spare_unit : (n a b : ℕ) → a ≤ n → digits z f (suc n) a b ≡ digits z f n a b
  spare_unit zero zero b h = refl
  spare_unit zero (suc a) b h = absurd (omega arith)
  spare_unit (suc n) zero b h = refl
  spare_unit (suc n) (suc a) b h = rw (spare_unit n (suc a / 2) (b / 2) (omega arith))

  spare_fuel : (k n a b : ℕ) → a ≤ n → digits z f (k + n) a b ≡ digits z f n a b
  spare_fuel zero n a b h = ground arith
  spare_fuel (suc k) n a b h =
      ap (λ t. digits z f t a b) {y = suc (k + n)} (omega arith)
      ∙ (spare_unit (k + n) a b (omega arith) ∙ spare_fuel k n a b h)

  -- The fuel of the definition is the number itself; its half needs half of that.
  lowest_digit :
      (x w : ℕ)
      → bitwise z f (suc x) w ≡ bitwise z f (suc x / 2) (w / 2) * 2 + f (suc x % 2) (w % 2)
  lowest_digit x w = ground (arith, spare_fuel (x - suc x / 2) (suc x / 2) (suc x / 2) (w / 2))

pub bit_or-digit : (x w : ℕ) → bit_or x w ≡ bit_or (x / 2) (w / 2) * 2 + max (x % 2) (w % 2)
bit_or-digit zero w = ground (arith, bit_or-bitwise 0 w, bit_or-bitwise 0 (w / 2))
bit_or-digit (suc x) w =
    let whole = bit_or-bitwise (suc x) w in
    let half = bit_or-bitwise (suc x / 2) (w / 2) in
    ground (arith, whole, half, lowest_digit (λ n. n) max x w)

pub bit_and-digit : (x w : ℕ) → bit_and x w ≡ bit_and (x / 2) (w / 2) * 2 + min (x % 2) (w % 2)
bit_and-digit zero w = ground (arith, bit_and-bitwise 0 w, bit_and-bitwise 0 (w / 2))
bit_and-digit (suc x) w =
    let whole = bit_and-bitwise (suc x) w in
    let half = bit_and-bitwise (suc x / 2) (w / 2) in
    ground (arith, whole, half, lowest_digit (λ n. 0) min x w)
