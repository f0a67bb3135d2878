-- ===== src/Bits/Fields.antt =====
-- The bits of a word as a list, lowest first, and what setting, clearing and testing one bit does.
use native.Mathlib.Nat.{pow-suc, one-le-pow}
use rfid_tool.Base.{ℕ, zero, suc, ◌+◌, ◌-◌, ◌*◌, ◌/◌, ◌%◌, ◌^◌, ◌≤◌, ◌<◌, bit_and, bit_or}
use rfid_tool.Base.{◌≡◌, refl, ap, Bool, true, false, not, List, [], ◌∷◌, set, get_or}
use rfid_tool.Base.{◌==◌, length, arith}
use rfid_tool.Bits.Step.{bit_or-digit, bit_and-digit}

unfoldable pub bit_list : ℕ → ℕ → List Bool
bit_list zero w = []
bit_list (suc n) w = (w % 2 == 1) ∷ bit_list n (w / 2)

pub length-bit_list : (n w : ℕ) → length (bit_list n w) ≡ n
unfolding bit_list
length-bit_list zero w = refl
length-bit_list (suc n) w = ap suc (length-bit_list n (w / 2))

or_zero_below : (n a : ℕ) → a ≤ n → bit_or a 0 ≡ a
or_zero_below n zero h = refl
or_zero_below zero (suc a) h = absurd (omega arith)
or_zero_below (suc n) (suc a) h =
    ground (arith, bit_or-digit (suc a) 0, or_zero_below n (suc a / 2))

pub bit_or-zero : (a : ℕ) → bit_or a 0 ≡ a
bit_or-zero a = or_zero_below a a (omega arith)

and_zero_below : (n a : ℕ) → a ≤ n → bit_and a 0 ≡ 0
and_zero_below n zero h = refl
and_zero_below zero (suc a) h = absurd (omega arith)
and_zero_below (suc n) (suc a) h =
    ground (arith, bit_and-digit (suc a) 0, and_zero_below n (suc a / 2))

pub bit_and-zero : (a : ℕ) → bit_and a 0 ≡ 0
bit_and-zero a = and_zero_below a a (omega arith)

-- Two fields that do not overlap, joined by `|`, add up.
pub bit_or-shifted : (k q r : ℕ) → r < 2 ^ k → bit_or (q * 2 ^ k) r ≡ q * 2 ^ k + r
bit_or-shifted zero q r h = ground (arith, bit_or-zero (q * 1))
bit_or-shifted (suc k) q r h =
    let doubled : q * 2 ^ suc k ≡ q * 2 ^ k * 2 =
      omega (arith, ap (λ (t : ℕ). q * t) (pow-suc 2 k)) in
    ground (arith, pow-suc 2 k, bit_or-digit (q * 2 ^ suc k) r, bit_or-shifted k q (r / 2))

-- The low digit and the rest of `w | (1 << i)`.
or_high :
    (w i : ℕ)
    → (bit_or w (2 ^ suc i) % 2 ≡ w % 2) × (bit_or w (2 ^ suc i) / 2 ≡ bit_or (w / 2) (2 ^ i))
or_high w i =
    let half : 2 ^ suc i / 2 ≡ 2 ^ i = omega (arith, pow-suc 2 i) in
    let even : 2 ^ suc i % 2 ≡ 0 = omega (arith, pow-suc 2 i) in
    ground (arith, bit_or-digit w (2 ^ suc i))

or_low : (w : ℕ) → (bit_or w 1 % 2 ≡ 1) × (bit_or w 1 / 2 ≡ w / 2)
or_low w = omega (arith, bit_or-digit w 1, bit_or-zero (w / 2))

-- `w | (1 << i)` sets bit `i` and no other.
pub bit_list-bit_or :
    (n i w : ℕ) → i < n → bit_list n (bit_or w (2 ^ i)) ≡ set (bit_list n w) i true
unfolding bit_list
bit_list-bit_or zero i w h = absurd (omega arith)
bit_list-bit_or (suc n) zero w h = rw ((or_low w).0, (or_low w).1)
bit_list-bit_or (suc n) (suc i) w h =
    rw ((or_high w i).0, (or_high w i).1, bit_list-bit_or n i (w / 2) (omega arith))

pub two_pow_lt : (n i : ℕ) → i < n → 2 ^ i < 2 ^ n
two_pow_lt zero i h = absurd (omega arith)
two_pow_lt (suc n) zero h = omega (arith, pow-suc 2 n, one-le-pow n 2)
two_pow_lt (suc n) (suc i) h = omega (arith, pow-suc 2 n, pow-suc 2 i, two_pow_lt n i)

-- `~(1 << i)` in a word of `n` bits
abbrev pub clear_mask : ℕ → ℕ → ℕ
clear_mask n i = 2 ^ n - 1 - 2 ^ i

and_high :
    (w n i : ℕ)
    → i < n
    → (bit_and w (clear_mask (suc n) (suc i)) % 2 ≡ w % 2)
      × (bit_and w (clear_mask (suc n) (suc i)) / 2 ≡ bit_and (w / 2) (clear_mask n i))
and_high w n i h =
    let m : ℕ = clear_mask (suc n) (suc i) in
    let lowest : m % 2 ≡ 1 = omega (arith, pow-suc 2 n, pow-suc 2 i, two_pow_lt n i h) in
    let rest : m / 2 ≡ clear_mask n i = omega (arith, pow-suc 2 n, pow-suc 2 i, two_pow_lt n i h) in
    ground (arith, bit_and-digit w m)

and_ones :
    (w n : ℕ)
    → (bit_and w (2 ^ suc n - 1) % 2 ≡ w % 2)
      × (bit_and w (2 ^ suc n - 1) / 2 ≡ bit_and (w / 2) (2 ^ n - 1))
and_ones w n =
    let lowest : (2 ^ suc n - 1) % 2 ≡ 1 = omega (arith, pow-suc 2 n, one-le-pow n 2) in
    let rest : (2 ^ suc n - 1) / 2 ≡ 2 ^ n - 1 = omega (arith, pow-suc 2 n, one-le-pow n 2) in
    ground (arith, bit_and-digit w (2 ^ suc n - 1))

and_low :
    (w n : ℕ)
    → (bit_and w (clear_mask (suc n) 0) % 2 ≡ 0)
      × (bit_and w (clear_mask (suc n) 0) / 2 ≡ bit_and (w / 2) (2 ^ n - 1))
and_low w n =
    let lowest : (clear_mask (suc n) 0) % 2 ≡ 0 = omega (arith, pow-suc 2 n, one-le-pow n 2) in
    let rest : (clear_mask (suc n) 0) / 2 ≡ 2 ^ n - 1 =
      omega (arith, pow-suc 2 n, one-le-pow n 2) in
    ground (arith, bit_and-digit w (clear_mask (suc n) 0))

-- `w & (1 << i)`: the test of one bit moves down with the halves.
pub bit_and-one : (w : ℕ) → bit_and w 1 ≡ w % 2
bit_and-one w = ground (arith, bit_and-digit w 1, bit_and-zero (w / 2))

pub bit_and-double : (w i : ℕ) → bit_and w (2 ^ suc i) ≡ bit_and (w / 2) (2 ^ i) * 2
bit_and-double w i =
    let half : 2 ^ suc i / 2 ≡ 2 ^ i = omega (arith, pow-suc 2 i) in
    let even : 2 ^ suc i % 2 ≡ 0 = omega (arith, pow-suc 2 i) in
    ground (arith, bit_and-digit w (2 ^ suc i))

-- A mask of `n` ones keeps `n` bits.
bit_list-ones : (n w : ℕ) → bit_list n (bit_and w (2 ^ n - 1)) ≡ bit_list n w
unfolding bit_list
bit_list-ones zero w = refl
bit_list-ones (suc n) w = rw ((and_ones w n).0, (and_ones w n).1, bit_list-ones n (w / 2))

-- `w & ~(1 << i)` clears bit `i` and no other.
pub bit_list-bit_and :
    (n i w : ℕ) → i < n → bit_list n (bit_and w (clear_mask n i)) ≡ set (bit_list n w) i false
unfolding bit_list
bit_list-bit_and zero i w h = absurd (omega arith)
bit_list-bit_and (suc n) zero w h = rw ((and_low w n).0, (and_low w n).1, bit_list-ones n (w / 2))
bit_list-bit_and (suc n) (suc i) w h = rw (
  (and_high w n i (omega arith)).0,
  (and_high w n i (omega arith)).1,
  bit_list-bit_and n i (w / 2) (omega arith),
)

-- `(w & (1 << i)) != 0` reads bit `i`.
pub bit_and-bit : (n i w : ℕ) → i < n → not (bit_and w (2 ^ i) == 0) ≡ get_or (bit_list n w) i false
unfolding bit_list
bit_and-bit zero i w h = absurd (omega arith)
bit_and-bit (suc n) zero w h = ground (arith, bit_and-one w)
bit_and-bit (suc n) (suc i) w h = ground (arith, bit_and-double w i, bit_and-bit n i (w / 2))

-- A mask bounds what it keeps.
pub bit_and-bound : (k w m : ℕ) → m < 2 ^ k → bit_and w m ≤ m
bit_and-bound zero w m h = ground (arith, bit_and-zero w)
bit_and-bound (suc k) w m h =
    let half : m / 2 < 2 ^ k = omega (arith, pow-suc 2 k) in
    omega (arith, bit_and-digit w m, bit_and-bound k (w / 2) (m / 2) half)
