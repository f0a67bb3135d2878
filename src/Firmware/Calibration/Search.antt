-- ===== src/Firmware/Calibration/Search.antt =====
-- The end of the calibration in firmware/src/main.c, and what its binary search finds.
use mathlib.Core.Path.{subst}
use rfid_tool.Base.{ℕ, zero, suc, ◌+◌, ◌*◌, ◌^◌, ◌≤◌, ◌<◌, ◌≡◌, ◌⊎◌, inl, inr, refl, ap, ◌∙◌, arith}
use rfid_tool.Base.{
  Bool, true, false, Bool-cases, Option, none, some, u8, ◌>>>◌, ltb, ◌==◌, if◌then◌else◌,
}
use rfid_tool.Firmware.Calibration.Neighbours.{neighbour_loop-endless, neighbour_loop-ends}
use rfid_tool.Firmware.Calibration.{
  target_value, search_loop, neighbour_loop, neighbours, calibrate,
}

power_positive : (k : ℕ) → 0 < 2 ^ k
power_positive zero = omega arith
power_positive (suc k) = omega (arith, power_positive k)

module _ (measure : ℕ → ℕ) where
  -- A value that is too slow, or 0, and one that is not, or 256.
  abbrev TooSlow : ℕ → Type 0
  TooSlow t = (t ≡ 0) ⊎ (measure t < target_value)

  abbrev FastEnough : ℕ → Type 0
  FastEnough t = (t ≡ 256) ⊎ (target_value ≤ measure t)

  record Crossing (t : ℕ) : Type 0 where
    pub slow : TooSlow t
    pub fast : FastEnough (suc t)
    pub small : t < 256

  -- At a step of 2 ^ k the search has k + 1 rounds left.
  search_loop-Crossing :
      (k fuel trial : ℕ)
      → k < fuel
      → trial + 2 * 2 ^ k ≤ 256
      → TooSlow trial
      → FastEnough (trial + 2 * 2 ^ k)
      → (t x : ℕ) × (search_loop measure fuel (2 ^ k) trial ≡ some (t, x)) × Crossing t
  unfolding search_loop
  search_loop-Crossing k zero trial enough room slow fast = absurd (omega arith)
  search_loop-Crossing zero (suc fuel) trial enough room slow fast =
      let next : u8 (trial + 1) ≡ suc trial = omega arith in
      let x = measure (u8 (trial + 1)) in
      elim (Bool-cases (ltb x target_value)) [
        | inl e ↦ (
          u8 (trial + 1),
          x,
          rw e refl,
          record {
            slow = ground (arith, e);
            fast = subst FastEnough (omega (arith, next)) fast;
            small = omega arith;
          },
        )
        | inr e ↦ (
          trial,
          x,
          rw e refl,
          record {
            slow = slow;
            fast = subst FastEnough next (ground (arith, e));
            small = omega arith;
          },
        )
      ]
  search_loop-Crossing (suc k) (suc fuel) trial enough room slow fast =
      let half : 2 ^ suc k >>> 1 ≡ 2 ^ k = omega arith in
      let more : (2 ^ suc k >>> 1 == 0) ≡ false = ground (arith, half, power_positive k) in
      let next : u8 (trial + 2 ^ suc k) ≡ trial + 2 ^ suc k =
        omega (arith, room, power_positive k) in
      let x = measure (u8 (trial + 2 ^ suc k)) in
      let branch : Bool → ℕ → Bool → Option (ℕ × ℕ) = λ b step q.
        let kept = if b then u8 (trial + 2 ^ suc k) else trial in
        if q then some (kept, x) else search_loop measure fuel step kept in
      elim (Bool-cases (ltb x target_value)) [
        | inl e ↦
            let (t, y, run, c) =
              search_loop-Crossing k fuel (u8 (trial + 2 ^ suc k)) (omega arith)
                (omega (arith, next)) (ground (arith, e))
                (subst FastEnough (omega (arith, next)) fast) in
            (
              t,
              y,
              ap (λ b. branch b (2 ^ suc k >>> 1) (2 ^ suc k >>> 1 == 0)) e
                  ∙ (ap (λ q. branch true (2 ^ suc k >>> 1) q) more
                      ∙ (ap (λ n. branch true n false) half ∙ run)),
              c,
            )
        | inr e ↦
            let (t, y, run, c) =
              search_loop-Crossing k fuel trial (omega arith) (omega arith) slow (
                inr (
                  subst (λ n. target_value ≤ measure n) (next ∙ omega arith)
                    (ground (arith, e)))) in
            (
              t,
              y,
              ap (λ b. branch b (2 ^ suc k >>> 1) (2 ^ suc k >>> 1 == 0)) e
                  ∙ (ap (λ q. branch false (2 ^ suc k >>> 1) q) more
                      ∙ (ap (λ n. branch false n false) half ∙ run)),
              c,
            )
      ]

  searched :
      (fuel : ℕ)
      → 8 ≤ fuel
      → (t x : ℕ) × (search_loop measure fuel 128 0 ≡ some (t, x)) × Crossing t
  searched fuel enough =
      search_loop-Crossing 7 fuel 0 (omega arith) (omega arith) (inl refl) (inl refl)

  too_slow : (t n : ℕ) → TooSlow t → t ≡ n → 0 < n → target_value ≤ measure n → ⊥
  too_slow t n (inl z) e positive fast = omega arith
  too_slow t n (inr slow) e positive fast = omega (arith, ap measure e)

  past_last : (t : ℕ) → Crossing t → (suc t < 256 → measure (suc t) < target_value) → 254 ≤ t
  past_last t c slow = elim c.fast [
    | inl e ↦ omega (arith, e)
    | inr h ↦
        let cases : (suc t < 256) ⊎ (254 ≤ t) = omega arith in
        elim cases [ inl small ↦ absurd (omega (arith, slow small, h)) | inr k ↦ k ]
  ]

  -- With less than k + 1 rounds the search does not end.
  search_loop-short : (k fuel trial : ℕ) → fuel ≤ k → search_loop measure fuel (2 ^ k) trial ≡ none
  unfolding search_loop
  search_loop-short k zero trial few = refl
  search_loop-short zero (suc fuel) trial few = absurd (omega arith)
  search_loop-short (suc k) (suc fuel) trial few =
      let half : 2 ^ suc k >>> 1 ≡ 2 ^ k = omega arith in
      let more : (2 ^ suc k >>> 1 == 0) ≡ false = ground (arith, half, power_positive k) in
      let x = measure (u8 (trial + 2 ^ suc k)) in
      let kept : ℕ = if ltb x target_value then u8 (trial + 2 ^ suc k) else trial in
      ap
        (λ (q : Bool).
          if q then some (kept, x) else search_loop measure fuel (2 ^ suc k >>> 1) kept)
        more
      ∙ (ap (λ n. search_loop measure fuel n kept) half
          ∙ search_loop-short k fuel kept (omega arith))

  -- From the value under `t`, or from 255 under 0, which is past all neighbours.
  neighbours-end :
      (fuel t x : ℕ)
      → 8 ≤ fuel
      → t < 254
      → (v : ℕ) × (neighbours measure fuel (some (t, x)) ≡ some v)
  unfolding neighbour_loop
  neighbours-end zero t x enough small = absurd (omega arith)
  neighbours-end (suc fuel) zero x enough small = (0, refl)
  neighbours-end (suc fuel) (suc t) x enough small =
      neighbour_loop-ends measure (suc fuel) 3 (u8 (suc t + 255)) (suc t) x (suc t) (omega arith)
        small (omega arith)

  -- Whatever the oscillator does, the binary search ends after eight rounds at a value where the
  -- frequency crosses the target: it is 0 or too slow there, and the next value is not too slow, or
  -- is past the last.
  pub search_loop-crosses :
      (fuel : ℕ)
      → 8 ≤ fuel
      → (t x : ℕ) × (search_loop measure fuel 128 0 ≡ some (t, x))
        × ((t ≡ 0) ⊎ (measure t < target_value))
        × ((suc t ≡ 256) ⊎ (target_value ≤ measure (suc t)))
  search_loop-crosses fuel enough =
      let (t, x, run, c) = searched fuel enough in (t, x, run, c.slow, c.fast)

  -- Where the two highest values of OSCCAL are not too slow the calibration ends, with at most eight
  -- rounds in each loop.
  pub calibrate-ends :
      (fuel : ℕ)
      → 8 ≤ fuel
      → target_value ≤ measure 254
      → target_value ≤ measure 255
      → (v : ℕ) × (calibrate measure fuel ≡ some v)
  unfolding calibrate
  calibrate-ends fuel enough h254 h255 =
      let (t, x, run, c) = searched fuel enough in
      let cases : (t < 254) ⊎ ((t ≡ 254) ⊎ (t ≡ 255)) = omega (arith, c.small) in
      let small : t < 254 = elim cases [
        | inl h ↦ h
        | inr (inl e) ↦ absurd (too_slow t 254 c.slow e (omega arith) h254)
        | inr (inr e) ↦ absurd (too_slow t 255 c.slow e (omega arith) h255)
      ] in
      let (v, done) = neighbours-end fuel t x enough small in
      (v, ap (λ r. neighbours measure fuel r) run ∙ done)

  -- Where all values of OSCCAL are too slow it never ends: no fuel is enough.
  pub calibrate-endless :
      (fuel : ℕ) → ((k : ℕ) → k < 256 → measure k < target_value) → calibrate measure fuel ≡ none
  unfolding calibrate
  calibrate-endless fuel slow =
      let cases : (fuel ≤ 7) ⊎ (8 ≤ fuel) = omega arith in
      elim cases [
        | inl few ↦ ap (λ r. neighbours measure fuel r) (search_loop-short 7 fuel 0 few)
        | inr enough ↦
            let (t, x, run, c) = searched fuel enough in
            let last : 254 ≤ t = past_last t c (λ small. slow (suc t) small) in
            ap (λ r. neighbours measure fuel r) run
            ∙ neighbour_loop-endless measure fuel (u8 (t + 255)) t x t (omega arith) last
      ]
