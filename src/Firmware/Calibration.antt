-- ===== src/Firmware/Calibration.antt =====
-- `_calibrateOscillator` of firmware/src/main.c. `measure` is `usbMeasureFrameLength` while OSCCAL
-- has a value; it is under 2 ^ 15, so that an `int` holds it. Loops run on fuel; `none` is a loop
-- that has not ended.
pub mod Neighbours
pub mod Search
use rfid_tool.Base.{
  ℕ, zero, suc, ◌+◌, ◌-◌, ◌*◌, ◌/◌, u8, ◌>>>◌, ltb, leb, ◌==◌, if◌then◌else◌, Option, none, some,
}

-- `(unsigned)(1499 * (double)F_CPU / 10.5e6 + 0.5)` at 16.5 MHz.
abbrev pub target_value : ℕ
target_value = (2 * 1499 * 16500000 + 10500000) / (2 * 10500000)

module _ (measure : ℕ → ℕ) where
  -- The binary search; the value that is kept and the last measurement.
  unfoldable pub search_loop : ℕ → (step trial_value : ℕ) → Option (ℕ × ℕ)
  search_loop zero step trial_value = none
  search_loop (suc fuel) step trial_value =
      let x = measure (u8 (trial_value + step)) in
      let kept = if ltb x target_value then u8 (trial_value + step) else trial_value in
      let rest = search_loop fuel (step >>> 1) kept in
      if step >>> 1 == 0 then some (kept, x) else rest

  -- The distance from the target.
  abbrev pub deviation : ℕ → ℕ
  deviation x = (x - target_value) + (target_value - x)

  -- The loop over the neighbours, at OSCCAL.
  unfoldable pub neighbour_loop : ℕ → (osccal trial_value optimum_dev optimum_value : ℕ) → Option ℕ
  neighbour_loop zero osccal trial_value optimum_dev optimum_value = none
  neighbour_loop (suc fuel) osccal trial_value optimum_dev optimum_value =
      let x = deviation (measure osccal) in
      let better = ltb x optimum_dev in
      let rest =
        neighbour_loop fuel (u8 (osccal + 1)) trial_value (if better then x else optimum_dev)
          (if better then osccal else optimum_value) in
      if leb osccal (trial_value + 1) then rest else some optimum_value

  abbrev pub neighbours : ℕ → Option (ℕ × ℕ) → Option ℕ
  neighbours fuel none = none
  neighbours fuel (some (trial_value, x)) =
      neighbour_loop fuel (u8 (trial_value + 255)) trial_value x trial_value

  -- The value of OSCCAL at the end.
  unfoldable pub calibrate : ℕ → Option ℕ
  calibrate fuel = neighbours fuel (search_loop fuel 128 0)
