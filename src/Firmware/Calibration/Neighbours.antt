-- ===== src/Firmware/Calibration/Neighbours.antt =====
-- The loop over the neighbours in the calibration of firmware/src/main.c.
use rfid_tool.Base.{ℕ, zero, suc, ◌+◌, ◌≤◌, ◌<◌, ◌≡◌, refl, ap, ◌∙◌, arith}
use rfid_tool.Base.{Bool, true, false, none, some, u8, ltb, leb, if◌then◌else◌}
use rfid_tool.Firmware.Calibration.{deviation, neighbour_loop}

module _ (measure : ℕ → ℕ) where
  -- Beyond 253 OSCCAL wraps before it is over the bound.
  pub neighbour_loop-endless :
      (fuel osccal trial dev value : ℕ)
      → osccal < 256
      → 254 ≤ trial
      → neighbour_loop measure fuel osccal trial dev value ≡ none
  unfolding neighbour_loop
  neighbour_loop-endless zero osccal trial dev value small large = refl
  neighbour_loop-endless (suc fuel) osccal trial dev value small large =
      let x = deviation measure (measure osccal) in
      let rest =
        neighbour_loop-endless fuel (u8 (osccal + 1)) trial (if ltb x dev then x else dev)
          (if ltb x dev then osccal else value) (omega arith) large in
      let within : leb osccal (trial + 1) ≡ true = ground arith in
      ap
        (λ (b : Bool).
          if b
          then neighbour_loop measure fuel (u8 (osccal + 1)) trial (if ltb x dev then x else dev)
              (if ltb x dev then osccal else value)
          else some value)
        within
      ∙ rest

  -- Otherwise three rounds and a test are enough.
  pub neighbour_loop-ends :
      (fuel left osccal trial dev value : ℕ)
      → osccal + left ≡ trial + 2
      → trial < 254
      → left < fuel
      → (v : ℕ) × (neighbour_loop measure fuel osccal trial dev value ≡ some v)
  unfolding neighbour_loop
  neighbour_loop-ends zero left osccal trial dev value e small enough = absurd (omega arith)
  neighbour_loop-ends (suc fuel) zero osccal trial dev value e small enough =
      let over : leb osccal (trial + 1) ≡ false = ground arith in (value, rw over refl)
  neighbour_loop-ends (suc fuel) (suc left) osccal trial dev value e small enough =
      let x = deviation measure (measure osccal) in
      let (v, rest) =
        neighbour_loop-ends fuel left (u8 (osccal + 1)) trial (if ltb x dev then x else dev)
          (if ltb x dev then osccal else value) (omega arith) small (omega arith) in
      let within : leb osccal (trial + 1) ≡ true = ground arith in (v, rw within rest)
