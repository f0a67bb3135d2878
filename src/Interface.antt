-- ===== src/Interface.antt =====
-- rfid-tool/inc/rfid/Interface.hpp and src/rfid/Interface.cpp: what a reader exchanges with a device.
use rfid_tool.Base.{ℕ, Bool, not}

-- The period of the carrier in microseconds, `CARRIER_US`.
abbrev pub carrier_us : ℕ
carrier_us = 8

-- `Sample`: the program builds only lengths that are not negative.
pub record Sample : Type 0 where
  pub length_us : ℕ
  pub is_high : Bool

abbrev pub is_low : Sample → Bool
is_low s = not s.is_high
