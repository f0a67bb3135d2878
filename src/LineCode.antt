-- ===== src/LineCode.antt =====
-- A line as levels, one for each half of a bit, and as the pulses that its runs make.
use rfid_tool.CarrierDecoder.{CarrierEvent, new_pulse}
use rfid_tool.Base.{ℕ, suc, ltb, Bool, true, false, not, List, [], ◌∷◌}

pub record Pulse : Type 0 where
  pub is_high : Bool
  pub is_long : Bool

-- How the carrier decoder reports it.
abbrev pub pulse_event : Pulse → CarrierEvent
pulse_event p = new_pulse p.is_high p.is_long

abbrev pub same_level : Bool → Bool → Bool
same_level true y = y
same_level false y = not y

-- A run of one half is a short pulse, a longer one a long pulse.
abbrev pub pulse_of : Bool → ℕ → Pulse
pulse_of level halves = record { is_high = level; is_long = ltb 1 halves }

abbrev pub runs : Bool → ℕ → List Bool → List Pulse
runs level n [] = pulse_of level n ∷ []
runs level n (x ∷ xs) = elim (same_level level x) [
  | true ↦ runs level (suc n) xs
  | false ↦ pulse_of level n ∷ runs x 1 xs
]

abbrev pub pulses : List Bool → List Pulse
pulses [] = []
pulses (x ∷ xs) = runs x 1 xs

-- Manchester: each bit is its level and then the opposite one.
abbrev pub manchester_levels : List Bool → List Bool
manchester_levels [] = []
manchester_levels (b ∷ bs) = b ∷ not b ∷ manchester_levels bs

-- Biphase: the level changes where a bit starts, and inside a 0 as well.
abbrev pub biphase_levels : Bool → List Bool → List Bool
biphase_levels level [] = []
biphase_levels level (true ∷ bs) = not level ∷ not level ∷ biphase_levels (not level) bs
biphase_levels level (false ∷ bs) = not level ∷ level ∷ biphase_levels level bs
