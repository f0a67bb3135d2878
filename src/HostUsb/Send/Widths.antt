-- ===== src/HostUsb/Send/Widths.antt =====
-- The set of pulse widths: every width of a sample is in it, at the index that is sent for it.
use rfid_tool.Base.{ℕ, zero, suc, ◌-◌, ◌<◌, ◌≡◌, refl, arith}
use rfid_tool.Base.{Bool, true, false, ◌||◌, ◌==◌, u8}
use rfid_tool.Base.{List, [], ◌∷◌, ◌++◌, map, length, get_or, replicate}
use rfid_tool.Interface.{Sample}
use rfid_tool.HostUsb.Send.{insert_pulse, width, pulses_loop, index_of, pulse_vector}

abbrev pub has : ℕ → List ℕ → Bool
has x [] = false
has x (y ∷ ys) = x == y || has x ys

-- All widths of the samples are in the set.
abbrev pub AllIn : List ℕ → List Sample → Type 0
AllIn pulses [] = Unit {0}
AllIn pulses (s ∷ ss) = (has (width s) pulses ≡ true) × AllIn pulses ss

has-insert_pulse : (z x : ℕ) (ys : List ℕ) → has z (insert_pulse x ys) ≡ (z == x || has z ys)
unfolding insert_pulse
has-insert_pulse z x [] = refl
has-insert_pulse z x (y ∷ ys) = ground (arith, has-insert_pulse z x ys)

has-pulses_loop :
    (z : ℕ) (ss : List Sample) (pulses : List ℕ)
    → has z pulses ≡ true
    → has z (pulses_loop ss pulses) ≡ true
unfolding pulses_loop
has-pulses_loop z [] pulses h = h
has-pulses_loop z (s ∷ ss) pulses h =
    has-pulses_loop z ss (insert_pulse (width s) pulses)
      (ground (arith, has-insert_pulse z (width s) pulses))

pub pulses_loop-AllIn : (ss : List Sample) (pulses : List ℕ) → AllIn (pulses_loop ss pulses) ss
unfolding pulses_loop
pulses_loop-AllIn [] pulses = tt
pulses_loop-AllIn (s ∷ ss) pulses = (
  has-pulses_loop (width s) ss (insert_pulse (width s) pulses)
      (ground (arith, has-insert_pulse (width s) (width s) pulses)),
  pulses_loop-AllIn ss (insert_pulse (width s) pulses),
)

pub index_of-has :
    (x : ℕ) (ys : List ℕ)
    → has x ys ≡ true
    → (index_of x ys < length ys) × (get_or ys (index_of x ys) 0 ≡ x)
unfolding index_of
index_of-has x [] h = cc
index_of-has x (y ∷ ys) h = ground (arith, index_of-has x ys)

pub get_or-pulse_vector :
    (size : ℕ) (pulses : List ℕ) (i : ℕ)
    → i < length pulses
    → get_or (pulse_vector size pulses) i 0 ≡ u8 (get_or pulses i 0)
unfolding pulse_vector
get_or-pulse_vector size pulses i h = in_front pulses i h
  where
    in_front :
        (ps : List ℕ) (i : ℕ)
        → i < length ps
        → get_or (map (λ p. u8 p) ps ++ replicate (size - length pulses) 0) i 0 ≡ u8 (get_or ps i 0)
    in_front [] i h = absurd (omega arith)
    in_front (p ∷ ps) zero h = refl
    in_front (p ∷ ps) (suc i) h = in_front ps i (omega arith)
