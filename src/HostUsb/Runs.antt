-- ===== src/HostUsb/Runs.antt =====
-- The samples of a buffer that holds runs of equal bits.
use rfid_tool.Base.{ℕ, zero, suc, ◌+◌, ◌*◌, ◌≡◌, refl, ap, ap₂, ◌∙◌, arith}
use rfid_tool.Base.{Bool, true, false, not, xor, some, List, [], ◌∷◌, ◌++◌, replicate}
use rfid_tool.Interface.{Sample}
use rfid_tool.HostUsb.Received.{samples_loop, samples_of_bits}

-- Runs of alternating levels; a number `n` stands for a run of `n + 1` bits.
abbrev pub bits_of_runs : Bool → List ℕ → List Bool
bits_of_runs level [] = []
bits_of_runs level (n ∷ ns) = replicate (suc n) level ++ bits_of_runs (not level) ns

-- One sample of 64 microseconds a bit for each run but the last; the bit 1 is a low voltage.
abbrev pub samples_of_runs : Bool → ℕ → List ℕ → List Sample
samples_of_runs level n [] = []
samples_of_runs level n (m ∷ ms) =
    record { length_us = n * 64; is_high = not level } ∷ samples_of_runs (not level) (suc m) ms

rest_of_run :
    (level : Bool) (n len total : ℕ) (bits : List Bool)
    → len + n ≡ total
    → samples_loop (some level) len (replicate n level ++ bits)
      ≡ samples_loop (some level) total bits
unfolding samples_loop xor
rest_of_run level zero len total bits e = ap (λ k. samples_loop (some level) k bits) (omega arith)
rest_of_run true (suc n) len total bits e = rest_of_run true n (len + 1) total bits (omega arith)
rest_of_run false (suc n) len total bits e = rest_of_run false n (len + 1) total bits (omega arith)

end_of_run :
    (level : Bool) (len : ℕ) (ns : List ℕ)
    → samples_loop (some level) len (bits_of_runs (not level) ns) ≡ samples_of_runs level len ns
unfolding samples_loop xor
end_of_run level len [] = refl
end_of_run true len (n ∷ ns) =
    ap₂ (λ k ss. record { length_us = k; is_high = false } ∷ ss) (omega arith)
      (rest_of_run false n 1 (suc n) (bits_of_runs true ns) (omega arith)
        ∙ end_of_run false (suc n) ns)
end_of_run false len (n ∷ ns) =
    ap₂ (λ k ss. record { length_us = k; is_high = true } ∷ ss) (omega arith)
      (rest_of_run true n 1 (suc n) (bits_of_runs false ns) (omega arith)
        ∙ end_of_run true (suc n) ns)

-- The samples of a received buffer: one for each run of equal bits, with the run's length at 64
-- microseconds a bit, except that the first run is counted one bit too short and that the last
-- run gives no sample.
pub samples_of_bits-runs :
    (level : Bool) (n : ℕ) (ns : List ℕ)
    → samples_of_bits (bits_of_runs level (n ∷ ns)) ≡ samples_of_runs level n ns
unfolding samples_of_bits samples_loop
samples_of_bits-runs level n ns =
    rest_of_run level n 0 n (bits_of_runs (not level) ns) (omega arith) ∙ end_of_run level n ns
