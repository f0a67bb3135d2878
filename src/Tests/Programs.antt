-- ===== src/Tests/Programs.antt =====
-- Concrete inputs for the whole program, with a device that counts its requests.
use rfid_tool.Base.{ℕ, suc, ◌≡◌, refl, pos, negsuc, inl, inr, true, some, List, [], ◌∷◌}
use rfid_tool.HostUsb.{UsbDevice, not_connected, not_supported}
use rfid_tool.HostUsb.Open.{found, missing}
use rfid_tool.Main.{run_main, refused, HelpMessage, help, failure, minus_one}
use rfid_tool.Main.Options.{ExecutionOptions, default_options}
use rfid_tool.Main.Outcomes.{run_main-refused, run_main-missing, run_main-not_supported}
use rfid_tool.Tests.Chains.{a_chain}

-- It says that its version is 2.7.
abbrev counter : UsbDevice
counter = record {
  State = ℕ;
  control_in = λ command value index size n. ((pos 3, 0 ∷ 2 ∷ 7 ∷ []), suc n);
  control_out = λ command value index bytes n. (negsuc 4, suc n);
  usleep = λ us n. n;
}

abbrev write_without_modulation : ExecutionOptions
write_without_modulation = record default_options { write = true }

abbrev reading : ExecutionOptions
reading = record default_options { read = true }

abbrev two_zeros : List ℕ
two_zeros = 0 ∷ 0 ∷ []

run_main-refused_example :
    (message : HelpMessage) × (run_main counter write_without_modulation found a_chain two_zeros 5
      ≡ some (record { status = minus_one; reports = help message ∷ [] }, 5))
run_main-refused_example =
    run_main-refused counter write_without_modulation found a_chain two_zeros 5
      (inr (refl, inl refl))

run_main-missing_example :
    run_main counter reading missing a_chain two_zeros 5
    ≡ some (record { status = minus_one; reports = failure not_connected ∷ [] }, 5)
unfolding refused
run_main-missing_example = run_main-missing counter reading a_chain two_zeros 5 refl

run_main-not_supported_example :
    run_main counter reading found a_chain two_zeros 5
    ≡ some (record { status = minus_one; reports = failure not_supported ∷ [] }, 6)
unfolding refused
run_main-not_supported_example =
    run_main-not_supported counter reading a_chain two_zeros 5 6 2 7 refl refl refl
