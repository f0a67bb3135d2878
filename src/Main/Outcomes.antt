-- ===== src/Main/Outcomes.antt =====
-- What `main` of rfid-tool/src/main.cpp does to the device, and with what status it ends.
use rfid_tool.Base.{ℕ, pos, ◌≡◌, refl, ap, ◌∙◌, ◌⊎◌, inl, inr, true, false, Bool-cases}
use rfid_tool.Base.{Option, none, some, List, [], ◌∷◌, ◌==◌, ◌&&◌}
use rfid_tool.HostUsb.{
  UsbDevice, Driver, Result, not_connected, not_supported, check_connection, get_version,
}
use rfid_tool.HostUsb.Open.{Search, found, missing, open_interface}
use rfid_tool.HostUsb.Opening.{ask_device-not_supported}
use rfid_tool.Protocol.{cmd_get_version}
use rfid_tool.Reader.{Reader}
use rfid_tool.Main.Options.{
  ExecutionOptions, Modulation, unknown_modulation, manchester, biphase, unknown_bitrate,
}
use rfid_tool.Main.{
  HelpMessage, no_message, unknown_modulation_message, unknown_bitrate_message, help, failure, Exit,
  minus_one, refused, write_refused, run_main, run_checked, run_opened, session,
}

-- Options that `main` refuses.
abbrev pub IsRefused : ExecutionOptions → Type 0
IsRefused o =
    (o.show_help ≡ true)
    ⊎ ((o.write ≡ true) × ((o.modulation ≡ unknown_modulation) ⊎ (o.bitrate ≡ unknown_bitrate)))

refused-IsRefused :
    (o : ExecutionOptions) → IsRefused o → (message : HelpMessage) × (refused o ≡ some message)
unfolding refused
refused-IsRefused o (inl e) = rw e (no_message, refl)
refused-IsRefused o (inr (w, inl e)) = elim (Bool-cases o.show_help) [
  | inl h ↦ rw h (no_message, refl)
  | inr h ↦ rw (h, w, e) (unknown_modulation_message, refl)
]
refused-IsRefused o (inr (w, inr e)) = elim (Bool-cases o.show_help) [
  | inl h ↦ rw h (no_message, refl)
  | inr h ↦ rw (h, w, e) (by_modulation o.modulation)
]
  where
    by_modulation :
        (m : Modulation)
        → (message : HelpMessage) × (write_refused m unknown_bitrate ≡ some message)
    by_modulation unknown_modulation = (unknown_modulation_message, refl)
    by_modulation manchester = (unknown_bitrate_message, refl)
    by_modulation biphase = (unknown_bitrate_message, refl)

module _ (D : UsbDevice) where
  -- With refused options the program ends with the status -1 and prints its help, and nothing is
  -- said to the device, whatever the search for it would give.
  pub run_main-refused :
      (o : ExecutionOptions) (device : Search) (reader : Reader) (words : List ℕ) (s : D.State)
      → IsRefused o
      → (message : HelpMessage) × (run_main D o device reader words s
          ≡ some (record { status = minus_one; reports = help message ∷ [] }, s))
  unfolding run_main
  run_main-refused o device reader words s h =
      let (message, e) = refused-IsRefused o h in
      (message, ap (λ q. run_checked D q (open_interface D device) o reader words s) e)

  -- Where no device is found, all other options end with the status -1 and with the error that
  -- there is no connection, and nothing is said to any device.
  pub run_main-missing :
      (o : ExecutionOptions) (reader : Reader) (words : List ℕ) (s : D.State)
      → refused o ≡ none
      → run_main D o missing reader words s
        ≡ some (record { status = minus_one; reports = failure not_connected ∷ [] }, s)
  unfolding run_main session open_interface get_version check_connection
  run_main-missing o reader words s h =
      ap (λ q. run_checked D q (open_interface D missing) o reader words s) h

  -- A device that answers the first request with another version than 0.1 gets no other request: the
  -- program ends with the status -1 and the error that the device is not supported.
  pub run_main-not_supported :
      (o : ExecutionOptions) (reader : Reader) (words : List ℕ) (s s' : D.State) (major minor : ℕ)
      → refused o ≡ none
      → D.control_in cmd_get_version 0 0 3 s ≡ ((pos 3, 0 ∷ major ∷ minor ∷ []), s')
      → (major == 0 && minor == 1) ≡ false
      → run_main D o found reader words s
        ≡ some (record { status = minus_one; reports = failure not_supported ∷ [] }, s')
  unfolding run_main session open_interface
  run_main-not_supported o reader words s s' major minor h answer other =
      let after : Result Driver × D.State → Option (Exit × D.State) =
        λ q. run_opened D (some (λ _. q)) o reader words s in
      ap (λ q. run_checked D q (open_interface D found) o reader words s) h
      ∙ ap after (ask_device-not_supported D s s' major minor answer other)
