-- ===== src/HostUsb/Opening.antt =====
-- The questions of the constructor of rfid-tool/src/rfid/impl/InterfaceUsbImpl.cpp, at known answers.
use rfid_tool.Base.{
  ℕ, pos, ◌≡◌, refl, ap, ◌∙◌, ◌==◌, ◌&&◌, Bool, true, false, if◌then◌else◌, List, [], ◌∷◌, some,
  take, get_or, arith,
}
use rfid_tool.Protocol.{cmd_get_version, cmd_get_buffer_size}
use rfid_tool.HostUsb.{
  UsbDevice, Driver, Result, ok, err, not_supported, Action, lift, ◌>>=◌, do_transfer_rx,
  check_connection,
}
use rfid_tool.HostUsb.Open.{opened, with_sizes, ask_device}
use rfid_tool.HostUsb.Transfers.{do_transfer_rx-ok, do_transfer_rx-refused}

-- The driver once the version is known.
abbrev pub versioned : ℕ → ℕ → Driver
versioned major minor = record opened { version = some (record { major = major; minor = minor }) }

check_connection-versioned :
    (major minor : ℕ)
    → check_connection (versioned major minor)
      ≡ (if major == 0 && minor == 1 then ok tt else err not_supported)
unfolding check_connection
check_connection-versioned major minor = refl

module _ (D : UsbDevice) where
  -- What follows the answer about the version.
  abbrev ask_sizes : Driver → Action D.State Driver
  ask_sizes d =
      do_transfer_rx D d 6 0 0 cmd_get_buffer_size true >>= λ sizes. lift (ok (with_sizes d sizes))

  ask_device-versioned :
      (s s' : D.State) (major minor : ℕ)
      → D.control_in cmd_get_version 0 0 3 s ≡ ((pos 3, 0 ∷ major ∷ minor ∷ []), s')
      → ask_device D s ≡ ask_sizes (versioned major minor) s'
  unfolding ask_device check_connection
  ask_device-versioned s s' major minor answer =
      let after : Result (List ℕ) × D.State → Result Driver × D.State =
        λ q. ((λ _. q) >>= λ v. ask_sizes (versioned (get_or v 0 0) (get_or v 1 0))) s in
      ap after (
        do_transfer_rx-ok D opened 2 0 0 cmd_get_version s s' (major ∷ minor ∷ []) refl
          (omega arith) answer)

  -- Another version than 0.1 ends the constructor with an error, before any other request.
  pub ask_device-not_supported :
      (s s' : D.State) (major minor : ℕ)
      → D.control_in cmd_get_version 0 0 3 s ≡ ((pos 3, 0 ∷ major ∷ minor ∷ []), s')
      → (major == 0 && minor == 1) ≡ false
      → ask_device D s ≡ (err not_supported, s')
  ask_device-not_supported s s' major minor answer other =
      let d = versioned major minor in
      let after : Result (List ℕ) × D.State → Result Driver × D.State =
        λ q. ((λ _. q) >>= λ b. lift (ok (with_sizes d b))) s' in
      let refused : check_connection d ≡ err not_supported =
        check_connection-versioned major minor
        ∙ ap (λ (b : Bool). if b then ok tt else err not_supported) other in
      ask_device-versioned s s' major minor answer
      ∙ ap after
          (do_transfer_rx-refused D d 6 0 0 cmd_get_buffer_size true s' not_supported refused)

  -- Version 0.1 and six bytes about the buffers.
  pub ask_device-supported :
      (s s' s'' : D.State) (sizes : List ℕ)
      → D.control_in cmd_get_version 0 0 3 s ≡ ((pos 3, 0 ∷ 0 ∷ 1 ∷ []), s')
      → D.control_in cmd_get_buffer_size 0 0 7 s' ≡ ((pos 7, 0 ∷ sizes), s'')
      → ask_device D s ≡ (ok (with_sizes (versioned 0 1) (take 6 sizes)), s'')
  unfolding check_connection
  ask_device-supported s s' s'' sizes answer more =
      let after : Result (List ℕ) × D.State → Result Driver × D.State =
        λ q. ((λ _. q) >>= λ b. lift (ok (with_sizes (versioned 0 1) b))) s' in
      ask_device-versioned s s' 0 1 answer
      ∙ ap after (
          do_transfer_rx-ok D (versioned 0 1) 6 0 0 cmd_get_buffer_size s' s'' sizes refl
            (omega arith) more)
