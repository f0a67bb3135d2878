-- ===== src/HostUsb/Transfers.antt =====
-- One transfer of rfid-tool/src/rfid/impl/InterfaceUsbImpl.cpp at a known answer of the device.
use rfid_tool.Base.{ℕ, ◌+◌, ℤ, pos, ◌≡◌, refl, ap, ◌∙◌, ◌^◌, ◌<◌, arith, Bool, true, false, u16}
use rfid_tool.Base.{List, [], ◌∷◌, length, take, drop}
use rfid_tool.HostUsb.{
  UsbDevice, Driver, Error, Result, ok, err, Action, lift, ◌>>=◌, check_connection, check_response,
  do_transfer_rx, do_transfer_tx,
}

-- What the caller gets: the bytes, or the error of the check.
abbrev pub checked : {A B : Type 0} → Result A → B → Result B
checked (ok a) b = ok b
checked (err e) b = err e

module _ (D : UsbDevice) where
  abbrev answered : {A : Type 0} → A × D.State → Action D.State A
  answered q s = (ok q.0, q.1)

  checked-lift :
      {A B : Type 0} (r : Result A) (b : B) (s : D.State)
      → (lift r >>= λ _. lift (ok b)) s ≡ (checked r b, s)
  checked-lift (ok a) b s = refl
  checked-lift (err e) b s = refl

  -- A receiving transfer with a result code in front.
  pub do_transfer_rx-answer :
      (d : Driver) (size index value command : ℕ) (s s' : D.State) (returned : ℤ) (buffer : List ℕ)
      → check_connection d ≡ ok tt
      → D.control_in command value index (u16 (size + 1)) s ≡ ((returned, buffer), s')
      → do_transfer_rx D d size index value command true s ≡ (
        checked (check_response buffer (u16 (size + 1)) returned true) (take size (drop 1 buffer)),
        s',
      )
  unfolding do_transfer_rx
  do_transfer_rx-answer d size index value command s s' returned buffer ready answer =
      let n = u16 (size + 1) in
      let transfer : Action D.State (ℤ × List ℕ) → Action D.State (List ℕ) = λ call. call >>= λ r.
      lift (check_response r.1 n r.0 true) >>= λ _. lift (ok (take size (drop 1 r.1))) in
      ap (λ c. (lift c >>= λ _. transfer (answered (D.control_in command value index n s))) s) ready
      ∙ (ap (λ q. transfer (answered q) s) answer
          ∙ checked-lift (check_response buffer n returned true) (take size (drop 1 buffer)) s')

  -- Without a connection to a supported device there is an error, and nothing is sent.
  pub do_transfer_rx-refused :
      (d : Driver) (size index value command : ℕ) (check_rc : Bool) (s : D.State) (e : Error)
      → check_connection d ≡ err e
      → do_transfer_rx D d size index value command check_rc s ≡ (err e, s)
  unfolding do_transfer_rx
  do_transfer_rx-refused d size index value command check_rc s e refused = rw refused refl

  -- And without.
  pub do_transfer_rx-bytes :
      (d : Driver) (size index value command : ℕ) (s s' : D.State) (returned : ℤ) (buffer : List ℕ)
      → check_connection d ≡ ok tt
      → D.control_in command value index size s ≡ ((returned, buffer), s')
      → do_transfer_rx D d size index value command false s
        ≡ (checked (check_response buffer size returned false) (take size buffer), s')
  unfolding do_transfer_rx
  do_transfer_rx-bytes d size index value command s s' returned buffer ready answer =
      let transfer : Action D.State (ℤ × List ℕ) → Action D.State (List ℕ) = λ call.
        call >>= λ r. lift (check_response r.1 size r.0 false) >>= λ _. lift (ok (take size r.1)) in
      ap (λ c. (lift c >>= λ _. transfer (answered (D.control_in command value index size s))) s)
        ready
      ∙ (ap (λ q. transfer (answered q) s) answer
          ∙ checked-lift (check_response buffer size returned false) (take size buffer) s')

  pub do_transfer_tx-answer :
      (d : Driver) (buffer : List ℕ) (index value command : ℕ) (s s' : D.State) (returned : ℤ)
      → check_connection d ≡ ok tt
      → D.control_out command value index buffer s ≡ (returned, s')
      → do_transfer_tx D d buffer index value command s
        ≡ (check_response [] (length buffer) returned false, s')
  unfolding do_transfer_tx
  do_transfer_tx-answer d buffer index value command s s' returned ready answer =
      let transfer : Action D.State ℤ → Action D.State (Unit {0}) =
        λ call. call >>= λ r. lift (check_response [] (length buffer) r false) in
      ap (λ c. (lift c >>= λ _. transfer (answered (D.control_out command value index buffer s))) s)
        ready
      ∙ ap (λ q. transfer (answered q) s) answer
      ∙ whole (check_response [] (length buffer) returned false)
    where
      whole : (r : Result (Unit {0})) → (lift r s') ≡ (r, s')
      whole r = refl

  -- Where the code is `RC_OK` and as many bytes as wanted were sent.
  pub do_transfer_rx-ok :
      (d : Driver) (size index value command : ℕ) (s s' : D.State) (bytes : List ℕ)
      → check_connection d ≡ ok tt
      → size + 1 < 2 ^ 16
      → D.control_in command value index (size + 1) s ≡ ((pos (size + 1), 0 ∷ bytes), s')
      → do_transfer_rx D d size index value command true s ≡ (ok (take size bytes), s')
  unfolding check_response
  do_transfer_rx-ok d size index value command s s' bytes ready bound answer =
      let whole : u16 (size + 1) ≡ size + 1 = omega (arith, bound) in
      let called = ap (λ n. D.control_in command value index n s) whole ∙ answer in
      do_transfer_rx-answer d size index value command s s' (pos (size + 1)) (0 ∷ bytes) ready
        called
      ∙ ap (λ c. (checked c (take size bytes), s')) accepted
    where
      accepted : check_response (0 ∷ bytes) (u16 (size + 1)) (pos (size + 1)) true ≡ ok tt
      accepted = ground (arith)
