-- ===== src/System/Listening.antt =====
-- What rfid-tool/src/main.cpp reads by way of the firmware.
use rfid_tool.Base.{ℕ, ◌≡◌, ◌≢◌, refl, sym, ap, ap₂, ◌∙◌, arith, pos}
use rfid_tool.Base.{false, List, length, take, take-length}
use rfid_tool.Firmware.Sampler.Recording.{heard}
use rfid_tool.Firmware.Setup.{usb_function_setup}
use rfid_tool.Firmware.Setup.Download.{read_all}
use rfid_tool.Firmware.Setup.RoundTrip.{selected-setup, request_of-read, read_all-selected}
use rfid_tool.Firmware.Usb.{data_buffer}
use rfid_tool.HostUsb.{
  UsbDevice, Driver, Result, ok, Action, lift, ◌>>=◌, ◌>>◌, check_connection, check_response,
  do_transfer_rx,
}
use rfid_tool.HostUsb.Receive.{get_samples}
use rfid_tool.HostUsb.Received.{bits_of_bytes, samples_of_bits}
use rfid_tool.HostUsb.Transfers.{checked, do_transfer_rx-bytes}
use rfid_tool.Interface.{Sample}
use rfid_tool.System.{IsAttached, HasEdge, request_for}
use rfid_tool.Firmware.{IsReady}
use rfid_tool.System.Receiving.{asleep, receive, bits_of_bytes-byte_bits}
use rfid_tool.System.Sending.{IsOpen}

buffer_accepted :
    (bytes : List ℕ)
    → length bytes ≡ 192
    → check_response bytes 192 (pos (length bytes)) false ≡ ok tt
unfolding check_response
buffer_accepted bytes n = ground (arith, n)

module _ {D : UsbDevice} (a : IsAttached D) where
  -- The host reads the buffer.
  download :
      (d : Driver) (s : D.State)
      → check_connection d ≡ ok tt
      → length (a.view s).io_buffer ≡ 192
      → (s' : D.State) × (do_transfer_rx D d 192 0 0 4 false s ≡ (ok (a.view s).io_buffer, s'))
        × (a.played s' ≡ a.played s)
  download d s ready size =
      let f = a.view s in
      let (s', lens, enough, (transfer, seen, quiet)) = a.gives 4 0 0 data_buffer s refl in
      let bytes : List ℕ = (read_all lens (usb_function_setup f (request_for 4 0 0)).0).1 in
      let all : bytes ≡ f.io_buffer =
        ap (λ q. (read_all lens q.0).1)
          (selected-setup f (request_for 4 0 0) (request_of-read 4 data_buffer refl))
        ∙ read_all-selected f data_buffer 4 lens refl size enough in
      let n : length bytes ≡ 192 = ap length all ∙ size in
      (
        s',
        do_transfer_rx-bytes D d 192 0 0 4 s s' (pos (length bytes)) bytes ready transfer
            ∙ (ap (λ c. (checked c (take 192 bytes), s')) (buffer_accepted bytes n)
                ∙ ap (λ b. (ok b, s'))
                    (ap (λ k. take k bytes) (sym n) ∙ (take-length bytes ∙ all))),
        quiet,
      )

module _ {D : UsbDevice} (a : IsAttached D) (e : HasEdge a) where
  -- `getSamples` succeeds and plays nothing. Its samples are made of the signals that the device hears
  -- after the edge, one bit for each voltage, in the state in which this call goes to sleep.
  pub get_samples-heard :
      (d : Driver) (s : D.State)
      → IsOpen d
      → IsReady (a.view s)
      → (a.view s).command ≢ 2
      → (s1 s' : D.State) × (asleep D d s ≡ s1)
        × (get_samples D d s ≡ (ok (samples_of_bits (heard (a.view s) 0 (a.signal s1))), s'))
        × (a.played s' ≡ a.played s)
  unfolding get_samples
  get_samples-heard d s o r c =
      let (s1, s2, slept, received, quiet, r2, bits) = receive a e d s o.ready r c in
      let (s3, read, silent) = download a d s2 o.ready r2.buffer in
      let finish : Action D.State (List ℕ) → Action D.State (List Sample) =
        λ k. k >>= λ bytes. lift (ok (samples_of_bits (bits_of_bytes bytes))) in
      let begin : ℕ → Result (Unit {0}) × D.State → Result (List Sample) × D.State =
        λ n q. ((λ _. q) >> finish (do_transfer_rx D d n 0 0 4 false)) s in
      let buffer = (a.view s2).io_buffer in
      (
        s1,
        s3,
        slept,
        ap₂ begin o.buffer_size received
            ∙ (ap (λ q. finish (λ _. q) s2) read
                ∙ ap (λ bs. (ok (samples_of_bits bs), s3)) (bits_of_bytes-byte_bits buffer ∙ bits)),
        silent ∙ quiet,
      )
