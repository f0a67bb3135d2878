-- ===== src/System/Receiving.antt =====
-- `getSamples` of rfid-tool/src/rfid/impl/InterfaceUsbImpl.cpp on the firmware.
use mathlib.Core.Path.{subst}
use rfid_tool.Base.{ap₂, ◌*◌, ℕ, zero, suc, ◌+◌, ◌*◌, ◌≤◌, ◌≡◌, ◌≢◌, refl, sym, ap, ap₂, ◌∙◌, arith}
use rfid_tool.Base.{Bool, true, false, some, List, [], ◌∷◌, ◌++◌, length, get_or}
use rfid_tool.Bits.{bits_from, bits_from-bit_list, test_bit}
use rfid_tool.Firmware.{Firmware, finished, adc_lo, adc_hi}
use rfid_tool.Firmware.Edge.{AllUpTo, IsReceiving, on_starting-IsWaiting, conversions-IsReceiving}
use rfid_tool.Firmware.MainLoop.{poll, on_starting}
use rfid_tool.Firmware.Reception.{IsReceived, conversions-IsReceived}
use rfid_tool.Firmware.Sampler.{conversions}
use rfid_tool.Firmware.Sampler.Bytes.{byte_bits}
use rfid_tool.Firmware.Sampler.Recording.{heard, heard-same}
use rfid_tool.Firmware.Setup.{usb_function_setup, handle, respond, start_transfer}
use rfid_tool.Firmware.Transfer.{poll-starting}
use rfid_tool.HostUsb.{
  UsbDevice, Driver, Result, ok, lift, ◌>>=◌, ◌>>◌, check_connection, do_transfer_rx, sleep,
}
use rfid_tool.HostUsb.Receive.{run_transfer, check_status, receive_flags}
use rfid_tool.HostUsb.Received.{bits_of_bytes, bits_of_byte}
use rfid_tool.System.{IsAttached, HasEdge}
use rfid_tool.Firmware.{IsReady}
use rfid_tool.Firmware.MainLoop.{prepare, first_state}
use rfid_tool.Firmware.{prescaller_start}
use rfid_tool.System.Writing.{started, start-asked, status-done}

-- The host takes the bits of a byte as the firmware puts them.
bits_of_byte-bits_from :
    (left j byte : ℕ) → j + left ≤ 8 → bits_of_byte left j byte ≡ bits_from j left byte
unfolding bits_of_byte
bits_of_byte-bits_from zero j byte h = refl
bits_of_byte-bits_from (suc left) j byte h =
    ap (λ r. test_bit byte j ∷ r) (bits_of_byte-bits_from left (j + 1) byte (omega arith))

pub bits_of_bytes-byte_bits : (bytes : List ℕ) → bits_of_bytes bytes ≡ byte_bits bytes
unfolding bits_of_bytes byte_bits
bits_of_bytes-byte_bits [] = refl
bits_of_bytes-byte_bits (b ∷ bs) =
    ap₂ (λ x y. x ++ y) (bits_of_byte-bits_from 8 0 b (omega arith) ∙ bits_from-bit_list 8 b)
      (bits_of_bytes-byte_bits bs)

-- The device once a reception was asked for.
abbrev asked : Firmware → Firmware
asked f = started 60000 receive_flags f

asked-IsReceiving :
    (f : Firmware) (lows : List ℕ) (high : ℕ)
    → IsReady f
    → AllUpTo adc_lo lows
    → length lows ≤ 21248
    → adc_hi ≤ high
    → IsReceiving (asked f) (conversions (on_starting (asked f)) (lows ++ high ∷ []))
unfolding usb_function_setup handle respond start_transfer
asked-IsReceiving f lows high r below soon above =
    let (waiting, left) = on_starting-IsWaiting false (asked f) refl refl refl in
    conversions-IsReceiving (asked f) (on_starting (asked f)) lows high waiting
      (subst (λ v. AllUpTo v lows) (sym r.low) below) (omega (arith, left, soon))
      (omega (arith, r.high, above)) (omega (arith, r.low, r.high))

asked-IsReceived :
    (f g : Firmware) (signal : List ℕ)
    → IsReady f
    → f.command ≢ 2
    → IsReceiving (asked f) g
    → length signal ≡ 1536
    → (h : Firmware) × (poll (conversions g signal) ≡ some h)
      × ((conversions g signal).ctx.state ≡ finished)
      × IsReceived (asked f) h (heard f 0 signal)
unfolding usb_function_setup handle respond start_transfer
asked-IsReceived f g [] r c k n = absurd (omega (arith, n))
asked-IsReceived f g (v ∷ vs) r c k n =
    let (h, polled, done, i) =
      conversions-IsReceived (asked f) g v vs k (omega (arith, n)) r.buffer c refl in
    (
      h,
      polled,
      done,
      subst (λ bits. IsReceived (asked f) h bits) (heard-same f (asked f) 0 (v ∷ vs) refl refl) i,
    )

-- A reception and a status request leave the thresholds and the sizes.
received-IsReady :
    (f g h : Firmware) (bytes : List ℕ) (signals : List Bool)
    → IsReady f
    → IsReceived (asked f) g signals
    → h ≡ (respond g bytes).0
    → IsReady h × (byte_bits h.io_buffer ≡ signals)
unfolding usb_function_setup handle respond start_transfer
received-IsReady f g h bytes signals r k e = (
  record {
    buffer = ap (λ x. length x.io_buffer) e ∙ k.size;
    vector = ap (λ x. length x.sample_vector) e ∙ (ap length k.vector ∙ r.vector);
    low = ap (λ x. x.adc_low_val) e ∙ (k.low ∙ r.low);
    high = ap (λ x. x.adc_hi_val) e ∙ (k.high ∙ r.high);
  },
  ap (λ x. byte_bits x.io_buffer) e ∙ k.bits,
)

-- The state in which the host goes to sleep in `getSamples`: that after its request for a transfer.
abbrev pub asleep : (D : UsbDevice) → Driver → D.State → D.State
asleep D d s = (do_transfer_rx D d 1 receive_flags 60000 9 true s).1

-- A conversion comes in every eighth period.
prescaler_same : (f : Firmware) → (on_starting (asked f)).ctx.prescaler_value ≡ 8
unfolding on_starting prepare first_state prescaller_start usb_function_setup handle respond
    start_transfer
prescaler_same f = ground arith

module _ {D : UsbDevice} (a : IsAttached D) (e : HasEdge a) where
  sleep-listening :
      (us : ℕ) (f : Firmware) (s : D.State)
      → a.view s ≡ asked f
      → IsReady f
      → f.command ≢ 2
      → a.delay s + 98304 ≤ us
      → (a.played (D.usleep us s) ≡ a.played s)
        × IsReceived (asked f) (a.view (D.usleep us s)) (heard f 0 (a.signal s))
  unfolding usb_function_setup handle respond start_transfer
  sleep-listening us f s seen r c fits =
      let volts = a.heard s in
      let begun = on_starting (asked f) in
      let receiving : IsReceiving (asked f) (conversions begun volts) =
        subst (λ v. IsReceiving (asked f) (conversions (on_starting (asked f)) v)) (sym (e.heard s))
          (asked-IsReceiving f (e.lows s) (e.high s) r (e.below s) (e.soon s) (e.above s)) in
      let (h, polled, done, k) =
        asked-IsReceived f (conversions begun volts) (a.signal s) r c receiving (e.whole s) in
      let (after, quiet) =
        a.listens us begun h s (ap poll seen ∙ poll-starting (asked f) refl c) receiving.state
          (omega (arith, fits, ap₂ (λ (p n : ℕ). p * n) (prescaler_same f) (e.whole s))) done
          polled in
      (quiet, subst (λ g. IsReceived (asked f) g (heard f 0 (a.signal s))) (sym after) k)

  pub receive :
      (d : Driver) (s : D.State)
      → check_connection d ≡ ok tt
      → IsReady (a.view s)
      → (a.view s).command ≢ 2
      → (s1 s' : D.State) × (asleep D d s ≡ s1)
        × (run_transfer D d receive_flags 60000 s ≡ (ok tt, s'))
        × (a.played s' ≡ a.played s)
        × IsReady (a.view s')
        × (byte_bits (a.view s').io_buffer ≡ heard (a.view s) 0 (a.signal s1))
  unfolding run_transfer check_status
  receive d s ready r c =
      let (s1, begun, seen, quiet) = start-asked a d 60000 receive_flags s ready in
      let s2 = D.usleep (500 * 1000) s1 in
      let (silent, k) =
        sleep-listening (500 * 1000) (a.view s) s1 seen r c (omega (arith, e.prompt s1)) in
      let (s3, high, low, told, after, still) =
        status-done a d (asked (a.view s)).ctx.id s2 ready k.state k.timed_out k.id in
      let (r3, bits) =
        received-IsReady (a.view s) (a.view s2) (a.view s3) (0 ∷ 1 ∷ high ∷ low ∷ []) _ r k after in
      let ask : Result (List ℕ) × D.State → Result (Unit {0}) × D.State = λ q.
        ((λ _. q) >>= λ started.
        sleep D (500 * 1000)
        >> (do_transfer_rx D d 3 (get_or started 0 0) 0 10 true >>= λ status.
            lift (check_status status)))
          s in
      let conclude : Result (List ℕ) × D.State → Result (Unit {0}) × D.State =
        λ q. ((λ _. q) >>= λ status. lift (check_status status)) s2 in
      (
        s1,
        s3,
        ap (λ q. q.1) begun,
        ap ask begun ∙ ap conclude told,
        still ∙ (silent ∙ quiet),
        r3,
        bits,
      )
