-- ===== src/System/Writing.antt =====
-- `putSamples` of rfid-tool/src/rfid/impl/InterfaceUsbImpl.cpp on the firmware.
use mathlib.Core.Path.{subst}
use rfid_tool.Base.{ℕ, ◌+◌, ◌*◌, ◌≤◌, ◌≡◌, ◌≢◌, refl, sym, ap, ◌∙◌, arith, pos}
use rfid_tool.Base.{true, false, some, List, [], ◌∷◌, ◌++◌, length, take}
use rfid_tool.Firmware.{Firmware, idle, adc_lo, adc_hi}
use rfid_tool.Firmware.Edge.{AllUpTo, IsSending, on_starting-IsWaiting, conversions-falling}
use rfid_tool.Firmware.MainLoop.{poll, on_starting}
use rfid_tool.Firmware.Sampler.{conversions}
use rfid_tool.Firmware.Setup.{usb_function_setup, handle, respond, start_transfer}
use rfid_tool.Firmware.Setup.Loading.{Loaded, write_all-Loaded}
use rfid_tool.Firmware.Transfer.{
  IsSent, answer_status-idle, playback-IsSent, poll-starting, pulses_of,
}
use rfid_tool.Firmware.Usb.{Target, target_size, write_target, contents}
use rfid_tool.HostUsb.{
  UsbDevice, Driver, ok, check_connection, check_response, do_transfer_tx, do_transfer_rx,
}
use rfid_tool.HostUsb.Send.{send_flags, send_timeout}
use rfid_tool.HostUsb.Transfers.{do_transfer_tx-answer, do_transfer_rx-ok}
use rfid_tool.System.{IsAttached, HasEdge, request_for, periods}
use rfid_tool.Firmware.{IsReady}

all_sent : (n : ℕ) → check_response [] n (pos n) false ≡ ok tt
unfolding check_response
all_sent n = ground arith

module _ {D : UsbDevice} (a : IsAttached D) where
  -- A whole array is written.
  pub upload :
      (d : Driver) (t : Target) (command : ℕ) (bytes : List ℕ) (s : D.State)
      → check_connection d ≡ ok tt
      → write_target command ≡ some t
      → length bytes ≡ target_size t
      → length (contents (a.view s) t) ≡ target_size t
      → (s' : D.State) × (do_transfer_tx D d bytes 0 0 command s ≡ (ok tt, s'))
        × (a.played s' ≡ a.played s)
        × Loaded t command bytes (a.view s) (a.view s')
  upload d t command bytes s ready w whole size =
      let (s', packets, split, out, run, quiet) =
        a.takes command 0 0 bytes t s w (omega (arith, whole)) in
      let loaded =
        write_all-Loaded packets (a.view s) (a.view s') t (request_for command 0 0) w size
          (ap length split ∙ whole) run in
      (
        s',
        do_transfer_tx-answer D d bytes 0 0 command s s' (pos (length bytes)) ready out
            ∙ ap (λ c. (c, s')) (all_sent (length bytes)),
        quiet,
        subst (λ b. Loaded t command b (a.view s) (a.view s')) split loaded,
      )

-- The device once a transmission was asked for.
abbrev pub started : ℕ → ℕ → Firmware → Firmware
started value index f = (usb_function_setup f (request_for 9 value index)).0

abbrev pub asked : Firmware → Firmware
asked f = started send_timeout send_flags f

asked-IsSending :
    (f : Firmware) (lows : List ℕ) (high : ℕ)
    → IsReady f
    → AllUpTo adc_lo lows
    → length lows ≤ 21248
    → adc_hi ≤ high
    → IsSending (asked f) (conversions (on_starting (asked f)) (lows ++ high ∷ []))
unfolding usb_function_setup handle respond start_transfer
asked-IsSending f lows high r below soon above =
    let (waiting, left) = on_starting-IsWaiting true (asked f) refl refl refl in
    conversions-falling (asked f) (on_starting (asked f)) lows high waiting
      (subst (λ v. AllUpTo v lows) (sym r.low) below) (omega (arith, left, soon))
      (omega (arith, r.high, above)) (omega (arith, r.low, r.high))

-- A transmission and a status request leave the arrays and the thresholds.
pub asked-IsReady :
    (f g : Firmware) (bytes : List ℕ) → IsReady f → IsSent (asked f) g → IsReady (respond g bytes).0
unfolding usb_function_setup handle respond start_transfer
asked-IsReady f g bytes r k = record {
  buffer = ap length k.buffer ∙ r.buffer;
  vector = ap length k.vector ∙ r.vector;
  low = k.low ∙ r.low;
  high = k.high ∙ r.high;
}

-- The answer to a status request about a transfer that is done.
status-answer :
    (id : ℕ) (g : Firmware)
    → g.ctx.state ≡ idle
    → g.ctx.timed_out ≡ false
    → g.ctx.id ≡ id
    → (high low : ℕ) × (usb_function_setup g (request_for 10 0 id)
        ≡ respond g (0 ∷ 1 ∷ high ∷ low ∷ []))
unfolding usb_function_setup handle
status-answer id g state timed_out same = answer_status-idle id g state timed_out same

module _ {D : UsbDevice} (a : IsAttached D) where
  -- The request to start a transfer is answered with the number of the transfer.
  pub start-asked :
      (d : Driver) (value index : ℕ) (s : D.State)
      → check_connection d ≡ ok tt
      → (s' : D.State) × (do_transfer_rx D d 1 index value 9 true s
          ≡ (ok ((started value index (a.view s)).ctx.id ∷ []), s'))
        × (a.view s' ≡ started value index (a.view s))
        × (a.played s' ≡ a.played s)
  unfolding usb_function_setup handle respond
  start-asked d value index s ready =
      let (s', answer, seen, quiet) = a.answers 9 value index 2 s (omega arith) (omega arith) in
      (
        s',
        do_transfer_rx-ok D d 1 index value 9 s s' ((started value index (a.view s)).ctx.id ∷ [])
            ready (omega arith) answer,
        seen,
        quiet,
      )

  -- The host then hears that it is.
  pub status-done :
      (d : Driver) (id : ℕ) (s : D.State)
      → check_connection d ≡ ok tt
      → (a.view s).ctx.state ≡ idle
      → (a.view s).ctx.timed_out ≡ false
      → (a.view s).ctx.id ≡ id
      → (s' : D.State) × (high low : ℕ) × (do_transfer_rx D d 3 id 0 10 true s
          ≡ (ok (1 ∷ high ∷ low ∷ []), s'))
        × (a.view s' ≡ (respond (a.view s) (0 ∷ 1 ∷ high ∷ low ∷ [])).0)
        × (a.played s' ≡ a.played s)
  unfolding respond
  status-done d id s ready state timed_out same =
      let (high, low, reply) = status-answer id (a.view s) state timed_out same in
      let (s', answer, seen, quiet) =
        a.answers 10 0 id 4 s (rw reply (omega arith)) (rw reply (omega arith)) in
      let told = answer ∙ ap (λ q. ((pos q.1, take q.1 q.0.response), s')) reply in
      (
        s',
        high,
        low,
        do_transfer_rx-ok D d 3 id 0 10 s s' (1 ∷ high ∷ low ∷ []) ready (omega arith) told,
        seen ∙ ap (λ q. q.0) reply,
        quiet,
      )

module _ {D : UsbDevice} (a : IsAttached D) (e : HasEdge a) where
  -- During the sleep everything is played.
  pub sleep-asked :
      (us : ℕ) (f : Firmware) (s : D.State)
      → a.view s ≡ asked f
      → IsReady f
      → f.command ≢ 2
      → a.delay s + 8 * periods (pulses_of f) ≤ us
      → (a.played (D.usleep us s) ≡ a.played s ++ pulses_of f)
        × IsSent (asked f) (a.view (D.usleep us s))
  unfolding usb_function_setup handle respond start_transfer
  sleep-asked us f s seen r c fits =
      let volts = a.heard s in
      let sending : IsSending (asked f) (conversions (on_starting (asked f)) volts) =
        subst (λ v. IsSending (asked f) (conversions (on_starting (asked f)) v)) (sym (e.heard s))
          (asked-IsSending f (e.lows s) (e.high s) r (e.below s) (e.soon s) (e.above s)) in
      let (g, last, pulses, k) =
        playback-IsSent 385 (asked f) (conversions (on_starting (asked f)) volts) (omega arith)
          r.buffer c refl sending in
      let (after, played) =
        a.waits us (on_starting (asked f)) g s (ap poll seen ∙ poll-starting (asked f) refl c)
          sending.state (omega (arith, fits, ap periods pulses)) last in
      (played ∙ ap (λ ps. a.played s ++ ps) pulses, subst (λ h. IsSent (asked f) h) (sym after) k)
