-- ===== src/System/Sending.antt =====
-- `putSamples` of rfid-tool/src/rfid/impl/InterfaceUsbImpl.cpp on the firmware: what is played.
use mathlib.Core.Path.{subst}
use rfid_tool.Base.{ℕ, ◌*◌, ◌-◌, ◌≤◌, ◌≡◌, ◌≢◌, refl, sym, ap, ap₂, ◌∙◌, arith}
use rfid_tool.Base.{
  true, false, List, [], ◌∷◌, ◌++◌, map, length, replicate, length-append, length-replicate, suc,
  u8, get_or, ltb, Bool, if◌then◌else◌,
}
use rfid_tool.Firmware.Transfer.{pulses_of}
use rfid_tool.Firmware.Transmitter.Playback.{played_of, before_end, nibbles}
use rfid_tool.Firmware.Usb.{widths, data_buffer}
use rfid_tool.HostUsb.{
  UsbDevice, Driver, Result, ok, err, Action, lift, ◌>>=◌, ◌>>◌, too_many_pulses, check_connection,
  do_transfer_tx, do_transfer_rx, sleep,
}
use rfid_tool.HostUsb.Receive.{run_transfer, check_status}
use rfid_tool.HostUsb.Send.{
  send_flags, send_timeout, pulses_loop, pulse_vector, pack_loop, send_pulses, put_samples,
}
use rfid_tool.HostUsb.Send.Pulses.{AllWidths, sample_pulse, trailer, pack_loop-pulses}
use rfid_tool.Interface.{Sample}
use rfid_tool.System.{IsAttached, HasEdge, periods}
use rfid_tool.Firmware.{IsReady}
use rfid_tool.System.Writing.{upload, start-asked, sleep-asked, status-done, asked, asked-IsReady}

-- A driver for a device with the buffers of the firmware.
pub record IsOpen (d : Driver) : Type 0 where
  pub ready : check_connection d ≡ ok tt
  pub widths_size : d.pulse_vector_size ≡ 7
  pub buffer_size : d.sample_vector_size ≡ 192

length-pulse_vector : (pulses : List ℕ) → length pulses ≤ 7 → length (pulse_vector 7 pulses) ≡ 7
unfolding pulse_vector
length-pulse_vector pulses few = omega (
  arith,
  length-append {0} (map u8 pulses) (replicate (7 - length pulses) 0),
  length-replicate {A = ℕ} (7 - length pulses) 0,
  length-map_u8 pulses,
)
  where
    length-map_u8 : (xs : List ℕ) → length (map u8 xs) ≡ length xs
    length-map_u8 [] = refl
    length-map_u8 (x ∷ xs) = ap suc (length-map_u8 xs)

module _ {D : UsbDevice} (a : IsAttached D) (e : HasEdge a) where
  transmit :
      (d : Driver) (s : D.State)
      → check_connection d ≡ ok tt
      → IsReady (a.view s)
      → (a.view s).command ≢ 2
      → 8 * periods (pulses_of (a.view s)) ≤ 400000
      → (s' : D.State) × (run_transfer D d send_flags send_timeout s ≡ (ok tt, s'))
        × (a.played s' ≡ a.played s ++ pulses_of (a.view s))
        × IsReady (a.view s')
  unfolding run_transfer check_status
  transmit d s ready r c fits =
      let (s1, begun, seen, quiet) = start-asked a d send_timeout send_flags s ready in
      let s2 = D.usleep (500 * 1000) s1 in
      let (played, sent) =
        sleep-asked a e (500 * 1000) (a.view s) s1 seen r c (omega (arith, e.prompt s1)) in
      let (s3, high, low, told, after, silent) =
        status-done a d (asked (a.view s)).ctx.id s2 ready sent.state sent.timed_out sent.id in
      let ask : Result (List ℕ) × D.State → Result (Unit {0}) × D.State = λ q.
        ((λ _. q) >>= λ started.
        sleep D (500 * 1000)
        >> (do_transfer_rx D d 3 (get_or started 0 0) 0 10 true >>= λ status.
            lift (check_status status)))
          s in
      let conclude : Result (List ℕ) × D.State → Result (Unit {0}) × D.State =
        λ q. ((λ _. q) >>= λ status. lift (check_status status)) s2 in
      (
        s3,
        ap ask begun ∙ ap conclude told,
        silent ∙ (played ∙ ap (λ ps. ps ++ pulses_of (a.view s)) quiet),
        subst (λ f. IsReady f) (sym after)
            (asked-IsReady (a.view s) (a.view s2) (0 ∷ 1 ∷ high ∷ low ∷ []) r sent),
      )

  -- Samples whose packing is known.
  pub put_packed :
      (d : Driver) (ss : List Sample) (buffer : List ℕ) (s : D.State)
      → IsOpen d
      → IsReady (a.view s)
      → let pulses = pulses_loop ss [] in
        length pulses ≤ 7
        → pack_loop pulses ss 0 (replicate 192 0xff) ≡ ok buffer
        → length buffer ≡ 192
        → 8 * periods (map (played_of (pulse_vector 7 pulses)) (before_end (nibbles buffer)))
          ≤ 400000
        → (s' : D.State) × (put_samples D d ss s ≡ (ok tt, s'))
          × (a.played s'
              ≡ a.played s ++ map (played_of (pulse_vector 7 pulses)) (before_end (nibbles buffer)))
          × IsReady (a.view s')
  unfolding put_samples send_pulses
  put_packed d ss buffer s o r few pack size time =
      let pulses = pulses_loop ss [] in
      let vector = pulse_vector 7 pulses in
      let (s1, out1, quiet1, l1) =
        upload a d widths 7 vector s o.ready refl (length-pulse_vector pulses few) r.vector in
      let (s2, out2, quiet2, l2) =
        upload a d data_buffer 5 buffer s1 o.ready refl size (ap length l1.rest ∙ r.buffer) in
      let loaded : IsReady (a.view s2) = record {
        buffer = ap length l2.array ∙ size;
        vector = ap length (l2.rest ∙ l1.array) ∙ length-pulse_vector pulses few;
        low = l2.low ∙ (l1.low ∙ r.low);
        high = l2.high ∙ (l1.high ∙ r.high);
      } in
      let same : pulses_of (a.view s2) ≡ map (played_of vector) (before_end (nibbles buffer)) =
        ap₂ (λ v b. map (played_of v) (before_end (nibbles b))) (l2.rest ∙ l1.array) l2.array in
      let (s3, done, played, ready) =
        transmit d s2 o.ready loaded (omega (arith, l2.same))
          (omega (arith, time, ap periods same)) in
      let fits : ltb 7 (length pulses) ≡ false = ground (arith, few) in
      let send : Action D.State (Unit {0}) = run_transfer D d send_flags send_timeout in
      let write : Result (List ℕ) → Action D.State (Unit {0}) =
        λ p. lift p >>= λ b. do_transfer_tx D d b 0 0 5 >> send in
      let begin : ℕ → ℕ → Action D.State (Unit {0}) = λ v n.
        do_transfer_tx D d (pulse_vector v pulses) 0 0 7
        >> write (pack_loop pulses ss 0 (replicate n 0xff)) in
      let chosen : put_samples D d ss s ≡ begin 7 192 s =
        ap₂ (λ v n. (if ltb v (length pulses) then lift (err too_many_pulses) else begin v n) s)
          o.widths_size o.buffer_size
        ∙ ap (λ (b : Bool). (if b then lift (err too_many_pulses) else begin 7 192) s) fits in
      (
        s3,
        chosen
            ∙ (ap (λ q. ((λ _. q) >> write (pack_loop pulses ss 0 (replicate 192 0xff))) s) out1
                ∙ (ap (λ p. write p s1) pack ∙ (ap (λ q. ((λ _. q) >> send) s1) out2 ∙ done))),
        played
            ∙ ap₂ (λ p ps. p ++ ps) (quiet2 ∙ quiet1)
                (ap₂ (λ v b. map (played_of v) (before_end (nibbles b))) (l2.rest ∙ l1.array)
                  l2.array),
        ready,
      )

  -- On a ready device that hears an edge within 100 milliseconds of each sleep of the host, with a
  -- driver that is connected and knows its buffers: samples of at most seven different widths, each
  -- from 1 to 255 periods, and no more than 384, where what is played of them, with the low pulse below,
  -- lasts at most 400 milliseconds, at 8 microseconds for a period. `putSamples` succeeds within its
  -- sleep of 500 milliseconds, and the firmware's transmitter plays exactly these samples in order, and
  -- one low pulse more where their number is odd. The device is ready again.
  pub put_samples-played :
      (d : Driver) (ss : List Sample) (s : D.State)
      → IsOpen d
      → IsReady (a.view s)
      → length (pulses_loop ss []) ≤ 7
      → AllWidths ss
      → length ss ≤ 384
      → 8 * periods (map sample_pulse ss ++ trailer (pulses_loop ss []) ss) ≤ 400000
      → (s' : D.State) × (put_samples D d ss s ≡ (ok tt, s'))
        × (a.played s' ≡ a.played s ++ (map sample_pulse ss ++ trailer (pulses_loop ss []) ss))
        × IsReady (a.view s')
  put_samples-played d ss s o r few wide room time =
      let (buffer, pack, plays, size) = pack_loop-pulses ss 192 few wide room (omega arith) in
      let (s', done, played, ready) =
        put_packed d ss buffer s o r few pack size (omega (arith, time, ap periods plays)) in
      (s', done, played ∙ ap (λ ps. a.played s ++ ps) plays, ready)
