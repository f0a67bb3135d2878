-- ===== src/Firmware/Transfer.antt =====
-- A whole transmission of firmware/src/main.c: the request, the edge it waits for, the pulses, and
-- the answer about its end.
use rfid_tool.Base.{ℕ, ◌<◌, ◌≤◌, ◌≡◌, ◌≢◌, refl, sym, ap, ap₂, ◌∙◌, arith, u8, ◌>>>◌, bit_and}
use rfid_tool.Base.{true, false, Option, none, some, List, map, length, get_or, take, ◌++◌, [], ◌∷◌}
use rfid_tool.Firmware.{Firmware, idle, starting, finished, prescaller_stop}
use rfid_tool.Firmware.Sampler.{conversions}
use rfid_tool.Firmware.Usb.{transfer_start, request_of}
use rfid_tool.Firmware.Setup.{
  SetupData, flag_set, start_transfer, answer_status, handle, usb_function_setup, respond,
}
use rfid_tool.Firmware.MainLoop.{on_starting, on_finished, transfer_step, poll}
use rfid_tool.Firmware.Transmitter.Playback.{
  Played, playback, nibbles, before_end, played_of, playback-nibbles,
}
use rfid_tool.Firmware.Transmitter.Kept.{Keeps, playback-Keeps}
use rfid_tool.Firmware.Edge.{IsSending, on_starting-IsWaiting, conversions-falling, AllUpTo}

-- The end of a transfer: the main loop makes the device idle.
pub on_finished-idle :
    (f : Firmware) → f.ctx.state ≡ finished → f.command ≢ 2 → poll f ≡ some (on_finished f)
unfolding poll transfer_step
on_finished-idle f h c = ground arith

-- The first two bytes of the answer to a status request about transfer `id`.
abbrev pub status_answer : Option Firmware → ℕ → Option (List ℕ)
status_answer none id = none
status_answer (some g) id =
    some (take 2 (usb_function_setup g (record { request = 10; value = 0; index = id })).0.response)

-- The device after a transmission that it began as `f`.
pub record IsSent (f g : Firmware) : Type 0 where
  pub state : g.ctx.state ≡ idle
  pub timed_out : g.ctx.timed_out ≡ false
  pub id : g.ctx.id ≡ f.ctx.id
  pub command : g.command ≡ f.command
  pub buffer : g.io_buffer ≡ f.io_buffer
  pub vector : g.sample_vector ≡ f.sample_vector
  pub high : g.adc_hi_val ≡ f.adc_hi_val
  pub low : g.adc_low_val ≡ f.adc_low_val

on_finished-IsSent :
    (f g : Firmware) → Keeps f g → f.ctx.timed_out ≡ false → IsSent f (on_finished g)
unfolding on_finished prescaller_stop
on_finished-IsSent f g k t = record {
  state = refl;
  timed_out = k.timed_out ∙ t;
  id = k.id;
  command = k.command;
  buffer = k.buffer;
  vector = k.vector;
  high = k.high;
  low = k.low;
}

-- What a status request about a transfer that is done is answered.
pub answer_status-idle :
    (id : ℕ) (g : Firmware)
    → g.ctx.state ≡ idle
    → g.ctx.timed_out ≡ false
    → g.ctx.id ≡ id
    → (high low : ℕ) × (answer_status g (record { request = 10; value = 0; index = id })
        ≡ respond g (0 ∷ 1 ∷ high ∷ low ∷ []))
unfolding answer_status
answer_status-idle id g state timed_out same =
    (u8 (g.op_offset >>> 8), bit_and g.op_offset 0xff, ground (arith, state, timed_out, same))

status_answer-IsSent :
    (f g : Firmware) → IsSent f g → status_answer (some g) f.ctx.id ≡ some (0 ∷ 1 ∷ [])
unfolding usb_function_setup handle respond
status_answer-IsSent f g k =
    let (high, low, e) = answer_status-idle f.ctx.id g k.state k.timed_out k.id in
    ap (λ r. some (take 2 r.0.response)) e

pub poll-starting :
    (f : Firmware) → f.ctx.state ≡ starting → f.command ≢ 2 → poll f ≡ some (on_starting f)
unfolding poll transfer_step
poll-starting f h c = ground arith

-- The voltages `volts`, then `n` compare matches, then the main loop and a status request about
-- transfer `id`: what is played, and the answer.
abbrev pub transmitted : ℕ → Option Firmware → List ℕ → ℕ → Option (List Played × Option (List ℕ))
transmitted n none volts id = none
transmitted n (some g) volts id =
    let r = playback n (conversions g volts) in some (r.1, status_answer (poll r.0) id)

-- What `f` plays after its edge, and how it is left.
abbrev pub pulses_of : Firmware → List Played
pulses_of f = map (played_of f.sample_vector) (before_end (nibbles f.io_buffer))

pub playback-IsSent :
    (n : ℕ) (f sender : Firmware)
    → 384 < n
    → length f.io_buffer ≡ 192
    → f.command ≢ 2
    → f.ctx.timed_out ≡ false
    → IsSending f sender
    → (g : Firmware) × (poll (playback n sender).0 ≡ some g)
      × ((playback n sender).1 ≡ pulses_of f)
      × IsSent f g
playback-IsSent n f sender h size c t k =
    let play =
      playback-nibbles n sender (omega (arith, k.len)) k.offset
        (k.len ∙ omega (arith, size, ap length k.buffer)) (omega (arith, k.len)) k.state in
    let kept = playback-Keeps n sender in
    let last = (playback n sender).0 in
    let whole : Keeps f last = record {
      command = kept.command ∙ k.command;
      id = kept.id ∙ k.id;
      timed_out = kept.timed_out ∙ k.timed_out;
      buffer = kept.buffer ∙ k.buffer;
      vector = kept.vector ∙ k.vector;
      high = kept.high ∙ k.high;
      low = kept.low ∙ k.low;
    } in
    (
      on_finished last,
      on_finished-idle last play.1.state (λ e. c (sym whole.command ∙ e)),
      play.0 ∙ ap₂ (λ v b. map (played_of v) (before_end (nibbles b))) k.vector k.buffer,
      on_finished-IsSent f last whole t,
    )

sent :
    (n : ℕ) (f g : Firmware) (volts : List ℕ)
    → 384 < n
    → length f.io_buffer ≡ 192
    → f.command ≢ 2
    → f.ctx.timed_out ≡ false
    → IsSending f (conversions g volts)
    → transmitted n (some g) volts f.ctx.id ≡ some (pulses_of f, some (0 ∷ 1 ∷ []))
sent n f g volts h size c t k =
    let (last, idle_again, pulses, end) = playback-IsSent n f (conversions g volts) h size c t k in
    ap₂ (λ ps a. some (ps, a)) pulses
      (ap (λ l. status_answer l f.ctx.id) idle_again ∙ status_answer-IsSent f last end)

-- A request to send on a falling edge, then voltages under the lower threshold for no longer than
-- the timeout (or none of them), then one above the upper: the pulses of the buffer, all of them or
-- those before the first nibble without a width, are played with the widths of the vector, and a status request with the id that was answered then
-- says that the transfer is done. The buffer has its 192 bytes, no reset is pending, the lower
-- threshold is under the upper, and the timer matches more often than the buffer has nibbles.
pub transmitted-setup :
    (n : ℕ) (f : Firmware) (rq : SetupData) (lows : List ℕ) (high : ℕ)
    → 384 < n
    → length f.io_buffer ≡ 192
    → f.command ≢ 2
    → rq.request ≡ 9
    → flag_set rq.index 0x4000 ≡ true
    → flag_set rq.index 0x1000 ≡ true
    → flag_set rq.index 0x2000 ≡ true
    → length lows ≤ rq.value
    → AllUpTo f.adc_low_val lows
    → f.adc_hi_val ≤ high
    → f.adc_low_val < f.adc_hi_val
    → transmitted n
        (poll (usb_function_setup f rq).0)
        (lows ++ high ∷ [])
        (get_or (usb_function_setup f rq).0.response 1 0)
      ≡ some (map (played_of f.sample_vector) (before_end (nibbles f.io_buffer)), some (0 ∷ 1 ∷ []))
unfolding start_transfer respond handle usb_function_setup
transmitted-setup n f rq lows high h size c request edge transmit falling timeout low above order =
    let started : Firmware = (handle transfer_start f rq).0 in
    let setup : usb_function_setup f rq ≡ handle transfer_start f rq =
      ap (λ k. handle (request_of k) f rq) request in
    let begun : poll started ≡ some (on_starting started) = poll-starting started refl c in
    let (waiting, left) = on_starting-IsWaiting true started edge transmit falling in
    let volts = lows ++ high ∷ [] in
    let sending =
      conversions-falling started (on_starting started) lows high waiting low (omega (arith, left))
        above order in
    ap (λ (q : Firmware × ℕ). transmitted n (poll q.0) volts (get_or q.0.response 1 0)) setup
    ∙ (ap (λ g. transmitted n g volts started.ctx.id) begun
        ∙ sent n started (on_starting started) volts h size c refl sending)
