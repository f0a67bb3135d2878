-- ===== src/Firmware/Transmitter/Playback.antt =====
-- What the transmitter of firmware/src/main.c plays from its buffer.
use mathlib.Core.Path.{subst}
use rfid_tool.Base.{ℕ, zero, suc, ◌+◌, ◌*◌, ◌/◌, ◌%◌, ◌^◌, ◌<◌, ◌≡◌, refl, sym, ap, ◌∙◌, arith}
use rfid_tool.Base.{Bool, true, false, ◌⊎◌, inl, inr, Bool-cases, ◌==◌, if◌then◌else◌}
use rfid_tool.Base.{List, [], ◌∷◌, map, length, get_or, drop, drop-all, u8, u16, ◌>>>◌, bit_and}
use rfid_tool.Bits.{bit_and-one}
use rfid_tool.DataUtils.Nibbles.{bit_and-low_nibble}
use rfid_tool.Firmware.{
  Firmware, State, idle, starting, wait_condition, rx, tx, finished, prescaller_stop,
}
use rfid_tool.Firmware.Transmitter.{stop_tx, pulse_idx, emit_pulse, timer_match}

-- What one match sets: the ticks until the next one, and whether the coil pin drives.
pub record Played : Type 0 where
  pub ocr0a : ℕ
  pub coil_output : Bool

abbrev pub is_finished : State → Bool
is_finished finished = true
is_finished idle = false
is_finished starting = false
is_finished wait_condition = false
is_finished rx = false
is_finished tx = false

-- What follows a match that leaves the device `next`, when the later ones do `later`.
abbrev pub after : Firmware → Firmware × List Played → Firmware × List Played
after next later = elim (is_finished next.ctx.state) [
  | true ↦ (next, [])
  | false ↦
      (later.0, record { ocr0a = next.prescaler.ocr0a; coil_output = next.coil_output } ∷ later.1)
]

-- Compare matches while the transfer lasts, at most `n`; what each of them set.
abbrev pub playback : ℕ → Firmware → Firmware × List Played
playback zero f = (f, [])
playback (suc n) f = after (timer_match f) (playback n (timer_match f))

-- The nibbles of a byte buffer, the low one of each byte first.
abbrev pub nibbles : List ℕ → List ℕ
nibbles [] = []
nibbles (b ∷ bs) = b % 16 ∷ b / 16 ∷ nibbles bs

-- A nibble names one of seven widths with its low three bits and the level with its highest.
abbrev pub played_of : List ℕ → ℕ → Played
played_of widths nibble = record {
  ocr0a = u8 (get_or widths (bit_and nibble 0x07) 0 + 255);
  coil_output = if bit_and nibble 0x08 == 0 then true else false;
}

-- All nibbles before the first that names no width.
abbrev pub before_end : List ℕ → List ℕ
before_end [] = []
before_end (n ∷ ns) = if bit_and n 0x07 == 0x07 then [] else n ∷ before_end ns

length-nibbles : (bs : List ℕ) → length (nibbles bs) ≡ 2 * length bs
length-nibbles [] = refl
length-nibbles (b ∷ bs) = omega (arith, length-nibbles bs)

abbrev nibble_at : List ℕ → ℕ → ℕ
nibble_at bs k =
    let byte = get_or bs (k >>> 1) 0 in if bit_and k 1 == 0 then bit_and byte 0x0f else byte >>> 4

nibble_at-suc : (b : ℕ) (bs : List ℕ) (k : ℕ) → nibble_at (b ∷ bs) (suc (suc k)) ≡ nibble_at bs k
nibble_at-suc b bs k =
    let half : suc (suc k) / 2 ≡ suc (k / 2) = omega arith in
    rw (bit_and-one (suc (suc k))) (rw (bit_and-one k) (rw half (ground arith)))

drop-nibbles :
    (bs : List ℕ) (k : ℕ)
    → k < length (nibbles bs)
    → drop k (nibbles bs) ≡ nibble_at bs k ∷ drop (suc k) (nibbles bs)
drop-nibbles [] k h = absurd (omega arith)
drop-nibbles (b ∷ bs) zero h = ground (arith, bit_and-low_nibble b)
drop-nibbles (b ∷ bs) (suc zero) h = refl
drop-nibbles (b ∷ bs) (suc (suc k)) h =
    drop-nibbles bs k (omega arith)
    ∙ ap (λ n. n ∷ drop (suc k) (nibbles bs)) (sym (nibble_at-suc b bs k))

-- The transfer is over, the timer stopped and the coil released.
pub record IsStopped (f : Firmware) : Type 0 where
  pub state : f.ctx.state ≡ finished
  pub released : f.coil_output ≡ false
  pub timer : f.prescaler.running ≡ false
  pub interrupt : f.prescaler.interrupt ≡ false

stop_tx-IsStopped : (f : Firmware) → IsStopped (stop_tx f)
unfolding stop_tx prescaller_stop
stop_tx-IsStopped f = record { state = refl; released = refl; timer = refl; interrupt = refl }

-- A run that the next match ends.
playback-stop :
    (n : ℕ) (f : Firmware)
    → timer_match f ≡ stop_tx f
    → ((playback (suc n) f).1 ≡ []) × IsStopped (playback (suc n) f).0
unfolding stop_tx prescaller_stop
playback-stop n f h =
    let run : playback (suc n) f ≡ (stop_tx f, []) = ap (λ next. after next (playback n next)) h in
    rw run (refl, stop_tx-IsStopped f)

after-live :
    (next : Firmware) (later : Firmware × List Played)
    → is_finished next.ctx.state ≡ false
    → after next later
      ≡ (later.0, record { ocr0a = next.prescaler.ocr0a; coil_output = next.coil_output } ∷ later.1)
after-live next later live = rw (live, after) refl

playback-pulse :
    (n : ℕ) (f : Firmware)
    → is_finished f.ctx.state ≡ false
    → timer_match f ≡ emit_pulse f (pulse_idx f)
    → playback (suc n) f ≡ (
      (playback n (emit_pulse f (pulse_idx f))).0,
      played_of f.sample_vector (pulse_idx f) ∷ (playback n (emit_pulse f (pulse_idx f))).1,
    )
unfolding emit_pulse
playback-pulse n f live h =
    ap (λ next. after next (playback n next)) h
    ∙ after-live (emit_pulse f (pulse_idx f)) (playback n (emit_pulse f (pulse_idx f))) live

-- The two outcomes of a match in the middle of a transfer.
timer_match-end :
    (f : Firmware)
    → (f.op_offset ≡ f.op_length) ⊎ ((bit_and (pulse_idx f) 0x07 == 0x07) ≡ true)
    → timer_match f ≡ stop_tx f
unfolding timer_match
timer_match-end f h = ground arith

timer_match-pulse :
    (f : Firmware)
    → f.op_offset < f.op_length
    → (bit_and (pulse_idx f) 0x07 == 0x07) ≡ false
    → timer_match f ≡ emit_pulse f (pulse_idx f)
unfolding timer_match
timer_match-pulse f h k = ground arith

playback-rest :
    (left n : ℕ) (f : Firmware)
    → left < n
    → f.op_offset + left ≡ f.op_length
    → f.op_length ≡ length (nibbles f.io_buffer)
    → f.op_length < 2 ^ 16
    → is_finished f.ctx.state ≡ false
    → ((playback n f).1
        ≡ map (played_of f.sample_vector) (before_end (drop f.op_offset (nibbles f.io_buffer))))
      × IsStopped (playback n f).0
unfolding pulse_idx emit_pulse
playback-rest left zero f h at len bound live = absurd (omega arith)
playback-rest zero (suc n) f h at len bound live =
    rw (drop-all (nibbles f.io_buffer) f.op_offset (omega arith))
      (playback-stop n f (timer_match-end f (inl (omega arith))))
playback-rest (suc left) (suc n) f h at len bound live =
    let widths = f.sample_vector in
    let ns = nibbles f.io_buffer in
    let idx = pulse_idx f in
    let next = emit_pulse f idx in
    let step : u16 (f.op_offset + 1) ≡ suc f.op_offset = omega arith in
    let rest = playback-rest left n next (omega arith) (omega arith) len bound live in
    rw (drop-nibbles f.io_buffer f.op_offset (omega arith))
      (elim (Bool-cases (bit_and idx 0x07 == 0x07)) [
        | inl last ↦ rw last (playback-stop n f (timer_match-end f (inr last)))
        | inr more ↦
            let run = playback-pulse n f live (timer_match-pulse f (omega arith) more) in
            rw more (
              ap (λ r. r.1) run
                  ∙ ap (λ ps. played_of widths idx ∷ ps)
                      (rest.0 ∙ ap (λ k. map (played_of widths) (before_end (drop k ns))) step),
              subst (λ r. IsStopped r.0) (sym run) rest.1,
            )
      ])

-- A sending transfer at the beginning of a buffer, with as many nibbles to send as the buffer has
-- (fewer than 65536), plays every nibble up to the first
-- without a width, or all of them: its width less one goes to the timer and its level to the coil.
-- It then ends: the timer and its interrupt are off and the coil is released. One match more
-- than there are nibbles is enough.
pub playback-nibbles :
    (n : ℕ) (f : Firmware)
    → f.op_length < n
    → f.op_offset ≡ 0
    → f.op_length ≡ 2 * length f.io_buffer
    → f.op_length < 2 ^ 16
    → f.ctx.state ≡ tx
    → ((playback n f).1 ≡ map (played_of f.sample_vector) (before_end (nibbles f.io_buffer)))
      × IsStopped (playback n f).0
playback-nibbles n f h start len bound live =
    let all =
      playback-rest f.op_length n f h (omega arith) (omega (arith, length-nibbles f.io_buffer))
        bound (ap is_finished live) in
    (
      all.0
          ∙ ap (λ k. map (played_of f.sample_vector) (before_end (drop k (nibbles f.io_buffer))))
              start,
      all.1,
    )
