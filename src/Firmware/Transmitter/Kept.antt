-- ===== src/Firmware/Transmitter/Kept.antt =====
-- What the transmitter of firmware/src/main.c leaves alone.
use rfid_tool.Base.{ℕ, ◌≡◌, refl, ◌∙◌, arith}
use rfid_tool.Base.{List, Bool-cases, inl, inr, zero, suc}
use rfid_tool.Firmware.{Firmware, prescaller_stop}
use rfid_tool.Firmware.Transmitter.{timer_match, stop_tx, emit_pulse}
use rfid_tool.Firmware.Transmitter.Playback.{Played, after, is_finished, playback}

-- What a compare match leaves alone.
pub record Keeps (f g : Firmware) : Type 0 where
  pub command : g.command ≡ f.command
  pub id : g.ctx.id ≡ f.ctx.id
  pub timed_out : g.ctx.timed_out ≡ f.ctx.timed_out
  pub buffer : g.io_buffer ≡ f.io_buffer
  pub vector : g.sample_vector ≡ f.sample_vector
  pub high : g.adc_hi_val ≡ f.adc_hi_val
  pub low : g.adc_low_val ≡ f.adc_low_val

timer_match-Keeps : (f : Firmware) → Keeps f (timer_match f)
unfolding timer_match stop_tx emit_pulse prescaller_stop
timer_match-Keeps f = ground arith

after-Keeps :
    (f next : Firmware) (later : Firmware × List Played)
    → Keeps f next
    → Keeps f later.0
    → Keeps f (after next later).0
after-Keeps f next later one rest = elim (Bool-cases (is_finished next.ctx.state)) [
  | inl e ↦ rw (e, after) one
  | inr e ↦ rw (e, after) rest
]

pub playback-Keeps : (n : ℕ) (f : Firmware) → Keeps f (playback n f).0
playback-Keeps zero f = record {
  command = refl;
  id = refl;
  timed_out = refl;
  buffer = refl;
  vector = refl;
  high = refl;
  low = refl;
}
playback-Keeps (suc n) f =
    let one = timer_match-Keeps f in
    let rest = playback-Keeps n (timer_match f) in
    after-Keeps f (timer_match f) (playback n (timer_match f)) one (record {
      command = rest.command ∙ one.command;
      id = rest.id ∙ one.id;
      timed_out = rest.timed_out ∙ one.timed_out;
      buffer = rest.buffer ∙ one.buffer;
      vector = rest.vector ∙ one.vector;
      high = rest.high ∙ one.high;
      low = rest.low ∙ one.low;
    })
