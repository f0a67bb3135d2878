-- ===== src/Firmware/Reception.antt =====
-- A whole reception of firmware/src/main.c: its conversions after the edge, and its end.
use rfid_tool.Base.{ℕ, suc, ◌≡◌, ◌≢◌, refl, sym, ap, ◌∙◌, arith}
use rfid_tool.Base.{Bool, false, some, List, [], ◌∷◌, length}
use rfid_tool.Firmware.{Firmware, idle, finished, prescaller_stop}
use rfid_tool.Firmware.Edge.{IsReceiving}
use rfid_tool.Firmware.MainLoop.{is_waiting, poll, on_finished}
use rfid_tool.Firmware.Sampler.{
  conversion, conversions, compare_signal, on_signal, record_signal, store_signal,
}
use rfid_tool.Firmware.Sampler.Bytes.{byte_bits, length-byte_bits}
use rfid_tool.Firmware.Sampler.Recording.{next_signal, heard, heard-same, conversions-recording}
use rfid_tool.Firmware.Transfer.{on_finished-idle}

-- What recording a signal leaves alone.
record Stays (f g : Firmware) : Type 0 where
  command : g.command ≡ f.command
  id : g.ctx.id ≡ f.ctx.id
  timed_out : g.ctx.timed_out ≡ f.ctx.timed_out
  vector : g.sample_vector ≡ f.sample_vector
  high : g.adc_hi_val ≡ f.adc_hi_val
  low : g.adc_low_val ≡ f.adc_low_val
  past_edge : is_waiting g.ctx.state ≡ false

conversion-Stays :
    (f : Firmware) (v : ℕ) → is_waiting f.ctx.state ≡ false → Stays f (conversion f v)
unfolding conversion compare_signal on_signal record_signal store_signal prescaller_stop
conversion-Stays f v h = ground arith

conversions-Stays :
    (vs : List ℕ) (f : Firmware) → is_waiting f.ctx.state ≡ false → Stays f (conversions f vs)
conversions-Stays [] f h = record {
  command = refl;
  id = refl;
  timed_out = refl;
  vector = refl;
  high = refl;
  low = refl;
  past_edge = h;
}
conversions-Stays (v ∷ vs) f h =
    let one = conversion-Stays f v h in
    let rest = conversions-Stays vs (conversion f v) one.past_edge in
    record {
      command = rest.command ∙ one.command;
      id = rest.id ∙ one.id;
      timed_out = rest.timed_out ∙ one.timed_out;
      vector = rest.vector ∙ one.vector;
      high = rest.high ∙ one.high;
      low = rest.low ∙ one.low;
      past_edge = rest.past_edge;
    }

length-heard : (f : Firmware) (last : ℕ) (vs : List ℕ) → length (heard f last vs) ≡ length vs
length-heard f last [] = refl
length-heard f last (v ∷ vs) = ap suc (length-heard f (next_signal f last v) vs)

-- The device after a reception that it began as `f`.
pub record IsReceived (f g : Firmware) (signals : List Bool) : Type 0 where
  pub state : g.ctx.state ≡ idle
  pub timed_out : g.ctx.timed_out ≡ false
  pub id : g.ctx.id ≡ f.ctx.id
  pub bits : byte_bits g.io_buffer ≡ signals
  pub size : length g.io_buffer ≡ 192
  pub vector : g.sample_vector ≡ f.sample_vector
  pub high : g.adc_hi_val ≡ f.adc_hi_val
  pub low : g.adc_low_val ≡ f.adc_low_val

pub conversions-IsReceived :
    (f g : Firmware) (v : ℕ) (vs : List ℕ)
    → IsReceiving f g
    → length vs ≡ 1535
    → length f.io_buffer ≡ 192
    → f.command ≢ 2
    → f.ctx.timed_out ≡ false
    → (h : Firmware) × (poll (conversions g (v ∷ vs)) ≡ some h)
      × ((conversions g (v ∷ vs)).ctx.state ≡ finished)
      × IsReceived f h (heard f 0 (v ∷ vs))
unfolding on_finished prescaller_stop
conversions-IsReceived f g v vs k n size c t =
    let r =
      conversions-recording v vs g k.state k.offset (omega (arith, k.len, n))
        (omega (arith, k.len, size, ap length k.buffer)) (omega (arith, k.len)) in
    let last = conversions g (v ∷ vs) in
    let stays = conversions-Stays (v ∷ vs) g (ap is_waiting k.state) in
    let signals : byte_bits last.io_buffer ≡ heard f 0 (v ∷ vs) =
      r.bits ∙ (ap (λ b. heard g b (v ∷ vs)) k.signal ∙ heard-same f g 0 (v ∷ vs) k.high k.low) in
    (
      on_finished last,
      on_finished-idle last r.state (λ e. c (sym (stays.command ∙ k.command) ∙ e)),
      r.state,
      record {
        state = refl;
        timed_out = stays.timed_out ∙ (k.timed_out ∙ t);
        id = stays.id ∙ k.id;
        bits = signals;
        size = omega (
          arith,
          length-byte_bits last.io_buffer,
          ap length signals,
          length-heard f 0 (v ∷ vs),
          n,
        );
        vector = stays.vector ∙ k.vector;
        high = stays.high ∙ k.high;
        low = stays.low ∙ k.low;
      },
    )
