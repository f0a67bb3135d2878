-- ===== src/Firmware/Edge.antt =====
-- How a transfer of firmware/src/main.c that waits for a falling edge gets to send.
use mathlib.Core.Path.{subst}
use rfid_tool.Base.{◌==◌, Bool, refl, sym, if◌then◌else◌}
use rfid_tool.Base.{ℕ, ◌-◌, ◌<◌, ◌≤◌, ◌≡◌, arith}
use rfid_tool.Base.{true, false, List, length, ◌++◌, [], ◌∷◌}
use rfid_tool.Firmware.{Firmware, wait_condition, rx, tx, prescaller_start, prescaller_stop}
use rfid_tool.Firmware.Sampler.{conversions}
use rfid_tool.Firmware.Sampler.{
  compare_signal, edge_seen, begin_transfer, count_timeout, on_signal, conversion,
}
use rfid_tool.Firmware.MainLoop.{first_state, prepare, on_starting}

-- A transfer that waits for a falling edge, over the arrays of `s`: a transmission or not.
pub record IsWaiting (sends : Bool) (s g : Firmware) : Type 0 where
  pub state : g.ctx.state ≡ wait_condition
  pub offset : g.op_offset ≡ 0
  pub len : g.op_length ≡ (if sends then 384 else 1536)
  pub buffer : g.io_buffer ≡ s.io_buffer
  pub vector : g.sample_vector ≡ s.sample_vector
  pub transmit : g.ctx.transmit ≡ sends
  pub falling : g.ctx.falling_edge ≡ true
  pub signal : (g.adc_last_signal == 0) ≡ false
  pub high : g.adc_hi_val ≡ s.adc_hi_val
  pub low : g.adc_low_val ≡ s.adc_low_val
  pub command : g.command ≡ s.command
  pub id : g.ctx.id ≡ s.ctx.id
  pub timed_out : g.ctx.timed_out ≡ s.ctx.timed_out

pub on_starting-IsWaiting :
    (sends : Bool) (s : Firmware)
    → s.ctx.edge_start ≡ true
    → s.ctx.transmit ≡ sends
    → s.ctx.falling_edge ≡ true
    → IsWaiting sends s (on_starting s) × ((on_starting s).ctx.timeout ≡ s.ctx.timeout)
unfolding on_starting prepare first_state prescaller_start
on_starting-IsWaiting true s edge transmit falling = ground arith
on_starting-IsWaiting false s edge transmit falling = ground arith

-- The signal is 1 while the voltage is under the lower threshold.
conversion-low :
    (sends : Bool) (s g : Firmware) (adch : ℕ)
    → IsWaiting sends s g
    → adch ≤ s.adc_low_val
    → s.adc_low_val < s.adc_hi_val
    → 0 < g.ctx.timeout
    → IsWaiting sends s (conversion g adch) × ((conversion g adch).ctx.timeout ≡ g.ctx.timeout - 1)
unfolding conversion compare_signal on_signal edge_seen count_timeout
conversion-low sends s g adch w l order t = ground arith

-- The transmission begins, and conversions end.
pub record IsSending (s g : Firmware) : Type 0 where
  pub state : g.ctx.state ≡ tx
  pub offset : g.op_offset ≡ 0
  pub len : g.op_length ≡ 384
  pub buffer : g.io_buffer ≡ s.io_buffer
  pub vector : g.sample_vector ≡ s.sample_vector
  pub command : g.command ≡ s.command
  pub id : g.ctx.id ≡ s.ctx.id
  pub timed_out : g.ctx.timed_out ≡ s.ctx.timed_out
  pub adc : g.adc_running ≡ false
  pub high : g.adc_hi_val ≡ s.adc_hi_val
  pub low : g.adc_low_val ≡ s.adc_low_val

conversion-high :
    (s g : Firmware) (adch : ℕ)
    → IsWaiting true s g
    → s.adc_hi_val ≤ adch
    → IsSending s (conversion g adch)
unfolding conversion compare_signal on_signal edge_seen begin_transfer prescaller_start
    prescaller_stop
conversion-high s g adch w h = ground arith

abbrev pub AllUpTo : ℕ → List ℕ → Type 0
AllUpTo bound [] = Unit {0}
AllUpTo bound (v ∷ vs) = (v ≤ bound) × AllUpTo bound vs

-- While the voltage stays low the transfer waits.
conversions-low :
    (sends : Bool) (s g : Firmware) (lows : List ℕ)
    → IsWaiting sends s g
    → AllUpTo s.adc_low_val lows
    → length lows ≤ g.ctx.timeout
    → s.adc_low_val < s.adc_hi_val
    → IsWaiting sends s (conversions g lows)
conversions-low sends s g [] w l t order = w
conversions-low sends s g (v ∷ vs) w l t order =
    let (waiting, left) = conversion-low sends s g v w l.0 order (omega arith) in
    conversions-low sends s (conversion g v) vs waiting l.1 (omega (arith, left)) order

pub conversions-append :
    (g : Firmware) (vs ws : List ℕ) → conversions g (vs ++ ws) ≡ conversions (conversions g vs) ws
conversions-append g [] ws = refl
conversions-append g (v ∷ vs) ws = conversions-append (conversion g v) vs ws

pub conversions-falling :
    (s g : Firmware) (lows : List ℕ) (high : ℕ)
    → IsWaiting true s g
    → AllUpTo s.adc_low_val lows
    → length lows ≤ g.ctx.timeout
    → s.adc_hi_val ≤ high
    → s.adc_low_val < s.adc_hi_val
    → IsSending s (conversions g (lows ++ high ∷ []))
conversions-falling s g lows high w l t h order =
    subst (λ r. IsSending s r) (sym (conversions-append g lows (high ∷ [])))
      (conversion-high s (conversions g lows) high (conversions-low true s g lows w l t order) h)

-- The reception begins.
pub record IsReceiving (s g : Firmware) : Type 0 where
  pub state : g.ctx.state ≡ rx
  pub offset : g.op_offset ≡ 0
  pub len : g.op_length ≡ 1536
  pub buffer : g.io_buffer ≡ s.io_buffer
  pub vector : g.sample_vector ≡ s.sample_vector
  pub signal : g.adc_last_signal ≡ 0
  pub command : g.command ≡ s.command
  pub id : g.ctx.id ≡ s.ctx.id
  pub timed_out : g.ctx.timed_out ≡ s.ctx.timed_out
  pub high : g.adc_hi_val ≡ s.adc_hi_val
  pub low : g.adc_low_val ≡ s.adc_low_val

conversion-receives :
    (s g : Firmware) (adch : ℕ)
    → IsWaiting false s g
    → s.adc_hi_val ≤ adch
    → IsReceiving s (conversion g adch)
unfolding conversion compare_signal on_signal edge_seen begin_transfer prescaller_start
    prescaller_stop
conversion-receives s g adch w h = ground arith

pub conversions-IsReceiving :
    (s g : Firmware) (lows : List ℕ) (high : ℕ)
    → IsWaiting false s g
    → AllUpTo s.adc_low_val lows
    → length lows ≤ g.ctx.timeout
    → s.adc_hi_val ≤ high
    → s.adc_low_val < s.adc_hi_val
    → IsReceiving s (conversions g (lows ++ high ∷ []))
conversions-IsReceiving s g lows high w l t h order =
    subst (λ r. IsReceiving s r) (sym (conversions-append g lows (high ∷ [])))
      (conversion-receives s (conversions g lows) high (conversions-low false s g lows w l t order)
        h)
