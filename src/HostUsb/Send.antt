-- ===== src/HostUsb/Send.antt =====
-- `putSamples` of rfid-tool/src/rfid/impl/InterfaceUsbImpl.cpp: the widths of the pulses go to one
-- array of the device, and four bits for each sample to the other.
pub mod Widths
pub mod Packing
pub mod Pulses
pub mod Blocks
use rfid_tool.Base.{
  ℕ, suc, ◌+◌, ◌-◌, ◌*◌, ◌/◌, bit_or, bit_and, u8, u16, ◌<<<◌, ◌>>>◌, ltb, leb, ◌==◌,
}
use rfid_tool.Base.{if◌then◌else◌, List, [], ◌∷◌, ◌++◌, map, length, replicate, get_or, set}
use rfid_tool.Interface.{Sample, is_low, carrier_us}
use rfid_tool.Protocol.{
  cmd_sample_vector_write, cmd_pulse_vector_write, flag_first_on_start, flag_start_on_edge,
  flag_falling_edge, flag_tx_mode,
}
use rfid_tool.HostUsb.{
  UsbDevice, Driver, Result, ok, err, too_many_pulses, out_of_bounds, Action, lift, ◌>>=◌, ◌>>◌,
  do_transfer_tx,
}
use rfid_tool.HostUsb.Receive.{run_transfer}

-- `std::set<int>`: in order, and each number once.
unfoldable pub insert_pulse : ℕ → List ℕ → List ℕ
insert_pulse x [] = x ∷ []
insert_pulse x (y ∷ ys) =
    if ltb x y then x ∷ y ∷ ys else if x == y then y ∷ ys else y ∷ insert_pulse x ys

-- A length in periods of the carrier.
abbrev pub width : Sample → ℕ
width s = s.length_us / carrier_us

-- The set of the widths, built in the order of the samples.
unfoldable pub pulses_loop : List Sample → List ℕ → List ℕ
pulses_loop [] pulses = pulses
pulses_loop (s ∷ ss) pulses = pulses_loop ss (insert_pulse (width s) pulses)

-- `std::distance(begin, find(x))`
unfoldable pub index_of : ℕ → List ℕ → ℕ
index_of x [] = 0
index_of x (y ∷ ys) = if x == y then 0 else suc (index_of x ys)

-- The widths as bytes, and zeros behind them. `bufferWritten` is a byte, which up to 255 widths does
-- not wrap; more are refused for a device with so few.
unfoldable pub pulse_vector : ℕ → List ℕ → List ℕ
pulse_vector size pulses = map (λ p. u8 p) pulses ++ replicate (size - length pulses) 0

unfoldable pub sample_value : List ℕ → Sample → ℕ
sample_value pulses s = u8 (bit_or (if is_low s then 0 else 0x08) (index_of (width s) pulses))

-- One sample at position `written`: the lower half of a byte is stored, the upper added.
unfoldable pub put_value : List ℕ → ℕ → ℕ → List ℕ
put_value buffer written value =
    let at = written >>> 1 in
    set buffer at
      (if bit_and written 1 == 0 then value else u8 (bit_or (get_or buffer at 0) (value <<< 4)))

-- The loop over the samples. There is no test of the position in the code.
unfoldable pub pack_loop : List ℕ → List Sample → ℕ → List ℕ → Result (List ℕ)
pack_loop pulses [] written buffer = ok buffer
pack_loop pulses (s ∷ ss) written buffer =
    let rest =
      pack_loop pulses ss (u16 (written + 1)) (put_value buffer written (sample_value pulses s)) in
    if leb (length buffer) (written >>> 1) then err out_of_bounds else rest

abbrev pub send_flags : ℕ
send_flags =
    bit_or
      (bit_or (bit_or (bit_or flag_tx_mode flag_start_on_edge) flag_falling_edge)
        flag_first_on_start)
      8

-- The timeout is a `uint16_t`.
abbrev pub send_timeout : ℕ
send_timeout = u16 (60000 * carrier_us)

module _ (D : UsbDevice) where
  -- What follows the check of the number of widths.
  unfoldable pub send_pulses : Driver → List ℕ → List Sample → Action D.State (Unit {0})
  send_pulses d pulses samples = do
    do_transfer_tx D d (pulse_vector d.pulse_vector_size pulses) 0 0 cmd_sample_vector_write
    buffer ← lift (pack_loop pulses samples 0 (replicate d.sample_vector_size 0xff))
    do_transfer_tx D d buffer 0 0 cmd_pulse_vector_write
    run_transfer D d send_flags send_timeout

  unfoldable pub put_samples : Driver → List Sample → Action D.State (Unit {0})
  put_samples d samples =
      let pulses = pulses_loop samples [] in
      if ltb d.pulse_vector_size (length pulses)
      then lift (err too_many_pulses)
      else send_pulses d pulses samples
