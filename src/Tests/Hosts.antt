-- ===== src/Tests/Hosts.antt =====
-- Concrete inputs for what the host sends.
use rfid_tool.Base.{ℕ, ◌≡◌, true, false, List, [], ◌∷◌, ◌++◌, map, length, replicate, arith}
use rfid_tool.Interface.{Sample}
use rfid_tool.HostUsb.{ok}
use rfid_tool.HostUsb.Send.{pulses_loop, insert_pulse, pack_loop, pulse_vector}
use rfid_tool.HostUsb.Send.Pulses.{sample_pulse, trailer, pack_loop-pulses}
use rfid_tool.HostUsb.Send.Blocks.{IsPlayed, pack_loop-encode_block}
use rfid_tool.T5557Encoder.{encode_block}
use rfid_tool.Firmware.Transmitter.Playback.{nibbles, played_of, before_end}

abbrev pub three_samples : List Sample
three_samples =
    record { length_us = 240; is_high = false }
    ∷ record { length_us = 440; is_high = true }
    ∷ record { length_us = 152; is_high = false }
    ∷ []

pack_loop-pulses_example :
    let pulses = pulses_loop three_samples [] in
    (buffer : List ℕ) × (pack_loop pulses three_samples 0 (replicate 192 0xff) ≡ ok buffer)
    × (map (played_of (pulse_vector 7 pulses)) (before_end (nibbles buffer))
        ≡ map sample_pulse three_samples ++ trailer pulses three_samples)
    × (length buffer ≡ 192)
unfolding pulses_loop insert_pulse
pack_loop-pulses_example =
    pack_loop-pulses three_samples 192 (ground arith) (ground arith) (ground arith) (omega arith)

pack_loop-encode_block_example : IsPlayed 192 (encode_block 0 1 false true 0x12345678 0xff80 [])
pack_loop-encode_block_example =
    pack_loop-encode_block 0 1 false true 0x12345678 0xff80 192 (omega arith) (omega arith)
