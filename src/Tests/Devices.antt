-- ===== src/Tests/Devices.antt =====
-- Concrete inputs for the firmware and for the samples that the host makes of its buffer.
use rfid_tool.Base.{ℕ, ◌≡◌, refl, true, false, some, List, [], ◌∷◌, ◌++◌, map, replicate, arith}
use rfid_tool.Firmware.{Firmware, tx, idle, adc_hi, adc_lo}
use rfid_tool.Base.{get_or}
use rfid_tool.Firmware.MainLoop.{poll}
use rfid_tool.Firmware.Transfer.{transmitted, transmitted-setup}
use rfid_tool.HostUsb.Received.{samples_of_bits}
use rfid_tool.HostUsb.Runs.{bits_of_runs, samples_of_runs, samples_of_bits-runs}
use rfid_tool.Firmware.{rx}
use rfid_tool.Firmware.Sampler.{conversions}
use rfid_tool.Firmware.Sampler.Recording.{IsRecorded, heard, conversions-recording}
use rfid_tool.Firmware.Usb.{data_buffer}
use rfid_tool.Firmware.Setup.{SetupData, usb_function_setup}
use rfid_tool.Firmware.Setup.Upload.{write_all, joined}
use rfid_tool.Firmware.Setup.RoundTrip.{downloaded, read_all-write_all}
use rfid_tool.Firmware.Transmitter.Playback.{
  playback, played_of, before_end, nibbles, IsStopped, playback-nibbles,
}

-- Just after the start.
abbrev pub booted : Firmware
booted = record {
  command = 0;
  response = replicate 7 0;
  sample_vector = replicate 7 0;
  io_buffer = replicate 192 0;
  io_buffer_offset = 0;
  op_length = 0;
  op_offset = 0;
  ctx = record {
    state = idle;
    timeout = 0;
    timed_out = false;
    falling_edge = false;
    prescaler_comp_on_start = false;
    edge_start = false;
    transmit = false;
    prescaler_value = 4;
    id = 0;
  };
  adc_last_signal = 0;
  adc_low_val = adc_lo;
  adc_hi_val = adc_hi;
  prescaler = record {
    ocr0a = 0;
    tcnt0 = 0;
    running = false;
    interrupt = false;
    compare_flag = false;
    held = false;
  };
  adc_running = false;
  coil_output = false;
  coil_running = true;
  interrupts = false;
}

-- Transmitting three pulses of two widths from a short buffer.
abbrev transmitting : Firmware
transmitting = record booted {
  sample_vector = 30 ∷ 55 ∷ 19 ∷ 0 ∷ 0 ∷ 0 ∷ 0 ∷ [];
  io_buffer = 0x91 ∷ 0xf2 ∷ [];
  op_length = 4;
  ctx = record (booted.ctx) { state = tx; transmit = true };
}

playback-nibbles_example :
    ((playback 5 transmitting).1
      ≡ map (played_of transmitting.sample_vector) (before_end (nibbles transmitting.io_buffer)))
    × IsStopped (playback 5 transmitting).0
playback-nibbles_example =
    playback-nibbles 5 transmitting (omega arith) refl refl (omega arith) refl

abbrev write_buffer : SetupData
write_buffer = record { request = 5; value = 0; index = 0 }

abbrev read_buffer : SetupData
read_buffer = record { request = 4; value = 0; index = 0 }

abbrev packets : List (List ℕ)
packets = replicate 8 (1 ∷ 2 ∷ 3 ∷ []) ++ replicate 84 (7 ∷ 9 ∷ [])

read_all-write_all_example :
    downloaded
      (write_all packets (usb_function_setup booted write_buffer).0)
      read_buffer
      (replicate 25 8)
    ≡ some (joined packets)
read_all-write_all_example =
    read_all-write_all booted data_buffer write_buffer read_buffer packets (replicate 25 8) refl
      refl refl refl (omega arith)

-- Sends on a falling edge, with 40 conversions to find it.
abbrev send_request : SetupData
send_request = record { request = 9; value = 40; index = 0xf008 }

abbrev loaded : Firmware
loaded = record booted {
  sample_vector = 30 ∷ 55 ∷ 19 ∷ 0 ∷ 0 ∷ 0 ∷ 0 ∷ [];
  io_buffer = 0x91 ∷ 0xf2 ∷ replicate 190 0;
}

transmitted-setup_example :
    transmitted 400
      (poll (usb_function_setup loaded send_request).0)
      ((12 ∷ 13 ∷ []) ++ 250 ∷ [])
      (get_or (usb_function_setup loaded send_request).0.response 1 0)
    ≡ some (
      map (played_of loaded.sample_vector) (before_end (nibbles loaded.io_buffer)),
      some (0 ∷ 1 ∷ []),
    )
transmitted-setup_example =
    transmitted-setup 400 loaded send_request (12 ∷ 13 ∷ []) 250 (omega arith) refl
      (λ e. ground arith) refl refl refl refl (omega arith) (ground arith) (omega arith)
      (omega arith)

-- Receiving into a buffer of one byte.
abbrev receiving : Firmware
receiving = record booted {
  io_buffer = 0x5a ∷ [];
  op_length = 8;
  adc_last_signal = 1;
  ctx = record (booted.ctx) { state = rx };
}

abbrev more_voltages : List ℕ
more_voltages = 250 ∷ 240 ∷ 12 ∷ 240 ∷ 236 ∷ 249 ∷ 248 ∷ []

conversions-recording_example :
    IsRecorded
      (conversions receiving (3 ∷ more_voltages))
      (heard receiving receiving.adc_last_signal (3 ∷ more_voltages))
conversions-recording_example =
    conversions-recording 3 more_voltages receiving refl refl refl refl (omega arith)

samples_of_bits-runs_example :
    samples_of_bits (bits_of_runs true (3 ∷ 0 ∷ 7 ∷ [])) ≡ samples_of_runs true 3 (0 ∷ 7 ∷ [])
samples_of_bits-runs_example = samples_of_bits-runs true 3 (0 ∷ 7 ∷ [])
