-- ===== src/Firmware/Usb.antt =====
-- The USB requests of firmware/src/main.c and common/inc/common/protocol.h.
use rfid_tool.Base.{ℕ, zero, suc, ◌+◌, u8, ◌==◌, if◌then◌else◌}
use rfid_tool.Base.{◌||◌, Option, none, some, List, [], ◌∷◌}
use rfid_tool.Base.{get_or, set}
use rfid_tool.Firmware.{Firmware, pulse_vector_size, sample_buffer_size}

abbrev pub rc_ok : ℕ
rc_ok = 0

abbrev pub rc_invalid_cmd : ℕ
rc_invalid_cmd = 1

abbrev pub rc_invalid_val : ℕ
rc_invalid_val = 3

pub data Status : Type 0 where
  unknown ok timeout in_progress : Status

-- `PROTO_TRANSFER_STATUS_…`
abbrev pub status_value : Status → ℕ
status_value unknown = 0
status_value ok = 1
status_value timeout = 2
status_value in_progress = 3

-- The request codes `PROTO_CMD_…`; every other code is the default of the switch.
pub data Request : Type 0 where
  coil_enable get_version get_buffer_size reset transfer_start transfer_status : Request
  vector_access invalid : Request

abbrev pub request_of : ℕ → Request
request_of code =
    if code == 1
    then get_version
    else if code == 2
    then reset
    else if code == 3
    then coil_enable
    else if code == 8
    then get_buffer_size
    else if code == 9
    then transfer_start
    else if code == 10
    then transfer_status
    else if (code == 4 || code == 5) || (code == 6 || code == 7)
    then vector_access
    else invalid

-- The array that a read or a write command is about.
pub data Target : Type 0 where
  widths data_buffer : Target

abbrev pub read_target : ℕ → Option Target
read_target command =
    if command == 6 then some widths else if command == 4 then some data_buffer else none

abbrev pub write_target : ℕ → Option Target
write_target command =
    if command == 7 then some widths else if command == 5 then some data_buffer else none

abbrev pub target_size : Target → ℕ
target_size widths = pulse_vector_size
target_size data_buffer = sample_buffer_size

abbrev pub contents : Firmware → Target → List ℕ
contents f widths = f.sample_vector
contents f data_buffer = f.io_buffer

abbrev pub with_contents : Firmware → Target → List ℕ → Firmware
with_contents f widths xs = record f { sample_vector = xs }
with_contents f data_buffer xs = record f { io_buffer = xs }

-- The loop of `usbFunctionRead` with `left` bytes of room left; the bytes that it puts out.
unfoldable pub read_loop : ℕ → Target → Firmware → Firmware × List ℕ
read_loop zero t f = (f, [])
read_loop (suc left) t f =
    let next = record f { io_buffer_offset = u8 (f.io_buffer_offset + 1) } in
    let (rest, bytes) = read_loop left t next in
    if f.io_buffer_offset == target_size t
    then (f, [])
    else (rest, get_or (contents f t) f.io_buffer_offset 0 ∷ bytes)

unfoldable pub read_from : Option Target → Firmware → ℕ → Firmware × List ℕ
read_from (some t) f len = read_loop len t f
read_from none f len = (f, [])

unfoldable pub usb_function_read : Firmware → ℕ → Firmware × List ℕ
usb_function_read f len = read_from (read_target f.command) f len

-- The loop of `usbFunctionWrite`; the number of bytes that it took.
unfoldable pub write_loop : List ℕ → Target → Firmware → Firmware × ℕ
write_loop [] t f = (f, 0)
write_loop (b ∷ bs) t f =
    let stored = record (with_contents f t (set (contents f t) f.io_buffer_offset b)) {
      io_buffer_offset = u8 (f.io_buffer_offset + 1);
    } in
    let (rest, n) = write_loop bs t stored in
    if f.io_buffer_offset == target_size t then (f, 0) else (rest, suc n)

-- Without a target the loop stores through a null pointer unless it stops at once, with the
-- offset 0 or no byte: that is `none`.
unfoldable pub write_to : Option Target → Firmware → List ℕ → Option (Firmware × ℕ)
write_to (some t) f bytes = some (write_loop bytes t f)
write_to none f [] = some (f, 0)
write_to none f (b ∷ bs) = if f.io_buffer_offset == 0 then some (f, 0) else none

-- `usbFunctionWrite`: the number of bytes taken.
unfoldable pub usb_function_write : Firmware → List ℕ → Option (Firmware × ℕ)
usb_function_write f bytes = write_to (write_target f.command) f bytes
