-- ===== src/Firmware/Setup.antt =====
-- The control requests of firmware/src/main.c: `usbFunctionSetup`.
pub mod Upload
pub mod Download
pub mod RoundTrip
pub mod Loading
use rfid_tool.Base.{ℕ, ◌+◌, u8, ◌>>>◌, bit_and, ◌==◌, if◌then◌else◌, Bool, true, false, not}
use rfid_tool.Base.{List, [], ◌∷◌, ◌++◌, length, drop}
use rfid_tool.Firmware.{
  Firmware, State, idle, starting, wait_condition, rx, tx, finished, pulse_vector_size,
  sample_buffer_size, coil_start, coil_stop,
}
use rfid_tool.Firmware.Usb.{
  Request, coil_enable, get_version, get_buffer_size, reset, transfer_start, transfer_status,
  vector_access, invalid, request_of, Status, unknown, ok, timeout, in_progress, status_value,
  rc_ok, rc_invalid_cmd, rc_invalid_val,
}

abbrev pub firmware_version_major : ℕ
firmware_version_major = 0

abbrev pub firmware_version_minor : ℕ
firmware_version_minor = 1

-- `bRequest`, `wValue` and `wIndex` of the eight bytes of a request.
pub record SetupData : Type 0 where
  pub request : ℕ
  pub value : ℕ
  pub index : ℕ

-- The device after the call, and the length that it returns; where that is not 0, the driver is
-- given `response` to send.
abbrev pub Reply : Type 0
Reply = Firmware × ℕ

-- `response[ret++] = …` for each byte.
unfoldable pub respond : Firmware → List ℕ → Reply
respond f bytes = (record f { response = bytes ++ drop (length bytes) f.response }, length bytes)

abbrev pub flag_set : ℕ → ℕ → Bool
flag_set word mask = not (bit_and word mask == 0)

-- What `PROTO_CMD_TRANSFER_START` does to the context.
unfoldable pub start_transfer : Firmware → SetupData → Firmware
start_transfer f rq = record f {
  ctx = record {
    state = starting;
    timeout = rq.value;
    timed_out = false;
    falling_edge = flag_set rq.index 0x2000;
    prescaler_comp_on_start = flag_set rq.index 0x8000;
    edge_start = flag_set rq.index 0x4000;
    transmit = flag_set rq.index 0x1000;
    prescaler_value = bit_and rq.index 0xff;
    id = u8 (f.ctx.id + 1);
  };
}

abbrev pub is_idle : State → Bool
is_idle idle = true
is_idle starting = false
is_idle wait_condition = false
is_idle rx = false
is_idle tx = false
is_idle finished = false

abbrev pub status_of : Firmware → Status
status_of f = if is_idle f.ctx.state then if f.ctx.timed_out then timeout else ok else in_progress

unfoldable pub answer_status : Firmware → SetupData → Reply
answer_status f rq =
    if rq.index == f.ctx.id
    then respond f (
        rc_ok ∷ status_value (status_of f) ∷ u8 (f.op_offset >>> 8) ∷ bit_and f.op_offset 0xff ∷ [])
    else respond f (rc_invalid_val ∷ status_value unknown ∷ 0 ∷ 0 ∷ [])

-- The branches of the switch in `usbFunctionSetup`.
unfoldable pub handle : Request → Firmware → SetupData → Reply
handle coil_enable f rq = (if rq.value == 0 then coil_stop f else coil_start f, 0)
handle get_version f rq = respond f (rc_ok ∷ firmware_version_major ∷ firmware_version_minor ∷ [])
handle get_buffer_size f rq = respond f (
    rc_ok
    ∷ 4
    ∷ 1
    ∷ (sample_buffer_size >>> 8)
    ∷ bit_and sample_buffer_size 0xff
    ∷ (pulse_vector_size >>> 8)
    ∷ bit_and pulse_vector_size 0xff
    ∷ [])
handle reset f rq = respond (record f { command = rq.request }) (rc_ok ∷ [])
handle transfer_start f rq =
    (let started = start_transfer f rq in respond started (rc_ok ∷ started.ctx.id ∷ []))
handle transfer_status f rq = answer_status f rq
handle vector_access f rq = (record f { io_buffer_offset = 0; command = rq.request }, 0xff)
handle invalid f rq = respond f (rc_invalid_cmd ∷ [])

unfoldable pub usb_function_setup : Firmware → SetupData → Reply
usb_function_setup f rq = handle (request_of rq.request) f rq
