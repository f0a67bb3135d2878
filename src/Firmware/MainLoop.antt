-- ===== src/Firmware/MainLoop.antt =====
-- The main loop of firmware/src/main.c between two USB transmissions: the pending command and the
-- state of the transfer.
use rfid_tool.Base.{Bool, ◌*◌, u16, ◌==◌, if◌then◌else◌, true, false, Option, none, some}
use rfid_tool.Firmware.{
  Firmware, State, Context, idle, starting, wait_condition, rx, tx, finished, with_state,
  sample_buffer_size, prescaler_minimal_value, prescaller_start, prescaller_stop, adc_start,
  adc_stop,
}

-- The state that a transfer starts in.
unfoldable pub first_state : Context → State
first_state c = if c.edge_start then wait_condition else if c.transmit then tx else rx

unfoldable pub prepare : Firmware → Firmware
prepare f =
    with_state
      (record f {
        op_offset = 0;
        op_length = u16 (sample_buffer_size * (if f.ctx.transmit then 2 else 8));
        adc_last_signal = 255;
      })
      (first_state f.ctx)

abbrev pub is_waiting : State → Bool
is_waiting wait_condition = true
is_waiting idle = false
is_waiting starting = false
is_waiting rx = false
is_waiting tx = false
is_waiting finished = false

unfoldable pub on_starting : Firmware → Firmware
on_starting f =
    let sampling = adc_start (record (prepare f) { interrupts = true }) in
    if is_waiting sampling.ctx.state
    then prescaller_start sampling false prescaler_minimal_value false
    else prescaller_start sampling f.ctx.transmit f.ctx.prescaler_value true

unfoldable pub on_finished : Firmware → Firmware
on_finished f = with_state (adc_stop (prescaller_stop (record f { interrupts = false }))) idle

unfoldable pub transfer_step : Firmware → Firmware
transfer_step f = elim f.ctx.state [
  | starting ↦ on_starting f
  | finished ↦ on_finished f
  | idle ↦ f
  | wait_condition ↦ f
  | rx ↦ f
  | tx ↦ f
]

-- `none`: the reset command has jumped to the bootloader.
unfoldable pub poll : Firmware → Option Firmware
poll f = if f.command == 2 then none else some (transfer_step f)
