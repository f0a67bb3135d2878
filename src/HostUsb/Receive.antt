-- ===== src/HostUsb/Receive.antt =====
-- `getSamples` of rfid-tool/src/rfid/impl/InterfaceUsbImpl.cpp: a receiving transfer and its samples.
use rfid_tool.Base.{ℕ, bit_or, ◌==◌, if◌then◌else◌, true, false, List, get_or, ◌*◌}
use rfid_tool.Interface.{Sample}
use rfid_tool.Protocol.{
  cmd_transfer_start, cmd_transfer_status, cmd_pulse_vector_read, flag_first_on_start,
  flag_start_on_edge, flag_falling_edge, status_ok,
}
use rfid_tool.HostUsb.{
  UsbDevice, Driver, Result, ok, err, invalid_state, Action, lift, ◌>>=◌, ◌>>◌, sleep,
  do_transfer_rx,
}
use rfid_tool.HostUsb.Received.{prescaler, samples_of_bits, bits_of_bytes}

abbrev pub receive_flags : ℕ
receive_flags =
    bit_or (bit_or (bit_or flag_first_on_start flag_start_on_edge) flag_falling_edge) prescaler

-- The status must be `PROTO_TRANSFER_STATUS_OK`.
unfoldable pub check_status : List ℕ → Result (Unit {0})
check_status response = if get_or response 0 0 == status_ok then ok tt else err invalid_state

module _ (D : UsbDevice) where
  -- Half a second after its start a transfer must be over.
  unfoldable pub run_transfer : Driver → ℕ → ℕ → Action D.State (Unit {0})
  run_transfer d index value = do
    started ← do_transfer_rx D d 1 index value cmd_transfer_start true
    sleep D (500 * 1000)
    status ← do_transfer_rx D d 3 (get_or started 0 0) 0 cmd_transfer_status true
    lift (check_status status)

  unfoldable pub get_samples : Driver → Action D.State (List Sample)
  get_samples d = do
    run_transfer d receive_flags 60000
    bytes ← do_transfer_rx D d d.sample_vector_size 0 0 cmd_pulse_vector_read false
    lift (ok (samples_of_bits (bits_of_bytes bytes)))
