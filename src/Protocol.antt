-- ===== src/Protocol.antt =====
-- common/inc/common/protocol.h: the commands and flags that the host sends.
use rfid_tool.Base.{ℕ}

abbrev pub cmd_get_version : ℕ
cmd_get_version = 0x01

abbrev pub cmd_reset : ℕ
cmd_reset = 0x02

abbrev pub cmd_pulse_vector_read : ℕ
cmd_pulse_vector_read = 0x04

abbrev pub cmd_pulse_vector_write : ℕ
cmd_pulse_vector_write = 0x05

abbrev pub cmd_sample_vector_write : ℕ
cmd_sample_vector_write = 0x07

abbrev pub cmd_get_buffer_size : ℕ
cmd_get_buffer_size = 0x08

abbrev pub cmd_transfer_start : ℕ
cmd_transfer_start = 0x09

abbrev pub cmd_transfer_status : ℕ
cmd_transfer_status = 0x0a

abbrev pub flag_first_on_start : ℕ
flag_first_on_start = 0x8000

abbrev pub flag_start_on_edge : ℕ
flag_start_on_edge = 0x4000

abbrev pub flag_falling_edge : ℕ
flag_falling_edge = 0x2000

abbrev pub flag_tx_mode : ℕ
flag_tx_mode = 0x1000

abbrev pub status_ok : ℕ
status_ok = 0x01
