-- ===== src/HostUsb.antt =====
-- rfid-tool/src/rfid/impl/InterfaceUsbImpl.cpp and inc/rfid/Interface.hpp: the host's driver of the
-- device. libusb and the device behind it are the parameter `UsbDevice`; an exception is an error
-- result, and what was sent before it stays sent. The log lines are left out.
pub mod Received
pub mod Runs
pub mod Receive
pub mod Send
pub mod Open
pub mod Transfers
pub mod Opening
pub mod Search
use Prim.Native.String.{String}
use rfid_tool.Base.{
  ℕ, ◌+◌, ℤ, pos, negsuc, is_pos, u16, ltb, ◌==◌, if◌then◌else◌, Bool, true, false, not,
}
use rfid_tool.Protocol.{cmd_reset}
use rfid_tool.Base.{◌&&◌, Option, none, some, List, [], ◌∷◌, length, get_or, take, drop}

-- `usb_control_msg` to the device and from it, and the time that passes in `usleep`. A call from the
-- device gives the contents of the buffer after it.
pub record UsbDevice : Type 1 where
  pub State : Type 0
  pub control_in : (command value index size : ℕ) → State → (ℤ × List ℕ) × State
  pub control_out : (command value index : ℕ) → List ℕ → State → ℤ × State
  pub usleep : ℕ → State → State

-- The exceptions of `Interface`. `out_of_bounds` is a write past the end of an array, which is
-- undefined in C.
pub data Error : Type 0 where
  not_connected not_supported invalid_state too_many_pulses out_of_bounds : Error
  invalid_response : ℤ → Error
  unsupported_type : Error

-- `getMessage` of the exceptions, which is what `main` prints; undefined behaviour has none.
abbrev pub get_message : Error → String
get_message not_connected = "Interface was not detected!"
get_message not_supported = "Not supported interface!"
get_message invalid_state = "Invalid state!"
get_message too_many_pulses = "Too many pulses requested!"
get_message out_of_bounds = ""
get_message (invalid_response code) = "Invalid response!"
get_message unsupported_type = "Not supported type!"

-- `getCode`: -1 where the exception is given none.
abbrev pub get_code : Error → ℤ
get_code not_connected = negsuc 0
get_code not_supported = negsuc 0
get_code invalid_state = negsuc 0
get_code too_many_pulses = negsuc 0
get_code out_of_bounds = negsuc 0
get_code (invalid_response code) = code
get_code unsupported_type = pos 1

pub data Result (A : Type 0) : Type 0 where
  ok : A → Result A
  err : Error → Result A

-- What the driver does to a device with states `S`.
abbrev pub Action : Type 0 → Type 0 → Type 0
Action S A = S → Result A × S

abbrev pub lift : {S A : Type 0} → Result A → Action S A
lift r s = (r, s)

infixl 5 ◌>>=◌ ◌>>◌
abbrev pub ◌>>=◌ : {S A B : Type 0} → Action S A → (A → Action S B) → Action S B
◌>>=◌ m f s = let (r, s') = m s in elim r [ ok a ↦ f a s' | err e ↦ (err e, s') ]

abbrev pub ◌>>◌ : {S B : Type 0} → Action S (Unit {0}) → Action S B → Action S B
m >> k = m >>= λ _. k

pub record FirmwareVersion : Type 0 where
  pub major : ℕ
  pub minor : ℕ

pub record Driver : Type 0 where
  -- Whether `handle` is not null.
  pub connected : Bool
  pub version : Option FirmwareVersion
  pub pulses_max : ℕ
  pub pulse_vector_size : ℕ
  pub pulse_bits : ℕ
  pub samples_max : ℕ
  pub sample_vector_size : ℕ
  pub sample_bits : ℕ

abbrev pub is_supported : FirmwareVersion → Bool
is_supported v = v.major == 0 && v.minor == 1

abbrev pub check_version : Option FirmwareVersion → Result (Unit {0})
check_version none = ok tt
check_version (some v) = if is_supported v then ok tt else err not_supported

unfoldable pub check_connection : Driver → Result (Unit {0})
check_connection d = if d.connected then check_version d.version else err not_connected

unfoldable pub check_response : List ℕ → ℕ → ℤ → Bool → Result (Unit {0})
check_response buffer size returned check_rc =
    if is_pos returned size
    then (if ltb 0 size && (check_rc && not (get_or buffer 0 0 == 0))
        then err (invalid_response (pos (get_or buffer 0 0)))
        else ok tt)
    else err (invalid_response returned)

unfoldable pub is_connected : Driver → Bool
is_connected d = d.connected

module _ (D : UsbDevice) where
  abbrev control_in : ℕ → ℕ → ℕ → ℕ → Action D.State (ℤ × List ℕ)
  control_in command value index size s =
      let (r, s') = D.control_in command value index size s in (ok r, s')

  abbrev control_out : ℕ → ℕ → ℕ → List ℕ → Action D.State ℤ
  control_out command value index bytes s =
      let (r, s') = D.control_out command value index bytes s in (ok r, s')

  abbrev pub sleep : ℕ → Action D.State (Unit {0})
  sleep us s = (ok tt, D.usleep us s)

  -- The bytes that go to the caller's buffer.
  unfoldable pub do_transfer_rx : Driver → ℕ → ℕ → ℕ → ℕ → Bool → Action D.State (List ℕ)
  do_transfer_rx d size index value command check_rc = do
    lift (check_connection d)
    let transfer_size = if check_rc then u16 (size + 1) else size
    (returned, buffer) ← control_in command value index transfer_size
    lift (check_response buffer transfer_size returned check_rc)
    lift (ok (take size (if check_rc then drop 1 buffer else buffer)))

  unfoldable pub do_transfer_tx : Driver → List ℕ → ℕ → ℕ → ℕ → Action D.State (Unit {0})
  do_transfer_tx d buffer index value command = do
    lift (check_connection d)
    returned ← control_out command value index buffer
    lift (check_response [] (length buffer) returned false)

  unfoldable pub reset : Driver → Action D.State (Unit {0})
  reset d = do_transfer_tx d [] 0 0 cmd_reset

  unfoldable pub get_version : Driver → Action D.State (Option FirmwareVersion)
  get_version d = do lift (check_connection d); lift (ok d.version)
