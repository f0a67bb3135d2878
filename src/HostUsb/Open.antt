-- ===== src/HostUsb/Open.antt =====
-- The constructor of rfid-tool/src/rfid/impl/InterfaceUsbImpl.cpp: the device is looked for on every
-- bus by its ids and its product name, and then asked for its version and its buffers.
use rfid_tool.Base.{ℕ, zero, suc, ◌+◌, ◌-◌, ◌*◌, ◌/◌, u16, ◌<<<◌, bit_or, ltb, ◌==◌}
use rfid_tool.Base.{if◌then◌else◌, Bool, true, false, ◌&&◌, Option, none, some, List, [], ◌∷◌}
use rfid_tool.Base.{get_or, set, ℤ, pos, negsuc, is_neg}
use rfid_tool.Protocol.{cmd_get_version, cmd_get_buffer_size}
use rfid_tool.HostUsb.{
  err, unsupported_type, UsbDevice, Driver, ok, Action, lift, ◌>>=◌, do_transfer_rx,
}

-- The characters before the end mark of a C string.
unfoldable pub c_string : List ℕ → List ℕ
c_string [] = []
c_string (c ∷ cs) = if c == 0 then [] else c ∷ c_string cs

unfoldable pub same_text : List ℕ → List ℕ → Bool
same_text [] [] = true
same_text (x ∷ xs) (y ∷ ys) = x == y && same_text xs ys
same_text _ _ = false

-- `DEV_USB_PROD`, "rfid-tool".
abbrev pub product_name : List ℕ
product_name = b'r' ∷ b'f' ∷ b'i' ∷ b'd' ∷ b'-' ∷ b't' ∷ b'o' ∷ b'o' ∷ b'l' ∷ []

abbrev pub vendor_id : ℕ
vendor_id = 0x16c0

abbrev pub product_id : ℕ
product_id = 0x05dc

-- What libusb says of one device: its descriptor, whether `usb_open` gives a handle, the result and
-- the buffer of `usb_get_string_simple` for its product name, and those of the descriptor request
-- that `usbGetStringAscii` makes otherwise.
pub record UsbNode : Type 0 where
  pub id_vendor : ℕ
  pub id_product : ℕ
  pub i_product : ℕ
  pub opens : ℕ → Bool
  pub simple : ℤ × List ℕ
  pub descriptor : ℤ × List ℕ

-- The loop that copies the characters, from `i` on, with `left` rounds left, then the end mark.
unfoldable pub copy_loop : ℕ → ℕ → ℕ → List ℕ → List ℕ → List ℕ
copy_loop zero i buflen buffer buf = set buf (i - 1) 0
copy_loop (suc left) i buflen buffer buf =
    let c = if get_or buffer (2 * i + 1) 0 == 0 then get_or buffer (2 * i) 0 else b'?' in
    let rest = copy_loop left (i + 1) buflen buffer (set buf (i - 1) c) in
    if ltb buflen i then set buf (i - 1) 0 else rest

-- The reply to the descriptor request; `dt_string` is libusb's `USB_DT_STRING`. The number of
-- characters to copy is `rval`, which the code sets to 0 and never changes.
unfoldable pub read_descriptor : ℕ → ℕ → ℕ → List ℕ → List ℕ → ℤ × List ℕ
read_descriptor dt_string buflen ret buffer buf =
    let rval : ℕ = 0 in
    if get_or buffer 1 0 == dt_string
    then (
      pos ((if ltb (get_or buffer 0 0) ret then get_or buffer 0 0 else ret) / 2),
      copy_loop (rval - 1) 1 buflen buffer buf,
    )
    else (pos 0, set buf 0 0)

abbrev pub from_descriptor : ℕ → ℕ → ℤ × List ℕ → List ℕ → ℤ × List ℕ
from_descriptor dt_string buflen (pos ret, buffer) buf =
    read_descriptor dt_string buflen ret buffer buf
from_descriptor dt_string buflen (negsuc ret, buffer) buf = (negsuc ret, buf)

-- `usbGetStringAscii`
unfoldable pub usb_get_string_ascii : ℕ → ℕ → UsbNode → ℤ × List ℕ
usb_get_string_ascii dt_string buflen node =
    if is_neg node.simple.0
    then from_descriptor dt_string buflen node.descriptor node.simple.1
    else node.simple

abbrev pub wanted : UsbNode → Bool
wanted node = node.id_vendor == vendor_id && node.id_product == product_id

unfoldable pub product_matches : ℕ → UsbNode → Bool
product_matches dt_string node =
    let (ret, buf) = usb_get_string_ascii dt_string 255 node in
    if node.i_product == 0
    then false
    else if is_neg ret
    then false
    else same_text (c_string buf) product_name

-- `searching`: the loop has not ended yet.
pub data Search : Type 0 where
  found missing searching : Search

-- The loop over the devices of one bus, on fuel. A device that cannot be opened is tried again:
-- `attempt` counts how often it was.
unfoldable pub find_on_bus : ℕ → (fuel attempt : ℕ) → List UsbNode → Search
find_on_bus dt_string zero attempt nodes = searching
find_on_bus dt_string (suc fuel) attempt [] = missing
find_on_bus dt_string (suc fuel) attempt (node ∷ nodes) =
    let next = find_on_bus dt_string fuel 0 nodes in
    let again = find_on_bus dt_string fuel (suc attempt) (node ∷ nodes) in
    let opened = if product_matches dt_string node then found else next in
    if wanted node then if node.opens attempt then opened else again else next

abbrev pub on_next_bus : Search → Search → Search
on_next_bus missing rest = rest
on_next_bus found rest = found
on_next_bus searching rest = searching

unfoldable pub find_device : ℕ → (fuel : ℕ) → List (List UsbNode) → Search
find_device dt_string fuel [] = missing
find_device dt_string fuel (bus ∷ buses) =
    on_next_bus (find_on_bus dt_string fuel 0 bus) (find_device dt_string fuel buses)

-- Before a device is found.
abbrev pub closed : Driver
closed = record {
  connected = false;
  version = none;
  pulses_max = 0;
  pulse_vector_size = 0;
  pulse_bits = 0;
  samples_max = 0;
  sample_vector_size = 0;
  sample_bits = 0;
}

abbrev pub opened : Driver
opened = record closed { connected = true }

-- The fields that the answer about the buffers gives. A division by 0 is undefined in C.
unfoldable pub with_sizes : Driver → List ℕ → Driver
with_sizes d response =
    let byte = λ (i : ℕ). get_or response i 0 in
    let pulse_vector_size = bit_or (byte 4 <<< 8) (byte 5) in
    let sample_vector_size = bit_or (byte 2 <<< 8) (byte 3) in
    record d {
      pulse_bits = byte 0;
      sample_bits = byte 1;
      pulse_vector_size = pulse_vector_size;
      sample_vector_size = sample_vector_size;
      pulses_max = u16 (pulse_vector_size * 8 / byte 0);
      samples_max = u16 (sample_vector_size * 8 / byte 1);
    }

module _ (D : UsbDevice) where
  unfoldable pub ask_device : Action D.State Driver
  ask_device = do
    version ← do_transfer_rx D opened 2 0 0 cmd_get_version true
    let d = record opened {
      version = some (record { major = get_or version 0 0; minor = get_or version 1 0 });
    }
    sizes ← do_transfer_rx D d 6 0 0 cmd_get_buffer_size true
    lift (ok (with_sizes d sizes))

  -- The driver after the constructor; `none` while it has not ended.
  unfoldable pub open_interface : Search → Option (Action D.State Driver)
  open_interface found = some ask_device
  open_interface missing = some (lift (ok closed))
  open_interface searching = none

-- `InterfaceFactory::Type`, and any other number.
pub data InterfaceType : Type 0 where
  usb other_type : InterfaceType

-- `InterfaceFactory::newInstance` of rfid-tool/src/rfid/InterfaceFactory.cpp.
abbrev pub new_instance : (D : UsbDevice) → InterfaceType → Search → Option (Action D.State Driver)
new_instance D usb search = open_interface D search
new_instance D other_type search = some (lift (err unsupported_type))
