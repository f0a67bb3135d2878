-- ===== src/Firmware/Setup/RoundTrip.antt =====
-- What the host writes into an array of firmware/src/main.c, it reads back.
use mathlib.Core.Path.{subst}
use rfid_tool.Base.{ℕ, ◌≤◌, ◌≡◌, refl, sym, ap, ◌∙◌, arith}
use rfid_tool.Base.{
  Option, none, some, List, [], ◌++◌, append-nil, length, take, drop-all, take-length,
}
use rfid_tool.Firmware.{Firmware}
use rfid_tool.Firmware.Usb.{
  Target, widths, data_buffer, vector_access, request_of, target_size, contents, read_target,
  write_target,
}
use rfid_tool.Firmware.Setup.{SetupData, handle, usb_function_setup}
use rfid_tool.Firmware.Setup.Upload.{Holds, HoldsAfter, write_all, joined, write_all-Holds}
use rfid_tool.Firmware.Setup.Download.{read_all, total, read_all-Reads}

-- A request for one of the arrays starts at its first byte.
abbrev pub selected : Firmware → ℕ → Firmware
selected f c = record f { io_buffer_offset = 0; command = c }

pub request_of-write : (c : ℕ) (t : Target) → write_target c ≡ some t → request_of c ≡ vector_access
request_of-write c t h = ground arith

pub request_of-read : (c : ℕ) (t : Target) → read_target c ≡ some t → request_of c ≡ vector_access
request_of-read c t h = ground arith

pub selected-setup :
    (f : Firmware) (rq : SetupData)
    → request_of rq.request ≡ vector_access
    → usb_function_setup f rq ≡ (selected f rq.request, 0xff)
unfolding usb_function_setup handle
selected-setup f rq h = ap (λ r. handle r f rq) h

abbrev pub downloaded : Option Firmware → SetupData → List ℕ → Option (List ℕ)
downloaded none down lens = none
downloaded (some g) down lens = some (read_all lens (usb_function_setup g down).0).1

pub selected-Holds :
    (f : Firmware) (t : Target) (c : ℕ)
    → length (contents f t) ≡ target_size t
    → Holds (selected f c) t c []
selected-Holds f widths c size = record { same = refl; offset = refl; size = size; prefix = refl }
selected-Holds f data_buffer c size = record {
  same = refl;
  offset = refl;
  size = size;
  prefix = refl;
}

selected-contents : (f : Firmware) (t : Target) (c : ℕ) → contents (selected f c) t ≡ contents f t
selected-contents f widths c = refl
selected-contents f data_buffer c = refl

pub read_all-selected :
    (f : Firmware) (t : Target) (c : ℕ) (lens : List ℕ)
    → read_target c ≡ some t
    → length (contents f t) ≡ target_size t
    → target_size t ≤ total lens
    → (read_all lens (selected f c)).1 ≡ contents f t
read_all-selected f t c lens r size enough =
    let array = contents f t in
    let reads =
      read_all-Reads lens (selected f c) t c array r (record {
        same = refl;
        offset = omega arith;
        size = size;
        held = selected-contents f t c;
      }) in
    let over =
      drop-all array (read_all lens (selected f c)).0.io_buffer_offset
        (ground (arith, reads.stop, size)) in
    sym (append-nil (read_all lens (selected f c)).1)
    ∙ (ap (λ bs. (read_all lens (selected f c)).1 ++ bs) (sym over) ∙ reads.bytes)

-- A write request, then packets that fill the array, then a read request for the same array, then
-- packets with room for all of it: what was written comes back, however both are cut into
-- packets.
pub read_all-write_all :
    (f : Firmware) (t : Target) (up down : SetupData) (chunks : List (List ℕ)) (lens : List ℕ)
    → write_target up.request ≡ some t
    → read_target down.request ≡ some t
    → length (contents f t) ≡ target_size t
    → length (joined chunks) ≡ target_size t
    → target_size t ≤ total lens
    → downloaded (write_all chunks (usb_function_setup f up).0) down lens ≡ some (joined chunks)
read_all-write_all f t up down chunks lens w r size whole enough =
    let start = selected-setup f up (request_of-write up.request t w) in
    let held =
      write_all-Holds chunks (selected f up.request) t up.request [] w
        (selected-Holds f t up.request size) (omega (arith, whole)) in
    subst (λ q. downloaded (write_all chunks q.0) down lens ≡ some (joined chunks)) (sym start)
      (read_back (write_all chunks (selected f up.request)) held)
  where
    read_back :
        (g : Option Firmware)
        → HoldsAfter g t up.request (joined chunks)
        → downloaded g down lens ≡ some (joined chunks)
    read_back none h = absurd h
    read_back (some g) h =
        let begin = selected-setup g down (request_of-read down.request t r) in
        ap (λ q. some (read_all lens q.0).1) begin
        ∙ ap some (
            read_all-selected g t down.request lens r h.size enough
            ∙ (sym (take-length (contents g t))
                ∙ (ap (λ k. take k (contents g t)) (h.size ∙ sym whole) ∙ h.prefix)))
