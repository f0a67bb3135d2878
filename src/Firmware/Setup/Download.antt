-- ===== src/Firmware/Setup/Download.antt =====
-- Reading one of the two arrays of firmware/src/main.c over USB, in chunks.
use rfid_tool.Base.{ℕ, zero, suc, ◌+◌, ◌<◌, ◌≤◌, ◌≡◌, refl, sym, ap, ◌∙◌, ◌⊎◌, inl, inr, arith}
use mathlib.Core.Path.{subst}
use rfid_tool.Base.{Bool, Bool-cases, ◌==◌, if◌then◌else◌, u8}
use rfid_tool.Base.{some, List, [], ◌∷◌, ◌++◌, append_assoc, length, get_or, drop}
use rfid_tool.Firmware.{Firmware}
use rfid_tool.Firmware.Usb.{
  Target, widths, data_buffer, target_size, contents, read_target, read_loop, read_from,
  usb_function_read,
}
use rfid_tool.Firmware.Setup.Upload.{target_size-lt}

-- The device while a request reads: `left` bytes of the array are still to go.
pub record IsReading (f : Firmware) (t : Target) (command : ℕ) (array : List ℕ) : Type 0 where
  pub same : f.command ≡ command
  pub offset : f.io_buffer_offset ≤ target_size t
  pub size : length array ≡ target_size t
  pub held : contents f t ≡ array

pub contents-offset :
    (f : Firmware) (t : Target) (k : ℕ)
    → contents (record f { io_buffer_offset = k }) t ≡ contents f t
contents-offset f widths k = refl
contents-offset f data_buffer k = refl

drop-get_or : (xs : List ℕ) (k : ℕ) → k < length xs → drop k xs ≡ get_or xs k 0 ∷ drop (suc k) xs
drop-get_or [] k h = absurd (omega arith)
drop-get_or (x ∷ xs) zero h = refl
drop-get_or (x ∷ xs) (suc k) h = drop-get_or xs k (omega arith)

-- What one call gives out, and where it stops.
pub record Reads (f : Firmware) (t : Target) (command len : ℕ) (array : List ℕ)
    (r : Firmware × List ℕ) : Type 0 where
  pub reading : IsReading r.0 t command array
  pub bytes : r.1 ++ drop r.0.io_buffer_offset array ≡ drop f.io_buffer_offset array
  pub stop :
      (r.0.io_buffer_offset ≡ target_size t) ⊎ (r.0.io_buffer_offset ≡ f.io_buffer_offset + len)

read_loop-Reads :
    (len : ℕ) (f : Firmware) (t : Target) (c : ℕ) (array : List ℕ)
    → IsReading f t c array
    → Reads f t c len array (read_loop len t f)
unfolding read_loop
read_loop-Reads zero f t c array h = record { reading = h; bytes = refl; stop = inr (omega arith) }
read_loop-Reads (suc len) f t c array h =
    let next : Firmware = record f { io_buffer_offset = u8 (f.io_buffer_offset + 1) } in
    let rest = read_loop len t next in
    let byte = get_or (contents f t) f.io_buffer_offset 0 in
    let branch : Bool → Firmware × List ℕ = λ q. if q then (f, []) else (rest.0, byte ∷ rest.1) in
    elim (Bool-cases (f.io_buffer_offset == target_size t)) [
      | inl full ↦
          subst (λ q. Reads f t c (suc len) array (branch q)) (sym full)
            (record { reading = h; bytes = refl; stop = inl (ground arith) })
      | inr more ↦
          let room : f.io_buffer_offset < target_size t = ground (arith, h.offset) in
          let step : next.io_buffer_offset ≡ suc f.io_buffer_offset =
            omega (arith, target_size-lt t) in
          let later = read_loop-Reads len next t c array (record {
            same = h.same;
            offset = omega (arith, step);
            size = h.size;
            held = contents-offset f t (u8 (f.io_buffer_offset + 1)) ∙ h.held;
          }) in
          subst (λ q. Reads f t c (suc len) array (branch q)) (sym more)
            (record {
              reading = later.reading;
              bytes =
                  ap
                    (λ a.
                      get_or a f.io_buffer_offset 0 ∷ rest.1 ++ drop rest.0.io_buffer_offset array)
                    h.held
                  ∙ (ap (λ bs. get_or array f.io_buffer_offset 0 ∷ bs)
                        (later.bytes ∙ ap (λ k. drop k array) step)
                      ∙ sym (drop-get_or array f.io_buffer_offset (omega (arith, h.size))));
              stop = ground (arith, later.stop, step);
            })
    ]

-- The packets that the driver asks for, one call of `usbFunctionRead` each.
abbrev pub read_all : List ℕ → Firmware → Firmware × List ℕ
read_all [] f = (f, [])
read_all (len ∷ lens) f =
    let (g, bytes) = usb_function_read f len in
    let (last, more) = read_all lens g in (last, bytes ++ more)

abbrev pub total : List ℕ → ℕ
total [] = 0
total (n ∷ ns) = n + total ns

pub read_all-Reads :
    (lens : List ℕ) (f : Firmware) (t : Target) (c : ℕ) (array : List ℕ)
    → read_target c ≡ some t
    → IsReading f t c array
    → Reads f t c (total lens) array (read_all lens f)
unfolding usb_function_read read_from
read_all-Reads [] f t c array w h = record { reading = h; bytes = refl; stop = inr (omega arith) }
read_all-Reads (len ∷ lens) f t c array w h =
    let run : usb_function_read f len ≡ read_loop len t f =
      ap (λ o. read_from o f len) (ap read_target h.same ∙ w) in
    let r = read_loop len t f in
    let rest = read_all lens r.0 in
    let one = read_loop-Reads len f t c array h in
    let later = read_all-Reads lens r.0 t c array w one.reading in
    subst
      (λ (q : Firmware × List ℕ).
        Reads f t c (len + total lens) array ((read_all lens q.0).0, q.1 ++ (read_all lens q.0).1))
      (sym run)
      (record {
        reading = later.reading;
        bytes =
            append_assoc r.1 rest.1 (drop rest.0.io_buffer_offset array)
            ∙ (ap (λ bs. r.1 ++ bs) later.bytes ∙ one.bytes);
        stop = ground (arith, one.stop, later.stop, later.reading.offset);
      })
