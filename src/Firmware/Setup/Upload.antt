-- ===== src/Firmware/Setup/Upload.antt =====
-- Writing one of the two arrays of firmware/src/main.c over USB, in chunks.
use rfid_tool.Base.{ℕ, suc, ◌+◌, ◌<◌, ◌≤◌, ◌≡◌, refl, sym, ap, ◌∙◌, arith}
use mathlib.Core.Path.{subst}
use rfid_tool.Base.{false, ◌==◌, if◌then◌else◌, u8}
use rfid_tool.Base.{
  Option, none, some, List, [], ◌∷◌, ◌++◌, append_assoc, append-nil, length, set, take,
}
use rfid_tool.Base.{length-set, take-set-suc, length-append}
use rfid_tool.Firmware.{Firmware}
use rfid_tool.Firmware.Usb.{
  Target, widths, data_buffer, target_size, contents, with_contents, write_target, write_loop,
  write_to, usb_function_write,
}

pub target_size-lt : (t : Target) → target_size t < 200
target_size-lt widths = omega arith
target_size-lt data_buffer = omega arith

-- The loop of `usbFunctionWrite` after one byte.
abbrev stored : Firmware → Target → ℕ → Firmware
stored f t b = record (with_contents f t (set (contents f t) f.io_buffer_offset b)) {
  io_buffer_offset = u8 (f.io_buffer_offset + 1);
}

contents-stored :
    (f : Firmware) (t : Target) (b : ℕ)
    → (contents (stored f t b) t ≡ set (contents f t) f.io_buffer_offset b)
      × ((stored f t b).io_buffer_offset ≡ u8 (f.io_buffer_offset + 1))
      × ((stored f t b).command ≡ f.command)
contents-stored f widths b = (refl, refl, refl)
contents-stored f data_buffer b = (refl, refl, refl)

-- The array is complete, and the first `n` bytes of it are `bytes`.
pub record Holds (f : Firmware) (t : Target) (command : ℕ) (bytes : List ℕ) : Type 0 where
  pub same : f.command ≡ command
  pub offset : f.io_buffer_offset ≡ length bytes
  pub size : length (contents f t) ≡ target_size t
  pub prefix : take (length bytes) (contents f t) ≡ bytes

stored-Holds :
    (f : Firmware) (t : Target) (c : ℕ) (bytes : List ℕ) (b : ℕ)
    → Holds f t c bytes
    → length bytes < target_size t
    → Holds (stored f t b) t c (bytes ++ b ∷ [])
stored-Holds f t c bytes b h room =
    let (new, offset, command) = contents-stored f t b in
    let len : length (bytes ++ b ∷ []) ≡ suc (length bytes) =
      omega (arith, length-append bytes (b ∷ [])) in
    record {
      same = command ∙ h.same;
      offset = omega (arith, offset, len, h.offset, target_size-lt t);
      size = ap length new ∙ (length-set (contents f t) f.io_buffer_offset b ∙ h.size);
      prefix =
          ap (λ k. take k (contents (stored f t b) t)) len
          ∙ (ap (take (suc (length bytes))) (new ∙ ap (λ k. set (contents f t) k b) h.offset)
              ∙ (take-set-suc (contents f t) (length bytes) b (omega (arith, h.size))
                  ∙ ap (λ r. r ++ b ∷ []) h.prefix));
    }

write_loop-Holds :
    (bs : List ℕ) (f : Firmware) (t : Target) (c : ℕ) (bytes : List ℕ)
    → Holds f t c bytes
    → length bytes + length bs ≤ target_size t
    → Holds (write_loop bs t f).0 t c (bytes ++ bs)
unfolding write_loop
write_loop-Holds [] f t c bytes h room = subst (Holds f t c) (sym (append-nil bytes)) h
write_loop-Holds (b ∷ bs) f t c bytes h room =
    let next = stored f t b in
    let rest = write_loop bs t next in
    let more : (f.io_buffer_offset == target_size t) ≡ false = ground (arith, h.offset) in
    let run : write_loop (b ∷ bs) t f ≡ (rest.0, suc rest.1) =
      ap (λ q. if q then (f, 0) else (rest.0, suc rest.1)) more in
    let done =
      write_loop-Holds bs next t c (bytes ++ b ∷ []) (stored-Holds f t c bytes b h (omega arith))
        (omega (arith, length-append bytes (b ∷ []))) in
    subst (λ r. Holds r.0 t c (bytes ++ b ∷ bs)) (sym run)
      (subst (Holds rest.0 t c) (append_assoc bytes (b ∷ []) bs) done)

abbrev pub then_write : Option (Firmware × ℕ) → (Firmware → Option Firmware) → Option Firmware
then_write none k = none
then_write (some r) k = k r.0

-- The packets of one request, one call of `usbFunctionWrite` each.
abbrev pub write_all : List (List ℕ) → Firmware → Option Firmware
write_all [] f = some f
write_all (c ∷ cs) f = then_write (usb_function_write f c) (λ g. write_all cs g)

abbrev pub joined : List (List ℕ) → List ℕ
joined [] = []
joined (c ∷ cs) = c ++ joined cs

-- `some` device for which the property holds.
abbrev pub HoldsAfter : Option Firmware → Target → ℕ → List ℕ → Type 0
HoldsAfter none t c bytes = ⊥
HoldsAfter (some g) t c bytes = Holds g t c bytes

pub write_all-Holds :
    (chunks : List (List ℕ)) (f : Firmware) (t : Target) (c : ℕ) (bytes : List ℕ)
    → write_target c ≡ some t
    → Holds f t c bytes
    → length bytes + length (joined chunks) ≤ target_size t
    → HoldsAfter (write_all chunks f) t c (bytes ++ joined chunks)
unfolding usb_function_write write_to
write_all-Holds [] f t c bytes w h room = subst (Holds f t c) (sym (append-nil bytes)) h
write_all-Holds (bs ∷ chunks) f t c bytes w h room =
    let run : usb_function_write f bs ≡ some (write_loop bs t f) =
      ap (λ o. write_to o f bs) (ap write_target h.same ∙ w) in
    let g = (write_loop bs t f).0 in
    let lengths = length-append bs (joined chunks) in
    let held = write_loop-Holds bs f t c bytes h (omega (arith, lengths)) in
    let rest =
      write_all-Holds chunks g t c (bytes ++ bs) w held
        (omega (arith, lengths, length-append bytes bs)) in
    subst
      (λ r.
        HoldsAfter (then_write r (λ k. write_all chunks k)) t c (bytes ++ (bs ++ joined chunks)))
      (sym run)
      (subst (HoldsAfter (write_all chunks g) t c) (append_assoc bytes bs (joined chunks)) rest)
