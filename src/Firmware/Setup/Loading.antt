-- ===== src/Firmware/Setup/Loading.antt =====
-- Filling one array of firmware/src/main.c by a write request: what it holds then, and what is left
-- alone.
use mathlib.Core.Path.{subst}
use rfid_tool.Base.{ℕ, ◌≡◌, refl, sym, ap, ◌∙◌, arith}
use rfid_tool.Base.{Bool-cases, inl, inr, ◌==◌, u8, ◌+◌}
use rfid_tool.Base.{Option, none, some, List, [], ◌∷◌, length, set, take, take-length}
use rfid_tool.Firmware.{Firmware}
use rfid_tool.Firmware.Usb.{
  Target, widths, data_buffer, target_size, contents, with_contents, write_target, write_loop,
  write_to, usb_function_write,
}
use rfid_tool.Firmware.Setup.{SetupData, usb_function_setup}
use rfid_tool.Firmware.Setup.Upload.{
  Holds, HoldsAfter, write_all, joined, then_write, write_all-Holds,
}
use rfid_tool.Firmware.Setup.RoundTrip.{selected, selected-setup, selected-Holds, request_of-write}

-- The array that a write to `t` is not about.
abbrev pub other : Target → Firmware → List ℕ
other widths f = f.io_buffer
other data_buffer f = f.sample_vector

pub record Keeps (t : Target) (f g : Firmware) : Type 0 where
  pub command : g.command ≡ f.command
  pub ctx : g.ctx ≡ f.ctx
  pub array : other t g ≡ other t f
  pub high : g.adc_hi_val ≡ f.adc_hi_val
  pub low : g.adc_low_val ≡ f.adc_low_val

Keeps-refl : (t : Target) (f : Firmware) → Keeps t f f
Keeps-refl t f = record { command = refl; ctx = refl; array = refl; high = refl; low = refl }

Keeps-trans : {t : Target} {f g h : Firmware} → Keeps t f g → Keeps t g h → Keeps t f h
Keeps-trans k l = record {
  command = l.command ∙ k.command;
  ctx = l.ctx ∙ k.ctx;
  array = l.array ∙ k.array;
  high = l.high ∙ k.high;
  low = l.low ∙ k.low;
}

stored-Keeps :
    (f : Firmware) (t : Target) (xs : List ℕ) (offset : ℕ)
    → Keeps t f (record (with_contents f t xs) { io_buffer_offset = offset })
stored-Keeps f widths xs offset = record {
  command = refl;
  ctx = refl;
  array = refl;
  high = refl;
  low = refl;
}
stored-Keeps f data_buffer xs offset = record {
  command = refl;
  ctx = refl;
  array = refl;
  high = refl;
  low = refl;
}

write_loop-Keeps : (bs : List ℕ) (t : Target) (f : Firmware) → Keeps t f (write_loop bs t f).0
unfolding write_loop
write_loop-Keeps [] t f = Keeps-refl t f
write_loop-Keeps (b ∷ bs) t f =
    let next : Firmware = record (with_contents f t (set (contents f t) f.io_buffer_offset b)) {
      io_buffer_offset = u8 (f.io_buffer_offset + 1);
    } in
    let rest = write_loop bs t next in
    let kept =
      Keeps-trans
        (stored-Keeps f t (set (contents f t) f.io_buffer_offset b) (u8 (f.io_buffer_offset + 1)))
        (write_loop-Keeps bs t next) in
    elim (Bool-cases (f.io_buffer_offset == target_size t)) [
      | inl e ↦ rw e (Keeps-refl t f)
      | inr e ↦ rw e kept
    ]

-- `some` device with the property.
abbrev KeepsAfter : Target → Firmware → Option Firmware → Type 0
KeepsAfter t f none = Unit {0}
KeepsAfter t f (some g) = Keeps t f g

KeepsAfter-trans :
    {t : Target} {f g : Firmware} (r : Option Firmware)
    → Keeps t f g
    → KeepsAfter t g r
    → KeepsAfter t f r
KeepsAfter-trans none k l = tt
KeepsAfter-trans (some h) k l = Keeps-trans k l

write_all-Keeps :
    (packets : List (List ℕ)) (t : Target) (f : Firmware)
    → write_target f.command ≡ some t
    → KeepsAfter t f (write_all packets f)
unfolding usb_function_write write_to
write_all-Keeps [] t f w = Keeps-refl t f
write_all-Keeps (bs ∷ packets) t f w =
    let next = (write_loop bs t f).0 in
    let kept = write_loop-Keeps bs t f in
    let rest = write_all-Keeps packets t next (ap write_target kept.command ∙ w) in
    subst (λ o. KeepsAfter t f (then_write (write_to o f bs) (λ g. write_all packets g))) (sym w)
      (KeepsAfter-trans (write_all packets next) kept rest)

-- After a write request for a whole array.
pub record Loaded (t : Target) (command : ℕ) (bytes : List ℕ) (f g : Firmware) : Type 0 where
  pub array : contents g t ≡ bytes
  pub same : g.command ≡ command
  pub ctx : g.ctx ≡ f.ctx
  pub rest : other t g ≡ other t f
  pub high : g.adc_hi_val ≡ f.adc_hi_val
  pub low : g.adc_low_val ≡ f.adc_low_val

Holds-contents :
    (g : Firmware) (t : Target) (command : ℕ) (bytes : List ℕ)
    → Holds g t command bytes
    → length bytes ≡ target_size t
    → contents g t ≡ bytes
Holds-contents g t command bytes h whole =
    sym (take-length (contents g t))
    ∙ (ap (λ k. take k (contents g t)) (h.size ∙ sym whole) ∙ h.prefix)

-- `g` is what the device is after the packets.
pub write_all-Loaded :
    (packets : List (List ℕ)) (f g : Firmware) (t : Target) (rq : SetupData)
    → write_target rq.request ≡ some t
    → length (contents f t) ≡ target_size t
    → length (joined packets) ≡ target_size t
    → write_all packets (usb_function_setup f rq).0 ≡ some g
    → Loaded t rq.request (joined packets) f g
write_all-Loaded packets f g t rq w size whole run =
    let c = rq.request in
    let f' = selected f c in
    let begun : write_all packets f' ≡ some g =
      sym (ap (λ q. write_all packets q.0) (selected-setup f rq (request_of-write c t w))) ∙ run in
    let held : Holds g t c (joined packets) =
      subst (λ r. HoldsAfter r t c (joined packets)) begun
        (write_all-Holds packets f' t c [] w (selected-Holds f t c size) (omega (arith, whole))) in
    let kept : Keeps t f' g =
      subst (λ r. KeepsAfter t f' r) begun (write_all-Keeps packets t f' w) in
    record {
      array = Holds-contents g t c (joined packets) held whole;
      same = held.same;
      ctx = kept.ctx;
      rest = kept.array ∙ other-selected t;
      high = kept.high;
      low = kept.low;
    }
  where
    other-selected : (u : Target) → other u (selected f rq.request) ≡ other u f
    other-selected widths = refl
    other-selected data_buffer = refl
