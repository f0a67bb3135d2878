-- ===== src/Em4100Decoder/Invariant.antt =====
-- The bounds on the decoder's counters, and that its writes stay inside `data[6]`.
use rfid_tool.Base.{bit_and, ◌+◌, ◌<◌, ◌≤◌, ◌>>>◌, ◌≡◌, refl, ◌∙◌, Bool, false, arith}
use rfid_tool.Base.{length, set, length-set, if◌then◌else◌, ◌==◌, u8}
use rfid_tool.Em4100Decoder.{
  Decoder, preamble, in_data, CodingEvent, new_bit, reset_event, reset, in_preamble, collect_bit,
  store_nibble, finish, take_parity, on_data, on_bit, on_event,
}

-- In a preamble fewer than nine bits are counted; in the data a nibble has at most four bits,
-- and the eleventh row ends the frame.
pub record IsValid (d : Decoder) : Type 0 where
  pub six_bytes : length d.bytes ≡ 6
  pub preamble_bits : d.bit_count < 9
  pub row_bits : d.state ≡ in_data → d.nibble_len ≤ 4
  pub rows : d.state ≡ in_data → d.nibble_count < 11

-- A reset decoder is valid.
pub reset-IsValid : (d : Decoder) → length d.bytes ≡ 6 → IsValid (reset d)
unfolding reset
reset-IsValid d h = record {
  six_bytes = h;
  preamble_bits = omega arith;
  row_bits = λ e. cc;
  rows = λ e. cc;
}

in_preamble-IsValid :
    {d : Decoder} (b : Bool) → d.state ≡ preamble → IsValid d → IsValid (in_preamble d b)
unfolding in_preamble
in_preamble-IsValid {d} b s v = ground arith

collect_bit-IsValid :
    {d : Decoder} (b : Bool)
    → d.state ≡ in_data
    → (d.nibble_len == 4) ≡ false
    → IsValid d
    → IsValid (collect_bit d b)
unfolding collect_bit
collect_bit-IsValid {d} b s h v = ground (arith, v.row_bits s, v.rows s)

length-store_nibble : (d : Decoder) → length (store_nibble d).bytes ≡ length d.bytes
unfolding store_nibble
length-store_nibble d =
    let byte_no = d.nibble_count >>> 1 in
    let cleared = if bit_and d.nibble_count 1 == 0 then set d.bytes byte_no 0 else d.bytes in
    length-set {0} cleared byte_no _ ∙ ground (arith, length-set d.bytes byte_no 0)

-- The fields after a nibble is stored.
store_nibble_fields :
    (d : Decoder)
    → ((store_nibble d).state ≡ d.state)
      × ((store_nibble d).bit_count ≡ d.bit_count)
      × ((store_nibble d).nibble_len ≡ 0)
      × ((store_nibble d).nibble_count ≡ u8 (d.nibble_count + 1))
unfolding store_nibble
store_nibble_fields d = (refl, refl, refl, refl)

take_parity-IsValid :
    {d : Decoder} (b : Bool) → d.state ≡ in_data → IsValid d → IsValid (take_parity d b).0
unfolding take_parity finish
take_parity-IsValid {d} b s v =
    ground (arith, store_nibble_fields d, length-store_nibble d, v.rows s)

on_bit-IsValid : {d : Decoder} (b : Bool) → IsValid d → IsValid (on_bit d b).0
unfolding on_bit on_data
on_bit-IsValid {d} b v = ground (
  arith,
  in_preamble-IsValid {d = d} b,
  collect_bit-IsValid {d = d} b,
  take_parity-IsValid {d = d} b,
)

-- Every event keeps the bounds.
pub on_event-IsValid : {d : Decoder} (e : CodingEvent) → IsValid d → IsValid (on_event d e).0
unfolding on_event
on_event-IsValid (new_bit b) v = on_bit-IsValid b v
on_event-IsValid reset_event v = v
