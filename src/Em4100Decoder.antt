-- ===== src/Em4100Decoder.antt =====
-- rfid-tool/src/rfid/Em4100Decoder.cpp: from the bits of a coding decoder to tokens.
-- The log lines are left out; a listener's call is the token beside the new state.
pub mod Rows
pub mod Bytes
pub mod RoundTrip
pub mod Invariant
use rfid_tool.Base.{ℕ, zero, suc, ◌+◌, ◌-◌, bit_and, bit_or, bit_xor, u8, u32, ◌>>>◌, ◌<<<◌}
use rfid_tool.Base.{Bool, true, false, not, ◌==◌, if◌then◌else◌, Option, none, some}
use rfid_tool.Base.{List, [], ◌∷◌, get_or, set}
use rfid_tool.DataUtils.{parity_nibble}

-- `rfid::CodingDecoder::Event`, with `EventBitData`.
pub data CodingEvent : Type 0 where
  new_bit : Bool → CodingEvent
  reset_event : CodingEvent

-- `EventNewTokenData`
pub record Token : Type 0 where
  pub token : ℕ
  pub version_or_customer_id : ℕ

pub data DecoderState : Type 0 where
  preamble in_data : DecoderState

pub record Decoder : Type 0 where
  pub state : DecoderState
  pub bit_count : ℕ
  pub nibble : ℕ
  pub nibble_len : ℕ
  pub nibble_count : ℕ
  pub bytes : List ℕ

unfoldable pub reset : Decoder → Decoder
reset d = record d { state = preamble; bit_count = 0; nibble = 0 }

-- `! x` and comparisons with a C bool: false is 0, true is 1.
abbrev pub from_bool : Bool → ℕ
from_bool true = 1
from_bool false = 0

unfoldable pub in_preamble : Decoder → Bool → Decoder
in_preamble d is_one =
    if is_one
    then (let count = u8 (d.bit_count + 1) in
        if count == 9
        then record d { state = in_data; bit_count = 0; nibble_count = 0; nibble_len = 0 }
        else record d { bit_count = count })
    else record d { bit_count = 0 }

-- A bit of the nibble: `nibble |= 1 << (3 - nibbleLen++)` or `nibble &= ~(…)`.
unfoldable pub collect_bit : Decoder → Bool → Decoder
collect_bit d is_one = record d {
  nibble =
      if is_one
      then u8 (bit_or d.nibble (1 <<< 3 - d.nibble_len))
      else bit_and d.nibble (255 - (1 <<< 3 - d.nibble_len));
  nibble_len = u8 (d.nibble_len + 1);
}

unfoldable pub parity_ok : Decoder → Bool → Bool
parity_ok d is_one =
    if d.nibble_count == 10 then not is_one else parity_nibble d.nibble == from_bool is_one

-- The nibble goes into its half of byte `nibbleCount >> 1`.
unfoldable pub store_nibble : Decoder → Decoder
store_nibble d =
    let byte_no = d.nibble_count >>> 1 in
    let byte_hi = bit_and d.nibble_count 1 in
    let cleared = if byte_hi == 0 then set d.bytes byte_no 0 else d.bytes in
    let shift = if byte_hi == 0 then 4 else 0 in
    record d {
      bytes = set cleared byte_no (u8 (bit_or (get_or cleared byte_no 0) (d.nibble <<< shift)));
      nibble_len = 0;
      nibble_count = u8 (d.nibble_count + 1);
    }

-- The loop over `data[i]` with `left` rounds left.
unfoldable pub columns_parity : ℕ → ℕ → List ℕ → ℕ → ℕ
columns_parity zero i bytes acc = acc
columns_parity (suc left) i bytes acc =
    let b = get_or bytes i 0 in
    columns_parity left (i + 1) bytes (u8 (bit_xor (bit_xor acc (bit_and b 0xf0)) (u8 (b <<< 4))))

-- Four bytes into one word, by `<<= 8` and `|=`.
unfoldable pub token_of : List ℕ → Token
token_of bytes =
    let d1 = get_or bytes 1 0 in
    let d2 = bit_or (u32 (d1 <<< 8)) (get_or bytes 2 0) in
    let d3 = bit_or (u32 (d2 <<< 8)) (get_or bytes 3 0) in
    let d4 = bit_or (u32 (d3 <<< 8)) (get_or bytes 4 0) in
    record { token = d4; version_or_customer_id = get_or bytes 0 0 }

unfoldable pub finish : Decoder → Decoder × Option Token
finish d = (
  record d { state = preamble },
  if columns_parity 5 0 d.bytes 0 == get_or d.bytes 5 0 then some (token_of d.bytes) else none,
)

unfoldable pub take_parity : Decoder → Bool → Decoder × Option Token
take_parity d is_one =
    if parity_ok d is_one
    then (let d' = store_nibble d in if d'.nibble_count == 11 then finish d' else (d', none))
    else (record d { state = preamble }, none)

unfoldable pub on_data : Decoder → Bool → Decoder × Option Token
on_data d is_one = if d.nibble_len == 4 then take_parity d is_one else (collect_bit d is_one, none)

unfoldable pub on_bit : Decoder → Bool → Decoder × Option Token
on_bit d is_one = elim d.state [
  | preamble ↦ (in_preamble d is_one, none)
  | in_data ↦ on_data d is_one
]

unfoldable pub on_event : Decoder → CodingEvent → Decoder × Option Token
on_event d (new_bit is_one) = on_bit d is_one
on_event d reset_event = (d, none)

abbrev pub emit {ℓ} : {A : Type ℓ} → Option A → List A → List A
emit none xs = xs
emit (some x) xs = x ∷ xs

-- A whole stream of bits: the final state, and the tokens reported on the way.
unfoldable pub run : Decoder → List Bool → Decoder × List Token
run d [] = (d, [])
run d (b ∷ bs) =
    let (d', out) = on_event d (new_bit b) in
    let (d'', tokens) = run d' bs in (d'', emit out tokens)
