-- ===== src/Em4100Eprom.antt =====
-- rfid-tool/src/rfid/Em4100Eprom.cpp: the 64 bits that an EM4100 tag repeats, built in two words.
pub mod Frame
pub mod Layout
pub mod Columns
pub mod Generate
use rfid_tool.Base.{ℕ, zero, suc, ◌+◌, ◌-◌, ◌*◌, ◌/◌, ◌%◌, bit_and, bit_or, bit_xor, u8}
use rfid_tool.Base.{◌>>>◌, ◌<<<◌, Bool, not, ◌==◌, List}
use rfid_tool.DataUtils.{write_bit, parity_nibble, reverse_nibble}

-- The buffer after the call, and the number of bits written.
unfoldable pub buffer_add_bit : List ℕ → ℕ → Bool → List ℕ × ℕ
buffer_add_bit buffer bit_offset bit = (write_bit buffer (bit_offset / 32) (bit_offset % 32) bit, 1)

-- The loop of `_bufferAddBits` at round `i`, with `left` rounds left; `ret` is its counter.
unfoldable pub add_bits_loop : ℕ → ℕ → List ℕ → ℕ → ℕ → ℕ → List ℕ × ℕ
add_bits_loop zero i buffer bit_offset bits ret = (buffer, ret)
add_bits_loop (suc left) i buffer bit_offset bits ret =
    let (buffer', one) =
      buffer_add_bit buffer (u8 (bit_offset + ret)) (not (bit_and bits (1 <<< i) == 0)) in
    add_bits_loop left (i + 1) buffer' bit_offset bits (u8 (ret + one))

unfoldable pub buffer_add_bits : List ℕ → ℕ → ℕ → ℕ → List ℕ × ℕ
buffer_add_bits buffer bit_offset bits bits_count =
    add_bits_loop bits_count 0 buffer bit_offset bits 0

-- The variables of `generate` that its statements change.
pub record Progress : Type 0 where
  pub result : List ℕ
  pub written : ℕ
  pub parity : ℕ

-- `written += _bufferAddBits(result, written, bits, count)`
unfoldable pub add_bits : Progress → ℕ → ℕ → Progress
add_bits p bits count =
    let (result, n) = buffer_add_bits p.result p.written bits count in
    record p { result = result; written = u8 (p.written + n) }

-- The nibble of one row with its parity, and the column parity that it goes into.
unfoldable pub add_nibble : Progress → ℕ → Progress
add_nibble p value =
    let nibble = reverse_nibble value in
    let p' = add_bits p (bit_or nibble (parity_nibble nibble <<< 4)) 5 in
    record p' { parity = bit_xor p'.parity nibble }

-- The loop over the eight nibbles of the token, at round `i` with `left` rounds left.
unfoldable pub add_token : ℕ → ℕ → ℕ → Progress → Progress
add_token zero i token p = p
add_token (suc left) i token p =
    add_token left (i + 1) token (add_nibble p (bit_and (token >>> (7 - i) * 4) 0x0f))

unfoldable pub generate : List ℕ → ℕ → ℕ → List ℕ
generate result customer_id token =
    let preamble = add_bits (record { result = result; written = 0; parity = 0 }) 0x1ff 9 in
    let vendor_high = add_nibble preamble (customer_id >>> 4) in
    let vendor = add_nibble vendor_high (bit_and customer_id 0x0f) in
    let rows = add_token 8 0 token vendor in (add_bits rows rows.parity 5).result
