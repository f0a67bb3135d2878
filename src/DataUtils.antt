-- ===== src/DataUtils.antt =====
-- rfid-tool/inc/common/DataUtils.hpp and src/common/DataUtils.cpp: nibble tables, and bits put
-- into an array of 32-bit words.
pub mod Buffer
pub mod Nibbles
use rfid_tool.Base.{ℕ, zero, suc, ◌+◌, ◌-◌, ◌/◌, ◌%◌, bit_and, bit_or, bit_xor, u8, ◌>>>◌, ◌<<<◌}
use rfid_tool.Base.{Bool, true, false, not, ◌==◌, if◌then◌else◌, List, [], ◌∷◌, get_or, set}
use rfid_tool.Bits.{clear_mask}

abbrev pub reversed_nibble : List ℕ
reversed_nibble =
    0x00 ∷ 0x08 ∷ 0x04 ∷ 0x0c ∷ 0x02 ∷ 0x0a ∷ 0x06 ∷ 0x0e ∷ 0x01 ∷ 0x09 ∷ 0x05 ∷ 0x0d ∷ 0x03 ∷ 0x0b
    ∷ 0x07 ∷ 0x0f ∷ []

abbrev pub parity : ℕ
parity = 27030

unfoldable pub parity_nibble : ℕ → ℕ
parity_nibble nibble = bit_and (parity >>> bit_and nibble 0x0f) 1

unfoldable pub parity_byte : ℕ → ℕ
parity_byte byte =
    let b4 = bit_xor byte (byte >>> 4) in
    let b2 = bit_xor b4 (b4 >>> 2) in let b1 = bit_xor b2 (b2 >>> 1) in bit_and b1 1

-- The source reads past its table for an argument of 16 or more; no caller passes one.
unfoldable pub reverse_nibble : ℕ → ℕ
reverse_nibble nibble = get_or reversed_nibble nibble 0

-- The word at `idx` with bit `pos` set or cleared. A write out of range, undefined in C, does nothing.
unfoldable pub write_bit : List ℕ → ℕ → ℕ → Bool → List ℕ
write_bit buffer idx pos bit = set buffer idx (
    if bit
    then bit_or (get_or buffer idx 0) (1 <<< pos)
    else bit_and (get_or buffer idx 0) (clear_mask 32 pos))

-- The buffer after the call, and the number returned. Only the truth of `bit` is read.
unfoldable pub put_bit : List ℕ → ℕ → Bool → List ℕ × ℕ
put_bit buffer bit_offset bit = (write_bit buffer (bit_offset / 32) (bit_offset % 32) bit, 1)

-- The loop of `putBitsMsb` with `i` rounds left.
unfoldable pub put_bits_msb_loop : ℕ → List ℕ → ℕ → ℕ → ℕ → List ℕ
put_bits_msb_loop zero buffer bit_offset bits bits_count = buffer
put_bits_msb_loop (suc i) buffer bit_offset bits bits_count =
    put_bits_msb_loop i
      (put_bit buffer (u8 (bit_offset + bits_count - suc i)) (not (bit_and bits (1 <<< i) == 0))).0
      bit_offset bits bits_count

unfoldable pub put_bits_msb : List ℕ → ℕ → ℕ → ℕ → List ℕ × ℕ
put_bits_msb buffer bit_offset bits bits_count =
    (put_bits_msb_loop bits_count buffer bit_offset bits bits_count, bits_count)
