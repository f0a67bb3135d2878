-- ===== src/HostUsb/Received.antt =====
-- The samples of a received buffer, in `getSamples` of rfid-tool/src/rfid/impl/InterfaceUsbImpl.cpp.
use rfid_tool.Base.{ℕ, zero, suc, ◌+◌, ◌*◌, Bool, not, xor, ◌==◌, if◌then◌else◌, bit_and, ◌<<<◌}
use rfid_tool.Base.{Option, none, some, List, [], ◌∷◌, ◌++◌}
use rfid_tool.Interface.{Sample, carrier_us}

-- `prescaler`: carrier periods between two bits of the buffer.
abbrev pub prescaler : ℕ
prescaler = 8

-- The two loops over the bits of the buffer, at the bits that are left; `currentState` is `none`
-- where the code has -1.
unfoldable pub samples_loop : Option Bool → ℕ → List Bool → List Sample
unfolding xor
samples_loop current len [] = []
samples_loop none len (b ∷ bs) = samples_loop (some b) len bs
samples_loop (some last) len (b ∷ bs) =
    let changed =
      record { length_us = len * carrier_us * prescaler; is_high = not last }
      ∷ samples_loop (some b) 1 bs in
    let same = samples_loop (some b) (len + 1) bs in if xor b last then changed else same

-- The samples of a buffer, given as its bits in the order of the loops.
unfoldable pub samples_of_bits : List Bool → List Sample
samples_of_bits bits = samples_loop none 0 bits

-- The inner loop over the bits of a byte, from bit `j` on, with `left` rounds left.
unfoldable pub bits_of_byte : ℕ → ℕ → ℕ → List Bool
bits_of_byte zero j byte = []
bits_of_byte (suc left) j byte = not (bit_and byte (1 <<< j) == 0) ∷ bits_of_byte left (j + 1) byte

-- The outer loop.
unfoldable pub bits_of_bytes : List ℕ → List Bool
bits_of_bytes [] = []
bits_of_bytes (b ∷ bs) = bits_of_byte 8 0 b ++ bits_of_bytes bs
