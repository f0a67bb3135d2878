-- ===== src/Bits.antt =====
-- Bits of a machine word: laws of the native `bit_and` and `bit_or` at variables.
mod Step
mod Fields
mod Order
pub use Step.*
unfoldable pub use Fields.*
pub use Order.*
