-- ===== src/Main/Options.antt =====
-- The options of rfid-tool/src/main.cpp.
use Prim.Native.String.{String}
use text.Mathlib.Text.{◌==◌ as str_eq}
use rfid_tool.Base.{ℕ, ℤ, pos, negsuc, ◌-◌, ◌%◌, ◌^◌, ◌==◌, if◌then◌else◌}
use rfid_tool.Base.{Bool, true, false, List, [], ◌∷◌}

pub data Modulation : Type 0 where
  unknown_modulation manchester biphase : Modulation

pub data Bitrate : Type 0 where
  unknown_bitrate bitrate_16 bitrate_32 bitrate_64 : Bitrate

-- `ExecutionOptions`, and whether `Log::setLevel(DEBUG)` was called.
pub record ExecutionOptions : Type 0 where
  pub show_help : Bool
  pub reset_iface : Bool
  pub read : Bool
  pub write : Bool
  pub customer_id : ℕ
  pub token : ℕ
  pub modulation : Modulation
  pub bitrate : Bitrate
  pub debug_log : Bool

abbrev pub default_options : ExecutionOptions
default_options = record {
  show_help = false;
  reset_iface = false;
  read = false;
  write = false;
  customer_id = 0;
  token = 0;
  modulation = unknown_modulation;
  bitrate = unknown_bitrate;
  debug_log = false;
}

-- A `long` as an unsigned integer of `bits` bits.
abbrev pub unsigned : ℕ → ℤ → ℕ
unsigned bits (pos n) = n % 2 ^ bits
unsigned bits (negsuc n) = (2 ^ bits - 1) - n % 2 ^ bits

-- Any other text leaves the bitrate.
unfoldable pub with_bitrate : ExecutionOptions → String → ExecutionOptions
with_bitrate o text =
    if str_eq text "16"
    then record o { bitrate = bitrate_16 }
    else if str_eq text "32"
    then record o { bitrate = bitrate_32 }
    else if str_eq text "64"
    then record o { bitrate = bitrate_64 }
    else o

unfoldable pub with_modulation : ExecutionOptions → String → ExecutionOptions
with_modulation o text =
    if str_eq text "manchester"
    then record o { modulation = manchester }
    else if str_eq text "biphase"
    then record o { modulation = biphase }
    else o

-- One option that `getopt_long` has returned: its letter and its text, if it takes one.
pub record ParsedOption : Type 0 where
  pub letter : ℕ
  pub text : String

module _ (strtol : String → ℤ) where
  unfoldable pub with_option : ExecutionOptions → ParsedOption → ExecutionOptions
  unfolding with_bitrate with_modulation
  with_option o p =
      if p.letter == b'h'
      then record o { show_help = true }
      else if p.letter == b'r'
      then record o { read = true }
      else if p.letter == b'p'
      then record o { write = true }
      else if p.letter == b'R'
      then record o { reset_iface = true }
      else if p.letter == b'b'
      then with_bitrate o p.text
      else if p.letter == b'm'
      then with_modulation o p.text
      else if p.letter == b'c'
      then record o { customer_id = unsigned 8 (strtol p.text) }
      else if p.letter == b't'
      then record o { token = unsigned 32 (strtol p.text) }
      else if p.letter == b'v'
      then record o { debug_log = true }
      else record o { show_help = true }

  unfoldable pub parse_options : List ParsedOption → ExecutionOptions → ExecutionOptions
  parse_options [] o = o
  parse_options (p ∷ ps) o = parse_options ps (with_option o p)
