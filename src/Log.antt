-- ===== src/Log.antt =====
-- rfid-tool/src/common/Log.cpp: what is printed at a level, and the dump of a buffer. What `printf`
-- makes of a format with its arguments is given as a text, and `std::isprint` is a parameter.
pub mod Dump
pub mod Calls
use Prim.Native.String.{String}
use rfid_tool.Base.{
  ℕ, zero, suc, ◌+◌, ◌%◌, ◌==◌, leb, if◌then◌else◌, Bool, List, [], ◌∷◌, ◌++◌, map, set,
}

pub data Level : Type 0 where
  none error warn log debug : Level

-- The order of the enumeration.
abbrev pub level_value : Level → ℕ
level_value none = 0
level_value error = 1
level_value warn = 2
level_value log = 3
level_value debug = 4

abbrev pub initial_level : Level
initial_level = none

-- One call that prints, with its text.
pub data Output : Type 0 where
  std_out : String → Output
  std_err : String → Output

abbrev pub report_std_out : String → List Output
report_std_out text = std_out text ∷ []

abbrev pub report_std_err : String → List Output
report_std_err text = std_err text ∷ []

abbrev pub prefix : Level → List Output
prefix none = []
prefix error = std_out "[ERR]: " ∷ []
prefix warn = std_out "[WRN]: " ∷ []
prefix log = std_out "[LOG]: " ∷ []
prefix debug = std_out "[DBG]: " ∷ []

-- `Log::report` while `_level` has the value `current`.
unfoldable pub report : (current level : Level) → String → List Output
report current level text =
    if leb (level_value level) (level_value current)
    then prefix level ++ std_out text ∷ std_out "\n" ∷ []
    else []

-- What `Log::dump` prints: "%04x:  ", " %02x", three blanks, or the characters of a row between two
-- blanks and the end of the line.
pub data Printed : Type 0 where
  offset : ℕ → Printed
  hex : ℕ → Printed
  blank : Printed
  ascii : List ℕ → Printed

-- The characters of a string before its end.
abbrev pub c_string : List ℕ → List ℕ
c_string [] = []
c_string (c ∷ cs) = if c == 0 then [] else c ∷ c_string cs

-- The loop over the rest of the last row, on fuel.
unfoldable pub pad_loop : ℕ → ℕ → List Printed
pad_loop zero i = []
pad_loop (suc fuel) i = let rest = pad_loop fuel (suc i) in if i % 16 == 0 then [] else blank ∷ rest

module _ (isprint : ℕ → Bool) (line_length : ℕ) where
  abbrev pub shown : ℕ → ℕ
  shown byte = if isprint byte then byte else b'.'

  -- Before a byte at the start of a row.
  abbrev pub row_start : ℕ → List ℕ → List Printed
  row_start i ascii_buffer =
      if i % line_length == 0
      then if i == 0 then offset i ∷ [] else ascii (c_string ascii_buffer) ∷ offset i ∷ []
      else []

  abbrev pub with_char : ℕ → List ℕ → ℕ → List ℕ
  with_char i ascii_buffer byte =
      set (set ascii_buffer (i % line_length) (shown byte)) (i % line_length + 1) 0

  -- The loop over the buffer, and the two loops after it.
  unfoldable pub dump_loop : List ℕ → ℕ → List ℕ → List Printed
  dump_loop [] i ascii_buffer = pad_loop 16 i ++ ascii (c_string ascii_buffer) ∷ []
  dump_loop (byte ∷ rest) i ascii_buffer =
      row_start i ascii_buffer
      ++ (hex byte ∷ dump_loop rest (suc i) (with_char i ascii_buffer byte))

  -- `ascii_buffer` is what the local array of `line_length` and one characters holds at first.
  unfoldable pub dump : (ascii_buffer buffer : List ℕ) → List Printed
  dump ascii_buffer buffer = dump_loop buffer 0 ascii_buffer
