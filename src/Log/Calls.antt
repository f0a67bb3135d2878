-- ===== src/Log/Calls.antt =====
-- The calls of rfid-tool/src/common/Log.cpp for each level.
use Prim.Native.String.{String}
use rfid_tool.Base.{List}
use rfid_tool.Log.{Level, Output, report}

abbrev pub set_level : (current level : Level) → Level
set_level current level = level

abbrev pub debug : Level → String → List Output
debug current text = report current Level.debug text

abbrev pub log : Level → String → List Output
log current text = report current Level.log text

abbrev pub warn : Level → String → List Output
warn current text = report current Level.warn text

abbrev pub error : Level → String → List Output
error current text = report current Level.error text
