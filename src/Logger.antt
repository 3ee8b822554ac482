-- ===== src/Logger.antt =====
-- raft/log/logger.go: the level that is configured, and what the default logger writes. The text of a call
-- is the result of fmt, and a line is the level and the text; the package log puts the prefix and the time
-- before it.
use yyckv.Base.{
  Text, codes, Bool, true, false, List, [], ◌∷◌, ◌++◌, if◌then◌else◌, same_text, Fallible, panic,
  fatal, raised,
}

pub data Level : Type 0 where
  debug_level info_level warn_level error_level : Level

-- The level that `NewAtomicLevel` starts with is that of the default.
unfoldable pub init_logger_level : Text → Level
init_logger_level level =
    if same_text level (codes "error")
    then error_level
    else if same_text level (codes "warn")
    then warn_level
    else if same_text level (codes "debug")
    then debug_level
    else info_level

pub record DefaultLogger : Type 0 where
  pub debug : Bool
  pub date : Bool
  pub time : Bool
  pub lines : List Text

-- With the flags `LstdFlags`.
abbrev pub default_logger : DefaultLogger
default_logger = record { debug = false; date = true; time = true; lines = [] }

abbrev pub discard_logger : DefaultLogger
discard_logger = record { debug = false; date = false; time = false; lines = [] }

abbrev pub enable_timestamps : DefaultLogger → DefaultLogger
enable_timestamps l = record l { date = true; time = true }

abbrev pub enable_debug : DefaultLogger → DefaultLogger
enable_debug l = record l { debug = true }

unfoldable pub header : Text → Text → Text
header level text = level ++ codes ": " ++ text

abbrev output : DefaultLogger → Text → DefaultLogger
output l line = record l { lines = l.lines ++ (line ∷ []) }

module _ (l : DefaultLogger) (text : Text) where
  unfoldable pub debug : DefaultLogger
  unfolding header
  debug = if l.debug then output l (header (codes "DEBUG") text) else l

  unfoldable pub info : DefaultLogger
  unfolding header
  info = output l (header (codes "INFO") text)

  unfoldable pub error : DefaultLogger
  unfolding header
  error = output l (header (codes "ERROR") text)

  unfoldable pub warning : DefaultLogger
  unfolding header
  warning = output l (header (codes "WARN") text)

  -- The line is written before the process or the goroutine ends.
  unfoldable pub fatal_exit : DefaultLogger × Fallible (Unit {0})
  unfolding header
  fatal_exit = (output l (header (codes "FATAL") text), panic fatal)

  unfoldable pub panic_with : DefaultLogger × Fallible (Unit {0})
  panic_with = (output l text, panic raised)

-- `raftLogger`, over the two loggers.
pub record Loggers : Type 0 where
  pub default_one : DefaultLogger
  pub raft_logger : DefaultLogger

abbrev pub set_logger : Loggers → DefaultLogger → Loggers
set_logger s l = record s { raft_logger = l }

abbrev pub reset_default_logger : Loggers → Loggers
reset_default_logger s = set_logger s s.default_one

abbrev pub get_logger : Loggers → DefaultLogger
get_logger s = s.raft_logger
