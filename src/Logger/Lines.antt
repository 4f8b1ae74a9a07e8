-- ===== src/Logger/Lines.antt =====
-- What a logger writes to its file (`logger_log`, http-parser/src/logger.c).
use http_library.Prelude.{ℕ, some, List, [], ◌∷◌, ◌++◌, leb, if◌then◌else◌, codes, take}
use http_library.Logger.{
  Logger, to_file, LogSystem, log_level_name, logger_log, logger_set_log_level,
}

-- A message with its level, or a new level.
pub data LogRequest : Type 0 where
  message_logged : ℕ → List ℕ → LogRequest
  level_changed : ℕ → LogRequest

module _ {World : Type 0} (system : LogSystem World) where
  -- The requests one after the other.
  unfoldable pub run_log : List LogRequest → Logger World → World → World
  run_log [] ctx w = w
  run_log (message_logged level message ∷ requests) ctx w =
      run_log requests ctx (logger_log system ctx level message w)
  run_log (level_changed level ∷ requests) ctx w =
      run_log requests (logger_set_log_level system ctx level) w

  -- The line of a message: the time and the first 63 bytes of the thread's text when it is written, the
  -- level, and the first 255 bytes of the message.
  abbrev pub line : ℕ → List ℕ → World → List ℕ
  line level message w =
      system.time_str w
      ++ codes " "
      ++ take 63 (system.thread w)
      ++ codes " "
      ++ log_level_name level
      ++ codes " "
      ++ take 255 message
      ++ codes "\n"

  -- The lines of the messages that are not above the level.
  unfoldable pub lines_of : List LogRequest → ℕ → List (World → List ℕ)
  lines_of [] log_level = []
  lines_of (message_logged level message ∷ requests) log_level =
      let rest = lines_of requests log_level in
      if leb level log_level then line level message ∷ rest else rest
  lines_of (level_changed level ∷ requests) log_level = lines_of requests level

  -- Lines that are written one after the other, each with the time of its own.
  abbrev pub write_all : ℕ → List (World → List ℕ) → World → World
  write_all file [] w = w
  write_all file (text ∷ texts) w = write_all file texts (system.fprintf file (text w) w)

  abbrev pub file_logger : ℕ → ℕ → Logger World
  file_logger file log_level = record {
    callback_func = some to_file;
    log_file = some file;
    log_level = log_level;
  }
