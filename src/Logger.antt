-- ===== src/Logger.antt =====
-- The logger (http-parser/src/logger.c and logger.h). A file is its descriptor. What the system does is
-- a parameter: `fopen`, `fclose`, the line that goes to a file, and the texts of the time and of the
-- thread. A message comes with its arguments filled in. `attachment` is never read.
pub mod Lines
mod Tests
use http_library.Prelude.{
  ℕ, Bool, true, false, Option, none, some, List, [], ◌∷◌, ◌++◌, ◌==◌, ltb, leb, ◌&&◌, not,
  if◌then◌else◌, codes, take,
}

abbrev pub log_level_error : ℕ
log_level_error = 0

abbrev pub log_level_warn : ℕ
log_level_warn = 1

abbrev pub log_level_info : ℕ
log_level_info = 2

abbrev pub log_level_debug : ℕ
log_level_debug = 3

abbrev pub log_level_trace : ℕ
log_level_trace = 4

abbrev pub stderr : ℕ
stderr = 2

-- `callback_func`: the user's function of the level, the thread and the message, or
-- `logger_log_to_file`
pub data LoggerCallback (World : Type 0) : Type 0 where
  user : (ℕ → List ℕ → List ℕ → World → World) → LoggerCallback World
  to_file : LoggerCallback World

pub record Logger (World : Type 0) : Type 0 where
  pub callback_func : Option (LoggerCallback World)
  pub log_file : Option ℕ
  pub log_level : ℕ

-- What the system does for the logger.
pub record LogSystem (World : Type 0) : Type 0 where
  pub fopen : List ℕ → Option ℕ
  -- whether the file is closed without an error
  pub fclose : ℕ → Bool
  pub fprintf : ℕ → List ℕ → World → World
  -- the text of the clock at that time
  pub time_str : World → List ℕ
  -- the text of the thread that calls at that time
  pub thread : World → List ℕ

-- The name of a level; `default` stands with the name of the information level.
unfoldable pub log_level_name : ℕ → List ℕ
log_level_name level =
    if level == log_level_error
    then codes "ERROR"
    else (if level == log_level_warn
        then codes "WARN"
        else (if level == log_level_debug
            then codes "DEBUG"
            else (if level == log_level_trace then codes "TRACE" else codes "INFO")))

module _ {World : Type 0} (system : LogSystem World) where
  abbrev pub open_file : Option (List ℕ) → Option ℕ
  open_file none = none
  open_file (some filename) = system.fopen filename

  abbrev pub or_stderr : Option ℕ → ℕ
  or_stderr none = stderr
  or_stderr (some file) = file

  -- The block that `logger_open` fills in, and the pointer that its caller gets. There is no return
  -- statement, so that pointer is any value, an argument.
  unfoldable pub logger_open :
      Option (List ℕ) → ℕ → Option (ℕ → List ℕ → List ℕ → World → World) → ℕ → Logger World × ℕ
  logger_open filename log_level (some callback) returned = (
    record { callback_func = some (user callback); log_file = none; log_level = log_level },
    returned,
  )
  logger_open filename log_level none returned = (
    record {
      callback_func = some to_file;
      log_file = some (or_stderr (open_file filename));
      log_level = log_level;
    },
    returned,
  )

  -- what `logger_close` returns, and the files that it closes
  unfoldable pub logger_close : Logger World → ℕ × List ℕ × Logger World
  logger_close ctx = elim ctx.log_file [
    | none ↦ (0, [], ctx)
    | some file ↦ (
      if ltb file 3 && not (system.fclose file) then 1 else 0,
      if ltb file 3 then file ∷ [] else [],
      record ctx { log_file = none; callback_func = none },
    )
  ]

  unfoldable pub logger_log_to_file : Logger World → ℕ → List ℕ → List ℕ → World → World
  logger_log_to_file ctx log_level thread_info message w = elim ctx.log_file [
    | none ↦ w
    | some file ↦
        system.fprintf file
          (system.time_str w
            ++ codes " "
            ++ thread_info
            ++ codes " "
            ++ log_level_name log_level
            ++ codes " "
            ++ message
            ++ codes "\n")
          w
  ]

  abbrev pub call : LoggerCallback World → Logger World → ℕ → List ℕ → List ℕ → World → World
  call (user callback) ctx log_level thread_info message w =
      callback log_level thread_info message w
  call to_file ctx log_level thread_info message w =
      logger_log_to_file ctx log_level thread_info message w

  -- with `vsnprintf` into 256 bytes and `snprintf` into 64
  unfoldable pub logger_log : Logger World → ℕ → List ℕ → World → World
  logger_log ctx log_level message w = elim ctx.callback_func [
    | none ↦ w
    | some callback ↦
        if leb log_level ctx.log_level
        then call callback ctx log_level (take 63 (system.thread w)) (take 255 message) w
        else w
  ]

  unfoldable pub logger_set_log_level : Logger World → ℕ → Logger World
  logger_set_log_level ctx log_level = record ctx { log_level = log_level }

  unfoldable pub logger_is_open : Logger World → Bool
  logger_is_open ctx = elim ctx.log_file [ none ↦ false | some file ↦ true ]
