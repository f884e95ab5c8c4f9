-- ===== src/Logger.antt =====
-- logger.h and logger.cpp: the one logger of the program. spdlog, which opens and writes the log
-- files, is a parameter.
pub mod Interface
use vector_engine.Common.{ℕ, ◌*◌, [], ◌∷◌, Bytes, codes, Option, none, some, Bool, if◌then◌else◌}
use vector_engine.Errors.{Error, Outcome, ok, throws, undefined, engine, ◌>>=◌}

-- The five levels, and a value of the type that none of them names.
pub data LogLevel : Type 0 where
  debug : LogLevel
  info : LogLevel
  warn : LogLevel
  error : LogLevel
  critical : LogLevel
  other_level : LogLevel

pub record LoggerOptions : Type 0 where
  pub path : Bytes
  pub max_size : ℕ
  pub max_files : ℕ
  pub level : LogLevel
  pub pattern : Bytes

-- The options as they are made.
abbrev pub default_logger_options : LoggerOptions
default_logger_options = record {
  path = codes "logs/vector-engine.log";
  max_size = 5 * 1024 * 1024;
  max_files = 3;
  level = info;
  pattern = codes "[%Y-%m-%d %H:%M:%S.%e] [%n] [%t] [%l] [%s:%#] %v";
}

-- spdlog: the loggers that it makes, how it opens one for a path, a size and a count of files,
-- their settings, how one takes a message, and the levels whose macros are compiled.
pub record Spdlog : Type 1 where
  pub SpdLogger : Type 0
  pub rotating_logger : Bytes → ℕ → ℕ → Outcome SpdLogger
  pub set_level : SpdLogger → LogLevel → SpdLogger
  pub set_pattern : SpdLogger → Bytes → SpdLogger
  pub call : SpdLogger → LogLevel → Bytes → SpdLogger
  pub compiled : LogLevel → Bool

pub unsupported : Error
unsupported = record { msg = codes "unsupported log level" }

-- The `switch`: the case of `debug` has no `break`.
unfoldable pub level_of : LogLevel → Outcome LogLevel
level_of debug = ok info
level_of info = ok info
level_of warn = ok warn
level_of error = ok error
level_of critical = ok critical
level_of other_level = throws (engine unsupported)

module _ (s : Spdlog) where
  open s use {SpdLogger}

  -- `_logger` is null until `init` has returned.
  pub record Logger : Type 0 where
    pub logger : Option SpdLogger

  -- `instance`, as it is made at its first call.
  unfoldable pub instance_logger : Logger
  instance_logger = record { logger = none }

  -- The pattern is set if there is one.
  unfoldable pub use_pattern : SpdLogger → Bytes → SpdLogger
  use_pattern l [] = l
  use_pattern l (c ∷ cs) = s.set_pattern l (c ∷ cs)

  unfoldable pub init : LoggerOptions → Logger → Outcome Logger
  unfolding use_pattern
  init opts logger = do
    l ← s.rotating_logger opts.path opts.max_size opts.max_files
    level ← level_of opts.level
    ok (record { logger = some (use_pattern (s.set_level l level) opts.pattern) })

  unfoldable pub get : Logger → Outcome SpdLogger
  get logger = elim logger.logger [ none ↦ undefined | some l ↦ ok l ]

  -- The five macros, for the level of each; one that is not compiled reads no logger.
  unfoldable pub log : LogLevel → Bytes → Logger → Outcome Logger
  unfolding get
  log level message logger =
      if s.compiled level
      then (get logger >>= λ l. ok (record { logger = some (s.call l level message) }))
      else ok logger
