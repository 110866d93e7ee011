-- ===== src/Log.antt =====
-- internal/log/logger.go: `NewLogger`. The package slog is a parameter.
use scorpion.Prelude.{ℕ, String, Bool, true, List, ◌==◌, ◌≡◌, ◌<◌, if◌then◌else◌}
use scorpion.Config.{Observability}

pub data Level : Type 0 where
  level_debug level_info level_warn level_error : Level

abbrev pub severity : Level → ℕ
severity level_debug = 0
severity level_info = 1
severity level_warn = 2
severity level_error = 3

-- The options of the handler, and whether it writes text in place of JSON.
pub record Logger : Type 0 where
  pub add_source : Bool
  pub level : Level
  pub text : Bool

unfoldable pub level_of : String → Level
level_of name =
    if name == "debug"
    then level_debug
    else if name == "warn"
    then level_warn
    else if name == "error"
    then level_error
    else level_info

unfoldable pub new_logger : Observability → Logger
new_logger cfg = record {
  add_source = true;
  level = level_of cfg.log_level;
  text = cfg.log_format == "text";
}

-- The value of an attribute of a line.
pub data Arg : Type 0 where
  word : String → Arg
  number : ℕ → Arg

pub record Slog : Type 1 where
  -- what has been written
  pub Out : Type 0
  pub write : Logger → Level → String → List (String × Arg) → Out → Out
  -- A handler discards the lines below its level.
  pub write_below :
      (l : Logger) (level : Level) (msg : String) (args : List (String × Arg)) (out : Out)
      → severity level < severity l.level
      → write l level msg args out ≡ out
