-- ===== src/Util/Log.antt =====
-- Namespace `shaka.log` (shaka/js/shaka-player.compiled.debug.js): which loggers write to the console.
use shaka_player_embedded.Base.{ℕ, leb, Bool, false, if◌then◌else◌}

pub data Level : Type 0 where
  none_level error_level warning_level info_level debug_level v1_level v2_level : Level

abbrev pub number_of : Level → ℕ
number_of none_level = 0
number_of error_level = 1
number_of warning_level = 2
number_of info_level = 3
number_of debug_level = 4
number_of v1_level = 5
number_of v2_level = 6

-- Whether each function is bound to the console, or does nothing.
pub record Loggers : Type 0 where
  pub error : Bool
  pub warning : Bool
  pub info : Bool
  pub debug : Bool
  pub v1 : Bool
  pub v2 : Bool

abbrev pub max_log_level : Level
max_log_level = debug_level

unfoldable pub set_level : ℕ → Loggers
set_level a = record {
  error = leb (number_of error_level) a;
  warning = leb (number_of warning_level) a;
  info = leb (number_of info_level) a;
  debug = leb (number_of debug_level) a;
  v1 = leb (number_of v1_level) a;
  v2 = leb (number_of v2_level) a;
}

abbrev pub silent : Loggers
silent = record {
  error = false;
  warning = false;
  info = false;
  debug = false;
  v1 = false;
  v2 = false;
}

-- The loggers when the file is loaded. Without a debugger the level is fixed.
unfoldable pub initial : Bool → Loggers
initial has_console = if has_console then set_level (number_of max_log_level) else silent
