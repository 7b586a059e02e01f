-- ===== src/Logging/Lines.antt =====
-- include/trading/logging/log_level.hpp, and include/trading/logging/app_logger.hpp and
-- src/logging/app_logger.cpp: the levels, the format of a line, and the application's logger.
use live_trading_engine.Common.{
  ℕ, ◌%◌, Bool, true, ltb, List, [], ◌∷◌, ◌++◌, if◌then◌else◌, Text, codes, decimal,
}
use live_trading_engine.Logging.{AsyncLogger, push_log}

pub data LogLevel : Type 0 where
  debug info warning error : LogLevel

-- The place of a level in the order of the enumeration.
abbrev pub severity : LogLevel → ℕ
severity debug = 0
severity info = 1
severity warning = 2
severity error = 3

-- A reading of the clock: the date and the local time that std::put_time prints, and the milliseconds
-- since the epoch.
pub record Moment : Type 0 where
  pub date_time : Text
  pub milliseconds : ℕ

-- With std::setfill('0') and std::setw(3).
unfoldable pub three_digits : ℕ → Text
three_digits n =
    if ltb n 10
    then codes "00" ++ decimal n
    else if ltb n 100
    then codes "0" ++ decimal n
    else decimal n

unfoldable pub get_current_timestamp : Moment → Text
unfolding three_digits
get_current_timestamp now = now.date_time ++ (codes "." ++ three_digits (now.milliseconds % 1000))

unfoldable pub level_tag : LogLevel → Text
level_tag debug = codes "[DEBUG] "
level_tag info = codes "[INFO]  "
level_tag warning = codes "[WARN]  "
level_tag error = codes "[ERROR] "

unfoldable pub format_log_entry : Moment → LogLevel → Text → Text
unfolding get_current_timestamp level_tag
format_log_entry now level message =
    codes "[" ++ (get_current_timestamp now ++ (codes "] " ++ (level_tag level ++ message)))

-- addLog: the test of `done_`, and the push.
unfoldable pub add_log : AsyncLogger → Text → AsyncLogger
add_log l message = if l.done then l else push_log l message

-- The two streams of the console are the lines that they got.
pub record AppLogger : Type 0 where
  pub async : AsyncLogger
  pub current_log_level : LogLevel
  pub console_output_enabled : Bool
  pub cout : List Text
  pub cerr : List Text

unfoldable pub new_app_logger : AsyncLogger → AppLogger
new_app_logger async = record {
  async = async;
  current_log_level = info;
  console_output_enabled = true;
  cout = [];
  cerr = [];
}

abbrev to_console : AppLogger → LogLevel → Text → AppLogger
to_console a level line =
    if ltb (severity level) (severity warning)
    then record a { cout = a.cout ++ (line ∷ []) }
    else record a { cerr = a.cerr ++ (line ∷ []) }

unfoldable pub log_line : AppLogger → Moment → LogLevel → Text → AppLogger
unfolding format_log_entry add_log
log_line a now level message =
    let line = format_log_entry now level message in
    let queued = record a { async = add_log a.async line } in
    if ltb (severity level) (severity a.current_log_level)
    then a
    else if a.console_output_enabled
    then to_console queued level line
    else queued

unfoldable pub set_log_level : AppLogger → LogLevel → AppLogger
set_log_level a level = record a { current_log_level = level }

unfoldable pub enable_console_output : AppLogger → Bool → AppLogger
enable_console_output a enable = record a { console_output_enabled = enable }
