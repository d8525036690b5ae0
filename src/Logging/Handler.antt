-- ===== src/Logging/Handler.antt =====
-- src/LogHandler.cpp and include/exodbc/LogHandler.h: what the handlers write.
use exodbc.Prelude.{
  ℕ, Bool, true, false, not, ◌&&◌, ◌||◌, Option, none, some, List, [], ◌∷◌, ◌++◌, ltb, leb, ◌==◌,
  if◌then◌else◌, is_empty,
}
use exodbc.Prelude.Texts.{Text, txt, text_eq}

pub data LogLevel : Type 0 where
  none_level error_level warning_level output_level info_level debug_level : LogLevel

-- The numbers of the enumeration.
abbrev pub level_number : LogLevel → ℕ
level_number none_level = 100
level_number error_level = 10
level_number warning_level = 9
level_number output_level = 7
level_number info_level = 5
level_number debug_level = 3

pub record Message : Type 0 where
  pub level : LogLevel
  pub msg : Text
  pub filename : Text
  pub line : ℕ
  pub functionname : Text

-- `LogHandlerBase`. The constructor leaves `m_hasCustomLogLevel` without a value; `custom_level` is
-- what it and `m_customLogLevel` come to.
pub record LogHandlerBase : Type 0 where
  pub show_file_info : Bool
  pub show_log_level : Bool
  pub hide_log_level : List LogLevel
  pub custom_level : Option LogLevel

pub data LogHandler : Type 0 where
  -- with whether it redirects to stderr and to stdout
  std_log_handler : LogHandlerBase → Bool → Bool → LogHandler
  null_log_handler : LogHandlerBase → LogHandler
  -- with its path, whether it writes the time, and whether no message has come yet
  file_log_handler : LogHandlerBase → Text → Bool → Bool → LogHandler

abbrev pub new_base : LogHandlerBase
new_base = record {
  show_file_info = true;
  show_log_level = true;
  hide_log_level = [];
  custom_level = none;
}

abbrev pub new_std_log_handler : LogHandler
new_std_log_handler = std_log_handler new_base false false

-- `operator==`
abbrev pub same_handler : LogHandler → LogHandler → Bool
same_handler (std_log_handler b e o) (std_log_handler b' e' o') = true
same_handler (null_log_handler b) (null_log_handler b') = true
same_handler (file_log_handler b s p f) (file_log_handler b' s' p' f') = text_eq s' s
same_handler _ _ = false

-- Where a text goes; a file is emptied when it is opened for the first message.
pub data Written : Type 0 where
  to_std_err to_std_out : Text → Written
  to_file : Text → Text → Written
  truncated : Text → Written

-- The digits of a line number, the time as text, and whether a file can be opened.
pub record Printing : Type 0 where
  pub decimal : ℕ → Text
  pub now : Text
  pub can_open : Text → Bool

abbrev level_text : LogLevel → Text
level_text error_level = txt "ERROR"
level_text warning_level = txt "WARNING"
level_text output_level = txt "OUTPUT"
level_text info_level = txt "INFO"
level_text debug_level = txt "DEBUG"
level_text none_level = txt "UNKNOWN"

abbrev hides : LogLevel → List LogLevel → Bool
hides l [] = false
hides l (k ∷ r) = level_number k == level_number l || hides l r

-- `CustomLogLevelHidesMsg`
abbrev pub custom_level_hides : LogLevel → Option LogLevel → Bool
custom_level_hides l none = false
custom_level_hides l (some c) = ltb (level_number l) (level_number c)

module _ (p : Printing) where
  abbrev have_source_info : Message → Bool
  have_source_info x = not (is_empty x.filename) || ltb 0 x.line || not (is_empty x.functionname)

  abbrev line_text : Message → Text
  line_text x =
      if ltb 0 x.line
      then txt "(" ++ (p.decimal x.line ++ txt ")")
      else (if not (is_empty x.filename) then txt "(??)" else [])

  abbrev source_text : Message → Text
  source_text x = txt "[" ++ (x.filename ++ (line_text x ++ (x.functionname ++ txt "]")))

  -- What stands before `u8": "`.
  abbrev prefix : LogHandlerBase → Message → Text
  prefix b x =
      (if b.show_log_level && not (hides x.level b.hide_log_level)
        then level_text x.level ++ txt " "
        else [])
      ++ (if have_source_info x && b.show_file_info then source_text x else [])

  unfoldable pub format_log_message : LogHandlerBase → Message → Text
  format_log_message b x = prefix b x ++ ((if is_empty (prefix b x) then [] else txt ": ") ++ x.msg)

  -- `StdLogHandler::OnLogMessage`
  abbrev without_source : Message → Message
  without_source x = record x { filename = []; line = 0; functionname = [] }

  abbrev std_text : LogHandlerBase → Message → Text
  std_text b x = format_log_message b (if b.show_file_info then x else without_source x)

  abbrev std_written : Bool → Bool → LogLevel → Text → List Written
  std_written true true l s = to_std_err s ∷ to_std_out s ∷ []
  std_written true false l s = to_std_err s ∷ []
  std_written false true l s = to_std_out s ∷ []
  std_written false false l s =
      if leb (level_number warning_level) (level_number l)
      then to_std_err s ∷ []
      else to_std_out s ∷ []

  -- `FileLogHandler::OnLogMessage`. The stream stays open, or closed, as the first message found it.
  abbrev file_text : LogHandlerBase → Bool → Message → Text
  file_text b stamped x = (if stamped then p.now ++ txt ": " else []) ++ format_log_message b x

  abbrev file_written : LogHandlerBase → Text → Bool → Bool → Message → List Written
  file_written b path stamped first_message x =
      (if first_message && p.can_open path then truncated path ∷ [] else [])
      ++ (if p.can_open path then to_file path (file_text b stamped x) ∷ [] else [])

  unfoldable pub on_log_message : Message → LogHandler → List Written × LogHandler
  unfolding format_log_message
  on_log_message x (std_log_handler b e o) = (
    if custom_level_hides x.level b.custom_level
        then []
        else std_written e o x.level (std_text b x),
    std_log_handler b e o,
  )
  on_log_message x (null_log_handler b) = ([], null_log_handler b)
  on_log_message x (file_log_handler b path stamped first_message) =
      if custom_level_hides x.level b.custom_level
      then ([], file_log_handler b path stamped first_message)
      else (file_written b path stamped first_message x, file_log_handler b path stamped false)
