-- ===== src/Logging.antt =====
-- src/LogManager.cpp and src/LogHandler.cpp: the handlers of the log and the way of a message to them.
pub mod Handler
pub mod Laws
use exodbc.Prelude.{Bool, false, ◌||◌, Option, none, some, List, [], ◌∷◌, ◌++◌, ltb, if◌then◌else◌}
use exodbc.Prelude.Texts.{}
use exodbc.Odbc.{Result, assertion, ok, raised}
use exodbc.Logging.Handler.{
  level_number, new_std_log_handler, same_handler, on_log_message, LogLevel, Message, LogHandler,
  Written, Printing, info_level, debug_level,
}

pub record LogManager : Type 0 where
  pub log_handlers : List LogHandler
  pub global_log_level : LogLevel

-- `RegisterLogHandler`
abbrev pub is_registered : LogHandler → List LogHandler → Bool
is_registered h [] = false
is_registered h (g ∷ r) = same_handler g h || is_registered h r

unfoldable pub register_handler : LogHandler → LogManager → LogManager
register_handler h m =
    if is_registered h m.log_handlers
    then m
    else record m { log_handlers = m.log_handlers ++ (h ∷ []) }

unfoldable pub register_log_handler :
    Option LogHandler → LogManager → Result (Unit {0}) × LogManager
unfolding register_handler
register_log_handler none m = (raised assertion, m)
register_log_handler (some h) m = (ok tt, register_handler h m)

-- `LogManager()`, where the build decides on the level.
unfoldable pub new_log_manager : Bool → LogManager
unfolding register_handler
new_log_manager is_debug =
    register_handler new_std_log_handler (record {
      log_handlers = [];
      global_log_level = if is_debug then debug_level else info_level;
    })

unfoldable pub clear_log_handlers : LogManager → LogManager
clear_log_handlers m = record m { log_handlers = [] }

-- `RemoveLogHandler`: the first that is equal is erased.
unfoldable pub remove_handler : LogHandler → List LogHandler → List LogHandler
remove_handler h [] = []
remove_handler h (g ∷ r) = let rest = g ∷ remove_handler h r in if same_handler g h then r else rest

unfoldable pub remove_log_handler : LogHandler → LogManager → LogManager
unfolding remove_handler
remove_log_handler h m = record m { log_handlers = remove_handler h m.log_handlers }

unfoldable pub set_global_log_level : LogLevel → LogManager → LogManager
set_global_log_level l m = record m { global_log_level = l }

module _ (p : Printing) where
  -- The loop of `LogMessage`: what the handlers write, and how they are afterwards.
  abbrev pub each : Message → List LogHandler → List Written × List LogHandler
  each x [] = ([], [])
  each x (h ∷ r) =
      let (out, h') = on_log_message p x h in let (outs, r') = each x r in (out ++ outs, h' ∷ r')

  unfoldable pub log_message : Message → LogManager → List Written × LogManager
  unfolding on_log_message
  log_message x m =
      let (outs, hs) = each x m.log_handlers in
      if ltb (level_number x.level) (level_number m.global_log_level)
      then ([], m)
      else (outs, record m { log_handlers = hs })

  -- A message while a `LogLevelSetter` is alive: its constructor sets the level, and its destructor
  -- sets it back.
  unfoldable pub log_with_setter : LogLevel → Message → LogManager → List Written × LogManager
  unfolding log_message set_global_log_level
  log_with_setter l x m =
      let (outs, m') = log_message x (set_global_log_level l m) in
      (outs, set_global_log_level m.global_log_level m')
