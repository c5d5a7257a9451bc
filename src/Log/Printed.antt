-- ===== src/Log/Printed.antt =====
-- toYamlString of the appenders, of a Logger and of the LoggerManager, duan_src/log.cc, up to the text of
-- the nodes that they make. A node that is printed and loaded again counts as the node.
use coroutine.Prelude.{ℕ, List, [], ◌∷◌, map, Option, none, some, if◌then◌else◌}
use coroutine.Log.{String, same, to_string}
use coroutine.Log.Formatter.{LogFormatter}
use coroutine.Log.Loggers.{stdout_output, file_output, LogAppender, Store, LoggerManager}
use coroutine.Log.Define.{
  Node, name_key, level_key, formatter_key, type_key, file_key, file_log_appender,
  stdout_log_appender,
}
use coroutine.Log.Written.{unless_unknow}

-- "fomatter"
abbrev pub fomatter_key : String
fomatter_key = 102 ∷ 111 ∷ 109 ∷ 97 ∷ 116 ∷ 116 ∷ 101 ∷ 114 ∷ []

-- LogFormatter::getPattern, where there is a formatter.
abbrev pub pattern_of : Option LogFormatter → Option String
pattern_of none = none
pattern_of (some f) = some f.pattern

-- The pattern of a formatter that is the appender's own.
abbrev pub own_pattern : LogAppender → Option String
own_pattern a = if a.has_formatter then pattern_of a.formatter else none

-- StdoutLogAppender::toYamlString
unfoldable pub print_stdout : LogAppender → String → Option String
unfolding unless_unknow
print_stdout a key =
    if same key type_key
    then some stdout_log_appender
    else if same key level_key
    then unless_unknow a.level
    else if same key formatter_key
    then own_pattern a
    else none

-- FileLogAppender::toYamlString
unfoldable pub print_file : LogAppender → (filename : String) → String → Option String
unfolding unless_unknow
print_file a filename key =
    if same key type_key
    then some file_log_appender
    else if same key file_key
    then some filename
    else if same key level_key
    then unless_unknow a.level
    else if same key fomatter_key
    then own_pattern a
    else none

unfoldable pub print_appender : LogAppender → String → Option String
unfolding print_stdout print_file
print_appender a = elim a.output [
  | stdout_output ↦ print_stdout a
  | file_output filename content last_time ↦ print_file a filename
]

-- Logger::toYamlString
unfoldable pub print_logger : Store → (logger : ℕ) → Node
unfolding print_appender to_string
print_logger st l =
    let me = st.logger l in
    record {
      scalar = λ key.
          if same key name_key
          then some me.name
          else if same key level_key
          then some (to_string me.level)
          else if same key formatter_key
          then pattern_of me.formatter
          else none;
      appenders = map (λ i. print_appender (st.appender i)) me.appenders;
    }

-- LoggerManager::toYamlString, a node for each logger.
unfoldable pub print_loggers : LoggerManager → List Node
unfolding print_logger
print_loggers m = map (λ entry. print_logger m.store entry.1) m.loggers
