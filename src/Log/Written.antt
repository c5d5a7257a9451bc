-- ===== src/Log/Written.antt =====
-- LexicalCast<LogDefine, std::string> of duan_src/log.cc, up to the text of the node that it makes.
use coroutine.Prelude.{ℕ, [], ◌∷◌, map, Option, none, some, ◌==◌, if◌then◌else◌}
use coroutine.Log.{String, same, unknow, to_string}
use coroutine.Log.Define.{
  AppenderDefine, LogDefine, Node, name_key, level_key, formatter_key, type_key, file_key,
  file_log_appender, stdout_log_appender,
}

-- A string under a key, unless it is empty, and a level, unless it is UNKNOW.
abbrev pub unless_empty : String → Option String
unless_empty [] = none
unless_empty (c ∷ s) = some (c ∷ s)

unfoldable pub unless_unknow : (level : ℕ) → Option String
unfolding to_string
unless_unknow level = if level == unknow then none else some (to_string level)

-- The node `na` of an appender, as what is under each key.
unfoldable pub write_appender : AppenderDefine → String → Option String
unfolding unless_unknow
write_appender a key =
    if same key type_key
    then (if a.type == 1
        then some file_log_appender
        else if a.type == 2
        then some stdout_log_appender
        else none)
    else if same key file_key
    then (if a.type == 1 then some a.file else none)
    else if same key level_key
    then unless_unknow a.level
    else if same key formatter_key
    then unless_empty a.formatter
    else none

-- The node `n` of a define
unfoldable pub write_define : LogDefine → Node
unfolding write_appender unless_unknow
write_define i = record {
  scalar = λ key.
      if same key name_key
      then some i.name
      else if same key level_key
      then unless_unknow i.level
      else if same key formatter_key
      then unless_empty i.formatter
      else none;
  appenders = map write_appender i.appenders;
}
