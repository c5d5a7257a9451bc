-- ===== src/Log/Reread.antt =====
-- What of a define of duan_src/log.cc survives being written and read.
use coroutine.Prelude.{ok, ◌≡◌, refl, List, [], ◌∷◌, map, ◌==◌, if◌then◌else◌, arith}
use coroutine.Log.{String, unknow, from_string}
use coroutine.Log.Define.{
  AppenderDefine, LogDefine, or_empty, read_appender, read_appenders, read_define,
}
use coroutine.Log.Written.{unless_empty, write_appender, write_define}

-- The appenders of a known type, without their levels, and the console without a file.
abbrev pub without_levels : List AppenderDefine → List AppenderDefine
without_levels [] = []
without_levels (a ∷ rest) =
    if a.type == 1
    then record a { type = 1; level = unknow } ∷ without_levels rest
    else if a.type == 2
    then record a { type = 2; level = unknow; file = [] } ∷ without_levels rest
    else without_levels rest

empty-unless_empty : (s : String) → or_empty (unless_empty s) ≡ s
empty-unless_empty [] = refl
empty-unless_empty (c ∷ s) = refl

appenders_lem :
    (appenders : List AppenderDefine)
    → read_appenders (map write_appender appenders) ≡ without_levels appenders
unfolding read_appenders read_appender write_appender
appenders_lem [] = refl
appenders_lem (a ∷ rest) = ground (arith, appenders_lem rest, empty-unless_empty a.formatter)

-- A define that is written and read keeps its name, its pattern and, in their order, its appenders of the
-- types 1 and 2 with their types and patterns, those of type 1 with their files. It loses every level, its
-- own and those of its appenders, the appenders of any other type, and a file that an appender of type 2
-- names.
pub read_define-write_define :
    (i : LogDefine)
    → read_define (write_define i)
      ≡ ok (record i { level = unknow; appenders = without_levels i.appenders })
unfolding read_define write_define from_string
read_define-write_define i = rw (empty-unless_empty i.formatter, appenders_lem i.appenders) refl
