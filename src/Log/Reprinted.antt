-- ===== src/Log/Reprinted.antt =====
-- What the configuration of duan_src/log.cc reads from a printed logger.
use coroutine.Prelude.{ok, ℕ, ◌≡◌, refl, ◌∙◌, ap, Bool, List, [], ◌∷◌, map, Option, some}
use coroutine.Log.{String, unknow, from_string}
use coroutine.Log.Formatter.{LogFormatter}
use coroutine.Log.Loggers.{Output, stdout_output, file_output, LogAppender, Store}
use coroutine.Log.Define.{AppenderDefine, or_empty, read_appender, read_appenders, read_define}
use coroutine.Log.Printed.{
  pattern_of, own_pattern, print_appender, print_stdout, print_file, print_logger,
}

-- A file keeps its name, and the console the pattern of its own.
abbrev pub reread : LogAppender → AppenderDefine
reread a = elim a.output [
  | stdout_output ↦ record {
    type = 2;
    level = unknow;
    formatter = or_empty (own_pattern a);
    file = [];
  }
  | file_output filename content last_time ↦ record {
    type = 1;
    level = unknow;
    formatter = [];
    file = filename;
  }
]

print_appender-read :
    (level : ℕ) (has : Bool) (formatter : Option LogFormatter) (output : Output)
    → let a : LogAppender = record {
      level = level;
      has_formatter = has;
      formatter = formatter;
      output = output;
    } in
      read_appender (print_appender a) ≡ some (reread a)
unfolding read_appender print_appender print_stdout print_file
print_appender-read level has formatter stdout_output = refl
print_appender-read level has formatter (file_output filename content last_time) = refl

reread_lem : (a : LogAppender) → read_appender (print_appender a) ≡ some (reread a)
reread_lem a = print_appender-read a.level a.has_formatter a.formatter a.output

read_appenders-first :
    (a : String → Option String) (nodes : List (String → Option String)) (lad : AppenderDefine)
    → read_appender a ≡ some lad
    → read_appenders (a ∷ nodes) ≡ lad ∷ read_appenders nodes
unfolding read_appenders
read_appenders-first a nodes lad h = rw (read_appenders, h) refl

reread-all :
    (appender : ℕ → LogAppender) (is : List ℕ)
    → read_appenders (map (λ i. print_appender (appender i)) is) ≡ map (λ i. reread (appender i)) is
unfolding read_appenders
reread-all appender [] = refl
reread-all appender (i ∷ is) =
    read_appenders-first (print_appender (appender i)) (map (λ x. print_appender (appender x)) is)
      (reread (appender i)) (reread_lem (appender i))
    ∙ ap (λ rest. reread (appender i) ∷ rest) (reread-all appender is)

-- A logger that is printed by toYamlString and read as a define gives its name and pattern and all its
-- appenders in their order, each with its type and the name of its file. The level of the logger and of
-- its appenders are lost, and the pattern of its own that a file appender has.
pub read_define-print_logger :
    (st : Store) (l : ℕ)
    → read_define (print_logger st l)
      ≡ ok (record {
        name = (st.logger l).name;
        level = unknow;
        formatter = or_empty (pattern_of (st.logger l).formatter);
        appenders = map (λ i. reread (st.appender i)) (st.logger l).appenders;
      })
unfolding read_define print_logger from_string
read_define-print_logger st l = rw (reread-all st.appender (st.logger l).appenders) refl
