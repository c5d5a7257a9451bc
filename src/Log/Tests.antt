-- ===== src/Log/Tests.antt =====
-- Runs of duan_src/log.cc.
use coroutine.Prelude.{
  Result, ok, abort, fault, throws, ℕ, ◌≡◌, refl, false, List, [], ◌∷◌, map, none, some, update,
  arith, true,
}
use coroutine.Log.{String, debug, info, warn, to_string, from_string, decimal}
use coroutine.Log.Formatter.{
  string, level, date_time, LogFormatter, message, new_line, new_formatter, format,
}
use coroutine.Log.Loggers.{
  stdout_output, file_output, Store, LoggerManager, default_pattern, new_appender, log, LogAppender,
  add_appender,
}
use coroutine.Log.Define.{name_key, read_define, LogDefine, apply_new}
use coroutine.Log.Pattern.{Token, words, braced, bare, print}
use coroutine.Log.Conversions.{new_formatter-print}
use coroutine.Log.Written.{write_define}
use coroutine.Log.Statement.{Place, log_level, log_fmt_level}
use coroutine.Log.Logged.{event_of, statement-console}
use coroutine.Log.Printed.{print_logger, print_loggers}
use coroutine.Log.Reprinted.{read_define-print_logger}
use coroutine.Log.Reread.{read_define-write_define}
use coroutine.Log.Delivery.{lines_of, sinks}

levels : from_string (to_string warn) ≡ warn
unfolding from_string
levels = refl

default_pattern-new_formatter : (new_formatter default_pattern).error ≡ false
unfolding new_formatter
default_pattern-new_formatter = refl

digits_example_run : decimal 1024 ≡ 49 ∷ 48 ∷ 50 ∷ 52 ∷ []
digits_example_run = refl

-- "[%p] %d{%H}%n"
abbrev tokens : List Token
tokens =
    words (91 ∷ [])
    ∷ bare (112 ∷ [])
    ∷ words (93 ∷ 32 ∷ [])
    ∷ braced (100 ∷ []) (37 ∷ 72 ∷ [])
    ∷ bare (110 ∷ [])
    ∷ []

new_formatter-print_example : new_formatter (print tokens) ≡ record {
  pattern = print tokens;
  items =
      string (91 ∷ []) ∷ level ∷ string (93 ∷ 32 ∷ []) ∷ date_time (37 ∷ 72 ∷ []) ∷ new_line ∷ [];
  error = false;
}
new_formatter-print_example = new_formatter-print tokens refl

-- The text of an event and a line end.
abbrev short : LogFormatter
short = record {
  pattern = 37 ∷ 109 ∷ 37 ∷ 110 ∷ [];
  items = message ∷ new_line ∷ [];
  error = false;
}

-- A console appender at 0, a file at 1, a logger at 1 whose root is 0.
abbrev store : Store
store = record {
  appender =
      update (λ _. record (new_appender stdout_output) { formatter = some short }) 1
        (record (new_appender (file_output (102 ∷ []) [] 0)) { formatter = some short });
  logger =
      update
        (λ _. record {
          name = [];
          level = debug;
          appenders = 0 ∷ [];
          formatter = some short;
          root = none;
        })
        1
        (record {
          name = 97 ∷ [];
          level = info;
          appenders = [];
          formatter = some short;
          root = some 0;
        });
  stdout = [];
}

-- The file at 1 with a pattern of its own.
abbrev owned : ℕ → LogAppender
owned = update (store.appender) 1 (record (new_appender (file_output (102 ∷ []) [] 0)) {
  formatter = some short;
  has_formatter = true;
})

abbrev no_time : String → ℕ → String
no_time f t = []

abbrev place : Place
place = record {
  file = 102 ∷ [];
  line = 1;
  thread_id = 1;
  fiber_id = 0;
  time = 7;
  thread_name = [];
}

-- "hi" in two parts, and a format that prints "x", on a logger that leaves it to its root.
statement-console_example :
    (log_level no_time 2 store 1 warn place ((104 ∷ []) ∷ (105 ∷ []) ∷ []) 7
      ≡ ok (record store {
        stdout =
            lines_of no_time store warn
              (event_of store 1 place (104 ∷ 105 ∷ []))
              (sinks no_time store 1 warn);
      }))
    × (log_fmt_level no_time 2 store 1 warn place (some (120 ∷ [])) 7
        ≡ ok (record store {
          stdout =
              lines_of no_time store warn
                (event_of store 1 place (120 ∷ []))
                (sinks no_time store 1 warn);
        }))
statement-console_example =
    statement-console no_time store 1 warn place ((104 ∷ []) ∷ (105 ∷ []) ∷ []) (some (120 ∷ [])) 7
      ((refl, refl), tt) (λ r e. ground arith)

-- What the first of them prints: "hi" and the end of the line.
printed_line :
    log_level no_time 2 store 1 warn place ((104 ∷ []) ∷ (105 ∷ []) ∷ []) 7
    ≡ ok (record store { stdout = 104 ∷ 105 ∷ 10 ∷ [] })
unfolding log_level format log
printed_line = refl

abbrev manager : LoggerManager
manager = record { loggers = ([], 0) ∷ []; root = 0; store = store }

abbrev quiet_define : LogDefine
quiet_define = record { name = 98 ∷ []; level = warn; formatter = []; appenders = [] }

abbrev outcome : Result (LoggerManager × ℕ) → LoggerManager × ℕ
outcome (ok done) = done
outcome abort = (manager, 0)
outcome fault = (manager, 0)
outcome throws = (manager, 0)

configured :
    (m' : LoggerManager) × (next' : ℕ) × (apply_new manager [] quiet_define 5 ≡ ok (m', next'))
unfolding apply_new
configured = (
  (outcome (apply_new manager [] quiet_define 5)).0,
  (outcome (apply_new manager [] quiet_define 5)).1,
  refl,
)

-- A define of level 3 with a file, the console, and an appender of no known type.
abbrev three_appenders : LogDefine
three_appenders = record {
  name = 114 ∷ [];
  level = 3;
  formatter = 37 ∷ 109 ∷ [];
  appenders =
      record { type = 1; level = 4; formatter = []; file = 102 ∷ [] }
      ∷ record { type = 2; level = 5; formatter = 37 ∷ 112 ∷ []; file = [] }
      ∷ record { type = 0; level = 0; formatter = []; file = [] }
      ∷ [];
}

read_define-write_define_example :
    read_define (write_define three_appenders)
    ≡ ok (record three_appenders {
      level = 0;
      appenders =
          record { type = 1; level = 0; formatter = []; file = 102 ∷ [] }
          ∷ record { type = 2; level = 0; formatter = 37 ∷ 112 ∷ []; file = [] }
          ∷ [];
    })
read_define-write_define_example = read_define-write_define three_appenders

read_define-print_logger_example :
    read_define (print_logger (add_appender (record store { appender = owned }) 0 1) 0)
    ≡ ok (record {
      name = [];
      level = 0;
      formatter = short.pattern;
      appenders =
          record { type = 2; level = 0; formatter = []; file = [] }
          ∷ record { type = 1; level = 0; formatter = []; file = 102 ∷ [] }
          ∷ [];
    })
unfolding add_appender
read_define-print_logger_example =
    read_define-print_logger (add_appender (record store { appender = owned }) 0 1) 0

-- The loggers as nodes, one for each, in the order of the map.
printed_names :
    map
      (λ n. n.scalar name_key)
      (print_loggers (record { loggers = ([], 0) ∷ (97 ∷ [], 1) ∷ []; root = 0; store = store }))
    ≡ some [] ∷ some (97 ∷ []) ∷ []
unfolding print_loggers print_logger
printed_names = refl
