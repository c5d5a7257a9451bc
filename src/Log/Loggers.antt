-- ===== src/Log/Loggers.antt =====
-- LogAppender, Logger, LoggerManager and the listener of the configuration, duan_src/log.h and
-- duan_src/log.cc.
--
-- An appender is an object at an address, since loggers share it by pointer, and a logger too. What
-- is written is a list of lines with the appender that wrote each, in order.
use coroutine.Prelude.{
  Result, ok, fault, ◌>>=◌, ℕ, zero, suc, Bool, false, not, List, [], ◌∷◌, ◌++◌, Option, none, some,
  leb, ◌==◌, if◌then◌else◌, is_some, update, erase,
}
use coroutine.Log.{String, same, debug}
use coroutine.Log.Formatter.{LogFormatter, LogEvent, new_formatter, format}

-- The subclasses of LogAppender. A file has the name, what it holds, and the second in which it was
-- opened last.
pub data Output : Type 0 where
  stdout_output : Output
  file_output : (filename : String) → (content : String) → (last_time : ℕ) → Output

-- LogAppender
pub record LogAppender : Type 0 where
  pub level : ℕ
  pub has_formatter : Bool
  pub formatter : Option LogFormatter
  pub output : Output

abbrev pub new_appender : Output → LogAppender
new_appender output = record {
  level = debug;
  has_formatter = false;
  formatter = none;
  output = output;
}

-- FileLogAppender::FileLogAppender: the file is opened, which empties it.
abbrev pub new_file_appender : (filename : String) → LogAppender
new_file_appender filename = new_appender (file_output filename [] 0)

-- Logger
pub record Logger : Type 0 where
  pub name : String
  pub level : ℕ
  pub appenders : List ℕ
  pub formatter : Option LogFormatter
  pub root : Option ℕ

-- The objects of the module.
pub record Store : Type 0 where
  pub appender : ℕ → LogAppender
  pub logger : ℕ → Logger
  pub stdout : String

-- "%d{%Y-%m-%d %H:%M:%S}%T%t%T%N%T%F%T[%p]%T[%c]%T%f:%l%T%m%n"
abbrev pub default_pattern : String
default_pattern =
    37 ∷ 100 ∷ 123 ∷ 37 ∷ 89 ∷ 45 ∷ 37 ∷ 109 ∷ 45 ∷ 37 ∷ 100 ∷ 32 ∷ 37 ∷ 72 ∷ 58 ∷ 37 ∷ 77 ∷ 58 ∷ 37
    ∷ 83 ∷ 125 ∷ 37 ∷ 84 ∷ 37 ∷ 116 ∷ 37 ∷ 84 ∷ 37 ∷ 78 ∷ 37 ∷ 84 ∷ 37 ∷ 70 ∷ 37 ∷ 84 ∷ 91 ∷ 37
    ∷ 112 ∷ 93 ∷ 37 ∷ 84 ∷ 91 ∷ 37 ∷ 99 ∷ 93 ∷ 37 ∷ 84 ∷ 37 ∷ 102 ∷ 58 ∷ 37 ∷ 108 ∷ 37 ∷ 84 ∷ 37
    ∷ 109 ∷ 37 ∷ 110 ∷ []

-- Logger::Logger
abbrev pub new_logger : (name : String) → Logger
new_logger name = record {
  name = name;
  level = debug;
  appenders = [];
  formatter = some (new_formatter default_pattern);
  root = none;
}

-- LogAppender::setFormatter
abbrev pub set_appender_formatter : Option LogFormatter → LogAppender → LogAppender
set_appender_formatter val a = record a { formatter = val; has_formatter = is_some val }

-- The loop of Logger::setFormatter: appenders without a formatter of their own take it over.
unfoldable pub hand_down : Option LogFormatter → List ℕ → (ℕ → LogAppender) → ℕ → LogAppender
hand_down val [] appender = appender
hand_down val (i ∷ is) appender =
    let a = appender i in
    hand_down val is
      (if not a.has_formatter then update appender i (record a { formatter = val }) else appender)

-- Logger::setFormatter with a formatter
unfoldable pub set_formatter : Store → (logger : ℕ) → Option LogFormatter → Store
unfolding hand_down
set_formatter st l val = record st {
  logger = update st.logger l (record (st.logger l) { formatter = val });
  appender = hand_down val (st.logger l).appenders st.appender;
}

-- Logger::setFormatter with a pattern: one with an error changes nothing.
unfoldable pub set_formatter_pattern : Store → (logger : ℕ) → (val : String) → Store
unfolding set_formatter
set_formatter_pattern st l val =
    let new_val = new_formatter val in
    if new_val.error then st else set_formatter st l (some new_val)

-- Logger::addAppender
unfoldable pub add_appender : Store → (logger appender : ℕ) → Store
add_appender st l a = record st {
  appender =
      if not (is_some (st.appender a).formatter)
      then update st.appender a (record (st.appender a) { formatter = (st.logger l).formatter })
      else st.appender;
  logger =
      update st.logger l (record (st.logger l) { appenders = (st.logger l).appenders ++ a ∷ [] });
}

-- Logger::delAppender: the first occurrence goes.
unfoldable pub del_appender : Store → (logger appender : ℕ) → Store
del_appender st l a = record st {
  logger =
      update st.logger l (record (st.logger l) { appenders = erase a (st.logger l).appenders });
}

-- Logger::clearAppenders
unfoldable pub clear_appenders : Store → (logger : ℕ) → Store
clear_appenders st l = record st {
  logger = update st.logger l (record (st.logger l) { appenders = [] });
}

-- Logger::SetLevel
unfoldable pub set_level : Store → (logger level : ℕ) → Store
set_level st l val = record st {
  logger = update st.logger l (record (st.logger l) { level = val });
}

module _ (local_time : (format : String) (time : ℕ) → String) where
  -- StdoutLogAppender::log and FileLogAppender::log at the second `now`; a null formatter is read
  -- through. A file is opened again in each new second, which empties it.
  unfoldable pub append : Store → (appender level : ℕ) → LogEvent → (now : ℕ) → Result Store
  append st a level event now =
      let ap = st.appender a in
      if not (leb ap.level level) then ok st else elim ap.formatter [
        | none ↦ fault
        | some f ↦
            let line = format local_time f level event in
            elim ap.output [
              | stdout_output ↦ ok (record st { stdout = st.stdout ++ line })
              | file_output filename content last_time ↦
                  let kept = if now == last_time then content else [] in
                  ok (record st {
                    appender =
                        update st.appender a
                          (record ap { output = file_output filename (kept ++ line) now });
                  })
            ]
      ]

  unfoldable pub append_all : Store → List ℕ → (level : ℕ) → LogEvent → (now : ℕ) → Result Store
  unfolding append
  append_all st [] level event now = ok st
  append_all st (i ∷ is) level event now = do
    st' ← append st i level event now
    append_all st' is level event now

  -- Logger::log. A logger without an appender leaves the event to its root; `fuel` bounds the chain
  -- of roots, which getLogger makes one link long.
  unfoldable pub log : (fuel : ℕ) → Store → (logger level : ℕ) → LogEvent → (now : ℕ) → Result Store
  unfolding append_all
  log zero st l level event now = ok st
  log (suc fuel) st l level event now =
      let me = st.logger l in
      if not (leb me.level level) then ok st else elim me.appenders [
        | i ∷ is ↦ append_all st (i ∷ is) level event now
        | [] ↦ elim me.root [ none ↦ ok st | some r ↦ log fuel st r level event now ]
      ]

-- LoggerManager
pub record LoggerManager : Type 0 where
  pub loggers : List (String × ℕ)
  pub root : ℕ
  pub store : Store

abbrev pub find : List (String × ℕ) → String → Option ℕ
find [] name = none
find ((key, l) ∷ loggers) name = if same key name then some l else find loggers name

-- LoggerManager::LoggerManager, with the root logger and its appender at the addresses given.
unfoldable pub new_manager : Store → (root appender : ℕ) → LoggerManager
unfolding add_appender
new_manager st r a =
    let logger = new_logger (114 ∷ 111 ∷ 111 ∷ 116 ∷ []) in
    let st' = record st {
      logger = update st.logger r logger;
      appender = update st.appender a (new_appender stdout_output);
    } in
    record { loggers = (logger.name, r) ∷ []; root = r; store = add_appender st' r a }

-- LoggerManager::getLogger. A new logger is made at `addr`.
unfoldable pub get_logger : LoggerManager → (name : String) → (addr : ℕ) → LoggerManager × ℕ
get_logger m name addr = elim (find m.loggers name) [
  | some l ↦ (m, l)
  | none ↦
      let logger = record (new_logger name) { root = some m.root } in
      (
        record m {
          loggers = (name, addr) ∷ m.loggers;
          store = record (m.store) { logger = update m.store.logger addr logger };
        },
        addr,
      )
]
