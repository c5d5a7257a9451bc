-- ===== src/Log/Statement.antt =====
-- The statements DUAN_LOG_LEVEL and DUAN_LOG_FMT_LEVEL of duan_src/log.h, with the constructor of LogEvent,
-- LogEvent::format and LogEventWrap of duan_src/log.cc.
use coroutine.Prelude.{Result, ok, ℕ, List, [], ◌∷◌, ◌++◌, Option, none, some, leb, if◌then◌else◌}
use coroutine.Log.{String}
use coroutine.Log.Formatter.{LogEvent}
use coroutine.Log.Loggers.{Store, log}

-- Where a statement stands, and what GetThreadId, GetFiberId, time and Thread::GetName return in it.
pub record Place : Type 0 where
  pub file : String
  pub line : ℕ
  pub thread_id : ℕ
  pub fiber_id : ℕ
  pub time : ℕ
  pub thread_name : String

-- LogEvent::LogEvent as the statements call it
abbrev pub new_event : (logger : String) → Place → LogEvent
new_event logger p = record {
  file = p.file;
  line = p.line;
  elapse = 0;
  thread_id = p.thread_id;
  fiber_id = p.fiber_id;
  time = p.time;
  thread_name = p.thread_name;
  content = [];
  logger = logger;
}

-- `getSS() << part` for each part in turn.
unfoldable pub stream : LogEvent → (parts : List String) → LogEvent
stream e [] = e
stream e (part ∷ parts) = stream (record e { content = e.content ++ part }) parts

-- LogEvent::format, where `printed` is what vasprintf makes, `none` where it returns -1.
unfoldable pub event_format : LogEvent → (printed : Option String) → LogEvent
event_format e none = e
event_format e (some buf) = record e { content = e.content ++ buf }

module _ (local_time : (format : String) (time : ℕ) → String) where
  -- LogEventWrap::~LogEventWrap, at the end of the statement
  unfoldable pub end_wrap :
      (fuel : ℕ) → Store → (logger level : ℕ) → LogEvent → (now : ℕ) → Result Store
  end_wrap fuel st l level e now = log local_time fuel st l level e now

  -- DUAN_LOG_LEVEL(logger, level) << parts
  unfoldable pub log_level :
      (fuel : ℕ)
      → Store
      → (logger level : ℕ) → Place
      → (parts : List String) → (now : ℕ) → Result Store
  unfolding stream end_wrap
  log_level fuel st l level p parts now =
      if leb (st.logger l).level level
      then end_wrap fuel st l level (stream (new_event (st.logger l).name p) parts) now
      else ok st

  -- DUAN_LOG_FMT_LEVEL(logger, level, fmt, ...)
  unfoldable pub log_fmt_level :
      (fuel : ℕ)
      → Store
      → (logger level : ℕ) → Place
      → (printed : Option String) → (now : ℕ) → Result Store
  unfolding event_format end_wrap
  log_fmt_level fuel st l level p printed now =
      if leb (st.logger l).level level
      then end_wrap fuel st l level (event_format (new_event (st.logger l).name p) printed) now
      else ok st
