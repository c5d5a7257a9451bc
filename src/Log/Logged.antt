-- ===== src/Log/Logged.antt =====
-- What a logging statement of duan_src/log.h prints.
use coroutine.Prelude.{
  ok, zero, suc, ℕ, ◌≡◌, refl, sym, ap, ◌∙◌, false, List, [], ◌∷◌, ◌++◌, Option, none, some, leb,
  All, arith, Bool-cases, inl, inr,
}
use mathlib.Core.List.{append_assoc, append-nil}
use coroutine.Log.{String}
use coroutine.Log.Formatter.{LogEvent}
use coroutine.Log.Loggers.{Store, log}
use coroutine.Log.Delivery.{IsConsole, sinks, lines_of, log-console}
use coroutine.Log.Statement.{
  Place, new_event, stream, event_format, end_wrap, log_level, log_fmt_level,
}

-- The event of a statement, with its text.
abbrev pub event_of : Store → (logger : ℕ) → Place → (content : String) → LogEvent
event_of st l p content = record (new_event (st.logger l).name p) { content = content }

abbrev pub concat : List String → String
concat [] = []
concat (part ∷ parts) = part ++ concat parts

abbrev pub or_nothing : Option String → String
or_nothing none = []
or_nothing (some buf) = buf

stream_lem :
    (e : LogEvent) (parts : List String)
    → stream e parts ≡ record e { content = e.content ++ concat parts }
unfolding stream
stream_lem e [] = ap (λ s. record e { content = s }) (sym (append-nil e.content))
stream_lem e (part ∷ parts) =
    stream_lem (record e { content = e.content ++ part }) parts
    ∙ ap (λ s. record e { content = s }) (append_assoc e.content part (concat parts))

module _ (local_time : (format : String) (time : ℕ) → String) where
  -- Logger::log asks for the level again.
  log-below :
      (fuel : ℕ) (st : Store) (l level : ℕ) (e : LogEvent) (now : ℕ)
      → leb (st.logger l).level level ≡ false
      → ok st ≡ log local_time fuel st l level e now
  unfolding log
  log-below zero st l level e now h = refl
  log-below (suc fuel) st l level e now h = ground arith

  log_level-log :
      (fuel : ℕ) (st : Store) (l level : ℕ) (p : Place) (parts : List String) (now : ℕ)
      → log_level local_time fuel st l level p parts now
        ≡ log local_time fuel st l level (event_of st l p (concat parts)) now
  unfolding log_level end_wrap
  log_level-log fuel st l level p parts now = elim (Bool-cases (leb (st.logger l).level level)) [
    | inl h ↦ rw (h, stream_lem (new_event (st.logger l).name p) parts) refl
    | inr h ↦ rw h (log-below fuel st l level (event_of st l p (concat parts)) now h)
  ]

  log_fmt_level-log :
      (fuel : ℕ) (st : Store) (l level : ℕ) (p : Place) (printed : Option String) (now : ℕ)
      → log_fmt_level local_time fuel st l level p printed now
        ≡ log local_time fuel st l level (event_of st l p (or_nothing printed)) now
  unfolding log_fmt_level end_wrap event_format
  log_fmt_level-log fuel st l level p none now = elim (Bool-cases (leb (st.logger l).level level)) [
    | inl h ↦ rw h refl
    | inr h ↦ rw h (log-below fuel st l level (event_of st l p []) now h)
  ]
  log_fmt_level-log fuel st l level p (some buf) now =
      elim (Bool-cases (leb (st.logger l).level level)) [
        | inl h ↦ rw h refl
        | inr h ↦ rw h (log-below fuel st l level (event_of st l p buf) now h)
      ]

  -- A statement of a logger whose appenders, or those of its root where it has none, are consoles with
  -- formatters, and whose root has no root: it prints the event with all the parts that were streamed
  -- into it, joined in order. A statement below the level of the logger prints nowhere. Any other
  -- prints on each appender of the logger whose level it reaches, once and in order; a logger with no
  -- appender leaves it to its root, with the root's level and appenders. A statement with a format
  -- prints the text that vasprintf makes in the same way, and an empty text where that fails.
  pub statement-console :
      (st : Store) (l level : ℕ) (p : Place) (parts : List String) (printed : Option String)
      (now : ℕ)
      → All (IsConsole st) (sinks local_time st l level)
      → ((r : ℕ) → (st.logger l).root ≡ some r → (st.logger r).root ≡ none)
      → (log_level local_time 2 st l level p parts now
          ≡ ok (record st {
            stdout =
                st.stdout
                ++ lines_of local_time st level
                    (event_of st l p (concat parts))
                    (sinks local_time st l level);
          }))
        × (log_fmt_level local_time 2 st l level p printed now
            ≡ ok (record st {
              stdout =
                  st.stdout
                  ++ lines_of local_time st level
                      (event_of st l p (or_nothing printed))
                      (sinks local_time st l level);
            }))
  statement-console st l level p parts printed now h no_root = (
    log_level-log 2 st l level p parts now
        ∙ log-console local_time st l level (event_of st l p (concat parts)) now h no_root,
    log_fmt_level-log 2 st l level p printed now
        ∙ log-console local_time st l level (event_of st l p (or_nothing printed)) now h no_root,
  )
