-- ===== src/Log/Delivery.antt =====
-- Which appenders of duan_src/log.cc print an event, with which formatter, and what a file keeps.
use coroutine.Prelude.{
  ok, ℕ, ◌≡◌, refl, sym, ap, ◌∙◌, true, false, ◌&&◌, not, List, [], ◌∷◌, ◌++◌, Option, none, some,
  leb, ◌==◌, if◌then◌else◌, is_some, update, elem, All, arith, Option-cases, List-cases, inl, inr,
}
use mathlib.Core.List.{append_assoc, append-nil}
use coroutine.Log.{String}
use coroutine.Log.Formatter.{LogFormatter, LogEvent, new_formatter, format}
use coroutine.Log.Loggers.{
  Output, stdout_output, file_output, LogAppender, Store, hand_down, set_formatter,
  set_formatter_pattern, append, append_all, log,
}

-- A console appender with a formatter.
abbrev pub IsConsole : Store → ℕ → Type 0
IsConsole st i =
    ((st.appender i).output ≡ stdout_output) × (is_some (st.appender i).formatter ≡ true)

module _ (local_time : (format : String) (time : ℕ) → String) where
  -- What one appender prints of an event: its line, unless its level is above the event's.
  abbrev pub line_of : Store → (level : ℕ) → LogEvent → ℕ → String
  line_of st level event i =
      if leb (st.appender i).level level
      then elim (st.appender i).formatter [ none ↦ [] | some f ↦ format local_time f level event ]
      else []

  abbrev pub lines_of : Store → (level : ℕ) → LogEvent → List ℕ → String
  lines_of st level event [] = []
  lines_of st level event (i ∷ is) = line_of st level event i ++ lines_of st level event is

  append-console :
      (st : Store) (i level : ℕ) (event : LogEvent) (now : ℕ)
      → IsConsole st i
      → append local_time st i level event now
        ≡ ok (record st { stdout = st.stdout ++ line_of st level event i })
  unfolding append
  append-console st i level event now h = elim (Option-cases (st.appender i).formatter) [
    | inl n ↦ absurd (ground arith)
    | inr (f, s) ↦ ground (arith, append-nil st.stdout)
  ]

  append_all-console :
      (st : Store) (is : List ℕ) (level : ℕ) (event : LogEvent) (now : ℕ)
      → All (IsConsole st) is
      → append_all local_time st is level event now
        ≡ ok (record st { stdout = st.stdout ++ lines_of st level event is })
  unfolding append_all
  append_all-console st [] level event now h =
      ap (λ s. ok (record st { stdout = s })) (sym (append-nil st.stdout))
  append_all-console st (i ∷ is) level event now h =
      let st' = record st { stdout = st.stdout ++ line_of st level event i } in
      rw (append-console st i level event now h.0) (
        append_all-console st' is level event now h.1
        ∙ ap (λ s. ok (record st { stdout = s }))
            (append_assoc st.stdout (line_of st level event i) (lines_of st level event is)))

  -- The appenders that print an event of a logger: its own, or else those of its root.
  abbrev pub sinks : Store → (logger level : ℕ) → List ℕ
  sinks st l level =
      if not (leb (st.logger l).level level) then [] else elim (st.logger l).appenders [
        | i ∷ is ↦ i ∷ is
        | [] ↦ elim (st.logger l).root [
          | none ↦ []
          | some r ↦ if leb (st.logger r).level level then (st.logger r).appenders else []
        ]
      ]

  log-append_all :
      (st : Store) (l level : ℕ) (event : LogEvent) (now : ℕ)
      → ((r : ℕ) → (st.logger l).root ≡ some r → (st.logger r).root ≡ none)
      → log local_time 2 st l level event now
        ≡ append_all local_time st (sinks st l level) level event now
  unfolding log append_all
  log-append_all st l level event now no_root = elim (List-cases (st.logger l).appenders) [
    | inr (i, is, own) ↦ ground arith
    | inl empty ↦ elim (Option-cases (st.logger l).root) [
      | inl alone ↦ ground arith
      | inr (r, root) ↦ elim (List-cases (st.logger r).appenders) [
        | inr (i, is, own) ↦ ground arith
        | inl none_there ↦ ground (arith, no_root r root)
      ]
    ]
  ]

  -- With console appenders that have formatters, and a root that has no root, an event below the
  -- logger's level is printed nowhere. Any other is printed by each appender of the logger whose
  -- level it reaches, once and in order; a logger with no appender leaves it to its root, with the
  -- root's level and appenders.
  pub log-console :
      (st : Store) (l level : ℕ) (event : LogEvent) (now : ℕ)
      → All (IsConsole st) (sinks st l level)
      → ((r : ℕ) → (st.logger l).root ≡ some r → (st.logger r).root ≡ none)
      → log local_time 2 st l level event now
        ≡ ok (record st { stdout = st.stdout ++ lines_of st level event (sinks st l level) })
  log-console st l level event now h no_root =
      log-append_all st l level event now no_root
      ∙ append_all-console st (sinks st l level) level event now h

  -- What a file holds.
  abbrev pub content_of : Output → String
  content_of stdout_output = []
  content_of (file_output filename content last_time) = content

  -- Two events that a file appender prints one after the other. In one second both lines are in the
  -- file, but in the next second the file is opened again, and of all that it held only the second
  -- line is left.
  pub two_seconds :
      (st : Store) (a level : ℕ) (first second : LogEvent) (now later : ℕ)
      (filename content : String) (last_time : ℕ) (f : LogFormatter)
      → (st.appender a).output ≡ file_output filename content last_time
      → (st.appender a).formatter ≡ some f
      → leb (st.appender a).level level ≡ true
      → (st1 st2 : Store) × (append local_time st a level first now ≡ ok st1)
        × (append local_time st1 a level second later ≡ ok st2)
        × (content_of (st1.appender a).output
            ≡ (if now == last_time then content else []) ++ format local_time f level first)
        × (content_of (st2.appender a).output
            ≡ (if later == now then content_of (st1.appender a).output else [])
              ++ format local_time f level second)
  unfolding append
  two_seconds st a level first second now later filename content last_time f out formatter high =
      let line1 = format local_time f level first in
      let line2 = format local_time f level second in
      let held = (if now == last_time then content else []) ++ line1 in
      let st1 = record st {
        appender =
            update st.appender a
              (record (st.appender a) { output = file_output filename held now });
      } in
      let st2 = record st1 {
        appender = update st1.appender a (record (st1.appender a) {
          output = file_output filename ((if later == now then held else []) ++ line2) later;
        });
      } in
      (st1, st2, ground arith, ground arith, ground arith, ground arith)

-- An appender that shares a logger takes its formatter over exactly if it has none of its own, and
-- no other appender changes.
pub hand_down_lem :
    (val : Option LogFormatter) (is : List ℕ) (appender : ℕ → LogAppender) (b : ℕ)
    → hand_down val is appender b ≡ (
        if elem b is && not (appender b).has_formatter
        then record (appender b) { formatter = val }
        else appender b)
unfolding hand_down
hand_down_lem val [] appender b = refl
hand_down_lem val (i ∷ is) appender b =
    let a = appender i in
    ground (
      arith,
      hand_down_lem val is
          (if not a.has_formatter
            then update appender i (record a { formatter = val })
            else appender)
          b,
    )

-- setFormatter with a pattern does nothing if the pattern has an error. Otherwise the logger has
-- the new formatter, each of its appenders without a formatter of its own has it too, and every
-- other appender is as it was.
pub set_formatter_pattern_lem :
    (st : Store) (l : ℕ) (val : String) (b : ℕ)
    → ((new_formatter val).error ≡ true → set_formatter_pattern st l val ≡ st)
      × ((new_formatter val).error ≡ false
          → (((set_formatter_pattern st l val).logger l).formatter ≡ some (new_formatter val))
            × ((set_formatter_pattern st l val).appender b ≡ (
                if elem b (st.logger l).appenders && not (st.appender b).has_formatter
                then record (st.appender b) { formatter = some (new_formatter val) }
                else st.appender b)))
unfolding set_formatter_pattern set_formatter
set_formatter_pattern_lem st l val b = (
  λ h. ground arith,
  λ h. (
    ground arith,
    ground (arith, hand_down_lem (some (new_formatter val)) (st.logger l).appenders st.appender b),
  ),
)
