-- ===== src/Log/Define.antt =====
-- LogDefine, how it is read from a node of YAML, and what LogIniter makes of a change of the defines,
-- duan_src/log.cc.
--
-- A YAML::Node is known by its scalars, a function from keys, and the list of the nodes under
-- "appenders". A std::set<LogDefine> is a list with one define for each name.
use coroutine.Prelude.{
  Result, ok, fault, throws, ◌>>=◌, ℕ, ◌+◌, Bool, true, false, ◌&&◌, not, List, [], ◌∷◌, Option,
  none, some, ◌==◌, if◌then◌else◌, update,
}
use coroutine.Log.{String, same, unknow, from_string}
use coroutine.Log.Formatter.{new_formatter}
use coroutine.Log.Loggers.{
  stdout_output, LogAppender, new_appender, new_file_appender, set_appender_formatter, new_logger,
  Store, LoggerManager, set_formatter_pattern, add_appender, clear_appenders, set_level, get_logger,
}

-- LogAppenderDfine. The type is 1 for a file, 2 for the console.
pub record AppenderDefine : Type 0 where
  pub type : ℕ
  pub level : ℕ
  pub formatter : String
  pub file : String

-- LogDefine
pub record LogDefine : Type 0 where
  pub name : String
  pub level : ℕ
  pub formatter : String
  pub appenders : List AppenderDefine

-- LogAppenderDfine::operator==
abbrev pub same_appender : AppenderDefine → AppenderDefine → Bool
same_appender a b =
    a.type == b.type && a.level == b.level && same a.formatter b.formatter && same a.file b.file

abbrev pub same_appenders : List AppenderDefine → List AppenderDefine → Bool
same_appenders [] [] = true
same_appenders [] (b ∷ bs) = false
same_appenders (a ∷ rest) [] = false
same_appenders (a ∷ rest) (b ∷ bs) = same_appender a b && same_appenders rest bs

-- LogDefine::operator==
abbrev pub same_define : LogDefine → LogDefine → Bool
same_define a b =
    same a.name b.name
    && a.level == b.level
    && same a.formatter b.formatter
    && same_appenders a.appenders b.appenders

-- "name"
abbrev pub name_key : String
name_key = 110 ∷ 97 ∷ 109 ∷ 101 ∷ []

-- "levle"
abbrev pub levle_key : String
levle_key = 108 ∷ 101 ∷ 118 ∷ 108 ∷ 101 ∷ []

-- "level"
abbrev pub level_key : String
level_key = 108 ∷ 101 ∷ 118 ∷ 101 ∷ 108 ∷ []

-- "formatter"
abbrev pub formatter_key : String
formatter_key = 102 ∷ 111 ∷ 114 ∷ 109 ∷ 97 ∷ 116 ∷ 116 ∷ 101 ∷ 114 ∷ []

-- "type"
abbrev pub type_key : String
type_key = 116 ∷ 121 ∷ 112 ∷ 101 ∷ []

-- "file"
abbrev pub file_key : String
file_key = 102 ∷ 105 ∷ 108 ∷ 101 ∷ []

-- "FileLogAppender"
abbrev pub file_log_appender : String
file_log_appender =
    70 ∷ 105 ∷ 108 ∷ 101 ∷ 76 ∷ 111 ∷ 103 ∷ 65 ∷ 112 ∷ 112 ∷ 101 ∷ 110 ∷ 100 ∷ 101 ∷ 114 ∷ []

-- "StdoutLogAppender"
abbrev pub stdout_log_appender : String
stdout_log_appender =
    83 ∷ 116 ∷ 100 ∷ 111 ∷ 117 ∷ 116 ∷ 76 ∷ 111 ∷ 103 ∷ 65 ∷ 112 ∷ 112 ∷ 101 ∷ 110 ∷ 100 ∷ 101 ∷ 114
    ∷ []

-- What is read of a YAML::Node.
pub record Node : Type 0 where
  pub scalar : String → Option String
  pub appenders : List (String → Option String)

abbrev pub or_empty : Option String → String
or_empty none = []
or_empty (some s) = s

-- One round of the loop over n["appenders"]; `none` is a `continue`.
unfoldable pub read_appender : (String → Option String) → Option AppenderDefine
read_appender a = elim (a type_key) [
  | none ↦ none
  | some type ↦
      if same type file_log_appender
      then elim (a file_key) [
        | none ↦ none
        | some file ↦ some (record {
          type = 1;
          level = unknow;
          formatter = or_empty (a formatter_key);
          file = file;
        })
      ]
      else if same type stdout_log_appender
      then some
          (record { type = 2; level = unknow; formatter = or_empty (a formatter_key); file = [] })
      else none
]

unfoldable pub read_appenders : List (String → Option String) → List AppenderDefine
unfolding read_appender
read_appenders [] = []
read_appenders (a ∷ nodes) =
    let rest = read_appenders nodes in
    elim (read_appender a) [ none ↦ rest | some lad ↦ lad ∷ rest ]

-- LexicalCast<std::string, LogDefine>. The level is read only where the key "levle" is defined.
unfoldable pub read_define : Node → Result LogDefine
unfolding from_string read_appenders
read_define n = elim (n.scalar name_key) [
  | none ↦ throws
  | some name ↦ do
    level ← elim (n.scalar levle_key) [
      | none ↦ ok (from_string [])
      | some typo ↦ elim (n.scalar level_key) [ none ↦ throws | some str ↦ ok (from_string str) ]
    ]
    ok (record {
      name = name;
      level = level;
      formatter = or_empty (n.scalar formatter_key);
      appenders = read_appenders n.appenders;
    })
]

-- The appender of a define; a type that is neither leaves it null, and null is written through.
unfoldable pub make_appender : AppenderDefine → Result LogAppender
make_appender a = do
  ap ←
      if a.type == 1
      then ok (new_file_appender a.file)
      else if a.type == 2
      then ok (new_appender stdout_output)
      else fault
  let leveled = record ap { level = a.level }
  elim a.formatter [
    | [] ↦ ok leveled
    | c ∷ s ↦
        let fmt = new_formatter (c ∷ s) in
        ok (if not fmt.error then set_appender_formatter (some fmt) leveled else leveled)
  ]

-- The appenders of a define join the logger, made at the addresses from `next` on.
unfoldable pub apply_appenders :
    Store → (logger : ℕ) → List AppenderDefine → (next : ℕ) → Result (Store × ℕ)
unfolding make_appender add_appender
apply_appenders st l [] next = ok (st, next)
apply_appenders st l (a ∷ rest) next = do
  ap ← make_appender a
  apply_appenders (add_appender (record st { appender = update st.appender next ap }) l next) l rest
      (next + 1)

-- The part of the listener behind the choice of the logger.
unfoldable pub apply_define : Store → (logger : ℕ) → LogDefine → (next : ℕ) → Result (Store × ℕ)
unfolding apply_appenders set_level set_formatter_pattern clear_appenders
apply_define st l i next =
    let leveled = set_level st l i.level in
    let formatted : Store = elim i.formatter [
      | [] ↦ leveled
      | c ∷ s ↦ set_formatter_pattern leveled l (c ∷ s)
    ] in
    apply_appenders (clear_appenders formatted l) l i.appenders next

abbrev pub find_define : List LogDefine → (name : String) → Option LogDefine
find_define [] name = none
find_define (d ∷ defines) name = if same d.name name then some d else find_define defines name

-- A define of the new value. A new name gets a logger of its own at `next`; a changed define that of
-- getLogger; for an unchanged one the pointer stays null, and is written through.
unfoldable pub apply_new :
    LoggerManager → (old : List LogDefine) → LogDefine → (next : ℕ) → Result (LoggerManager × ℕ)
unfolding apply_define get_logger
apply_new m old i next = elim (find_define old i.name) [
  | none ↦ do
    done ←
        apply_define (record (m.store) { logger = update m.store.logger next (new_logger i.name) })
          next i (next + 1)
    ok (record m { store = done.0 }, done.1)
  | some it ↦ if same_define i it then fault else (do
    let got = get_logger m i.name next
    done ← apply_define got.0.store got.1 i (next + 1)
    ok (record (got.0) { store = done.0 }, done.1))
]

unfoldable pub apply_all :
    LoggerManager → (old new : List LogDefine) → (next : ℕ) → Result (LoggerManager × ℕ)
unfolding apply_new
apply_all m old [] next = ok (m, next)
apply_all m old (i ∷ new) next = do done ← apply_new m old i next; apply_all done.0 old new done.1

-- The loop over the old value: a logger whose define is gone is silenced.
unfoldable pub remove_all : LoggerManager → (old new : List LogDefine) → (next : ℕ) → LoggerManager
unfolding get_logger set_level clear_appenders
remove_all m [] new next = m
remove_all m (i ∷ old) new next = elim (find_define new i.name) [
  | some kept ↦ remove_all m old new next
  | none ↦
      let got = get_logger m i.name next in
      remove_all
        (record (got.0) { store = clear_appenders (set_level got.0.store got.1 100) got.1 }) old new
        (next + 1)
]

-- The listener of LogIniter.
unfoldable pub on_change :
    LoggerManager → (old new : List LogDefine) → (next : ℕ) → Result LoggerManager
unfolding apply_all remove_all
on_change m old new next = do done ← apply_all m old new next; ok (remove_all done.0 old new done.1)
