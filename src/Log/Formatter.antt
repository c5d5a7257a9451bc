-- ===== src/Log/Formatter.antt =====
-- LogFormatter of duan_src/log.cc: the pattern is read into pieces, the pieces become items, and an
-- event is printed item by item.
use coroutine.Prelude.{
  ℕ, zero, suc, Bool, true, false, ◌&&◌, ◌||◌, not, List, [], ◌∷◌, ◌++◌, Option, none, some, leb,
  ◌==◌, if◌then◌else◌, length,
}
use coroutine.Log.{String, to_string, decimal}

-- A tuple (str, fmt, type) of init(): text has the type 0 and a conversion 1.
pub data Piece : Type 0 where
  text : (str : String) → Piece
  conversion : (str fmt : String) → Piece

abbrev pub percent : ℕ
percent = 37

abbrev pub open_brace : ℕ
open_brace = 123

abbrev pub close_brace : ℕ
close_brace = 125

-- isalpha in the C locale
abbrev pub is_alpha : ℕ → Bool
is_alpha c = leb 65 c && leb c 90 || leb 97 c && leb c 122

-- The loop on `n` with fmt_status 0: letters are passed. The rest begins at the first other byte.
unfoldable pub scan_name : String → String × String
scan_name [] = ([], [])
scan_name (c ∷ s) =
    let rest = scan_name s in if is_alpha c then (c ∷ rest.0, rest.1) else ([], c ∷ s)

-- The loop on `n` with fmt_status 1, behind the brace: `none` if it never closes.
unfoldable pub scan_format : String → Option (String × String)
scan_format [] = none
scan_format (c ∷ s) =
    if c == close_brace
    then some ([], s)
    else elim (scan_format s) [ none ↦ none | some (fmt, rest) ↦ some (c ∷ fmt, rest) ]

-- What follows a percent sign: `none` is a fmt_status of 1 at the end.
unfoldable pub scan : String → Option (String × String × String)
unfolding scan_name scan_format
scan s =
    let (str, rest) = scan_name s in
    elim rest [
      | [] ↦ some (str, [], [])
      | c ∷ rest' ↦
          if c == open_brace
          then elim (scan_format rest') [
            | none ↦ none
            | some (fmt, rest'') ↦ some (str, fmt, rest'')
          ]
          else some (str, [], c ∷ rest')
    ]

-- A text that is pushed if it is not empty.
abbrev pub push_text : String → List Piece → List Piece
push_text [] pieces = pieces
push_text (c ∷ nstr) pieces = text (c ∷ nstr) ∷ pieces

-- "<<pattern_error>>"
abbrev pub pattern_error : String
pattern_error =
    60 ∷ 60 ∷ 112 ∷ 97 ∷ 116 ∷ 116 ∷ 101 ∷ 114 ∷ 110 ∷ 95 ∷ 101 ∷ 114 ∷ 114 ∷ 111 ∷ 114 ∷ 62 ∷ 62
    ∷ []

-- Does a percent sign follow?
abbrev pub is_double : String → Bool
is_double [] = false
is_double (c ∷ s) = c == percent

-- The loop on `i` of init(), with the text `nstr` that is not pushed yet. Every round passes a byte.
unfoldable pub split : (fuel : ℕ) → (nstr pattern : String) → List Piece × Bool
unfolding scan
split zero nstr pattern = ([], false)
split (suc fuel) nstr [] = (push_text nstr [], false)
split (suc fuel) nstr (c ∷ s) = elim (not (c == percent) || is_double s) [
  | true ↦ split fuel (nstr ++ c ∷ []) s
  | false ↦ elim (scan s) [
    | none ↦ let rest = split fuel nstr s in (text pattern_error ∷ rest.0, true)
    | some (str, fmt, rest) ↦
        let next = split fuel [] rest in (push_text nstr (conversion str fmt ∷ next.0), next.1)
  ]
]

-- The subclasses of LogFormatter::FormatItem
pub data Item : Type 0 where
  message level elapse name thread_id new_line filename line tab fiber_id thread_name : Item
  date_time : (format : String) → Item
  string : (str : String) → Item

-- "%Y-%m-%d %H:%M:%S"
abbrev pub default_date : String
default_date =
    37 ∷ 89 ∷ 45 ∷ 37 ∷ 109 ∷ 45 ∷ 37 ∷ 100 ∷ 32 ∷ 37 ∷ 72 ∷ 58 ∷ 37 ∷ 77 ∷ 58 ∷ 37 ∷ 83 ∷ []

-- DateTimeFormatItem::DateTimeFormatItem
abbrev pub new_date_time : String → Item
new_date_time [] = date_time default_date
new_date_time (c ∷ format) = date_time (c ∷ format)

-- s_format_items on a name of one byte.
abbrev pub find_letter : (c : ℕ) → (fmt : String) → Option Item
find_letter c fmt =
    if c == 109
    then some message
    else if c == 112
    then some level
    else if c == 114
    then some elapse
    else if c == 99
    then some name
    else if c == 116
    then some thread_id
    else if c == 110
    then some new_line
    else if c == 100
    then some (new_date_time fmt)
    else if c == 102
    then some filename
    else if c == 108
    then some line
    else if c == 84
    then some tab
    else if c == 70
    then some fiber_id
    else if c == 78
    then some thread_name
    else none

-- s_format_items.find, and the constructor that it finds.
abbrev pub find_item : (str fmt : String) → Option Item
find_item [] fmt = none
find_item (c ∷ []) fmt = find_letter c fmt
find_item (c ∷ d ∷ str) fmt = none

-- "<<error_format %" and ">>"
abbrev pub format_error : String → String
format_error str =
    60 ∷ 60 ∷ 101 ∷ 114 ∷ 114 ∷ 111 ∷ 114 ∷ 95 ∷ 102 ∷ 111 ∷ 114 ∷ 109 ∷ 97 ∷ 116 ∷ 32 ∷ 37 ∷ []
    ++ str
    ++ 62 ∷ 62 ∷ []

-- The last loop of init(): the items, and whether a conversion is unknown.
unfoldable pub make_items : List Piece → List Item × Bool
make_items [] = ([], false)
make_items (text str ∷ pieces) = let rest = make_items pieces in (string str ∷ rest.0, rest.1)
make_items (conversion str fmt ∷ pieces) =
    let rest = make_items pieces in
    elim (find_item str fmt) [
      | none ↦ (string (format_error str) ∷ rest.0, true)
      | some item ↦ (item ∷ rest.0, rest.1)
    ]

pub record LogFormatter : Type 0 where
  pub pattern : String
  pub items : List Item
  pub error : Bool

-- LogFormatter::LogFormatter, with init(). A round for each byte, and one more, are enough.
unfoldable pub new_formatter : (pattern : String) → LogFormatter
unfolding split make_items
new_formatter pattern =
    let (pieces, broken) = split (suc (length pattern)) [] pattern in
    let (items, unknown) = make_items pieces in
    record { pattern = pattern; items = items; error = broken || unknown }

-- What an event carries: LogEvent, with the name of its logger.
pub record LogEvent : Type 0 where
  pub file : String
  pub line : ℕ
  pub elapse : ℕ
  pub thread_id : ℕ
  pub fiber_id : ℕ
  pub time : ℕ
  pub thread_name : String
  pub content : String
  pub logger : String

-- localtime_r and strftime, which read the time zone, are the parameter `local_time`.
module _ (local_time : (format : String) (time : ℕ) → String) where
  -- The format() of each item.
  unfoldable pub format_item : (level : ℕ) → LogEvent → Item → String
  unfolding to_string
  format_item l e message = e.content
  format_item l e level = to_string l
  format_item l e elapse = decimal e.elapse
  format_item l e name = e.logger
  format_item l e thread_id = decimal e.thread_id
  format_item l e new_line = 10 ∷ []
  format_item l e (date_time f) = local_time f e.time
  format_item l e filename = e.file
  format_item l e line = decimal e.line
  format_item l e tab = 9 ∷ []
  format_item l e fiber_id = decimal e.fiber_id
  format_item l e thread_name = e.thread_name
  format_item l e (string str) = str

  unfoldable pub format_items : (level : ℕ) → LogEvent → List Item → String
  unfolding format_item
  format_items l e [] = []
  format_items l e (item ∷ items) = format_item l e item ++ format_items l e items

  -- LogFormatter::format
  unfoldable pub format : LogFormatter → (level : ℕ) → LogEvent → String
  unfolding format_items
  format f l e = format_items l e f.items
