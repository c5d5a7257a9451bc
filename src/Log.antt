-- ===== src/Log.antt =====
-- duan_src/log.h and duan_src/log.cc: levels, patterns, appenders and loggers.
--
-- A string is the list of its bytes.
pub mod Formatter
pub mod Loggers
pub mod Define
pub mod Written
pub mod Printed
pub mod Statement
mod Logged
mod Reread
mod Reprinted
mod Reload
mod Pattern
mod Conversions
mod Escape
mod Delivery
mod Tests
use coroutine.Prelude.{
  ℕ, zero, suc, ◌+◌, ◌/◌, ◌%◌, Bool, true, false, ◌&&◌, ◌||◌, List, [], ◌∷◌, ◌++◌, ltb, leb, ◌==◌,
  if◌then◌else◌,
}

abbrev pub String : Type 0
String = List ℕ

-- `==` on strings
abbrev pub same : String → String → Bool
same [] [] = true
same [] (y ∷ ys) = false
same (x ∷ xs) [] = false
same (x ∷ xs) (y ∷ ys) = x == y && same xs ys

-- LogLevel::Level
abbrev pub unknow : ℕ
unknow = 0

abbrev pub debug : ℕ
debug = 1

abbrev pub info : ℕ
info = 2

abbrev pub warn : ℕ
warn = 3

abbrev pub error : ℕ
error = 4

abbrev pub fatal : ℕ
fatal = 5

-- LogLevel::toString
unfoldable pub to_string : (level : ℕ) → String
to_string level =
    if level == debug
    then 68 ∷ 69 ∷ 66 ∷ 85 ∷ 71 ∷ []
    else if level == info
    then 73 ∷ 78 ∷ 70 ∷ 79 ∷ []
    else if level == warn
    then 87 ∷ 65 ∷ 82 ∷ 78 ∷ []
    else if level == error
    then 69 ∷ 82 ∷ 82 ∷ 79 ∷ 82 ∷ []
    else if level == fatal
    then 70 ∷ 65 ∷ 84 ∷ 65 ∷ 76 ∷ []
    else 85 ∷ 78 ∷ 75 ∷ 78 ∷ 79 ∷ 87 ∷ []

-- The names that LogLevel::FromString knows in lower case.
abbrev pub lower_name : (level : ℕ) → String
lower_name level =
    if level == debug
    then 100 ∷ 101 ∷ 98 ∷ 117 ∷ 103 ∷ []
    else if level == info
    then 105 ∷ 110 ∷ 102 ∷ 111 ∷ []
    else if level == warn
    then 119 ∷ 97 ∷ 114 ∷ 110 ∷ []
    else if level == error
    then 101 ∷ 114 ∷ 114 ∷ 111 ∷ 114 ∷ []
    else 102 ∷ 97 ∷ 116 ∷ 97 ∷ 108 ∷ []

-- LogLevel::FromString
unfoldable pub from_string : String → ℕ
unfolding to_string
from_string str =
    if same str (lower_name debug)
    then debug
    else if same str (lower_name info)
    then info
    else if same str (lower_name warn)
    then warn
    else if same str (lower_name error)
    then error
    else if same str (lower_name fatal)
    then fatal
    else if same str (to_string debug)
    then debug
    else if same str (to_string info)
    then info
    else if same str (to_string warn)
    then warn
    else if same str (to_string error)
    then error
    else if same str (to_string fatal)
    then fatal
    else unknow

-- A number as `<<` prints it: at most 20 digits, as many as 64 bits need.
abbrev pub digits : (fuel n : ℕ) → String
digits zero n = []
digits (suc fuel) n =
    let rest = digits fuel (n / 10) in
    if ltb n 10 then (48 + n) ∷ [] else rest ++ (48 + n % 10) ∷ []

abbrev pub decimal : ℕ → String
decimal n = digits 20 n
