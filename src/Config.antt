-- ===== src/Config.antt =====
-- duan_src/config.h and duan_src/config.cc: variables with listeners, and the registry of variables.
--
-- A variable is an object at an address; the registry knows its address and its type, which is a number
-- for each instance of the template. A YAML::Node is a value of the type `N` with the operations that
-- the code calls on it.
pub mod Variable
pub mod Containers
mod Inserted
mod Roundtrip
mod Names
mod Members
mod Listeners
mod Tests
use coroutine.Prelude.{
  Result, ok, throws, ℕ, zero, suc, ◌+◌, Bool, true, false, ◌&&◌, ◌||◌, not, List, [], ◌∷◌, ◌++◌,
  Option, none, some, leb, ◌==◌, if◌then◌else◌, elem,
}
use coroutine.Log.{String, same}

-- tolower in the C locale
abbrev pub lower : ℕ → ℕ
lower c = if leb 65 c && leb c 90 then c + 32 else c

abbrev pub lower_all : String → String
lower_all [] = []
lower_all (c ∷ s) = lower c ∷ lower_all s

-- find_first_not_of(...) != npos
abbrev pub all_of : (allowed name : String) → Bool
all_of allowed [] = true
all_of allowed (c ∷ s) = elem c allowed && all_of allowed s

-- "abcdefghigklmnopqrstuvwxyz._012345678" of Lookup
abbrev pub lookup_charset : String
lookup_charset =
    97 ∷ 98 ∷ 99 ∷ 100 ∷ 101 ∷ 102 ∷ 103 ∷ 104 ∷ 105 ∷ 103 ∷ 107 ∷ 108 ∷ 109 ∷ 110 ∷ 111 ∷ 112 ∷ 113
    ∷ 114 ∷ 115 ∷ 116 ∷ 117 ∷ 118 ∷ 119 ∷ 120 ∷ 121 ∷ 122 ∷ 46 ∷ 95 ∷ 48 ∷ 49 ∷ 50 ∷ 51 ∷ 52 ∷ 53
    ∷ 54 ∷ 55 ∷ 56 ∷ []

-- "abcdefghijklmnopqrstuvwxyz._012345678" of ListAllMember
abbrev pub member_charset : String
member_charset =
    97 ∷ 98 ∷ 99 ∷ 100 ∷ 101 ∷ 102 ∷ 103 ∷ 104 ∷ 105 ∷ 106 ∷ 107 ∷ 108 ∷ 109 ∷ 110 ∷ 111 ∷ 112 ∷ 113
    ∷ 114 ∷ 115 ∷ 116 ∷ 117 ∷ 118 ∷ 119 ∷ 120 ∷ 121 ∷ 122 ∷ 46 ∷ 95 ∷ 48 ∷ 49 ∷ 50 ∷ 51 ∷ 52 ∷ 53
    ∷ 54 ∷ 55 ∷ 56 ∷ []

pub record Entry : Type 0 where
  pub type : ℕ
  pub addr : ℕ

-- GetDatas()
abbrev pub Datas : Type 0
Datas = List (String × Entry)

abbrev pub find : Datas → String → Option Entry
find [] name = none
find ((key, e) ∷ datas) name = if same key name then some e else find datas name

-- Config::Lookup with a default value. The new variable, if one is made, is at `addr`; the option is
-- the pointer returned.
unfoldable pub lookup : Datas → (name : String) → (type addr : ℕ) → Result (Datas × Option ℕ)
lookup datas name type addr = elim (find datas name) [
  | some e ↦ ok (datas, if e.type == type then some e.addr else none)
  | none ↦
      if not (all_of lookup_charset name)
      then throws
      else ok ((name, record { type = type; addr = addr }) ∷ datas, some addr)
]

-- Config::Lookup without a default value
unfoldable pub lookup_existing : Datas → (name : String) → (type : ℕ) → Option ℕ
lookup_existing datas name type = elim (find datas name) [
  | none ↦ none
  | some e ↦ if e.type == type then some e.addr else none
]

-- Config::LookupBase
unfoldable pub lookup_base : Datas → (name : String) → Option ℕ
lookup_base datas name = elim (find datas name) [ none ↦ none | some e ↦ some e.addr ]

-- `prefix.empty() ? key : prefix + "." + key`
abbrev pub member_name : (prefix key : String) → String
member_name [] key = key
member_name (c ∷ prefix) key = c ∷ prefix ++ 46 ∷ key

-- The loop of ListAllMember over the pairs of a map, where `list` is the call of itself.
abbrev pub list_pairs :
    {N : Type 0} (list : String → N → List (String × N))
    → (prefix : String) → List (String × N)
    → List (String × N)
list_pairs list prefix [] = []
list_pairs list prefix ((key, node) ∷ pairs) =
    list (member_name prefix key) node ++ list_pairs list prefix pairs

-- `members` are the pairs of a map, and `none` for any other node; `scalar` is the text of a scalar, and
-- `print` what `<<` prints.
module _ {N : Type 0} (members : N → Option (List (String × N))) where
  -- ListAllMember, for nodes of a depth below `fuel`.
  unfoldable pub list_all_member : (fuel : ℕ) → (prefix : String) → N → List (String × N)
  list_all_member zero prefix node = []
  list_all_member (suc fuel) prefix node =
      if not (all_of member_charset prefix)
      then []
      else (prefix, node) ∷ elim (members node) [
        | none ↦ []
        | some pairs ↦ list_pairs (λ p n. list_all_member fuel p n) prefix pairs
      ]

  module _ (scalar : N → Option String) (print : N → String) where
    -- The text that a node gives to fromString.
    abbrev pub text_of : N → String
    text_of node = elim (scalar node) [ some text ↦ text | none ↦ print node ]

    -- The loop of Config::LoadFromYaml: the calls of fromString, each with the address of its variable.
    unfoldable pub load_all : Datas → List (String × N) → List (ℕ × String)
    unfolding lookup_base
    load_all datas [] = []
    load_all datas ((key, node) ∷ nodes) =
        let rest = load_all datas nodes in
        elim key [
          | [] ↦ rest
          | c ∷ s ↦ elim (lookup_base datas (lower_all (c ∷ s))) [
            | none ↦ rest
            | some addr ↦ (addr, text_of node) ∷ rest
          ]
        ]

    -- Config::LoadFromYaml
    unfoldable pub load_from_yaml : (fuel : ℕ) → Datas → (root : N) → List (ℕ × String)
    unfolding list_all_member load_all
    load_from_yaml fuel datas root = load_all datas (list_all_member fuel [] root)
