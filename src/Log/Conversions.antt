-- ===== src/Log/Conversions.antt =====
-- The items that a pattern of duan_src/log.cc becomes.
use coroutine.Prelude.{
  ℕ, ◌≡◌, refl, ap, ◌∙◌, Bool, true, false, ◌||◌, not, List, [], ◌∷◌, ◌++◌, map, Option, none, some,
  is_some, if◌then◌else◌, ◌==◌, arith, Option-cases, inl, inr,
}
use coroutine.Log.{String}
use coroutine.Log.Formatter.{
  Piece, conversion, make_items, new_formatter, Item, message, level, elapse, name, thread_id,
  new_line, filename, line, tab, fiber_id, thread_name, date_time, string, default_date, find_item,
}
use coroutine.Log.Pattern.{Token, words, braced, bare, print, piece, is_printable, split-print}

-- The letters of the comment of init(), and what each stands for.
abbrev pub letters : List (ℕ × (String → Item))
letters =
    (109, λ f. message)
    ∷ (112, λ f. level)
    ∷ (114, λ f. elapse)
    ∷ (99, λ f. name)
    ∷ (116, λ f. thread_id)
    ∷ (110, λ f. new_line)
    ∷ (100, λ f. elim f [ [] ↦ date_time default_date | c ∷ s ↦ date_time (c ∷ s) ])
    ∷ (102, λ f. filename)
    ∷ (108, λ f. line)
    ∷ (84, λ f. tab)
    ∷ (70, λ f. fiber_id)
    ∷ (78, λ f. thread_name)
    ∷ []

abbrev pub letter_item : List (ℕ × (String → Item)) → (c : ℕ) → (fmt : String) → Option Item
letter_item [] c fmt = none
letter_item ((d, item) ∷ rest) c fmt = if c == d then some (item fmt) else letter_item rest c fmt

-- The item of a conversion, where its name is a letter that stands for one.
abbrev pub known : (str fmt : String) → Option Item
known [] fmt = none
known (c ∷ []) fmt = letter_item letters c fmt
known (c ∷ d ∷ str) fmt = none

-- "<<error_format %" with the name and ">>"
abbrev pub complaint : (str : String) → String
complaint str =
    60
    ∷ 60
    ∷ 101
    ∷ 114
    ∷ 114
    ∷ 111
    ∷ 114
    ∷ 95
    ∷ 102
    ∷ 111
    ∷ 114
    ∷ 109
    ∷ 97
    ∷ 116
    ∷ 32
    ∷ 37
    ∷ (str ++ 62 ∷ 62 ∷ [])

abbrev pub known_or_complaint : (str fmt : String) → Item
known_or_complaint str fmt = elim (known str fmt) [
  | none ↦ string (complaint str)
  | some item ↦ item
]

abbrev pub token_item : Token → Item
token_item (words str) = string str
token_item (braced str fmt) = known_or_complaint str fmt
token_item (bare str) = known_or_complaint str []

-- Is one of the conversions unknown?
abbrev pub has_unknown : List Token → Bool
has_unknown [] = false
has_unknown (words str ∷ ts) = has_unknown ts
has_unknown (braced str fmt ∷ ts) = not (is_some (known str fmt)) || has_unknown ts
has_unknown (bare str ∷ ts) = not (is_some (known str [])) || has_unknown ts

find_item-known : (str fmt : String) → find_item str fmt ≡ known str fmt
find_item-known [] fmt = refl
find_item-known (c ∷ []) [] = refl
find_item-known (c ∷ []) (d ∷ fmt) = refl
find_item-known (c ∷ d ∷ str) fmt = refl

conversion_lem :
    (str fmt : String) (pieces : List Piece)
    → make_items (conversion str fmt ∷ pieces) ≡ (
      known_or_complaint str fmt ∷ (make_items pieces).0,
      not (is_some (known str fmt)) || (make_items pieces).1,
    )
unfolding make_items
conversion_lem str fmt pieces = elim (Option-cases (known str fmt)) [
  | inl e ↦ ground (arith, find_item-known str fmt, e)
  | inr (item, e) ↦ ground (arith, find_item-known str fmt, e)
]

make_items-piece :
    (ts : List Token) → make_items (map piece ts) ≡ (map token_item ts, has_unknown ts)
unfolding make_items
make_items-piece [] = refl
make_items-piece (words str ∷ ts) = rw (make_items-piece ts) refl
make_items-piece (braced str fmt ∷ ts) =
    rw (conversion_lem str fmt (map piece ts), make_items-piece ts) refl
make_items-piece (bare str ∷ ts) =
    rw (conversion_lem str [] (map piece ts), make_items-piece ts) refl

-- A pattern printed from printable tokens becomes the items of these tokens in their order: a text is
-- itself, a conversion the item that its letter stands for, with its format for a date, and any other
-- conversion a text that names it. The pattern is an error exactly if there is such another one.
pub new_formatter-print :
    (ts : List Token)
    → is_printable ts ≡ true
    → new_formatter (print ts)
      ≡ record { pattern = print ts; items = map token_item ts; error = has_unknown ts }
unfolding new_formatter
new_formatter-print ts p =
    ap
      (λ r. record {
        pattern = print ts;
        items = (make_items r.0).0;
        error = r.1 || (make_items r.0).1;
      })
      (split-print ts p)
    ∙ ap (λ r. record { pattern = print ts; items = r.0; error = r.1 }) (make_items-piece ts)
