-- ===== src/Log/Pattern.antt =====
-- What a pattern of duan_src/log.cc is read as: enough rounds, and patterns printed from pieces.
use coroutine.Prelude.{
  ℕ, zero, suc, ◌+◌, ◌≤◌, ◌<◌, ◌≡◌, refl, sym, ap, ◌∙◌, Bool, true, false, ◌&&◌, not, List, [], ◌∷◌,
  ◌++◌, map, some, ◌==◌, length, length-append, ◌-◌, arith, Option-cases, List-cases, inl, inr,
}
use mathlib.Core.List.{append_assoc, append-nil}
use coroutine.Log.{String}
use coroutine.Log.Formatter.{
  Piece, text, conversion, percent, open_brace, close_brace, is_alpha, scan_name, scan_format, scan,
  push_text, is_double, split,
}

scan_name-length : (s : String) → length (scan_name s).1 ≤ length s
unfolding scan_name
scan_name-length [] = omega arith
scan_name-length (c ∷ s) = ground (arith, scan_name-length s)

scan_format-length :
    (s fmt rest : String) → scan_format s ≡ some (fmt, rest) → length rest ≤ length s
unfolding scan_format
scan_format-length [] fmt rest e = absurd (ground arith)
scan_format-length (c ∷ s) fmt rest e = elim (Option-cases (scan_format s)) [
  | inl n ↦ ground arith
  | inr ((f, r), k) ↦ ground (arith, scan_format-length s f r k)
]

scan-length : (s str fmt rest : String) → scan s ≡ some (str, fmt, rest) → length rest ≤ length s
unfolding scan
scan-length s str fmt rest e = elim (List-cases (scan_name s).1) [
  | inl n ↦ ground (arith, scan_name-length s)
  | inr (c, t, n) ↦ elim (Option-cases (scan_format t)) [
    | inl k ↦ ground (arith, scan_name-length s)
    | inr ((f, r), k) ↦ ground (arith, scan_name-length s, scan_format-length t f r k)
  ]
]

-- Every round passes a byte, so that a round for each byte and one more read the whole pattern,
-- and more rounds change nothing.
pub split_fuel :
    (f g : ℕ) (nstr s : String) → length s < f → length s < g → split f nstr s ≡ split g nstr s
unfolding split
split_fuel zero g nstr s h k = absurd (omega arith)
split_fuel (suc f) zero nstr s h k = absurd (omega arith)
split_fuel (suc f) (suc g) nstr [] h k = refl
split_fuel (suc f) (suc g) nstr (c ∷ s) h k = elim (Option-cases (scan s)) [
  | inl n ↦ ground (
    arith,
    split_fuel f g (nstr ++ c ∷ []) s (omega arith) (omega arith),
    split_fuel f g nstr s (omega arith) (omega arith),
  )
  | inr ((str, fmt, rest), n) ↦
      let shorter = scan-length s str fmt rest n in
      ground (
        arith,
        split_fuel f g (nstr ++ c ∷ []) s (omega arith) (omega arith),
        split_fuel f g [] rest (omega (arith, shorter)) (omega (arith, shorter)),
      )
]

-- A pattern as its author thinks of it.
pub data Token : Type 0 where
  words : (str : String) → Token
  braced : (str fmt : String) → Token
  bare : (str : String) → Token

abbrev pub every : (ℕ → Bool) → String → Bool
every p [] = true
every p (c ∷ s) = p c && every p s

abbrev pub is_plain : ℕ → Bool
is_plain c = not (c == percent)

abbrev pub is_inside : ℕ → Bool
is_inside c = not (c == close_brace)

abbrev pub in_braces : (fmt rest : String) → String
in_braces fmt rest = open_brace ∷ (fmt ++ (close_brace ∷ rest))

abbrev pub print : List Token → String
print [] = []
print (words str ∷ ts) = str ++ print ts
print (braced str fmt ∷ ts) = percent ∷ (str ++ in_braces fmt (print ts))
print (bare str ∷ ts) = percent ∷ (str ++ print ts)

abbrev pub piece : Token → Piece
piece (words str) = text str
piece (braced str fmt) = conversion str fmt
piece (bare str) = conversion str []

-- Nothing that a name or a brace would go on with.
abbrev pub ends_name : String → Bool
ends_name [] = true
ends_name (c ∷ s) = not (is_alpha c) && not (c == open_brace)

abbrev pub is_empty : String → Bool
is_empty [] = true
is_empty (c ∷ s) = false

abbrev pub is_words : List Token → Bool
is_words [] = false
is_words (words s ∷ ts) = true
is_words (braced s f ∷ ts) = false
is_words (bare s ∷ ts) = false

-- Texts are not empty, have no percent sign and do not meet; names are letters; a format has no
-- closing brace; what follows a bare name does not go on with it.
abbrev pub is_printable : List Token → Bool
is_printable [] = true
is_printable (words str ∷ ts) =
    not (is_empty str) && every is_plain str && not (is_words ts) && is_printable ts
is_printable (braced str fmt ∷ ts) = every is_alpha str && every is_inside fmt && is_printable ts
is_printable (bare str ∷ ts) =
    not (is_empty str) && every is_alpha str && ends_name (print ts) && is_printable ts

scan_name-append :
    (str rest : String)
    → every is_alpha str ≡ true
    → scan_name (str ++ rest) ≡ (str ++ (scan_name rest).0, (scan_name rest).1)
unfolding scan_name
scan_name-append [] rest h = refl
scan_name-append (c ∷ str) rest h = ground (arith, scan_name-append str rest)

scan_format-append :
    (fmt rest : String)
    → every is_inside fmt ≡ true
    → scan_format (fmt ++ close_brace ∷ rest) ≡ some (fmt, rest)
unfolding scan_format
scan_format-append [] rest h = refl
scan_format-append (c ∷ fmt) rest h = ground (arith, scan_format-append fmt rest)

scan-braced :
    (str fmt rest : String)
    → every is_alpha str ≡ true
    → every is_inside fmt ≡ true
    → scan (str ++ in_braces fmt rest) ≡ some (str, fmt, rest)
unfolding scan
scan-braced str fmt rest h k =
    let name : scan_name (str ++ in_braces fmt rest) ≡ (str, in_braces fmt rest) =
      scan_name-append str (in_braces fmt rest) h
      ∙ ap (λ s. (s, in_braces fmt rest)) (append-nil str) in
    rw (scan, name, scan_format-append fmt rest k) (ap (λ x. some (x.0, fmt, rest)) name)

pub scan-bare :
    (str rest : String)
    → every is_alpha str ≡ true
    → ends_name rest ≡ true
    → scan (str ++ rest) ≡ some (str, [], rest)
unfolding scan scan_name
scan-bare str [] h k = ground (arith, scan_name-append str [] h, append-nil str)
scan-bare str (c ∷ rest) h k = ground (arith, scan_name-append str (c ∷ rest) h, append-nil str)

-- The bytes of a text are collected.
pub split-words :
    (str : String) (total fuel : ℕ) (nstr rest : String)
    → total ≡ length str + fuel
    → every is_plain str ≡ true
    → split total nstr (str ++ rest) ≡ split fuel (nstr ++ str) rest
unfolding split
split-words [] total fuel nstr rest e h =
    rw (append-nil nstr) (ap (λ n. split n nstr rest) (omega arith))
split-words (c ∷ str) zero fuel nstr rest e h = absurd (omega arith)
split-words (c ∷ str) (suc total) fuel nstr rest e h =
    let later = split-words str total fuel (nstr ++ c ∷ []) rest (omega arith) (ground arith) in
    let same : nstr ++ c ∷ str ≡ (nstr ++ c ∷ []) ++ str = sym (append_assoc nstr (c ∷ []) str) in
    ground (arith, later, same)

single_lem :
    (str rest : String)
    → every is_alpha str ≡ true
    → is_double rest ≡ false
    → is_double (str ++ rest) ≡ false
single_lem [] rest h k = k
single_lem (c ∷ str) rest h k = ground arith

bare_single :
    (str rest : String)
    → every is_alpha str ≡ true
    → is_empty str ≡ false
    → is_double (str ++ rest) ≡ false
bare_single [] rest h k = absurd (ground arith)
bare_single (c ∷ str) rest h k = ground arith

pub split-conversion :
    (fuel : ℕ) (nstr s str fmt rest : String)
    → is_double s ≡ false
    → scan s ≡ some (str, fmt, rest)
    → split (suc fuel) nstr (percent ∷ s)
      ≡ (push_text nstr (conversion str fmt ∷ (split fuel [] rest).0), (split fuel [] rest).1)
unfolding split
split-conversion fuel nstr s str fmt rest single scanned = ground arith

-- Are the bytes before the tokens a text that goes on with them?
abbrev joins : String → List Token → Bool
joins nstr ts = not (is_empty nstr) && is_words ts

pushed :
    (str : String) (pieces : List Piece)
    → is_empty str ≡ false
    → push_text str pieces ≡ text str ∷ pieces
pushed [] pieces h = absurd (ground arith)
pushed (c ∷ str) pieces h = refl

split_lem :
    (ts : List Token) (fuel : ℕ) (nstr : String)
    → length (print ts) < fuel
    → is_printable ts ≡ true
    → joins nstr ts ≡ false
    → split fuel nstr (print ts) ≡ (push_text nstr (map piece ts), false)
unfolding split
split_lem ts zero nstr h p j = absurd (omega arith)
split_lem [] (suc fuel) nstr h p j = refl
split_lem (words str ∷ ts) (suc fuel) (c ∷ nstr) h p j = absurd (ground arith)
split_lem (words str ∷ ts) (suc fuel) [] h p j =
    let left = suc fuel - length str in
    let size = length-append str (print ts) in
    let plain : every is_plain str ≡ true = ground arith in
    split-words str (suc fuel) left [] (print ts) (omega (arith, h, size)) plain
    ∙ split_lem ts left str (omega (arith, h, size)) (ground arith) (ground arith)
    ∙ ap (λ l. (l, false)) (pushed str (map piece ts) (ground arith))
split_lem (braced str fmt ∷ ts) (suc fuel) nstr h p j =
    let letters : every is_alpha str ≡ true = ground arith in
    let inside : every is_inside fmt ≡ true = ground arith in
    let size = length-append str (in_braces fmt (print ts)) in
    let size' = length-append fmt (close_brace ∷ print ts) in
    let single : is_double (str ++ in_braces fmt (print ts)) ≡ false =
      single_lem str (in_braces fmt (print ts)) letters refl in
    split-conversion fuel nstr (str ++ in_braces fmt (print ts)) str fmt (print ts) single
      (scan-braced str fmt (print ts) letters inside)
    ∙ ap (λ r. (push_text nstr (conversion str fmt ∷ r.0), r.1))
        (split_lem ts fuel [] (omega (arith, h, size, size')) (ground arith) refl)
split_lem (bare str ∷ ts) (suc fuel) nstr h p j =
    let letters : every is_alpha str ≡ true = ground arith in
    let ends : ends_name (print ts) ≡ true = ground arith in
    let size = length-append str (print ts) in
    let single : is_double (str ++ print ts) ≡ false =
      bare_single str (print ts) letters (ground arith) in
    split-conversion fuel nstr (str ++ print ts) str [] (print ts) single
      (scan-bare str (print ts) letters ends)
    ∙ ap (λ r. (push_text nstr (conversion str [] ∷ r.0), r.1))
        (split_lem ts fuel [] (omega (arith, h, size)) (ground arith) refl)

-- The pattern printed from its author's tokens is read back as just these, in their order, and no
-- error is found in the reading, for tokens that are printable.
pub split-print :
    (ts : List Token)
    → is_printable ts ≡ true
    → split (suc (length (print ts))) [] (print ts) ≡ (map piece ts, false)
split-print ts p = split_lem ts (suc (length (print ts))) [] (omega arith) p refl
