-- ===== src/Log/Escape.antt =====
-- Two percent signs in a pattern of duan_src/log.cc.
use coroutine.Prelude.{
  ℕ, suc, ◌≡◌, refl, ap, ◌∙◌, Bool, true, false, ◌||◌, List, [], ◌∷◌, ◌++◌, length, length-append,
  arith,
}
use coroutine.Log.{String}
use coroutine.Log.Formatter.{
  Piece, conversion, percent, push_text, is_double, split, make_items, new_formatter,
}
use coroutine.Log.Pattern.{every, is_plain, ends_name, split-words, split-conversion, scan-bare}

or_true : (b : Bool) → (b || true) ≡ true
or_true true = refl
or_true false = refl

split_double :
    (fuel : ℕ) (nstr s : String)
    → split (suc fuel) nstr (percent ∷ percent ∷ s)
      ≡ split fuel (nstr ++ percent ∷ []) (percent ∷ s)
unfolding split
split_double fuel nstr s = refl

push-unknown :
    (nstr : String) (pieces : List Piece)
    → (make_items (push_text nstr (conversion [] [] ∷ pieces))).1 ≡ true
unfolding make_items
push-unknown [] pieces = refl
push-unknown (c ∷ nstr) pieces = refl

-- A doubled percent sign, behind text without one and before a byte that is neither a letter, an
-- opening brace nor a percent sign, or before the end, makes the pattern an error: the second sign
-- is read again, as a conversion with no name.
pub double_percent_error :
    (before rest : String)
    → every is_plain before ≡ true
    → ends_name rest ≡ true
    → is_double rest ≡ false
    → (new_formatter (before ++ (percent ∷ percent ∷ rest))).error ≡ true
unfolding new_formatter
double_percent_error before rest plain ends single =
    let n = length rest in
    let left = suc (suc (suc n)) in
    let whole =
      split-words before (suc (length (before ++ (percent ∷ percent ∷ rest)))) left []
        (percent ∷ percent ∷ rest) (omega (arith, length-append before (percent ∷ percent ∷ rest)))
        plain in
    let once = split_double (suc (suc n)) before rest in
    let twice =
      split-conversion (suc n) (before ++ percent ∷ []) rest [] [] rest single
        (scan-bare [] rest refl ends) in
    let read = whole ∙ once ∙ twice in
    ap (λ r. r.1 || (make_items r.0).1) read
    ∙ ap (λ b. (split (suc n) [] rest).1 || b)
        (push-unknown (before ++ percent ∷ []) (split (suc n) [] rest).0)
    ∙ or_true (split (suc n) [] rest).1
