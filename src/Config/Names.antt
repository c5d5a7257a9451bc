-- ===== src/Config/Names.antt =====
-- Which names a variable of duan_src/config.h can have, and that LoadFromYaml finds it by them.
use coroutine.Prelude.{
  ok, throws, ℕ, ◌≡◌, refl, sym, ap, ◌∙◌, Bool, true, false, ◌&&◌, ◌||◌, List, Option, [], ◌∷◌,
  none, some, ◌==◌, elem, arith, All, Option-cases, Bool-cases, inl, inr,
}
use coroutine.Log.{String, same}
use coroutine.Config.{
  Entry, Datas, find, lower, lower_all, all_of, lookup_charset, lookup, lookup_base, load_all,
}

abbrev all_lower : String → Bool
all_lower [] = true
all_lower (c ∷ cs) = lower c == c && all_lower cs

lower_of_elem : (c : ℕ) (cs : String) → all_lower cs ≡ true → elem c cs ≡ true → lower c ≡ c
lower_of_elem c [] h k = absurd (ground arith)
lower_of_elem c (x ∷ cs) h k = elim (Bool-cases (c == x)) [
  | inl e ↦ ground arith
  | inr n ↦ lower_of_elem c cs (ground arith) (ground arith)
]

and_left : (a b : Bool) → (a && b) ≡ true → a ≡ true
and_left a b h = ground arith

and_right : (a b : Bool) → (a && b) ≡ true → b ≡ true
and_right a b h = ground arith

lower_all_lem : (name : String) → all_of lookup_charset name ≡ true → lower_all name ≡ name
lower_all_lem [] h = refl
lower_all_lem (c ∷ name) h =
    let first =
      lower_of_elem c lookup_charset refl
        (and_left (elem c lookup_charset) (all_of lookup_charset name) h) in
    ap (λ x. x ∷ lower_all name) first
    ∙ ap (◌∷◌ c)
        (lower_all_lem name (and_right (elem c lookup_charset) (all_of lookup_charset name) h))

same_refl : (s : String) → same s s ≡ true
same_refl [] = refl
same_refl (c ∷ s) = ground (arith, same_refl s)

-- Every variable has a name that Lookup allows.
abbrev pub IsNamed : Datas → Type 0
IsNamed datas = All (λ d. all_of lookup_charset d.0 ≡ true) datas

same_eq : (s t : String) → same s t ≡ true → s ≡ t
same_eq [] [] h = refl
same_eq [] (c ∷ t) h = absurd (ground arith)
same_eq (c ∷ s) [] h = absurd (ground arith)
same_eq (c ∷ s) (d ∷ t) h = let rest = same_eq s t (ground arith) in ground arith

find-IsNamed :
    (datas : Datas) (name : String) (e : Entry)
    → IsNamed datas
    → find datas name ≡ some e
    → all_of lookup_charset name ≡ true
find-IsNamed [] name e h f = absurd (ground arith)
find-IsNamed ((key, d) ∷ datas) name e h f = elim (Bool-cases (same key name)) [
  | inl s ↦ rw (sym (same_eq key name s)) h.0
  | inr n ↦ find-IsNamed datas name e h.1 (ground arith)
]

-- A variable that Lookup made or found is the one that LookupBase finds under its name in lower case.
lookup-lookup_base :
    (datas datas' : Datas) (name : String) (type addr a : ℕ)
    → IsNamed datas
    → lookup datas name type addr ≡ ok (datas', some a)
    → (lookup_base datas' (lower_all name) ≡ some a) × IsNamed datas'
unfolding lookup lookup_base
lookup-lookup_base datas datas' name type addr a h run = elim (Option-cases (find datas name)) [
  | inr (e, found) ↦
      let plain = lower_all_lem name (find-IsNamed datas name e h found) in
      let kept : datas' ≡ datas = ground arith in
      let mine : e.addr ≡ a = ground arith in (rw (plain, kept) (ground arith), rw kept h)
  | inl new ↦ elim (Bool-cases (all_of lookup_charset name)) [
    | inr bad ↦ absurd (ground arith)
    | inl good ↦
        let plain = lower_all_lem name good in
        let self = same_refl name in
        let grown : datas' ≡ (name, record { type = type; addr = addr }) ∷ datas = ground arith in
        (rw (plain, grown) (ground arith), rw grown (good, h))
  ]
]

-- Where the names of the registry are ones that Lookup allows, they stay so behind Lookup; and if it
-- made or found a variable by a name that is not empty, LoadFromYaml hands the text of a node that is
-- listed with this name to that variable, and goes on with the other nodes.
pub lookup-load_all :
    {N : Type 0} (members : N → Option (List (String × N))) (scalar : N → Option String)
    (print : N → String) (datas datas' : Datas) (c : ℕ) (s : String) (type addr a : ℕ) (node : N)
    (nodes : List (String × N))
    → IsNamed datas
    → lookup datas (c ∷ s) type addr ≡ ok (datas', some a)
    → (load_all members scalar print datas' ((c ∷ s, node) ∷ nodes)
        ≡ (a, elim (scalar node) [ some text ↦ text | none ↦ print node ])
          ∷ load_all members scalar print datas' nodes)
      × IsNamed datas'
unfolding load_all
lookup-load_all members scalar print datas datas' c s type addr a node nodes h run =
    let (found, named) = lookup-lookup_base datas datas' (c ∷ s) type addr a h run in
    (rw (load_all, found) refl, named)

has_stranger :
    (c : ℕ) (name : String)
    → elem c lookup_charset ≡ false
    → elem c name ≡ true
    → all_of lookup_charset name ≡ false
has_stranger c [] h k = absurd (ground arith)
has_stranger c (d ∷ name) h k = elim (Bool-cases (c == d)) [
  | inl e ↦
      let at : c ≡ d = ground arith in
      let out : elem d lookup_charset ≡ false = rw (sym at) h in ground arith
  | inr n ↦ ground (arith, has_stranger c name h (ground arith))
]

-- No variable can be made whose name has a j or a 9: Lookup refuses it with an exception.
pub lookup_refuses :
    (datas : Datas) (name : String) (type addr : ℕ)
    → find datas name ≡ none
    → (elem 106 name || elem 57 name) ≡ true
    → lookup datas name type addr ≡ throws
unfolding lookup
lookup_refuses datas name type addr new h = elim (Bool-cases (elem 106 name)) [
  | inl j ↦ let bad = has_stranger 106 name refl j in ground arith
  | inr other ↦ let bad = has_stranger 57 name refl (ground arith) in ground arith
]
