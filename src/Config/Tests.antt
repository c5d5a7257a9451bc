-- ===== src/Config/Tests.antt =====
-- Runs of duan_src/config.h and duan_src/config.cc.
use coroutine.Prelude.{
  ok, ℕ, zero, suc, ◌==◌, ◌≡◌, ◌↔◌, refl, ap, Bool, List, [], ◌∷◌, ◌++◌, Option, none, some, arith,
  inl, inr, length, take, throws, ltb, length-append, ◌≤◌, ◌∙◌,
}
use mathlib.Core.Path.{subst}
use coroutine.Log.{String}
use coroutine.Config.{load_all, Datas, lookup, list_all_member, load_from_yaml}
use coroutine.Config.Variable.{ConfigVar, set_value, add_listener, del_listener, get_listener}
use coroutine.Config.Names.{lookup-load_all, IsNamed}
use coroutine.Config.Containers.{Yaml, Cast, set_cast, map_cast}
use coroutine.Config.Roundtrip.{IsYaml, IsFaithful, sequence_roundtrip, mapping_roundtrip}
use coroutine.Config.Members.{IsMember, Walk, IsDepth, list_all_member-Walk}
use coroutine.Config.Listeners.{add_listener_correct}

-- "a" at 3
abbrev registry : Datas
registry = (97 ∷ [], record { type = 1; addr = 3 }) ∷ []

abbrev no_members : ℕ → Option (List (String × ℕ))
no_members n = none

registry-lookup :
    lookup registry (98 ∷ []) 1 7 ≡ ok ((98 ∷ [], record { type = 1; addr = 7 }) ∷ registry, some 7)
unfolding lookup
registry-lookup = refl

-- The node 4 under "b", and the node 5 under "c", where no variable is.
lookup-load_all_example :
    (load_all no_members
        (λ n. some (n ∷ []))
        (λ n. [])
        ((98 ∷ [], record { type = 1; addr = 7 }) ∷ registry)
        ((98 ∷ [], 4) ∷ (99 ∷ [], 5) ∷ [])
      ≡ (7, 4 ∷ [])
        ∷ load_all no_members
            (λ n. some (n ∷ []))
            (λ n. [])
            ((98 ∷ [], record { type = 1; addr = 7 }) ∷ registry)
            ((99 ∷ [], 5) ∷ []))
    × IsNamed ((98 ∷ [], record { type = 1; addr = 7 }) ∷ registry)
lookup-load_all_example =
    lookup-load_all no_members (λ n. some (n ∷ [])) (λ n. []) registry
      ((98 ∷ [], record { type = 1; addr = 7 }) ∷ registry) 98 [] 1 7 7 4 ((99 ∷ [], 5) ∷ [])
      (refl, tt) registry-lookup

-- The node 0 is a map from "a" to the node 1, and every other node is a scalar.
abbrev tree : ℕ → Option (List (String × ℕ))
tree zero = some ((97 ∷ [], 1) ∷ [])
tree (suc n) = none

abbrev tree_depth : ℕ → ℕ
tree_depth zero = 1
tree_depth (suc n) = 0

tree-IsDepth : IsDepth tree tree_depth
tree-IsDepth zero pairs key child e m =
    let these : pairs ≡ (97 ∷ [], 1) ∷ [] = ground arith in
    elim (subst (λ l. IsMember (key, child) l) these m) [
      | inl same ↦ let leaf : child ≡ 1 = ap (λ x. x.1) same in rw leaf (omega arith)
      | inr none_left ↦ absurd none_left
    ]
tree-IsDepth (suc n) pairs key child e m = absurd (ground arith)

list_all_member-Walk_example :
    IsMember (97 ∷ [], 1) (list_all_member tree 2 [] 0)
    ↔ ((keys : List String) × Walk tree keys [] 0 (97 ∷ []) 1)
list_all_member-Walk_example =
    list_all_member-Walk tree tree_depth tree-IsDepth 2 [] 0 (97 ∷ []) 1 (omega arith)

load_example : load_from_yaml tree (λ n. some (n ∷ [])) (λ n. []) 2 registry 0 ≡ (3, 1 ∷ []) ∷ []
unfolding load_from_yaml
load_example = refl

abbrev same_number : ℕ → ℕ → Bool
same_number a b = a == b

abbrev no_text : String → Option ℕ
no_text s = none

abbrev variable : ConfigVar ℕ
variable = record { value = 5; listeners = (1, 8) ∷ [] }

add_listener_correct_example :
    (get_listener (add_listener variable 1 9).0 (add_listener variable 1 9).1 ≡ some 9)
    × (del_listener (add_listener variable 1 9).0 (add_listener variable 1 9).1 ≡ variable)
    × ((set_value same_number no_text (add_listener variable 1 9).0 6).1
        ≡ (set_value same_number no_text variable 6).1
          ++ record { listener = 9; old_value = 5; new_value = 6 } ∷ [])
    × ((set_value same_number no_text (add_listener variable 1 9).0 6).0.value ≡ 6)
add_listener_correct_example =
    add_listener_correct same_number no_text variable 1 9 6 (omega arith, tt) (omega arith) refl

-- A YAML of its own: a node is its text, and a sequence the lengths of its nodes between them.
abbrev drop : ℕ → String → String
drop zero s = s
drop (suc n) [] = []
drop (suc n) (c ∷ s) = drop n s

abbrev join : List String → String
join [] = []
join (s ∷ rest) = length s ∷ s ++ join rest

abbrev part : (fuel : ℕ) → String → List String
part zero s = []
part (suc fuel) [] = []
part (suc fuel) (n ∷ s) = take n s ∷ part fuel (drop n s)

take-length : (s t : String) → take (length s) (s ++ t) ≡ s
take-length [] t = refl
take-length (c ∷ s) t = ap (◌∷◌ c) (take-length s t)

drop-length : (s t : String) → drop (length s) (s ++ t) ≡ t
drop-length [] t = refl
drop-length (c ∷ s) t = drop-length s t

part-join :
    (fuel : ℕ) (rest : List String) → length (join rest) ≤ fuel → part fuel (join rest) ≡ rest
part-join zero [] h = refl
part-join zero (s ∷ rest) h = absurd (omega arith)
part-join (suc fuel) [] h = refl
part-join (suc fuel) (s ∷ rest) h =
    let shorter : length (join rest) ≤ fuel = omega (arith, length-append s (join rest)) in
    rw (take-length s (join rest), drop-length s (join rest))
      (ap (◌∷◌ s) (part-join fuel rest shorter))

abbrev flat : List (String × String) → List String
flat [] = []
flat ((key, n) ∷ entries) = key ∷ n ∷ flat entries

abbrev paired : List String → List (String × String)
paired [] = []
paired (key ∷ []) = []
paired (key ∷ n ∷ rest) = (key, n) ∷ paired rest

paired-flat : (entries : List (String × String)) → paired (flat entries) ≡ entries
paired-flat [] = refl
paired-flat ((key, n) ∷ entries) = ap (◌∷◌ (key, n)) (paired-flat entries)

abbrev plain_yaml : Yaml String
plain_yaml = record {
  load = λ s. ok s;
  print = λ n. n;
  items = λ n. part (length n) n;
  pairs = λ n. paired (part (length n) n);
  sequence = join;
  mapping = λ entries. join (flat entries);
}

plain_yaml-IsYaml : IsYaml plain_yaml
plain_yaml-IsYaml = record {
  load-print = λ n. refl;
  items-sequence = λ ns. part-join (length (join ns)) ns (omega arith);
  pairs-mapping = λ entries d.
      ap paired (part-join (length (join (flat entries))) (flat entries) (omega arith))
      ∙ paired-flat entries;
}

-- One byte is a number.
abbrev byte_cast : Cast ℕ
byte_cast = record {
  from_string = λ s. elim s [ [] ↦ throws | c ∷ rest ↦ ok c ];
  to_string = λ c. ok (c ∷ []);
}

byte-IsFaithful : (c : ℕ) → IsFaithful plain_yaml byte_cast c
unfolding IsFaithful
byte-IsFaithful c = (c ∷ [], c ∷ [], refl, refl, refl, refl)

-- A set of two numbers.
sequence_roundtrip_example : IsFaithful plain_yaml (set_cast plain_yaml byte_cast ltb) (3 ∷ 5 ∷ [])
sequence_roundtrip_example =
    (sequence_roundtrip plain_yaml plain_yaml-IsYaml byte_cast (3 ∷ 5 ∷ [])
        (byte-IsFaithful 3, (byte-IsFaithful 5, tt))).2
      ltb (((refl, refl), tt), (tt, tt))

mapping_roundtrip_example :
    IsFaithful plain_yaml (map_cast plain_yaml byte_cast) ((97 ∷ [], 3) ∷ (98 ∷ [], 5) ∷ [])
mapping_roundtrip_example =
    (mapping_roundtrip plain_yaml plain_yaml-IsYaml byte_cast ((97 ∷ [], 3) ∷ (98 ∷ [], 5) ∷ [])
        (byte-IsFaithful 3, (byte-IsFaithful 5, tt)) ((refl, tt), (tt, tt))).0
      (((refl, refl), tt), (tt, tt))
