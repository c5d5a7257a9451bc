-- ===== src/Config/Containers.antt =====
-- The specializations of LexicalCast for containers, duan_src/config.h.
--
-- yaml-cpp is the record Yaml of the operations that the code uses, over a type of nodes. A list stands
-- for each container: a std::set and a std::map in the order of their iteration, an unordered one in
-- some order. An exception is `throws`.
use coroutine.Prelude.{
  Result, ok, ◌>>=◌, Bool, true, false, List, [], ◌∷◌, ◌++◌, ltb, ◌==◌, if◌then◌else◌,
}
use coroutine.Log.{String, same}

-- YAML::Load, the text that operator<< prints, node[i] for each i below size(), the entries of a map,
-- a node that the nodes were pushed back onto, and one whose keys were assigned in turn.
pub record Yaml (N : Type 0) : Type 0 where
  pub load : String → Result N
  pub print : N → String
  pub items : N → List N
  pub pairs : N → List (String × N)
  pub sequence : List N → N
  pub mapping : List (String × N) → N

-- LexicalCast<std::string, A> and LexicalCast<A, std::string>
pub record Cast (A : Type 0) : Type 0 where
  pub from_string : String → Result A
  pub to_string : A → Result String

-- A loop that converts and adds.
unfoldable pub read_all :
    {N A C : Type 0} → (read : N → Result A) → (add : C → A → C) → C → List N → Result C
read_all read add c [] = ok c
read_all read add c (n ∷ ns) = do a ← read n; read_all read add (add c a) ns

unfoldable pub write_all : {A N : Type 0} → (write : A → Result N) → List A → Result (List N)
write_all write [] = ok []
write_all write (a ∷ rest) = do n ← write a; ns ← write_all write rest; ok (n ∷ ns)

-- push_back
abbrev pub push_back : {A : Type 0} → List A → A → List A
push_back xs x = xs ++ x ∷ []

-- insert of a std::set with the order `less`
abbrev pub insert_ordered : {A : Type 0} → (less : A → A → Bool) → A → List A → List A
insert_ordered less x [] = x ∷ []
insert_ordered less x (y ∷ ys) =
    if less x y then x ∷ y ∷ ys else if less y x then y ∷ insert_ordered less x ys else y ∷ ys

-- insert of a std::unordered_set with the equality `equal`
abbrev pub insert_new : {A : Type 0} → (equal : A → A → Bool) → A → List A → List A
insert_new equal x [] = x ∷ []
insert_new equal x (y ∷ ys) = if equal y x then y ∷ ys else y ∷ insert_new equal x ys

-- operator< of std::string
abbrev pub text_less : String → String → Bool
text_less s [] = false
text_less [] (d ∷ t) = true
text_less (c ∷ s) (d ∷ t) = if ltb c d then true else if c == d then text_less s t else false

module _ {N A : Type 0} (yaml : Yaml N) (cast : Cast A) where
  -- The body of a loop: a node printed and converted, and an element converted and loaded.
  unfoldable pub read_node : N → Result A
  read_node n = cast.from_string (yaml.print n)

  unfoldable pub write_node : A → Result N
  write_node a = do text ← cast.to_string a; yaml.load text

  unfoldable pub read_entry : String × N → Result (String × A)
  unfolding read_node
  read_entry (key, n) = do a ← read_node n; ok (key, a)

  unfoldable pub write_entry : String × A → Result (String × N)
  unfolding write_node
  write_entry (key, a) = do n ← write_node a; ok (key, n)

  -- A container of elements, and one of entries, by its insertion.
  unfoldable pub sequence_cast : (add : List A → A → List A) → Cast (List A)
  unfolding read_all write_all read_node write_node
  sequence_cast add = record {
    from_string = λ v. do
      node ← yaml.load v
      read_all read_node add [] (yaml.items node);
    to_string = λ v. do
      nodes ← write_all write_node v
      ok (yaml.print (yaml.sequence nodes));
  }

  unfoldable pub mapping_cast :
      (add : List (String × A) → String × A → List (String × A)) → Cast (List (String × A))
  unfolding read_all write_all read_entry write_entry
  mapping_cast add = record {
    from_string = λ v. do
      node ← yaml.load v
      read_all read_entry add [] (yaml.pairs node);
    to_string = λ v. do
      entries ← write_all write_entry v
      ok (yaml.print (yaml.mapping entries));
  }

  -- std::vector and std::list
  abbrev pub vector_cast : Cast (List A)
  vector_cast = sequence_cast push_back

  abbrev pub list_cast : Cast (List A)
  list_cast = sequence_cast push_back

  -- std::set and std::unordered_set
  abbrev pub set_cast : (less : A → A → Bool) → Cast (List A)
  set_cast less = sequence_cast (λ c x. insert_ordered less x c)

  abbrev pub unordered_set_cast : (equal : A → A → Bool) → Cast (List A)
  unordered_set_cast equal = sequence_cast (λ c x. insert_new equal x c)

  -- std::map and std::unordered_map, by their keys
  abbrev pub map_cast : Cast (List (String × A))
  map_cast = mapping_cast (λ c e. insert_ordered (λ x y. text_less x.0 y.0) e c)

  abbrev pub unordered_map_cast : Cast (List (String × A))
  unordered_map_cast = mapping_cast (λ c e. insert_new (λ x y. same x.0 y.0) e c)
