-- ===== src/Config/Roundtrip.antt =====
-- What a container of duan_src/config.h is printed as, and read back from.
use coroutine.Prelude.{ok, ◌≡◌, refl, ap, Bool, false, List, [], ◌∷◌, All}
use coroutine.Log.{String, same}
use coroutine.Config.Containers.{
  Yaml, Cast, read_all, write_all, read_node, write_node, read_entry, write_entry, sequence_cast,
  mapping_cast, push_back, insert_ordered, insert_new, vector_cast, list_cast, set_cast,
  unordered_set_cast, map_cast, unordered_map_cast, text_less,
}
use coroutine.Config.Inserted.{
  added, Pairwise, added_lem, added-push_back, Ordered, Apart, insert_ordered_last, insert_new_last,
}

-- What the code relies on in yaml-cpp: what is printed loads as the same node, and a node has the items
-- that were pushed back onto it, or the entries that were assigned to it under different keys.
pub record IsYaml {N : Type 0} (yaml : Yaml N) : Type 0 where
  pub load-print : (n : N) → yaml.load (yaml.print n) ≡ ok n
  pub items-sequence : (ns : List N) → yaml.items (yaml.sequence ns) ≡ ns
  pub pairs-mapping :
      (entries : List (String × N))
      → Pairwise (Apart (λ x y. same x.0 y.0)) entries
      → yaml.pairs (yaml.mapping entries) ≡ entries

-- A value that is read from what it is written as, and from the text of the node that this loads as.
unfoldable pub IsFaithful : {N A : Type 0} → Yaml N → Cast A → A → Type 0
IsFaithful {N} yaml cast a =
    (text : String) × (n : N) × (cast.to_string a ≡ ok text)
    × (yaml.load text ≡ ok n)
    × (cast.from_string (yaml.print n) ≡ ok a)
    × (cast.from_string text ≡ ok a)

module _ {N A : Type 0} (yaml : Yaml N) (law : IsYaml yaml) (cast : Cast A) where
  -- The nodes of the elements, written and read.
  write_lem :
      (xs : List A)
      → All (IsFaithful yaml cast) xs
      → (ns : List N) × (write_all (write_node yaml cast) xs ≡ ok ns)
        × ((add : List A → A → List A) (c : List A)
            → read_all (read_node yaml cast) add c ns ≡ ok (added add c xs))
  unfolding write_all read_all write_node read_node IsFaithful
  write_lem [] h = ([], refl, λ add c. refl)
  write_lem (x ∷ xs) ((text, n, to, loads, from, back), h) =
      let (ns, writes, reads) = write_lem xs h in
      (n ∷ ns, rw (to, loads, writes) refl, λ add c. rw from (reads add (add c x)))

  sequence_lem :
      (add : List A → A → List A) (xs : List A)
      → All (IsFaithful yaml cast) xs
      → added add [] xs ≡ xs
      → IsFaithful yaml (sequence_cast yaml cast add) xs
  unfolding sequence_cast IsFaithful
  sequence_lem add xs h kept =
      let (ns, writes, reads) = write_lem xs h in
      let node = yaml.sequence ns in
      (
        yaml.print node,
        node,
        rw writes refl,
        law.load-print node,
        rw (law.load-print node, law.items-sequence ns, reads add []) (ap ok kept),
        rw (law.load-print node, law.items-sequence ns, reads add []) (ap ok kept),
      )

  -- No entry has the key.
  abbrev NoKey : {B : Type 0} → String → List (String × B) → Type 0
  NoKey key = All (λ e. same key e.0 ≡ false)

  abbrev pub Distinct : {B : Type 0} → List (String × B) → Type 0
  Distinct = Pairwise (Apart (λ x y. same x.0 y.0))

  write_entries_lem :
      (xs : List (String × A))
      → All (λ e. IsFaithful yaml cast e.1) xs
      → (ns : List (String × N)) × (write_all (write_entry yaml cast) xs ≡ ok ns)
        × ((add : List (String × A) → String × A → List (String × A)) (c : List (String × A))
            → read_all (read_entry yaml cast) add c ns ≡ ok (added add c xs))
        × ((key : String) → NoKey key xs → NoKey key ns)
        × (Distinct xs → Distinct ns)
  unfolding write_all read_all write_entry write_node read_entry read_node IsFaithful
  write_entries_lem [] h = ([], refl, (λ add c. refl), (λ key k. tt), (λ d. tt))
  write_entries_lem ((name, x) ∷ xs) ((text, n, to, loads, from, back), h) =
      let (ns, writes, reads, keys, distinct) = write_entries_lem xs h in
      (
        (name, n) ∷ ns,
        rw (to, loads, writes) refl,
        (λ add c. rw from (reads add (add c (name, x)))),
        (λ key k. (k.0, keys key k.1)),
        (λ d. (keys name d.0, distinct d.1)),
      )

  mapping_lem :
      (add : List (String × A) → String × A → List (String × A)) (xs : List (String × A))
      → All (λ e. IsFaithful yaml cast e.1) xs
      → Distinct xs
      → added add [] xs ≡ xs
      → IsFaithful yaml (mapping_cast yaml cast add) xs
  unfolding mapping_cast IsFaithful
  mapping_lem add xs h d kept =
      let (ns, writes, reads, keys, distinct) = write_entries_lem xs h in
      let node = yaml.mapping ns in
      (
        yaml.print node,
        node,
        rw writes refl,
        law.load-print node,
        rw (law.load-print node, law.pairs-mapping ns (distinct d), reads add []) (ap ok kept),
        rw (law.load-print node, law.pairs-mapping ns (distinct d), reads add []) (ap ok kept),
      )

  -- A vector, a list, a set in its order and an unordered set without equal elements, whose elements are
  -- read from what they are written as and from the text of its node, are so themselves; and therefore
  -- so are containers of containers.
  pub sequence_roundtrip :
      (xs : List A)
      → All (IsFaithful yaml cast) xs
      → IsFaithful yaml (vector_cast yaml cast) xs
        × IsFaithful yaml (list_cast yaml cast) xs
        × ((less : A → A → Bool)
            → Pairwise (Ordered less) xs
            → IsFaithful yaml (set_cast yaml cast less) xs)
        × ((equal : A → A → Bool)
            → Pairwise (Apart equal) xs
            → IsFaithful yaml (unordered_set_cast yaml cast equal) xs)
  sequence_roundtrip xs h =
      let plain = sequence_lem push_back xs h (added-push_back [] xs) in
      (
        plain,
        plain,
        (λ less o.
            sequence_lem (λ c x. insert_ordered less x c) xs h
              (added_lem (Ordered less) (λ c x. insert_ordered less x c) (insert_ordered_last less)
                [] xs o)),
        (λ equal o.
            sequence_lem (λ c x. insert_new equal x c) xs h
              (added_lem (Apart equal) (λ c x. insert_new equal x c) (insert_new_last equal) [] xs
                o)),
      )

  -- A map in the order of its keys, and an unordered map with different keys, whose values are read from
  -- what they are written as and from the text of its node, are so themselves, with the same keys.
  pub mapping_roundtrip :
      (xs : List (String × A))
      → All (λ e. IsFaithful yaml cast e.1) xs
      → Distinct xs
      → (Pairwise (Ordered (λ x y. text_less x.0 y.0)) xs → IsFaithful yaml (map_cast yaml cast) xs)
        × IsFaithful yaml (unordered_map_cast yaml cast) xs
  mapping_roundtrip xs h d = (
    (λ o.
        mapping_lem (λ c e. insert_ordered (λ x y. text_less x.0 y.0) e c) xs h d
          (added_lem (Ordered (λ x y. text_less x.0 y.0))
            (λ c e. insert_ordered (λ x y. text_less x.0 y.0) e c)
            (insert_ordered_last (λ x y. text_less x.0 y.0)) [] xs o)),
    mapping_lem (λ c e. insert_new (λ x y. same x.0 y.0) e c) xs h d
        (added_lem (Apart (λ x y. same x.0 y.0)) (λ c e. insert_new (λ x y. same x.0 y.0) e c)
          (insert_new_last (λ x y. same x.0 y.0)) [] xs d),
  )
