-- ===== src/Config/Members.antt =====
-- What LoadFromYaml of duan_src/config.cc lists: the nodes that a walk from the root reaches through
-- allowed names.
use coroutine.Prelude.{
  ℕ, zero, suc, ◌<◌, ◌≡◌, ◌↔◌, refl, sym, ap, true, false, List, [], ◌∷◌, ◌++◌, Option, none, some,
  arith, Option-cases, Bool-cases, inl, inr, ◌⊎◌,
}
use mathlib.Core.Path.{subst}
use coroutine.Log.{String}
use coroutine.Config.{all_of, member_charset, member_name, list_pairs, list_all_member}

abbrev pub IsMember : {A : Type 0} → A → List A → Type 0
IsMember x [] = ⊥
IsMember x (y ∷ ys) = (x ≡ y) ⊎ IsMember x ys

module _ {A : Type 0} where
  IsMember-append_left : (x : A) (xs ys : List A) → IsMember x xs → IsMember x (xs ++ ys)
  IsMember-append_left x [] ys h = absurd h
  IsMember-append_left x (y ∷ xs) ys (inl e) = inl e
  IsMember-append_left x (y ∷ xs) ys (inr h) = inr (IsMember-append_left x xs ys h)

  IsMember-append_right : (x : A) (xs ys : List A) → IsMember x ys → IsMember x (xs ++ ys)
  IsMember-append_right x [] ys h = h
  IsMember-append_right x (y ∷ xs) ys h = inr (IsMember-append_right x xs ys h)

  IsMember-append : (x : A) (xs ys : List A) → IsMember x (xs ++ ys) → IsMember x xs ⊎ IsMember x ys
  IsMember-append x [] ys h = inr h
  IsMember-append x (y ∷ xs) ys (inl e) = inl (inl e)
  IsMember-append x (y ∷ xs) ys (inr h) = elim (IsMember-append x xs ys h) [
    | inl a ↦ inl (inr a)
    | inr b ↦ inr b
  ]

-- A name and a key behind it, with a point between where the name is not empty.
abbrev pub joined : (name key : String) → String
joined name key = name ++ elim name [ [] ↦ key | c ∷ s ↦ 46 ∷ key ]

member_name_lem : (name key : String) → member_name name key ≡ joined name key
member_name_lem [] key = refl
member_name_lem (c ∷ name) key = refl

module _ {N : Type 0} (members : N → Option (List (String × N))) where
  -- A walk down the keys given, from a node with its name to another, through allowed names.
  abbrev pub Walk : (keys : List String) → String → N → String → N → Type 0
  Walk [] prefix node p n = (all_of member_charset prefix ≡ true) × (prefix ≡ p) × (node ≡ n)
  Walk (key ∷ keys) prefix node p n =
      (all_of member_charset prefix ≡ true)
      × ((pairs : List (String × N)) × (child : N) × (members node ≡ some pairs)
          × IsMember (key, child) pairs
          × Walk keys (joined prefix key) child p n)

  -- A node is a map of nodes of smaller depth.
  abbrev pub IsDepth : (N → ℕ) → Type 0
  IsDepth depth =
      (node : N) (pairs : List (String × N)) (key : String) (child : N)
      → members node ≡ some pairs
      → IsMember (key, child) pairs
      → depth child < depth node

pair_eq :
    {A : Type 0} {B : Type 0} {a a' : A} {b b' : B}
    → a ≡ a'
    → b ≡ b'
    → ◌≡◌ {A = A × B} (a, b) (a', b')
pair_eq e f = λ i. (e i, f i)

module _ {N : Type 0} (list : String → N → List (String × N)) (prefix : String) where
  into_pairs :
      (pairs : List (String × N)) (key : String) (child : N) (x : String × N)
      → IsMember (key, child) pairs
      → IsMember x (list (member_name prefix key) child)
      → IsMember x (list_pairs list prefix pairs)
  into_pairs [] key child x h k = absurd h
  into_pairs ((key', child') ∷ pairs) key child x (inl e) k =
      IsMember-append_left x (list (member_name prefix key') child') (list_pairs list prefix pairs)
        (subst (λ y. IsMember x (list (member_name prefix y.0) y.1)) e k)
  into_pairs ((key', child') ∷ pairs) key child x (inr h) k =
      IsMember-append_right x (list (member_name prefix key') child') (list_pairs list prefix pairs)
        (into_pairs pairs key child x h k)

  out_of_pairs :
      (pairs : List (String × N)) (x : String × N)
      → IsMember x (list_pairs list prefix pairs)
      → (key : String) × (child : N) × IsMember (key, child) pairs
        × IsMember x (list (member_name prefix key) child)
  out_of_pairs [] x h = absurd h
  out_of_pairs ((key, child) ∷ pairs) x h =
      elim (IsMember-append x (list (member_name prefix key) child) (list_pairs list prefix pairs)
        h) [
          | inl a ↦ (key, child, inl refl, a)
          | inr b ↦ let (key', child', m, k) = out_of_pairs pairs x b in (key', child', inr m, k)
        ]

module _ {N : Type 0} (members : N → Option (List (String × N))) (depth : N → ℕ)
    (deep : IsDepth members depth) where
  below : (fuel : ℕ) (prefix : String) → Option (List (String × N)) → List (String × N)
  below fuel prefix none = []
  below fuel prefix (some pairs) = list_pairs (λ p n. list_all_member members fuel p n) prefix pairs

  list_valid :
      (fuel : ℕ) (prefix : String) (node : N)
      → all_of member_charset prefix ≡ true
      → list_all_member members (suc fuel) prefix node
        ≡ (prefix, node) ∷ below fuel prefix (members node)
  unfolding list_all_member below
  list_valid fuel prefix node h = elim (Option-cases (members node)) [
    | inl e ↦ ground arith
    | inr (pairs, e) ↦ ground arith
  ]

  list_invalid :
      (fuel : ℕ) (prefix : String) (node : N)
      → all_of member_charset prefix ≡ false
      → list_all_member members (suc fuel) prefix node ≡ []
  unfolding list_all_member
  list_invalid fuel prefix node h = ground arith

  listed :
      (fuel : ℕ) (keys : List String) (prefix : String) (node : N) (p : String) (n : N)
      → depth node < fuel
      → Walk members keys prefix node p n
      → IsMember (p, n) (list_all_member members fuel prefix node)
  unfolding below
  listed zero keys prefix node p n h w = absurd (omega arith)
  listed (suc fuel) [] prefix node p n h (valid, ep, en) =
      rw (list_valid fuel prefix node valid) (inl (pair_eq (sym ep) (sym en)))
  listed (suc fuel) (key ∷ keys) prefix node p n h (valid, (pairs, child, e, m, w)) =
      let smaller = deep node pairs key child e m in
      let inside =
        into_pairs (λ q k. list_all_member members fuel q k) prefix pairs key child (p, n) m
          (rw (member_name_lem prefix key)
            (listed fuel keys (joined prefix key) child p n (omega (arith, h, smaller)) w)) in
      rw (list_valid fuel prefix node valid, e) (inr inside)

  walked :
      (fuel : ℕ) (prefix : String) (node : N) (p : String) (n : N)
      → IsMember (p, n) (list_all_member members fuel prefix node)
      → (keys : List String) × Walk members keys prefix node p n
  unfolding below list_all_member
  walked zero prefix node p n h = absurd h
  walked (suc fuel) prefix node p n h = elim (Bool-cases (all_of member_charset prefix)) [
    | inr bad ↦ absurd (subst (λ l. IsMember (p, n) l) (list_invalid fuel prefix node bad) h)
    | inl valid ↦ elim (subst (λ l. IsMember (p, n) l) (list_valid fuel prefix node valid) h) [
      | inl same ↦ ([], (valid, sym (ap (λ x. x.0) same), sym (ap (λ x. x.1) same)))
      | inr deeper ↦ elim (Option-cases (members node)) [
        | inl e ↦ absurd (subst (λ o. IsMember (p, n) (below fuel prefix o)) e deeper)
        | inr (pairs, e) ↦
            let (key, child, m, k) =
              out_of_pairs (λ q y. list_all_member members fuel q y) prefix pairs (p, n)
                (subst (λ o. IsMember (p, n) (below fuel prefix o)) e deeper) in
            let (keys, w) = walked fuel (joined prefix key) child p n (
              subst (λ q. IsMember (p, n) (list_all_member members fuel q child))
                (member_name_lem prefix key) k) in
            (key ∷ keys, (valid, (pairs, child, e, m, w)))
      ]
    ]
  ]

  -- For a node of a depth below the fuel, ListAllMember lists exactly the nodes that a walk through
  -- allowed names reaches, each with the keys on its way joined by points to the name it began with,
  -- where an empty name has no point behind it.
  pub list_all_member-Walk :
      (fuel : ℕ) (prefix : String) (node : N) (p : String) (n : N)
      → depth node < fuel
      → IsMember (p, n) (list_all_member members fuel prefix node)
        ↔ ((keys : List String) × Walk members keys prefix node p n)
  list_all_member-Walk fuel prefix node p n h =
      (walked fuel prefix node p n, λ w. listed fuel w.0 prefix node p n h w.1)
