-- ===== src/Config/Inserted.antt =====
-- The containers of duan_src/config.h that take their own elements again.
use coroutine.Prelude.{◌≡◌, refl, sym, ◌∙◌, Bool, true, false, List, [], ◌∷◌, ◌++◌, All, arith}
use mathlib.Core.List.{append_assoc, append-nil}
use coroutine.Config.Containers.{push_back, insert_ordered, insert_new}

-- `xs` added one by one
abbrev pub added : {A : Type 0} → (List A → A → List A) → List A → List A → List A
added add c [] = c
added add c (x ∷ xs) = added add (add c x) xs

module _ {A : Type 0} (R : A → A → Type 0) where
  -- Each element stands in `R` to every later one.
  abbrev pub Pairwise : List A → Type 0
  Pairwise [] = Unit {0}
  Pairwise (x ∷ xs) = All (R x) xs × Pairwise xs

  All-last : (P : A → Type 0) (xs : List A) (x : A) (ys : List A) → All P (xs ++ x ∷ ys) → P x
  All-last P [] x ys h = h.0
  All-last P (y ∷ xs) x ys h = All-last P xs x ys h.1

  Pairwise-last : (c : List A) (x : A) (xs : List A) → Pairwise (c ++ x ∷ xs) → All (λ y. R y x) c
  Pairwise-last [] x xs h = tt
  Pairwise-last (y ∷ c) x xs h = (All-last (R y) c x xs h.0, Pairwise-last c x xs h.1)

  -- A container that adds an element at its end when the ones in it stand in `R` to the element.
  pub added_lem :
      (add : List A → A → List A)
      → ((c : List A) (x : A) → All (λ y. R y x) c → add c x ≡ c ++ x ∷ [])
      → (c xs : List A) → Pairwise (c ++ xs)
      → added add c xs ≡ c ++ xs
  added_lem add last c [] h = sym (append-nil c)
  added_lem add last c (x ∷ xs) h =
      let here : add c x ≡ c ++ x ∷ [] = last c x (Pairwise-last c x xs h) in
      let whole : (c ++ x ∷ []) ++ xs ≡ c ++ x ∷ xs = append_assoc c (x ∷ []) xs in
      rw here (added_lem add last (c ++ x ∷ []) xs (rw whole h) ∙ whole)

pub added-push_back : {A : Type 0} (c xs : List A) → added push_back c xs ≡ c ++ xs
added-push_back c [] = sym (append-nil c)
added-push_back c (x ∷ xs) = added-push_back (push_back c x) xs ∙ append_assoc c (x ∷ []) xs

module _ {A : Type 0} where
  -- In the order `less` of a std::set
  abbrev pub Ordered : (less : A → A → Bool) → A → A → Type 0
  Ordered less x y = (less x y ≡ true) × (less y x ≡ false)

  pub insert_ordered_last :
      (less : A → A → Bool) (c : List A) (x : A)
      → All (λ y. Ordered less y x) c
      → insert_ordered less x c ≡ c ++ x ∷ []
  insert_ordered_last less [] x h = refl
  insert_ordered_last less (y ∷ c) x h = ground (arith, h.0, insert_ordered_last less c x h.1)

  -- Apart for the equality of an unordered container
  abbrev pub Apart : (equal : A → A → Bool) → A → A → Type 0
  Apart equal x y = equal x y ≡ false

  pub insert_new_last :
      (equal : A → A → Bool) (c : List A) (x : A)
      → All (λ y. Apart equal y x) c
      → insert_new equal x c ≡ c ++ x ∷ []
  insert_new_last equal [] x h = refl
  insert_new_last equal (y ∷ c) x h = ground (arith, h.0, insert_new_last equal c x h.1)
