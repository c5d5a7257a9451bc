-- ===== src/Timer/Set.antt =====
-- The std::set of timers, duan_src/timer.h: a list that the comparator sorts strictly.
use coroutine.Prelude.{
  ℕ, ◌≡◌, refl, true, false, ◌&&◌, ◌||◌, not, List, [], ◌∷◌, some, none, arith, ◌==◌, if◌then◌else◌,
  update, All, elem, erase,
}
use coroutine.Timer.{Timer, before, insert, find}
use coroutine.Timer.Order.{before_trans, before_total, before_asym, ne_of_before}

abbrev pub Above : (ℕ → Timer) → ℕ → List ℕ → Type 0
Above heap a = All λ x. before heap a x ≡ true

abbrev pub IsSorted : (ℕ → Timer) → List ℕ → Type 0
IsSorted heap [] = Unit
IsSorted heap (x ∷ xs) = Above heap x xs × IsSorted heap xs

module _ (heap : ℕ → Timer) where
  pub Above-trans :
      (a b : ℕ) (xs : List ℕ) → before heap a b ≡ true → Above heap b xs → Above heap a xs
  Above-trans a b [] h k = tt
  Above-trans a b (x ∷ xs) h k = (before_trans heap a b x h k.0, Above-trans a b xs h k.1)

  pub not-elem_of_Above : (a : ℕ) (xs : List ℕ) → Above heap a xs → elem a xs ≡ false
  not-elem_of_Above a [] h = refl
  not-elem_of_Above a (x ∷ xs) h =
      ground (arith, ne_of_before heap a x h.0, not-elem_of_Above a xs h.1)

  pub before_of_elem :
      (a b : ℕ) (xs : List ℕ) → Above heap a xs → elem b xs ≡ true → before heap a b ≡ true
  before_of_elem a b [] h e = ground arith
  before_of_elem a b (x ∷ xs) h e = ground (arith, h.0, before_of_elem a b xs h.1)

  insert-Above :
      (a b : ℕ) (xs : List ℕ)
      → before heap b a ≡ true
      → Above heap b xs
      → Above heap b (insert heap a xs)
  unfolding insert
  insert-Above a b [] h k = (h, tt)
  insert-Above a b (x ∷ xs) h k = ground (arith, insert-Above a b xs h k.1)

  pub insert-IsSorted : (a : ℕ) (xs : List ℕ) → IsSorted heap xs → IsSorted heap (insert heap a xs)
  unfolding insert
  insert-IsSorted a [] s = (tt, tt)
  insert-IsSorted a (x ∷ xs) s =
      ground (arith, insert-IsSorted a xs s.1, insert-Above a x xs, Above-trans a x xs)

  pub elem-insert : (a b : ℕ) (xs : List ℕ) → elem b (insert heap a xs) ≡ (b == a || elem b xs)
  unfolding insert
  elem-insert a b [] = refl
  elem-insert a b (x ∷ xs) = ground (arith, elem-insert a b xs, before_total heap a x)

  pub erase-Above : (a b : ℕ) (xs : List ℕ) → Above heap b xs → Above heap b (erase a xs)
  erase-Above a b [] h = tt
  erase-Above a b (x ∷ xs) h = ground (arith, erase-Above a b xs h.1)

  pub erase-IsSorted : (a : ℕ) (xs : List ℕ) → IsSorted heap xs → IsSorted heap (erase a xs)
  erase-IsSorted a [] s = tt
  erase-IsSorted a (x ∷ xs) s = ground (arith, erase-Above a x xs, erase-IsSorted a xs s.1)

  pub elem-erase :
      (a b : ℕ) (xs : List ℕ) → IsSorted heap xs → elem b (erase a xs) ≡ (not (a == b) && elem b xs)
  elem-erase a b [] s = ground arith
  elem-erase a b (x ∷ xs) s = ground (arith, elem-erase a b xs s.1, not-elem_of_Above x xs s.0)

  pub find_lem :
      (a : ℕ) (xs : List ℕ)
      → IsSorted heap xs
      → find heap a xs ≡ (if elem a xs then some a else none)
  unfolding find
  find_lem a [] s = refl
  find_lem a (x ∷ xs) s = ground (
    arith,
    find_lem a xs s.1,
    before_total heap a x,
    before_asym heap a x,
    before_of_elem x a xs s.0,
  )

-- The order of a set depends on the due times of its elements alone.
module _ (heap heap' : ℕ → Timer) where
  abbrev pub Agree : List ℕ → Type 0
  Agree = All λ x. (heap' x).next ≡ (heap x).next

  Above-Agree :
      (a : ℕ) (xs : List ℕ)
      → (heap' a).next ≡ (heap a).next
      → Agree xs
      → Above heap a xs
      → Above heap' a xs
  Above-Agree a [] e h k = tt
  Above-Agree a (x ∷ xs) e h k = (ground arith, Above-Agree a xs e h.1 k.1)

  pub IsSorted-Agree : (xs : List ℕ) → Agree xs → IsSorted heap xs → IsSorted heap' xs
  IsSorted-Agree [] h s = tt
  IsSorted-Agree (x ∷ xs) h s = (Above-Agree x xs h.0 h.1 s.0, IsSorted-Agree xs h.1 s.1)

pub Agree-update :
    (heap : ℕ → Timer) (a : ℕ) (t : Timer) (xs : List ℕ)
    → elem a xs ≡ false
    → Agree heap (update heap a t) xs
Agree-update heap a t [] h = tt
Agree-update heap a t (x ∷ xs) h = (ground arith, Agree-update heap a t xs (ground arith))

pub Agree-update_next :
    (heap : ℕ → Timer) (a : ℕ) (t : Timer) (xs : List ℕ)
    → t.next ≡ (heap a).next
    → Agree heap (update heap a t) xs
Agree-update_next heap a t [] h = tt
Agree-update_next heap a t (x ∷ xs) h = (ground arith, Agree-update_next heap a t xs h)
