-- ===== src/IoManager/Slots.antt =====
-- Lists indexed by descriptor, as m_fdContexts of duan_src/iomanager.h.
use coroutine.Prelude.{
  ℕ, zero, suc, ◌+◌, ◌<◌, ◌≤◌, ◌≡◌, ◌≢◌, refl, sym, ap, List, [], ◌∷◌, ◌++◌, none, some, arith,
  length, get_elem?, set, take,
}

module _ {ℓ} {A : Type ℓ} where
  pub get_elem?-set_self :
      (xs : List A) (i : ℕ) (v : A) {c : A}
      → get_elem? xs i ≡ some c
      → get_elem? (set xs i v) i ≡ some v
  get_elem?-set_self [] i v h = ground arith
  get_elem?-set_self (x ∷ xs) zero v h = refl
  get_elem?-set_self (x ∷ xs) (suc i) v h = get_elem?-set_self xs i v h

  pub get_elem?-set_ne :
      (xs : List A) (i j : ℕ) (v : A) → i ≢ j → get_elem? (set xs i v) j ≡ get_elem? xs j
  get_elem?-set_ne [] i j v h = refl
  get_elem?-set_ne (x ∷ xs) zero zero v h = absurd (h refl)
  get_elem?-set_ne (x ∷ xs) zero (suc j) v h = refl
  get_elem?-set_ne (x ∷ xs) (suc i) zero v h = refl
  get_elem?-set_ne (x ∷ xs) (suc i) (suc j) v h = get_elem?-set_ne xs i j v (λ e. h (ap suc e))

  pub set-set : (xs : List A) (i : ℕ) (v w : A) → set (set xs i v) i w ≡ set xs i w
  set-set [] i v w = refl
  set-set (x ∷ xs) zero v w = refl
  set-set (x ∷ xs) (suc i) v w = ap (◌∷◌ x) (set-set xs i v w)

  pub set-get_elem? : (xs : List A) (i : ℕ) (c : A) → get_elem? xs i ≡ some c → set xs i c ≡ xs
  set-get_elem? [] i c h = refl
  set-get_elem? (x ∷ xs) zero c h = ground arith
  set-get_elem? (x ∷ xs) (suc i) c h = ap (◌∷◌ x) (set-get_elem? xs i c h)

  pub length-set : (xs : List A) (i : ℕ) (v : A) → length (set xs i v) ≡ length xs
  length-set [] i v = refl
  length-set (x ∷ xs) zero v = refl
  length-set (x ∷ xs) (suc i) v = ap suc (length-set xs i v)

  pub get_elem?_inside : (xs : List A) (i : ℕ) → i < length xs → (c : A) × (get_elem? xs i ≡ some c)
  get_elem?_inside [] i h = absurd (omega arith)
  get_elem?_inside (x ∷ xs) zero h = (x, refl)
  get_elem?_inside (x ∷ xs) (suc i) h = get_elem?_inside xs i (omega arith)

  pub take_all : (n : ℕ) (xs : List A) → length xs ≤ n → take n xs ≡ xs
  take_all zero [] h = refl
  take_all zero (x ∷ xs) h = absurd (omega arith)
  take_all (suc n) [] h = refl
  take_all (suc n) (x ∷ xs) h = ap (◌∷◌ x) (take_all n xs (omega arith))

  pub get_elem?-append_left :
      (xs ys : List A) (i : ℕ) → i < length xs → get_elem? (xs ++ ys) i ≡ get_elem? xs i
  get_elem?-append_left [] ys i h = absurd (omega arith)
  get_elem?-append_left (x ∷ xs) ys zero h = refl
  get_elem?-append_left (x ∷ xs) ys (suc i) h = get_elem?-append_left xs ys i (omega arith)

  pub get_elem?-append_right :
      (xs ys : List A) (i j : ℕ) → length xs + j ≡ i → get_elem? (xs ++ ys) i ≡ get_elem? ys j
  get_elem?-append_right [] ys i j h = ap (get_elem? ys) (omega arith)
  get_elem?-append_right (x ∷ xs) ys zero j h = absurd (omega arith)
  get_elem?-append_right (x ∷ xs) ys (suc i) j h = get_elem?-append_right xs ys i j (omega arith)

  pub get_elem?_outside : (xs : List A) (i : ℕ) → length xs ≤ i → get_elem? xs i ≡ none
  get_elem?_outside [] i h = refl
  get_elem?_outside (x ∷ xs) zero h = absurd (omega arith)
  get_elem?_outside (x ∷ xs) (suc i) h = get_elem?_outside xs i (omega arith)

-- The weights of all slots together.
module _ {ℓ} {A : Type ℓ} (weight : A → ℕ) where
  abbrev pub sum : List A → ℕ
  sum [] = 0
  sum (x ∷ xs) = weight x + sum xs

  pub sum-set :
      (xs : List A) (i : ℕ) (c v : A)
      → get_elem? xs i ≡ some c
      → sum (set xs i v) + weight c ≡ sum xs + weight v
  sum-set [] i c v h = ground arith
  sum-set (x ∷ xs) zero c v h = ground arith
  sum-set (x ∷ xs) (suc i) c v h = omega (arith, sum-set xs i c v h)

  pub weight-le-sum : (xs : List A) (i : ℕ) (c : A) → get_elem? xs i ≡ some c → weight c ≤ sum xs
  weight-le-sum [] i c h = ground arith
  weight-le-sum (x ∷ xs) zero c h = ground arith
  weight-le-sum (x ∷ xs) (suc i) c h = omega (arith, weight-le-sum xs i c h)

  pub sum-append : (xs ys : List A) → sum (xs ++ ys) ≡ sum xs + sum ys
  sum-append [] ys = omega arith
  sum-append (x ∷ xs) ys = omega (arith, sum-append xs ys)

-- A predicate on the slots that may speak of their index.
module _ {ℓ κ} {A : Type ℓ} (P : ℕ → A → Type κ) where
  abbrev pub AllFrom : ℕ → List A → Type κ
  AllFrom k [] = Unit
  AllFrom k (x ∷ xs) = P k x × AllFrom (k + 1) xs

  pub AllFrom-get_elem? :
      (k i n : ℕ) (xs : List A) (c : A) → k + i ≡ n → get_elem? xs i ≡ some c → AllFrom k xs → P n c
  AllFrom-get_elem? k i n [] c e h a = absurd (ground arith)
  AllFrom-get_elem? k zero n (x ∷ xs) c e h a =
      let at : k ≡ n = omega arith in let same : x ≡ c = ground arith in rw (sym at, sym same) a.0
  AllFrom-get_elem? k (suc i) n (x ∷ xs) c e h a =
      AllFrom-get_elem? (k + 1) i n xs c (omega arith) h a.1

  pub AllFrom-set :
      (k i n : ℕ) (xs : List A) (v : A) → k + i ≡ n → P n v → AllFrom k xs → AllFrom k (set xs i v)
  AllFrom-set k i n [] v e p a = tt
  AllFrom-set k zero n (x ∷ xs) v e p a = let at : k ≡ n = omega arith in (rw at p, a.1)
  AllFrom-set k (suc i) n (x ∷ xs) v e p a = (a.0, AllFrom-set (k + 1) i n xs v (omega arith) p a.1)

  pub AllFrom-append :
      (k n : ℕ) (xs ys : List A)
      → k + length xs ≡ n
      → AllFrom k xs
      → AllFrom n ys
      → AllFrom k (xs ++ ys)
  AllFrom-append k n [] ys e a b = let at : k ≡ n = omega arith in rw at b
  AllFrom-append k n (x ∷ xs) ys e a b = (a.0, AllFrom-append (k + 1) n xs ys (omega arith) a.1 b)
