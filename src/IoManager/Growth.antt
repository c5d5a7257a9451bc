-- ===== src/IoManager/Growth.antt =====
-- How the vector of contexts grows in IOManager::addEvent, duan_src/iomanager.cc.
use coroutine.Prelude.{
  ℕ, zero, suc, ◌+◌, ◌-◌, ◌*◌, ◌/◌, ◌<◌, ◌≤◌, ◌≡◌, ◌⊎◌, inl, inr, length-append, refl, sym, ap, ◌∙◌,
  List, ◌++◌, none, some, arith, ltb, if◌then◌else◌, length, get_elem?,
}
use native.Mathlib.Decide.{dec_lt}
use coroutine.IoManager.{FdContext, new_context, IoManager, new_contexts, context_resize}
use coroutine.IoManager.Invariant.{IsConsistent, IsGood, registered_events}
use coroutine.IoManager.Slots.{
  AllFrom, AllFrom-append, sum, sum-append, take_all, get_elem?-append_left, get_elem?-append_right,
  get_elem?_inside, get_elem?_outside,
}

module _ where
  pub new_contexts-IsGood : (k n : ℕ) → AllFrom IsGood k (new_contexts k n)
  unfolding new_contexts
  new_contexts-IsGood k zero = tt
  new_contexts-IsGood k (suc n) = ((refl, refl, refl), new_contexts-IsGood (k + 1) n)

  pub sum-new_contexts : (k n : ℕ) → sum registered_events (new_contexts k n) ≡ 0
  unfolding new_contexts
  sum-new_contexts k zero = refl
  sum-new_contexts k (suc n) = omega (arith, sum-new_contexts (k + 1) n)

  pub length-new_contexts : (k n : ℕ) → length (new_contexts k n) ≡ n
  unfolding new_contexts
  length-new_contexts k zero = refl
  length-new_contexts k (suc n) = ap suc (length-new_contexts (k + 1) n)

  get_elem?-new_contexts :
      (k n i m : ℕ) → i < n → k + i ≡ m → get_elem? (new_contexts k n) i ≡ some (new_context m)
  unfolding new_contexts
  get_elem?-new_contexts k zero i m h e = absurd (omega arith)
  get_elem?-new_contexts k (suc n) zero m h e = ap (λ j. some (new_context j)) (omega arith)
  get_elem?-new_contexts k (suc n) (suc i) m h e =
      get_elem?-new_contexts (k + 1) n i m (omega arith) (omega arith)

-- The vector as addEvent uses it: with a slot for the descriptor.
abbrev pub grown : List FdContext → (fd : ℕ) → List FdContext
grown contexts fd =
    if ltb fd (length contexts) then contexts else context_resize contexts (fd * 3 / 2)

-- The slot of a descriptor, a new one where the vector has none.
abbrev pub slot_at : List FdContext → (fd : ℕ) → FdContext
slot_at contexts fd = elim (get_elem? contexts fd) [ none ↦ new_context fd | some c ↦ c ]

slot_at_outside :
    (contexts : List FdContext) (fd : ℕ)
    → length contexts ≤ fd
    → slot_at contexts fd ≡ new_context fd
slot_at_outside contexts fd outside =
    let absent = get_elem?_outside contexts fd outside in ground arith

slot_at_inside :
    (contexts : List FdContext) (fd : ℕ) (c : FdContext)
    → get_elem? contexts fd ≡ some c
    → slot_at contexts fd ≡ c
slot_at_inside contexts fd c at = ground arith

pub record IsGrown (contexts larger : List FdContext) (fd : ℕ) : Type 0 where
  pub slot : get_elem? larger fd ≡ some (slot_at contexts fd)
  pub kept : (i : ℕ) → i < length contexts → get_elem? larger i ≡ get_elem? contexts i
  pub fresh :
      (j : ℕ)
      → length contexts ≤ j
      → (get_elem? larger j ≡ none) ⊎ (get_elem? larger j ≡ some (new_context j))
  pub good : AllFrom IsGood 0 larger
  pub same_sum : sum registered_events larger ≡ sum registered_events contexts
  pub longer : length contexts ≤ length larger

larger_lem :
    (contexts : List FdContext) (fd : ℕ)
    → 2 ≤ length contexts
    → length contexts ≤ fd
    → AllFrom IsGood 0 contexts
    → IsGrown contexts (context_resize contexts (fd * 3 / 2)) fd
unfolding context_resize
larger_lem contexts fd two outside good =
    let n = length contexts in
    let size = fd * 3 / 2 in
    let more : fd < size = omega (arith, two, outside) in
    let fresh = new_contexts n (size - n) in
    let whole : context_resize contexts size ≡ contexts ++ fresh =
      ap (λ l. l ++ fresh) (take_all size contexts (omega (arith, more, outside))) in
    rw whole (record {
      slot =
          (get_elem?-append_right contexts fresh fd (fd - n) (omega (arith, outside))
            ∙ get_elem?-new_contexts n (size - n) (fd - n) fd (omega (arith, more, outside))
                (omega (arith, outside))
            ∙ ap some (sym (slot_at_outside contexts fd outside)));
      kept = λ i inside. get_elem?-append_left contexts fresh i inside;
      fresh = λ j beyond. elim (dec_lt (j - n) (size - n)) [
        | yes inside ↦ inr (
            get_elem?-append_right contexts fresh j (j - n) (omega (arith, beyond))
            ∙ get_elem?-new_contexts n (size - n) (j - n) j inside (omega (arith, beyond)))
        | no behind ↦ inl (
            get_elem?_outside (contexts ++ fresh) j (
              omega (
                arith,
                behind,
                beyond,
                length-append contexts fresh,
                length-new_contexts n (size - n),
              )))
      ];
      good =
          AllFrom-append IsGood 0 n contexts fresh (omega arith) good
            (new_contexts-IsGood n (size - n));
      same_sum =
          omega (arith, sum-append registered_events contexts fresh, sum-new_contexts n (size - n));
      longer = omega (arith, length-append contexts fresh);
    })

pub grown_lem :
    {K : Type 0} (io : IoManager K)
    → IsConsistent io
    → (fd : ℕ) → IsGrown io.contexts (grown io.contexts fd) fd
grown_lem io h fd = elim (dec_lt fd (length io.contexts)) [
  | no outside ↦
      let whole : grown io.contexts fd ≡ context_resize io.contexts (fd * 3 / 2) = ground arith in
      rw whole (larger_lem io.contexts fd h.two_slots (omega arith) h.contexts_good)
  | yes inside ↦
      let whole : grown io.contexts fd ≡ io.contexts = ground arith in
      let (c, at) = get_elem?_inside io.contexts fd inside in
      rw whole (record {
        slot = at ∙ ap some (sym (slot_at_inside io.contexts fd c at));
        kept = λ i h. refl;
        fresh = λ j beyond. inl (get_elem?_outside io.contexts j beyond);
        good = h.contexts_good;
        same_sum = refl;
        longer = omega arith;
      })
]
