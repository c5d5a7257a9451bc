-- ===== src/Config/Listeners.antt =====
-- The life of a listener of a ConfigVar, duan_src/config.h.
use coroutine.Prelude.{
  ℕ, ◌+◌, ◌^◌, ◌<◌, ◌≤◌, ◌≡◌, refl, sym, ap, ◌∙◌, Bool, false, List, [], ◌∷◌, ◌++◌, map, Option,
  some, All, arith, inc,
}
use mathlib.Core.Path.{subst}
use coroutine.Log.{String}
use coroutine.Config.Variable.{
  ConfigVar, insert, remove, find_listener, set_value, add_listener, del_listener, get_listener,
}

-- The keys given out so far are at most the counter.
abbrev pub IsBelow : (fun_id : ℕ) → List (ℕ × ℕ) → Type 0
IsBelow fun_id listeners = All (λ l. l.0 ≤ fun_id) listeners

insert_last :
    (n cb : ℕ) (ls : List (ℕ × ℕ)) → IsBelow n ls → insert (n + 1) cb ls ≡ ls ++ (n + 1, cb) ∷ []
insert_last n cb [] h = refl
insert_last n cb ((k, l) ∷ ls) h = ground (arith, insert_last n cb ls h.1, h.0)

remove_last :
    (n cb : ℕ) (ls : List (ℕ × ℕ)) → IsBelow n ls → remove (n + 1) (ls ++ (n + 1, cb) ∷ []) ≡ ls
remove_last n cb [] h = ground arith
remove_last n cb ((k, l) ∷ ls) h = ground (arith, remove_last n cb ls h.1, h.0)

find_last :
    (n cb : ℕ) (ls : List (ℕ × ℕ))
    → IsBelow n ls
    → find_listener (n + 1) (ls ++ (n + 1, cb) ∷ []) ≡ some cb
find_last n cb [] h = ground arith
find_last n cb ((k, l) ∷ ls) h = ground (arith, find_last n cb ls h.1, h.0)

map-append :
    {A : Type 0} {B : Type 0} (f : A → B) (xs ys : List A) → map f (xs ++ ys) ≡ map f xs ++ map f ys
map-append f [] ys = refl
map-append f (x ∷ xs) ys = ap (◌∷◌ (f x)) (map-append f xs ys)

abbrev extended : {A : Type 0} → ConfigVar A → (fun_id cb : ℕ) → ConfigVar A
extended c fun_id cb = record c { listeners = c.listeners ++ (fun_id + 1, cb) ∷ [] }

called :
    {A : Type 0} (same : A → A → Bool) (from_str : String → Option A) (c : ConfigVar A)
    (fun_id cb : ℕ) (v : A)
    → same v c.value ≡ false
    → (set_value same from_str (extended c fun_id cb) v).1
      ≡ (set_value same from_str c v).1
        ++ record { listener = cb; old_value = c.value; new_value = v } ∷ []
unfolding set_value
called same from_str c fun_id cb v changed = rw changed (
    map-append (λ l. record { listener = l.1; old_value = c.value; new_value = v }) c.listeners
      ((fun_id + 1, cb) ∷ []))

changed_value :
    {A : Type 0} (same : A → A → Bool) (from_str : String → Option A) (c : ConfigVar A) (v : A)
    → same v c.value ≡ false
    → (set_value same from_str c v).0.value ≡ v
unfolding set_value
changed_value same from_str c v changed = rw changed refl

add_listener_lem :
    {A : Type 0} (c : ConfigVar A) (fun_id cb : ℕ)
    → IsBelow fun_id c.listeners
    → fun_id + 1 < 2 ^ 64
    → add_listener c fun_id cb ≡ (extended c fun_id cb, fun_id + 1)
unfolding add_listener inc
add_listener_lem c fun_id cb below room =
    let next : inc fun_id ≡ fun_id + 1 = omega arith in
    ap (λ k. (record c { listeners = insert k cb c.listeners }, k)) next
    ∙ ap (λ l. (record c { listeners = l }, fun_id + 1)) (insert_last fun_id cb c.listeners below)

-- While the counter of keys does not wrap, a listener that is added is found under the key returned,
-- a change of the value calls it once, with the old and the new value and behind the listeners before
-- it, and deleting the key leaves the variable as it was.
pub add_listener_correct :
    {A : Type 0} (same : A → A → Bool) (from_str : String → Option A) (c : ConfigVar A)
    (fun_id cb : ℕ) (v : A)
    → IsBelow fun_id c.listeners
    → fun_id + 1 < 2 ^ 64
    → same v c.value ≡ false
    → (get_listener (add_listener c fun_id cb).0 (add_listener c fun_id cb).1 ≡ some cb)
      × (del_listener (add_listener c fun_id cb).0 (add_listener c fun_id cb).1 ≡ c)
      × ((set_value same from_str (add_listener c fun_id cb).0 v).1
          ≡ (set_value same from_str c v).1
            ++ record { listener = cb; old_value = c.value; new_value = v } ∷ [])
      × ((set_value same from_str (add_listener c fun_id cb).0 v).0.value ≡ v)
unfolding del_listener get_listener
add_listener_correct same from_str c fun_id cb v below room changed =
    let made = add_listener_lem c fun_id cb below room in
    (
      subst (λ r. get_listener r.0 r.1 ≡ some cb) (sym made)
          (find_last fun_id cb c.listeners below),
      subst (λ r. del_listener r.0 r.1 ≡ c) (sym made)
          (ap (λ l. record c { listeners = l }) (remove_last fun_id cb c.listeners below)),
      subst
          (λ r.
            (set_value same from_str r.0 v).1
            ≡ (set_value same from_str c v).1
              ++ record { listener = cb; old_value = c.value; new_value = v } ∷ [])
          (sym made) (called same from_str c fun_id cb v changed),
      subst (λ r. (set_value same from_str r.0 v).0.value ≡ v) (sym made)
          (changed_value same from_str (extended c fun_id cb) v changed),
    )
