-- ===== src/Config/Variable.antt =====
-- ConfigVar of duan_src/config.h: a value and its listeners.
--
-- A listener is known by a number; a call of it is recorded with the old and the new value. FromStr is
-- the parameter `from_str`, where `none` is an exception, and `same` the operator == of the type.
use coroutine.Prelude.{
  ℕ, Bool, false, List, [], ◌∷◌, map, Option, none, some, ltb, ◌==◌, if◌then◌else◌, inc,
}
use coroutine.Log.{String}

-- ConfigVar, with its std::map of listeners in the order of their keys.
pub record ConfigVar (A : Type 0) : Type 0 where
  pub value : A
  pub listeners : List (ℕ × ℕ)

-- A call of a listener
pub record Call (A : Type 0) : Type 0 where
  pub listener : ℕ
  pub old_value : A
  pub new_value : A

module _ {A : Type 0} (same : A → A → Bool) (from_str : String → Option A) where
  -- ConfigVar::setValue
  unfoldable pub set_value : ConfigVar A → A → ConfigVar A × List (Call A)
  set_value c v = if same v c.value then (c, []) else (
    record c { value = v },
    map (λ l. record { listener = l.1; old_value = c.value; new_value = v }) c.listeners,
  )

  -- ConfigVar::fromString; an exception is caught.
  unfoldable pub from_string : ConfigVar A → String → ConfigVar A × List (Call A) × Bool
  unfolding set_value
  from_string c val = elim (from_str val) [
    | none ↦ (c, [], false)
    | some v ↦ let set = set_value c v in (set.0, set.1, false)
  ]

-- `m_cbs[key] = cb`, `m_cbs.erase(key)` and `m_cbs.find(key)`
abbrev pub insert : (key cb : ℕ) → List (ℕ × ℕ) → List (ℕ × ℕ)
insert key cb [] = (key, cb) ∷ []
insert key cb ((k, l) ∷ listeners) =
    if ltb key k
    then (key, cb) ∷ (k, l) ∷ listeners
    else if k == key
    then (k, cb) ∷ listeners
    else (k, l) ∷ insert key cb listeners

abbrev pub remove : (key : ℕ) → List (ℕ × ℕ) → List (ℕ × ℕ)
remove key [] = []
remove key ((k, l) ∷ listeners) = if k == key then listeners else (k, l) ∷ remove key listeners

abbrev pub find_listener : (key : ℕ) → List (ℕ × ℕ) → Option ℕ
find_listener key [] = none
find_listener key ((k, l) ∷ listeners) = if k == key then some l else find_listener key listeners

module _ {A : Type 0} where
  -- ConfigVar::addListener, with the static counter s_fun_id.
  unfoldable pub add_listener : ConfigVar A → (fun_id cb : ℕ) → ConfigVar A × ℕ
  unfolding inc
  add_listener c fun_id cb =
      (record c { listeners = insert (inc fun_id) cb c.listeners }, inc fun_id)

  -- ConfigVar::delListener
  unfoldable pub del_listener : ConfigVar A → (key : ℕ) → ConfigVar A
  del_listener c key = record c { listeners = remove key c.listeners }

  -- ConfigVar::getListener
  unfoldable pub get_listener : ConfigVar A → (key : ℕ) → Option ℕ
  get_listener c key = find_listener key c.listeners

  -- ConfigVar::clearListener
  unfoldable pub clear_listener : ConfigVar A → ConfigVar A
  clear_listener c = record c { listeners = [] }
