-- ===== src/Log/Reload.antt =====
-- What a change of the configuration does to the loggers of duan_src/log.cc.
use coroutine.Prelude.{
  Result, ok, abort, fault, throws, ◌>>=◌, ℕ, ◌+◌, ◌≡◌, refl, sym, ◌∙◌, Bool, true, false, ◌||◌,
  List, [], ◌∷◌, none, some, update, arith, Bool-cases, Option-cases, inl, inr,
}
use coroutine.Log.{String}
use coroutine.Log.Loggers.{LoggerManager, find, get_logger, new_logger, Store}
use coroutine.Log.Define.{
  LogDefine, same_define, find_define, apply_new, apply_all, on_change, apply_define, remove_all,
}

abbrev pub is_ok {ℓ} : {A : Type ℓ} → Result A → Bool
is_ok (ok a) = true
is_ok abort = false
is_ok fault = false
is_ok throws = false

bind-is_ok {ℓ κ} :
    {A : Type ℓ} {B : Type κ} (m : Result A) (f : A → Result B)
    → ((a : A) → is_ok (f a) ≡ false)
    → is_ok (m >>= f) ≡ false
bind-is_ok (ok a) f h = h a
bind-is_ok abort f h = refl
bind-is_ok fault f h = refl
bind-is_ok throws f h = refl

-- Is a define of the new value the same as one of the old value?
abbrev pub is_unchanged : List LogDefine → LogDefine → Bool
is_unchanged old i = elim (find_define old i.name) [ none ↦ false | some it ↦ same_define i it ]

abbrev pub any_unchanged : (old new : List LogDefine) → Bool
any_unchanged old [] = false
any_unchanged old (i ∷ new) = is_unchanged old i || any_unchanged old new

bind-first {ℓ κ} :
    {A : Type ℓ} {B : Type κ} (m : Result A) (f : A → Result B)
    → is_ok m ≡ false
    → is_ok (m >>= f) ≡ false
bind-first (ok a) f h = absurd (ground arith)
bind-first abort f h = refl
bind-first fault f h = refl
bind-first throws f h = refl

unchanged_fault :
    (m : LoggerManager) (old : List LogDefine) (i : LogDefine) (next : ℕ)
    → is_unchanged old i ≡ true
    → is_ok (apply_new m old i next) ≡ false
unfolding apply_new
unchanged_fault m old i next h = elim (Option-cases (find_define old i.name)) [
  | inl n ↦ absurd (ground arith)
  | inr (it, n) ↦ ground arith
]

apply_all-unchanged :
    (m : LoggerManager) (old new : List LogDefine) (next : ℕ)
    → any_unchanged old new ≡ true
    → is_ok (apply_all m old new next) ≡ false
unfolding apply_all apply_new
apply_all-unchanged m old [] next h = absurd (ground arith)
apply_all-unchanged m old (i ∷ new) next h = elim (Bool-cases (is_unchanged old i)) [
  | inl kept ↦
      bind-first (apply_new m old i next) (λ done. apply_all done.0 old new done.1)
        (unchanged_fault m old i next kept)
  | inr changed ↦
      bind-is_ok (apply_new m old i next) (λ done. apply_all done.0 old new done.1)
        (λ done. apply_all-unchanged done.0 old new done.1 (ground arith))
]

-- When the configuration of the loggers changes and leaves even one define as it was, the listener
-- does not come to its end, whatever the other defines are: for that define it writes through a
-- null pointer.
pub unchanged_define_lem :
    (m : LoggerManager) (old new : List LogDefine) (next : ℕ)
    → any_unchanged old new ≡ true
    → is_ok (on_change m old new next) ≡ false
unfolding on_change
unchanged_define_lem m old new next h =
    bind-first (apply_all m old new next) (λ done. ok (remove_all done.0 old new done.1))
      (apply_all-unchanged m old new next h)

added_apply :
    (m : LoggerManager) (old : List LogDefine) (i : LogDefine) (next : ℕ)
    → find_define old i.name ≡ none
    → apply_new m old i next ≡ (do
      done ←
          apply_define
            (record (m.store) { logger = update m.store.logger next (new_logger i.name) })
            next
            i
            (next + 1)
      ok (record m { store = done.0 }, done.1))
unfolding apply_new
added_apply m old i next new = ground arith

added_kept :
    (m m' : LoggerManager) (r : Result (Store × ℕ)) (next : ℕ)
    → ◌>>=◌ {B = LoggerManager × ℕ} r (λ done. ok (record m { store = done.0 }, done.1))
      ≡ ok (m', next)
    → m'.loggers ≡ m.loggers
added_kept m m' (ok a) next e = ground arith
added_kept m m' abort next e = absurd (ground arith)
added_kept m m' fault next e = absurd (ground arith)
added_kept m m' throws next e = absurd (ground arith)

later_logger :
    (m m' : LoggerManager) (name : String) (addr : ℕ)
    → m'.loggers ≡ m.loggers
    → find m.loggers name ≡ none
    → (get_logger m' name addr).0.store.logger addr
      ≡ record (new_logger name) { root = some m'.root }
unfolding get_logger
later_logger m m' name addr kept absent =
    let gone : find m'.loggers name ≡ none = ground arith in ground arith

-- A logger that the configuration names for the first time, and that no one asked for before, is set
-- up apart from the manager: the names that the manager knows stay as they were, and a later
-- getLogger with the name makes another logger, with the default level and without an appender.
pub added_define_lem :
    (m m' : LoggerManager) (old : List LogDefine) (i : LogDefine) (next next' addr : ℕ)
    → find_define old i.name ≡ none
    → find m.loggers i.name ≡ none
    → apply_new m old i next ≡ ok (m', next')
    → (m'.loggers ≡ m.loggers)
      × ((get_logger m' i.name addr).0.store.logger addr
          ≡ record (new_logger i.name) { root = some m'.root })
added_define_lem m m' old i next next' addr new absent run =
    let kept =
      added_kept m m'
        (apply_define (record (m.store) { logger = update m.store.logger next (new_logger i.name) })
          next i (next + 1))
        next' (sym (added_apply m old i next new) ∙ run) in
    (kept, later_logger m m' i.name addr kept absent)
