-- ===== src/Hook/Course.antt =====
-- The courses that a call of do_io can take, duan_src/hook.cc, and what its attempts end with.
use coroutine.Prelude.{
  ok, ℕ, ◌≡◌, ◌≢◌, inl, inr, refl, Bool, true, false, Option, none, some, ◌==◌, ap, ◌∙◌, List, [],
  ◌∷◌, ◌++◌, zero, suc, if◌then◌else◌, arith, ok_of_>>=, Bool-cases, Option-cases,
}
use coroutine.IoManager.{Events, Op, IoManager, add_event}
use coroutine.Hook.{Outcome, eintr, eagain, etimedout, fails_with, no_timeout, World, Caller}
use coroutine.Hook.Io.{
  Call, Phase, trying, parked, finished, not_added, call_through, start_timer, after_add, add_wait,
  cancel_timer, park, attempt, resume_io, on_timeout,
}
use mathlib.Core.List.{append_assoc}

-- A call with tinfo->cancelled, and the outcomes of the calls of the function that it has made so far, the
-- last one first.
pub record Wait (K M S : Type 0) : Type 0 where
  pub outcomes : List Outcome
  pub world : World K M S
  pub phase : Phase
  pub cancelled : ℕ

-- The call has not returned, so that its tinfo is alive.
abbrev pub is_alive : Phase → Bool
is_alive trying = true
is_alive (parked timer) = true
is_alive (finished n) = false
is_alive not_added = false

-- The outcomes of the calls that the loop on EINTR makes, the last one first.
abbrev pub outcomes_of : {S : Type 0} (fun : S → S × Outcome) (fuel : ℕ) → S → List Outcome
outcomes_of fun zero s = []
outcomes_of fun (suc fuel) s =
    let rest = outcomes_of fun fuel (fun s).0 in
    if fails_with eintr (fun s).1 then rest ++ (fun s).1 ∷ [] else (fun s).1 ∷ []

abbrev pub latest : List Outcome → Option Outcome
latest [] = none
latest (n ∷ ns) = some n

-- What the loop returns is what its last call returned, and not EINTR.
call_through-latest :
    {S : Type 0} (fun : S → S × Outcome) (fuel : ℕ) (s : S) (r : S × Outcome)
    (before : List Outcome)
    → call_through fun fuel s ≡ some r
    → (fails_with eintr r.1 ≡ false) × (latest (outcomes_of fun fuel s ++ before) ≡ some r.1)
unfolding call_through
call_through-latest fun zero s r before h = absurd (ground arith)
call_through-latest fun (suc fuel) s r before h = elim (Bool-cases (fails_with eintr (fun s).1)) [
  | inl e ↦
      let (other, last) =
        call_through-latest fun fuel (fun s).0 r ((fun s).1 ∷ before) (ground arith) in
      (
        other,
        rw e (
            ap latest (append_assoc (outcomes_of fun fuel (fun s).0) ((fun s).1 ∷ []) before)
            ∙ last),
      )
  | inr e ↦ (ground arith, ground arith)
]

-- An answer: the outcome of the last call, which is neither EINTR nor EAGAIN.
abbrev pub IsAnswer : List Outcome → Outcome → Type 0
IsAnswer outcomes n =
    (latest outcomes ≡ some n) × (fails_with eintr n ≡ false) × (fails_with eagain n ≡ false)

-- The function had nothing ready at its last call, and an addEvent of the caller returned false.
abbrev pub IsRefused :
    {K : Type 0} (ctl : K → Op → (fd : ℕ) → Events → K × Bool)
    → Call
    → Caller
    → List Outcome
    → Type 0
IsRefused {K} ctl call me outcomes =
    ((n : Outcome) × (latest outcomes ≡ some n) × (fails_with eagain n ≡ true))
    × ((io io' : IoManager K) × (add_event ctl io call.fd call.event none me.scheduler me.fiber
            me.exec
          ≡ ok (io', false)))

-- A timeout is noted only where the call has one.
abbrev pub IsTimed : Call → (cancelled : ℕ) → Type 0
IsTimed call cancelled = ((call.to == no_timeout) ≡ false) × (cancelled ≡ etimedout)

module _ {K M S : Type 0} (ctl : K → Op → (fd : ℕ) → Events → K × Bool) (fun : S → S × Outcome)
    (call : Call) (me : Caller) where
  -- The call goes on, its fiber is resumed, a timer of the call fires, or something else happens in the
  -- process.
  pub data Step (s : Wait K M S) : Wait K M S → Type 0 where
    calls :
        (fuel addr now : ℕ) (wrote : Bool) {w : World K M S} {phase : Phase}
        → s.phase ≡ trying
        → attempt ctl fun fuel s.world call me addr now wrote ≡ some (ok (w, phase))
        → Step s (record s {
          world = w;
          phase = phase;
          outcomes = outcomes_of fun fuel s.world.os ++ s.outcomes;
        })
    wakes :
        (timer : Option ℕ) {w : World K M S} {phase : Phase}
        → s.phase ≡ parked timer
        → resume_io s.world s.cancelled timer ≡ ok (w, phase)
        → Step s (record s { world = w; phase = phase })
    fires :
        {w : World K M S} {cancelled : ℕ}
        → (call.to == no_timeout) ≡ false
        → on_timeout ctl s.world call (is_alive s.phase) s.cancelled ≡ ok (w, cancelled)
        → Step s (record s { world = w; cancelled = cancelled })
    others : (w : World K M S) → Step s (record s { world = w })

  pub data Reach (w : World K M S) : Wait K M S → Type 0 where
    begin : Reach w (record { world = w; phase = trying; cancelled = 0; outcomes = [] })
    later : {s t : Wait K M S} → Reach w s → Step s t → Reach w t

  after_add_waits :
      (w w' : World K M S) (timer : Option ℕ) (added : IoManager K × Bool) (n : Outcome)
      → after_add ctl w timer added ≢ ok (w', finished n)
  unfolding after_add
  after_add_waits w w' timer (io, true) n e = ground arith
  after_add_waits w w' timer (io, false) n e =
      let (timers, h, e1) = ok_of_>>= (cancel_timer io.timers timer) _ (w', finished n) e in
      ground arith

  park_ends :
      (w w' : World K M S) (addr now : ℕ) (wrote : Bool) (n n' : Outcome)
      → park ctl w call me addr now wrote n ≡ ok (w', finished n')
      → (n' ≡ n) × (fails_with eagain n ≡ false)
  unfolding park add_wait
  park_ends w w' addr now wrote n n' e = elim (Bool-cases (fails_with eagain n)) [
    | inr other ↦ ground arith
    | inl again ↦
        let ((io, timer), h, e1) =
          ok_of_>>= (start_timer w.io call addr now wrote) (add_wait ctl w call me)
            (w', finished n') (ground arith) in
        let (added, h2, e2) =
          ok_of_>>= (add_event ctl io call.fd call.event none me.scheduler me.fiber me.exec)
            (after_add ctl w timer) (w', finished n') e1 in
        absurd (after_add_waits w w' timer added n' e2)
  ]

  after_add_refused :
      (w w' : World K M S) (timer : Option ℕ) (added : IoManager K × Bool)
      → after_add ctl w timer added ≡ ok (w', not_added)
      → added.1 ≡ false
  unfolding after_add
  after_add_refused w w' timer (io, true) e = ground arith
  after_add_refused w w' timer (io, false) e = refl

  park_refused :
      (w w' : World K M S) (addr now : ℕ) (wrote : Bool) (n : Outcome)
      → park ctl w call me addr now wrote n ≡ ok (w', not_added)
      → (fails_with eagain n ≡ true)
        × ((io io' : IoManager K) × (add_event ctl io call.fd call.event none me.scheduler me.fiber
                me.exec
              ≡ ok (io', false)))
  unfolding park add_wait
  park_refused w w' addr now wrote n e = elim (Bool-cases (fails_with eagain n)) [
    | inr other ↦ absurd (ground arith)
    | inl again ↦
        let ((io, timer), h, e1) =
          ok_of_>>= (start_timer w.io call addr now wrote) (add_wait ctl w call me) (w', not_added)
            (ground arith) in
        let (added, h2, e2) =
          ok_of_>>= (add_event ctl io call.fd call.event none me.scheduler me.fiber me.exec)
            (after_add ctl w timer) (w', not_added) e1 in
        (again, (io, added.0, ground (arith, h2, after_add_refused w w' timer added e2)))
  ]

  attempt_lem :
      (fuel : ℕ) (w w' : World K M S) (addr now : ℕ) (wrote : Bool) (phase : Phase)
      → attempt ctl fun fuel w call me addr now wrote ≡ some (ok (w', phase))
      → (r : S × Outcome) × (call_through fun fuel w.os ≡ some r)
        × (park ctl (record w { os = r.0 }) call me addr now wrote r.1 ≡ ok (w', phase))
  unfolding attempt
  attempt_lem fuel w w' addr now wrote phase e = elim (Option-cases (call_through fun fuel w.os)) [
    | inl h ↦ absurd (ground arith)
    | inr (r, h) ↦ (r, h, ground arith)
  ]

  pub attempt_answers :
      (fuel : ℕ) (w w' : World K M S) (addr now : ℕ) (wrote : Bool) (n : Outcome)
      (before : List Outcome)
      → attempt ctl fun fuel w call me addr now wrote ≡ some (ok (w', finished n))
      → IsAnswer (outcomes_of fun fuel w.os ++ before) n
  attempt_answers fuel w w' addr now wrote n before e =
      let (r, h, parks) = attempt_lem fuel w w' addr now wrote (finished n) e in
      let (same, again) = park_ends (record w { os = r.0 }) w' addr now wrote r.1 n parks in
      let (other, last) = call_through-latest fun fuel w.os r before h in
      (ground (arith, last, same), ground (arith, other, same), ground (arith, again, same))

  pub attempt_refused :
      (fuel : ℕ) (w w' : World K M S) (addr now : ℕ) (wrote : Bool) (before : List Outcome)
      → attempt ctl fun fuel w call me addr now wrote ≡ some (ok (w', not_added))
      → IsRefused ctl call me (outcomes_of fun fuel w.os ++ before)
  attempt_refused fuel w w' addr now wrote before e =
      let (r, h, parks) = attempt_lem fuel w w' addr now wrote not_added e in
      let (again, refused) = park_refused (record w { os = r.0 }) w' addr now wrote r.1 parks in
      let (other, last) = call_through-latest fun fuel w.os r before h in
      ((r.1, last, again), refused)
