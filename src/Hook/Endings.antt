-- ===== src/Hook/Endings.antt =====
-- How a call of do_io ends, duan_src/hook.cc.
use coroutine.Prelude.{
  Result, ok, ◌>>=◌, ℕ, ◌≡◌, ◌⊎◌, inl, inr, refl, Bool, true, false, Option, ◌==◌, not, ◌||◌, sym,
  ap, arith, ok_of_>>=, Bool-cases,
}
use coroutine.IoManager.{Events, Op, IoManager, cancel_event}
use coroutine.Hook.{Outcome, failed, etimedout, no_timeout, World, Caller}
use coroutine.Hook.Io.{
  Call, Phase, trying, parked, finished, not_added, cancel_timer, resume_io, on_timeout,
}
use coroutine.Hook.Course.{
  Wait, is_alive, IsAnswer, IsRefused, IsTimed, Step, calls, wakes, fires, others, Reach, begin,
  later, attempt_answers, attempt_refused,
}

module _ {K M S : Type 0} (ctl : K → Op → (fd : ℕ) → Events → K × Bool) (fun : S → S × Outcome)
    (call : Call) (me : Caller) where
  record IsSettled (s : Wait K M S) : Type 0 where
    noted : (s.cancelled ≡ 0) ⊎ IsTimed call s.cancelled
    ending :
        (n : Outcome)
        → s.phase ≡ finished n
        → (IsTimed call s.cancelled × (n ≡ failed etimedout)) ⊎ IsAnswer s.outcomes n
    refused : s.phase ≡ not_added → IsRefused ctl call me s.outcomes

  wakes-IsSettled :
      (s : Wait K M S) (timer : Option ℕ) (w : World K M S) (phase : Phase)
      → resume_io s.world s.cancelled timer ≡ ok (w, phase)
      → IsSettled s
      → IsSettled (record s { world = w; phase = phase })
  unfolding resume_io
  wakes-IsSettled s timer w phase e v =
      let (timers, h, e1) = ok_of_>>= (cancel_timer s.world.io.timers timer) _ (w, phase) e in
      record {
        noted = v.noted;
        ending = λ n at. elim v.noted [
          | inl none_noted ↦ absurd (ground arith)
          | inr timed ↦ inl (timed, ground arith)
        ];
        refused = λ at. absurd (ground arith);
      }

  on_timeout_notes :
      (w w' : World K M S) (alive : Bool) (cancelled cancelled' : ℕ)
      → on_timeout ctl w call alive cancelled ≡ ok (w', cancelled')
      → (cancelled' ≡ cancelled) ⊎ ((alive ≡ true) × (cancelled' ≡ etimedout))
  unfolding on_timeout
  on_timeout_notes w w' alive cancelled cancelled' e =
      elim (Bool-cases (not alive || not (cancelled == 0))) [
        | inl idle ↦ inl (ground arith)
        | inr first ↦
            let note : IoManager K × Bool → Result (World K M S × ℕ) =
              (λ done. ok (record w { io = done.0 }, etimedout)) in
            let noted : (cancel_event ctl w.io call.fd call.event >>= note) ≡ ok (w', cancelled') =
              ground arith in
            let (done, h, e1) =
              ok_of_>>= (cancel_event ctl w.io call.fd call.event) note (w', cancelled') noted in
            inr (ground arith, ground arith)
      ]

  fires-IsSettled :
      (s : Wait K M S) (w : World K M S) (cancelled : ℕ)
      → (call.to == no_timeout) ≡ false
      → on_timeout ctl s.world call (is_alive s.phase) s.cancelled ≡ ok (w, cancelled)
      → IsSettled s
      → IsSettled (record s { world = w; cancelled = cancelled })
  fires-IsSettled s w cancelled timed e v =
      elim (on_timeout_notes s.world w (is_alive s.phase) s.cancelled cancelled e) [
        | inl same ↦ record {
          noted = rw same v.noted;
          ending = λ n at. rw same (v.ending n at);
          refused = v.refused;
        }
        | inr (alive, noted) ↦ record {
          noted = inr (timed, noted);
          ending = λ n at. absurd (ground arith);
          refused = v.refused;
        }
      ]

  Step-IsSettled : {s t : Wait K M S} → Step ctl fun call me s t → IsSettled s → IsSettled t
  Step-IsSettled {s} (calls fuel addr now wrote {w} {phase} at e) v = record {
    noted = v.noted;
    ending = λ n end. inr (
        attempt_answers ctl fun call me fuel s.world w addr now wrote n s.outcomes
          (rw (sym end) e));
    refused = λ end.
        attempt_refused ctl fun call me fuel s.world w addr now wrote s.outcomes (rw (sym end) e);
  }
  Step-IsSettled {s} (wakes timer {w} {phase} at e) v = wakes-IsSettled s timer w phase e v
  Step-IsSettled {s} (fires {w} {cancelled} timed e) v = fires-IsSettled s w cancelled timed e v
  Step-IsSettled {s} (others w) v = record {
    noted = v.noted;
    ending = v.ending;
    refused = v.refused;
  }

  Reach-IsSettled : {w : World K M S} {s : Wait K M S} → Reach ctl fun call me w s → IsSettled s
  Reach-IsSettled begin = record {
    noted = inl refl;
    ending = λ n at. ground arith;
    refused = λ at. absurd (ground arith);
  }
  Reach-IsSettled (later r step) = Step-IsSettled step (Reach-IsSettled r)

  -- A timeout, an answer, or a refusal.
  abbrev pub IsEnding : Wait K M S → Type 0
  IsEnding s =
      (((call.to == no_timeout) ≡ false) × (s.phase ≡ finished (failed etimedout)))
      ⊎ ((n : Outcome) × (s.phase ≡ finished n) × IsAnswer s.outcomes n)
      ⊎ ((s.phase ≡ not_added) × IsRefused ctl call me s.outcomes)

  phase-IsEnding :
      (s : Wait K M S) (phase : Phase)
      → s.phase ≡ phase
      → is_alive phase ≡ false
      → IsSettled s
      → IsEnding s
  phase-IsEnding s trying at over v = absurd (ground arith)
  phase-IsEnding s (parked timer) at over v = absurd (ground arith)
  phase-IsEnding s (finished n) at over v = elim (v.ending n at) [
    | inl (timed, e) ↦ inl (timed.0, rw at (ap finished e))
    | inr answer ↦ inr (inl (n, at, answer))
  ]
  phase-IsEnding s not_added at over v = inr (inr (at, v.refused at))

  -- Whatever the system, the timers and the rest of the process do, a call of do_io that has left its loop
  -- has done so in one of three ways. It fails with ETIMEDOUT, and that only if it has a timeout. Or
  -- it returns what the function returned the last time that this call called it, which is neither
  -- EINTR nor EAGAIN. Or the function had nothing ready the last time, and the call returns -1 since
  -- addEvent refused its event.
  pub Reach-IsEnding :
      {w : World K M S} {s : Wait K M S}
      → Reach ctl fun call me w s
      → is_alive s.phase ≡ false
      → IsEnding s
  Reach-IsEnding {s = s} r over = phase-IsEnding s s.phase refl over (Reach-IsSettled r)
