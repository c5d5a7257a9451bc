-- ===== src/Hook/Interrupts.antt =====
-- The loop on EINTR of do_io, duan_src/hook.cc.
use coroutine.Prelude.{ℕ, zero, suc, ◌<◌, ◌≡◌, true, false, some, arith, Bool-cases, inl, inr}
use coroutine.Hook.{Outcome, eintr, fails_with}
use coroutine.Hook.Io.{call_through}

module _ {S : Type 0} (fun : S → S × Outcome) where
  -- The system behind `k` calls of the function.
  abbrev pub after : ℕ → S → S
  after zero s = s
  after (suc k) s = after k (fun s).0

  -- A signal interrupts the first `k` calls, and not the next one.
  pub record IsInterrupted (k : ℕ) (s : S) : Type 0 where
    pub interrupts : (i : ℕ) → i < k → fails_with eintr (fun (after i s)).1 ≡ true
    pub ends : fails_with eintr (fun (after k s)).1 ≡ false

  later-IsInterrupted : (k : ℕ) (s : S) → IsInterrupted (suc k) s → IsInterrupted k (fun s).0
  later-IsInterrupted k s v = record {
    interrupts = λ i h. v.interrupts (suc i) (omega arith);
    ends = v.ends;
  }

  -- A call that is interrupted `k` times is made `k + 1` times: with any fuel above `k` the loop ends
  -- with what the call after the interruptions leaves and returns, which is not EINTR.
  pub call_through_lem :
      (k fuel : ℕ) (s : S)
      → IsInterrupted k s
      → k < fuel
      → (call_through fun fuel s ≡ some (fun (after k s)))
        × (fails_with eintr (fun (after k s)).1 ≡ false)
  unfolding call_through
  call_through_lem k zero s v h = absurd (omega arith)
  call_through_lem zero (suc fuel) s v h = (ground (arith, v.ends), v.ends)
  call_through_lem (suc k) (suc fuel) s v h =
      let (run, ended) =
        call_through_lem k fuel (fun s).0 (later-IsInterrupted k s v) (omega arith) in
      (ground (arith, v.interrupts 0 (omega arith), run), ended)

  -- What the loop returns is what a call returned, and not EINTR.
  call_through_ends :
      (fuel : ℕ) (s : S) (r : S × Outcome)
      → call_through fun fuel s ≡ some r
      → (fails_with eintr r.1 ≡ false) × ((s' : S) × (fun s' ≡ r))
  unfolding call_through
  call_through_ends zero s r h = absurd (ground arith)
  call_through_ends (suc fuel) s r h = elim (Bool-cases (fails_with eintr (fun s).1)) [
    | inl e ↦ call_through_ends fuel (fun s).0 r (ground arith)
    | inr e ↦ (ground arith, (s, ground arith))
  ]
