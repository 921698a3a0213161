-- ===== src/Collectives/LowLevel/Protocol.antt =====
-- The life cycle of a collective as an automaton, and who is told of its completion.
use gaspi_cxx.Common.{
  ℕ, zero, suc, ◌+◌, ◌≡◌, ◌⊎◌, inr, refl, Bool, true, false, ok, arith, List, [], ◌∷◌, some,
  if◌then◌else◌,
}
use gaspi_cxx.Collectives.LowLevel.{
  State, Impl, Collective, copy_in, start, trigger_progress, copy_out, wait_for_completion,
}

-- Calls of `triggerProgress` by any threads in any order; each says whether its `try_lock` succeeds.
-- The collective afterwards, and how many of the calls returned true.
pub trigger_all : {S I O : Type 0} → Impl S I O → List Bool → Collective S → Collective S × ℕ
trigger_all impl [] c = (c, 0)
trigger_all impl (l ∷ ls) c =
    let (c', done) = trigger_progress impl l c in
    let (d, n) = trigger_all impl ls c' in (d, if done then n + 1 else n)

-- `FinishesIn impl s n t`: from the algorithm state `s`, `n` rounds return false and the next one
-- returns true and leaves `t`. Nothing but these rounds changes the state in between.
pub data FinishesIn {S I O : Type 0} (impl : Impl S I O) : S → ℕ → S → Type 0 where
  last : {s t : S} → impl.trigger_progress_impl s ≡ (t, true) → FinishesIn impl s zero t
  later :
      {s s' t : S} {n : ℕ}
      → impl.trigger_progress_impl s ≡ (s', false)
      → FinishesIn impl s' n t
      → FinishesIn impl s (suc n) t

module _ {S I O : Type 0} (impl : Impl S I O) where
  quiet_after :
      (ls : List Bool) (c : Collective S)
      → c.state ≡ State.finished
      → trigger_all impl ls c ≡ (c, 0)
  unfolding trigger_all trigger_progress
  quiet_after [] c e = refl
  quiet_after (l ∷ ls) c e = ground (arith, quiet_after ls c e)

  -- However many threads call `triggerProgress` on a running collective, and whichever of them find
  -- the mutex taken, at most one call returns true: one if the collective is FINISHED afterwards, and
  -- none if it is still RUNNING, which are the only two outcomes.
  pub one_completer :
      (ls : List Bool) (c : Collective S)
      → c.state ≡ State.running
      → let (d, n) = trigger_all impl ls c in
        ((d.state ≡ State.finished) × (n ≡ 1)) ⊎ ((d.state ≡ State.running) × (n ≡ 0))
  unfolding trigger_all trigger_progress
  one_completer [] c e = inr (e, refl)
  one_completer (l ∷ ls) c e =
      let s' = (impl.trigger_progress_impl c.algorithm).0 in
      ground (
        arith,
        one_completer ls c e,
        one_completer ls (record { state = State.running; algorithm = s' }),
        quiet_after ls (record { state = State.finished; algorithm = s' }),
      )

  -- If the algorithm finishes after `n` rounds that return false, `waitForCompletion` on the running
  -- collective returns true in its next round and leaves it FINISHED with the algorithm's final state.
  pub wait_for_completion_lem :
      (s t : S) (n : ℕ)
      → FinishesIn impl s n t
      → wait_for_completion impl (suc n) (record { state = State.running; algorithm = s })
        ≡ some (record { state = State.finished; algorithm = t }, true)
  unfolding wait_for_completion trigger_progress
  wait_for_completion_lem s t n (last e) = rw e
  wait_for_completion_lem s t n (later {s' = s'} {n = k} e f) =
      rw e (wait_for_completion_lem s' t k f)

  -- From INITIALIZED, if the algorithm started on the copied inputs finishes after `n` rounds, with
  -- nothing but these rounds changing its state in between (no transfer arrives, and no other thread
  -- calls), then `copyIn`, `start`, `waitForCompletion` and `copyOut` in a row succeed, deliver what the
  -- algorithm's final state holds, and leave the collective INITIALIZED, ready for another round.
  pub round :
      (s t : S) (inputs : I) (n : ℕ)
      → FinishesIn impl (impl.start_impl (impl.copy_in_impl inputs s)) n t
      → (c d e : Collective S) × (copy_in impl inputs
            (record { state = State.initialized; algorithm = s })
          ≡ ok c)
        × (start impl c ≡ ok d)
        × (wait_for_completion impl (suc n) d ≡ some (e, true))
        × (copy_out impl e
            ≡ ok (
              (impl.copy_out_impl t).1,
              record { state = State.initialized; algorithm = (impl.copy_out_impl t).0 },
            ))
  unfolding copy_in start copy_out
  round s t inputs n f = (
    record { state = State.ready; algorithm = impl.copy_in_impl inputs s },
    record { state = State.running; algorithm = impl.start_impl (impl.copy_in_impl inputs s) },
    record { state = State.finished; algorithm = t },
    refl,
    refl,
    wait_for_completion_lem _ t n f,
    refl,
  )
