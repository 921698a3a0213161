-- ===== src/Collectives/LowLevel.antt =====
-- src/collectives/non_blocking/collectives_lowlevel/CollectiveLowLevel.cpp: the life cycle that all
-- non-blocking collectives share. The virtual methods `waitForSetupImpl`, `copyInImpl`, `startImpl`,
-- `triggerProgressImpl` and `copyOutImpl` are a record of functions on the state of the algorithm.
-- `copyIn`, `start`, `copyOut` and `waitForSetup` hold the mutex throughout; `triggerProgress` does
-- nothing when another thread holds it.
pub mod Protocol
use gaspi_cxx.Common.{
  ℕ, zero, suc, Bool, true, false, not, ◌&&◌, Result, ok, err, logic_error, if◌then◌else◌, Option,
  none, some,
}

-- `enum class State`
pub data State : Type 0 where
  uninitialized initialized ready running finished : State

abbrev pub same : State → State → Bool
same State.uninitialized State.uninitialized = true
same State.initialized State.initialized = true
same State.ready State.ready = true
same State.running State.running = true
same State.finished State.finished = true
same _ _ = false

-- What a derived class implements: `S` is its own state, `I` and `O` are what `copyIn` reads and
-- `copyOut` writes.
pub record Impl (S I O : Type 0) : Type 0 where
  pub wait_for_setup_impl : S → S
  pub copy_in_impl : I → S → S
  pub start_impl : S → S
  pub trigger_progress_impl : S → S × Bool
  pub copy_out_impl : S → S × O

pub record Collective (S : Type 0) : Type 0 where
  pub state : State
  pub algorithm : S

module _ {S I O : Type 0} (impl : Impl S I O) where
  open impl use {
    wait_for_setup_impl, copy_in_impl, start_impl, trigger_progress_impl, copy_out_impl,
  }

  pub construct : S → Collective S
  construct s = record { state = State.uninitialized; algorithm = s }

  pub wait_for_setup : Collective S → Result (Collective S)
  wait_for_setup c =
      if not (same c.state State.uninitialized)
      then err logic_error
      else ok (record { state = State.initialized; algorithm = wait_for_setup_impl c.algorithm })

  unfoldable pub copy_in : I → Collective S → Result (Collective S)
  copy_in inputs c =
      if not (same c.state State.initialized)
      then err logic_error
      else ok (record { state = State.ready; algorithm = copy_in_impl inputs c.algorithm })

  unfoldable pub start : Collective S → Result (Collective S)
  start c =
      if not (same c.state State.ready)
      then err logic_error
      else ok (record { state = State.running; algorithm = start_impl c.algorithm })

  abbrev progressed : S × Bool → Collective S × Bool
  progressed (s, true) = (record { state = State.finished; algorithm = s }, true)
  progressed (s, false) = (record { state = State.running; algorithm = s }, false)

  -- The first argument says whether `try_lock` succeeds.
  unfoldable pub trigger_progress : Bool → Collective S → Collective S × Bool
  trigger_progress locked c =
      if locked && same c.state State.running
      then progressed (trigger_progress_impl c.algorithm)
      else (c, false)

  unfoldable pub copy_out : Collective S → Result (O × Collective S)
  copy_out c =
      let (s, outputs) = copy_out_impl c.algorithm in
      if not (same c.state State.finished)
      then err logic_error
      else ok (outputs, record { state = State.initialized; algorithm = s })

  pub check_for_completion : Collective S → Bool
  check_for_completion c = same c.state State.finished

  -- `waitForCompletion`, with fuel for the rounds of its loop, in each of which the lock is free.
  -- `none`: the fuel ran out.
  pub wait_for_completion : ℕ → Collective S → Option (Collective S × Bool)
  unfolding trigger_progress
  wait_for_completion zero c = none
  wait_for_completion (suc fuel) c =
      let (c', done) = trigger_progress true c in
      let rest = wait_for_completion fuel c' in
      if same c.state State.running then if done then some (c', true) else rest else some (c, false)
