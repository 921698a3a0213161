-- ===== src/Collectives/AllreduceRing/Tests.antt =====
-- A whole run of AllreduceRing.hpp on two ranks, and the theorems at its states.
use gaspi_cxx.Common.{ℕ, ◌+◌, ◌*◌, ◌<◌, ◌≡◌, ◌⊎◌, refl, true, false, ok, arith}
use gaspi_cxx.Common.Families.{update}
use gaspi_cxx.Group.Ring.{
  increment_index_on_ring, increment_rank_on_ring, decrement_index_on_ring, decrement_rank_on_ring,
  ring_index, decrement,
}
use gaspi_cxx.Group.Ring.Laws.{left, right}
use gaspi_cxx.Collectives.LowLevel.{State, start, trigger_progress, copy_out}
use gaspi_cxx.Collectives.AllreduceRing.{
  construct, start_impl, trigger_progress_impl, is_last_step, is_last_step_reduce,
  is_last_step_gather, algorithm_get_current_stage, reduce_round, gather_round, final_round,
  chunk_implementation,
}
use gaspi_cxx.Collectives.AllreduceRing.Hops.{total}
use gaspi_cxx.Collectives.AllreduceRing.Network.{
  Net, at_rank, ready, notify_reduce, notify_gather, Reach, here, next, starts, progresses,
  reduce_completes, gather_completes, ack_completes,
}
use gaspi_cxx.Collectives.AllreduceRing.Results.{copy_out-total, finished_quiet}
use gaspi_cxx.Collectives.AllreduceRing.Progress.{Active}
use gaspi_cxx.Collectives.AllreduceRing.Deadlock.{no_deadlock}

-- Rank `r` has the chunks 10 r + 1 and 10 r + 2.
abbrev input : ℕ → ℕ → ℕ
input r i = 10 * r + i + 1

abbrev garbage : ℕ → ℕ → ℕ
garbage r i = 99

abbrev plus : ℕ → ℕ → ℕ
plus a b = a + b

module _ {A : Type 0} where
  abbrev pub started : Net A → ℕ → Net A
  started w r =
      update w r (record { state = State.running; algorithm = start_impl (w r).algorithm })

  abbrev pub progressed : (A → A → A) → Net A → ℕ → Net A
  progressed op w r = update w r (trigger_progress (chunk_implementation op) true (w r)).0

  abbrev pub reduce_delivered : Net A → ℕ → ℕ → Net A
  reduce_delivered w r i =
      at_rank (at_rank w r (λ x. record x { reduce_posted = update x.reduce_posted i false }))
        (increment_rank_on_ring r 2) (notify_reduce i ((w r).algorithm.sources i))

  abbrev pub gather_delivered : Net A → ℕ → ℕ → Net A
  gather_delivered w r i =
      at_rank (at_rank w r (λ x. record x { gather_posted = update x.gather_posted i false }))
        (increment_rank_on_ring r 2) (notify_gather i ((w r).algorithm.sources i))

  abbrev pub ack_delivered : Net A → ℕ → ℕ → Net A
  ack_delivered w r i =
      at_rank (at_rank w r (λ x. record x { ack_posted = update x.ack_posted i false }))
        (decrement_rank_on_ring r 2) (λ x. record x { gather_acked = update x.gather_acked i true })

abbrev begun : Net ℕ
begun = started (started (ready 2 2 0 input garbage) 0) 1

abbrev after_reduce : Net ℕ
after_reduce =
    progressed plus (progressed plus (reduce_delivered (reduce_delivered begun 0 0) 1 1) 0) 1

abbrev after_gather : Net ℕ
after_gather =
    progressed plus (progressed plus (gather_delivered (gather_delivered after_reduce 0 1) 1 0) 0) 1

abbrev done : Net ℕ
done = progressed plus (progressed plus (ack_delivered (ack_delivered after_gather 0 0) 1 1) 0) 1

begun-Reach : Reach plus 2 (ready 2 2 0 input garbage) begun
unfolding start chunk_implementation ready construct start_impl
begun-Reach = next (next here (starts 0 (omega arith) refl)) (starts 1 (omega arith) refl)

after_reduce-Reach : Reach plus 2 (ready 2 2 0 input garbage) after_reduce
unfolding trigger_progress chunk_implementation ready construct start_impl trigger_progress_impl
    is_last_step is_last_step_reduce is_last_step_gather algorithm_get_current_stage reduce_round
    gather_round final_round ring_index decrement decrement_index_on_ring increment_index_on_ring
    increment_rank_on_ring decrement_rank_on_ring
after_reduce-Reach =
    next
      (next
        (next (next begun-Reach (reduce_completes 0 0 (omega arith) (omega arith) refl))
          (reduce_completes 1 1 (omega arith) (omega arith) refl))
        (progresses 0 (omega arith)))
      (progresses 1 (omega arith))

after_gather-Reach : Reach plus 2 (ready 2 2 0 input garbage) after_gather
unfolding trigger_progress chunk_implementation ready construct start_impl trigger_progress_impl
    is_last_step is_last_step_reduce is_last_step_gather algorithm_get_current_stage reduce_round
    gather_round final_round ring_index decrement decrement_index_on_ring increment_index_on_ring
    increment_rank_on_ring decrement_rank_on_ring
after_gather-Reach =
    next
      (next
        (next (next after_reduce-Reach (gather_completes 0 1 (omega arith) (omega arith) refl))
          (gather_completes 1 0 (omega arith) (omega arith) refl))
        (progresses 0 (omega arith)))
      (progresses 1 (omega arith))

done-Reach : Reach plus 2 (ready 2 2 0 input garbage) done
unfolding trigger_progress chunk_implementation ready construct start_impl trigger_progress_impl
    is_last_step is_last_step_reduce is_last_step_gather algorithm_get_current_stage reduce_round
    gather_round final_round ring_index decrement decrement_index_on_ring increment_index_on_ring
    increment_rank_on_ring decrement_rank_on_ring
done-Reach =
    next
      (next
        (next (next after_gather-Reach (ack_completes 0 0 (omega arith) (omega arith) refl))
          (ack_completes 1 1 (omega arith) (omega arith) refl))
        (progresses 0 (omega arith)))
      (progresses 1 (omega arith))

done_run : (done 0).state ≡ State.finished
unfolding trigger_progress chunk_implementation ready construct start_impl trigger_progress_impl
    is_last_step is_last_step_reduce is_last_step_gather algorithm_get_current_stage reduce_round
    gather_round final_round ring_index decrement decrement_index_on_ring increment_index_on_ring
    increment_rank_on_ring decrement_rank_on_ring
done_run = refl

done_value : (done 0).algorithm.sources 1 ≡ 14
unfolding trigger_progress chunk_implementation ready construct start_impl trigger_progress_impl
    is_last_step is_last_step_reduce is_last_step_gather algorithm_get_current_stage reduce_round
    gather_round final_round ring_index decrement decrement_index_on_ring increment_index_on_ring
    increment_rank_on_ring decrement_rank_on_ring
done_value = refl

copy_out_run :
    copy_out (chunk_implementation plus) (done 0)
    ≡ ok (
      (done 0).algorithm.sources,
      record { state = State.initialized; algorithm = (done 0).algorithm },
    )
unfolding trigger_progress chunk_implementation ready construct start_impl trigger_progress_impl
    is_last_step is_last_step_reduce is_last_step_gather algorithm_get_current_stage reduce_round
    gather_round final_round ring_index decrement decrement_index_on_ring increment_index_on_ring
    increment_rank_on_ring decrement_rank_on_ring copy_out
copy_out_run = refl

copy_out-total_example : (done 0).algorithm.sources 1 ≡ total 2 plus input 1
copy_out-total_example =
    copy_out-total plus input 0 garbage 2 2 (omega arith) (omega arith) (omega arith) done 0 1
      (done 0).algorithm.sources
      (record { state = State.initialized; algorithm = (done 0).algorithm }) done-Reach
      (omega arith) (omega arith) copy_out_run

finished_quiet_example :
    ((done (right 2 0)).algorithm.current_step + 2 ≡ 2 + 2)
    × ((done 0).algorithm.reduce_posted 1 ≡ false)
    × ((done 0).algorithm.gather_posted 1 ≡ false)
    × ((done (right 2 0)).algorithm.reduce_arrived 1 ≡ false)
    × ((done (right 2 0)).algorithm.gather_arrived 1 ≡ false)
    × ((done (right 2 0)).algorithm.ack_posted 1 ≡ false)
    × ((done 0).algorithm.gather_acked 1 ≡ false)
    × ((done (left 2 0)).algorithm.reduce_posted 1 ≡ false)
    × ((done (left 2 0)).algorithm.gather_posted 1 ≡ false)
    × ((done 0).algorithm.reduce_arrived 1 ≡ false)
    × ((done 0).algorithm.gather_arrived 1 ≡ false)
finished_quiet_example =
    finished_quiet plus input 0 garbage 2 2 (omega arith) (omega arith) (omega arith) done 0 1
      done-Reach (omega arith) (omega arith) done_run

no_deadlock_example :
    ((r : ℕ) → r < 2 → (after_reduce r).state ≡ State.finished)
    ⊎ ((r : ℕ) × (r < 2) × Active plus 2 after_reduce r)
no_deadlock_example =
    no_deadlock plus input 0 garbage 2 2 (omega arith) (omega arith) (omega arith) after_reduce
      after_reduce-Reach
