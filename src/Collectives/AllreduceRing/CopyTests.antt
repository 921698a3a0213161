-- ===== src/Collectives/AllreduceRing/CopyTests.antt =====
-- The copies of AllreduceRing.hpp on five elements, and a whole run on three elements of two ranks.
use gaspi_cxx.Common.{ℕ, ◌+◌, ◌≡◌, refl, ok, arith, List, [], ◌∷◌, zero, suc, length}
use gaspi_cxx.Group.Ring.{
  increment_index_on_ring, increment_rank_on_ring, decrement_index_on_ring, decrement_rank_on_ring,
  ring_index, decrement,
}
use gaspi_cxx.Collectives.LowLevel.{State, start, trigger_progress, copy_in, copy_out}
use gaspi_cxx.Collectives.AllreduceRing.{
  Ring, construct, start_impl, trigger_progress_impl, is_last_step, is_last_step_reduce,
  is_last_step_gather, algorithm_get_current_stage, reduce_round, gather_round, final_round,
  chunk_implementation,
}
use gaspi_cxx.Collectives.AllreduceRing.Network.{
  Net, Reach, here, next, starts, progresses, reduce_completes, gather_completes, ack_completes,
}
use gaspi_cxx.Collectives.AllreduceRing.Copies.{
  implementation, elementwise, copy_in_impl, copy_in_from, copy_out_from, copy_out_impl,
  copy_out_impl-copy_in_impl, ceil_div,
}
use gaspi_cxx.Collectives.AllreduceRing.Tests.{
  started, progressed, reduce_delivered, gather_delivered, ack_delivered,
}
use gaspi_cxx.Collectives.AllreduceRing.Order.{reduce_all}
use gaspi_cxx.Collectives.AllreduceRing.EndToEnd.{all_reduce}

abbrev five : List ℕ
five = 1 ∷ 2 ∷ 3 ∷ 4 ∷ 5 ∷ []

abbrev buffers : Ring (List ℕ)
buffers = construct 5 3 0 [] (λ i. 0 ∷ 0 ∷ []) (λ i. [])

copy_in_run : (copy_in_impl five buffers).sources 2 ≡ 5 ∷ 0 ∷ []
unfolding copy_in_impl copy_in_from ceil_div construct
copy_in_run = refl

copy_out_impl-copy_in_impl_example : copy_out_impl (copy_in_impl five buffers) ≡ five
unfolding construct
copy_out_impl-copy_in_impl_example = copy_out_impl-copy_in_impl buffers five (omega arith) refl

abbrev plus : ℕ → ℕ → ℕ
plus x y = x + y

abbrev inputs : ℕ → List ℕ
inputs zero = 1 ∷ 2 ∷ 3 ∷ []
inputs (suc r) = 10 ∷ 20 ∷ 30 ∷ []

abbrev garbage : ℕ → ℕ → List ℕ
garbage r i = 7 ∷ 7 ∷ []

abbrev garbage_targets : ℕ → List ℕ
garbage_targets i = 8 ∷ 8 ∷ []

abbrev loaded : Net (List ℕ)
loaded r = record {
  state = State.ready;
  algorithm = copy_in_impl (inputs r) (construct 3 2 r [] (garbage r) garbage_targets);
}

abbrev begun : Net (List ℕ)
begun = started (started loaded 0) 1

abbrev after_reduce : Net (List ℕ)
after_reduce =
    progressed (elementwise plus)
      (progressed (elementwise plus) (reduce_delivered (reduce_delivered begun 0 0) 1 1) 0) 1

abbrev after_gather : Net (List ℕ)
after_gather =
    progressed (elementwise plus)
      (progressed (elementwise plus) (gather_delivered (gather_delivered after_reduce 0 1) 1 0) 0) 1

abbrev done : Net (List ℕ)
done =
    progressed (elementwise plus)
      (progressed (elementwise plus) (ack_delivered (ack_delivered after_gather 0 0) 1 1) 0) 1

begun-Reach : Reach (elementwise plus) 2 loaded begun
unfolding start chunk_implementation construct start_impl copy_in_impl copy_in_from ceil_div
begun-Reach = next (next here (starts 0 (omega arith) refl)) (starts 1 (omega arith) refl)

after_reduce-Reach : Reach (elementwise plus) 2 loaded after_reduce
unfolding trigger_progress chunk_implementation construct start_impl trigger_progress_impl
    is_last_step is_last_step_reduce is_last_step_gather algorithm_get_current_stage reduce_round
    gather_round final_round ring_index decrement decrement_index_on_ring increment_index_on_ring
    increment_rank_on_ring decrement_rank_on_ring elementwise copy_in_impl copy_in_from ceil_div
after_reduce-Reach =
    next
      (next
        (next (next begun-Reach (reduce_completes 0 0 (omega arith) (omega arith) refl))
          (reduce_completes 1 1 (omega arith) (omega arith) refl))
        (progresses 0 (omega arith)))
      (progresses 1 (omega arith))

after_gather-Reach : Reach (elementwise plus) 2 loaded after_gather
unfolding trigger_progress chunk_implementation construct start_impl trigger_progress_impl
    is_last_step is_last_step_reduce is_last_step_gather algorithm_get_current_stage reduce_round
    gather_round final_round ring_index decrement decrement_index_on_ring increment_index_on_ring
    increment_rank_on_ring decrement_rank_on_ring elementwise copy_in_impl copy_in_from ceil_div
after_gather-Reach =
    next
      (next
        (next (next after_reduce-Reach (gather_completes 0 1 (omega arith) (omega arith) refl))
          (gather_completes 1 0 (omega arith) (omega arith) refl))
        (progresses 0 (omega arith)))
      (progresses 1 (omega arith))

done-Reach : Reach (elementwise plus) 2 loaded done
unfolding trigger_progress chunk_implementation construct start_impl trigger_progress_impl
    is_last_step is_last_step_reduce is_last_step_gather algorithm_get_current_stage reduce_round
    gather_round final_round ring_index decrement decrement_index_on_ring increment_index_on_ring
    increment_rank_on_ring decrement_rank_on_ring elementwise copy_in_impl copy_in_from ceil_div
done-Reach =
    next
      (next
        (next (next after_gather-Reach (ack_completes 0 0 (omega arith) (omega arith) refl))
          (ack_completes 1 1 (omega arith) (omega arith) refl))
        (progresses 0 (omega arith)))
      (progresses 1 (omega arith))

done_run : (done 0).state ≡ State.finished
unfolding trigger_progress chunk_implementation construct start_impl trigger_progress_impl
    is_last_step is_last_step_reduce is_last_step_gather algorithm_get_current_stage reduce_round
    gather_round final_round ring_index decrement decrement_index_on_ring increment_index_on_ring
    increment_rank_on_ring decrement_rank_on_ring elementwise copy_in_impl copy_in_from ceil_div
done_run = refl

copy_out_run :
    copy_out (implementation plus) (done 0)
    ≡ ok (11 ∷ 22 ∷ 33 ∷ [], record { state = State.initialized; algorithm = (done 0).algorithm })
unfolding trigger_progress chunk_implementation construct start_impl trigger_progress_impl
    is_last_step is_last_step_reduce is_last_step_gather algorithm_get_current_stage reduce_round
    gather_round final_round ring_index decrement decrement_index_on_ring increment_index_on_ring
    increment_rank_on_ring decrement_rank_on_ring copy_out copy_out_impl copy_out_from
    implementation elementwise copy_in_impl copy_in_from ceil_div
copy_out_run = refl

loaded_run :
    (r : ℕ)
    → copy_in (implementation plus) (inputs r) (record {
      state = State.initialized;
      algorithm = construct 3 2 r [] (garbage r) garbage_targets;
    })
      ≡ ok (loaded r)
unfolding copy_in implementation construct
loaded_run r = refl

inputs_size : (r : ℕ) → length (inputs r) ≡ 3
inputs_size zero = refl
inputs_size (suc r) = refl

garbage_size : (r i : ℕ) → length (garbage r i) ≡ ceil_div 3 2
unfolding ceil_div
garbage_size r i = refl

all_reduce_example : 11 ∷ 22 ∷ 33 ∷ [] ≡ reduce_all (elementwise plus) inputs 2
all_reduce_example =
    all_reduce plus 3 2 (omega arith) [] inputs garbage (λ r. garbage_targets) inputs_size loaded
      done 0 (11 ∷ 22 ∷ 33 ∷ [])
      (record { state = State.initialized; algorithm = (done 0).algorithm }) (omega arith)
      (omega arith) (λ x y z. omega arith) (λ x y. omega arith) garbage_size loaded_run done-Reach
      (omega arith) copy_out_run
