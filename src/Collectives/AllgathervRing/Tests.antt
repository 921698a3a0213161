-- ===== src/Collectives/AllgathervRing/Tests.antt =====
-- A whole run of AllgathervRing.hpp on two ranks, with one and two elements.
use gaspi_cxx.Common.{
  ℕ, zero, suc, ◌+◌, ◌-◌, ◌^◌, ◌≡◌, refl, List, [], ◌∷◌, length, true, false, ok, arith,
}
use gaspi_cxx.Common.Families.{update}
use gaspi_cxx.Group.Ring.{
  increment_index_on_ring, increment_rank_on_ring, decrement_index_on_ring, decrement_rank_on_ring,
}
use gaspi_cxx.Collectives.LowLevel.{State, start, trigger_progress, copy_in, copy_out}
use gaspi_cxx.Collectives.AllgathervRing.{
  construct, implementation, copy_in_impl, copy_out_impl, start_impl, trigger_progress_impl,
  final_round, next_round, accumulate, offset,
}
use gaspi_cxx.Collectives.AllgathervRing.Network.{
  Net, at_rank, put_notify, Reach, here, next, starts, progresses, completes, ack_completes,
}
use gaspi_cxx.Collectives.AllgathervRing.EndToEnd.{all_gather}

abbrev counts : ℕ → ℕ
counts zero = 1
counts (suc k) = 2

abbrev inputs : ℕ → List ℕ
inputs zero = 11 ∷ []
inputs (suc k) = 21 ∷ 22 ∷ []

abbrev garbage : ℕ → ℕ → List ℕ
garbage r i = []

abbrev loaded : Net ℕ
loaded r = record {
  state = State.ready;
  algorithm = copy_in_impl (inputs r) (construct counts 2 r [] (garbage r));
}

abbrev started : Net ℕ → ℕ → Net ℕ
started w r = update w r (record { state = State.running; algorithm = start_impl (w r).algorithm })

abbrev progressed : Net ℕ → ℕ → Net ℕ
progressed w r = update w r (trigger_progress implementation true (w r)).0

abbrev delivered : Net ℕ → ℕ → ℕ → Net ℕ
delivered w r i =
    at_rank (at_rank w r (λ g. record g { posted = update g.posted i false }))
      (increment_rank_on_ring r 2) (put_notify i ((w r).algorithm.buffers i))

abbrev ack_delivered : Net ℕ → ℕ → ℕ → Net ℕ
ack_delivered w r i =
    at_rank (at_rank w r (λ g. record g { ack_posted = update g.ack_posted i false }))
      (decrement_rank_on_ring r 2) (λ g. record g { acked = update g.acked i true })

abbrev begun : Net ℕ
begun = started (started loaded 0) 1

abbrev gathered : Net ℕ
gathered = progressed (progressed (delivered (delivered begun 0 0) 1 0) 0) 1

abbrev done : Net ℕ
done = progressed (progressed (ack_delivered (ack_delivered gathered 0 0) 1 0) 0) 1

begun-Reach : Reach 2 loaded begun
unfolding start construct start_impl copy_in_impl
begun-Reach = next (next here (starts 0 (omega arith) refl)) (starts 1 (omega arith) refl)

gathered-Reach : Reach 2 loaded gathered
unfolding start construct start_impl copy_in_impl increment_rank_on_ring increment_index_on_ring
gathered-Reach =
    next
      (next
        (next (next begun-Reach (completes 0 0 (omega arith) refl))
          (completes 1 0 (omega arith) refl))
        (progresses 0 (omega arith)))
      (progresses 1 (omega arith))

done-Reach : Reach 2 loaded done
unfolding start construct start_impl copy_in_impl increment_rank_on_ring increment_index_on_ring
    decrement_rank_on_ring decrement_index_on_ring trigger_progress trigger_progress_impl
    final_round next_round
done-Reach =
    next
      (next
        (next (next gathered-Reach (ack_completes 0 0 (omega arith) refl))
          (ack_completes 1 0 (omega arith) refl))
        (progresses 0 (omega arith)))
      (progresses 1 (omega arith))

abbrev copied : (ℕ → ℕ) → ℕ → ℕ
copied = copy_out_impl (done 0).algorithm

copy_out_run :
    copy_out implementation (done 0)
    ≡ ok (copied, record { state = State.initialized; algorithm = (done 0).algorithm })
unfolding start construct start_impl copy_in_impl increment_rank_on_ring increment_index_on_ring
    decrement_rank_on_ring decrement_index_on_ring trigger_progress trigger_progress_impl
    final_round next_round copy_out
copy_out_run = refl

loaded_run :
    (q : ℕ)
    → copy_in implementation
        (inputs q)
        (record { state = State.initialized; algorithm = construct counts 2 q [] (garbage q) })
      ≡ ok (loaded q)
unfolding copy_in construct
loaded_run q = refl

inputs-length : (q : ℕ) → length (inputs q) ≡ counts q
inputs-length zero = refl
inputs-length (suc q) = refl

all_gather_example : copied (λ i. 0) (offset counts 1 + 1) ≡ 22
all_gather_example =
    all_gather counts inputs 2 (λ q. []) garbage loaded done 0 1 1 22 copied
      (record { state = State.initialized; algorithm = (done 0).algorithm }) (λ i. 0) (omega arith)
      (omega arith) inputs-length loaded_run done-Reach (omega arith) (omega arith) copy_out_run
      refl

-- The sum of the counts goes through an `int`: 2 ^ 31 elements become 2 ^ 64 - 2 ^ 31.
too_many : accumulate (λ k. 2 ^ 31) 1 ≡ 2 ^ 64 - 2 ^ 31
unfolding accumulate
too_many = refl
