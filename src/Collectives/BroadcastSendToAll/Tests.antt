-- ===== src/Collectives/BroadcastSendToAll/Tests.antt =====
-- A run of BroadcastSendToAll.hpp on three ranks, up to the end of one of them.
use gaspi_cxx.Common.{ℕ, ◌+◌, ◌≡◌, refl, List, [], ◌∷◌, true, false, ok, err, logic_error, arith}
use gaspi_cxx.Common.Families.{update}
use gaspi_cxx.Collectives.LowLevel.{State, start, trigger_progress, copy_in, copy_out}
use gaspi_cxx.Collectives.BroadcastSendToAll.{
  Cast, construct, implementation, copy_in_impl, start_impl, trigger_progress_impl, last_first,
  non_root_ranks,
}
use gaspi_cxx.Collectives.BroadcastSendToAll.Network.{
  Net, at_rank, Reach, here, next, starts, progresses, completes,
}
use gaspi_cxx.Collectives.BroadcastSendToAll.Destinations.{times, construct_connects}
use gaspi_cxx.Collectives.BroadcastSendToAll.Results.{broadcast}

order : last_first (non_root_ranks 1 4) ≡ 3 ∷ 0 ∷ 2 ∷ []
unfolding last_first non_root_ranks
order = refl

abbrev inputs : ℕ → List ℕ
inputs q = (q + 1) ∷ (q + 2) ∷ []

abbrev memory : ℕ → List ℕ
memory q = 9 ∷ 9 ∷ []

abbrev made : ℕ → Cast ℕ
made q = record {
  number_elements = 2;
  root = 1;
  rank = q;
  number_ranks = 3;
  destinations = 2 ∷ 0 ∷ [];
  memory = memory q;
  transfers_in_progress = 0;
  posted = λ d. false;
  acked = λ d. false;
  arrived = false;
  ack_posted = false;
}

abbrev loaded : Net ℕ
loaded q = record { state = State.ready; algorithm = copy_in_impl (inputs q) (made q) }

abbrev started : Net ℕ → ℕ → Net ℕ
started w r = update w r (record { state = State.running; algorithm = start_impl (w r).algorithm })

abbrev progressed : Net ℕ → ℕ → Net ℕ
progressed w r = update w r (trigger_progress implementation true (w r)).0

abbrev delivered : Net ℕ → ℕ → Net ℕ
delivered w d =
    at_rank (at_rank w 1 (λ g. record g { posted = update g.posted d false })) d
      (λ g. record g { memory = (w 1).algorithm.memory; arrived = true })

abbrev done : Net ℕ
done = progressed (delivered (started (started loaded 1) 2) 2) 2

done-Reach : Reach 3 1 loaded done
unfolding start start_impl copy_in_impl
done-Reach =
    next
      (next (next (next here (starts 1 (omega arith) refl)) (starts 2 (omega arith) refl))
        (completes 2 refl))
      (progresses 2 (omega arith))

made_run : (q : ℕ) → construct 2 1 3 q (memory q) ≡ ok (made q)
unfolding construct last_first non_root_ranks
made_run q = refl

loaded_run :
    (q : ℕ)
    → copy_in implementation (inputs q) (record { state = State.initialized; algorithm = made q })
      ≡ ok (loaded q)
unfolding copy_in
loaded_run q = refl

copy_out_run :
    copy_out implementation (done 2)
    ≡ ok (2 ∷ 3 ∷ [], record { state = State.initialized; algorithm = (done 2).algorithm })
unfolding copy_out start_impl copy_in_impl trigger_progress trigger_progress_impl
copy_out_run = refl

broadcast_example : 2 ∷ 3 ∷ [] ≡ inputs 1
broadcast_example =
    broadcast 3 1 2 inputs memory made loaded done 2 (2 ∷ 3 ∷ [])
      (record { state = State.initialized; algorithm = (done 2).algorithm }) (omega arith)
      (omega arith) refl made_run loaded_run done-Reach (omega arith) copy_out_run

construct_connects_example : times 0 (made 1).destinations ≡ 1
construct_connects_example = construct_connects 2 1 3 1 (memory 1) (made 1) 0 (made_run 1)

outside : construct 2 3 3 0 (memory 0) ≡ err logic_error
unfolding construct
outside = refl
