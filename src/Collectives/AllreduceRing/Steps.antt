-- ===== src/Collectives/AllreduceRing/Steps.antt =====
-- The invariant of all ranks of AllreduceRing.hpp under a call of `start` and of `triggerProgress` on one
-- of them.
use gaspi_cxx.Common.{
  ℕ, ◌+◌, ◌-◌, ◌<◌, ◌≤◌, ◌≡◌, ◌≢◌, ◌⊎◌, inl, inr, refl, sym, true, arith, subst, size_mod, ok,
}
use gaspi_cxx.Common.Families.{update}
use gaspi_cxx.Group.Ring.Laws.{right, left, ring_index_lem, decrement_lem}
use gaspi_cxx.Collectives.LowLevel.{State, Collective, start, trigger_progress}
use gaspi_cxx.Collectives.AllreduceRing.{Ring, start_impl, chunk_implementation}
use gaspi_cxx.Collectives.AllreduceRing.Hops.{chunk_at-lt, chunk_at-zero, left-right}
use gaspi_cxx.Collectives.AllreduceRing.Network.{Net}
use gaspi_cxx.Collectives.AllreduceRing.Edges.{outs, ins, Phase, waiting, working, complete, Edge}
use gaspi_cxx.Collectives.AllreduceRing.Outcomes.{
  Outcome, idle, reduces, gathers, finishes, unworking, running-Outcome,
}
use gaspi_cxx.Collectives.AllreduceRing.Moves.{reduces-in, reduces-out}
use gaspi_cxx.Collectives.AllreduceRing.GatherMoves.{gathers-in, gathers-out, finishes-out}
use gaspi_cxx.Collectives.AllreduceRing.StartMoves.{starts-out, started_collective}
use gaspi_cxx.Collectives.AllreduceRing.Invariant.{Inv, sent_left, Edge-in, update-Inv}

Phase-ready : {n : ℕ} {st : State} {s : ℕ} → Phase n st s → st ≡ State.ready → s ≡ 0
Phase-ready (waiting e) h = e
Phase-ready (working l) h = cc
Phase-ready (complete l) h = cc

Phase-running : {n : ℕ} {st : State} {s : ℕ} → Phase n st s → st ≡ State.running → s + 2 ≤ n + n
Phase-running (waiting e) h = cc
Phase-running (working l) h = l
Phase-running (complete l) h = cc

running_or_not : (st : State) → (st ≡ State.running) ⊎ (st ≢ State.running)
running_or_not State.uninitialized = inr (λ e. cc)
running_or_not State.initialized = inr (λ e. cc)
running_or_not State.ready = inr (λ e. cc)
running_or_not State.running = inl refl
running_or_not State.finished = inr (λ e. cc)

module _ {A : Type 0} (apply_reduce_op : A → A → A) (input : ℕ → ℕ → A) (n : ℕ) (hn : 2 ≤ n)
    (hm : n + n ≤ size_mod) (w : Net A) (v : Inv apply_reduce_op input n w) (r : ℕ)
    (hr : r < n) where
  start_lem :
      (c : Collective (Ring A))
      → start (chunk_implementation apply_reduce_op) (w r) ≡ ok c
      → (wait : (w r).state ≡ State.ready) × (fresh : (w r).algorithm.current_step ≡ 0) × (c
          ≡ started_collective apply_reduce_op input n r hn hr (w r) wait fresh)
  unfolding start chunk_implementation start_impl
  start_lem c e =
      let nd = v.nodes r hr in
      let own = nd.own in
      let ranks = nd.ranks in
      let elements = nd.elements in
      let wait : (w r).state ≡ State.ready = ground arith in
      (
        wait,
        Phase-ready nd.phase wait,
        ground (arith, ring_index_lem r n hr, decrement_lem r n hr hm, own, ranks, elements),
      )

  pub starts-Inv :
      (c : Collective (Ring A))
      → start (chunk_implementation apply_reduce_op) (w r) ≡ ok c
      → Inv apply_reduce_op input n (update w r c)
  starts-Inv c e =
      let (wait, fresh, is) = start_lem c e in
      let nd = v.nodes r hr in
      let started = started_collective apply_reduce_op input n r hn hr (w r) wait fresh in
      let same : ins started ≡ ins (w r) = ground (arith, fresh) in
      rw is (
        update-Inv apply_reduce_op input n hn w v r hr started
          (record {
            elements = nd.elements;
            ranks = nd.ranks;
            own = nd.own;
            stage = nd.stage;
            phase = working (omega arith);
            index = λ _. ground (arith, chunk_at-zero n r hr);
          })
          (subst (λ b. Edge apply_reduce_op input n r (outs (w (left n r))) b) (sym same)
            (Edge-in apply_reduce_op input n hn w v r hr))
          (starts-out apply_reduce_op input n r hn hr (w r) wait fresh (ins (w (right n r)))
            (v.edges r hr)))

  Outcome-Inv :
      (c : Collective (Ring A))
      → Outcome apply_reduce_op n r (w r) c
      → Inv apply_reduce_op input n (update w r c)
  Outcome-Inv c (idle blocked e) = rw e (
      update-Inv apply_reduce_op input n hn w v r hr (w r) (v.nodes r hr)
        (Edge-in apply_reduce_op input n hn w v r hr) (v.edges r hr))
  Outcome-Inv c (reduces run early came e) =
      let nd = v.nodes r hr in
      rw e (
        update-Inv apply_reduce_op input n hn w v r hr _
          (record {
            elements = nd.elements;
            ranks = nd.ranks;
            own = nd.own;
            stage = nd.stage;
            phase = working (omega arith);
            index = λ _. refl;
          })
          (reduces-in apply_reduce_op input n r hn hr (w r) run early came (outs (w (left n r)))
            (sent_left apply_reduce_op input n hn w v r hr).0
            (Edge-in apply_reduce_op input n hn w v r hr))
          (reduces-out apply_reduce_op input n r hn hr (w r) run early came (ins (w (right n r)))
            (v.edges r hr)))
  Outcome-Inv c (gathers run late not_last came e) =
      let nd = v.nodes r hr in
      rw e (
        update-Inv apply_reduce_op input n hn w v r hr _
          (record {
            elements = nd.elements;
            ranks = nd.ranks;
            own = nd.own;
            stage = nd.stage;
            phase = working (omega arith);
            index = λ _. refl;
          })
          (gathers-in apply_reduce_op input n r hn hr (w r) run late not_last came
            (outs (w (left n r))) (Edge-in apply_reduce_op input n hn w v r hr))
          (gathers-out apply_reduce_op input n r hn hr (w r) run late not_last came
            (ins (w (right n r))) (v.edges r hr)))
  Outcome-Inv c (finishes run last acked e) =
      let nd = v.nodes r hr in
      rw e (
        update-Inv apply_reduce_op input n hn w v r hr _
          (record {
            elements = nd.elements;
            ranks = nd.ranks;
            own = nd.own;
            stage = nd.stage;
            phase = complete last;
            index = λ h. cc;
          })
          (Edge-in apply_reduce_op input n hn w v r hr)
          (finishes-out apply_reduce_op input n r hn hr (w r) run (ins (w (right n r)))
            (chunk_at-lt n (right n r) (n + n - 3) (left-right n r hr).0 (omega arith)) acked
            (v.edges r hr)))

  pub progress-Outcome :
      Outcome apply_reduce_op n r
        (w r)
        (trigger_progress (chunk_implementation apply_reduce_op) true (w r)).0
  progress-Outcome =
      let nd = v.nodes r hr in
      elim (running_or_not (w r).state) [
        | inl run ↦
            running-Outcome apply_reduce_op n r (w r) hn hm hr run (Phase-running nd.phase run)
              (nd.elements, nd.ranks, nd.stage, nd.index run)
        | inr ne ↦ idle (λ run. absurd (ne run)) (unworking apply_reduce_op (w r) ne)
      ]

  pub progresses-Inv :
      Inv apply_reduce_op input n
        (update w r (trigger_progress (chunk_implementation apply_reduce_op) true (w r)).0)
  progresses-Inv = Outcome-Inv _ progress-Outcome
