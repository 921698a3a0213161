-- ===== src/Collectives/AllreduceRing/Results.antt =====
-- The outputs and the transfers of finished ranks of AllreduceRing.hpp.
use gaspi_cxx.Common.{
  ℕ, ◌+◌, ◌-◌, ◌<◌, ◌≤◌, ◌≡◌, inl, inr, refl, false, ◌||◌, arith, ℕ_discrete, subst, ap, size_mod,
  ok, ◌∙◌,
}
use gaspi_cxx.Group.Ring.Laws.{left, right}
use gaspi_cxx.Collectives.LowLevel.{State, Collective, copy_out}
use gaspi_cxx.Collectives.AllreduceRing.{Ring, construct, chunk_implementation}
use gaspi_cxx.Collectives.AllreduceRing.Hops.{distance, distance-lt, partial, total, left-right}
use gaspi_cxx.Collectives.AllreduceRing.Network.{Net, ready, Reach, here, next}
use gaspi_cxx.Collectives.AllreduceRing.Edges.{Phase, waiting, working, complete, Chunk}
use gaspi_cxx.Collectives.AllreduceRing.Invariant.{Inv, Edge-in}
use gaspi_cxx.Collectives.AllreduceRing.Transfers.{Step-Inv}

module _ {A : Type 0} (apply_reduce_op : A → A → A) (input : ℕ → ℕ → A) (single : A)
    (targets : ℕ → ℕ → A) (number_elements n : ℕ) (hn : 2 ≤ n) (hm : n + n ≤ size_mod)
    (some_elements : 0 < number_elements) where
  ready-Chunk :
      (r i : ℕ) → r < n → i < n → Chunk apply_reduce_op input n r i (distance n i r) 0 0 (input r i)
  unfolding partial
  ready-Chunk r i hr hi = (
    λ h. refl,
    λ h.
        let zero_hops : distance n i r ≡ 0 = omega arith in
        let same : i ≡ r = unfold distance in ground arith in inl (rw (zero_hops, same) refl),
    λ h. absurd (omega arith),
  )

  ready-Inv : Inv apply_reduce_op input n (ready number_elements n single input targets)
  unfolding construct ready
  ready-Inv = record {
    nodes = λ r hr. record {
      elements = some_elements;
      ranks = refl;
      own = refl;
      stage = refl;
      phase = waiting refl;
      index = λ e. cc;
    };
    edges = λ r hr.
        let (hq, _) = left-right n r hr in
        record {
          order = omega arith;
          links = λ i hi. record {
            reduce_flight = ground arith;
            reduce_once = refl;
            reduce_value = λ e. cc;
            gather_flight = ground arith;
            gather_once = refl;
            gather_value = λ e. cc;
          };
          chunks = λ i hi. ready-Chunk (right n r) i hq hi;
          ack_flight = λ i hi. ground arith;
          ack_once = λ i hi. refl;
          over_after = λ e. cc;
        };
  }

  pub Reach-Inv :
      {w : Net A}
      → Reach apply_reduce_op n (ready number_elements n single input targets) w
      → Inv apply_reduce_op input n w
  Reach-Inv here = ready-Inv
  Reach-Inv (next {u = u} reach step) =
      Step-Inv apply_reduce_op input n hn hm u (Reach-Inv reach) step

  Phase-finished : {st : State} {s : ℕ} → Phase n st s → st ≡ State.finished → s + 2 ≡ n + n
  Phase-finished (waiting e) h = cc
  Phase-finished (working l) h = cc
  Phase-finished (complete l) h = l

  -- In a ring of at least 2 ranks, with 2 n at most 2 ^ 64, and with at least one element: in whatever
  -- order the ranks run and the transfers arrive, when `copyOut` on a rank succeeds, every chunk of the
  -- output is the reduction of that chunk over all ranks, taken hop by hop around the ring from the
  -- chunk's own rank on. No law of the operation is assumed, so all ranks get the same values.
  pub copy_out-total :
      (w : Net A) (r i : ℕ) (outputs : ℕ → A) (c : Collective (Ring A))
      → Reach apply_reduce_op n (ready number_elements n single input targets) w
      → r < n
      → i < n
      → copy_out (chunk_implementation apply_reduce_op) (w r) ≡ ok (outputs, c)
      → outputs i ≡ total n apply_reduce_op input i
  unfolding copy_out chunk_implementation
  copy_out-total w r i outputs c reach hr hi e =
      let v = Reach-Inv reach in
      let nd = v.nodes r hr in
      let over : (w r).state ≡ State.finished = ground arith in
      let out : outputs ≡ (w r).algorithm.sources = ground arith in
      let done = Phase-finished nd.phase over in
      let d = distance-lt n i r hi hr in
      let (raw, mid, all) = (Edge-in apply_reduce_op input n hn w v r hr).chunks i hi in
      ap (λ f. f i) out ∙ elim (ℕ_discrete (distance n i r + 1) n) [
        | yes last ↦
            let d' : distance n i r ≡ n - 1 = omega arith in
            elim (mid (omega arith)) [
              | inl eq ↦
                  subst (λ k. (w r).algorithm.sources i ≡ partial n apply_reduce_op input i k) d' eq
              | inr (eq, _) ↦ eq
            ]
        | no inner ↦ all (omega arith)
      ]

  -- In a ring of at least 2 ranks, with 2 n at most 2 ^ 64, and with at least one element: in whatever
  -- order the ranks run and the transfers arrive, when a rank has finished, no transfer of any chunk from
  -- its left neighbor to it is posted, and no notification of one is left at it; its right neighbor has
  -- done all its steps, and from the rank to this neighbor no transfer of any chunk is posted, no
  -- notification of one is left, and no acknowledgement of one is posted or left.
  pub finished_quiet :
      (w : Net A) (r i : ℕ)
      → Reach apply_reduce_op n (ready number_elements n single input targets) w
      → r < n
      → i < n
      → (w r).state ≡ State.finished
      → ((w (right n r)).algorithm.current_step + 2 ≡ n + n)
        × ((w r).algorithm.reduce_posted i ≡ false)
        × ((w r).algorithm.gather_posted i ≡ false)
        × ((w (right n r)).algorithm.reduce_arrived i ≡ false)
        × ((w (right n r)).algorithm.gather_arrived i ≡ false)
        × ((w (right n r)).algorithm.ack_posted i ≡ false)
        × ((w r).algorithm.gather_acked i ≡ false)
        × ((w (left n r)).algorithm.reduce_posted i ≡ false)
        × ((w (left n r)).algorithm.gather_posted i ≡ false)
        × ((w r).algorithm.reduce_arrived i ≡ false)
        × ((w r).algorithm.gather_arrived i ≡ false)
  finished_quiet w r i reach hr hi over =
      let v = Reach-Inv reach in
      let e = v.edges r hr in
      let l = e.links i hi in
      let (hq, _) = left-right n r hr in
      let d = distance-lt n i (right n r) hi hq in
      let done : (w (right n r)).algorithm.current_step + 2 ≡ n + n =
        e.over_after (ground (arith, over)) in
      let fr : ((w r).algorithm.reduce_posted i || (w (right n r)).algorithm.reduce_arrived i)
          ≡ false =
        ground (arith, l.reduce_flight) in
      let fg : ((w r).algorithm.gather_posted i || (w (right n r)).algorithm.gather_arrived i)
          ≡ false =
        ground (arith, l.gather_flight) in
      let fa : ((w (right n r)).algorithm.ack_posted i || (w r).algorithm.gather_acked i) ≡ false =
        ground (arith, over, e.ack_flight i hi) in
      let last = Phase-finished (v.nodes r hr).phase over in
      let l' = (Edge-in apply_reduce_op input n hn w v r hr).links i hi in
      let d' = distance-lt n i r hi hr in
      let fr' : ((w (left n r)).algorithm.reduce_posted i || (w r).algorithm.reduce_arrived i)
          ≡ false =
        ground (arith, l'.reduce_flight) in
      let fg' : ((w (left n r)).algorithm.gather_posted i || (w r).algorithm.gather_arrived i)
          ≡ false =
        ground (arith, l'.gather_flight) in
      (
        done,
        ground arith,
        ground arith,
        ground arith,
        ground arith,
        ground arith,
        ground arith,
        ground arith,
        ground arith,
        ground arith,
        ground arith,
      )
