-- ===== src/Collectives/AllreduceRing/Transfers.antt =====
-- The invariant of all ranks of AllreduceRing.hpp under the steps of `Network`.
use gaspi_cxx.Common.{
  ℕ, ◌+◌, ◌<◌, ◌≤◌, ◌≡◌, ◌≢◌, refl, sym, true, false, arith, ℕ_discrete, subst, ap, size_mod, ◌∙◌,
}
use gaspi_cxx.Common.Families.{update}
use gaspi_cxx.Group.Ring.{RingIndex}
use gaspi_cxx.Group.Ring.Laws.{right, left, increment_rank-right, decrement_rank-left}
use gaspi_cxx.Collectives.LowLevel.{Collective}
use gaspi_cxx.Collectives.AllreduceRing.{Ring}
use gaspi_cxx.Collectives.AllreduceRing.Hops.{right-left, left-right}
use gaspi_cxx.Collectives.AllreduceRing.Network.{
  Net, at_rank, put_target, put_source, notify_reduce, notify_gather, Step, starts, progresses,
  reduce_data, reduce_completes, gather_data, gather_completes, ack_completes,
}
use gaspi_cxx.Collectives.AllreduceRing.Edges.{sent_at, outs, ins, Phase, Node, Edge}
use gaspi_cxx.Collectives.AllreduceRing.Steps.{starts-Inv, progresses-Inv}
use gaspi_cxx.Collectives.AllreduceRing.Invariant.{Inv, sent-le, sent_left, Edge-in, replace-Inv}
use gaspi_cxx.Collectives.AllreduceRing.Deliveries.{
  reduce_data-Edge, reduce_completes-Edge, gather_data-Edge, gather_completes-Edge,
  ack_completes-Edge,
}

-- What a rank's own part of the invariant reads of its algorithm.
abbrev head : {A : Type 0} → Ring A → ℕ × ℕ × ℕ × ℕ × ℕ × RingIndex
head x =
    (x.number_elements, x.number_ranks, x.rank, x.steps_per_stage, x.current_step, x.current_index)

Node-same :
    {A : Type 0} (n r : ℕ) (c : Collective (Ring A)) (y : Ring A)
    → head y ≡ head c.algorithm
    → Node n r c
    → Node n r (record { state = c.state; algorithm = y })
Node-same n r c y e nd =
    let elements = nd.elements in
    let ranks = nd.ranks in
    let own = nd.own in
    let stage = nd.stage in
    record {
      elements = ground arith;
      ranks = ground arith;
      own = ground arith;
      stage = ground arith;
      phase = subst (λ h. Phase n c.state h.4) (sym e) nd.phase;
      index = λ run. ground (arith, nd.index run);
    }

module _ {A : Type 0} (apply_reduce_op : A → A → A) (input : ℕ → ℕ → A) (n : ℕ) (hn : 2 ≤ n)
    (hm : n + n ≤ size_mod) (w : Net A) (v : Inv apply_reduce_op input n w) where
  -- The algorithms of a rank and of its right neighbor change.
  pair-Inv :
      (u : Net A) (r : ℕ) (x y : Ring A)
      → r < n
      → u r ≡ record { state = (w r).state; algorithm = x }
      → u (right n r) ≡ record { state = (w (right n r)).state; algorithm = y }
      → ((k : ℕ) → k ≢ r → k ≢ right n r → u k ≡ w k)
      → head x ≡ head (w r).algorithm
      → head y ≡ head (w (right n r)).algorithm
      → Edge apply_reduce_op input n
          (right n r)
          (outs (record { state = (w r).state; algorithm = x }))
          (ins (record { state = (w (right n r)).state; algorithm = y }))
      → ins (record { state = (w r).state; algorithm = x }) ≡ ins (w r)
      → outs (record { state = (w (right n r)).state; algorithm = y }) ≡ outs (w (right n r))
      → Inv apply_reduce_op input n u
  pair-Inv u r x y hr ur uq other hx hy edge si so =
      let q = right n r in
      let (hq, _) = left-right n r hr in
      replace-Inv apply_reduce_op input n hn w u v r hr
        (λ k hk. elim (ℕ_discrete k r) [
          | yes e ↦
              subst (λ j. Node n j (u j)) (sym e)
                (subst (λ d. Node n r d) (sym ur) (Node-same n r (w r) x hx (v.nodes r hr)))
          | no ne ↦ elim (ℕ_discrete k q) [
            | yes e ↦
                subst (λ j. Node n j (u j)) (sym e)
                  (subst (λ d. Node n q d) (sym uq) (Node-same n q (w q) y hy (v.nodes q hq)))
            | no ne' ↦ subst (λ d. Node n k d) (sym (other k ne ne')) (v.nodes k hk)
          ]
        ])
        (subst (λ d. Edge apply_reduce_op input n q (outs d) (ins (u q))) (sym ur)
          (subst
            (λ d.
              Edge apply_reduce_op input n q (outs (record { state = (w r).state; algorithm = x }))
                (ins d))
            (sym uq) edge))
        (λ k ne. elim (ℕ_discrete k q) [
          | yes e ↦ subst (λ j. outs (u j) ≡ outs (w j)) (sym e) (ap outs uq ∙ so)
          | no ne' ↦ ap outs (other k ne ne')
        ])
        (λ k ne. elim (ℕ_discrete k r) [
          | yes e ↦ subst (λ j. ins (u j) ≡ ins (w j)) (sym e) (ap ins ur ∙ si)
          | no ne' ↦ ap ins (other k ne' ne)
        ])

  module _ (r i : ℕ) (hr : r < n) (hi : i < n) where
    reduce_data-Inv :
        (w r).algorithm.reduce_posted i ≡ true
        → Inv apply_reduce_op input n
            (at_rank w (right n r) (put_target i ((w r).algorithm.sources i)))
    reduce_data-Inv posted =
        let ein = Edge-in apply_reduce_op input n hn w v r hr in
        pair-Inv _ r (w r).algorithm
          (put_target i ((w r).algorithm.sources i) (w (right n r)).algorithm) hr (ground arith)
          (ground arith) (λ k ne ne'. ground arith) refl refl
          (reduce_data-Edge apply_reduce_op input n r hn hr (outs (w r)) (ins (w (right n r))) i hi
            (v.edges r hr) _ _ _
            (sent-le apply_reduce_op input n hn (w r).state (w r).algorithm.current_step)
            (sent_left apply_reduce_op input n hn w v r hr).1 (ein.chunks i hi) posted)
          refl refl

    reduce_completes-Inv :
        (w r).algorithm.reduce_posted i ≡ true
        → Inv apply_reduce_op input n (
            at_rank
              (at_rank w r (λ x. record x { reduce_posted = update x.reduce_posted i false }))
              (right n r)
              (notify_reduce i ((w r).algorithm.sources i)))
    reduce_completes-Inv posted =
        let ein = Edge-in apply_reduce_op input n hn w v r hr in
        pair-Inv _ r
          (record (w r).algorithm { reduce_posted = update (w r).algorithm.reduce_posted i false })
          (notify_reduce i ((w r).algorithm.sources i) (w (right n r)).algorithm) hr (ground arith)
          (ground arith) (λ k ne ne'. ground arith) refl refl
          (reduce_completes-Edge apply_reduce_op input n r hn hr (outs (w r)) (ins (w (right n r)))
            i hi (v.edges r hr) _ _ _
            (sent-le apply_reduce_op input n hn (w r).state (w r).algorithm.current_step)
            (sent_left apply_reduce_op input n hn w v r hr).1 (ein.chunks i hi) posted)
          refl refl

    sent_own : (outs (w r)).sent ≤ (w (right n r)).algorithm.current_step + n
    sent_own =
        let (hq, e) = left-right n r hr in
        subst
          (λ k.
            sent_at (w k).state (w k).algorithm.current_step
            ≤ (w (right n r)).algorithm.current_step + n)
          e (sent_left apply_reduce_op input n hn w v (right n r) hq).0

    gather_data-Inv :
        (w r).algorithm.gather_posted i ≡ true
        → Inv apply_reduce_op input n
            (at_rank w (right n r) (put_source i ((w r).algorithm.sources i)))
    gather_data-Inv posted =
        let ein = Edge-in apply_reduce_op input n hn w v r hr in
        pair-Inv _ r (w r).algorithm
          (put_source i ((w r).algorithm.sources i) (w (right n r)).algorithm) hr (ground arith)
          (ground arith) (λ k ne ne'. ground arith) refl refl
          (gather_data-Edge apply_reduce_op input n r hn hr (outs (w r)) (ins (w (right n r))) i hi
            (v.edges r hr) _ _ _
            (sent-le apply_reduce_op input n hn (w r).state (w r).algorithm.current_step)
            (sent_left apply_reduce_op input n hn w v r hr).1 (ein.chunks i hi) posted sent_own)
          refl refl

    gather_completes-Inv :
        (w r).algorithm.gather_posted i ≡ true
        → Inv apply_reduce_op input n (
            at_rank
              (at_rank w r (λ x. record x { gather_posted = update x.gather_posted i false }))
              (right n r)
              (notify_gather i ((w r).algorithm.sources i)))
    gather_completes-Inv posted =
        let ein = Edge-in apply_reduce_op input n hn w v r hr in
        pair-Inv _ r
          (record (w r).algorithm { gather_posted = update (w r).algorithm.gather_posted i false })
          (notify_gather i ((w r).algorithm.sources i) (w (right n r)).algorithm) hr (ground arith)
          (ground arith) (λ k ne ne'. ground arith) refl refl
          (gather_completes-Edge apply_reduce_op input n r hn hr (outs (w r)) (ins (w (right n r)))
            i hi (v.edges r hr) _ _ _
            (sent-le apply_reduce_op input n hn (w r).state (w r).algorithm.current_step)
            (sent_left apply_reduce_op input n hn w v r hr).1 (ein.chunks i hi) posted sent_own)
          refl refl

    ack_completes-Inv :
        (w r).algorithm.ack_posted i ≡ true
        → Inv apply_reduce_op input n (
            at_rank
              (at_rank w r (λ x. record x { ack_posted = update x.ack_posted i false }))
              (left n r)
              (λ x. record x { gather_acked = update x.gather_acked i true }))
    ack_completes-Inv posted =
        let (hl, e) = right-left n r hr in
        let posted' : (w (right n (left n r))).algorithm.ack_posted i ≡ true =
          subst (λ k. (w k).algorithm.ack_posted i ≡ true) (sym e) posted in
        pair-Inv _ (left n r)
          (record (w (left n r)).algorithm {
            gather_acked = update (w (left n r)).algorithm.gather_acked i true;
          })
          (record (w (right n (left n r))).algorithm {
            ack_posted = update (w (right n (left n r))).algorithm.ack_posted i false;
          })
          hl (ground arith) (ground (arith, e)) (λ k ne ne'. ground (arith, e)) refl refl
          (ack_completes-Edge apply_reduce_op input n (left n r) hn hl (outs (w (left n r)))
            (ins (w (right n (left n r)))) i hi (v.edges (left n r) hl) posted')
          refl refl

  pub Step-Inv : {u : Net A} → Step apply_reduce_op n w u → Inv apply_reduce_op input n u
  Step-Inv (starts {c = c} r hr e) = starts-Inv apply_reduce_op input n hn hm w v r hr c e
  Step-Inv (progresses r hr) = progresses-Inv apply_reduce_op input n hn hm w v r hr
  Step-Inv (reduce_data r i hr hi posted) =
      rw (increment_rank-right r n hr hm) (reduce_data-Inv r i hr hi posted)
  Step-Inv (reduce_completes r i hr hi posted) =
      rw (increment_rank-right r n hr hm) (reduce_completes-Inv r i hr hi posted)
  Step-Inv (gather_data r i hr hi posted) =
      rw (increment_rank-right r n hr hm) (gather_data-Inv r i hr hi posted)
  Step-Inv (gather_completes r i hr hi posted) =
      rw (increment_rank-right r n hr hm) (gather_completes-Inv r i hr hi posted)
  Step-Inv (ack_completes r i hr hi posted) =
      rw (decrement_rank-left r n hr hm) (ack_completes-Inv r i hr hi posted)
