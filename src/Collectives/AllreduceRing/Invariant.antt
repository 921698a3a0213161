-- ===== src/Collectives/AllreduceRing/Invariant.antt =====
-- The invariant of all ranks of AllreduceRing.hpp together, and how far two ranks can be apart.
use gaspi_cxx.Common.{ℕ, zero, suc, ◌+◌, ◌-◌, ◌<◌, ◌≤◌, ◌≡◌, ◌≢◌, sym, arith, ℕ_discrete, subst}
use gaspi_cxx.Common.Families.{update}
use gaspi_cxx.Group.Ring.Laws.{right, left}
use gaspi_cxx.Collectives.LowLevel.{State, Collective}
use gaspi_cxx.Collectives.AllreduceRing.{Ring}
use gaspi_cxx.Collectives.AllreduceRing.Hops.{place, right-left, left-right}
use gaspi_cxx.Collectives.AllreduceRing.Network.{Net}
use gaspi_cxx.Collectives.AllreduceRing.Edges.{sent_at, outs, ins, Node, Edge}

pub record Inv {A : Type 0} (apply_reduce_op : A → A → A) (input : ℕ → ℕ → A) (n : ℕ) (w : Net A)
    : Type 0 where
  pub nodes : (r : ℕ) → r < n → Node n r (w r)
  pub edges :
      (r : ℕ) → r < n → Edge apply_reduce_op input n (right n r) (outs (w r)) (ins (w (right n r)))

module _ {A : Type 0} (apply_reduce_op : A → A → A) (input : ℕ → ℕ → A) (n : ℕ) (hn : 2 ≤ n) where
  pub sent-le : (s : State) (k : ℕ) → sent_at s k ≤ k + 1
  sent-le State.uninitialized k = omega arith
  sent-le State.initialized k = omega arith
  sent-le State.ready k = omega arith
  sent-le State.running k = omega arith
  sent-le State.finished k = omega arith

  place-suc :
      (r j : ℕ)
      → r < n
      → j + 1 < n
      → (place n r j < n) × (place n r (suc j) ≡ right n (place n r j))
  unfolding place
  place-suc r j hr hj = ground arith

  -- A rank is at most one step ahead of its left neighbor, so at most `j` steps behind the rank `j` hops to its right.
  step_place :
      (w : Net A)
      → Inv apply_reduce_op input n w
      → (r j : ℕ) → r < n
      → j < n
      → (w (place n r j)).algorithm.current_step ≤ (w r).algorithm.current_step + j
  step_place w v r zero hr hj =
      let e : place n r 0 ≡ r = unfold place in ground arith in rw e (omega arith)
  step_place w v r (suc j) hr hj =
      let (hp, e) = place-suc r j hr (omega arith) in
      let p = place n r j in
      rw e (
        omega (
          arith,
          step_place w v r j hr (omega arith),
          (v.edges p hp).order,
          sent-le (w p).state (w p).algorithm.current_step,
        ))

  -- How far the left neighbor of `r` can have sent, by the steps of `r` and of its right neighbor.
  pub sent_left :
      (w : Net A)
      → Inv apply_reduce_op input n w
      → (r : ℕ) → r < n
      → (sent_at (w (left n r)).state (w (left n r)).algorithm.current_step
          ≤ (w r).algorithm.current_step + n)
        × (sent_at (w (left n r)).state (w (left n r)).algorithm.current_step + 1
            ≤ (w (right n r)).algorithm.current_step + n)
  sent_left w v r hr =
      let l = left n r in
      let e : place n r (n - 1) ≡ l = unfold place in ground arith in
      let e' : place n (right n r) (n - 2) ≡ l = unfold place in ground arith in
      let h =
        subst (λ k. (w k).algorithm.current_step ≤ (w r).algorithm.current_step + (n - 1)) e
          (step_place w v r (n - 1) hr (omega arith)) in
      let h' =
        subst (λ k. (w k).algorithm.current_step ≤ (w (right n r)).algorithm.current_step + (n - 2))
          e' (step_place w v (right n r) (n - 2) (left-right n r hr).0 (omega arith)) in
      let s = sent-le (w l).state (w l).algorithm.current_step in (omega arith, omega arith)

  -- The edge into rank `r`.
  pub Edge-in :
      (w : Net A)
      → Inv apply_reduce_op input n w
      → (r : ℕ) → r < n
      → Edge apply_reduce_op input n r (outs (w (left n r))) (ins (w r))
  Edge-in w v r hr =
      let (hl, e) = right-left n r hr in
      subst (λ k. Edge apply_reduce_op input n k (outs (w (left n r))) (ins (w k))) e
        (v.edges (left n r) hl)

  -- One rank changes.
  pub update-Inv :
      (w : Net A)
      → Inv apply_reduce_op input n w
      → (x : ℕ) → x < n
      → (c : Collective (Ring A)) → Node n x c
      → Edge apply_reduce_op input n x (outs (w (left n x))) (ins c)
      → Edge apply_reduce_op input n (right n x) (outs c) (ins (w (right n x)))
      → Inv apply_reduce_op input n (update w x c)
  update-Inv w v x hx c nd ein eout = record {
    nodes = λ r hr. elim (ℕ_discrete x r) [
      | yes e ↦
          let s : update w x c r ≡ c = ground arith in
          subst (λ d. Node n r d) (sym s) (subst (λ k. Node n k c) e nd)
      | no ne ↦
          let s : update w x c r ≡ w r = ground arith in
          subst (λ d. Node n r d) (sym s) (v.nodes r hr)
    ];
    edges = λ r hr. elim (ℕ_discrete x r) [
      | yes e ↦
          let s : update w x c r ≡ c = ground arith in
          let t : update w x c (right n r) ≡ w (right n x) = ground arith in
          subst
            (λ d.
              Edge apply_reduce_op input n (right n r) (outs d) (ins (update w x c (right n r))))
            (sym s)
            (subst (λ d. Edge apply_reduce_op input n (right n r) (outs c) (ins d)) (sym t)
              (subst (λ k. Edge apply_reduce_op input n (right n k) (outs c) (ins (w (right n x))))
                e eout))
      | no ne ↦
          let s : update w x c r ≡ w r = ground arith in
          elim (ℕ_discrete x (right n r)) [
            | yes e' ↦
                let t : update w x c (right n r) ≡ c = ground arith in
                let l : left n x ≡ r = ground arith in
                subst
                  (λ d.
                    Edge apply_reduce_op input n (right n r) (outs d)
                      (ins (update w x c (right n r))))
                  (sym s)
                  (subst (λ d. Edge apply_reduce_op input n (right n r) (outs (w r)) (ins d))
                    (sym t)
                    (subst (λ k. Edge apply_reduce_op input n k (outs (w r)) (ins c)) e'
                      (subst (λ k. Edge apply_reduce_op input n x (outs (w k)) (ins c)) l ein)))
            | no ne' ↦
                let t : update w x c (right n r) ≡ w (right n r) = ground arith in
                subst
                  (λ d.
                    Edge apply_reduce_op input n (right n r) (outs d)
                      (ins (update w x c (right n r))))
                  (sym s)
                  (subst (λ d. Edge apply_reduce_op input n (right n r) (outs (w r)) (ins d))
                    (sym t) (v.edges r hr))
          ]
    ];
  }

  -- One edge changes.
  pub replace-Inv :
      (w u : Net A)
      → Inv apply_reduce_op input n w
      → (x : ℕ) → x < n
      → ((r : ℕ) → r < n → Node n r (u r))
      → Edge apply_reduce_op input n (right n x) (outs (u x)) (ins (u (right n x)))
      → ((r : ℕ) → r ≢ x → outs (u r) ≡ outs (w r))
      → ((r : ℕ) → r ≢ right n x → ins (u r) ≡ ins (w r))
      → Inv apply_reduce_op input n u
  replace-Inv w u v x hx nodes edge same_outs same_ins = record {
    nodes = nodes;
    edges = λ r hr. elim (ℕ_discrete x r) [
      | yes e ↦
          subst (λ k. Edge apply_reduce_op input n (right n k) (outs (u k)) (ins (u (right n k)))) e
            edge
      | no ne ↦
          let far : right n r ≢ right n x = ground arith in
          subst (λ o. Edge apply_reduce_op input n (right n r) o (ins (u (right n r))))
            (sym (same_outs r (λ e. ne (sym e))))
            (subst (λ o. Edge apply_reduce_op input n (right n r) (outs (w r)) o)
              (sym (same_ins (right n r) far)) (v.edges r hr))
    ];
  }
