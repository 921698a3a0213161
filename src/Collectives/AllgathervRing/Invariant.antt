-- ===== src/Collectives/AllgathervRing/Invariant.antt =====
-- What all ranks of AllgathervRing.hpp know of their buffers in every reachable state.
use gaspi_cxx.Common.{
  ℕ, ◌+◌, ◌<◌, ◌≤◌, ◌≡◌, inl, inr, refl, sym, ap, subst, ◌∙◌, true, false, List, ◌==◌, size_mod,
  arith, Bool-cases,
}
use gaspi_cxx.Common.Families.{update}
use gaspi_cxx.Group.Ring.Laws.{right, left, increment_rank-right, decrement_rank-left}
use gaspi_cxx.Collectives.LowLevel.{State, Collective}
use gaspi_cxx.Collectives.AllgathervRing.{Gather, construct}
use gaspi_cxx.Collectives.AllgathervRing.Network.{Net, at_rank, Step, Reach, here, next}
use gaspi_cxx.Collectives.AllgathervRing.Nodes.{origin, Node, starts-Node, progresses-Node}
use gaspi_cxx.Collectives.AllgathervRing.Writes.{
  put-Node, notify-Node, cleared-Node, acked-Node, ack_sent-Node,
}

module _ {T : Type 0} (counts : ℕ → ℕ) (input : ℕ → List T) (n : ℕ) (hn : 2 ≤ n) where
  abbrev pub Inv : Net T → Type 0
  Inv w = (r : ℕ) → r < n → Node counts input n r (w r)

  update-Inv :
      (w : Net T) (r : ℕ) (c : Collective (Gather T))
      → Inv w
      → Node counts input n r c
      → Inv (update w r c)
  update-Inv w r c v new k hk = elim (Bool-cases (r == k)) [
    | inl same_rank ↦
        rw same_rank (subst (λ j. Node counts input n j c) (ground (arith, same_rank)) new)
    | inr another ↦ rw another (v k hk)
  ]

  origin-right : (r i : ℕ) → r < n → i + 2 ≤ n → origin n r i ≡ origin n (right n r) (i + 1)
  origin-right r i hr hi = ground arith

  Step-Inv : n + n ≤ size_mod → {u w : Net T} → Inv u → Step n u w → Inv w
  Step-Inv hm {u} v (Step.starts {c} r h e) =
      update-Inv u r c v (starts-Node counts input n hn r (u r) c (v r h) e)
  Step-Inv hm {u} v (Step.progresses r h) =
      update-Inv u r _ v (progresses-Node counts input n hn r (u r) (v r h))
  Step-Inv hm {u} v (Step.data_comes r i h p) =
      let (low, fits) = (v r h).sending i p in
      let value = (v r h).held i low ∙ ap input (origin-right r i h fits) in
      let hq : right n r < n = ground arith in
      rw (increment_rank-right r n h hm) (
        update-Inv u (right n r) _ v (
          put-Node counts input n hn (right n r) i ((u r).algorithm.buffers i) (u (right n r))
            (v (right n r) hq) value))
  Step-Inv hm {u} v (Step.completes r i h p) =
      let (low, fits) = (v r h).sending i p in
      let value = (v r h).held i low ∙ ap input (origin-right r i h fits) in
      let hq : right n r < n = ground arith in
      let cleared : Net T = at_rank u r (λ g. record g { posted = update g.posted i false }) in
      let v' = update-Inv u r _ v (cleared-Node counts input n hn r i (u r) (v r h)) in
      rw (increment_rank-right r n h hm) (
        update-Inv cleared (right n r) _ v' (
          notify-Node counts input n hn (right n r) i ((u r).algorithm.buffers i)
            (cleared (right n r)) (v' (right n r) hq) value))
  Step-Inv hm {u} v (Step.ack_completes r i h p) =
      let hq : left n r < n = ground arith in
      let flags = update (u r).algorithm.ack_posted i false in
      let cleared : Net T =
        at_rank u r (λ g. record g { ack_posted = update g.ack_posted i false }) in
      let v' = update-Inv u r _ v (ack_sent-Node counts input n hn r flags (u r) (v r h)) in
      rw (decrement_rank-left r n h hm) (
        update-Inv cleared (left n r) _ v' (
          acked-Node counts input n hn (left n r)
            (update (cleared (left n r)).algorithm.acked i true) (cleared (left n r))
            (v' (left n r) hq)))

  -- All ranks after `copyIn` of their elements.
  pub ready-Inv :
      (w : Net T) (single : ℕ → List T) (buffers : ℕ → ℕ → List T)
      → ((r : ℕ) → buffers r 0 ≡ input r)
      → ((r : ℕ)
          → w r ≡ record {
            state = State.ready;
            algorithm = construct counts n r (single r) (buffers r);
          })
      → Inv w
  unfolding construct
  ready-Inv w single buffers loaded e r hr = subst (Node counts input n r) (sym (e r)) (record {
    sizes = refl;
    ranks = refl;
    own = refl;
    bound = omega arith;
    fresh = λ h. refl;
    over = λ h. cc;
    held = λ i h.
        let zero_eq : 0 ≡ i = omega arith in
        let mine : r ≡ origin n r 0 = ground arith in
        subst (λ j. buffers r j ≡ input (origin n r j)) zero_eq (loaded r ∙ ap input mine);
    sending = λ i h. cc;
    came = λ i h a. cc;
  })

  pub Reach-Inv : n + n ≤ size_mod → {u w : Net T} → Inv u → Reach n u w → Inv w
  Reach-Inv hm v here = v
  Reach-Inv hm v (next reach step) = Step-Inv hm (Reach-Inv hm v reach) step
