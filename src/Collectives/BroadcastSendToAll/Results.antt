-- ===== src/Collectives/BroadcastSendToAll/Results.antt =====
-- BroadcastSendToAll.hpp from the elements that the root copies in to the outputs of every rank.
use gaspi_cxx.Common.{
  ℕ, ◌<◌, ◌≤◌, ◌≡◌, inl, inr, refl, sym, ap, subst, ◌∙◌, true, false, List, take, length, leb, ◌==◌,
  if◌then◌else◌, ok, arith, Bool-cases,
}
use gaspi_cxx.Common.Families.{update}
use gaspi_cxx.Collectives.LowLevel.{State, Collective, copy_in, copy_out}
use gaspi_cxx.Collectives.AllreduceRing.Copies.{take_all}
use gaspi_cxx.Collectives.BroadcastSendToAll.{
  Cast, construct, implementation, copy_in_impl, last_first, non_root_ranks,
}
use gaspi_cxx.Collectives.BroadcastSendToAll.Network.{Net, at_rank, Step, Reach, here, next}
use gaspi_cxx.Collectives.BroadcastSendToAll.Destinations.{destinations-Others}
use gaspi_cxx.Collectives.BroadcastSendToAll.Nodes.{
  Node, starts-Node, progresses-Node, comes-Node, flags-Node, cleared-Node,
}

module _ {T : Type 0} (input : List T) (n root : ℕ) (hn : 2 ≤ n) (hr : root < n) where
  abbrev Inv : Net T → Type 0
  Inv w = (r : ℕ) → r < n → Node input n root r (w r)

  update-Inv :
      (w : Net T) (r : ℕ) (c : Collective (Cast T))
      → Inv w
      → Node input n root r c
      → Inv (update w r c)
  update-Inv w r c v new k hk = elim (Bool-cases (r == k)) [
    | inl same_rank ↦
        rw same_rank (subst (λ j. Node input n root j c) (ground (arith, same_rank)) new)
    | inr another ↦ rw another (v k hk)
  ]

  Step-Inv : {u w : Net T} → Inv u → Step n root u w → Inv w
  Step-Inv {u} v (Step.starts {c} r h e) =
      update-Inv u r c v (starts-Node input n root hn r (u r) (v r h) c e)
  Step-Inv {u} v (Step.progresses r h) =
      update-Inv u r _ v (progresses-Node input n root hn r (u r) (v r h))
  Step-Inv {u} v (Step.data_comes d p) =
      let (hd, _) = (v root hr).sending d p in
      update-Inv u d _ v (
        comes-Node input n root hn d (u d) (v d hd) (u d).algorithm.arrived
          (u root).algorithm.memory ((v root hr).source refl))
  Step-Inv {u} v (Step.completes d p) =
      let (hd, _) = (v root hr).sending d p in
      let cleared : Net T = at_rank u root (λ g. record g { posted = update g.posted d false }) in
      let v' = update-Inv u root _ v (cleared-Node input n root hn root (u root) (v root hr) d) in
      update-Inv cleared d _ v' (
        comes-Node input n root hn d (cleared d) (v' d hd) true (u root).algorithm.memory
          ((v root hr).source refl))
  Step-Inv {u} v (Step.ack_completes r h p) =
      let cleared : Net T = at_rank u r (λ g. record g { ack_posted = false }) in
      let v' =
        update-Inv u r _ v
          (flags-Node input n root hn r (u r) (v r h) (u r).algorithm.acked false) in
      update-Inv cleared root _ v' (
        flags-Node input n root hn root (cleared root) (v' root hr)
          (update (cleared root).algorithm.acked r true) (cleared root).algorithm.ack_posted)

  Reach-Inv : {u w : Net T} → Inv u → Reach n root u w → Inv w
  Reach-Inv v here = v
  Reach-Inv v (next reach step) = Step-Inv (Reach-Inv v reach) step

-- A group of n ranks, with 2 ≤ n, and a root among them: every rank is constructed, with a memory that holds
-- anything, and initialised, and copies in N elements, of which only those of the root count. Then, in
-- whatever order the ranks run and the transfers arrive, a successful `copyOut` on any rank, the root
-- included, gives the elements of the root.
pub broadcast :
    {T : Type 0} (n root N : ℕ) (inputs memory : ℕ → List T) (g0 : ℕ → Cast T) (w0 w : Net T)
    (r : ℕ) (outputs : List T) (c : Collective (Cast T))
    → 2 ≤ n
    → root < n
    → length (inputs root) ≡ N
    → ((q : ℕ) → construct N root n q (memory q) ≡ ok (g0 q))
    → ((q : ℕ)
        → copy_in implementation (inputs q) (record { state = State.initialized; algorithm = g0 q })
          ≡ ok (w0 q))
    → Reach n root w0 w
    → r < n
    → copy_out implementation (w r) ≡ ok (outputs, c)
    → outputs ≡ inputs root
unfolding construct copy_in copy_out copy_in_impl
broadcast {T} n root N inputs memory g0 w0 w r outputs c hn hr size made loaded reach h e =
    let lit : ℕ → Cast T = λ q. record {
      number_elements = N;
      root = root;
      rank = q;
      number_ranks = n;
      destinations = last_first (non_root_ranks root n);
      memory = if q == root then take N (inputs q) else memory q;
      transfers_in_progress = 0;
      posted = λ d. false;
      acked = λ d. false;
      arrived = false;
      ack_posted = false;
    } in
    let inside : leb n root ≡ false = ground arith in
    let begin : (q : ℕ) → w0 q ≡ record { state = State.ready; algorithm = lit q } = λ q.
      elim (Bool-cases (q == root)) [
        | inl at_root ↦ ground (arith, made q, loaded q, inside, at_root)
        | inr leaf ↦ ground (arith, made q, loaded q, inside, leaf)
      ] in
    let whole : take N (inputs root) ≡ inputs root = take_all N (inputs root) size in
    let start_node : (q : ℕ)
        → Node (inputs root) n root q (record { state = State.ready; algorithm = lit q }) =
      λ q. record {
        own = refl;
        ranks = refl;
        elements = sym size;
        where_root = refl;
        targets = destinations-Others n root;
        source = λ at_root.
            let test : (q == root) ≡ true = ground arith in
            rw test (ap (λ k. take N (inputs k)) at_root ∙ whole);
        came = λ h. cc;
        over = λ h. cc;
        sending = λ d p. cc;
      } in
    let v =
      Reach-Inv (inputs root) n root hn hr
        (λ q hq. subst (Node (inputs root) n root q) (sym (begin q)) (start_node q)) reach r h in
    let over : (w r).state ≡ State.finished = ground arith in
    let out : outputs ≡ take (w r).algorithm.number_elements (w r).algorithm.memory =
      ground arith in
    out
    ∙ ap (λ k. take k (w r).algorithm.memory) (v.elements ∙ size)
    ∙ ap (take N) (v.over over)
    ∙ whole
