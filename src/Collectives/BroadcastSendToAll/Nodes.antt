-- ===== src/Collectives/BroadcastSendToAll/Nodes.antt =====
-- What a rank of BroadcastSendToAll.hpp knows of its memory, kept by `start` and `triggerProgress`.
use gaspi_cxx.Common.{
  ℕ, ◌<◌, ◌≤◌, ◌≡◌, ◌≢◌, inl, inr, refl, sym, ap, subst, ◌∙◌, Bool, true, false, List, [], ◌∷◌,
  ◌==◌, ok, arith, ◌||◌, not, length, Bool-cases,
}
use gaspi_cxx.Common.Families.{update}
use gaspi_cxx.Collectives.LowLevel.{same, State, Collective, start, trigger_progress}
use gaspi_cxx.Collectives.BroadcastSendToAll.Destinations.{Others, init_transfers_lem}
use gaspi_cxx.Collectives.BroadcastSendToAll.{
  Cast, implementation, init_transfers, check_transfer_ack, check_transfer_acks, start_impl,
  trigger_progress_impl,
}

-- A rank between the start and the end of a round, where `input` are the elements of the root.
pub record Node {T : Type 0} (input : List T) (n root r : ℕ) (c : Collective (Cast T))
    : Type 0 where
  pub own : c.algorithm.rank ≡ r
  pub ranks : c.algorithm.number_ranks ≡ n
  pub elements : c.algorithm.number_elements ≡ length input
  pub where_root : c.algorithm.root ≡ root
  pub targets : Others n root c.algorithm.destinations
  pub source : r ≡ root → c.algorithm.memory ≡ input
  pub came : c.algorithm.arrived ≡ true → c.algorithm.memory ≡ input
  pub over : c.state ≡ State.finished → c.algorithm.memory ≡ input
  pub sending : (d : ℕ) → c.algorithm.posted d ≡ true → (d < n) × (d ≢ root)

-- What the acknowledgements leave alone.
abbrev Kept : {T : Type 0} → Cast T → Cast T → Type 0
Kept g g' =
    (g'.rank ≡ g.rank)
    × (g'.root ≡ g.root)
    × (g'.destinations ≡ g.destinations)
    × (g'.memory ≡ g.memory)
    × (g'.arrived ≡ g.arrived)
    × (g'.posted ≡ g.posted)
    × (g'.number_ranks ≡ g.number_ranks)
    × (g'.number_elements ≡ g.number_elements)

check_acks_lem : {T : Type 0} (ds : List ℕ) (g : Cast T) → Kept g (check_transfer_acks ds g)
check_acks_lem [] g = (refl, refl, refl, refl, refl, refl, refl, refl)
check_acks_lem (d ∷ ds) g =
    let one : Kept g (check_transfer_ack d g) = elim (Bool-cases (g.acked d)) [
      | inl came ↦ rw came (refl, refl, refl, refl, refl, refl, refl, refl)
      | inr waits ↦ rw waits (refl, refl, refl, refl, refl, refl, refl, refl)
    ] in
    let all = check_acks_lem ds (check_transfer_ack d g) in
    (
      all.0 ∙ one.0,
      all.1 ∙ one.1,
      all.2 ∙ one.2,
      all.3 ∙ one.3,
      all.4 ∙ one.4,
      all.5 ∙ one.5,
      all.6 ∙ one.6,
      all.7 ∙ one.7,
    )

module _ {T : Type 0} (input : List T) (n root : ℕ) (hn : 2 ≤ n) (r : ℕ) (c : Collective (Cast T))
    (v : Node input n root r c) where
  pub starts-Node :
      (c' : Collective (Cast T)) → start implementation c ≡ ok c' → Node input n root r c'
  unfolding start start_impl
  starts-Node c' e =
      let g = c.algorithm in
      elim (Bool-cases (g.number_ranks == 1 || not (g.rank == g.root))) [
        | inl idle ↦
            let now : c' ≡ record { state = State.running; algorithm = g } =
              ground (arith, e, idle) in
            subst (Node input n root r) (sym now) (record {
              own = v.own;
              ranks = v.ranks;
              elements = v.elements;
              where_root = v.where_root;
              targets = v.targets;
              source = v.source;
              came = v.came;
              over = λ h. cc;
              sending = v.sending;
            })
        | inr sends ↦
            let now : c' ≡ record {
              state = State.running;
              algorithm = record g {
                posted = init_transfers g.destinations g.posted;
                transfers_in_progress = length g.destinations;
              };
            } =
              ground (arith, e, sends) in
            subst (Node input n root r) (sym now) (record {
              own = v.own;
              ranks = v.ranks;
              elements = v.elements;
              where_root = v.where_root;
              targets = v.targets;
              source = v.source;
              came = v.came;
              over = λ h. cc;
              sending =
                  λ d p. init_transfers_lem n root g.destinations g.posted d v.targets v.sending p;
            })
      ]

  -- The root after its tests for acknowledgements.
  acks-Node :
      (st : State)
      → r ≡ root
      → Node input n root r (record {
        state = st;
        algorithm = check_transfer_acks c.algorithm.destinations c.algorithm;
      })
  acks-Node st here =
      let k = check_acks_lem c.algorithm.destinations c.algorithm in
      let mine = v.source here in
      record {
        own = k.0 ∙ v.own;
        ranks = k.6 ∙ v.ranks;
        elements = k.7 ∙ v.elements;
        where_root = k.1 ∙ v.where_root;
        targets = subst (Others n root) (sym k.2) v.targets;
        source = λ h. k.3 ∙ mine;
        came = λ h. k.3 ∙ mine;
        over = λ h. k.3 ∙ mine;
        sending = λ d p. v.sending d (sym (ap (λ f. f d) k.5) ∙ p);
      }

  pub progresses-Node : Node input n root r (trigger_progress implementation true c).0
  unfolding trigger_progress trigger_progress_impl
  progresses-Node =
      let g = c.algorithm in
      let many : (g.number_ranks == 1) ≡ false = ground (arith, v.ranks, hn) in
      elim (Bool-cases (same c.state State.running)) [
        | inr still ↦ rw still v
        | inl runs ↦
            let state_eq : c.state ≡ State.running = ground (arith, runs) in
            elim (Bool-cases (g.rank == g.root)) [
              | inl at_root ↦
                  let here : r ≡ root = ground (arith, at_root, v.own, v.where_root) in
                  elim (Bool-cases
                    ((check_transfer_acks g.destinations g).transfers_in_progress == 0)) [
                      | inl all ↦ rw (runs, many, at_root, all) (acks-Node State.finished here)
                      | inr some_left ↦
                          rw (runs, many, at_root, some_left) (acks-Node State.running here)
                    ]
              | inr leaf ↦ elim (Bool-cases g.arrived) [
                | inl arrives ↦
                    rw (runs, many, leaf, arrives)
                      (record {
                        own = v.own;
                        ranks = v.ranks;
                        elements = v.elements;
                        where_root = v.where_root;
                        targets = v.targets;
                        source = v.source;
                        came = λ h. cc;
                        over = λ h. v.came arrives;
                        sending = v.sending;
                      })
                | inr waits ↦
                    let now : (trigger_progress implementation true c).0 ≡ c =
                      ground (arith, state_eq, many, leaf, waits) in
                    subst (Node input n root r) (sym now) v
              ]
            ]
      ]

  -- A write of the root's elements comes, with or without its notification.
  pub comes-Node :
      (arrived : Bool)
      → (xs : List T) → xs ≡ input
      → Node input n root r (record {
        state = c.state;
        algorithm = record c.algorithm { memory = xs; arrived = arrived };
      })
  comes-Node arrived xs e = record {
    own = v.own;
    ranks = v.ranks;
    elements = v.elements;
    where_root = v.where_root;
    targets = v.targets;
    source = λ h. e;
    came = λ h. e;
    over = λ h. e;
    sending = v.sending;
  }

  pub flags-Node :
      (acked : ℕ → Bool) (ack_posted : Bool)
      → Node input n root r (record {
        state = c.state;
        algorithm = record c.algorithm { acked = acked; ack_posted = ack_posted };
      })
  flags-Node acked ack_posted = record {
    own = v.own;
    ranks = v.ranks;
    elements = v.elements;
    where_root = v.where_root;
    targets = v.targets;
    source = v.source;
    came = v.came;
    over = v.over;
    sending = v.sending;
  }

  pub cleared-Node :
      (d : ℕ)
      → Node input n root r (record {
        state = c.state;
        algorithm = record c.algorithm { posted = update c.algorithm.posted d false };
      })
  cleared-Node d = record {
    own = v.own;
    ranks = v.ranks;
    elements = v.elements;
    where_root = v.where_root;
    targets = v.targets;
    source = v.source;
    came = v.came;
    over = v.over;
    sending = λ e p. v.sending e (ground (arith, p));
  }
