-- ===== src/Collectives/AllgathervRing/Nodes.antt =====
-- What a rank of AllgathervRing.hpp knows of its buffers, kept by everything that can happen to the rank.
use gaspi_cxx.Common.{
  ℕ, ◌+◌, ◌-◌, ◌≤◌, ◌≡◌, ◌⊎◌, inl, inr, refl, sym, subst, true, false, List, ltb, leb, ◌==◌,
  if◌then◌else◌, ok, arith, Bool-cases, ℕ_discrete, dec_le,
}
use gaspi_cxx.Common.Families.{update}
use gaspi_cxx.Collectives.LowLevel.{same, State, Collective, start, trigger_progress}
use gaspi_cxx.Collectives.AllgathervRing.{
  Gather, implementation, start_impl, trigger_progress_impl, final_round, next_round,
}

-- The rank whose elements buffer `i` of rank `r` is for.
abbrev pub origin : ℕ → ℕ → ℕ → ℕ
origin n r i = if leb i r then r - i else r + n - i

module _ {T : Type 0} where
  -- A rank between the start and the end of a round, where `input k` are the elements of rank `k`.
  pub record Node (counts : ℕ → ℕ) (input : ℕ → List T) (n r : ℕ) (c : Collective (Gather T))
      : Type 0 where
    pub sizes : c.algorithm.counts ≡ counts
    pub ranks : c.algorithm.number_ranks ≡ n
    pub own : c.algorithm.rank ≡ r
    pub bound : c.algorithm.current_step + 1 ≤ n
    pub fresh : c.state ≡ State.ready → c.algorithm.current_step ≡ 0
    pub over : c.state ≡ State.finished → c.algorithm.current_step + 1 ≡ n
    pub held : (i : ℕ) → i ≤ c.algorithm.current_step → c.algorithm.buffers i ≡ input (origin n r i)
    pub sending :
        (i : ℕ) → c.algorithm.posted i ≡ true → (i ≤ c.algorithm.current_step) × (i + 2 ≤ n)
    pub came :
        (i : ℕ)
        → i + 2 ≤ n
        → c.algorithm.arrived i ≡ true
        → c.algorithm.buffers (i + 1) ≡ input (origin n r (i + 1))

module _ {T : Type 0} (counts : ℕ → ℕ) (input : ℕ → List T) (n : ℕ) (hn : 2 ≤ n) where
  pub starts-Node :
      (r : ℕ) (c c' : Collective (Gather T))
      → Node counts input n r c
      → start implementation c ≡ ok c'
      → Node counts input n r c'
  unfolding start start_impl
  starts-Node r c c' v e =
      let waits : c.state ≡ State.ready = ground arith in
      let zero_step = v.fresh waits in
      let many : ltb 1 c.algorithm.number_ranks ≡ true = ground (arith, v.ranks) in
      let now : c' ≡ record {
        state = State.running;
        algorithm = record c.algorithm {
          current_step = 0;
          posted = update c.algorithm.posted 0 true;
        };
      } =
        ground (arith, waits, many) in
      subst (Node counts input n r) (sym now) (record {
        sizes = v.sizes;
        ranks = v.ranks;
        own = v.own;
        bound = omega arith;
        fresh = λ s. refl;
        over = λ s. cc;
        held = λ i h. v.held i (omega arith);
        sending = λ i p. elim (ℕ_discrete i 0) [
          | yes first ↦ (omega arith, omega arith)
          | no later ↦
              let (low, room) = v.sending i (ground (arith, later, p)) in
              (omega (arith, low, zero_step), room)
        ];
        came = v.came;
      })

  -- The rank after a round that got its data.
  abbrev advanced : Gather T → Gather T
  advanced g =
      let i = g.current_step in
      let g' = record g { arrived = update g.arrived i false; current_step = i + 1 } in
      if i + 2 == n
      then record g' { ack_posted = update g.ack_posted i true }
      else record g' { posted = update g.posted (i + 1) true }

  progress_cases :
      (r : ℕ) (c : Collective (Gather T))
      → Node counts input n r c
      → let c' = (trigger_progress implementation true c).0 in
        (c' ≡ c)
        ⊎ (((c.algorithm.current_step + 1 ≡ n)
              × (c' ≡ record {
                state = State.finished;
                algorithm = record c.algorithm {
                  acked = update c.algorithm.acked (c.algorithm.current_step - 1) false;
                };
              }))
            ⊎ ((c.algorithm.arrived c.algorithm.current_step ≡ true)
                × (c.algorithm.current_step + 2 ≤ n)
                × (c' ≡ record { state = State.running; algorithm = advanced c.algorithm })))
  unfolding trigger_progress trigger_progress_impl final_round next_round
  progress_cases r c v =
      let s = c.algorithm.current_step in
      let many : (c.algorithm.number_ranks == 1) ≡ false = ground (arith, v.ranks) in
      elim (Bool-cases (same c.state State.running)) [
        | inr still ↦ inl (ground (arith, still))
        | inl runs ↦
            let state_eq : c.state ≡ State.running = ground (arith, runs) in
            elim (ℕ_discrete (s + 1) n) [
              | yes last ↦
                  let test : (s == c.algorithm.number_ranks - 1) ≡ true = ground (arith, v.ranks) in
                  elim (Bool-cases (c.algorithm.acked (s - 1))) [
                    | inl came ↦ inr (inl (last, ground (arith, runs, many, test, came)))
                    | inr waits ↦ inl (ground (arith, state_eq, many, test, waits))
                  ]
              | no inner ↦
                  let test : (s == c.algorithm.number_ranks - 1) ≡ false =
                    ground (arith, v.ranks, v.bound) in
                  let ends : (s + 1 == c.algorithm.number_ranks - 1) ≡ (s + 2 == n) =
                    ground (arith, v.ranks, v.bound) in
                  elim (Bool-cases (c.algorithm.arrived s)) [
                    | inl came ↦ inr (
                        inr (
                          came,
                          omega (arith, v.bound, inner),
                          ground (arith, runs, many, test, came, ends),
                        ))
                    | inr waits ↦ inl (ground (arith, state_eq, many, test, waits))
                  ]
            ]
      ]

  advanced-Node :
      (r : ℕ) (c : Collective (Gather T))
      → Node counts input n r c
      → c.algorithm.arrived c.algorithm.current_step ≡ true
      → c.algorithm.current_step + 2 ≤ n
      → Node counts input n r (record { state = State.running; algorithm = advanced c.algorithm })
  advanced-Node r c v arrives room =
      let s = c.algorithm.current_step in
      let held : (i : ℕ) → i ≤ s + 1 → c.algorithm.buffers i ≡ input (origin n r i) = λ i h.
        elim (dec_le i s) [
          | yes low ↦ v.held i low
          | no high ↦
              subst (λ k. c.algorithm.buffers k ≡ input (origin n r k)) (omega arith)
                (v.came s room arrives)
        ] in
      let came : (i : ℕ)
          → i + 2 ≤ n
          → update c.algorithm.arrived s false i ≡ true
          → c.algorithm.buffers (i + 1) ≡ input (origin n r (i + 1)) =
        λ i h a. v.came i h (ground (arith, a)) in
      elim (Bool-cases (s + 2 == n)) [
        | inl last ↦ rw last (record {
          sizes = v.sizes;
          ranks = v.ranks;
          own = v.own;
          bound = omega arith;
          fresh = λ h. cc;
          over = λ h. cc;
          held = held;
          sending = λ i p. let (low, fits) = v.sending i p in (omega (arith, low), fits);
          came = came;
        })
        | inr inner ↦ rw inner (record {
          sizes = v.sizes;
          ranks = v.ranks;
          own = v.own;
          bound = omega arith;
          fresh = λ h. cc;
          over = λ h. cc;
          held = held;
          sending = λ i p. elim (ℕ_discrete i (s + 1)) [
            | yes new ↦ (omega arith, ground (arith, inner, new, room))
            | no old ↦
                let (low, fits) = v.sending i (ground (arith, old, p)) in (omega (arith, low), fits)
          ];
          came = came;
        })
      ]

  pub progresses-Node :
      (r : ℕ) (c : Collective (Gather T))
      → Node counts input n r c
      → Node counts input n r (trigger_progress implementation true c).0
  progresses-Node r c v = elim (progress_cases r c v) [
    | inl still ↦ subst (Node counts input n r) (sym still) v
    | inr (inl (last, now)) ↦ subst (Node counts input n r) (sym now) (record {
      sizes = v.sizes;
      ranks = v.ranks;
      own = v.own;
      bound = v.bound;
      fresh = λ h. cc;
      over = λ h. last;
      held = v.held;
      sending = v.sending;
      came = v.came;
    })
    | inr (inr (arrives, room, now)) ↦
        subst (Node counts input n r) (sym now) (advanced-Node r c v arrives room)
  ]
