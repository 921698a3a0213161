-- ===== src/Collectives/AllreduceRing/Deliveries.antt =====
-- An edge of the ring of AllreduceRing.hpp under a transfer that travels along it.
use gaspi_cxx.Common.{ℕ, ◌+◌, ◌-◌, ◌<◌, ◌≤◌, ◌≡◌, inl, inr, true, false, arith, ℕ_discrete, subst}
use gaspi_cxx.Common.Families.{update}
use gaspi_cxx.Group.Ring.Laws.{right}
use gaspi_cxx.Collectives.AllreduceRing.Hops.{distance, distance-lt, distance-right, partial, total}
use gaspi_cxx.Collectives.AllreduceRing.Edges.{Out, In, Edge, Chunk}

-- The two sides of an edge after a delivery.
abbrev pub reduce_sent : ℕ → Out → Out
reduce_sent i a = record a { reduce_posted = update a.reduce_posted i false }

abbrev pub gather_sent : ℕ → Out → Out
gather_sent i a = record a { gather_posted = update a.gather_posted i false }

abbrev pub ack_came : ℕ → Out → Out
ack_came i a = record a { gather_acked = update a.gather_acked i true }

module _ {A : Type 0} where
  abbrev pub reduce_came : ℕ → A → In A → In A
  reduce_came i x b = record b {
    targets = update b.targets i x;
    reduce_arrived = update b.reduce_arrived i true;
  }

  abbrev pub gather_came : ℕ → A → In A → In A
  gather_came i x b = record b {
    sources = update b.sources i x;
    gather_arrived = update b.gather_arrived i true;
  }

  abbrev pub ack_sent : ℕ → In A → In A
  ack_sent i b = record b { ack_posted = update b.ack_posted i false }

module _ {A : Type 0} (apply_reduce_op : A → A → A) (input : ℕ → ℕ → A) (n r : ℕ) (hn : 2 ≤ n)
    (hr : r < n) (a : Out) (b : In A) (i : ℕ) (hi : i < n)
    (e : Edge apply_reduce_op input n (right n r) a b) where
  module _ (step sent : ℕ) (x : A) (near : a.sent ≤ step + 1) (far : sent + 1 ≤ b.step + n)
      (chunk : Chunk apply_reduce_op input n r i (distance n i r) step sent x) where
    -- The value of a chunk that is on its way in the reduce stage.
    reduce_chunk :
        a.reduce_posted i ≡ true
        → x ≡ partial n apply_reduce_op input i (distance n i (right n r) - 1)
    reduce_chunk posted =
        let l = e.links i hi in
        let flight = l.reduce_flight in
        let dq = distance-right n i r hi hr in
        let (raw, mid, done) = chunk in
        let d : distance n i (right n r) ≡ distance n i r + 1 =
          ground (arith, flight, posted, dq) in
        let bounds : (distance n i r ≤ step) × (b.step < distance n i r + 1) =
          ground (arith, flight, posted, d, near) in
        rw d (elim (mid bounds.0) [
          | inl eq ↦ ground (arith, eq)
          | inr (_, late) ↦ absurd (omega (arith, far, late, bounds.1))
        ])

    -- The value of a chunk that is on its way in the gather stage.
    gather_chunk : a.gather_posted i ≡ true → x ≡ total n apply_reduce_op input i
    gather_chunk posted =
        let l = e.links i hi in
        let flight = l.gather_flight in
        let dq = distance-right n i r hi hr in
        let dr = distance-lt n i r hi hr in
        let (raw, mid, done) = chunk in
        elim (ℕ_discrete (distance n i r + 1) n) [
          | yes last ↦
              let early : distance n i r ≤ step = ground (arith, flight, posted, dq, near) in
              let d : distance n i r ≡ n - 1 = omega arith in
              elim (mid early) [
                | inl eq ↦ subst (λ k. x ≡ partial n apply_reduce_op input i k) d eq
                | inr (eq, _) ↦ eq
              ]
          | no inner ↦ done (ground (arith, flight, posted, dq, near))
        ]

    pub reduce_data-Edge :
        a.reduce_posted i ≡ true
        → Edge apply_reduce_op input n (right n r) a (record b { targets = update b.targets i x })
    reduce_data-Edge posted = record {
      order = e.order;
      links = λ j hj.
          let l = e.links j hj in
          record {
            reduce_flight = l.reduce_flight;
            reduce_once = l.reduce_once;
            reduce_value = ground (arith, l.reduce_value, l.reduce_once, posted);
            gather_flight = l.gather_flight;
            gather_once = l.gather_once;
            gather_value = l.gather_value;
          };
      chunks = e.chunks;
      ack_flight = e.ack_flight;
      ack_once = e.ack_once;
      over_after = e.over_after;
    }

    pub reduce_completes-Edge :
        a.reduce_posted i ≡ true
        → Edge apply_reduce_op input n (right n r) (reduce_sent i a) (reduce_came i x b)
    reduce_completes-Edge posted = record {
      order = e.order;
      links = λ j hj.
          let l = e.links j hj in
          let value = reduce_chunk posted in
          record {
            reduce_flight = ground (arith, l.reduce_flight, posted);
            reduce_once = ground (arith, l.reduce_once, posted);
            reduce_value = elim (ℕ_discrete i j) [
              | yes same ↦ λ _. ground (
                arith,
                subst (λ k. x ≡ partial n apply_reduce_op input k (distance n k (right n r) - 1))
                    same value,
              )
              | no other ↦ ground (arith, l.reduce_value)
            ];
            gather_flight = l.gather_flight;
            gather_once = l.gather_once;
            gather_value = l.gather_value;
          };
      chunks = e.chunks;
      ack_flight = e.ack_flight;
      ack_once = e.ack_once;
      over_after = e.over_after;
    }

    gather_chunks :
        a.gather_posted i ≡ true
        → (within : a.sent ≤ b.step + n) → (j : ℕ) → j < n
        → Chunk apply_reduce_op input n
            (right n r)
            j
            (distance n j (right n r))
            b.step
            a.sent
            (update b.sources i x j)
    gather_chunks posted within j hj =
        let l = e.links j hj in
        let (raw, mid, done) = e.chunks j hj in
        elim (ℕ_discrete i j) [
          | yes same ↦
              let value =
                subst (λ k. x ≡ total n apply_reduce_op input k) same (gather_chunk posted) in
              let now : update b.sources i x j ≡ x = ground arith in
              let late : distance n j (right n r) + n ≤ a.sent =
                ground (arith, l.gather_flight, posted) in
              (λ h. absurd (omega arith), λ h. inr (ground arith, late), λ h. ground arith)
          | no other ↦
              let now : update b.sources i x j ≡ b.sources j = ground arith in
              (λ h. ground (arith, raw h), λ h. ground (arith, mid h), λ h. ground (arith, done h))
        ]

    pub gather_data-Edge :
        a.gather_posted i ≡ true
        → a.sent ≤ b.step + n
        → Edge apply_reduce_op input n (right n r) a (record b { sources = update b.sources i x })
    gather_data-Edge posted within = record {
      order = e.order;
      links = λ j hj.
          let l = e.links j hj in
          record {
            reduce_flight = l.reduce_flight;
            reduce_once = l.reduce_once;
            reduce_value = l.reduce_value;
            gather_flight = l.gather_flight;
            gather_once = l.gather_once;
            gather_value = ground (arith, l.gather_value, l.gather_once, posted);
          };
      chunks = gather_chunks posted within;
      ack_flight = e.ack_flight;
      ack_once = e.ack_once;
      over_after = e.over_after;
    }

    pub gather_completes-Edge :
        a.gather_posted i ≡ true
        → a.sent ≤ b.step + n
        → Edge apply_reduce_op input n (right n r) (gather_sent i a) (gather_came i x b)
    gather_completes-Edge posted within = record {
      order = e.order;
      links = λ j hj.
          let l = e.links j hj in
          let value = gather_chunk posted in
          record {
            reduce_flight = l.reduce_flight;
            reduce_once = l.reduce_once;
            reduce_value = l.reduce_value;
            gather_flight = ground (arith, l.gather_flight, posted);
            gather_once = ground (arith, l.gather_once, posted);
            gather_value = elim (ℕ_discrete i j) [
              | yes same ↦
                  λ _. ground (arith, subst (λ k. x ≡ total n apply_reduce_op input k) same value)
              | no other ↦ ground (arith, l.gather_value)
            ];
          };
      chunks = gather_chunks posted within;
      ack_flight = e.ack_flight;
      ack_once = e.ack_once;
      over_after = e.over_after;
    }

  pub ack_completes-Edge :
      b.ack_posted i ≡ true → Edge apply_reduce_op input n (right n r) (ack_came i a) (ack_sent i b)
  ack_completes-Edge posted = record {
    order = e.order;
    links = λ j hj.
        let l = e.links j hj in
        record {
          reduce_flight = l.reduce_flight;
          reduce_once = l.reduce_once;
          reduce_value = l.reduce_value;
          gather_flight = l.gather_flight;
          gather_once = l.gather_once;
          gather_value = l.gather_value;
        };
    chunks = e.chunks;
    ack_flight = λ j hj. ground (arith, e.ack_flight j hj, posted);
    ack_once = λ j hj. ground (arith, e.ack_once j hj, posted);
    over_after = e.over_after;
  }
