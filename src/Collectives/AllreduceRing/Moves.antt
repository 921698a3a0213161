-- ===== src/Collectives/AllreduceRing/Moves.antt =====
-- The edges of a rank of AllreduceRing.hpp under its round in the reduce stage.
use gaspi_cxx.Common.{ℕ, ◌+◌, ◌<◌, ◌≤◌, ◌≡◌, ◌≢◌, inl, true, arith, ℕ_discrete}
use gaspi_cxx.Group.Ring.Laws.{right}
use gaspi_cxx.Collectives.LowLevel.{State, Collective}
use gaspi_cxx.Collectives.AllreduceRing.{Ring}
use gaspi_cxx.Collectives.AllreduceRing.Hops.{
  distance, chunk_at, distance-lt, distance_injective, distance-chunk_at, chunk_at-lt,
  distance-right, partial-distance,
}
use gaspi_cxx.Collectives.AllreduceRing.Edges.{Out, In, outs, ins, Chunk, Link, Edge}
use gaspi_cxx.Collectives.AllreduceRing.Rounds.{reduced}

module _ {A : Type 0} (apply_reduce_op : A → A → A) (input : ℕ → ℕ → A) (n r : ℕ) (hn : 2 ≤ n)
    (hr : r < n) (c : Collective (Ring A)) (run : c.state ≡ State.running) where
  module _ (early : c.algorithm.current_step + 2 ≤ n)
      (came : c.algorithm.reduce_arrived (chunk_at n r c.algorithm.current_step) ≡ true) where
    abbrev reduced_collective : Collective (Ring A)
    reduced_collective = record {
      state = State.running;
      algorithm = reduced apply_reduce_op n r c.algorithm;
    }

    reduces-in-Link :
        (a : Out) (i : ℕ)
        → i < n
        → a.sent ≤ c.algorithm.current_step + n
        → Edge apply_reduce_op input n r a (ins c)
        → Link apply_reduce_op input n (distance n i r) i a (ins reduced_collective)
    reduces-in-Link a i hi near e =
        let k = chunk_at n r c.algorithm.current_step in
        let hk = chunk_at-lt n r c.algorithm.current_step hr (omega arith) in
        let dk = distance-chunk_at n r c.algorithm.current_step hr (omega arith) in
        let l = e.links i hi in
        elim (ℕ_discrete k i) [
          | yes same ↦ record {
            reduce_flight = ground (arith, l.reduce_flight, l.reduce_once, dk);
            reduce_once = ground (arith, l.reduce_once);
            reduce_value = ground (arith, l.reduce_value);
            gather_flight = ground (arith, l.gather_flight, dk);
            gather_once = l.gather_once;
            gather_value = ground (arith, l.gather_flight, dk);
          }
          | no other ↦ record {
            reduce_flight =
                ground
                  (arith, l.reduce_flight, l.reduce_once, dk, distance_injective n k i r hk hi hr);
            reduce_once = ground (arith, l.reduce_once);
            reduce_value = ground (arith, l.reduce_value);
            gather_flight = ground (arith, l.gather_flight, dk);
            gather_once = l.gather_once;
            gather_value = ground (arith, l.gather_value);
          }
        ]

    reduces-in-Chunk :
        (a : Out) (i : ℕ)
        → i < n
        → Edge apply_reduce_op input n r a (ins c)
        → Chunk apply_reduce_op input n r i
            (distance n i r)
            (c.algorithm.current_step + 1)
            a.sent
            (reduced_collective.algorithm.sources i)
    reduces-in-Chunk a i hi e =
        let k = chunk_at n r c.algorithm.current_step in
        let hk = chunk_at-lt n r c.algorithm.current_step hr (omega arith) in
        let dk = distance-chunk_at n r c.algorithm.current_step hr (omega arith) in
        let (raw, mid, done) = e.chunks i hi in
        let di = distance-lt n i r hi hr in
        let l = e.links i hi in
        elim (ℕ_discrete k i) [
          | yes same ↦ (
            λ h. absurd (ground arith),
            λ h. inl (
                ground (
                  arith,
                  raw,
                  l.reduce_value,
                  partial-distance n apply_reduce_op input i r c.algorithm.current_step hi hr,
                )),
            λ h. absurd (ground arith),
          )
          | no other ↦
              let ne : distance n i r ≢ c.algorithm.current_step + 1 =
                ground (arith, distance_injective n k i r hk hi hr) in
              (
                λ h. ground (arith, raw (omega arith)),
                λ h. ground (arith, mid (omega arith)),
                λ h. absurd (omega arith),
              )
        ]

    pub reduces-in :
        (a : Out)
        → a.sent ≤ c.algorithm.current_step + n
        → Edge apply_reduce_op input n r a (ins c)
        → Edge apply_reduce_op input n r a (ins reduced_collective)
    reduces-in a near e =
        let k = chunk_at n r c.algorithm.current_step in
        let hk = chunk_at-lt n r c.algorithm.current_step hr (omega arith) in
        let l = e.links k hk in
        record {
          order = ground (
            arith,
            l.reduce_flight,
            distance-chunk_at n r c.algorithm.current_step hr (omega arith),
          );
          links = λ i hi. reduces-in-Link a i hi near e;
          chunks = λ i hi. reduces-in-Chunk a i hi e;
          ack_flight = λ i hi. ground (arith, e.ack_flight i hi);
          ack_once = e.ack_once;
          over_after = λ o. absurd (omega (arith, e.over_after o));
        }

    reduces-out-Link :
        (b : In A) (i : ℕ)
        → i < n
        → Edge apply_reduce_op input n (right n r) (outs c) b
        → Link apply_reduce_op input n (distance n i (right n r)) i (outs reduced_collective) b
    reduces-out-Link b i hi e =
        let k = chunk_at n r c.algorithm.current_step in
        let hk = chunk_at-lt n r c.algorithm.current_step hr (omega arith) in
        let dk = distance-chunk_at n r c.algorithm.current_step hr (omega arith) in
        let dq = distance-right n i r hi hr in
        let di = distance-lt n i r hi hr in
        let l = e.links i hi in
        let inj = distance_injective n k i r hk hi hr in
        elim (ℕ_discrete k i) [
          | yes same ↦ record {
            reduce_flight = ground (arith, run, e.order, l.reduce_flight, l.reduce_once, dk, dq);
            reduce_once = ground (arith, run, e.order, l.reduce_flight, l.reduce_once, dk, dq);
            reduce_value = l.reduce_value;
            gather_flight = ground (arith, run, e.order, l.gather_flight, l.gather_once, dk, dq);
            gather_once = ground (arith, run, e.order, l.gather_flight, l.gather_once, dk, dq);
            gather_value = l.gather_value;
          }
          | no other ↦
              let ne : distance n i r ≢ c.algorithm.current_step + 1 = ground (arith, inj) in
              record {
                reduce_flight = ground (arith, run, ne, l.reduce_flight, dq);
                reduce_once = ground (arith, l.reduce_once);
                reduce_value = l.reduce_value;
                gather_flight = ground (arith, run, ne, l.gather_flight, dq);
                gather_once = ground (arith, l.gather_once);
                gather_value = l.gather_value;
              }
        ]

    pub reduces-out :
        (b : In A)
        → Edge apply_reduce_op input n (right n r) (outs c) b
        → Edge apply_reduce_op input n (right n r) (outs reduced_collective) b
    reduces-out b e = record {
      order = ground (arith, run, e.order);
      links = λ i hi. reduces-out-Link b i hi e;
      chunks = λ i hi.
          let (raw, mid, done) = e.chunks i hi in (raw, λ h. ground (arith, run, mid h), done);
      ack_flight = λ i hi. ground (arith, run, e.ack_flight i hi);
      ack_once = e.ack_once;
      over_after = λ o. cc;
    }
