-- ===== src/Collectives/AllreduceRing/GatherMoves.antt =====
-- The edges of a rank of AllreduceRing.hpp under its round in the gather stage and its last round.
use gaspi_cxx.Common.{
  ℕ, ◌+◌, ◌-◌, ◌<◌, ◌≤◌, ◌≡◌, ◌≢◌, true, false, not, ◌&&◌, ◌||◌, ◌==◌, arith, ℕ_discrete, ap,
}
use gaspi_cxx.Group.Ring.Laws.{right}
use gaspi_cxx.Collectives.LowLevel.{State, Collective}
use gaspi_cxx.Collectives.AllreduceRing.{Ring}
use gaspi_cxx.Collectives.AllreduceRing.Hops.{
  distance, chunk_at, distance-lt, distance_injective, distance-chunk_at, chunk_at-lt,
  distance-right,
}
use gaspi_cxx.Collectives.AllreduceRing.Edges.{Out, In, outs, ins, Chunk, Link, Edge}
use gaspi_cxx.Collectives.AllreduceRing.Rounds.{gathered, acknowledged}

module _ {A : Type 0} (apply_reduce_op : A → A → A) (input : ℕ → ℕ → A) (n r : ℕ) (hn : 2 ≤ n)
    (hr : r < n) (c : Collective (Ring A)) (run : c.state ≡ State.running) where
  module _ (late : n ≤ c.algorithm.current_step + 1)
      (not_last : c.algorithm.current_step + 3 ≤ n + n)
      (came : c.algorithm.gather_arrived (chunk_at n r c.algorithm.current_step) ≡ true) where
    abbrev gathered_collective : Collective (Ring A)
    gathered_collective = record { state = State.running; algorithm = gathered n r c.algorithm }

    gathers-in-Link :
        (a : Out) (i : ℕ)
        → i < n
        → Edge apply_reduce_op input n r a (ins c)
        → Link apply_reduce_op input n (distance n i r) i a (ins gathered_collective)
    gathers-in-Link a i hi e =
        let k = chunk_at n r c.algorithm.current_step in
        let hk = chunk_at-lt n r c.algorithm.current_step hr (omega arith) in
        let dk = distance-chunk_at n r c.algorithm.current_step hr (omega arith) in
        let di = distance-lt n i r hi hr in
        let l = e.links i hi in
        elim (ℕ_discrete k i) [
          | yes same ↦ record {
            reduce_flight = ground (arith, l.reduce_flight, dk);
            reduce_once = l.reduce_once;
            reduce_value = l.reduce_value;
            gather_flight = ground (arith, l.gather_flight, l.gather_once, dk);
            gather_once = ground (arith, l.gather_once);
            gather_value = ground (arith, l.gather_value);
          }
          | no other ↦ record {
            reduce_flight = ground (arith, l.reduce_flight, di);
            reduce_once = l.reduce_once;
            reduce_value = l.reduce_value;
            gather_flight =
                ground (arith, l.gather_flight, dk, distance_injective n k i r hk hi hr);
            gather_once = ground (arith, l.gather_once);
            gather_value = ground (arith, l.gather_value);
          }
        ]

    gathers-in-Chunk :
        (a : Out) (i : ℕ)
        → i < n
        → Edge apply_reduce_op input n r a (ins c)
        → Chunk apply_reduce_op input n r i
            (distance n i r)
            (c.algorithm.current_step + 1)
            a.sent
            (c.algorithm.sources i)
    gathers-in-Chunk a i hi e =
        let k = chunk_at n r c.algorithm.current_step in
        let hk = chunk_at-lt n r c.algorithm.current_step hr (omega arith) in
        let dk = distance-chunk_at n r c.algorithm.current_step hr (omega arith) in
        let di = distance-lt n i r hi hr in
        let (raw, mid, done) = e.chunks i hi in
        let l = e.links i hi in
        (
          λ h. absurd (omega arith),
          λ h. mid (omega arith),
          λ h. elim (ℕ_discrete k i) [
            | yes same ↦ ground (arith, l.gather_value)
            | no other ↦
                let ne : distance n i r + n ≢ c.algorithm.current_step + 1 =
                  ground (arith, dk, distance_injective n k i r hk hi hr) in
                done (omega arith)
          ],
        )

    gathers-in-ack :
        (a : Out) (i : ℕ)
        → i < n
        → Edge apply_reduce_op input n r a (ins c)
        → ((gathered_collective.algorithm.ack_posted i || a.gather_acked i) ≡ (
            (i == chunk_at n r (n + n - 3))
            && (c.algorithm.current_step + 1 + 2 == n + n)
            && not a.over))
          × ((gathered_collective.algorithm.ack_posted i && a.gather_acked i) ≡ false)
    gathers-in-ack a i hi e = elim (ℕ_discrete (c.algorithm.current_step + 3) (n + n)) [
      | yes last ↦
          let s : c.algorithm.current_step ≡ n + n - 3 = omega arith in
          let k : chunk_at n r c.algorithm.current_step ≡ chunk_at n r (n + n - 3) =
            ap (chunk_at n r) s in
          (
            ground (arith, k, e.ack_flight i hi, e.over_after),
            ground (arith, k, e.ack_flight i hi, e.ack_once i hi),
          )
      | no more ↦ (ground (arith, e.ack_flight i hi), ground (arith, e.ack_once i hi))
    ]

    pub gathers-in :
        (a : Out)
        → Edge apply_reduce_op input n r a (ins c)
        → Edge apply_reduce_op input n r a (ins gathered_collective)
    gathers-in a e =
        let k = chunk_at n r c.algorithm.current_step in
        let hk = chunk_at-lt n r c.algorithm.current_step hr (omega arith) in
        let l = e.links k hk in
        record {
          order = ground (
            arith,
            l.gather_flight,
            distance-chunk_at n r c.algorithm.current_step hr (omega arith),
          );
          links = λ i hi. gathers-in-Link a i hi e;
          chunks = λ i hi. gathers-in-Chunk a i hi e;
          ack_flight = λ i hi. (gathers-in-ack a i hi e).0;
          ack_once = λ i hi. (gathers-in-ack a i hi e).1;
          over_after = λ o. absurd (omega (arith, e.over_after o));
        }

    gathers-out-Link :
        (b : In A) (i : ℕ)
        → i < n
        → Edge apply_reduce_op input n (right n r) (outs c) b
        → Link apply_reduce_op input n (distance n i (right n r)) i (outs gathered_collective) b
    gathers-out-Link b i hi e =
        let k = chunk_at n r c.algorithm.current_step in
        let hk = chunk_at-lt n r c.algorithm.current_step hr (omega arith) in
        let dk = distance-chunk_at n r c.algorithm.current_step hr (omega arith) in
        let dq = distance-right n i r hi hr in
        let di = distance-lt n i r hi hr in
        let l = e.links i hi in
        let inj = distance_injective n k i r hk hi hr in
        elim (ℕ_discrete k i) [
          | yes same ↦ record {
            reduce_flight = ground (arith, run, l.reduce_flight, dk, dq);
            reduce_once = l.reduce_once;
            reduce_value = l.reduce_value;
            gather_flight = ground (arith, run, e.order, l.gather_flight, l.gather_once, dk, dq);
            gather_once = ground (arith, run, e.order, l.gather_flight, l.gather_once, dk, dq);
            gather_value = l.gather_value;
          }
          | no other ↦
              let ne : distance n i r + n ≢ c.algorithm.current_step + 1 =
                ground (arith, dk, inj) in
              record {
                reduce_flight = ground (arith, run, di, l.reduce_flight, dq);
                reduce_once = l.reduce_once;
                reduce_value = l.reduce_value;
                gather_flight = ground (arith, run, ne, l.gather_flight, di, dq);
                gather_once = ground (arith, l.gather_once);
                gather_value = l.gather_value;
              }
        ]

    pub gathers-out :
        (b : In A)
        → Edge apply_reduce_op input n (right n r) (outs c) b
        → Edge apply_reduce_op input n (right n r) (outs gathered_collective) b
    gathers-out b e = record {
      order = ground (arith, run, e.order);
      links = λ i hi. gathers-out-Link b i hi e;
      chunks = λ i hi.
          let (raw, mid, done) = e.chunks i hi in (raw, λ h. ground (arith, run, mid h), done);
      ack_flight = λ i hi. ground (arith, run, e.ack_flight i hi);
      ack_once = e.ack_once;
      over_after = λ o. cc;
    }

  abbrev finished_collective : Collective (Ring A)
  finished_collective = record { state = State.finished; algorithm = acknowledged n r c.algorithm }

  pub finishes-out :
      (b : In A)
      → chunk_at n (right n r) (n + n - 3) < n
      → c.algorithm.gather_acked (chunk_at n (right n r) (n + n - 3)) ≡ true
      → Edge apply_reduce_op input n (right n r) (outs c) b
      → Edge apply_reduce_op input n (right n r) (outs finished_collective) b
  finishes-out b hk acked e = record {
    order = ground (arith, run, e.order);
    links = λ i hi.
        let l = e.links i hi in
        record {
          reduce_flight = ground (arith, run, l.reduce_flight);
          reduce_once = l.reduce_once;
          reduce_value = l.reduce_value;
          gather_flight = ground (arith, run, l.gather_flight);
          gather_once = l.gather_once;
          gather_value = l.gather_value;
        };
    chunks = λ i hi.
        let (raw, mid, done) = e.chunks i hi in (raw, λ h. ground (arith, run, mid h), done);
    ack_flight = λ i hi. ground (arith, acked, e.ack_flight i hi, e.ack_once i hi);
    ack_once = λ i hi. ground (arith, e.ack_once i hi);
    over_after = λ o. ground (arith, acked, e.ack_flight (chunk_at n (right n r) (n + n - 3)) hk);
  }
