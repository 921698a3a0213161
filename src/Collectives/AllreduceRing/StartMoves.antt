-- ===== src/Collectives/AllreduceRing/StartMoves.antt =====
-- The edge from a rank of AllreduceRing.hpp to its right neighbor under `startImpl`.
use gaspi_cxx.Common.{ℕ, ◌<◌, ◌≤◌, ◌≡◌, ◌≢◌, true, arith, ℕ_discrete}
use gaspi_cxx.Common.Families.{update}
use gaspi_cxx.Group.Ring.Laws.{right, left}
use gaspi_cxx.Collectives.LowLevel.{State, Collective}
use gaspi_cxx.Collectives.AllreduceRing.{Ring}
use gaspi_cxx.Collectives.AllreduceRing.Hops.{
  distance, distance-lt, distance_injective, distance-right, distance_self,
}
use gaspi_cxx.Collectives.AllreduceRing.Edges.{In, outs, Link, Edge}

module _ {A : Type 0} (apply_reduce_op : A → A → A) (input : ℕ → ℕ → A) (n r : ℕ) (hn : 2 ≤ n)
    (hr : r < n) (c : Collective (Ring A)) (wait : c.state ≡ State.ready)
    (fresh : c.algorithm.current_step ≡ 0) where
  abbrev pub started_collective : Collective (Ring A)
  started_collective = record {
    state = State.running;
    algorithm = record c.algorithm {
      current_step = 0;
      current_index = record { index = left n r; size = n };
      reduce_posted = update c.algorithm.reduce_posted r true;
    };
  }

  starts-out-Link :
      (b : In A) (i : ℕ)
      → i < n
      → Edge apply_reduce_op input n (right n r) (outs c) b
      → Link apply_reduce_op input n (distance n i (right n r)) i (outs started_collective) b
  starts-out-Link b i hi e =
      let l = e.links i hi in
      let dq = distance-right n i r hi hr in
      let di = distance-lt n i r hi hr in
      let dr = distance_self n r hr in
      let inj = distance_injective n i r r hi hr hr in
      elim (ℕ_discrete r i) [
        | yes same ↦ record {
          reduce_flight = ground (arith, wait, e.order, l.reduce_flight, dq, dr);
          reduce_once = ground (arith, wait, l.reduce_flight);
          reduce_value = l.reduce_value;
          gather_flight = ground (arith, wait, l.gather_flight);
          gather_once = l.gather_once;
          gather_value = l.gather_value;
        }
        | no other ↦
            let ne : distance n i r ≢ 0 = ground (arith, inj, dr) in
            record {
              reduce_flight = ground (arith, wait, ne, l.reduce_flight, dq);
              reduce_once = ground (arith, l.reduce_once);
              reduce_value = l.reduce_value;
              gather_flight = ground (arith, wait, l.gather_flight);
              gather_once = l.gather_once;
              gather_value = l.gather_value;
            }
      ]

  pub starts-out :
      (b : In A)
      → Edge apply_reduce_op input n (right n r) (outs c) b
      → Edge apply_reduce_op input n (right n r) (outs started_collective) b
  starts-out b e = record {
    order = ground (arith, wait, e.order);
    links = λ i hi. starts-out-Link b i hi e;
    chunks = λ i hi.
        let (raw, mid, done) = e.chunks i hi in (raw, λ h. ground (arith, wait, mid h), done);
    ack_flight = λ i hi. ground (arith, wait, e.ack_flight i hi);
    ack_once = e.ack_once;
    over_after = λ o. cc;
  }
