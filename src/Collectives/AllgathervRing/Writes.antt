-- ===== src/Collectives/AllgathervRing/Writes.antt =====
-- Writes, notifications and acknowledgements that come to a rank of AllgathervRing.hpp.
use gaspi_cxx.Common.{ℕ, ◌+◌, ◌≤◌, ◌≡◌, subst, Bool, false, List, arith, ℕ_discrete}
use gaspi_cxx.Common.Families.{update}
use gaspi_cxx.Collectives.LowLevel.{Collective}
use gaspi_cxx.Collectives.AllgathervRing.{Gather}
use gaspi_cxx.Collectives.AllgathervRing.Network.{put, put_notify}
use gaspi_cxx.Collectives.AllgathervRing.Nodes.{origin, Node}

module _ {T : Type 0} (counts : ℕ → ℕ) (input : ℕ → List T) (n : ℕ) (hn : 2 ≤ n) where
  -- Another write of a buffer that has its right value, or gets it for the first time.
  pub put-Node :
      (r i : ℕ) (xs : List T) (c : Collective (Gather T))
      → Node counts input n r c
      → xs ≡ input (origin n r (i + 1))
      → Node counts input n r (record { state = c.state; algorithm = put i xs c.algorithm })
  put-Node r i xs c v e = record {
    sizes = v.sizes;
    ranks = v.ranks;
    own = v.own;
    bound = v.bound;
    fresh = v.fresh;
    over = v.over;
    held = λ k h. elim (ℕ_discrete (i + 1) k) [
      | yes eq ↦
          subst (λ j. update c.algorithm.buffers (i + 1) xs j ≡ input (origin n r j)) eq
            (ground (arith, e))
      | no ne ↦ ground (arith, ne, v.held k h)
    ];
    sending = v.sending;
    came = λ k h a. elim (ℕ_discrete i k) [
      | yes eq ↦
          subst (λ j. update c.algorithm.buffers (i + 1) xs (j + 1) ≡ input (origin n r (j + 1))) eq
            (ground (arith, e))
      | no ne ↦ ground (arith, ne, v.came k h a)
    ];
  }

  pub notify-Node :
      (r i : ℕ) (xs : List T) (c : Collective (Gather T))
      → Node counts input n r c
      → xs ≡ input (origin n r (i + 1))
      → Node counts input n r (record { state = c.state; algorithm = put_notify i xs c.algorithm })
  notify-Node r i xs c v e =
      let v' = put-Node r i xs c v e in
      record {
        sizes = v.sizes;
        ranks = v.ranks;
        own = v.own;
        bound = v.bound;
        fresh = v.fresh;
        over = v.over;
        held = v'.held;
        sending = v.sending;
        came = λ k h a. elim (ℕ_discrete i k) [
          | yes eq ↦
              subst
                (λ j. update c.algorithm.buffers (i + 1) xs (j + 1) ≡ input (origin n r (j + 1))) eq
                (ground (arith, e))
          | no ne ↦ v'.came k h (ground (arith, ne, a))
        ];
      }

  pub cleared-Node :
      (r i : ℕ) (c : Collective (Gather T))
      → Node counts input n r c
      → Node counts input n r (record {
        state = c.state;
        algorithm = record c.algorithm { posted = update c.algorithm.posted i false };
      })
  cleared-Node r i c v = record {
    sizes = v.sizes;
    ranks = v.ranks;
    own = v.own;
    bound = v.bound;
    fresh = v.fresh;
    over = v.over;
    held = v.held;
    sending = λ k p. v.sending k (ground (arith, p));
    came = v.came;
  }

  pub acked-Node :
      (r : ℕ) (acked : ℕ → Bool) (c : Collective (Gather T))
      → Node counts input n r c
      → Node counts input n r
          (record { state = c.state; algorithm = record c.algorithm { acked = acked } })
  acked-Node r acked c v = record {
    sizes = v.sizes;
    ranks = v.ranks;
    own = v.own;
    bound = v.bound;
    fresh = v.fresh;
    over = v.over;
    held = v.held;
    sending = v.sending;
    came = v.came;
  }

  pub ack_sent-Node :
      (r : ℕ) (ack_posted : ℕ → Bool) (c : Collective (Gather T))
      → Node counts input n r c
      → Node counts input n r
          (record { state = c.state; algorithm = record c.algorithm { ack_posted = ack_posted } })
  ack_sent-Node r ack_posted c v = record {
    sizes = v.sizes;
    ranks = v.ranks;
    own = v.own;
    bound = v.bound;
    fresh = v.fresh;
    over = v.over;
    held = v.held;
    sending = v.sending;
    came = v.came;
  }
