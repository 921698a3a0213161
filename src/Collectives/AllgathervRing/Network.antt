-- ===== src/Collectives/AllgathervRing/Network.antt =====
-- The ranks of AllgathervRing.hpp at work together, in any order, with transfers that arrive at any time. A write with notification may bring its data early, and more than once.
use gaspi_cxx.Common.{ℕ, ◌+◌, ◌<◌, ◌≡◌, true, false, List, ok}
use gaspi_cxx.Common.Families.{update}
use gaspi_cxx.Group.Ring.{increment_rank_on_ring, decrement_rank_on_ring}
use gaspi_cxx.Collectives.LowLevel.{Collective, start, trigger_progress}
use gaspi_cxx.Collectives.AllgathervRing.{Gather, implementation}

abbrev pub Net : Type 0 → Type 0
Net T = ℕ → Collective (Gather T)

module _ {T : Type 0} where
  abbrev pub at_rank : Net T → ℕ → (Gather T → Gather T) → Net T
  at_rank w r f = update w r (record { state = (w r).state; algorithm = f (w r).algorithm })

  abbrev pub put : ℕ → List T → Gather T → Gather T
  put i xs g = record g { buffers = update g.buffers (i + 1) xs }

  abbrev pub put_notify : ℕ → List T → Gather T → Gather T
  put_notify i xs g = record g {
    buffers = update g.buffers (i + 1) xs;
    arrived = update g.arrived i true;
  }

  -- The steps of `n` ranks. Source `i` of a rank is connected to target `i` of its right neighbor.
  pub data Step (n : ℕ) (w : Net T) : Net T → Type 0 where
    starts :
        {c : Collective (Gather T)} (r : ℕ)
        → r < n
        → start implementation (w r) ≡ ok c
        → Step n w (update w r c)
    progresses :
        (r : ℕ) → r < n → Step n w (update w r (trigger_progress implementation true (w r)).0)
    data_comes :
        (r i : ℕ)
        → r < n
        → (w r).algorithm.posted i ≡ true
        → Step n w (at_rank w (increment_rank_on_ring r n) (put i ((w r).algorithm.buffers i)))
    completes :
        (r i : ℕ)
        → r < n
        → (w r).algorithm.posted i ≡ true
        → Step n w (
            at_rank
              (at_rank w r (λ g. record g { posted = update g.posted i false }))
              (increment_rank_on_ring r n)
              (put_notify i ((w r).algorithm.buffers i)))
    ack_completes :
        (r i : ℕ)
        → r < n
        → (w r).algorithm.ack_posted i ≡ true
        → Step n w (
            at_rank
              (at_rank w r (λ g. record g { ack_posted = update g.ack_posted i false }))
              (decrement_rank_on_ring r n)
              (λ g. record g { acked = update g.acked i true }))

  pub data Reach (n : ℕ) (w : Net T) : Net T → Type 0 where
    here : Reach n w w
    next : {u v : Net T} → Reach n w u → Step n u v → Reach n w v
