-- ===== src/Collectives/BroadcastSendToAll/Network.antt =====
-- The ranks of BroadcastSendToAll.hpp at work together, in any order, with transfers that arrive at any time. A
-- write with notification may bring its data early, and more than once.
use gaspi_cxx.Common.{ℕ, ◌<◌, ◌≡◌, true, false, ok}
use gaspi_cxx.Common.Families.{update}
use gaspi_cxx.Collectives.LowLevel.{Collective, start, trigger_progress}
use gaspi_cxx.Collectives.BroadcastSendToAll.{Cast, implementation}

abbrev pub Net : Type 0 → Type 0
Net T = ℕ → Collective (Cast T)

module _ {T : Type 0} where
  abbrev pub at_rank : Net T → ℕ → (Cast T → Cast T) → Net T
  at_rank w r f = update w r (record { state = (w r).state; algorithm = f (w r).algorithm })

  -- The steps of `n` ranks. The source buffer of the root for rank `d` is connected to its target.
  pub data Step (n root : ℕ) (w : Net T) : Net T → Type 0 where
    starts :
        {c : Collective (Cast T)} (r : ℕ)
        → r < n
        → start implementation (w r) ≡ ok c
        → Step n root w (update w r c)
    progresses :
        (r : ℕ) → r < n → Step n root w (update w r (trigger_progress implementation true (w r)).0)
    data_comes :
        (d : ℕ)
        → (w root).algorithm.posted d ≡ true
        → Step n root w (at_rank w d (λ g. record g { memory = (w root).algorithm.memory }))
    completes :
        (d : ℕ)
        → (w root).algorithm.posted d ≡ true
        → Step n root w (
            at_rank
              (at_rank w root (λ g. record g { posted = update g.posted d false }))
              d
              (λ g. record g { memory = (w root).algorithm.memory; arrived = true }))
    ack_completes :
        (r : ℕ)
        → r < n
        → (w r).algorithm.ack_posted ≡ true
        → Step n root w (
            at_rank
              (at_rank w r (λ g. record g { ack_posted = false }))
              root
              (λ g. record g { acked = update g.acked r true }))

  pub data Reach (n root : ℕ) (w : Net T) : Net T → Type 0 where
    here : Reach n root w w
    next : {u v : Net T} → Reach n root w u → Step n root u v → Reach n root w v
