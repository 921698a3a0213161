-- ===== src/Collectives/AllreduceRing/Network.antt =====
-- The ranks of AllreduceRing.hpp at work together: every rank runs its own collective, and posted
-- transfers travel to the neighbours in any order and at any time. A write with notification may bring
-- its data early, and more than once; when it completes, the data is there and the notification is set.
-- This is what GPI documents of `gaspi_write_notify` and `gaspi_notify`.
use gaspi_cxx.Common.{ℕ, ◌<◌, ◌≡◌, true, false, ok}
use gaspi_cxx.Common.Families.{update}
use gaspi_cxx.Group.Ring.{increment_rank_on_ring, decrement_rank_on_ring}
use gaspi_cxx.Collectives.LowLevel.{State, Collective, start, trigger_progress}
use gaspi_cxx.Collectives.AllreduceRing.{Ring, construct, chunk_implementation}

abbrev pub Net : Type 0 → Type 0
Net A = ℕ → Collective (Ring A)

module _ {A : Type 0} where
  -- Only the algorithm's part of one rank changes.
  abbrev pub at_rank : Net A → ℕ → (Ring A → Ring A) → Net A
  at_rank w r f = update w r (record { state = (w r).state; algorithm = f (w r).algorithm })

  abbrev pub put_target : ℕ → A → Ring A → Ring A
  put_target i a x = record x { targets = update x.targets i a }

  abbrev pub put_source : ℕ → A → Ring A → Ring A
  put_source i a x = record x { sources = update x.sources i a }

  abbrev pub notify_reduce : ℕ → A → Ring A → Ring A
  notify_reduce i a x = record x {
    targets = update x.targets i a;
    reduce_arrived = update x.reduce_arrived i true;
  }

  abbrev pub notify_gather : ℕ → A → Ring A → Ring A
  notify_gather i a x = record x {
    sources = update x.sources i a;
    gather_arrived = update x.gather_arrived i true;
  }

  -- All ranks after `copyIn`, rank `r` with the chunks `input r`; the targets hold anything.
  unfoldable pub ready : ℕ → ℕ → A → (ℕ → ℕ → A) → (ℕ → ℕ → A) → Net A
  ready number_elements number_ranks single input targets r = record {
    state = State.ready;
    algorithm = construct number_elements number_ranks r single (input r) (targets r);
  }

  -- The steps of `n` ranks. A source on rank `r` is connected to the target with the same index on
  -- its right neighbor, and a target to the source on its left neighbor.
  pub data Step (apply_reduce_op : A → A → A) (n : ℕ) (w : Net A) : Net A → Type 0 where
    starts :
        {c : Collective (Ring A)} (r : ℕ)
        → r < n
        → start (chunk_implementation apply_reduce_op) (w r) ≡ ok c
        → Step apply_reduce_op n w (update w r c)
    progresses :
        (r : ℕ)
        → r < n
        → Step apply_reduce_op n w
            (update w r (trigger_progress (chunk_implementation apply_reduce_op) true (w r)).0)
    reduce_data :
        (r i : ℕ)
        → r < n
        → i < n
        → (w r).algorithm.reduce_posted i ≡ true
        → Step apply_reduce_op n w
            (at_rank w (increment_rank_on_ring r n) (put_target i ((w r).algorithm.sources i)))
    reduce_completes :
        (r i : ℕ)
        → r < n
        → i < n
        → (w r).algorithm.reduce_posted i ≡ true
        → Step apply_reduce_op n w (
            at_rank
              (at_rank w r (λ x. record x { reduce_posted = update x.reduce_posted i false }))
              (increment_rank_on_ring r n)
              (notify_reduce i ((w r).algorithm.sources i)))
    gather_data :
        (r i : ℕ)
        → r < n
        → i < n
        → (w r).algorithm.gather_posted i ≡ true
        → Step apply_reduce_op n w
            (at_rank w (increment_rank_on_ring r n) (put_source i ((w r).algorithm.sources i)))
    gather_completes :
        (r i : ℕ)
        → r < n
        → i < n
        → (w r).algorithm.gather_posted i ≡ true
        → Step apply_reduce_op n w (
            at_rank
              (at_rank w r (λ x. record x { gather_posted = update x.gather_posted i false }))
              (increment_rank_on_ring r n)
              (notify_gather i ((w r).algorithm.sources i)))
    ack_completes :
        (r i : ℕ)
        → r < n
        → i < n
        → (w r).algorithm.ack_posted i ≡ true
        → Step apply_reduce_op n w (
            at_rank
              (at_rank w r (λ x. record x { ack_posted = update x.ack_posted i false }))
              (decrement_rank_on_ring r n)
              (λ x. record x { gather_acked = update x.gather_acked i true }))

  pub data Reach (apply_reduce_op : A → A → A) (n : ℕ) (w : Net A) : Net A → Type 0 where
    here : Reach apply_reduce_op n w w
    next :
        {u v : Net A}
        → Reach apply_reduce_op n w u
        → Step apply_reduce_op n u v
        → Reach apply_reduce_op n w v
