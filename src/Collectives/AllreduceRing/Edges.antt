-- ===== src/Collectives/AllreduceRing/Edges.antt =====
-- The invariant of the ring of AllreduceRing.hpp: what holds of every rank, and what holds between a
-- rank and its right neighbor, of the transfers on their way and of the chunks that came.
use gaspi_cxx.Common.{
  ℕ, ◌+◌, ◌-◌, ◌<◌, ◌≤◌, ◌≡◌, ◌⊎◌, Bool, true, false, not, ◌&&◌, ◌||◌, leb, ltb, ◌==◌,
}
use gaspi_cxx.Collectives.LowLevel.{State, Collective}
use gaspi_cxx.Collectives.AllreduceRing.{Ring}
use gaspi_cxx.Collectives.AllreduceRing.Hops.{distance, chunk_at, partial, total}

-- What the right neighbor's edge reads of a rank. `sent` counts the chunks that the rank has passed on
-- or would have passed on; `over` says that its collective is finished.
pub record Out : Type 0 where
  pub sent : ℕ
  pub over : Bool
  pub reduce_posted : ℕ → Bool
  pub gather_posted : ℕ → Bool
  pub gather_acked : ℕ → Bool

-- What the left neighbor's edge reads of a rank.
pub record In (A : Type 0) : Type 0 where
  pub step : ℕ
  pub reduce_arrived : ℕ → Bool
  pub gather_arrived : ℕ → Bool
  pub ack_posted : ℕ → Bool
  pub sources : ℕ → A
  pub targets : ℕ → A

abbrev pub sent_at : State → ℕ → ℕ
sent_at State.running s = s + 1
sent_at State.finished s = s + 1
sent_at _ s = 0

abbrev pub is_finished : State → Bool
is_finished State.finished = true
is_finished _ = false

abbrev pub outs : {A : Type 0} → Collective (Ring A) → Out
outs c = record {
  sent = sent_at c.state c.algorithm.current_step;
  over = is_finished c.state;
  reduce_posted = c.algorithm.reduce_posted;
  gather_posted = c.algorithm.gather_posted;
  gather_acked = c.algorithm.gather_acked;
}

abbrev pub ins : {A : Type 0} → Collective (Ring A) → In A
ins c = record {
  step = c.algorithm.current_step;
  reduce_arrived = c.algorithm.reduce_arrived;
  gather_arrived = c.algorithm.gather_arrived;
  ack_posted = c.algorithm.ack_posted;
  sources = c.algorithm.sources;
  targets = c.algorithm.targets;
}

-- Where a rank can be in its life: after `copyIn`, running, or finished in its last step.
pub data Phase (n : ℕ) : State → ℕ → Type 0 where
  waiting : {s : ℕ} → s ≡ 0 → Phase n State.ready s
  working : {s : ℕ} → s + 2 ≤ n + n → Phase n State.running s
  complete : {s : ℕ} → s + 2 ≡ n + n → Phase n State.finished s

-- What holds of rank `r` of `n` by itself.
pub record Node {A : Type 0} (n r : ℕ) (c : Collective (Ring A)) : Type 0 where
  pub elements : 0 < c.algorithm.number_elements
  pub ranks : c.algorithm.number_ranks ≡ n
  pub own : c.algorithm.rank ≡ r
  pub stage : c.algorithm.steps_per_stage ≡ n - 1
  pub phase : Phase n c.state c.algorithm.current_step
  pub index :
      c.state ≡ State.running
      → c.algorithm.current_index
        ≡ record { index = chunk_at n r c.algorithm.current_step; size = n }

module _ {A : Type 0} (apply_reduce_op : A → A → A) (input : ℕ → ℕ → A) (n : ℕ) where
  -- The value of chunk `i` on rank `r`, which is `d` hops from the chunk's start and has done `step`
  -- steps, while its left neighbor has sent `sent` chunks. The total may arrive before the step that
  -- waits for it.
  abbrev pub Chunk : ℕ → ℕ → ℕ → ℕ → ℕ → A → Type 0
  Chunk r i d step sent a =
      (step < d → a ≡ input r i)
      × (d ≤ step
          → (a ≡ partial n apply_reduce_op input i d)
            ⊎ ((a ≡ total n apply_reduce_op input i) × (d + n ≤ sent)))
      × (d + n ≤ step → a ≡ total n apply_reduce_op input i)

  -- What holds of buffer `i` between a rank `a` and its right neighbor `b`, where `d` is the distance
  -- of `b` from the chunk's start.
  pub record Link (d i : ℕ) (a : Out) (b : In A) : Type 0 where
    pub reduce_flight :
        (a.reduce_posted i || b.reduce_arrived i) ≡ (leb 1 d && leb d a.sent && ltb b.step d)
    pub reduce_once : (a.reduce_posted i && b.reduce_arrived i) ≡ false
    pub reduce_value :
        b.reduce_arrived i ≡ true → b.targets i ≡ partial n apply_reduce_op input i (d - 1)
    pub gather_flight :
        (a.gather_posted i || b.gather_arrived i)
        ≡ (leb (d + 2) n && leb (d + n) a.sent && ltb b.step (d + n))
    pub gather_once : (a.gather_posted i && b.gather_arrived i) ≡ false
    pub gather_value : b.gather_arrived i ≡ true → b.sources i ≡ total n apply_reduce_op input i

  -- What holds between rank `l` and its right neighbor `r`.
  pub record Edge (r : ℕ) (a : Out) (b : In A) : Type 0 where
    pub order : b.step ≤ a.sent
    pub links : (i : ℕ) → i < n → Link (distance n i r) i a b
    pub chunks : (i : ℕ) → i < n → Chunk r i (distance n i r) b.step a.sent (b.sources i)
    pub ack_flight :
        (i : ℕ)
        → i < n
        → (b.ack_posted i || a.gather_acked i)
          ≡ ((i == chunk_at n r (n + n - 3)) && (b.step + 2 == n + n) && not a.over)
    pub ack_once : (i : ℕ) → i < n → (b.ack_posted i && a.gather_acked i) ≡ false
    pub over_after : a.over ≡ true → b.step + 2 ≡ n + n
