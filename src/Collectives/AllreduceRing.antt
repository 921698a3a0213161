-- ===== src/Collectives/AllreduceRing.antt =====
-- include/GaspiCxx/collectives/non_blocking/collectives_lowlevel/AllreduceRing.hpp: the algorithm of
-- one rank. Its buffers hold chunks of a type `A`, and `apply_reduce_op` is the reduction of
-- AllreduceCommon.hpp on two chunks. A vector of buffers is a function of the buffer's number. The
-- gather buffers share the memory of the reduce sources, which the model keeps once.
--
-- The single-sided calls act on flags: `initTransfer` and `ackTransfer` post a transfer, and
-- `checkForCompletion` and `checkForTransferAck` test and reset a notification. What carries a posted
-- transfer to the neighbour is `Network`. Steps and indices stay far below 2 ^ 64, so their sums are
-- written without wrap-around, but for those of group/Utilities.cpp.
pub mod Hops
pub mod Network
pub mod Edges
pub mod Rounds
pub mod Outcomes
pub mod Moves
pub mod GatherMoves
pub mod StartMoves
pub mod Invariant
pub mod Deliveries
pub mod Steps
pub mod Transfers
pub mod Results
pub mod Order
pub mod Progress
pub mod Deadlock
pub mod Copies
pub mod Chunks
pub mod EndToEnd
mod CopyTests
mod Tests
use gaspi_cxx.Common.{
  ℕ, ◌+◌, ◌-◌, ◌*◌, ◌/◌, Bool, true, false, not, ◌&&◌, ◌||◌, ltb, ◌==◌, if◌then◌else◌,
}
use gaspi_cxx.Common.Families.{update}
use gaspi_cxx.Group.Ring.{RingIndex, ring_index, decrement}
use gaspi_cxx.Collectives.LowLevel.{Impl}

-- `enum class RingStage`
pub data RingStage : Type 0 where
  reduce gather : RingStage

pub record Ring (A : Type 0) : Type 0 where
  pub number_elements : ℕ
  pub number_ranks : ℕ
  pub rank : ℕ
  pub current_step : ℕ
  pub steps_per_stage : ℕ
  pub current_index : RingIndex
  -- memory of `source_buffers_reduce`, `source_buffers_gather` and `target_buffers_gather`
  pub sources : ℕ → A
  -- memory of `target_buffers_reduce`
  pub targets : ℕ → A
  pub data_for_1rank_case : A
  -- notifications of `target_buffers_reduce`, `target_buffers_gather`, `source_buffers_gather`
  pub reduce_arrived : ℕ → Bool
  pub gather_arrived : ℕ → Bool
  pub gather_acked : ℕ → Bool
  -- transfers that are initiated and not yet complete
  pub reduce_posted : ℕ → Bool
  pub gather_posted : ℕ → Bool
  pub ack_posted : ℕ → Bool

-- The constructor's values; what the buffers hold is an argument.
unfoldable pub construct : {A : Type 0} → ℕ → ℕ → ℕ → A → (ℕ → A) → (ℕ → A) → Ring A
construct number_elements number_ranks rank single sources targets = record {
  number_elements = number_elements;
  number_ranks = number_ranks;
  rank = rank;
  current_step = 0;
  steps_per_stage = number_ranks - 1;
  current_index = ring_index rank number_ranks;
  sources = sources;
  targets = targets;
  data_for_1rank_case = single;
  reduce_arrived = λ _. false;
  gather_arrived = λ _. false;
  gather_acked = λ _. false;
  reduce_posted = λ _. false;
  gather_posted = λ _. false;
  ack_posted = λ _. false;
}

module _ {A : Type 0} where
  pub algorithm_get_current_stage : Ring A → RingStage
  algorithm_get_current_stage r =
      if r.current_step / r.steps_per_stage == 0 then RingStage.reduce else RingStage.gather

  pub is_last_step_reduce : Ring A → Bool
  is_last_step_reduce r = r.current_step == r.steps_per_stage - 1

  pub is_last_step_gather : Ring A → Bool
  is_last_step_gather r = r.current_step == 2 * r.steps_per_stage - 1

  pub is_last_step : Ring A → Bool
  is_last_step r = r.current_step == 2 * r.steps_per_stage

  -- `source_buffers_reduce[i]->initTransfer()`, the same for `source_buffers_gather`, and
  -- `target_buffers_gather[i]->ackTransfer()`
  abbrev pub init_reduce : ℕ → Ring A → Ring A
  init_reduce i r = record r { reduce_posted = update r.reduce_posted i true }

  abbrev pub init_gather : ℕ → Ring A → Ring A
  init_gather i r = record r { gather_posted = update r.gather_posted i true }

  abbrev pub ack_gather : ℕ → Ring A → Ring A
  ack_gather i r = record r { ack_posted = update r.ack_posted i true }

  pub start_impl : Ring A → Ring A
  start_impl r =
      let index = ring_index r.rank r.number_ranks in
      let started = record r { current_step = 0; current_index = decrement index } in
      if ltb 0 r.number_elements && ltb 1 r.number_ranks then init_reduce index.index started else r

  -- `current_step++; current_index--;`
  abbrev pub advance : Ring A → Ring A
  advance r = record r {
    current_step = r.current_step + 1;
    current_index = decrement r.current_index;
  }

  -- The acknowledgement that a rank waits for at the end.
  pub final_round : Ring A → Ring A × Bool
  final_round r =
      let index = (ring_index (r.current_index.index + 2) r.number_ranks).index in
      if r.gather_acked index
      then (record r { gather_acked = update r.gather_acked index false }, true)
      else (r, false)

  -- A round in the gather stage.
  pub gather_round : Ring A → Ring A × Bool
  unfolding is_last_step_gather
  gather_round r =
      let i = r.current_index.index in
      let r' = record r { gather_arrived = update r.gather_arrived i false } in
      if r.gather_arrived i
      then (advance (if is_last_step_gather r then ack_gather i r' else init_gather i r'), false)
      else (r, false)

  module _ (apply_reduce_op : A → A → A) where
    -- A round in the reduce stage.
    pub reduce_round : Ring A → Ring A × Bool
    unfolding is_last_step_reduce
    reduce_round r =
        let i = r.current_index.index in
        let r' = record r {
          reduce_arrived = update r.reduce_arrived i false;
          sources = update r.sources i (apply_reduce_op (r.sources i) (r.targets i));
        } in
        if r.reduce_arrived i
        then (advance (if is_last_step_reduce r then init_gather i r' else init_reduce i r'), false)
        else (r, false)

    pub trigger_progress_impl : Ring A → Ring A × Bool
    unfolding is_last_step final_round algorithm_get_current_stage reduce_round gather_round
    trigger_progress_impl r =
        if r.number_elements == 0 || r.number_ranks == 1
        then (r, true)
        else if is_last_step r
        then final_round r
        else (elim (algorithm_get_current_stage r) [
          | RingStage.reduce ↦ reduce_round r
          | RingStage.gather ↦ gather_round r
        ])

    -- The rounds between copies of whole chunks. `Copies` has the methods with the copies of the source.
    pub chunk_implementation : Impl (Ring A) (ℕ → A) (ℕ → A)
    unfolding start_impl trigger_progress_impl
    chunk_implementation = record {
      wait_for_setup_impl = λ r. r;
      copy_in_impl = λ chunks r. record r { sources = chunks };
      start_impl = start_impl;
      trigger_progress_impl = trigger_progress_impl;
      copy_out_impl = λ r. (r, r.sources);
    }
