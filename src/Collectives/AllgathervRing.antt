-- ===== src/Collectives/AllgathervRing.antt =====
-- include/GaspiCxx/collectives/non_blocking/collectives_lowlevel/AllgathervRing.hpp and
-- src/collectives/non_blocking/collectives_lowlevel/AllgathervCommon.cpp: the algorithm of one rank.
-- `source_buffers[i + 1]` shares the memory of `target_buffers[i]`, so that buffer 0 is the own source and
-- buffer i + 1 is target i. The vector of counts is a function of the rank. What carries a transfer to
-- the neighbour is `Network`.
pub mod Network
pub mod Nodes
pub mod Writes
pub mod Invariant
pub mod Output
pub mod EndToEnd
mod Tests
use gaspi_cxx.Common.{
  ℕ, zero, suc, ◌+◌, ◌-◌, ◌%◌, ◌^◌, Bool, true, false, List, [], ◌∷◌, take, ltb, ◌==◌,
  if◌then◌else◌, add_size,
}
use gaspi_cxx.Common.Families.{update}
use gaspi_cxx.Group.Ring.{decrement_index_on_ring}
use gaspi_cxx.Collectives.LowLevel.{Impl}

-- `std::accumulate` from the `int` 0 on: every sum is converted to a signed number of 32 bits, and, when it is
-- used as a `std::size_t`, extended by its sign.
abbrev pub as_int : ℕ → ℕ
as_int x = if ltb (x % 2 ^ 32) (2 ^ 31) then x % 2 ^ 32 else x % 2 ^ 32 + (2 ^ 64 - 2 ^ 32)

unfoldable pub accumulate : (ℕ → ℕ) → ℕ → ℕ
accumulate counts zero = 0
accumulate counts (suc k) = as_int (add_size (accumulate counts k) (counts k))

-- `offsets`, by `std::partial_sum`
unfoldable pub offset : (ℕ → ℕ) → ℕ → ℕ
offset counts zero = 0
offset counts (suc k) = offset counts k + counts k

pub record Gather (T : Type 0) : Type 0 where
  pub counts : ℕ → ℕ
  pub number_elements : ℕ
  pub rank : ℕ
  pub number_ranks : ℕ
  pub current_step : ℕ
  pub buffers : ℕ → List T
  pub data_for_1rank_case : List T
  -- transfers of `source_buffers` that are initiated, their acknowledgements that came, notifications of
  -- `target_buffers`, and acknowledgements of `target_buffers` that are on their way
  pub posted : ℕ → Bool
  pub acked : ℕ → Bool
  pub arrived : ℕ → Bool
  pub ack_posted : ℕ → Bool

module _ {T : Type 0} where
  -- The constructor's values; what the buffers hold is an argument.
  unfoldable pub construct : (ℕ → ℕ) → ℕ → ℕ → List T → (ℕ → List T) → Gather T
  unfolding accumulate
  construct counts number_ranks rank single buffers = record {
    counts = counts;
    number_elements = accumulate counts number_ranks;
    rank = rank;
    number_ranks = number_ranks;
    current_step = 0;
    buffers = buffers;
    data_for_1rank_case = single;
    posted = λ i. false;
    acked = λ i. false;
    arrived = λ i. false;
    ack_posted = λ i. false;
  }

  abbrev pub get_output_count : Gather T → ℕ
  get_output_count g = g.number_elements

  abbrev pub is_last_step : Gather T → Bool
  is_last_step g = g.current_step == g.number_ranks - 1

  unfoldable pub start_impl : Gather T → Gather T
  start_impl g =
      if ltb 1 g.number_ranks
      then record g { current_step = 0; posted = update g.posted 0 true }
      else g

  unfoldable pub copy_in_impl : List T → Gather T → Gather T
  copy_in_impl inputs g =
      if g.number_ranks == 1
      then record g { data_for_1rank_case = take g.number_elements inputs }
      else record g { buffers = update g.buffers 0 (take (g.counts g.rank) inputs) }

  -- The acknowledgement that a rank waits for at the end.
  unfoldable pub final_round : Gather T → Gather T × Bool
  final_round g =
      let i = g.current_step - 1 in
      if g.acked i then (record g { acked = update g.acked i false }, true) else (g, false)

  unfoldable pub next_round : Gather T → Gather T × Bool
  next_round g =
      let i = g.current_step in
      let g' = record g { arrived = update g.arrived i false; current_step = i + 1 } in
      if g.arrived i
      then (
        if is_last_step g'
            then record g' { ack_posted = update g.ack_posted i true }
            else record g' { posted = update g.posted (i + 1) true },
        false,
      )
      else (g, false)

  unfoldable pub trigger_progress_impl : Gather T → Gather T × Bool
  trigger_progress_impl g =
      if g.number_ranks == 1
      then (g, true)
      else if is_last_step g
      then final_round g
      else next_round g

  -- `std::copy` of elements to an offset of the outputs
  abbrev pub copy_to : ℕ → List T → (ℕ → T) → ℕ → T
  copy_to begin [] outputs = outputs
  copy_to begin (x ∷ xs) outputs = copy_to (begin + 1) xs (update outputs begin x)

  -- The loop of `copyOutImpl` over `k` targets from target `i` on.
  unfoldable pub copy_targets : Gather T → ℕ → ℕ → ℕ → (ℕ → T) → ℕ → T
  copy_targets g zero i receive_index outputs = outputs
  copy_targets g (suc k) i receive_index outputs =
      copy_targets g k (i + 1) (decrement_index_on_ring receive_index g.number_ranks) (
        copy_to (offset g.counts receive_index) (take (g.counts receive_index) (g.buffers (i + 1)))
          outputs)

  unfoldable pub copy_out_impl : Gather T → (ℕ → T) → ℕ → T
  copy_out_impl g outputs =
      if g.number_ranks == 1
      then copy_to 0 g.data_for_1rank_case outputs
      else copy_targets g (g.number_ranks - 1) 0 (decrement_index_on_ring g.rank g.number_ranks)
          (copy_to (offset g.counts g.rank) (take (g.counts g.rank) (g.buffers 0)) outputs)

  -- The overrides. What `copyOut` makes of the outputs' memory is a function on it.
  abbrev pub implementation : Impl (Gather T) (List T) ((ℕ → T) → ℕ → T)
  implementation = record {
    wait_for_setup_impl = λ g. g;
    copy_in_impl = copy_in_impl;
    start_impl = start_impl;
    trigger_progress_impl = trigger_progress_impl;
    copy_out_impl = λ g. (g, copy_out_impl g);
  }
