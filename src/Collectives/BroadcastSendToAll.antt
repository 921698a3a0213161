-- ===== src/Collectives/BroadcastSendToAll.antt =====
-- include/GaspiCxx/collectives/non_blocking/collectives_lowlevel/BroadcastSendToAll.hpp and
-- src/collectives/non_blocking/collectives_lowlevel/BroadcastCommon.cpp: the algorithm of one rank. All
-- source buffers of the root share one memory, and are told apart by the rank that they are connected to.
-- Another rank has one target buffer.
pub mod Network
pub mod Destinations
pub mod Nodes
pub mod Results
mod Tests
use gaspi_cxx.Common.{
  ℕ, zero, suc, ◌-◌, Bool, true, false, List, [], ◌∷◌, ◌++◌, take, leb, length, ◌==◌, if◌then◌else◌,
  sub_size, Result, ok, err, logic_error,
}
use gaspi_cxx.Common.Families.{update}
use gaspi_cxx.Collectives.LowLevel.{Impl}

pub record Cast (T : Type 0) : Type 0 where
  pub number_elements : ℕ
  pub root : ℕ
  pub rank : ℕ
  pub number_ranks : ℕ
  -- the ranks that `source_buffers` are connected to
  pub destinations : List ℕ
  -- memory of `source_buffers`, or of `target_buffer`
  pub memory : List T
  pub transfers_in_progress : ℕ
  -- transfers of the source buffers that are initiated, and their acknowledgements that came; notification of
  -- the target buffer, and its acknowledgement on its way
  pub posted : ℕ → Bool
  pub acked : ℕ → Bool
  pub arrived : Bool
  pub ack_posted : Bool

-- `generate_non_root_ranks`, over the ranks below `k`
unfoldable pub non_root_ranks : ℕ → ℕ → List ℕ
non_root_ranks root zero = []
non_root_ranks root (suc k) =
    let before = non_root_ranks root k in if root == k then before else before ++ k ∷ []

-- The first source buffer is for `non_root_ranks.back()`, the others for the rest.
unfoldable pub last_first : List ℕ → List ℕ
last_first [] = []
last_first (x ∷ xs) = elim (last_first xs) [ [] ↦ x ∷ [] | y ∷ ys ↦ y ∷ x ∷ ys ]

-- The loop over the source buffers in `startImpl`.
abbrev pub init_transfers : List ℕ → (ℕ → Bool) → ℕ → Bool
init_transfers [] posted = posted
init_transfers (d ∷ ds) posted = init_transfers ds (update posted d true)

module _ {T : Type 0} where
  -- `check_root_is_in_group`, and the constructor's values; what the memory holds is an argument.
  unfoldable pub construct : ℕ → ℕ → ℕ → ℕ → List T → Result (Cast T)
  unfolding non_root_ranks last_first
  construct number_elements root number_ranks rank memory =
      if leb number_ranks root
      then err logic_error
      else ok (record {
        number_elements = number_elements;
        root = root;
        rank = rank;
        number_ranks = number_ranks;
        destinations = last_first (non_root_ranks root number_ranks);
        memory = memory;
        transfers_in_progress = 0;
        posted = λ d. false;
        acked = λ d. false;
        arrived = false;
        ack_posted = false;
      })

  abbrev pub get_output_count : Cast T → ℕ
  get_output_count g = g.number_elements

  -- `checkForTransferAck` of one source buffer in `triggerProgressImpl`, and the loop.
  abbrev pub check_transfer_ack : ℕ → Cast T → Cast T
  check_transfer_ack d g =
      if g.acked d
      then record g {
        acked = update g.acked d false;
        transfers_in_progress = sub_size g.transfers_in_progress 1;
      }
      else g

  abbrev pub check_transfer_acks : List ℕ → Cast T → Cast T
  check_transfer_acks [] g = g
  check_transfer_acks (d ∷ ds) g = check_transfer_acks ds (check_transfer_ack d g)

  unfoldable pub start_impl : Cast T → Cast T
  start_impl g =
      if g.number_ranks == 1
      then g
      else if g.rank == g.root
      then record g {
        posted = init_transfers g.destinations g.posted;
        transfers_in_progress = length g.destinations;
      }
      else g

  unfoldable pub trigger_progress_impl : Cast T → Cast T × Bool
  trigger_progress_impl g =
      let g' = check_transfer_acks g.destinations g in
      if g.number_ranks == 1
      then (g, true)
      else if g.rank == g.root
      then (g', g'.transfers_in_progress == 0)
      else if g.arrived
      then (record g { arrived = false; ack_posted = true }, true)
      else (g, false)

  unfoldable pub copy_in_impl : List T → Cast T → Cast T
  copy_in_impl inputs g =
      if g.rank == g.root then record g { memory = take g.number_elements inputs } else g

  -- Root or not, what is in its memory.
  abbrev pub copy_out_impl : Cast T → List T
  copy_out_impl g =
      if g.rank == g.root then take g.number_elements g.memory else take g.number_elements g.memory

  abbrev pub implementation : Impl (Cast T) (List T) (List T)
  implementation = record {
    wait_for_setup_impl = λ g. g;
    copy_in_impl = copy_in_impl;
    start_impl = start_impl;
    trigger_progress_impl = trigger_progress_impl;
    copy_out_impl = λ g. (g, copy_out_impl g);
  }
