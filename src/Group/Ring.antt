-- ===== src/Group/Ring.antt =====
-- src/group/Utilities.cpp: indices and ranks on a ring, on `std::size_t`.
pub mod Laws
use gaspi_cxx.Common.{ℕ, ◌+◌, ◌-◌, ◌%◌, add_size, sub_size}

unfoldable pub increment_index_on_ring : ℕ → ℕ → ℕ
increment_index_on_ring index ring_size = add_size index 1 % ring_size

unfoldable pub increment_rank_on_ring : ℕ → ℕ → ℕ
unfolding increment_index_on_ring
increment_rank_on_ring rank ring_size = increment_index_on_ring rank ring_size

-- `index - 1` wraps at 0, and the sum wraps back.
unfoldable pub decrement_index_on_ring : ℕ → ℕ → ℕ
decrement_index_on_ring index ring_size = add_size (sub_size index 1) ring_size % ring_size

unfoldable pub decrement_rank_on_ring : ℕ → ℕ → ℕ
unfolding decrement_index_on_ring
decrement_rank_on_ring rank ring_size = decrement_index_on_ring rank ring_size

pub record RingIndex : Type 0 where
  pub index : ℕ
  pub size : ℕ

-- `RingIndex(index, ring_size)`
unfoldable pub ring_index : ℕ → ℕ → RingIndex
ring_index index ring_size = record { index = index % ring_size; size = ring_size }

-- `operator++` and `operator--`, which also serve the postfix forms: the new index.
unfoldable pub increment : RingIndex → RingIndex
unfolding increment_index_on_ring
increment r = record r { index = increment_index_on_ring r.index r.size }

unfoldable pub decrement : RingIndex → RingIndex
unfolding decrement_index_on_ring
decrement r = record r { index = decrement_index_on_ring r.index r.size }
