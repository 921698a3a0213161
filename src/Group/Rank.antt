-- ===== src/Group/Rank.antt =====
-- src/group/Rank.cpp: ranks are `unsigned short`, and every operation goes back through that type.
pub mod Laws
use gaspi_cxx.Common.{ℕ, ◌+◌, ◌-◌, ◌%◌, Bool, not, ◌==◌, ltb, ushort_mod}

-- `Rank(Type)` at a value of a wider unsigned type
unfoldable pub make : ℕ → ℕ
make rank = rank % ushort_mod

-- `operator++` and `operator--`: the new rank.
pub increment : ℕ → ℕ
unfolding make
increment rank = make (rank + 1)

pub decrement : ℕ → ℕ
unfolding make
decrement rank = make (rank + ushort_mod - 1)

-- `operator+`, `operator-`, `operator%` on two ranks. The division by 0 is undefined in the source.
pub add : ℕ → ℕ → ℕ
unfolding make
add rank other = make (rank + other)

pub subtract : ℕ → ℕ → ℕ
unfolding make
subtract rank other = make (rank + ushort_mod - other)

pub modulo : ℕ → ℕ → ℕ
unfolding make
modulo rank other = make (rank % other)

-- The comparisons, as the source derives them from one another.
pub equal : ℕ → ℕ → Bool
equal rank other = rank == other

pub not_equal : ℕ → ℕ → Bool
unfolding equal
not_equal rank other = not (equal rank other)

unfoldable pub less : ℕ → ℕ → Bool
less rank other = ltb rank other

pub greater : ℕ → ℕ → Bool
greater rank other = ltb other rank

pub less_equal : ℕ → ℕ → Bool
unfolding greater
less_equal rank other = not (greater rank other)

pub greater_equal : ℕ → ℕ → Bool
unfolding less
greater_equal rank other = not (less rank other)
