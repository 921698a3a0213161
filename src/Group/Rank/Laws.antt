-- ===== src/Group/Rank/Laws.antt =====
-- Rank arithmetic, also where it wraps.
use gaspi_cxx.Common.{ℕ, ◌<◌, ◌≡◌, arith, ushort_mod}
use gaspi_cxx.Group.Rank.{increment, decrement, add, subtract}

-- On ranks below 2 ^ 16, subtraction undoes addition and decrement undoes increment, also where they
-- wrap around.
pub subtract-add :
    (a b : ℕ)
    → a < ushort_mod
    → b < ushort_mod
    → (subtract (add a b) b ≡ a) × (add (subtract a b) b ≡ a) × (decrement (increment a) ≡ a)
unfolding subtract add increment decrement
subtract-add a b ha hb = omega arith
