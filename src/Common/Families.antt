-- ===== src/Common/Families.antt =====
-- Vectors indexed by rank or by buffer number, as functions, with update at one place.
use Prim.Native.Nat.{ℕ}
use gaspi_cxx.Common.Tests.{◌==◌, if◌then◌else◌}

module _ {ℓ} {A : Type ℓ} where
  abbrev pub update : (ℕ → A) → ℕ → A → ℕ → A
  update f i a j = if i == j then a else f j
