-- ===== src/Segment/Pool/Spec.antt =====
-- `getSegment` of src/segment/DynamicSegmentPool.cpp: the segment that it answers with.
use gaspi_cxx.Common.{ℕ, ◌^◌, ◌<◌, ◌≤◌, ◌≡◌, List, [], ◌∷◌, ◌⊎◌}
use gaspi_cxx.Segment.SegmentManager
use gaspi_cxx.Segment.SegmentManager.{SegmentManager}
use gaspi_cxx.Segment.Pool.{Platform, quotient}

abbrev pub Elem : SegmentManager → List SegmentManager → Type 0
Elem s [] = ⊥
Elem s (x ∷ xs) = (x ≡ s) ⊎ Elem s xs

-- What `double` and <cmath> do, on the numbers up to 2 ^ 32. `below k x` says that x is more than k, and
-- `above x k` that it is less. The logarithms may be off, but not by so much that their quotient comes
-- down to a whole number that it exceeds, or up to 33. On whole numbers and on powers of 2 with a whole
-- exponent there is no rounding.
pub record Accurate (platform : Platform) : Type 1 where
  pub below : ℕ → platform.Double → Type 0
  pub above : platform.Double → ℕ → Type 0
  pub quotient_below : (n k : ℕ) → 2 ^ k < n → n ≤ 2 ^ 32 → below k (quotient platform n)
  pub quotient_above : (n : ℕ) → 1 < n → n ≤ 2 ^ 32 → above (quotient platform n) 33
  pub quotient_one : quotient platform 1 ≡ platform.to_double 0
  pub ceil_zero : platform.ceil (platform.to_double 0) ≡ platform.to_double 0
  pub ceil_between :
      (x : platform.Double) (k : ℕ)
      → below k x
      → above x 33
      → (c : ℕ) × (k < c) × (c ≤ 33) × (platform.ceil x ≡ platform.to_double c)
  pub pow_two :
      (c : ℕ)
      → c ≤ 33
      → platform.to_size (platform.pow (platform.to_double 2) (platform.to_double c)) ≡ 2 ^ c
