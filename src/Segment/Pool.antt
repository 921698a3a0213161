-- ===== src/Segment/Pool.antt =====
-- src/segment/SingleSegmentPool.cpp and src/segment/DynamicSegmentPool.cpp: which segment a new buffer
-- goes to.
pub mod Spec
use gaspi_cxx.Common.{
  ℕ, ◌*◌, ◌^◌, Bool, true, false, List, [], ◌∷◌, Option, none, some, Result, ok, err, runtime_error,
  ltb, if◌then◌else◌, min,
}
use gaspi_cxx.Segment.SegmentManager
use gaspi_cxx.Segment.SegmentManager.{SegmentManager, has_free_memory}

-- `SingleSegmentPool::getSegment`
pub get_single_segment : SegmentManager → ℕ → Result SegmentManager
get_single_segment segment size =
    if has_free_memory segment size then ok segment else err runtime_error

pub record DynamicSegmentPool : Type 0 where
  pub size_per_segment : ℕ
  pub max_segment_size : ℕ
  pub segments : List SegmentManager

-- `std::find_if` for a segment with room for `size` bytes
unfoldable pub find_free : ℕ → List SegmentManager → Option SegmentManager
find_free size [] = none
find_free size (s ∷ ss) = if has_free_memory s size then some s else find_free size ss

-- The constructor
pub construct : ℕ → Result DynamicSegmentPool
construct size_per_segment =
    let max_segment_size : ℕ = 4 * 1024 * 1024 * 1024 in
    if ltb max_segment_size size_per_segment
    then err runtime_error
    else ok (record {
      size_per_segment = size_per_segment;
      max_segment_size = max_segment_size;
      segments = [];
    })

-- What the pool uses and does not define: the type `double` with its conversions from and to
-- `std::size_t`, its division and the functions of <cmath>, and the segment that `Segment(size)` makes with
-- GPI's help, given those that exist.
pub record Platform : Type 1 where
  pub Double : Type 0
  pub to_double : ℕ → Double
  pub to_size : Double → ℕ
  pub divide : Double → Double → Double
  pub log : Double → Double
  pub ceil : Double → Double
  pub pow : Double → Double → Double
  pub new_segment : List SegmentManager → ℕ → SegmentManager

module _ (platform : Platform) where
  open platform use {Double, to_double, to_size, divide, log, ceil, pow, new_segment}

  -- `std::log(size) / std::log(2)`
  abbrev pub quotient : ℕ → Double
  quotient size = divide (log (to_double size)) (log (to_double 2))

  -- `std::pow(2, std::ceil(std::log(size) / std::log(2)))`
  unfoldable pub power_of_two : ℕ → ℕ
  power_of_two size = to_size (pow (to_double 2) (ceil (quotient size)))

  -- `_sizePerSegment` after the adjustment
  unfoldable pub adjusted : DynamicSegmentPool → ℕ → ℕ
  adjusted pool size =
      if ltb pool.size_per_segment size
      then min (power_of_two size) pool.max_segment_size
      else pool.size_per_segment

  -- The segment that is found, or a new one in front of the others.
  unfoldable pub found_or_new :
      Option SegmentManager → DynamicSegmentPool → SegmentManager × DynamicSegmentPool
  found_or_new (some s) pool = (s, pool)
  found_or_new none pool =
      let s = new_segment pool.segments pool.size_per_segment in
      (s, record pool { segments = s ∷ pool.segments })

  unfoldable pub get_segment : DynamicSegmentPool → ℕ → Result (SegmentManager × DynamicSegmentPool)
  unfolding adjusted found_or_new
  get_segment pool size =
      if ltb pool.max_segment_size size
      then err runtime_error
      else ok (
          found_or_new (find_free size pool.segments)
            (record pool { size_per_segment = adjusted pool size }))
