-- ===== src/Segment/Blocks.antt =====
-- The block list that src/segment/MemoryManager.cpp and src/segment/NotificationManager.cpp keep:
-- the first-fit loop of `allocate` and the coalescing loop of `deallocate`, which the two files
-- write out alike but for one check in `deallocate`.
pub mod Layout
mod Steps
pub mod Memory
pub mod RoundTrip
pub mod Complete
pub mod Live
pub mod Sizes
use gaspi_cxx.Common.{
  ℕ, ◌-◌, Bool, true, false, ◌&&◌, List, [], ◌∷◌, Option, none, some, Result, ok, err, bad_alloc,
  runtime_error, ltb, leb, ◌==◌, if◌then◌else◌, add_size,
}

-- `MemoryBlock` and `NotificationBlock`
pub record Block : Type 0 where
  pub g_start : ℕ
  pub size : ℕ
  pub free : Bool

-- The body of the `if`: the block is split when it is larger than the request.
unfoldable pub carve : ℕ → Block → List Block → List Block
carve size b bs =
    if ltb size b.size
    then record { g_start = b.g_start; size = size; free = false }
      ∷ record { g_start = add_size b.g_start size; size = b.size - size; free = b.free }
      ∷ bs
    else record b { free = false } ∷ bs

abbrev pub prepend : Block → ℕ × List Block → ℕ × List Block
prepend b r = (r.0, b ∷ r.1)

abbrev pub prepend? : Block → Option (ℕ × List Block) → Option (ℕ × List Block)
prepend? b none = none
prepend? b (some r) = some (prepend b r)

-- `none` stands for the end of the loop with no fitting block.
unfoldable pub first_fit : ℕ → List Block → Option (ℕ × List Block)
unfolding carve
first_fit size [] = none
first_fit size (b ∷ bs) =
    if b.free && leb size b.size
    then some (b.g_start, carve size b bs)
    else prepend? b (first_fit size bs)

-- "Is the next block free? Merge with next block." The released block and those behind it.
unfoldable pub merge_next : Block → List Block → Block × List Block
merge_next b [] = (b, [])
merge_next b (next ∷ bs) =
    if next.free then (record b { size = add_size b.size next.size }, bs) else (b, next ∷ bs)

-- "Is the previous block free? Merge with previous block."
unfoldable pub merge_prev : Block → Block → List Block → List Block
merge_prev prev b bs =
    if prev.free
    then record b { g_start = prev.g_start; size = add_size b.size prev.size } ∷ bs
    else prev ∷ b ∷ bs

-- `it->free = true`. No merge reads the flag of the released block, so the model sets it first.
unfoldable pub set_free : Block → Block
set_free b = record b { free = true }

abbrev pub prepend_ok : Block → Result (List Block) → Result (List Block)
prepend_ok b (ok bs) = ok (b ∷ bs)
prepend_ok b (err e) = err e

-- The loop of `deallocate` behind its first block, `prev` being the block before the list. `fits` is
-- the check of the block's size.
unfoldable pub release_after : (ℕ → Bool) → ℕ → Block → List Block → Result (List Block)
unfolding merge_next merge_prev set_free
release_after fits p prev [] = err bad_alloc
release_after fits p prev (b ∷ bs) =
    let (merged, rest) = merge_next (set_free b) bs in
    if b.g_start == p
    then if fits b.size then ok (merge_prev prev merged rest) else err runtime_error
    else prepend_ok prev (release_after fits p b bs)

-- The loop of `deallocate`.
unfoldable pub release : (ℕ → Bool) → ℕ → List Block → Result (List Block)
unfolding merge_next set_free
release fits p [] = err bad_alloc
release fits p (b ∷ bs) =
    let (merged, rest) = merge_next (set_free b) bs in
    if b.g_start == p
    then if fits b.size then ok (merged ∷ rest) else err runtime_error
    else release_after fits p b bs

-- The loop of `MemoryManager::canAllocate`.
unfoldable pub can_fit : ℕ → List Block → Bool
can_fit size [] = false
can_fit size (b ∷ bs) = if b.free && leb size b.size then true else can_fit size bs
