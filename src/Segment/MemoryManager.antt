-- ===== src/Segment/MemoryManager.antt =====
-- src/segment/MemoryManager.cpp: the allocator of a segment's memory. A pointer is its address, and
-- NULL is 0. Every method holds the mutex throughout, so a call is one step.
pub mod Spec
pub mod History
use gaspi_cxx.Common.{
  ℕ, ◌<◌, Bool, true, false, not, ◌||◌, List, [], ◌∷◌, Option, none, some, Result, ok, err,
  bad_alloc, ltb, ◌==◌, if◌then◌else◌, length, ◌>>=◌,
}
use gaspi_cxx.Segment.Blocks.{Block, first_fit, release, can_fit}

pub record MemoryManager : Type 0 where
  pub blocks : List Block

-- The constructor: one free block.
unfoldable pub construct : ℕ → ℕ → MemoryManager
construct memory_segment_ptr memory_segment_size = record {
  blocks = record { g_start = memory_segment_ptr; size = memory_segment_size; free = true } ∷ [];
}

unfoldable pub front_free : List Block → Bool
front_free [] = false
front_free (b ∷ bs) = b.free

-- The test of the destructor, "Managed memory still in use at destruction".
unfoldable pub in_use : MemoryManager → Bool
unfolding front_free
in_use m = ltb 1 (length m.blocks) || not (front_free m.blocks)

abbrev pub or_bad_alloc : Option (ℕ × List Block) → Result (ℕ × MemoryManager)
or_bad_alloc none = err bad_alloc
or_bad_alloc (some r) = ok (r.0, record { blocks = r.1 })

unfoldable pub allocate : MemoryManager → ℕ → Result (ℕ × MemoryManager)
allocate m size = if size == 0 then ok (0, m) else or_bad_alloc (first_fit size m.blocks)

unfoldable pub can_allocate : MemoryManager → ℕ → Bool
can_allocate m size_requested =
    if size_requested == 0 then true else can_fit size_requested m.blocks

-- A block of another size than `g_size` is "Not released".
unfoldable pub deallocate : MemoryManager → ℕ → ℕ → Result MemoryManager
deallocate m g_ptr g_size =
    if g_ptr == 0
    then ok m
    else release (λ size. size == g_size) g_ptr m.blocks >>= λ blocks.
        ok (record { blocks = blocks })
