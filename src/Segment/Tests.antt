-- ===== src/Segment/Tests.antt =====
-- Runs of the allocators and of the pools on small inputs, and the theorems at those inputs.
use gaspi_cxx.Common.{
  ℕ, zero, suc, ◌+◌, ◌-◌, ◌*◌, ◌/◌, ◌^◌, ltb, if◌then◌else◌, ◌<◌, ◌≤◌, ◌≡◌, ◌↔◌, refl, true, false,
  not, ◌&&◌, ◌||◌, [], ◌∷◌, ok, err, bad_alloc, runtime_error, arith,
}
use gaspi_cxx.Segment.Blocks.{
  Block, first_fit, carve, release, release_after, merge_next, merge_prev, set_free,
}
use gaspi_cxx.Segment.Blocks.Memory.{within}
use gaspi_cxx.Segment.Blocks.Sizes.{size_at}
use gaspi_cxx.Segment.MemoryManager
use gaspi_cxx.Segment.MemoryManager.{MemoryManager}
use gaspi_cxx.Segment.MemoryManager.Spec as MemorySpec
use gaspi_cxx.Segment.MemoryManager.History.{
  History, created, called, acquires, gives_back, Holds, owners, held_buffers, all_given_back,
}
use gaspi_cxx.Segment.NotificationManager
use gaspi_cxx.Segment.NotificationManager.{NotificationManager}
use gaspi_cxx.Segment.NotificationManager.Spec as NotificationSpec
use gaspi_cxx.Segment.SegmentManager
use gaspi_cxx.Segment.SegmentManager.{SegmentManager}
use gaspi_cxx.Segment.SegmentManager.Spec as SegmentSpec
use gaspi_cxx.Segment.Pool
use gaspi_cxx.Segment.Pool.{DynamicSegmentPool, Platform}
use gaspi_cxx.Segment.Pool.Spec as PoolSpec

abbrev taken : ℕ → ℕ → Block
taken p n = record { g_start = p; size = n; free = false }

abbrev open_at : ℕ → ℕ → Block
open_at p n = record { g_start = p; size = n; free = true }

-- The 64 bytes from 4096 on, with a gap between two buffers.
abbrev gap : MemoryManager
gap = record { blocks = taken 4096 16 ∷ open_at 4112 16 ∷ taken 4128 16 ∷ open_at 4144 16 ∷ [] }

abbrev gap_filled : MemoryManager
gap_filled = record {
  blocks = taken 4096 16 ∷ taken 4112 8 ∷ open_at 4120 8 ∷ taken 4128 16 ∷ open_at 4144 16 ∷ [];
}

-- The gap after the buffer behind it is given back: three blocks become one.
abbrev gap_merged : MemoryManager
gap_merged = record { blocks = taken 4096 16 ∷ open_at 4112 48 ∷ [] }

gap-IsValid : MemorySpec.IsValid 4096 64 gap
gap-IsValid = ground arith

gap_filled_run : MemoryManager.allocate gap 8 ≡ ok (4112, gap_filled)
unfolding MemoryManager.allocate first_fit carve
gap_filled_run = refl

gap_merged_run : MemoryManager.deallocate gap 4128 16 ≡ ok gap_merged
unfolding MemoryManager.deallocate release release_after merge_next merge_prev set_free
gap_merged_run = refl

gap_full_run : MemoryManager.allocate gap 17 ≡ err bad_alloc
unfolding MemoryManager.allocate first_fit carve
gap_full_run = refl

wrong_size_run : MemoryManager.deallocate gap 4128 8 ≡ err runtime_error
unfolding MemoryManager.deallocate release release_after merge_next merge_prev set_free
wrong_size_run = refl

allocate_lem_example :
    MemorySpec.IsValid 4096 64 gap_filled
    × (4096 ≤ 4112)
    × (4112 + 8 ≤ 4096 + 64)
    × ((a : ℕ) → (within 4112 8 a && MemorySpec.in_allocation gap a) ≡ false)
    × ((a : ℕ)
        → MemorySpec.in_allocation gap_filled a
          ≡ (within 4112 8 a || MemorySpec.in_allocation gap a))
allocate_lem_example =
    MemorySpec.allocate_lem 4096 64 8 4112 gap gap_filled gap-IsValid (omega arith) gap_filled_run

deallocate_lem_example :
    MemorySpec.IsValid 4096 64 gap_merged
    × ((a : ℕ)
        → MemorySpec.in_allocation gap_merged a
          ≡ (MemorySpec.in_allocation gap a && not (within 4128 16 a)))
deallocate_lem_example =
    MemorySpec.deallocate_lem 4096 64 4128 16 gap gap_merged gap-IsValid (omega arith)
      gap_merged_run

deallocate-allocate_example : MemoryManager.deallocate gap_filled 4112 8 ≡ ok gap
deallocate-allocate_example =
    MemorySpec.deallocate-allocate 4096 64 8 4112 gap gap_filled gap-IsValid gap_filled_run

allocate_complete_example :
    ((a : ℕ) → within 4112 17 a ≡ true → MemorySpec.in_allocation gap a ≡ false) → ⊥
allocate_complete_example =
    MemorySpec.allocate_complete 4096 64 17 4112 gap gap-IsValid gap_full_run (omega arith)
      (omega arith)

can_allocate_iff_example :
    (MemoryManager.can_allocate gap 16 ≡ true)
    ↔ ((r : ℕ × MemoryManager) × (MemoryManager.allocate gap 16 ≡ ok r))
can_allocate_iff_example = MemorySpec.can_allocate_iff gap 16

in_use_iff_example :
    (MemoryManager.in_use gap ≡ false) ↔ ((a : ℕ) → MemorySpec.in_allocation gap a ≡ false)
in_use_iff_example = MemorySpec.in_use_iff 4096 64 gap gap-IsValid

-- Two buffers are taken, and the first is given back; then the second.
abbrev one_left : MemoryManager
one_left = record { blocks = open_at 4096 16 ∷ taken 4112 8 ∷ open_at 4120 40 ∷ [] }

one_left-History : History 4096 64 one_left ((4112, 8) ∷ [])
unfolding MemoryManager.construct MemoryManager.allocate MemoryManager.deallocate first_fit carve
    release merge_next set_free
one_left-History =
    called
      (called (called created (acquires 16 4096 (omega arith) refl))
        (acquires 8 4112 (omega arith) refl))
      (gives_back 4096 16 ((4112, 8) ∷ []) [] refl)

abbrev none_left : MemoryManager
none_left = record { blocks = open_at 4096 64 ∷ [] }

none_left-History : History 4096 64 none_left []
unfolding MemoryManager.deallocate release release_after merge_next merge_prev set_free
none_left-History = called one_left-History (gives_back 4112 8 [] [] refl)

held_buffers_example :
    ((p s : ℕ)
      → Holds p s ((4112, 8) ∷ [])
      → (4096 ≤ p)
        × (p + s ≤ 4096 + 64)
        × ((m' : MemoryManager) × (MemoryManager.deallocate one_left p s ≡ ok m')))
    × ((a : ℕ) → owners ((4112, 8) ∷ []) a ≤ 1)
held_buffers_example =
    held_buffers 4096 64 one_left ((4112, 8) ∷ []) (omega arith) (omega arith) (omega arith)
      one_left-History

all_given_back_example : none_left ≡ MemoryManager.construct 4096 64
all_given_back_example =
    all_given_back 4096 64 none_left (omega arith) (omega arith) (omega arith) none_left-History

-- Ten notification ids, the first of them and a pair handed out.
abbrev ids : NotificationManager
ids = record { blocks = taken 0 1 ∷ open_at 1 3 ∷ taken 4 2 ∷ open_at 6 4 ∷ [] }

abbrev more_ids : NotificationManager
more_ids = record { blocks = taken 0 1 ∷ taken 1 2 ∷ open_at 3 1 ∷ taken 4 2 ∷ open_at 6 4 ∷ [] }

abbrev fewer_ids : NotificationManager
fewer_ids = record { blocks = taken 0 1 ∷ open_at 1 9 ∷ [] }

ids-IsValid : NotificationSpec.IsValid 10 ids
ids-IsValid = ground arith

more_ids_run : NotificationManager.allocate ids 2 ≡ ok (1, more_ids)
unfolding NotificationManager.allocate first_fit carve
more_ids_run = refl

fewer_ids_run : NotificationManager.deallocate ids 4 ≡ ok fewer_ids
unfolding NotificationManager.deallocate release release_after merge_next merge_prev set_free
fewer_ids_run = refl

allocate_ids_example :
    NotificationSpec.IsValid 10 more_ids
    × (0 < 2)
    × (1 + 2 ≤ 10)
    × ((a : ℕ) → (within 1 2 a && NotificationSpec.acquired ids a) ≡ false)
    × ((a : ℕ)
        → NotificationSpec.acquired more_ids a ≡ (within 1 2 a || NotificationSpec.acquired ids a))
    × (size_at 1 more_ids.blocks ≡ 2)
allocate_ids_example = NotificationSpec.allocate_ids 10 2 1 ids more_ids ids-IsValid more_ids_run

deallocate_ids_example :
    NotificationSpec.IsValid 10 fewer_ids
    × (0 < size_at 4 ids.blocks)
    × (4 + size_at 4 ids.blocks ≤ 10)
    × ((a : ℕ)
        → NotificationSpec.acquired fewer_ids a
          ≡ (NotificationSpec.acquired ids a && not (within 4 (size_at 4 ids.blocks) a)))
deallocate_ids_example =
    NotificationSpec.deallocate_ids 10 4 ids fewer_ids ids-IsValid fewer_ids_run

deallocate-allocate_ids_example : NotificationManager.deallocate more_ids 1 ≡ ok ids
deallocate-allocate_ids_example =
    NotificationSpec.deallocate-allocate_ids 10 2 1 ids more_ids ids-IsValid more_ids_run

allocate_one_example : (r : ℕ × NotificationManager) × (NotificationManager.allocate ids 1 ≡ ok r)
allocate_one_example = NotificationSpec.allocate_one 10 7 ids ids-IsValid (omega arith) refl

-- A segment with that memory and those ids.
abbrev segment : SegmentManager
segment = record {
  segment_id = 0;
  segment_ptr = 4096;
  segment_size = 64;
  memory_manager = gap;
  notify_manager = ids;
}

segment-IsValid : SegmentSpec.IsValid 10 segment
segment-IsValid = record { memory = gap-IsValid; notify = ids-IsValid }

abbrev segment_filled : SegmentManager
segment_filled = record segment { memory_manager = gap_filled }

abbrev segment_acquired : SegmentManager
segment_acquired = record segment {
  notify_manager = record {
    blocks = taken 0 1 ∷ taken 1 1 ∷ open_at 2 2 ∷ taken 4 2 ∷ open_at 6 4 ∷ [];
  };
}

segment_filled_run : SegmentManager.allocate segment 8 ≡ ok (4112, segment_filled)
unfolding SegmentManager.allocate MemoryManager.allocate first_fit carve
segment_filled_run = refl

segment_acquired_run : SegmentManager.acquire_notification segment ≡ ok (1, segment_acquired)
unfolding SegmentManager.acquire_notification NotificationManager.allocate first_fit carve
segment_acquired_run = refl

pointer_to_offset-allocate_example :
    SegmentSpec.IsValid 10 segment_filled
    × (SegmentManager.pointer_to_offset segment_filled 4112 + 8 ≤ 64)
    × (4096 + SegmentManager.pointer_to_offset segment_filled 4112 ≡ 4112)
pointer_to_offset-allocate_example =
    SegmentSpec.pointer_to_offset-allocate 10 8 4112 segment segment_filled segment-IsValid
      (omega arith) segment_filled_run

release-acquire_notification_example :
    SegmentSpec.IsValid 10 segment_acquired
    × (1 < 10)
    × (NotificationSpec.acquired segment.notify_manager 1 ≡ false)
    × (NotificationSpec.acquired segment_acquired.notify_manager 1 ≡ true)
    × (SegmentManager.release_notification segment_acquired 1 ≡ ok segment)
release-acquire_notification_example =
    SegmentSpec.release-acquire_notification 10 1 segment segment_acquired segment-IsValid
      segment_acquired_run

-- One more than the largest `k` below `b` with 2 ^ k < n, 0 if there is none.
abbrev powers_below : ℕ → ℕ → ℕ
powers_below zero n = 0
powers_below (suc b) n = let rest = powers_below b n in if ltb (2 ^ b) n then b + 1 else rest

-- Segments that start at 4096, and arithmetic in halves: the logarithm, to the base 2, of a number that is
-- above 1 is half of one below the next whole number.
abbrev plain : Platform
plain = record {
  Double = ℕ;
  to_double = λ n. 2 * n;
  to_size = λ x. x / 2;
  divide = λ x y. x;
  log = λ x. 2 * powers_below 32 (x / 2) - 1;
  ceil = λ x. 2 * ((x + 1) / 2);
  pow = λ x y. 2 * (x / 2) ^ (y / 2);
  new_segment = λ ss n. SegmentManager.construct 1 4096 n 8;
}

abbrev pool : DynamicSegmentPool
pool = record { size_per_segment = 64; max_segment_size = 1024; segments = segment ∷ [] }
