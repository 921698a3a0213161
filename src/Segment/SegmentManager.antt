-- ===== src/Segment/SegmentManager.antt =====
-- src/segment/SegmentManager.cpp: a GASPI segment with the allocators of its memory and of its
-- notification ids. The address and the size of the segment and the number of notifications, which
-- come from `gaspi_segment_ptr`, `gaspi_segment_size` and `gaspi_notification_num`, are arguments of
-- the constructor; they do not change while the segment lives. Notification ids pass through `int`,
-- which holds every id, since GPI has fewer than 2 ^ 31 notifications.
pub mod Spec
use gaspi_cxx.Common.{ℕ, ◌≡◌, Bool, Result, ok, err, sub_size, ◌>>=◌}
use gaspi_cxx.Segment.MemoryManager
use gaspi_cxx.Segment.MemoryManager.{MemoryManager}
use gaspi_cxx.Segment.NotificationManager
use gaspi_cxx.Segment.NotificationManager.{NotificationManager}

pub record SegmentManager : Type 0 where
  pub segment_id : ℕ
  pub segment_ptr : ℕ
  pub segment_size : ℕ
  pub memory_manager : MemoryManager
  pub notify_manager : NotificationManager

-- `SegmentManager(segmentID)`
unfoldable pub construct : ℕ → ℕ → ℕ → ℕ → SegmentManager
construct segment_id ptr size notification_num = record {
  segment_id = segment_id;
  segment_ptr = ptr;
  segment_size = size;
  memory_manager = MemoryManager.construct ptr size;
  notify_manager = NotificationManager.construct notification_num;
}

unfoldable pub pointer_to_offset : SegmentManager → ℕ → ℕ
pointer_to_offset s pointer = sub_size pointer s.segment_ptr

unfoldable pub has_free_memory : SegmentManager → ℕ → Bool
has_free_memory s size = MemoryManager.can_allocate s.memory_manager size

-- `allocator().allocate(size)` and `allocator().deallocate(pointer, size)` for bytes
unfoldable pub allocate : SegmentManager → ℕ → Result (ℕ × SegmentManager)
allocate s size = MemoryManager.allocate s.memory_manager size >>= λ r.
    ok (r.0, record s { memory_manager = r.1 })

pub deallocate : SegmentManager → ℕ → ℕ → Result SegmentManager
deallocate s pointer size = MemoryManager.deallocate s.memory_manager pointer size >>= λ m.
    ok (record s { memory_manager = m })

unfoldable pub acquire_notification : SegmentManager → Result (ℕ × SegmentManager)
acquire_notification s = NotificationManager.allocate s.notify_manager 1 >>= λ r.
    ok (r.0, record s { notify_manager = r.1 })

unfoldable pub release_notification : SegmentManager → ℕ → Result SegmentManager
release_notification s notification =
    NotificationManager.deallocate s.notify_manager notification >>= λ m.
    ok (record s { notify_manager = m })
