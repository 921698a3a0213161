-- ===== src/Segment/SegmentManager/Spec.antt =====
-- What a segment promises of the buffers and the notification ids that it hands out.
use gaspi_cxx.Common.{
  ℕ, ◌+◌, ◌<◌, ◌≤◌, ◌≡◌, true, false, ok, arith, Result-cases, inl, inr, size_mod,
}
use gaspi_cxx.Segment.MemoryManager
use gaspi_cxx.Segment.MemoryManager.{MemoryManager}
use gaspi_cxx.Segment.MemoryManager.Spec
use gaspi_cxx.Segment.NotificationManager
use gaspi_cxx.Segment.NotificationManager.{NotificationManager}
use gaspi_cxx.Segment.NotificationManager.Spec as NotificationSpec
use gaspi_cxx.Segment.SegmentManager.{
  SegmentManager, construct, pointer_to_offset, has_free_memory, allocate, acquire_notification,
  release_notification,
}

pub record IsValid (notification_num : ℕ) (s : SegmentManager) : Type 0 where
  pub memory : Spec.IsValid s.segment_ptr s.segment_size s.memory_manager
  pub notify : NotificationSpec.IsValid notification_num s.notify_manager

pub construct-IsValid :
    (id ptr size num : ℕ)
    → 0 < ptr
    → 0 < size
    → ptr + size < size_mod
    → 0 < num
    → num < size_mod
    → IsValid num (construct id ptr size num)
unfolding construct
construct-IsValid id ptr size num hp hs hm hn hn' = record {
  memory = Spec.construct-IsValid ptr size hp hs hm;
  notify = NotificationSpec.construct-IsValid num hn hn';
}

allocate_parts :
    (s s' : SegmentManager) (size p : ℕ)
    → allocate s size ≡ ok (p, s')
    → (m : MemoryManager) × (MemoryManager.allocate s.memory_manager size ≡ ok (p, m))
      × (s' ≡ record s { memory_manager = m })
unfolding allocate
allocate_parts s s' size p e = elim (Result-cases (MemoryManager.allocate s.memory_manager size)) [
  | inl (_, e') ↦ (s.memory_manager, ground arith, ground arith)
  | inr (r, e') ↦ (r.1, ground arith, ground arith)
]

acquire_parts :
    (s s' : SegmentManager) (n : ℕ)
    → acquire_notification s ≡ ok (n, s')
    → (m : NotificationManager) × (NotificationManager.allocate s.notify_manager 1 ≡ ok (n, m))
      × (s' ≡ record s { notify_manager = m })
unfolding acquire_notification
acquire_parts s s' n e = elim (Result-cases (NotificationManager.allocate s.notify_manager 1)) [
  | inl (_, e') ↦ (s.notify_manager, ground arith, ground arith)
  | inr (r, e') ↦ (r.1, ground arith, ground arith)
]

-- A buffer of `size` > 0 bytes that a valid segment hands out lies inside the segment: its offset
-- and its last byte are offsets below the segment's size. The segment stays valid.
pub pointer_to_offset-allocate :
    (num size p : ℕ) (s s' : SegmentManager)
    → IsValid num s
    → 0 < size
    → allocate s size ≡ ok (p, s')
    → IsValid num s'
      × (pointer_to_offset s' p + size ≤ s'.segment_size)
      × (s'.segment_ptr + pointer_to_offset s' p ≡ p)
unfolding pointer_to_offset
pointer_to_offset-allocate num size p s s' v hs e =
    let (m, e', es) = allocate_parts s s' size p e in
    let (valid, low, high, _, _) =
      Spec.allocate_lem s.segment_ptr s.segment_size size p s.memory_manager m v.memory hs e' in
    rw es (
      record { memory = valid; notify = v.notify },
      omega (arith, v.memory.no_wrap),
      omega (arith, v.memory.no_wrap),
    )

has_free_memory_of_allocate :
    (s : SegmentManager) (size : ℕ) (r : ℕ × SegmentManager)
    → allocate s size ≡ ok r
    → has_free_memory s size ≡ true
unfolding has_free_memory
has_free_memory_of_allocate s size r e =
    let (m, e', _) = allocate_parts s r.1 size r.0 e in
    (Spec.can_allocate_iff s.memory_manager size).1 ((r.0, m), e')

-- On a valid segment an acquired notification id is below the number of notifications and was not
-- handed out before; releasing it restores the segment as it was.
pub release-acquire_notification :
    (num n : ℕ) (s s' : SegmentManager)
    → IsValid num s
    → acquire_notification s ≡ ok (n, s')
    → IsValid num s'
      × (n < num)
      × (NotificationSpec.acquired s.notify_manager n ≡ false)
      × (NotificationSpec.acquired s'.notify_manager n ≡ true)
      × (release_notification s' n ≡ ok s)
unfolding release_notification
release-acquire_notification num n s s' v e =
    let (m, e', es) = acquire_parts s s' n e in
    let (valid, _, high, fresh, change, _) =
      NotificationSpec.allocate_ids num 1 n s.notify_manager m v.notify e' in
    rw es (
      record { memory = v.memory; notify = valid },
      omega (arith, high),
      ground (arith, fresh n),
      ground (arith, change n),
      ground
          (arith, NotificationSpec.deallocate-allocate_ids num 1 n s.notify_manager m v.notify e'),
    )

-- A segment just made has room for any request up to its size.
pub has_free_memory-construct :
    (id ptr n num size : ℕ) → size ≤ n → has_free_memory (construct id ptr n num) size ≡ true
unfolding has_free_memory construct
has_free_memory-construct id ptr n num size h = Spec.can_allocate-construct size ptr n h
