-- ===== src/Segment/NotificationManager.antt =====
-- src/segment/NotificationManager.cpp: the allocator of a segment's notification ids. Every method
-- holds the mutex throughout, so a call is one step.
pub mod Spec
use gaspi_cxx.Common.{
  ℕ, Bool, true, List, [], ◌∷◌, Option, none, some, Result, ok, err, bad_alloc, runtime_error, ◌==◌,
  if◌then◌else◌, ◌>>=◌,
}
use gaspi_cxx.Segment.Blocks.{Block, first_fit, release}

pub record NotificationManager : Type 0 where
  pub blocks : List Block

unfoldable pub construct : ℕ → NotificationManager
construct notification_size = record {
  blocks = record { g_start = 0; size = notification_size; free = true } ∷ [];
}

abbrev pub or_bad_alloc : Option (ℕ × List Block) → Result (ℕ × NotificationManager)
or_bad_alloc none = err bad_alloc
or_bad_alloc (some r) = ok (r.0, record { blocks = r.1 })

-- "Requested 0 notifications" is an error here.
unfoldable pub allocate : NotificationManager → ℕ → Result (ℕ × NotificationManager)
allocate m size = if size == 0 then err runtime_error else or_bad_alloc (first_fit size m.blocks)

-- The size of the block is not checked.
unfoldable pub deallocate : NotificationManager → ℕ → Result NotificationManager
deallocate m g_ptr =
    release (λ _. true) g_ptr m.blocks >>= λ blocks. ok (record { blocks = blocks })
