-- ===== src/Contexts/Gaspi.antt =====
-- The calls of GASPI that the contexts make, as functions on a state `G` of the interface, and what its
-- standard says of them. A call gives its return value and the state after it.
use gaspi_cxx.Common.{ℕ, ◌≡◌, ◌⊎◌, List, [], ◌∷◌, ◌++◌, Bool, Result, ok, err, runtime_error}

-- singlesided/BufferDescription.hpp
pub record BufferDescription : Type 0 where
  pub rank : ℕ
  pub segment_id : ℕ
  pub offset : ℕ
  pub size : ℕ
  pub notification_id : ℕ

pub data GaspiReturn : Type 0 where
  gaspi_success gaspi_timeout gaspi_queue_full gaspi_error : GaspiReturn

-- The arguments of `gaspi_write_notify`: local segment and offset, rank, remote segment and offset, size,
-- notification and its value; and of `gaspi_notify`: segment, rank, notification and its value.
pub data Request : Type 0 where
  write_notify : (local_segment local_offset rank segment offset size id value : ℕ) → Request
  notify_only : (segment rank id value : ℕ) → Request

pub record Gaspi (G : Type 0) : Type 0 where
  -- `gaspi_write_notify` and `gaspi_notify`, blocking, on a queue
  pub post : ℕ → Request → G → GaspiReturn × G
  -- `gaspi_wait`, blocking, on a queue
  pub wait : ℕ → G → GaspiReturn × G
  pub queue_create : G → GaspiReturn × ℕ × G
  -- what `gaspi_queue_num` and `gaspi_queue_max` write
  pub queue_num : G → ℕ
  pub queue_max : G → ℕ
  -- `gaspi_notify_waitsome` for one notification of a segment; the Boolean says whether it blocks
  pub notify_waitsome : Bool → ℕ → ℕ → G → GaspiReturn × ℕ × G
  pub notify_reset : ℕ → ℕ → G → GaspiReturn × ℕ × G

-- `GASPI_CHECK` of utility/Macros.hpp
abbrev pub check : GaspiReturn → Result (Unit {0})
check gaspi_success = ok tt
check gaspi_timeout = err runtime_error
check gaspi_queue_full = err runtime_error
check gaspi_error = err runtime_error

-- What the standard says of posted requests, where no call fails: a request is taken or its queue is full,
-- and a wait empties the queue, so that the next request is taken. `posted` are the requests taken.
pub record Documented {G : Type 0} (gaspi : Gaspi G) (posted : G → List Request) : Type 0 where
  pub taken_or_full :
      (q : ℕ) (r : Request) (g : G)
      → ((gaspi.post q r g).0 ≡ gaspi_success) ⊎ ((gaspi.post q r g).0 ≡ gaspi_queue_full)
  pub taken :
      (q : ℕ) (r : Request) (g : G)
      → (gaspi.post q r g).0 ≡ gaspi_success
      → posted (gaspi.post q r g).1 ≡ posted g ++ r ∷ []
  pub refused :
      (q : ℕ) (r : Request) (g : G)
      → (gaspi.post q r g).0 ≡ gaspi_queue_full
      → posted (gaspi.post q r g).1 ≡ posted g
  pub waited : (q : ℕ) (g : G) → (gaspi.wait q g).0 ≡ gaspi_success
  pub kept : (q : ℕ) (g : G) → posted (gaspi.wait q g).1 ≡ posted g
  pub emptied :
      (q : ℕ) (r : Request) (g : G) → (gaspi.post q r (gaspi.wait q g).1).0 ≡ gaspi_success
