-- ===== src/Contexts/SingleQueue.antt =====
-- src/SingleQueueContext.cpp.
use gaspi_cxx.Common.{
  ℕ, zero, suc, ltb, if◌then◌else◌, Option, none, some, Result, ok, err, runtime_error, add_size,
}
use gaspi_cxx.Contexts.Gaspi.{
  BufferDescription, gaspi_success, gaspi_timeout, gaspi_queue_full, gaspi_error, Request,
  write_notify, notify_only, Gaspi, check,
}

pub record Context (G : Type 0) : Type 0 where
  pub queue : ℕ
  pub state : G

module _ {G : Type 0} (gaspi : Gaspi G) where
  abbrev pub flush : Context G → Result (Unit {0}) × Context G
  flush c = let (ret, g) = gaspi.wait c.queue c.state in (check ret, record c { state = g })

  -- The loops of `writePart` and `notify`, with fuel for their rounds. `none`: the fuel ran out.
  unfoldable pub post_loop : ℕ → Request → Context G → Option (Result (Unit {0}) × Context G)
  post_loop zero request c = none
  post_loop (suc fuel) request c =
      let (ret, g) = gaspi.post c.queue request c.state in
      let c' = record c { state = g } in
      let (flushed, c'') = flush c' in
      let rest = post_loop fuel request c'' in
      elim ret [
        | gaspi_success ↦ some (ok tt, c')
        | gaspi_queue_full ↦ elim flushed [ err thrown ↦ some (err thrown, c'') | ok _ ↦ rest ]
        | gaspi_timeout ↦ some (err runtime_error, c')
        | gaspi_error ↦ some (err runtime_error, c')
      ]

  abbrev pub notify : ℕ → BufferDescription → Context G → Option (Result (Unit {0}) × Context G)
  notify fuel target c =
      post_loop fuel (notify_only target.segment_id target.rank target.notification_id 1) c

  unfoldable pub write_part :
      ℕ
      → BufferDescription
      → BufferDescription
      → ℕ
      → ℕ
      → Context G
      → Option (Result (Unit {0}) × Context G)
  write_part fuel source target size offset c =
      if ltb source.size (add_size offset size)
      then some (err runtime_error, c)
      else if ltb target.size size
      then some (err runtime_error, c)
      else if ltb 0 size
      then post_loop fuel
          (write_notify source.segment_id (add_size source.offset offset) target.rank
            target.segment_id target.offset size target.notification_id 1)
          c
      else notify fuel target c
