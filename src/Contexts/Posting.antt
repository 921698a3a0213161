-- ===== src/Contexts/Posting.antt =====
-- What a call of `writePart` of the two contexts posts, when the calls of GASPI do what its standard says.
use gaspi_cxx.Common.{
  ℕ, zero, suc, ◌+◌, ◌%◌, ◌<◌, ◌≤◌, ◌≡◌, inl, inr, List, [], ◌∷◌, ◌++◌, refl, ap, subst, ◌∙◌, true,
  false, ltb, leb, ◌==◌, if◌then◌else◌, ◌&&◌, Option, none, some, Result, ok, err, runtime_error,
  length, get_elem?-lt_length, add_size, arith, Bool-cases, Result-cases, size_mod,
}
use gaspi_cxx.Contexts.Gaspi.{
  BufferDescription, Request, write_notify, notify_only, Gaspi, Documented,
}
use gaspi_cxx.Contexts.RoundRobin
use gaspi_cxx.Contexts.SingleQueue

-- The request for a part of a source buffer, which must hold it, and the target buffer, too. Nothing to write
-- is a notification.
abbrev pub part : BufferDescription → BufferDescription → ℕ → ℕ → Option Request
part source target size offset =
    if leb (add_size offset size) source.size && leb size target.size
    then (if size == 0
        then some (notify_only target.segment_id target.rank target.notification_id 1)
        else some (
            write_notify source.segment_id (add_size source.offset offset) target.rank
              target.segment_id target.offset size target.notification_id 1))
    else none

-- The round robin context does not look at the sizes when there is nothing to write.
abbrev pub part_or_notification : BufferDescription → BufferDescription → ℕ → ℕ → Option Request
part_or_notification source target size offset =
    if size == 0
    then some (notify_only target.segment_id target.rank target.notification_id 1)
    else part source target size offset

module _ {G : Type 0} (gaspi : Gaspi G) (posted : G → List Request)
    (documented : Documented gaspi posted) where
  -- A call that posts one request, once, and otherwise changes at most the queue in use; or one that
  -- throws and changes nothing.
  abbrev pub Posts :
      Option Request
      → RoundRobin.Context G
      → Option (Result (Unit {0}) × RoundRobin.Context G)
      → Type 0
  Posts none c out = out ≡ some (err runtime_error, c)
  Posts (some r) c out =
      (c' : RoundRobin.Context G) × (out ≡ some (ok tt, c'))
      × (posted c'.state ≡ posted c.state ++ r ∷ [])
      × (c'.gaspi_queues ≡ c.gaspi_queues)
      × (c'.queue_index < length c'.gaspi_queues)

  post_loop_lem :
      (fuel : ℕ) (r : Request) (c : RoundRobin.Context G)
      → c.queue_index < length c.gaspi_queues
      → Posts (some r) c (RoundRobin.post_loop gaspi (suc (suc fuel)) r c.queue_index c)
  unfolding RoundRobin.post_loop RoundRobin.select_available_queue
  post_loop_lem fuel r c h =
      let (q, at) = get_elem?-lt_length c.gaspi_queues c.queue_index h in
      let n = length c.gaspi_queues in
      let next = (c.queue_index + 1) % n in
      let next-lt : next < n = omega arith in
      let (q', at') = get_elem?-lt_length c.gaspi_queues next next-lt in
      elim (documented.taken_or_full q r c.state) [
        | inl success ↦ (
          record c { state = (gaspi.post q r c.state).1 },
          ground (arith, at, success),
          documented.taken q r c.state success,
          refl,
          h,
        )
        | inr full ↦
            let g = (gaspi.post q r c.state).1 in
            let g' = (gaspi.wait q' g).1 in
            let success = documented.emptied q' r g in
            let same : (c.queue_index == c.queue_index) ≡ true = ground arith in
            (
              record c { state = (gaspi.post q' r g').1; queue_index = next },
              ground (arith, at, full, same, at', documented.waited q' g, success),
              documented.taken q' r g' success
                  ∙ ap (λ l. l ++ r ∷ [])
                      (documented.kept q' g ∙ documented.refused q r c.state full),
              refl,
              next-lt,
            )
      ]

  -- On a context with a current queue, when no call of GASPI fails and a wait on a queue makes room in it: with
  -- fuel for two rounds, `writePart` posts exactly one request and returns, or it throws and changes nothing.
  -- It posts a notification when the size is 0, whatever the buffers; otherwise the write, when the part of
  -- the source (offset plus size modulo 2 ^ 64) and the target can hold it; else it throws. Afterwards the
  -- context has the same queues, and a current one.
  pub write_part-Posts :
      (fuel : ℕ) (source target : BufferDescription) (size offset : ℕ) (c : RoundRobin.Context G)
      → c.queue_index < length c.gaspi_queues
      → Posts
          (part_or_notification source target size offset)
          c
          (RoundRobin.write_part gaspi (suc (suc fuel)) source target size offset c)
  unfolding RoundRobin.write_part
  write_part-Posts fuel source target size offset c h =
      let total = add_size offset size in
      elim (Bool-cases (size == 0)) [
        | inl nothing ↦ rw nothing (
            post_loop_lem fuel (notify_only target.segment_id target.rank target.notification_id 1)
              c h)
        | inr some_bytes ↦ elim (Bool-cases (leb total source.size && leb size target.size)) [
          | inl fits ↦
              let source_test : ltb source.size total ≡ false = ground arith in
              let target_test : ltb target.size size ≡ false = ground arith in
              rw (some_bytes, source_test, target_test, fits)
                (post_loop_lem fuel
                  (write_notify source.segment_id (add_size source.offset offset) target.rank
                    target.segment_id target.offset size target.notification_id 1)
                  c h)
          | inr exceeds ↦
              let refused : RoundRobin.write_part gaspi (suc (suc fuel)) source target size offset c
                  ≡ some (err runtime_error, c) =
                ground arith in
              rw (some_bytes, exceeds) (ground arith)
        ]
      ]

  abbrev pub SinglePosts :
      Option Request
      → SingleQueue.Context G
      → Option (Result (Unit {0}) × SingleQueue.Context G)
      → Type 0
  SinglePosts none c out = out ≡ some (err runtime_error, c)
  SinglePosts (some r) c out =
      (c' : SingleQueue.Context G) × (out ≡ some (ok tt, c'))
      × (posted c'.state ≡ posted c.state ++ r ∷ [])
      × (c'.queue ≡ c.queue)

  single_loop_lem :
      (fuel : ℕ) (r : Request) (c : SingleQueue.Context G)
      → SinglePosts (some r) c (SingleQueue.post_loop gaspi (suc (suc fuel)) r c)
  unfolding SingleQueue.post_loop
  single_loop_lem fuel r c =
      let q = c.queue in
      elim (documented.taken_or_full q r c.state) [
        | inl success ↦ (
          record c { state = (gaspi.post q r c.state).1 },
          ground (arith, success),
          documented.taken q r c.state success,
          refl,
        )
        | inr full ↦
            let g = (gaspi.post q r c.state).1 in
            let g' = (gaspi.wait q g).1 in
            let success = documented.emptied q r g in
            (
              record c { state = (gaspi.post q r g').1 },
              ground (arith, full, documented.waited q g, success),
              documented.taken q r g' success
                  ∙ ap (λ l. l ++ r ∷ [])
                      (documented.kept q g ∙ documented.refused q r c.state full),
              refl,
            )
      ]

  pub single_write_part_lem :
      (fuel : ℕ) (source target : BufferDescription) (size offset : ℕ) (c : SingleQueue.Context G)
      → SinglePosts
          (part source target size offset)
          c
          (SingleQueue.write_part gaspi (suc (suc fuel)) source target size offset c)
  unfolding SingleQueue.write_part
  single_write_part_lem fuel source target size offset c =
      let total = add_size offset size in
      elim (Bool-cases (leb total source.size && leb size target.size)) [
        | inl fits ↦
            let source_test : ltb source.size total ≡ false = ground arith in
            let target_test : ltb target.size size ≡ false = ground arith in
            elim (Bool-cases (size == 0)) [
              | inl nothing ↦
                  let test : ltb 0 size ≡ false = ground arith in
                  rw (source_test, target_test, fits, test, nothing)
                    (single_loop_lem fuel
                      (notify_only target.segment_id target.rank target.notification_id 1) c)
              | inr some_bytes ↦
                  let test : ltb 0 size ≡ true = ground arith in
                  rw (source_test, target_test, fits, test, some_bytes)
                    (single_loop_lem fuel
                      (write_notify source.segment_id (add_size source.offset offset) target.rank
                        target.segment_id target.offset size target.notification_id 1)
                      c)
            ]
        | inr exceeds ↦
            let refused : SingleQueue.write_part gaspi (suc (suc fuel)) source target size offset c
                ≡ some (err runtime_error, c) =
              ground arith in
            rw exceeds (ground (arith, refused))
      ]

  -- For GASPI calls that take the request or find the queue full, and where a wait on a queue makes room in
  -- it; for a context of several queues whose queue index is that of one of them; for a source of less than
  -- 2 ^ 64 bytes, and when the offset is in it or there is something to write: `writePart` of each posts
  -- exactly one request, the same one, and returns, or both throw and change nothing, when the source or
  -- the target cannot hold the part.
  pub contexts_agree :
      (fuel : ℕ) (source target : BufferDescription) (size offset : ℕ) (c : RoundRobin.Context G)
      (single : SingleQueue.Context G)
      → c.queue_index < length c.gaspi_queues
      → (size ≡ 0 → offset ≤ source.size)
      → source.size < size_mod
      → Posts
          (part source target size offset)
          c
          (RoundRobin.write_part gaspi (suc (suc fuel)) source target size offset c)
        × SinglePosts
            (part source target size offset)
            single
            (SingleQueue.write_part gaspi (suc (suc fuel)) source target size offset single)
  contexts_agree fuel source target size offset c single h ho hs =
      let same : part_or_notification source target size offset ≡ part source target size offset =
        ground (arith, ho) in
      (
        subst
            (λ r.
              Posts r c (RoundRobin.write_part gaspi (suc (suc fuel)) source target size offset c))
            same (write_part-Posts fuel source target size offset c h),
        single_write_part_lem fuel source target size offset single,
      )

  create_queues-length :
      (k : ℕ) (g : G) (ids : List ℕ)
      → (RoundRobin.create_queues gaspi k g).0 ≡ ok ids
      → length ids ≡ k
  create_queues-length zero g ids h = ground arith
  create_queues-length (suc k) g ids h =
      let (ret, id, g') = gaspi.queue_create g in
      elim (Result-cases (RoundRobin.create_queues gaspi k g').0) [
        | inl (thrown, e) ↦ ground (arith, e)
        | inr (others, e) ↦ ground (arith, e, create_queues-length k g' others e)
      ]

  -- What the constructor makes has as many queues as asked for, at least one, and a current one.
  pub construct_ready :
      (num_queues : ℕ) (g : G) (c : RoundRobin.Context G)
      → RoundRobin.construct gaspi num_queues g ≡ ok c
      → (length c.gaspi_queues ≡ num_queues) × (c.queue_index < length c.gaspi_queues)
  unfolding RoundRobin.construct RoundRobin.get_number_queues_allowed
  construct_ready num_queues g c h =
      elim (Result-cases (RoundRobin.create_queues gaspi num_queues g).0) [
        | inl (thrown, e) ↦ ground (arith, e)
        | inr (ids, e) ↦
            let size = create_queues-length num_queues g ids e in
            (ground (arith, e, size), ground (arith, e, size))
      ]
