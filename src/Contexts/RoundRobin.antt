-- ===== src/Contexts/RoundRobin.antt =====
-- src/RoundRobinQueuesContext.cpp. A call gives the value or the exception, and the context after it. The
-- atomic `queue_index` is read once in a call and set only in `select_available_queue`.
use gaspi_cxx.Common.{
  ℕ, zero, suc, ◌+◌, ◌%◌, List, [], ◌∷◌, ltb, leb, ◌==◌, if◌then◌else◌, Option, none, some, Result,
  ok, err, runtime_error, logic_error, length, get_elem?, add_size, sub_size,
}
use gaspi_cxx.Contexts.Gaspi.{
  BufferDescription, gaspi_success, gaspi_timeout, gaspi_queue_full, gaspi_error, Request,
  write_notify, notify_only, Gaspi, check,
}

-- `gaspi_queues` by their ids
pub record Context (G : Type 0) : Type 0 where
  pub gaspi_queues : List ℕ
  pub queue_index : ℕ
  pub state : G

module _ {G : Type 0} (gaspi : Gaspi G) where
  -- `number_queues_allowed` is an unsigned difference.
  unfoldable pub get_number_queues_allowed : ℕ → G → Result ℕ
  get_number_queues_allowed num_queues g =
      if ltb (sub_size (gaspi.queue_max g) (gaspi.queue_num g)) num_queues
      then err runtime_error
      else ok num_queues

  -- `gaspi_queues(num_queues)`: the constructor of `Queue` for each of them.
  abbrev pub create_queues : ℕ → G → Result (List ℕ) × G
  create_queues zero g = (ok [], g)
  create_queues (suc k) g =
      let (ret, id, g') = gaspi.queue_create g in
      let (rest, g'') = create_queues k g' in
      elim (check ret) [
        | err thrown ↦ (err thrown, g')
        | ok _ ↦ elim rest [ err thrown ↦ (err thrown, g'') | ok ids ↦ (ok (id ∷ ids), g'') ]
      ]

  unfoldable pub construct : ℕ → G → Result (Context G)
  unfolding get_number_queues_allowed
  construct num_queues g =
      let (created, g') = create_queues num_queues g in
      elim (get_number_queues_allowed num_queues g) [
        | err thrown ↦ err thrown
        | ok _ ↦ elim created [
          | err thrown ↦ err thrown
          | ok ids ↦
              if leb num_queues 0
              then err runtime_error
              else ok (record { gaspi_queues = ids; queue_index = 0; state = g' })
        ]
      ]

  -- `gaspi_queues.at(i)`, which throws `std::out_of_range`
  abbrev pub queue_at : ℕ → Context G → Result ℕ
  queue_at i c = elim (get_elem? c.gaspi_queues i) [ none ↦ err logic_error | some q ↦ ok q ]

  -- `Queue::flush`
  abbrev pub flush_queue : ℕ → Context G → Result (Unit {0}) × Context G
  flush_queue q c = let (ret, g) = gaspi.wait q c.state in (check ret, record c { state = g })

  unfoldable pub select_available_queue : ℕ → Context G → Result ℕ × Context G
  select_available_queue full_queue_index c =
      let next = (c.queue_index + 1) % length c.gaspi_queues in
      if c.queue_index == full_queue_index
      then (elim (queue_at next c) [
        | err thrown ↦ (err thrown, c)
        | ok q ↦
            let (flushed, c') = flush_queue q c in
            elim flushed [
              | err thrown ↦ (err thrown, c')
              | ok _ ↦ (ok next, record c' { queue_index = next })
            ]
      ])
      else (ok c.queue_index, c)

  -- The loops of `writePart` and `notify`, with fuel for their rounds. `none`: the fuel ran out.
  unfoldable pub post_loop : ℕ → Request → ℕ → Context G → Option (Result (Unit {0}) × Context G)
  unfolding select_available_queue
  post_loop zero request current_queue_index c = none
  post_loop (suc fuel) request current_queue_index c = elim (queue_at current_queue_index c) [
    | err thrown ↦ some (err thrown, c)
    | ok q ↦
        let (ret, g) = gaspi.post q request c.state in
        let c' = record c { state = g } in
        let (selected, c'') = select_available_queue current_queue_index c' in
        elim ret [
          | gaspi_success ↦ some (ok tt, c')
          | gaspi_queue_full ↦ elim selected [
            | err thrown ↦ some (err thrown, c'')
            | ok i ↦ post_loop fuel request i c''
          ]
          | gaspi_timeout ↦ some (err runtime_error, c')
          | gaspi_error ↦ some (err runtime_error, c')
        ]
  ]

  abbrev pub notify : ℕ → BufferDescription → Context G → Option (Result (Unit {0}) × Context G)
  notify fuel target c =
      post_loop fuel (notify_only target.segment_id target.rank target.notification_id 1)
        c.queue_index c

  unfoldable pub write_part :
      ℕ
      → BufferDescription
      → BufferDescription
      → ℕ
      → ℕ
      → Context G
      → Option (Result (Unit {0}) × Context G)
  write_part fuel source target size offset c =
      if size == 0
      then notify fuel target c
      else if ltb source.size (add_size offset size)
      then some (err runtime_error, c)
      else if ltb target.size size
      then some (err runtime_error, c)
      else post_loop fuel
          (write_notify source.segment_id (add_size source.offset offset) target.rank
            target.segment_id target.offset size target.notification_id 1)
          c.queue_index c

  -- The loop of `flush` over the queues.
  abbrev pub flush_all : List ℕ → Context G → Result (Unit {0}) × Context G
  flush_all [] c = (ok tt, c)
  flush_all (q ∷ qs) c =
      let (flushed, c') = flush_queue q c in
      let rest = flush_all qs c' in elim flushed [ err thrown ↦ (err thrown, c') | ok _ ↦ rest ]

  abbrev pub flush : Context G → Result (Unit {0}) × Context G
  flush c = flush_all c.gaspi_queues c
