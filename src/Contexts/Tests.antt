-- ===== src/Contexts/Tests.antt =====
-- An interface with queues of one place, and writes over them.
use gaspi_cxx.Common.{
  ℕ, ◌≡◌, List, [], ◌∷◌, ◌++◌, Bool, true, false, not, inl, inr, refl, ◌==◌, if◌then◌else◌, arith,
  none, some, ok, err, runtime_error, Bool-cases,
}
use gaspi_cxx.Common.Families.{update}
use gaspi_cxx.Contexts.Gaspi.{
  BufferDescription, gaspi_success, gaspi_timeout, gaspi_queue_full, Request, write_notify,
  notify_only, Gaspi, Documented,
}
use gaspi_cxx.Contexts.RoundRobin
use gaspi_cxx.Contexts.SingleQueue
use gaspi_cxx.Contexts.Notifications.{Flags, check_for_buffer_notification, check_resets}
use gaspi_cxx.Contexts.Posting.{
  Posts, SinglePosts, part_or_notification, write_part-Posts, contexts_agree,
}

-- Which queues are full, the requests taken, and the values of the notifications of one segment.
record Fabric : Type 0 where
  full : ℕ → Bool
  requests : List Request
  values : ℕ → ℕ

abbrev fabric : Gaspi Fabric
fabric = record {
  post = λ q r g. if g.full q then (gaspi_queue_full, g) else (
    gaspi_success,
    record g { full = update g.full q true; requests = g.requests ++ r ∷ [] },
  );
  wait = λ q g. (gaspi_success, record g { full = update g.full q false });
  queue_create = λ g. (gaspi_success, 0, g);
  queue_num = λ g. 1;
  queue_max = λ g. 8;
  notify_waitsome =
      λ blocking s i g. if g.values i == 0 then (gaspi_timeout, i, g) else (gaspi_success, i, g);
  notify_reset = λ s i g. (gaspi_success, g.values i, record g { values = update g.values i 0 });
}

fabric_documented : Documented fabric (λ g. g.requests)
fabric_documented = record {
  taken_or_full = λ q r g. elim (Bool-cases (g.full q)) [
    | inl yes_full ↦ inr (ground (arith, yes_full))
    | inr room ↦ inl (ground (arith, room))
  ];
  taken = λ q r g h. elim (Bool-cases (g.full q)) [
    | inl yes_full ↦ ground (arith, yes_full, h)
    | inr room ↦ ground (arith, room)
  ];
  refused = λ q r g h. elim (Bool-cases (g.full q)) [
    | inl yes_full ↦ ground (arith, yes_full)
    | inr room ↦ ground (arith, room, h)
  ];
  waited = λ q g. refl;
  kept = λ q g. refl;
  emptied = λ q r g. ground arith;
}

fabric-Flags : Flags fabric (λ s i g. g.values i)
fabric-Flags = record {
  found = λ s i g h. ground arith;
  not_found = λ s i g h. (ground arith, ground arith);
  reset = λ s i g. (refl, refl, ground arith);
}

abbrev source : BufferDescription
source = record { rank = 0; segment_id = 1; offset = 64; size = 32; notification_id = 5 }

abbrev target : BufferDescription
target = record { rank = 3; segment_id = 1; offset = 128; size = 16; notification_id = 6 }

-- The current queue is full.
abbrev busy : Fabric
busy = record { full = λ q. true; requests = []; values = λ i. i }

abbrev context : RoundRobin.Context Fabric
context = record { gaspi_queues = 4 ∷ 7 ∷ []; queue_index = 1; state = busy }

abbrev single : SingleQueue.Context Fabric
single = record { queue = 4; state = busy }

write_part-Posts_example :
    Posts fabric
      (λ g. g.requests)
      fabric_documented
      (some (write_notify 1 72 3 1 128 16 6 1))
      context
      (RoundRobin.write_part fabric 2 source target 16 8 context)
write_part-Posts_example =
    write_part-Posts fabric (λ g. g.requests) fabric_documented 0 source target 16 8 context
      (omega arith)

contexts_agree_example :
    Posts fabric
      (λ g. g.requests)
      fabric_documented
      none
      context
      (RoundRobin.write_part fabric 2 source target 17 8 context)
    × SinglePosts fabric
        (λ g. g.requests)
        fabric_documented
        none
        single
        (SingleQueue.write_part fabric 2 source target 17 8 single)
contexts_agree_example =
    contexts_agree fabric (λ g. g.requests) fabric_documented 0 source target 17 8 context single
      (omega arith) (λ h. absurd (omega arith)) (omega arith)

check_resets_example :
    let (seen, g') = check_for_buffer_notification fabric target busy in
    (seen ≡ ok (not (6 == 0))) × ((check_for_buffer_notification fabric target g').0 ≡ ok false)
check_resets_example = check_resets fabric (λ s i g. g.values i) fabric-Flags target busy

-- With nothing to write and an offset behind the source, one context notifies and the other throws.
empty_outside_round_robin : part_or_notification source target 0 33 ≡ some (notify_only 1 3 6 1)
empty_outside_round_robin = refl

empty_outside_single :
    SingleQueue.write_part fabric 2 source target 0 33 single ≡ some (err runtime_error, single)
unfolding SingleQueue.write_part
empty_outside_single = refl
