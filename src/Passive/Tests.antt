-- ===== src/Passive/Tests.antt =====
-- Senders and receivers of two tags, and a receive from another rank.
use gaspi_cxx.Common.{ℕ, ◌<◌, ◌^◌, ◌≡◌, refl, List, [], ◌∷◌, ◌++◌, ok, err, runtime_error, arith}
use gaspi_cxx.Contexts.Gaspi.{BufferDescription}
use gaspi_cxx.Serialization.Memory.{Memory}
use gaspi_cxx.Serialization.Scalar.{Object, Representable}
use gaspi_cxx.Passive.{
  Key, Waiting, insert, erase, match_src, match_rcv, CommunicationContext, Passive,
  i_send_recv_comm, handle_tagged_src_buffer_desc, handle_tagged_rcv_buffer_desc,
}
use gaspi_cxx.Passive.Matching.{
  Call, src_call, rcv_call, run, no_one, sources_of, receivers_of, paired_sources, paired_receivers,
  optional, OneSide, Pairing, matched_in_order,
}
use gaspi_cxx.Passive.Receivers.{
  Platform, Places, sent, goes_on, i_recv_tag_messg, passive_thread_round, remote_receive,
}

abbrev here : Key
here = record { tag = 7; rank = 1 }

abbrev there : Key
there = record { tag = 8; rank = 1 }

abbrev buffer : ℕ → BufferDescription
buffer n = record { rank = 0; segment_id = 0; offset = n; size = 4; notification_id = n }

abbrev calls : List Call
calls =
    src_call here (buffer 1)
    ∷ src_call there (buffer 2)
    ∷ rcv_call here (buffer 3)
    ∷ src_call here (buffer 4)
    ∷ []

abbrev left_over : Waiting
left_over = record {
  src_target_buffers =
      insert here (buffer 4)
        (erase here (insert there (buffer 2) (insert here (buffer 1) no_one.src_target_buffers)));
  rcv_target_buffers = no_one.rcv_target_buffers;
}

abbrev paired : List Pairing
paired = (here, buffer 1, buffer 3) ∷ []

calls-run : run calls no_one ≡ ok (left_over, paired)
unfolding run match_src match_rcv
calls-run = refl

matched_in_order_example :
    (sources_of here calls
      ≡ paired_sources here paired ++ optional (left_over.src_target_buffers here))
    × (receivers_of here calls
        ≡ paired_receivers here paired ++ optional (left_over.rcv_target_buffers here))
    × OneSide here left_over
matched_in_order_example = matched_in_order here calls left_over paired calls-run

-- A second source of a tag and rank that waits already.
second_throws : match_src here (buffer 5) left_over ≡ err runtime_error
unfolding match_src
second_throws = refl

-- Writes are logged.
abbrev log : CommunicationContext (List (BufferDescription × BufferDescription))
log = record {
  write = λ s r c. (ok tt, c ++ (s, r) ∷ []);
  notify = λ d c. (ok tt, c);
  flush = λ c. (ok tt, c);
}

abbrev idle : Passive (List (BufferDescription × BufferDescription))
idle = record { waiting = no_one; context = [] }

communicates :
    (handle_tagged_rcv_buffer_desc log 1 7
      (buffer 3)
      (handle_tagged_src_buffer_desc log 1 7 (buffer 1) idle).1).1.context
    ≡ (buffer 1, buffer 3) ∷ []
unfolding handle_tagged_rcv_buffer_desc handle_tagged_src_buffer_desc match_src match_rcv
    i_send_recv_comm
communicates = refl

abbrev first : List ℕ → ℕ
first [] = 0
first (b ∷ bs) = b

abbrev cell : Object ℕ
cell = record { sizeof = 1; to_bytes = λ n. n ∷ []; from_bytes = first }

cell_law : Representable cell (λ n. n < 2 ^ 31)
cell_law = record { to_size = λ a v. refl; back = λ a v. refl }

abbrev platform : Platform
platform = record {
  int_object = cell;
  tag_object = cell;
  fields = record {
    rank_object = cell;
    segment_object = cell;
    offset_object = cell;
    size_object = cell;
    id_object = cell;
  };
}

abbrev places : Places
places = record { pkg_buffer = 10; send_buffer = 100; receive_buffer = 200; msg_ptr = 300 }

abbrev blank : Memory
blank p = 0

remote_receive_example :
    (message : List ℕ) × ((i_recv_tag_messg log platform places 0 1 7 (buffer 3) blank idle).0
      ≡ sent 1 message)
    × (passive_thread_round log platform places 0 message blank idle
        ≡ goes_on (handle_tagged_rcv_buffer_desc log 0 7 (buffer 3) idle))
remote_receive_example =
    remote_receive log platform places cell_law cell_law cell_law cell_law cell_law cell_law
      cell_law 0 1 7 (buffer 3) blank blank idle idle (λ e. absurd (omega arith)) (omega arith)
      (omega arith) (omega arith) (grind arith)
