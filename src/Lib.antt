-- ===== src/Lib.antt =====
-- GaspiCxx, a C++ interface to the GASPI one-sided communication standard: a model of its segments, its
-- groups, its non-blocking collectives, its serialization, its queues and its passive messages.
--
-- The parts and how they interact. A process registers memory with GASPI as segments. A segment
-- (src/segment/SegmentManager.cpp) hands out buffers and notification ids by two first-fit allocators
-- (src/segment/MemoryManager.cpp, src/segment/NotificationManager.cpp), and a pool
-- (src/segment/DynamicSegmentPool.cpp, src/segment/SingleSegmentPool.cpp) says which segment a buffer
-- goes to. A group (src/group) numbers some of the processes from 0 on and arranges them on a ring. A
-- non-blocking collective (src/collectives/non_blocking, include/GaspiCxx/collectives/non_blocking) goes
-- through a life cycle that all collectives share, `CollectiveLowLevel`, and in it calls the algorithm of
-- a derived class; those modelled are the allreduce and the allgatherv on a ring and a broadcast,
-- `AllreduceRing.hpp`, `AllgathervRing.hpp` and `BroadcastSendToAll.hpp`.
--
-- The files:
--   Common: names of the libraries, Boolean tests, results of code that may throw, machine integers.
--   Segment/Blocks: the block list of the two allocators. Layout is its invariant, Memory what it says of
--     the addresses, RoundTrip and Complete the loops against one another, Live the allocated
--     blocks, Sizes the size that is given back where it is not checked.
--   Segment/MemoryManager, Segment/NotificationManager, Segment/SegmentManager, Segment/Pool: the classes
--     of the same names, each with its contract in Spec;
--     History has the calls of the memory manager's clients in any order.
--   Group/Rank, Group/Ring, Group/Members: src/group/Rank.cpp, Utilities.cpp and Group.cpp, with Laws.
--   Collectives/LowLevel: CollectiveLowLevel.cpp, over a record of the virtual methods; Protocol has its
--     theorems.
--   Collectives/AllreduceRing: AllreduceRing.hpp, one rank. Network puts `n` ranks together: a step
--     relation in which ranks run and transfers arrive in any order. Hops has the arithmetic of chunks
--     and ranks, Edges and Invariant what holds in every reachable state, Rounds and Outcomes the
--     four things that a round can do, StartMoves, Moves, GatherMoves, Deliveries, Steps and Transfers
--     that every step keeps the invariant, Results, Order, Progress and Deadlock what follows.
--     Copies has `copyInImpl`, `copyOutImpl` and the elementwise reduction, Chunks what they have to do
--     with one another, and EndToEnd joins them with the network.
--   Collectives/AllgathervRing: AllgathervRing.hpp and AllgathervCommon.cpp, one rank; Network again has n
--     ranks, Nodes, Writes and Invariant what their buffers hold, Output the copies out and EndToEnd the
--     whole.
--   Collectives/BroadcastSendToAll: BroadcastSendToAll.hpp and BroadcastCommon.cpp, in the same way, with the
--     whole in Results; Destinations has the source buffers of the root.
--   Serialization: utility/serialization.hpp and serialization.cpp. A Format has the overloads of one type,
--     Memory and Streams are what they write to and read from; Scalar, Text, Pair, Vector, Set and
--     Dictionary are the types, RoundTrip what follows for a type that nests them.
--     Description is that of buffer descriptions, src/singlesided/BufferDescription.cpp.
--   Contexts: the contexts that post writes and notifications to queues, src/RoundRobinQueuesContext.cpp,
--     src/SingleQueueContext.cpp and src/CommunicationContext.cpp, over the record of GASPI calls in Gaspi;
--     Posting says what a call posts.
--   Passive: src/passive/Passive.cpp, the messages with tags. Matching has the order in which senders and
--     receivers are matched, Messages and Receivers the way from `iRecvTagMessg` to the other rank.
--   Tests, in each part: runs on small inputs, and the theorems at those inputs.
--
-- Conventions. `std::size_t` is a native number with its wrap-around modulo 2 ^ 64 written out where the
-- code can wrap (block ends, pointer offsets, ring indices), `unsigned short` modulo 2 ^ 16. A pointer is
-- its address, NULL is 0. An exception is an `err` with its kind, the message texts are left out. Methods
-- that hold a mutex throughout are single steps; `triggerProgress` has an argument that says whether its
-- `try_lock` succeeds.
--
-- Simplifications. A transfer reads its source at the moment in which it arrives. The target buffers of the
-- allgatherv take what comes, and their sizes are left out. Counts of elements in memory are far
-- below 2 ^ 64, so that `ceilDiv` of AllreduceRing.hpp does not wrap, and the broadcast counts its ranks
-- below 2 ^ 16, as GASPI does. `sendPassive` and `recvPassive` do not fail for want of memory or by an error
-- of GASPI. Overloads of the serialization are put together freely in the model; in the header each
-- sees only those declared before it, so a pair has members that are scalars, strings or pairs.
--
-- Bounds and fuel. `wait_for_completion` runs on fuel, one unit for a round of its loop; n + 1 units are
-- enough for an algorithm that finishes in its round n + 1. The loops that post to a queue run on fuel, too:
-- two units are enough where a wait on a queue makes room in it. All other
-- functions are structurally recursive. Theorems on the ring ask for 2 n at most 2 ^ 64, so that
-- `index - 1 + ring_size` does not wrap.
--
-- Not modelled. GASPI itself: its documented behaviour on posted writes and notifications is the step
-- relation in Network, and the address and size of a segment and the number of notifications are
-- arguments. The type `double` with the functions of <cmath>, and the making of a segment, are the record
-- `Platform` of the segment pools. The
-- object representations of scalar types are the record `Object` of the serialization. The functor
-- of the allreduce (`std::plus` or `std::multiplies` on the element type) is an argument. The other
-- collectives, the endpoints and buffers, the untagged passive messages, the progress engine, the
-- runtime and the Python bindings are not modelled either.
pub mod Common
pub mod Segment
pub mod Group
pub mod Collectives
pub mod Serialization
pub mod Contexts
pub mod Passive
