-- ===== src/Passive.antt =====
-- src/passive/Passive.cpp, messages with tags: a sender and a receiver of the same tag and rank are matched,
-- whichever comes first. What is done under the mutex is one function, `match_src` or `match_rcv`; the
-- communication follows after it.
pub mod Matching
pub mod Messages
pub mod Receivers
mod Tests
use gaspi_cxx.Common.{
  ℕ, ◌≡◌, Bool, true, false, ◌&&◌, ◌==◌, if◌then◌else◌, Option, none, some, Result, ok, err,
  runtime_error,
}
use gaspi_cxx.Contexts.Gaspi.{BufferDescription}

-- `std::tuple<Tag, Rank>`
pub record Key : Type 0 where
  pub tag : ℕ
  pub rank : ℕ

abbrev pub same_key : Key → Key → Bool
same_key a b = a.tag == b.tag && a.rank == b.rank

-- `std::map<Key, BufferDescription>`, with `insert` where there is no such key, and `erase`
abbrev pub Buffers : Type 0
Buffers = Key → Option BufferDescription

abbrev pub insert : Key → BufferDescription → Buffers → Buffers
insert key desc buffers k = if same_key k key then some desc else buffers k

abbrev pub erase : Key → Buffers → Buffers
erase key buffers k = if same_key k key then none else buffers k

pub record Waiting : Type 0 where
  pub src_target_buffers : Buffers
  pub rcv_target_buffers : Buffers

-- The maps after it, and the source and the receiver that are to communicate.
unfoldable pub match_src :
    Key
    → BufferDescription
    → Waiting
    → Result (Waiting × Option (BufferDescription × BufferDescription))
match_src key src w = elim (w.rcv_target_buffers key) [
  | some rcv ↦
      ok (record w { rcv_target_buffers = erase key w.rcv_target_buffers }, some (src, rcv))
  | none ↦ elim (w.src_target_buffers key) [
    | none ↦ ok (record w { src_target_buffers = insert key src w.src_target_buffers }, none)
    | some _ ↦ err runtime_error
  ]
]

unfoldable pub match_rcv :
    Key
    → BufferDescription
    → Waiting
    → Result (Waiting × Option (BufferDescription × BufferDescription))
match_rcv key rcv w = elim (w.src_target_buffers key) [
  | some src ↦
      ok (record w { src_target_buffers = erase key w.src_target_buffers }, some (src, rcv))
  | none ↦ elim (w.rcv_target_buffers key) [
    | none ↦ ok (record w { rcv_target_buffers = insert key rcv w.rcv_target_buffers }, none)
    | some _ ↦ err runtime_error
  ]
]

-- The virtual methods of the communication context, on its state.
pub record CommunicationContext (C : Type 0) : Type 0 where
  pub write : BufferDescription → BufferDescription → C → Result (Unit {0}) × C
  pub notify : BufferDescription → C → Result (Unit {0}) × C
  pub flush : C → Result (Unit {0}) × C

pub record Passive (C : Type 0) : Type 0 where
  pub waiting : Waiting
  pub context : C

module _ {C : Type 0} (methods : CommunicationContext C) where
  -- A statement after another, unless that throws.
  abbrev pub and_then : Result (Unit {0}) × C → (C → Result (Unit {0}) × C) → Result (Unit {0}) × C
  and_then (err thrown, c) rest = (err thrown, c)
  and_then (ok done, c) rest = rest c

  unfoldable pub i_send_recv_comm :
      BufferDescription → BufferDescription → C → Result (Unit {0}) × C
  i_send_recv_comm src rcv c =
      and_then (and_then (and_then (methods.write src rcv c) methods.flush) (methods.notify src))
        methods.flush

  abbrev pub communicate :
      Result (Waiting × Option (BufferDescription × BufferDescription))
      → Passive C
      → Result (Unit {0}) × Passive C
  communicate (err thrown) p = (err thrown, p)
  communicate (ok (w, none)) p = (ok tt, record p { waiting = w })
  communicate (ok (w, some (src, rcv))) p =
      let (result, c) = i_send_recv_comm src rcv p.context in
      (result, record { waiting = w; context = c })

  unfoldable pub handle_tagged_src_buffer_desc :
      ℕ → ℕ → BufferDescription → Passive C → Result (Unit {0}) × Passive C
  handle_tagged_src_buffer_desc rank tag src p =
      communicate (match_src (record { tag = tag; rank = rank }) src p.waiting) p

  unfoldable pub handle_tagged_rcv_buffer_desc :
      ℕ → ℕ → BufferDescription → Passive C → Result (Unit {0}) × Passive C
  handle_tagged_rcv_buffer_desc rank tag rcv p =
      communicate (match_rcv (record { tag = tag; rank = rank }) rcv p.waiting) p

  abbrev pub i_send_tag_messg :
      ℕ → ℕ → BufferDescription → Passive C → (Result (Unit {0}) × Passive C) × Bool
  i_send_tag_messg rank tag src p = (handle_tagged_src_buffer_desc rank tag src p, false)
