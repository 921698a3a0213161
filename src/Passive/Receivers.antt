-- ===== src/Passive/Receivers.antt =====
-- `iRecvTagMessg` of src/passive/Passive.cpp, and the passive thread of the other rank that gets its message.
use gaspi_cxx.Common.{
  ℕ, ◌+◌, ◌≡◌, ◌≢◌, refl, sym, List, ◌++◌, length, length-append, ◌==◌, if◌then◌else◌, Bool, true,
  false, Result, arith,
}
use gaspi_cxx.Contexts.Gaspi.{BufferDescription}
use gaspi_cxx.Serialization.Memory.{
  Memory, store, load, Holds-store, Holds-left, Holds-right, store-append,
}
use gaspi_cxx.Serialization.Scalar
use gaspi_cxx.Serialization.Scalar.{Object, Representable}
use gaspi_cxx.Serialization.Description
use gaspi_cxx.Serialization.Description.{Objects}
use gaspi_cxx.Passive.{Passive, CommunicationContext, handle_tagged_rcv_buffer_desc}
use gaspi_cxx.Passive.Messages.{
  finish_tag, rtbd_tag, send_passive, recv_passive, recv_passive-send_passive,
}

-- What the platform makes of `int`, of `long` and of the fields of a description.
pub record Platform : Type 0 where
  pub int_object : Object ℕ
  pub tag_object : Object ℕ
  pub fields : Objects

-- The buffers that the two sides allocate: the package, the send and receive buffers, the message.
pub record Places : Type 0 where
  pub pkg_buffer : ℕ
  pub send_buffer : ℕ
  pub receive_buffer : ℕ
  pub msg_ptr : ℕ

-- `iRecvTagMessg` handles the description on this rank, or sends a message to another one.
pub data Effect (C : Type 0) : Type 0 where
  handled : Result (Unit {0}) × Passive C → Effect C
  sent : ℕ → List ℕ → Effect C

-- A round of the passive thread. Messages with another tag are not modelled.
pub data Round (C : Type 0) : Type 0 where
  finished : Round C
  goes_on : Result (Unit {0}) × Passive C → Round C
  other : Round C

module _ {C : Type 0} (methods : CommunicationContext C) (platform : Platform)
    (places : Places) where
  open platform use {int_object, tag_object, fields}
  open places use {pkg_buffer, send_buffer, receive_buffer, msg_ptr}

  unfoldable pub make_package : ℕ → BufferDescription → Memory → List ℕ
  make_package tag desc m =
      let pkg_size = Scalar.size tag_object tag + Description.size fields desc in
      let (m, n) = Scalar.serialize tag_object pkg_buffer tag m in
      let (m, _) = Description.serialize fields (pkg_buffer + n) desc m in
      load pkg_buffer pkg_size m

  unfoldable pub i_recv_tag_messg :
      ℕ → ℕ → ℕ → BufferDescription → Memory → Passive C → Effect C × Bool
  i_recv_tag_messg global_rank rank tag desc m p =
      if rank == global_rank
      then (handled (handle_tagged_rcv_buffer_desc methods rank tag desc p), false)
      else (
        sent rank (send_passive int_object rtbd_tag (make_package tag desc m) send_buffer m),
        true,
      )

  unfoldable pub passive_thread_round : ℕ → List ℕ → Memory → Passive C → Round C
  passive_thread_round msg_rank received m p =
      let (msg_tag, _, message) = recv_passive int_object received receive_buffer m in
      let m = store msg_ptr message m in
      let (tag, n) = Scalar.deserialize tag_object msg_ptr m in
      let (desc, _) = Description.deserialize fields (msg_ptr + n) m in
      if msg_tag == finish_tag
      then finished
      else if msg_tag == rtbd_tag
      then goes_on (handle_tagged_rcv_buffer_desc methods msg_rank tag desc p)
      else other

  module _ {ValidInt ValidTag ValidField : ℕ → Type 0} (int_law : Representable int_object ValidInt)
      (tag_law : Representable tag_object ValidTag)
      (rank_law : Representable fields.rank_object ValidField)
      (segment_law : Representable fields.segment_object ValidField)
      (offset_law : Representable fields.offset_object ValidField)
      (size_law : Representable fields.size_object ValidField)
      (id_law : Representable fields.id_object ValidField) where
    abbrev pub package_bytes : ℕ → BufferDescription → List ℕ
    package_bytes tag desc = tag_object.to_bytes tag ++ Description.bytes fields desc

    package_lem :
        (tag : ℕ) (desc : BufferDescription) (m : Memory)
        → ValidTag tag
        → Description.Valid fields rank_law segment_law offset_law size_law id_law desc
        → make_package tag desc m ≡ package_bytes tag desc
    unfolding make_package Description.size
    package_lem tag desc m vt vd =
        let bt = tag_object.to_bytes tag in
        let bd = Description.bytes fields desc in
        let tag_sound = Scalar.format-Sound tag_object tag_law in
        let desc_sound =
          Description.format-Sound fields rank_law segment_law offset_law size_law id_law 0 in
        let size : Scalar.size tag_object tag + Description.size fields desc ≡ length (bt ++ bd) =
          omega (
            arith,
            tag_law.to_size tag vt,
            length-append bt bd,
            Description.format-Sized fields rank_law segment_law offset_law size_law id_law desc vd,
          ) in
        rw
          (
            tag_sound.serialize_lem pkg_buffer tag m vt,
            desc_sound.serialize_lem (pkg_buffer + length bt) desc (store pkg_buffer bt m) vd,
            sym (store-append pkg_buffer bt bd m),
            size,
          )
          (Holds-store pkg_buffer (bt ++ bd) m)

    -- A receive from another rank: the message that `iRecvTagMessg` sends makes the passive thread of that
    -- rank handle the same tag and the same description, as a receiver from the rank that sent it. For
    -- tags, sizes and fields that their types represent.
    pub remote_receive :
        (global_rank rank tag : ℕ) (desc : BufferDescription) (m m' : Memory) (p p' : Passive C)
        → rank ≢ global_rank
        → ValidTag tag
        → ValidInt rtbd_tag
        → ValidInt (length (package_bytes tag desc))
        → Description.Valid fields rank_law segment_law offset_law size_law id_law desc
        → (message : List ℕ) × ((i_recv_tag_messg global_rank rank tag desc m p).0
            ≡ sent rank message)
          × (passive_thread_round global_rank message m' p'
              ≡ goes_on (handle_tagged_rcv_buffer_desc methods global_rank tag desc p'))
    unfolding i_recv_tag_messg passive_thread_round
    remote_receive global_rank rank tag desc m m' p p' ne vt vr vl vd =
        let bt = tag_object.to_bytes tag in
        let bd = Description.bytes fields desc in
        let message = send_passive int_object rtbd_tag (package_bytes tag desc) send_buffer m in
        let packed = package_lem tag desc m vt vd in
        let got =
          recv_passive-send_passive int_object int_law rtbd_tag (bt ++ bd) send_buffer
            receive_buffer m m' vr vl in
        let there = Holds-store msg_ptr (bt ++ bd) m' in
        let tag_back =
          (Scalar.format-Sound tag_object tag_law).deserialize_lem msg_ptr tag
            (store msg_ptr (bt ++ bd) m') vt
            (Holds-left (store msg_ptr (bt ++ bd) m') msg_ptr bt bd there) in
        let desc_back =
          (Description.format-Sound fields rank_law segment_law offset_law size_law id_law
              0).deserialize_lem
            (msg_ptr + length bt) desc (store msg_ptr (bt ++ bd) m') vd
            (Holds-right (store msg_ptr (bt ++ bd) m') msg_ptr bt bd there) in
        let test : (rank == global_rank) ≡ false = ground arith in
        (message, rw (test, packed) refl, rw (got, tag_back, desc_back) refl)
