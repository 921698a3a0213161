-- ===== src/Serialization/Description.antt =====
-- src/singlesided/BufferDescription.cpp: the overloads of `size`, `serialize` and `deserialize` for buffer
-- descriptions, field after field.
use gaspi_cxx.Common.{
  ℕ, ◌+◌, ◌-◌, ◌≡◌, List, ◌++◌, length, length-append, refl, Result, ok, ◌>>=◌, arith,
}
use gaspi_cxx.Contexts.Gaspi.{BufferDescription}
use gaspi_cxx.Serialization.Memory.{Memory, store, Holds, store-append, Holds-left, Holds-right}
use gaspi_cxx.Serialization.Streams.{Ostream, Istream, write, check_out, fed-append, then_write}
use gaspi_cxx.Serialization.Format.{Format, Sound, Sized}
use gaspi_cxx.Serialization.Scalar
use gaspi_cxx.Serialization.Scalar.{Object, Representable}

-- The object representations of `gaspi_rank_t`, `gaspi_segment_id_t`, `gaspi_offset_t`, `gaspi_size_t` and
-- `gaspi_notification_id_t`.
pub record Objects : Type 0 where
  pub rank_object : Object ℕ
  pub segment_object : Object ℕ
  pub offset_object : Object ℕ
  pub size_object : Object ℕ
  pub id_object : Object ℕ

module _ (o : Objects) where
  open o use {rank_object, segment_object, offset_object, size_object, id_object}

  unfoldable pub size : BufferDescription → ℕ
  size desc =
      Scalar.size rank_object desc.rank
      + Scalar.size segment_object desc.segment_id
      + Scalar.size offset_object desc.offset
      + Scalar.size size_object desc.size
      + Scalar.size id_object desc.notification_id

  unfoldable pub serialize_stream : Ostream → BufferDescription → Result Ostream
  serialize_stream out desc = do
    out ← Scalar.serialize_stream rank_object out desc.rank
    out ← Scalar.serialize_stream segment_object out desc.segment_id
    out ← Scalar.serialize_stream offset_object out desc.offset
    out ← Scalar.serialize_stream size_object out desc.size
    Scalar.serialize_stream id_object out desc.notification_id

  unfoldable pub serialize : ℕ → BufferDescription → Memory → Memory × ℕ
  serialize buffer desc m =
      let (m, n) = Scalar.serialize rank_object buffer desc.rank m in
      let p = buffer + n in
      let (m, n) = Scalar.serialize segment_object p desc.segment_id m in
      let p = p + n in
      let (m, n) = Scalar.serialize offset_object p desc.offset m in
      let p = p + n in
      let (m, n) = Scalar.serialize size_object p desc.size m in
      let p = p + n in
      let (m, n) = Scalar.serialize id_object p desc.notification_id m in (m, p + n - buffer)

  unfoldable pub deserialize_stream : Istream → Result (BufferDescription × Istream)
  deserialize_stream input = do
    (rank, input) ← Scalar.deserialize_stream rank_object input
    (segment_id, input) ← Scalar.deserialize_stream segment_object input
    (offset, input) ← Scalar.deserialize_stream offset_object input
    (size, input) ← Scalar.deserialize_stream size_object input
    (notification_id, input) ← Scalar.deserialize_stream id_object input
    ok (
      record {
        rank = rank;
        segment_id = segment_id;
        offset = offset;
        size = size;
        notification_id = notification_id;
      },
      input,
    )

  unfoldable pub deserialize : ℕ → Memory → BufferDescription × ℕ
  deserialize buffer m =
      let (rank, n) = Scalar.deserialize rank_object buffer m in
      let p = buffer + n in
      let (segment_id, n) = Scalar.deserialize segment_object p m in
      let p = p + n in
      let (offset, n) = Scalar.deserialize offset_object p m in
      let p = p + n in
      let (size, n) = Scalar.deserialize size_object p m in
      let p = p + n in
      let (notification_id, n) = Scalar.deserialize id_object p m in
      (
        record {
          rank = rank;
          segment_id = segment_id;
          offset = offset;
          size = size;
          notification_id = notification_id;
        },
        p + n - buffer,
      )

  abbrev pub format : ℕ → Format BufferDescription
  format sizeof_description = record {
    size_of = sizeof_description;
    size = size;
    serialize = serialize;
    deserialize = deserialize;
    serialize_stream = serialize_stream;
    deserialize_stream = deserialize_stream;
  }

  -- The bytes of the fields, one after another.
  abbrev pub bytes : BufferDescription → List ℕ
  bytes desc =
      rank_object.to_bytes desc.rank
      ++ (segment_object.to_bytes desc.segment_id
          ++ (offset_object.to_bytes desc.offset
              ++ (size_object.to_bytes desc.size ++ id_object.to_bytes desc.notification_id)))

  count :
      (p : ℕ) (desc : BufferDescription)
      → p
          + length (rank_object.to_bytes desc.rank)
          + length (segment_object.to_bytes desc.segment_id)
          + length (offset_object.to_bytes desc.offset)
          + length (size_object.to_bytes desc.size)
          + length (id_object.to_bytes desc.notification_id)
          - p
        ≡ length (bytes desc)
  count p desc =
      let br = rank_object.to_bytes desc.rank in
      let bs = segment_object.to_bytes desc.segment_id in
      let bo = offset_object.to_bytes desc.offset in
      let bz = size_object.to_bytes desc.size in
      let bi = id_object.to_bytes desc.notification_id in
      omega (
        arith,
        length-append br (bs ++ (bo ++ (bz ++ bi))),
        length-append bs (bo ++ (bz ++ bi)),
        length-append bo (bz ++ bi),
        length-append bz bi,
      )

  module _ {Valid_field : ℕ → Type 0} (rank_law : Representable rank_object Valid_field)
      (segment_law : Representable segment_object Valid_field)
      (offset_law : Representable offset_object Valid_field)
      (size_law : Representable size_object Valid_field)
      (id_law : Representable id_object Valid_field) where
    abbrev pub Valid : BufferDescription → Type 0
    Valid desc =
        Valid_field desc.rank
        × Valid_field desc.segment_id
        × Valid_field desc.offset
        × Valid_field desc.size
        × Valid_field desc.notification_id

    pub deserialize_lem :
        (p : ℕ) (desc : BufferDescription) (m : Memory)
        → Valid desc
        → Holds m p (bytes desc)
        → deserialize p m ≡ (desc, length (bytes desc))
    unfolding deserialize
    deserialize_lem p desc m (vr, vs, vo, vz, vi) h =
        let br = rank_object.to_bytes desc.rank in
        let bs = segment_object.to_bytes desc.segment_id in
        let bo = offset_object.to_bytes desc.offset in
        let bz = size_object.to_bytes desc.size in
        let bi = id_object.to_bytes desc.notification_id in
        let p1 = p + length br in
        let p2 = p1 + length bs in
        let p3 = p2 + length bo in
        let p4 = p3 + length bz in
        let h1 = Holds-right m p br (bs ++ (bo ++ (bz ++ bi))) h in
        let h2 = Holds-right m p1 bs (bo ++ (bz ++ bi)) h1 in
        let h3 = Holds-right m p2 bo (bz ++ bi) h2 in
        let h4 = Holds-right m p3 bz bi h3 in
        rw
          (
            (Scalar.format-Sound rank_object rank_law).deserialize_lem p desc.rank m vr
                (Holds-left m p br (bs ++ (bo ++ (bz ++ bi))) h),
            (Scalar.format-Sound segment_object segment_law).deserialize_lem p1 desc.segment_id m vs
                (Holds-left m p1 bs (bo ++ (bz ++ bi)) h1),
            (Scalar.format-Sound offset_object offset_law).deserialize_lem p2 desc.offset m vo
                (Holds-left m p2 bo (bz ++ bi) h2),
            (Scalar.format-Sound size_object size_law).deserialize_lem p3 desc.size m vz
                (Holds-left m p3 bz bi h3),
            (Scalar.format-Sound id_object id_law).deserialize_lem p4 desc.notification_id m vi h4,
            count p desc,
          )
          refl

    pub serialize_lem :
        (p : ℕ) (desc : BufferDescription) (m : Memory)
        → Valid desc
        → serialize p desc m ≡ (store p (bytes desc) m, length (bytes desc))
    unfolding serialize
    serialize_lem p desc m (vr, vs, vo, vz, vi) =
        let br = rank_object.to_bytes desc.rank in
        let bs = segment_object.to_bytes desc.segment_id in
        let bo = offset_object.to_bytes desc.offset in
        let bz = size_object.to_bytes desc.size in
        let bi = id_object.to_bytes desc.notification_id in
        let p1 = p + length br in
        let p2 = p1 + length bs in
        let p3 = p2 + length bo in
        let p4 = p3 + length bz in
        let m1 = store p br m in
        let m2 = store p1 bs m1 in
        let m3 = store p2 bo m2 in
        let m4 = store p3 bz m3 in
        rw
          (
            (Scalar.format-Sound rank_object rank_law).serialize_lem p desc.rank m vr,
            (Scalar.format-Sound segment_object segment_law).serialize_lem p1 desc.segment_id m1 vs,
            (Scalar.format-Sound offset_object offset_law).serialize_lem p2 desc.offset m2 vo,
            (Scalar.format-Sound size_object size_law).serialize_lem p3 desc.size m3 vz,
            (Scalar.format-Sound id_object id_law).serialize_lem p4 desc.notification_id m4 vi,
            store-append p br (bs ++ (bo ++ (bz ++ bi))) m,
            store-append p1 bs (bo ++ (bz ++ bi)) m1,
            store-append p2 bo (bz ++ bi) m2,
            store-append p3 bz bi m3,
            count p desc,
          )
          refl

    serialize_stream_lem :
        (out : Ostream) (desc : BufferDescription)
        → serialize_stream out desc ≡ check_out (write (bytes desc) out)
    unfolding serialize_stream Scalar.serialize_stream
    serialize_stream_lem out desc =
        let br = rank_object.to_bytes desc.rank in
        let bs = segment_object.to_bytes desc.segment_id in
        let bo = offset_object.to_bytes desc.offset in
        let bz = size_object.to_bytes desc.size in
        let bi = id_object.to_bytes desc.notification_id in
        then_write br (bs ++ (bo ++ (bz ++ bi))) out _ _ refl (λ o1.
          then_write bs (bo ++ (bz ++ bi)) o1 _ _ refl (λ o2.
            then_write bo (bz ++ bi) o2 _ _ refl (λ o3. then_write bz bi o3 _ _ refl (λ o4. refl))))

    -- Whole descriptions agree with the bytes of their fields, when the field types are represented by theirs.
    pub format-Sound : (sizeof_description : ℕ) → Sound (format sizeof_description) Valid bytes
    unfolding deserialize_stream
    format-Sound sizeof_description = record {
      serialize_lem = serialize_lem;
      deserialize_lem = deserialize_lem;
      serialize_stream_lem = λ out desc v. serialize_stream_lem out desc;
      deserialize_stream_lem = λ desc rest (vr, vs, vo, vz, vi).
          let br = rank_object.to_bytes desc.rank in
          let bs = segment_object.to_bytes desc.segment_id in
          let bo = offset_object.to_bytes desc.offset in
          let bz = size_object.to_bytes desc.size in
          let bi = id_object.to_bytes desc.notification_id in
          rw
            (
              fed-append br (bs ++ (bo ++ (bz ++ bi))) rest,
              (Scalar.format-Sound rank_object rank_law).deserialize_stream_lem desc.rank
                  ((bs ++ (bo ++ (bz ++ bi))) ++ rest) vr,
              fed-append bs (bo ++ (bz ++ bi)) rest,
              (Scalar.format-Sound segment_object segment_law).deserialize_stream_lem
                  desc.segment_id ((bo ++ (bz ++ bi)) ++ rest) vs,
              fed-append bo (bz ++ bi) rest,
              (Scalar.format-Sound offset_object offset_law).deserialize_stream_lem desc.offset
                  ((bz ++ bi) ++ rest) vo,
              fed-append bz bi rest,
              (Scalar.format-Sound size_object size_law).deserialize_stream_lem desc.size
                  (bi ++ rest) vz,
              (Scalar.format-Sound id_object id_law).deserialize_stream_lem desc.notification_id
                  rest vi,
            )
            refl;
    }

    pub format-Sized : Sized (format 0) Valid bytes
    unfolding size
    format-Sized desc (vr, vs, vo, vz, vi) =
        let br = rank_object.to_bytes desc.rank in
        let bs = segment_object.to_bytes desc.segment_id in
        let bo = offset_object.to_bytes desc.offset in
        let bz = size_object.to_bytes desc.size in
        let bi = id_object.to_bytes desc.notification_id in
        omega (
          arith,
          rank_law.to_size desc.rank vr,
          segment_law.to_size desc.segment_id vs,
          offset_law.to_size desc.offset vo,
          size_law.to_size desc.size vz,
          id_law.to_size desc.notification_id vi,
          length-append br (bs ++ (bo ++ (bz ++ bi))),
          length-append bs (bo ++ (bz ++ bi)),
          length-append bo (bz ++ bi),
          length-append bz bi,
        )
