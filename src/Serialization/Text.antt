-- ===== src/Serialization/Text.antt =====
-- src/utility/serialization.cpp, the overloads for `std::string`: its length, and its characters.
use gaspi_cxx.Common.{
  ℕ, ◌+◌, ◌<◌, ◌≡◌, List, ◌++◌, length, length-append, size_mod, refl, Result, ◌>>=◌, arith,
}
use gaspi_cxx.Serialization.Memory.{Memory, store, load, store-append, Holds-left, Holds-right}
use gaspi_cxx.Serialization.Streams.{
  Ostream, Istream, write, read, check_out, check_in, read-fed, fed-append, write-write,
}
use gaspi_cxx.Serialization.Format.{Format, Sound, Sized}
use gaspi_cxx.Serialization.Scalar
use gaspi_cxx.Serialization.Scalar.{Object, Representable}

module _ (size_object : Object ℕ) where
  abbrev pub size : List ℕ → ℕ
  size str = size_object.sizeof + length str

  unfoldable pub serialize : ℕ → List ℕ → Memory → Memory × ℕ
  serialize buffer str m =
      let (m', n) = Scalar.serialize size_object buffer (length str) m in
      (store (buffer + n) str m', size str)

  unfoldable pub deserialize : ℕ → Memory → List ℕ × ℕ
  deserialize buffer m =
      let (len, n) = Scalar.deserialize size_object buffer m in
      let str = load (buffer + n) len m in (str, size str)

  unfoldable pub serialize_stream : Ostream → List ℕ → Result Ostream
  serialize_stream out str = check_out (write str (write (size_object.to_bytes (length str)) out))

  unfoldable pub deserialize_stream : Istream → Result (List ℕ × Istream)
  deserialize_stream input = do
    (len, input') ← Scalar.deserialize_stream size_object input
    let (ch, input'') = read len input'
    check_in ch input''

  abbrev pub format : ℕ → Format (List ℕ)
  format sizeof_string = record {
    size_of = sizeof_string;
    size = size;
    serialize = serialize;
    deserialize = deserialize;
    serialize_stream = serialize_stream;
    deserialize_stream = deserialize_stream;
  }

  abbrev pub Valid : List ℕ → Type 0
  Valid str = length str < size_mod

  -- The bytes of a string: those of its length, and the characters.
  abbrev pub bytes : List ℕ → List ℕ
  bytes str = size_object.to_bytes (length str) ++ str

  module _ (law : Representable size_object (λ n. n < size_mod)) (sizeof_string : ℕ) where
    pub format-Sized : Sized (format sizeof_string) Valid bytes
    format-Sized str v =
        omega
          (arith, law.to_size (length str) v, length-append (size_object.to_bytes (length str)) str)

    pub format-Sound : Sound (format sizeof_string) Valid bytes
    unfolding serialize deserialize serialize_stream deserialize_stream
    format-Sound =
        let scalar = Scalar.format-Sound size_object law in
        record {
          serialize_lem = λ p str m v.
              let head = size_object.to_bytes (length str) in
              rw
                (
                  scalar.serialize_lem p (length str) m v,
                  store-append p head str m,
                  format-Sized str v,
                )
                refl;
          deserialize_lem = λ p str m v h.
              let head = size_object.to_bytes (length str) in
              let chars : load (p + length head) (length str) m ≡ str =
                Holds-right m p head str h in
              rw
                (
                  scalar.deserialize_lem p (length str) m v (Holds-left m p head str h),
                  chars,
                  format-Sized str v,
                )
                refl;
          serialize_stream_lem =
              λ out str v. write-write (size_object.to_bytes (length str)) str out;
          deserialize_stream_lem = λ str rest v.
              let head = size_object.to_bytes (length str) in
              let begin = scalar.deserialize_stream_lem (length str) (str ++ rest) v in
              rw (fed-append head str rest, begin, read-fed (length str) str rest refl) refl;
        }
