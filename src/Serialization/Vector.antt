-- ===== src/Serialization/Vector.antt =====
-- include/GaspiCxx/utility/serialization.hpp, the overloads for `std::vector`, and for `std::deque`, which
-- have the same text: the length, and the elements one after another.
use gaspi_cxx.Common.{
  ℕ, zero, suc, ◌+◌, ◌<◌, ◌≡◌, List, [], ◌∷◌, ◌++◌, length, length-append, size_mod, refl, sym, ap,
  Result, ok, ◌>>=◌, true, arith,
}
use gaspi_cxx.Serialization.Memory.{Memory, store, Holds, store-append, Holds-left, Holds-right}
use gaspi_cxx.Serialization.Streams.{
  Ostream, Istream, write, check_out, check_in, fed, fed-append, write_nil, then_write, then_loop,
}
use gaspi_cxx.Serialization.Format.{Format, Sound, Sized}
use gaspi_cxx.Serialization.Scalar
use gaspi_cxx.Serialization.Scalar.{Object, Representable}

module _ {A : Type 0} (size_object : Object ℕ) (F : Format A) where
  abbrev pub size_elements : List A → ℕ
  size_elements [] = 0
  size_elements (x ∷ xs) = F.size x + size_elements xs

  -- The total size; the sizes of data in memory stay below 2 ^ 64.
  unfoldable pub size : List A → ℕ
  size vec = size_object.sizeof + size_elements vec

  -- The loop over the elements, with the address behind the last of them.
  abbrev pub serialize_elements : ℕ → List A → Memory → Memory × ℕ
  serialize_elements p [] m = (m, p)
  serialize_elements p (x ∷ xs) m =
      let (m', n) = F.serialize p x m in serialize_elements (p + n) xs m'

  unfoldable pub serialize : ℕ → List A → Memory → Memory × ℕ
  serialize buffer vec m =
      let (m', n) = Scalar.serialize size_object buffer (length vec) m in
      let (m'', _) = serialize_elements (buffer + n) vec m' in (m'', size vec)

  abbrev pub deserialize_elements : ℕ → ℕ → Memory → List A × ℕ
  deserialize_elements zero p m = ([], p)
  deserialize_elements (suc k) p m =
      let (x, n) = F.deserialize p m in
      let (xs, q) = deserialize_elements k (p + n) m in (x ∷ xs, q)

  unfoldable pub deserialize : ℕ → Memory → List A × ℕ
  deserialize buffer m =
      let (len, n) = Scalar.deserialize size_object buffer m in
      let (vec, _) = deserialize_elements len (buffer + n) m in (vec, size vec)

  abbrev pub serialize_elements_stream : Ostream → List A → Result Ostream
  serialize_elements_stream out [] = ok out
  serialize_elements_stream out (x ∷ xs) = do
    out' ← F.serialize_stream out x
    serialize_elements_stream out' xs

  unfoldable pub serialize_stream : Ostream → List A → Result Ostream
  serialize_stream out vec = do
    out' ← Scalar.serialize_stream size_object out (length vec)
    out'' ← serialize_elements_stream out' vec
    check_out out''

  abbrev pub deserialize_elements_stream : ℕ → Istream → Result (List A × Istream)
  deserialize_elements_stream zero input = ok ([], input)
  deserialize_elements_stream (suc k) input = do
    (x, input') ← F.deserialize_stream input
    (xs, input'') ← deserialize_elements_stream k input'
    ok (x ∷ xs, input'')

  unfoldable pub deserialize_stream : Istream → Result (List A × Istream)
  deserialize_stream input = do
    (len, input') ← Scalar.deserialize_stream size_object input
    (vec, input'') ← deserialize_elements_stream len input'
    check_in vec input''

  -- The argument is `sizeof` of the vector.
  abbrev pub format : ℕ → Format (List A)
  format sizeof_vector = record {
    size_of = sizeof_vector;
    size = size;
    serialize = serialize;
    deserialize = deserialize;
    serialize_stream = serialize_stream;
    deserialize_stream = deserialize_stream;
  }

  abbrev pub deque_format : ℕ → Format (List A)
  deque_format = format

abbrev pub All : {A : Type 0} → (A → Type 0) → List A → Type 0
All Valid_element [] = Unit {0}
All Valid_element (x ∷ xs) = Valid_element x × All Valid_element xs

abbrev pub Valid : {A : Type 0} → (A → Type 0) → List A → Type 0
Valid Valid_element vec = (length vec < size_mod) × All Valid_element vec

abbrev pub bytes_elements : {A : Type 0} → (A → List ℕ) → List A → List ℕ
bytes_elements element_bytes [] = []
bytes_elements element_bytes (x ∷ xs) = element_bytes x ++ bytes_elements element_bytes xs

-- The bytes of the length, and those of the elements in their order.
abbrev pub bytes : {A : Type 0} → Object ℕ → (A → List ℕ) → List A → List ℕ
bytes size_object element_bytes vec =
    size_object.to_bytes (length vec) ++ bytes_elements element_bytes vec

module _ {A : Type 0} (size_object : Object ℕ) (F : Format A) (Valid_element : A → Type 0)
    (element_bytes : A → List ℕ) where
  module _ (sized : Sized F Valid_element element_bytes) where
    pub size_elements_lem :
        (xs : List A)
        → All Valid_element xs
        → size_elements size_object F xs ≡ length (bytes_elements element_bytes xs)
    size_elements_lem [] v = refl
    size_elements_lem (x ∷ xs) (v, vs) = omega (
      arith,
      sized x v,
      size_elements_lem xs vs,
      length-append (element_bytes x) (bytes_elements element_bytes xs),
    )

  module _ (sound : Sound F Valid_element element_bytes) where
    pub serialize_elements_lem :
        (p : ℕ) (xs : List A) (m : Memory)
        → All Valid_element xs
        → serialize_elements size_object F p xs m ≡ (
          store p (bytes_elements element_bytes xs) m,
          p + length (bytes_elements element_bytes xs),
        )
    unfolding store
    serialize_elements_lem p [] m v = ap (λ k. (m, k)) (omega arith)
    serialize_elements_lem p (x ∷ xs) m (v, vs) =
        let k = length (element_bytes x) in
        let total : p + k + length (bytes_elements element_bytes xs)
            ≡ p + length (element_bytes x ++ bytes_elements element_bytes xs) =
          omega (arith, length-append (element_bytes x) (bytes_elements element_bytes xs)) in
        rw
          (
            sound.serialize_lem p x m v,
            serialize_elements_lem (p + k) xs (store p (element_bytes x) m) vs,
            store-append p (element_bytes x) (bytes_elements element_bytes xs) m,
            total,
          )
          refl

    pub deserialize_elements_lem :
        (p : ℕ) (xs : List A) (m : Memory)
        → All Valid_element xs
        → Holds m p (bytes_elements element_bytes xs)
        → deserialize_elements size_object F (length xs) p m
          ≡ (xs, p + length (bytes_elements element_bytes xs))
    deserialize_elements_lem p [] m v h = ap (λ k. ([], k)) (omega arith)
    deserialize_elements_lem p (x ∷ xs) m (v, vs) h =
        let k = length (element_bytes x) in
        let total : p + k + length (bytes_elements element_bytes xs)
            ≡ p + length (element_bytes x ++ bytes_elements element_bytes xs) =
          omega (arith, length-append (element_bytes x) (bytes_elements element_bytes xs)) in
        rw
          (
            sound.deserialize_lem p x m v
                (Holds-left m p (element_bytes x) (bytes_elements element_bytes xs) h),
            deserialize_elements_lem (p + k) xs m vs
                (Holds-right m p (element_bytes x) (bytes_elements element_bytes xs) h),
            total,
          )
          refl

    pub serialize_elements_stream_lem :
        (out : Ostream) (xs : List A)
        → All Valid_element xs
        → (serialize_elements_stream size_object F out xs >>= check_out)
          ≡ check_out (write (bytes_elements element_bytes xs) out)
    serialize_elements_stream_lem out [] v = sym (write_nil out)
    serialize_elements_stream_lem out (x ∷ xs) (v, vs) =
        then_loop (element_bytes x) (bytes_elements element_bytes xs) out (F.serialize_stream out x)
          (λ o. serialize_elements_stream size_object F o xs) (sound.serialize_stream_lem out x v)
          (λ o. serialize_elements_stream_lem o xs vs)

    pub deserialize_elements_stream_lem :
        (xs : List A) (rest : List ℕ)
        → All Valid_element xs
        → deserialize_elements_stream size_object F
            (length xs)
            (fed (bytes_elements element_bytes xs) rest)
          ≡ ok (xs, record { unread = rest; in_good = true })
    deserialize_elements_stream_lem [] rest v = refl
    deserialize_elements_stream_lem (x ∷ xs) rest (v, vs) =
        let first = sound.deserialize_stream_lem x (bytes_elements element_bytes xs ++ rest) v in
        let others = deserialize_elements_stream_lem xs rest vs in
        rw (fed-append (element_bytes x) (bytes_elements element_bytes xs) rest, first, others) refl

module _ {A : Type 0} (size_object : Object ℕ) (F : Format A) (Valid_element : A → Type 0)
    (element_bytes : A → List ℕ) (law : Representable size_object (λ n. n < size_mod))
    (sized : Sized F Valid_element element_bytes) (sizeof_vector : ℕ) where
  -- `size` of a vector gives the number of its bytes when `size` of an element does.
  pub format-Sized :
      Sized
        (format size_object F sizeof_vector)
        (Valid Valid_element)
        (bytes size_object element_bytes)
  unfolding size
  format-Sized vec (v, vs) = omega (
    arith,
    law.to_size (length vec) v,
    size_elements_lem size_object F Valid_element element_bytes sized vec vs,
    length-append (size_object.to_bytes (length vec)) (bytes_elements element_bytes vec),
  )

  pub format-Sound :
      Sound F Valid_element element_bytes
      → Sound
          (format size_object F sizeof_vector)
          (Valid Valid_element)
          (bytes size_object element_bytes)
  unfolding serialize deserialize serialize_stream deserialize_stream
  format-Sound sound =
      let scalar = Scalar.format-Sound size_object law in
      record {
        serialize_lem = λ p vec m v.
            let head = size_object.to_bytes (length vec) in
            let elements = bytes_elements element_bytes vec in
            rw
              (
                scalar.serialize_lem p (length vec) m v.0,
                serialize_elements_lem size_object F Valid_element element_bytes sound
                    (p + length head) vec (store p head m) v.1,
                store-append p head elements m,
                format-Sized vec v,
              )
              refl;
        deserialize_lem = λ p vec m v h.
            let head = size_object.to_bytes (length vec) in
            let elements = bytes_elements element_bytes vec in
            rw
              (
                scalar.deserialize_lem p (length vec) m v.0 (Holds-left m p head elements h),
                deserialize_elements_lem size_object F Valid_element element_bytes sound
                    (p + length head) vec m v.1 (Holds-right m p head elements h),
                format-Sized vec v,
              )
              refl;
        serialize_stream_lem = λ out vec v.
            then_write (size_object.to_bytes (length vec)) (bytes_elements element_bytes vec) out
              (Scalar.serialize_stream size_object out (length vec))
              (λ o. serialize_elements_stream size_object F o vec >>= check_out)
              (scalar.serialize_stream_lem out (length vec) v.0)
              (λ o.
                serialize_elements_stream_lem size_object F Valid_element element_bytes sound o vec
                  v.1);
        deserialize_stream_lem = λ vec rest v.
            let head = size_object.to_bytes (length vec) in
            let elements = bytes_elements element_bytes vec in
            let begin = scalar.deserialize_stream_lem (length vec) (elements ++ rest) v.0 in
            let others =
              deserialize_elements_stream_lem size_object F Valid_element element_bytes sound vec
                rest v.1 in
            rw (fed-append head elements rest, begin, others) refl;
      }
