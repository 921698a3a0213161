-- ===== src/Serialization/Set.antt =====
-- include/GaspiCxx/utility/serialization.hpp, the overloads for `std::set`: written like a vector, in the order
-- of the set, and read by insertion. `lt` is the comparison of the set.
use gaspi_cxx.Common.{
  ℕ, zero, suc, ◌+◌, ◌<◌, ◌≡◌, List, [], ◌∷◌, ◌++◌, Bool, true, false, length, length-append,
  size_mod, append_nil, append_assoc, refl, sym, subst, ap, ◌∙◌, Result, ok, ◌>>=◌, arith,
}
use gaspi_cxx.Serialization.Memory.{Memory, store, Holds, store-append, Holds-left, Holds-right}
use gaspi_cxx.Serialization.Streams.{
  Ostream, Istream, write, check_out, check_in, fed, fed-append, write-write,
}
use gaspi_cxx.Serialization.Format.{Format, Sound, Sized}
use gaspi_cxx.Serialization.Scalar
use gaspi_cxx.Serialization.Scalar.{Object, Representable}
use gaspi_cxx.Serialization.Vector
use gaspi_cxx.Serialization.Vector.{
  serialize_elements, serialize_elements_lem, serialize_elements_stream,
  serialize_elements_stream_lem, All, bytes_elements, bytes,
}
use gaspi_cxx.Serialization.Ordered.{insert, Ascending, insert_last}

module _ {A : Type 0} (size_object : Object ℕ) (F : Format A) (lt : A → A → Bool) where
  abbrev insert_element : A → List A → List A
  insert_element = insert (λ x. x) lt

  unfoldable pub size : List A → ℕ
  size set = size_object.sizeof + Vector.size_elements size_object F set

  unfoldable pub serialize : ℕ → List A → Memory → Memory × ℕ
  serialize buffer set m =
      let (m', n) = Scalar.serialize size_object buffer (length set) m in
      let (m'', _) = serialize_elements size_object F (buffer + n) set m' in (m'', size set)

  -- The loop over `k` elements at `p`, with the set so far.
  abbrev pub deserialize_elements : ℕ → ℕ → Memory → List A → List A × ℕ
  deserialize_elements zero p m set = (set, p)
  deserialize_elements (suc k) p m set =
      let (elem, n) = F.deserialize p m in
      deserialize_elements k (p + n) m (insert_element elem set)

  unfoldable pub deserialize : ℕ → Memory → List A × ℕ
  deserialize buffer m =
      let (len, n) = Scalar.deserialize size_object buffer m in
      let (set, _) = deserialize_elements len (buffer + n) m [] in (set, size set)

  unfoldable pub serialize_stream : Ostream → List A → Result Ostream
  serialize_stream out set = do
    out' ←
        serialize_elements_stream size_object F (write (size_object.to_bytes (length set)) out) set
    check_out out'

  abbrev pub deserialize_elements_stream : ℕ → Istream → List A → Result (List A × Istream)
  deserialize_elements_stream zero input set = ok (set, input)
  deserialize_elements_stream (suc k) input set = do
    (elem, input') ← F.deserialize_stream input
    deserialize_elements_stream k input' (insert_element elem set)

  unfoldable pub deserialize_stream : Istream → Result (List A × Istream)
  deserialize_stream input = do
    (len, input') ← Scalar.deserialize_stream size_object input
    (set, input'') ← deserialize_elements_stream len input' []
    check_in set input''

  abbrev pub format : ℕ → Format (List A)
  format sizeof_set = record {
    size_of = sizeof_set;
    size = size;
    serialize = serialize;
    deserialize = deserialize;
    serialize_stream = serialize_stream;
    deserialize_stream = deserialize_stream;
  }

abbrev pub Valid : {A : Type 0} → (A → A → Bool) → (A → Type 0) → List A → Type 0
Valid lt Valid_element set = Vector.Valid Valid_element set × Ascending (λ x. x) lt set

module _ {A : Type 0} (size_object : Object ℕ) (F : Format A) (lt : A → A → Bool)
    (asym : (x y : A) → lt x y ≡ true → lt y x ≡ false) (Valid_element : A → Type 0)
    (element_bytes : A → List ℕ) (sound : Sound F Valid_element element_bytes) where
  grown :
      (done : List A) (x : A) (xs : List A)
      → Ascending (λ y. y) lt (done ++ x ∷ xs)
      → (insert (λ y. y) lt x done ++ xs ≡ done ++ x ∷ xs)
  grown done x xs h =
      ap (λ l. l ++ xs) (insert_last (λ y. y) lt asym done x xs h) ∙ append_assoc done (x ∷ []) xs

  deserialize_elements_lem :
      (p : ℕ) (xs : List A) (m : Memory) (done : List A)
      → All Valid_element xs
      → Holds m p (bytes_elements element_bytes xs)
      → Ascending (λ x. x) lt (done ++ xs)
      → deserialize_elements size_object F lt (length xs) p m done
        ≡ (done ++ xs, p + length (bytes_elements element_bytes xs))
  deserialize_elements_lem p [] m done v h up =
      rw (append_nil done) (ap (λ k. (done, k)) (omega arith))
  deserialize_elements_lem p (x ∷ xs) m done (v, vs) h up =
      let k = length (element_bytes x) in
      let elements = bytes_elements element_bytes xs in
      let total : p + k + length elements ≡ p + length (element_bytes x ++ elements) =
        omega (arith, length-append (element_bytes x) elements) in
      let more = insert (λ y. y) lt x done in
      let up' : Ascending (λ y. y) lt (more ++ xs) =
        subst (Ascending (λ y. y) lt) (sym (grown done x xs up)) up in
      ap
        (λ (elem, n).
          deserialize_elements size_object F lt (length xs) (p + n) m
            (insert (λ y. y) lt elem done))
        (sound.deserialize_lem p x m v (Holds-left m p (element_bytes x) elements h))
      ∙ deserialize_elements_lem (p + k) xs m more vs (Holds-right m p (element_bytes x) elements h)
          up'
      ∙ rw (grown done x xs up, total) refl

  deserialize_elements_stream_lem :
      (xs : List A) (rest : List ℕ) (done : List A)
      → All Valid_element xs
      → Ascending (λ x. x) lt (done ++ xs)
      → deserialize_elements_stream size_object F lt
          (length xs)
          (fed (bytes_elements element_bytes xs) rest)
          done
        ≡ ok (done ++ xs, record { unread = rest; in_good = true })
  deserialize_elements_stream_lem [] rest done v up = rw (append_nil done) refl
  deserialize_elements_stream_lem (x ∷ xs) rest done (v, vs) up =
      let elements = bytes_elements element_bytes xs in
      let more = insert (λ y. y) lt x done in
      let up' : Ascending (λ y. y) lt (more ++ xs) =
        subst (Ascending (λ y. y) lt) (sym (grown done x xs up)) up in
      rw
        (
          fed-append (element_bytes x) elements rest,
          sound.deserialize_stream_lem x (elements ++ rest) v,
          deserialize_elements_stream_lem xs rest more vs up',
          grown done x xs up,
        )
        refl

  module _ (law : Representable size_object (λ n. n < size_mod))
      (sized : Sized F Valid_element element_bytes) (sizeof_set : ℕ) where
    pub format-Sized :
        Sized
          (format size_object F lt sizeof_set)
          (Valid lt Valid_element)
          (bytes size_object element_bytes)
    unfolding size
    format-Sized set ((v, vs), up) = omega (
      arith,
      law.to_size (length set) v,
      Vector.size_elements_lem size_object F Valid_element element_bytes sized set vs,
      length-append (size_object.to_bytes (length set)) (bytes_elements element_bytes set),
    )

    pub format-Sound :
        Sound
          (format size_object F lt sizeof_set)
          (Valid lt Valid_element)
          (bytes size_object element_bytes)
    unfolding serialize deserialize serialize_stream deserialize_stream
    format-Sound =
        let scalar = Scalar.format-Sound size_object law in
        record {
          serialize_lem = λ p set m v.
              let head = size_object.to_bytes (length set) in
              let elements = bytes_elements element_bytes set in
              rw
                (
                  scalar.serialize_lem p (length set) m v.0.0,
                  serialize_elements_lem size_object F Valid_element element_bytes sound
                      (p + length head) set (store p head m) v.0.1,
                  store-append p head elements m,
                  format-Sized set v,
                )
                refl;
          deserialize_lem = λ p set m v h.
              let head = size_object.to_bytes (length set) in
              let elements = bytes_elements element_bytes set in
              rw
                (
                  scalar.deserialize_lem p (length set) m v.0.0 (Holds-left m p head elements h),
                  deserialize_elements_lem (p + length head) set m [] v.0.1
                      (Holds-right m p head elements h) v.1,
                  format-Sized set v,
                )
                refl;
          serialize_stream_lem = λ out set v.
              let head = size_object.to_bytes (length set) in
              serialize_elements_stream_lem size_object F Valid_element element_bytes sound
                (write head out) set v.0.1
              ∙ write-write head (bytes_elements element_bytes set) out;
          deserialize_stream_lem = λ set rest v.
              let head = size_object.to_bytes (length set) in
              let elements = bytes_elements element_bytes set in
              let begin = scalar.deserialize_stream_lem (length set) (elements ++ rest) v.0.0 in
              let others = deserialize_elements_stream_lem set rest [] v.0.1 v.1 in
              rw (fed-append head elements rest, begin, others) refl;
        }
