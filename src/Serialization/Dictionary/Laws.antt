-- ===== src/Serialization/Dictionary/Laws.antt =====
-- The overloads for `std::map` of include/GaspiCxx/utility/serialization.hpp agree with the bytes of the number of
-- entries and of the entries, when those for the keys and the values do.
use gaspi_cxx.Common.{
  ℕ, ◌+◌, ◌-◌, ◌<◌, ◌≡◌, List, [], ◌∷◌, ◌++◌, Bool, true, false, length, length-append, size_mod,
  append_nil, append_assoc, refl, sym, subst, ap, ◌∙◌, ok, ◌>>=◌, arith,
}
use gaspi_cxx.Serialization.Memory.{Memory, store, Holds, store-append, Holds-left, Holds-right}
use gaspi_cxx.Serialization.Streams.{
  Ostream, write, write_nil, check_out, fed, fed-append, then_loop, write-write,
}
use gaspi_cxx.Serialization.Format.{Format, Sound}
use gaspi_cxx.Serialization.Scalar
use gaspi_cxx.Serialization.Scalar.{Object, Representable}
use gaspi_cxx.Serialization.Vector
use gaspi_cxx.Serialization.Vector.{All, bytes_elements}
use gaspi_cxx.Serialization.Pair
use gaspi_cxx.Serialization.Ordered.{insert, Ascending, insert_last}
use gaspi_cxx.Serialization.Dictionary.{
  key, serialize_entries, serialize, deserialize_entries, deserialize, serialize_entries_stream,
  serialize_stream, deserialize_entries_stream, deserialize_stream, format, Valid,
}

module _ {U V : Type 0} (size_object : Object ℕ) (FU : Format U) (FV : Format V) (lt : U → U → Bool)
    (asym : (x y : U) → lt x y ≡ true → lt y x ≡ false) {ValidU : U → Type 0} {ValidV : V → Type 0}
    (bytesU : U → List ℕ) (bytesV : V → List ℕ) (soundU : Sound FU ValidU bytesU)
    (soundV : Sound FV ValidV bytesV) where
  abbrev entry_bytes : U × V → List ℕ
  entry_bytes = Pair.bytes bytesU bytesV

  abbrev ValidEntries : List (U × V) → Type 0
  ValidEntries = All (Pair.Valid ValidU ValidV)

  -- The bytes of some entries behind those of one entry.
  ends :
      (p : ℕ) (u : U) (v : V) (bs : List ℕ)
      → p + length (bytesU u) + length (bytesV v) + length bs
        ≡ p + length ((bytesU u ++ bytesV v) ++ bs)
  ends p u v bs =
      omega (arith, length-append (bytesU u ++ bytesV v) bs, length-append (bytesU u) (bytesV v))

  serialize_entries_lem :
      (p : ℕ) (xs : List (U × V)) (m : Memory)
      → ValidEntries xs
      → serialize_entries size_object FU FV lt p xs m
        ≡ (store p (bytes_elements entry_bytes xs) m, p + length (bytes_elements entry_bytes xs))
  unfolding store
  serialize_entries_lem p [] m h = ap (λ k. (m, k)) (omega arith)
  serialize_entries_lem p ((u, v) ∷ xs) m ((hu, hv), h) =
      let i = length (bytesU u) in
      let j = length (bytesV v) in
      let others = bytes_elements entry_bytes xs in
      let m' = store p (bytesU u) m in
      let m'' = store (p + i) (bytesV v) m' in
      let place : p + i + j ≡ p + length (bytesU u ++ bytesV v) =
        omega (arith, length-append (bytesU u) (bytesV v)) in
      let stored : store (p + i + j) others m'' ≡ store p ((bytesU u ++ bytesV v) ++ others) m =
        ap (λ q. store q others m'') place
        ∙ ap (store (p + length (bytesU u ++ bytesV v)) others)
            (sym (store-append p (bytesU u) (bytesV v) m))
        ∙ sym (store-append p (bytesU u ++ bytesV v) others m) in
      rw
        (
          soundU.serialize_lem p u m hu,
          soundV.serialize_lem (p + i) v m' hv,
          serialize_entries_lem (p + i + j) xs m'' h,
          stored,
          ends p u v others,
        )
        refl

  grown :
      (done : List (U × V)) (x : U × V) (xs : List (U × V))
      → Ascending key lt (done ++ x ∷ xs)
      → insert key lt x done ++ xs ≡ done ++ x ∷ xs
  grown done x xs h =
      ap (λ l. l ++ xs) (insert_last key lt asym done x xs h) ∙ append_assoc done (x ∷ []) xs

  deserialize_entries_lem :
      (p : ℕ) (xs : List (U × V)) (m : Memory) (done : List (U × V))
      → ValidEntries xs
      → Holds m p (bytes_elements entry_bytes xs)
      → Ascending key lt (done ++ xs)
      → deserialize_entries size_object FU FV lt (length xs) p m done
        ≡ (done ++ xs, p + length (bytes_elements entry_bytes xs))
  deserialize_entries_lem p [] m done v h up =
      rw (append_nil done) (ap (λ k. (done, k)) (omega arith))
  deserialize_entries_lem p ((u, v) ∷ xs) m done ((hu, hv), vs) h up =
      let i = length (bytesU u) in
      let j = length (bytesV v) in
      let others = bytes_elements entry_bytes xs in
      let entry = Holds-left m p (bytesU u ++ bytesV v) others h in
      let place : p + length (bytesU u ++ bytesV v) ≡ p + i + j =
        omega (arith, length-append (bytesU u) (bytesV v)) in
      let behind : Holds m (p + i + j) others =
        subst (λ q. Holds m q others) place (Holds-right m p (bytesU u ++ bytesV v) others h) in
      let more = insert key lt (u, v) done in
      let up' : Ascending key lt (more ++ xs) =
        subst (Ascending key lt) (sym (grown done (u, v) xs up)) up in
      ap
        (λ (first, n).
          let (second, n') = FV.deserialize (p + n) m in
          deserialize_entries size_object FU FV lt (length xs) (p + n + n') m
            (insert key lt (first, second) done))
        (soundU.deserialize_lem p u m hu (Holds-left m p (bytesU u) (bytesV v) entry))
      ∙ ap
          (λ (second, n').
            deserialize_entries size_object FU FV lt (length xs) (p + i + n') m
              (insert key lt (u, second) done))
          (soundV.deserialize_lem (p + i) v m hv (Holds-right m p (bytesU u) (bytesV v) entry))
      ∙ deserialize_entries_lem (p + i + j) xs m more vs behind up'
      ∙ rw (grown done (u, v) xs up, ends p u v others) refl

  serialize_entries_stream_lem :
      (out : Ostream) (xs : List (U × V))
      → ValidEntries xs
      → (serialize_entries_stream size_object FU FV lt out xs >>= check_out)
        ≡ check_out (write (bytes_elements entry_bytes xs) out)
  serialize_entries_stream_lem out [] v = sym (write_nil out)
  serialize_entries_stream_lem out ((u, v) ∷ xs) ((hu, hv), vs) =
      let others = bytes_elements entry_bytes xs in
      then_loop (bytesU u) (bytesV v ++ others) out (FU.serialize_stream out u)
        (λ o. FV.serialize_stream o v >>= λ o'. serialize_entries_stream size_object FU FV lt o' xs)
        (soundU.serialize_stream_lem out u hu)
        (λ o.
          then_loop (bytesV v) others o (FV.serialize_stream o v)
            (λ o'. serialize_entries_stream size_object FU FV lt o' xs)
            (soundV.serialize_stream_lem o v hv) (λ o'. serialize_entries_stream_lem o' xs vs))
      ∙ ap (λ bs. check_out (write bs out)) (sym (append_assoc (bytesU u) (bytesV v) others))

  deserialize_entries_stream_lem :
      (xs : List (U × V)) (rest : List ℕ) (done : List (U × V))
      → ValidEntries xs
      → Ascending key lt (done ++ xs)
      → deserialize_entries_stream size_object FU FV lt
          (length xs)
          (fed (bytes_elements entry_bytes xs) rest)
          done
        ≡ ok (done ++ xs, record { unread = rest; in_good = true })
  deserialize_entries_stream_lem [] rest done v up = rw (append_nil done) refl
  deserialize_entries_stream_lem ((u, v) ∷ xs) rest done ((hu, hv), vs) up =
      let others = bytes_elements entry_bytes xs in
      let more = insert key lt (u, v) done in
      let up' : Ascending key lt (more ++ xs) =
        subst (Ascending key lt) (sym (grown done (u, v) xs up)) up in
      rw
        (
          fed-append (bytesU u ++ bytesV v) others rest,
          fed-append (bytesU u) (bytesV v) (others ++ rest),
          soundU.deserialize_stream_lem u (bytesV v ++ (others ++ rest)) hu,
          soundV.deserialize_stream_lem v (others ++ rest) hv,
          deserialize_entries_stream_lem xs rest more vs up',
          grown done (u, v) xs up,
        )
        refl

  -- When the overloads for the keys and for the values agree with their bytes, those for `std::map` agree
  -- with the bytes of the number of entries, and of key and value of each entry in the order of the keys;
  -- for maps of fewer than 2 ^ 64 entries, a comparison that is asymmetric and an object representation
  -- of `std::size_t` that keeps numbers below 2 ^ 64. The sizes returned are those of the bytes, whatever
  -- `size` of a key or a value is.
  pub format-Sound :
      Representable size_object (λ n. n < size_mod)
      → (sizeof_map : ℕ)
      → Sound
          (format size_object FU FV lt sizeof_map)
          (Valid lt ValidU ValidV)
          (Vector.bytes size_object entry_bytes)
  unfolding serialize deserialize serialize_stream deserialize_stream
  format-Sound law sizeof_map =
      let scalar = Scalar.format-Sound size_object law in
      record {
        serialize_lem = λ p map m v.
            let head = size_object.to_bytes (length map) in
            let entries = bytes_elements entry_bytes map in
            let count : p + length head + length entries - p ≡ length (head ++ entries) =
              omega (arith, length-append head entries) in
            rw
              (
                scalar.serialize_lem p (length map) m v.0.0,
                serialize_entries_lem (p + length head) map (store p head m) v.0.1,
                store-append p head entries m,
                count,
              )
              refl;
        deserialize_lem = λ p map m v h.
            let head = size_object.to_bytes (length map) in
            let entries = bytes_elements entry_bytes map in
            let count : p + length head + length entries - p ≡ length (head ++ entries) =
              omega (arith, length-append head entries) in
            rw
              (
                scalar.deserialize_lem p (length map) m v.0.0 (Holds-left m p head entries h),
                deserialize_entries_lem (p + length head) map m [] v.0.1
                    (Holds-right m p head entries h) v.1,
                count,
              )
              refl;
        serialize_stream_lem = λ out map v.
            let head = size_object.to_bytes (length map) in
            serialize_entries_stream_lem (write head out) map v.0.1
            ∙ write-write head (bytes_elements entry_bytes map) out;
        deserialize_stream_lem = λ map rest v.
            let head = size_object.to_bytes (length map) in
            let entries = bytes_elements entry_bytes map in
            let begin = scalar.deserialize_stream_lem (length map) (entries ++ rest) v.0.0 in
            let others = deserialize_entries_stream_lem map rest [] v.0.1 v.1 in
            rw (fed-append head entries rest, begin, others) refl;
      }
