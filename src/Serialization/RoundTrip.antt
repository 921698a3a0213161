-- ===== src/Serialization/RoundTrip.antt =====
-- What is written by `serialize` of include/GaspiCxx/utility/serialization.hpp is read back by `deserialize`, for a
-- map from strings to sets of vectors of pairs.
use gaspi_cxx.Common.{
  ℕ, ◌+◌, ◌-◌, ◌<◌, ◌≤◌, ◌≡◌, ◌⊎◌, inl, inr, List, ◌++◌, Bool, true, false, length, size_mod, refl,
  ◌∙◌, ok, leb, ◌&&◌, arith,
}
use gaspi_cxx.Serialization.Memory.{Memory, store, Holds-store, store_below, store_outside}
use gaspi_cxx.Serialization.Streams.{Ostream, write, fed}
use gaspi_cxx.Serialization.Format.{Format, Sound}
use gaspi_cxx.Serialization.Scalar
use gaspi_cxx.Serialization.Scalar.{Object, Representable}
use gaspi_cxx.Serialization.Text
use gaspi_cxx.Serialization.Pair
use gaspi_cxx.Serialization.Vector
use gaspi_cxx.Serialization.Set
use gaspi_cxx.Serialization.Dictionary
use gaspi_cxx.Serialization.Dictionary.Laws

-- What a client of the overloads of one type relies on: reading after writing at an address, nothing
-- changed at an address `q` outside, and writing to a stream and reading from one.
abbrev pub RoundTrip :
    {A : Type 0} → Format A → ℕ → A → Memory → ℕ → Ostream → List ℕ → List ℕ → Type 0
RoundTrip F p a m q out rest bs =
    (F.deserialize p (F.serialize p a m).0 ≡ (a, (F.serialize p a m).1))
    × ((F.serialize p a m).0 q ≡ m q)
    × ((F.serialize p a m).1 ≡ length bs)
    × (F.serialize_stream out a
        ≡ ok (record out { written = out.written ++ bs; room = out.room - length bs }))
    × (F.deserialize_stream (fed bs rest) ≡ ok (a, record { unread = rest; in_good = true }))

Sound-RoundTrip :
    {A : Type 0} (F : Format A) {Valid : A → Type 0} (bytes : A → List ℕ)
    → Sound F Valid bytes
    → (p : ℕ) (a : A) (m : Memory) (q : ℕ) (out : Ostream) (rest : List ℕ) → Valid a
    → ((q < p) ⊎ (p + length (bytes a) ≤ q))
    → out.out_good ≡ true
    → length (bytes a) ≤ out.room
    → RoundTrip F p a m q out rest (bytes a)
unfolding write
Sound-RoundTrip F bytes sound p a m q out rest v outside good fits =
    let written = sound.serialize_lem p a m v in
    let kept : store p (bytes a) m q ≡ m q = elim outside [
      | inl before ↦ store_below p (bytes a) m q before
      | inr after ↦ store_outside p (bytes a) m q after
    ] in
    let enough : (out.out_good && leb (length (bytes a)) out.room) ≡ true = ground arith in
    (
      rw (written, sound.deserialize_lem p a (store p (bytes a) m) v (Holds-store p (bytes a) m))
          refl,
      rw (written, kept) refl,
      rw written refl,
      sound.serialize_stream_lem out a v ∙ ground (arith, enough),
      sound.deserialize_stream_lem a rest v,
    )

-- `std::map<std::string, std::set<std::vector<std::pair<T, U>>>>`. Each container calls the overloads of its
-- elements, which stand before its own in the header: a pair of containers would not find theirs.
abbrev pub Nested : Type 0 → Type 0 → Type 0
Nested T U = List (List ℕ × List (List (T × U)))

module _ {T U : Type 0} (size_object : Object ℕ) (t_object : Object T) (u_object : Object U)
    (lt_string : List ℕ → List ℕ → Bool) (lt : List (T × U) → List (T × U) → Bool)
    (sizeof_any : ℕ) where
  abbrev vector_format : Format (List (T × U))
  vector_format =
      Vector.format size_object
        (Pair.format (Scalar.format t_object) (Scalar.format u_object) sizeof_any) sizeof_any

  -- `size_of` of the containers does not matter here: one number stands for all.
  abbrev pub nested_format : Format (Nested T U)
  nested_format =
      Dictionary.format size_object (Text.format size_object sizeof_any)
        (Set.format size_object vector_format lt sizeof_any) lt_string sizeof_any

  abbrev pub NestedValid : (T → Type 0) → (U → Type 0) → Nested T U → Type 0
  NestedValid ValidT ValidU =
      Dictionary.Valid lt_string (Text.Valid size_object)
        (Set.Valid lt (Vector.Valid (Pair.Valid ValidT ValidU)))

  abbrev vector_bytes : List (T × U) → List ℕ
  vector_bytes = Vector.bytes size_object (Pair.bytes t_object.to_bytes u_object.to_bytes)

  abbrev pub nested_bytes : Nested T U → List ℕ
  nested_bytes =
      Vector.bytes size_object
        (Pair.bytes (Text.bytes size_object) (Vector.bytes size_object vector_bytes))

  -- For every `std::map<std::string, std::set<std::vector<std::pair<T, U>>>>` whose containers have fewer than
  -- 2 ^ 64 elements, for asymmetric comparisons, and for types T, U and `std::size_t` that their object
  -- representation determines: `deserialize` at the address of `serialize` gives the same map
  -- and returns the same size; memory outside of as many bytes is unchanged; a good stream with room for
  -- the same bytes gets them; and a stream that begins with these bytes gives the map and is left behind them.
  pub nested-RoundTrip :
      {ValidT : T → Type 0} {ValidU : U → Type 0}
      → Representable size_object (λ n. n < size_mod)
      → Representable t_object ValidT
      → Representable u_object ValidU
      → ((x y : List ℕ) → lt_string x y ≡ true → lt_string y x ≡ false)
      → ((x y : List (T × U)) → lt x y ≡ true → lt y x ≡ false)
      → (p : ℕ) (map : Nested T U) (m : Memory) (q : ℕ) (out : Ostream) (rest : List ℕ)
      → NestedValid ValidT ValidU map
      → ((q < p) ⊎ (p + length (nested_bytes map) ≤ q))
      → out.out_good ≡ true
      → length (nested_bytes map) ≤ out.room
      → RoundTrip nested_format p map m q out rest (nested_bytes map)
  nested-RoundTrip {ValidT} {ValidU} law t_law u_law asym_string asym =
      let scalar_t = Scalar.format t_object in
      let scalar_u = Scalar.format u_object in
      let pair = Pair.format scalar_t scalar_u sizeof_any in
      let pair_bytes = Pair.bytes t_object.to_bytes u_object.to_bytes in
      let pair_sound =
        Pair.format-Sound scalar_t scalar_u t_object.to_bytes u_object.to_bytes sizeof_any
          (Scalar.format-Sound t_object t_law) (Scalar.format-Sound u_object u_law) in
      let pair_sized =
        Pair.format-Sized scalar_t scalar_u {ValidU = ValidT} {ValidV = ValidU} t_object.to_bytes
          u_object.to_bytes sizeof_any t_law.to_size u_law.to_size in
      let vector =
        Vector.format-Sound size_object pair (Pair.Valid ValidT ValidU) pair_bytes law pair_sized
          sizeof_any pair_sound in
      let vector_sized =
        Vector.format-Sized size_object pair (Pair.Valid ValidT ValidU) pair_bytes law pair_sized
          sizeof_any in
      let set =
        Set.format-Sound size_object vector_format lt asym (Vector.Valid (Pair.Valid ValidT ValidU))
          vector_bytes vector law vector_sized sizeof_any in
      Sound-RoundTrip nested_format nested_bytes (
        Laws.format-Sound size_object (Text.format size_object sizeof_any) _ lt_string asym_string
          (Text.bytes size_object) _ (Text.format-Sound size_object law sizeof_any) set law
          sizeof_any)
