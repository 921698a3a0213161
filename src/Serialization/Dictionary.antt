-- ===== src/Serialization/Dictionary.antt =====
-- include/GaspiCxx/utility/serialization.hpp, the overloads for `std::map`: the number of entries, then key
-- and value of each, in the order of the keys; read by insertion. `lt` is the comparison of the keys.
pub mod Laws
use gaspi_cxx.Common.{
  ℕ, zero, suc, ◌+◌, ◌-◌, ◌<◌, ◌≡◌, List, [], ◌∷◌, ◌++◌, Bool, true, false, length, length-append,
  size_mod, append_nil, append_assoc, refl, sym, subst, ap, ◌∙◌, Result, ok, err, ◌>>=◌, arith,
}
use gaspi_cxx.Serialization.Memory.{Memory, store, Holds, store-append, Holds-left, Holds-right}
use gaspi_cxx.Serialization.Streams.{
  Ostream, Istream, write, write_nil, check_out, check_in, fed, fed-append, then_write, write-write,
}
use gaspi_cxx.Serialization.Format.{Format, Sound, Sized}
use gaspi_cxx.Serialization.Scalar
use gaspi_cxx.Serialization.Scalar.{Object, Representable}
use gaspi_cxx.Serialization.Vector
use gaspi_cxx.Serialization.Vector.{All, bytes_elements}
use gaspi_cxx.Serialization.Pair
use gaspi_cxx.Serialization.Ordered.{insert, Ascending, insert_last}

abbrev pub key : {U V : Type 0} → U × V → U
key (first, second) = first

module _ {U V : Type 0} (size_object : Object ℕ) (FU : Format U) (FV : Format V)
    (lt : U → U → Bool) where
  abbrev insert_entry : U × V → List (U × V) → List (U × V)
  insert_entry = insert key lt

  abbrev size_entries : List (U × V) → ℕ
  size_entries [] = 0
  size_entries ((first, second) ∷ entries) = FU.size first + FV.size second + size_entries entries

  unfoldable pub size : List (U × V) → ℕ
  size map = size_object.sizeof + size_entries map

  abbrev pub serialize_entries : ℕ → List (U × V) → Memory → Memory × ℕ
  serialize_entries p [] m = (m, p)
  serialize_entries p ((first, second) ∷ entries) m =
      let (m', n) = FU.serialize p first m in
      let (m'', n') = FV.serialize (p + n) second m' in serialize_entries (p + n + n') entries m''

  unfoldable pub serialize : ℕ → List (U × V) → Memory → Memory × ℕ
  serialize buffer map m =
      let (m', n) = Scalar.serialize size_object buffer (length map) m in
      let (m'', p) = serialize_entries (buffer + n) map m' in (m'', p - buffer)

  -- The loop over `k` entries at `p`, with the map so far.
  abbrev pub deserialize_entries : ℕ → ℕ → Memory → List (U × V) → List (U × V) × ℕ
  deserialize_entries zero p m map = (map, p)
  deserialize_entries (suc k) p m map =
      let (first, n) = FU.deserialize p m in
      let (second, n') = FV.deserialize (p + n) m in
      deserialize_entries k (p + n + n') m (insert_entry (first, second) map)

  unfoldable pub deserialize : ℕ → Memory → List (U × V) × ℕ
  deserialize buffer m =
      let (len, n) = Scalar.deserialize size_object buffer m in
      let (map, p) = deserialize_entries len (buffer + n) m [] in (map, p - buffer)

  abbrev pub serialize_entries_stream : Ostream → List (U × V) → Result Ostream
  serialize_entries_stream out [] = ok out
  serialize_entries_stream out ((first, second) ∷ entries) = do
    out' ← FU.serialize_stream out first
    out'' ← FV.serialize_stream out' second
    serialize_entries_stream out'' entries

  unfoldable pub serialize_stream : Ostream → List (U × V) → Result Ostream
  serialize_stream out map = do
    out' ← serialize_entries_stream (write (size_object.to_bytes (length map)) out) map
    check_out out'

  abbrev pub deserialize_entries_stream :
      ℕ → Istream → List (U × V) → Result (List (U × V) × Istream)
  deserialize_entries_stream zero input map = ok (map, input)
  deserialize_entries_stream (suc k) input map = do
    (first, input') ← FU.deserialize_stream input
    (second, input'') ← FV.deserialize_stream input'
    deserialize_entries_stream k input'' (insert_entry (first, second) map)

  unfoldable pub deserialize_stream : Istream → Result (List (U × V) × Istream)
  deserialize_stream input = do
    (len, input') ← Scalar.deserialize_stream size_object input
    (map, input'') ← deserialize_entries_stream len input' []
    check_in map input''

  abbrev pub format : ℕ → Format (List (U × V))
  format sizeof_map = record {
    size_of = sizeof_map;
    size = size;
    serialize = serialize;
    deserialize = deserialize;
    serialize_stream = serialize_stream;
    deserialize_stream = deserialize_stream;
  }

abbrev pub Valid :
    {U V : Type 0} → (U → U → Bool) → (U → Type 0) → (V → Type 0) → List (U × V) → Type 0
Valid lt ValidU ValidV map = Vector.Valid (Pair.Valid ValidU ValidV) map × Ascending key lt map
