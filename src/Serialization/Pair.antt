-- ===== src/Serialization/Pair.antt =====
-- include/GaspiCxx/utility/serialization.hpp, the overloads for `std::pair`. They call the overloads of the
-- members that are declared before them: the members are scalars, strings or pairs. The overloads of the
-- containers come later in the header, so that a pair with a container among its members does not link.
use gaspi_cxx.Common.{
  ℕ, ◌+◌, ◌-◌, ◌≡◌, List, ◌++◌, length, length-append, refl, Result, ◌>>=◌, arith,
}
use gaspi_cxx.Serialization.Memory.{Memory, store, store-append, Holds-left, Holds-right}
use gaspi_cxx.Serialization.Streams.{
  Ostream, Istream, check_out, check_in, fed-append, then_write, then_checked,
}
use gaspi_cxx.Serialization.Format.{Format, Sound, Sized}

module _ {U V : Type 0} (FU : Format U) (FV : Format V) where
  -- `sizeof` of the members, whatever their own `size` is.
  unfoldable pub size : U × V → ℕ
  size pair = FU.size_of + FV.size_of

  unfoldable pub serialize : ℕ → U × V → Memory → Memory × ℕ
  serialize buffer (first, second) m =
      let (m', n) = FU.serialize buffer first m in
      let (m'', n') = FV.serialize (buffer + n) second m' in (m'', buffer + n + n' - buffer)

  unfoldable pub deserialize : ℕ → Memory → (U × V) × ℕ
  deserialize buffer m =
      let (first, n) = FU.deserialize buffer m in
      let (second, n') = FV.deserialize (buffer + n) m in
      ((first, second), buffer + n + n' - buffer)

  unfoldable pub serialize_stream : Ostream → U × V → Result Ostream
  serialize_stream out (first, second) = do
    out' ← FU.serialize_stream out first
    out'' ← FV.serialize_stream out' second
    check_out out''

  unfoldable pub deserialize_stream : Istream → Result ((U × V) × Istream)
  deserialize_stream input = do
    (first, input') ← FU.deserialize_stream input
    (second, input'') ← FV.deserialize_stream input'
    check_in (first, second) input''

  -- The argument is `sizeof` of the pair.
  abbrev pub format : ℕ → Format (U × V)
  format sizeof_pair = record {
    size_of = sizeof_pair;
    size = size;
    serialize = serialize;
    deserialize = deserialize;
    serialize_stream = serialize_stream;
    deserialize_stream = deserialize_stream;
  }

abbrev pub bytes : {U V : Type 0} → (U → List ℕ) → (V → List ℕ) → U × V → List ℕ
bytes first_bytes second_bytes (first, second) = first_bytes first ++ second_bytes second

abbrev pub Valid : {U V : Type 0} → (U → Type 0) → (V → Type 0) → U × V → Type 0
Valid ValidU ValidV (first, second) = ValidU first × ValidV second

module _ {U V : Type 0} (FU : Format U) (FV : Format V) {ValidU : U → Type 0} {ValidV : V → Type 0}
    (bytesU : U → List ℕ) (bytesV : V → List ℕ) (sizeof_pair : ℕ) where
  module _ (soundU : Sound FU ValidU bytesU) (soundV : Sound FV ValidV bytesV) where
    -- The serialization of pairs agrees with the bytes of the first member followed by those of the
    -- second, when it does so for both members.
    pub format-Sound : Sound (format FU FV sizeof_pair) (Valid ValidU ValidV) (bytes bytesU bytesV)
    unfolding serialize deserialize serialize_stream deserialize_stream
    format-Sound = record {
      serialize_lem = λ p (u, v) m (hu, hv).
          let k = length (bytesU u) in
          let count : p + k + length (bytesV v) - p ≡ length (bytesU u ++ bytesV v) =
            omega (arith, length-append (bytesU u) (bytesV v)) in
          rw
            (
              soundU.serialize_lem p u m hu,
              soundV.serialize_lem (p + k) v (store p (bytesU u) m) hv,
              store-append p (bytesU u) (bytesV v) m,
              count,
            )
            refl;
      deserialize_lem = λ p (u, v) m (hu, hv) h.
          let k = length (bytesU u) in
          let count : p + k + length (bytesV v) - p ≡ length (bytesU u ++ bytesV v) =
            omega (arith, length-append (bytesU u) (bytesV v)) in
          rw
            (
              soundU.deserialize_lem p u m hu (Holds-left m p (bytesU u) (bytesV v) h),
              soundV.deserialize_lem (p + k) v m hv (Holds-right m p (bytesU u) (bytesV v) h),
              count,
            )
            refl;
      serialize_stream_lem = λ out (u, v) (hu, hv).
          then_write (bytesU u) (bytesV v) out (FU.serialize_stream out u)
            (λ o. FV.serialize_stream o v >>= check_out) (soundU.serialize_stream_lem out u hu)
            (λ o.
              then_checked (bytesV v) o (FV.serialize_stream o v)
                (soundV.serialize_stream_lem o v hv));
      deserialize_stream_lem = λ (u, v) rest (hu, hv).
          let first = soundU.deserialize_stream_lem u (bytesV v ++ rest) hu in
          let second = soundV.deserialize_stream_lem v rest hv in
          rw (fed-append (bytesU u) (bytesV v) rest, first, second) refl;
    }

  -- `size` is right only for members whose bytes are always as many as their `sizeof`.
  pub format-Sized :
      ((u : U) → ValidU u → length (bytesU u) ≡ FU.size_of)
      → ((v : V) → ValidV v → length (bytesV v) ≡ FV.size_of)
      → Sized (format FU FV sizeof_pair) (Valid ValidU ValidV) (bytes bytesU bytesV)
  unfolding size
  format-Sized hu hv (u, v) (vu, vv) =
      omega (arith, hu u vu, hv v vv, length-append (bytesU u) (bytesV v))
