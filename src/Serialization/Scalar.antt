-- ===== src/Serialization/Scalar.antt =====
-- src/utility/serialization.cpp, the overloads for the types that are copied byte by byte. How a type
-- lies in memory is up to the platform: the record `Object`.
use gaspi_cxx.Common.{ℕ, ◌≡◌, List, length, refl, sym, subst, ap, Result}
use gaspi_cxx.Serialization.Memory.{Memory, store, load}
use gaspi_cxx.Serialization.Streams.{Ostream, Istream, write, read, check_out, check_in, read-fed}
use gaspi_cxx.Serialization.Format.{Format, Sound, Sized}

pub record Object (A : Type 0) : Type 0 where
  pub sizeof : ℕ
  pub to_bytes : A → List ℕ
  pub from_bytes : List ℕ → A

-- Valid elements have an object representation of `sizeof` bytes that determines them.
pub record Representable {A : Type 0} (o : Object A) (Valid : A → Type 0) : Type 0 where
  pub to_size : (a : A) → Valid a → length (o.to_bytes a) ≡ o.sizeof
  pub back : (a : A) → Valid a → o.from_bytes (o.to_bytes a) ≡ a

module _ {A : Type 0} (o : Object A) where
  abbrev pub size : A → ℕ
  size elem = o.sizeof

  unfoldable pub serialize : ℕ → A → Memory → Memory × ℕ
  serialize buffer elem m = (store buffer (o.to_bytes elem) m, size elem)

  unfoldable pub deserialize : ℕ → Memory → A × ℕ
  unfolding load
  deserialize buffer m = let elem = o.from_bytes (load buffer o.sizeof m) in (elem, size elem)

  unfoldable pub serialize_stream : Ostream → A → Result Ostream
  unfolding write
  serialize_stream out elem = check_out (write (o.to_bytes elem) out)

  unfoldable pub deserialize_stream : Istream → Result (A × Istream)
  unfolding read
  deserialize_stream input =
      let (bs, input') = read o.sizeof input in check_in (o.from_bytes bs) input'

  abbrev pub format : Format A
  format = record {
    size_of = o.sizeof;
    size = size;
    serialize = serialize;
    deserialize = deserialize;
    serialize_stream = serialize_stream;
    deserialize_stream = deserialize_stream;
  }

  module _ {Valid : A → Type 0} (law : Representable o Valid) where
    pub format-Sound : Sound format Valid o.to_bytes
    unfolding serialize deserialize serialize_stream deserialize_stream
    format-Sound = record {
      serialize_lem = λ p a m v. ap (λ n. (store p (o.to_bytes a) m, n)) (sym (law.to_size a v));
      deserialize_lem = λ p a m v h.
          let loaded : load p o.sizeof m ≡ o.to_bytes a =
            subst (λ k. load p k m ≡ o.to_bytes a) (law.to_size a v) h in
          rw (loaded, law.back a v, law.to_size a v) refl;
      serialize_stream_lem = λ out a v. refl;
      deserialize_stream_lem = λ a rest v.
          rw (read-fed o.sizeof (o.to_bytes a) rest (law.to_size a v), law.back a v) refl;
    }

    pub format-Sized : Sized format Valid o.to_bytes
    format-Sized a v = sym (law.to_size a v)
