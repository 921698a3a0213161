-- ===== src/Serialization/Format.antt =====
-- A type with its overloads in include/GaspiCxx/utility/serialization.hpp, and what makes them right.
use gaspi_cxx.Common.{ℕ, ◌≡◌, List, length, true, Result, ok}
use gaspi_cxx.Serialization.Memory.{Memory, store, Holds}
use gaspi_cxx.Serialization.Streams.{Ostream, Istream, write, check_out, fed}

-- The overloads of `size`, `serialize` and `deserialize` for one type. `serialize` gives the memory and the
-- returned size, `deserialize` the element and the returned size.
pub record Format (A : Type 0) : Type 0 where
  -- `sizeof` of an element
  pub size_of : ℕ
  pub size : A → ℕ
  pub serialize : ℕ → A → Memory → Memory × ℕ
  pub deserialize : ℕ → Memory → A × ℕ
  pub serialize_stream : Ostream → A → Result Ostream
  pub deserialize_stream : Istream → Result (A × Istream)

-- On the valid elements, the overloads agree with the byte sequence `bytes`: `serialize` stores exactly
-- these bytes at the address and returns their number, and `deserialize` gives the element back from them
-- and returns their number. A stream gets these bytes as by a single write, or the exception of a
-- stream that is not good; from a stream that begins with them, the element is read and the rest left.
pub record Sound {A : Type 0} (F : Format A) (Valid : A → Type 0) (bytes : A → List ℕ)
    : Type 0 where
  pub serialize_lem :
      (p : ℕ) (a : A) (m : Memory)
      → Valid a
      → F.serialize p a m ≡ (store p (bytes a) m, length (bytes a))
  pub deserialize_lem :
      (p : ℕ) (a : A) (m : Memory)
      → Valid a
      → Holds m p (bytes a)
      → F.deserialize p m ≡ (a, length (bytes a))
  pub serialize_stream_lem :
      (out : Ostream) (a : A) → Valid a → F.serialize_stream out a ≡ check_out (write (bytes a) out)
  pub deserialize_stream_lem :
      (a : A) (rest : List ℕ)
      → Valid a
      → F.deserialize_stream (fed (bytes a) rest) ≡ ok (a, record { unread = rest; in_good = true })

-- `size` gives the number of bytes.
abbrev pub Sized : {A : Type 0} → Format A → (A → Type 0) → (A → List ℕ) → Type 0
Sized {A} F Valid bytes = (a : A) → Valid a → F.size a ≡ length (bytes a)
