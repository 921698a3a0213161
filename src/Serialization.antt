-- ===== src/Serialization.antt =====
-- include/GaspiCxx/utility/serialization.hpp and src/utility/serialization.cpp: the overloads of `size`,
-- `serialize` and `deserialize` for memory and for streams, one child for each family of types, and the
-- round trips. A type with its overloads is a `Format`, which overload resolution finds; the overloads of
-- a container take that of the elements.
pub mod Memory
pub mod Streams
pub mod Format
pub mod Scalar
pub mod Text
pub mod Pair
pub mod Vector
pub mod Ordered
pub mod Set
pub mod Dictionary
pub mod RoundTrip
pub mod Description
mod Tests
