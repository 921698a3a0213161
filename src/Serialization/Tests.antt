-- ===== src/Serialization/Tests.antt =====
-- A map written and read, and the size that a vector of pairs with a string returns.
use gaspi_cxx.Common.{
  ℕ, ◌<◌, ◌≡◌, List, [], ◌∷◌, Bool, true, false, ltb, ◌==◌, if◌then◌else◌, inr, refl, arith,
}
use gaspi_cxx.Serialization.Memory.{Memory, store, load}
use gaspi_cxx.Serialization.Streams.{Ostream}
use gaspi_cxx.Serialization.Format.{Format}
use gaspi_cxx.Serialization.Scalar
use gaspi_cxx.Serialization.Scalar.{Object, Representable}
use gaspi_cxx.Serialization.Text
use gaspi_cxx.Serialization.Pair
use gaspi_cxx.Serialization.Vector
use gaspi_cxx.Serialization.RoundTrip.{
  RoundTrip, Nested, nested_format, nested_bytes, nested-RoundTrip,
}

abbrev first : List ℕ → ℕ
first [] = 0
first (b ∷ bs) = b

-- A number in one cell.
abbrev cell : Object ℕ
cell = record { sizeof = 1; to_bytes = λ n. n ∷ []; from_bytes = first }

cell_law : {Valid : ℕ → Type 0} → Representable cell Valid
cell_law = record { to_size = λ a v. refl; back = λ a v. refl }

abbrev lt_string : List ℕ → List ℕ → Bool
lt_string xs [] = false
lt_string [] (y ∷ ys) = true
lt_string (x ∷ xs) (y ∷ ys) =
    let rest = lt_string xs ys in if ltb x y then true else if x == y then rest else false

lt_string_asym : (xs ys : List ℕ) → lt_string xs ys ≡ true → lt_string ys xs ≡ false
lt_string_asym [] [] h = refl
lt_string_asym (x ∷ xs) [] h = cc
lt_string_asym [] (y ∷ ys) h = refl
lt_string_asym (x ∷ xs) (y ∷ ys) h = ground (arith, lt_string_asym xs ys)

-- The lexicographical comparison of vectors of pairs.
abbrev lt_vector : List (ℕ × ℕ) → List (ℕ × ℕ) → Bool
lt_vector xs [] = false
lt_vector [] (y ∷ ys) = true
lt_vector ((a, b) ∷ xs) ((c, d) ∷ ys) =
    let rest = lt_vector xs ys in
    if ltb a c
    then true
    else if a == c
    then if ltb b d then true else if b == d then rest else false
    else false

lt_vector_asym : (xs ys : List (ℕ × ℕ)) → lt_vector xs ys ≡ true → lt_vector ys xs ≡ false
lt_vector_asym [] [] h = refl
lt_vector_asym (x ∷ xs) [] h = cc
lt_vector_asym [] (y ∷ ys) h = refl
lt_vector_asym ((a, b) ∷ xs) ((c, d) ∷ ys) h = ground (arith, lt_vector_asym xs ys)

abbrev nested : Nested ℕ ℕ
nested = ((97 ∷ [], ((5, 6) ∷ []) ∷ ((5, 6) ∷ (4, 7) ∷ []) ∷ []) ∷ (97 ∷ 98 ∷ [], []) ∷ [])

abbrev blank : Memory
blank i = 255

abbrev file : Ostream
file = record { written = 1 ∷ []; room = 100; out_good = true }

nested-RoundTrip_example :
    RoundTrip
      (nested_format cell cell cell lt_string lt_vector 8)
      10
      nested
      blank
      50
      file
      (3 ∷ [])
      (nested_bytes cell cell cell lt_string lt_vector 8 nested)
nested-RoundTrip_example =
    nested-RoundTrip cell cell cell lt_string lt_vector 8 {ValidT = λ n. n < 256}
      {ValidU = λ n. n < 256} cell_law cell_law cell_law lt_string_asym lt_vector_asym 10 nested
      blank 50 file (3 ∷ []) (grind arith) (inr (omega arith)) refl (omega arith)

-- A vector of pairs of a number and a string of three characters stores six cells, and returns four: the
-- length, and `sizeof` of each member, here one cell and two.
abbrev pairs_format : Format (List (ℕ × List ℕ))
pairs_format = Vector.format cell (Pair.format (Scalar.format cell) (Text.format cell 2) 3) 1

wrong_size : (pairs_format.serialize 0 ((7, 1 ∷ 2 ∷ 3 ∷ []) ∷ []) blank).1 ≡ 4
unfolding Vector.serialize Vector.size Pair.size
wrong_size = refl

all_stored :
    load 0 6 (pairs_format.serialize 0 ((7, 1 ∷ 2 ∷ 3 ∷ []) ∷ []) blank).0
    ≡ 1 ∷ 7 ∷ 3 ∷ 1 ∷ 2 ∷ 3 ∷ []
unfolding load store Vector.serialize Pair.serialize Scalar.serialize Text.serialize
all_stored = refl
