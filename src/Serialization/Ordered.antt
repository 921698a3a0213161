-- ===== src/Serialization/Ordered.antt =====
-- `insert` of `std::set` and `std::map`: a list in the order of the keys, where `lt` is the comparison. An
-- element whose key is there already is not inserted.
use gaspi_cxx.Common.{◌≡◌, List, [], ◌∷◌, ◌++◌, Bool, true, false, refl, if◌then◌else◌}

module _ {E K : Type 0} (key : E → K) (lt : K → K → Bool) where
  abbrev pub insert : E → List E → List E
  insert x [] = x ∷ []
  insert x (y ∷ ys) =
      let rest = insert x ys in
      if lt (key x) (key y) then x ∷ y ∷ ys else if lt (key y) (key x) then y ∷ rest else y ∷ ys

  abbrev pub Before : E → List E → Type 0
  Before x [] = Unit {0}
  Before x (y ∷ ys) = (lt (key x) (key y) ≡ true) × Before x ys

  -- Every element comes before all that follow it.
  abbrev pub Ascending : List E → Type 0
  Ascending [] = Unit {0}
  Ascending (x ∷ xs) = Before x xs × Ascending xs

  Before-middle :
      (y : E) (ys : List E) (x : E) (xs : List E)
      → Before y (ys ++ x ∷ xs)
      → lt (key y) (key x) ≡ true
  Before-middle y [] x xs (h, _) = h
  Before-middle y (z ∷ ys) x xs (_, h) = Before-middle y ys x xs h

  -- What is inserted last, and comes after all others, stands at the end.
  pub insert_last :
      ((a b : K) → lt a b ≡ true → lt b a ≡ false)
      → (ys : List E) (x : E) (xs : List E) → Ascending (ys ++ x ∷ xs)
      → insert x ys ≡ ys ++ x ∷ []
  insert_last asym [] x xs h = refl
  insert_last asym (y ∷ ys) x xs (b, h) =
      let less = Before-middle y ys x xs b in
      rw (asym (key y) (key x) less, less, insert_last asym ys x xs h) refl
