-- ===== src/Serialization/Memory.antt =====
-- Memory as `memcpy` sees it: a byte at each address. Addresses stay below 2 ^ 64.
use gaspi_cxx.Common.{
  ℕ, zero, suc, ◌+◌, ◌<◌, ◌≤◌, ◌≡◌, refl, ap, ap₂, subst, ◌∙◌, List, [], ◌∷◌, ◌++◌, arith, length,
}
use gaspi_cxx.Common.Families.{update}

abbrev pub Memory : Type 0
Memory = ℕ → ℕ

-- `memcpy` of bytes to an address, and of some bytes from an address.
unfoldable pub store : ℕ → List ℕ → Memory → Memory
store p [] m = m
store p (b ∷ bs) m = store (p + 1) bs (update m p b)

unfoldable pub load : ℕ → ℕ → Memory → List ℕ
load p zero m = []
load p (suc n) m = m p ∷ load (p + 1) n m

abbrev pub Holds : Memory → ℕ → List ℕ → Type 0
Holds m p bs = load p (length bs) m ≡ bs

pub store_below : (p : ℕ) (bs : List ℕ) (m : Memory) (j : ℕ) → j < p → store p bs m j ≡ m j
unfolding store
store_below p [] m j h = refl
store_below p (b ∷ bs) m j h = ground (arith, store_below (p + 1) bs (update m p b) j (omega arith))

pub Holds-store : (p : ℕ) (bs : List ℕ) (m : Memory) → Holds (store p bs m) p bs
unfolding store load
Holds-store p [] m = refl
Holds-store p (b ∷ bs) m =
    let first : store (p + 1) bs (update m p b) p ≡ b =
      ground (arith, store_below (p + 1) bs (update m p b) p (omega arith)) in
    ap₂ (λ x l. x ∷ l) first (Holds-store (p + 1) bs (update m p b))

-- A store behind the bytes leaves them alone, and so does one before them.
pub store_outside :
    (p : ℕ) (bs : List ℕ) (m : Memory) (j : ℕ) → p + length bs ≤ j → store p bs m j ≡ m j
unfolding store
store_outside p [] m j h = refl
store_outside p (b ∷ bs) m j h =
    ground (arith, store_outside (p + 1) bs (update m p b) j (omega arith))

pub store-append :
    (p : ℕ) (xs ys : List ℕ) (m : Memory)
    → store p (xs ++ ys) m ≡ store (p + length xs) ys (store p xs m)
unfolding store
store-append p [] ys m = ap (λ k. store k ys m) (omega arith)
store-append p (x ∷ xs) ys m =
    store-append (p + 1) xs ys (update m p x)
    ∙ ap (λ k. store k ys (store (p + 1) xs (update m p x))) (omega arith)

pub Holds-left : (m : Memory) (p : ℕ) (xs ys : List ℕ) → Holds m p (xs ++ ys) → Holds m p xs
unfolding load
Holds-left m p [] ys h = refl
Holds-left m p (x ∷ xs) ys h =
    let first : m p ≡ x = cc in
    let tail : Holds m (p + 1) (xs ++ ys) = cc in
    ap₂ (λ b l. b ∷ l) first (Holds-left m (p + 1) xs ys tail)

pub Holds-right :
    (m : Memory) (p : ℕ) (xs ys : List ℕ) → Holds m p (xs ++ ys) → Holds m (p + length xs) ys
unfolding load
Holds-right m p [] ys h = subst (λ k. Holds m k ys) (omega arith) h
Holds-right m p (x ∷ xs) ys h =
    let tail : Holds m (p + 1) (xs ++ ys) = cc in
    subst (λ k. Holds m k ys) (omega arith) (Holds-right m (p + 1) xs ys tail)
