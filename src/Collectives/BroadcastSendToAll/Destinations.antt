-- ===== src/Collectives/BroadcastSendToAll/Destinations.antt =====
-- The ranks that the root of BroadcastSendToAll.hpp connects its source buffers to.
use gaspi_cxx.Common.{
  ℕ, zero, suc, ◌+◌, ◌<◌, ◌≤◌, ◌≡◌, ◌≢◌, refl, Bool, true, List, [], ◌∷◌, ◌++◌, ◌==◌, ok, arith,
  ◌&&◌, not, ltb, if◌then◌else◌, inl, inr, Bool-cases, ◌∙◌, ap, subst, ℕ_discrete,
}
use gaspi_cxx.Common.Families.{update}
use gaspi_cxx.Collectives.BroadcastSendToAll.{
  Cast, construct, non_root_ranks, last_first, init_transfers,
}

-- All are ranks of the group other than the root.
abbrev pub Others : ℕ → ℕ → List ℕ → Type 0
Others n root [] = Unit {0}
Others n root (d ∷ ds) = (d < n) × (d ≢ root) × Others n root ds

Others-append :
    (n root : ℕ) (xs ys : List ℕ) → Others n root xs → Others n root ys → Others n root (xs ++ ys)
Others-append n root [] ys h h' = h'
Others-append n root (x ∷ xs) ys (a, b, h) h' = (a, b, Others-append n root xs ys h h')

non_root_ranks-Others : (n root k : ℕ) → k ≤ n → Others n root (non_root_ranks root k)
unfolding non_root_ranks
non_root_ranks-Others n root zero h = tt
non_root_ranks-Others n root (suc k) h =
    let before = non_root_ranks-Others n root k (omega arith) in
    elim (Bool-cases (root == k)) [
      | inl here ↦ rw here before
      | inr other ↦ rw other (
          Others-append n root (non_root_ranks root k) (k ∷ []) before
            (omega arith, (λ e. ground (arith, e, other)), tt))
    ]

last_first-Others : (n root : ℕ) (xs : List ℕ) → Others n root xs → Others n root (last_first xs)
unfolding last_first
last_first-Others n root [] h = tt
last_first-Others n root (x ∷ xs) (a, b, h) = go (last_first xs) (last_first-Others n root xs h)
  where
    go :
        (ys : List ℕ)
        → Others n root ys
        → Others n root (elim ys [ [] ↦ x ∷ [] | z ∷ zs ↦ z ∷ x ∷ zs ])
    go [] t = (a, b, tt)
    go (z ∷ zs) (c, d, t) = (c, d, (a, b, t))

pub destinations-Others : (n root : ℕ) → Others n root (last_first (non_root_ranks root n))
destinations-Others n root =
    last_first-Others n root (non_root_ranks root n) (non_root_ranks-Others n root n (omega arith))

pub init_transfers_lem :
    (n root : ℕ) (ds : List ℕ) (posted : ℕ → Bool) (d : ℕ)
    → Others n root ds
    → ((e : ℕ) → posted e ≡ true → (e < n) × (e ≢ root))
    → init_transfers ds posted d ≡ true
    → (d < n) × (d ≢ root)
init_transfers_lem n root [] posted d o h p = h d p
init_transfers_lem n root (x ∷ xs) posted d (a, b, o) h p =
    init_transfers_lem n root xs (update posted x true) d o
      (λ e q. elim (ℕ_discrete x e) [
        | yes eq ↦ (subst (λ y. y < n) eq a, subst (λ y. y ≢ root) eq b)
        | no ne ↦ h e (ground (arith, ne, q))
      ])
      p

-- How often `d` stands in a list.
abbrev pub times : ℕ → List ℕ → ℕ
times d [] = 0
times d (x ∷ xs) = (if x == d then 1 else 0) + times d xs

times-append : (d : ℕ) (xs ys : List ℕ) → times d (xs ++ ys) ≡ times d xs + times d ys
times-append d [] ys = omega arith
times-append d (x ∷ xs) ys = omega (arith, times-append d xs ys)

times-last_first : (d : ℕ) (xs : List ℕ) → times d (last_first xs) ≡ times d xs
unfolding last_first
times-last_first d [] = refl
times-last_first d (x ∷ xs) = go (last_first xs) (times-last_first d xs)
  where
    go :
        (ys : List ℕ)
        → times d ys ≡ times d xs
        → times d (elim ys [ [] ↦ x ∷ [] | z ∷ zs ↦ z ∷ x ∷ zs ])
          ≡ (if x == d then 1 else 0) + times d xs
    go [] h = omega (arith, h)
    go (z ∷ zs) h = omega (arith, h)

times-non_root_ranks :
    (root k d : ℕ) → times d (non_root_ranks root k) ≡ (if ltb d k && not (d == root) then 1 else 0)
unfolding non_root_ranks
times-non_root_ranks root zero d = ground arith
times-non_root_ranks root (suc k) d = elim (Bool-cases (root == k)) [
  | inl here ↦ rw here (ground (arith, times-non_root_ranks root k d, here))
  | inr other ↦ rw other (
      times-append d (non_root_ranks root k) (k ∷ [])
      ∙ ground (arith, times-non_root_ranks root k d, other))
]

module _ {T : Type 0} where
  -- When the constructor makes a broadcast for a group of n ranks, the ranks that the source buffers of the
  -- root are connected to are all ranks of the group but the root, each of them once.
  pub construct_connects :
      (number_elements root n rank : ℕ) (memory : List T) (g : Cast T) (d : ℕ)
      → construct number_elements root n rank memory ≡ ok g
      → times d g.destinations ≡ (if ltb d n && not (d == root) then 1 else 0)
  unfolding construct
  construct_connects number_elements root n rank memory g d made =
      let same : g.destinations ≡ last_first (non_root_ranks root n) = ground (arith, made) in
      ap (times d) same ∙ times-last_first d (non_root_ranks root n) ∙ times-non_root_ranks root n d
