-- ===== src/Segment/Blocks/Complete.antt =====
-- First fit over a coalesced list misses nothing: it fails only if no free range is long enough.
use gaspi_cxx.Common.{
  ℕ, ◌+◌, ◌<◌, ◌≤◌, ◌≡◌, refl, Bool, true, false, List, [], ◌∷◌, none, some, arith, Option-cases,
  inl, inr, ◌-◌, dec_lt,
}
use gaspi_cxx.Segment.Blocks.{Block, first_fit, can_fit}
use gaspi_cxx.Segment.Blocks.Layout.{Tiled}
use gaspi_cxx.Segment.Blocks.Memory.{within, used}

-- `canAllocate` tests exactly what the loop of `allocate` searches.
pub can_fit-first_fit :
    (size : ℕ) (bs : List Block)
    → can_fit size bs ≡ true
    → (r : ℕ × List Block) × (first_fit size bs ≡ some r)
unfolding can_fit first_fit
can_fit-first_fit size [] e = cc
can_fit-first_fit size (b ∷ bs) e = elim (Option-cases (first_fit size (b ∷ bs))) [
  | inl e' ↦ absurd (ground (arith, can_fit-first_fit size bs))
  | inr found ↦ found
]

pub first_fit-can_fit :
    (size : ℕ) (bs : List Block) → can_fit size bs ≡ false → first_fit size bs ≡ none
unfolding can_fit first_fit
first_fit-can_fit size [] e = refl
first_fit-can_fit size (b ∷ bs) e = ground (arith, first_fit-can_fit size bs)

-- The first address behind a free block is not free.
used-after_free :
    (p : ℕ) (bs : List Block) (stop : ℕ) → Tiled p true bs stop → p < stop → used bs p ≡ true
used-after_free p [] stop t h = absurd (omega arith)
used-after_free p (b ∷ bs) stop t h = ground arith

pub can_fit_of_free :
    (size q p : ℕ) (prev : Bool) (bs : List Block) (stop : ℕ)
    → 0 < size
    → Tiled p prev bs stop
    → p ≤ q
    → q + size ≤ stop
    → ((a : ℕ) → within q size a ≡ true → used bs a ≡ false)
    → can_fit size bs ≡ true
unfolding can_fit
can_fit_of_free size q p prev [] stop hs t h h' free = absurd (omega arith)
can_fit_of_free size q p prev (b ∷ bs) stop hs t h h' free = elim (dec_lt q (p + b.size)) [
  | yes inside ↦ ground (arith, free q, free (p + b.size), used-after_free (p + b.size) bs stop)
  | no beyond ↦ ground (
    arith,
    can_fit_of_free size q (p + b.size) b.free bs stop hs t.3 (omega arith) h'
        (λ a w. ground (arith, free a w)),
  )
]

-- A coalesced list with no allocated address is one free block: the state after construction.
pub all_free :
    (p : ℕ) (bs : List Block) (stop : ℕ)
    → p < stop
    → Tiled p false bs stop
    → ((a : ℕ) → used bs a ≡ false)
    → bs ≡ record { g_start = p; size = stop - p; free = true } ∷ []
all_free p [] stop h t free = absurd (omega arith)
all_free p (b ∷ []) stop h t free = ground (arith, free p)
all_free p (b ∷ n ∷ bs) stop h t free = ground (arith, free p, free (p + b.size))

pub can_fit_one :
    (size p n : ℕ)
    → size ≤ n
    → can_fit size (record { g_start = p; size = n; free = true } ∷ []) ≡ true
unfolding can_fit
can_fit_one size p n h = ground arith
