-- ===== src/Segment/Blocks/Layout.antt =====
-- The invariant of the block lists of the memory and the notification manager: the blocks lie one
-- behind the other without a gap, none is empty, and no two neighbours are both free.
use gaspi_cxx.Common.{
  ℕ, ◌+◌, ◌≤◌, ◌<◌, ◌≡◌, refl, Bool, true, false, ◌&&◌, List, [], ◌∷◌, some, ok, arith, size_mod,
  Option-cases, Result-cases, inl, inr,
}
use gaspi_cxx.Segment.Blocks.{
  Block, carve, first_fit, merge_next, merge_prev, set_free, release_after, release,
}

-- The blocks cover the range from `p` to `stop`; `prev` says whether a free block stands before them.
abbrev pub Tiled : ℕ → Bool → List Block → ℕ → Type 0
Tiled p prev [] stop = p ≡ stop
Tiled p prev (b ∷ bs) stop =
    (b.g_start ≡ p) × (0 < b.size) × ((prev && b.free) ≡ false) × Tiled (p + b.size) b.free bs stop

pub Tiled-le : (p : ℕ) (prev : Bool) (bs : List Block) (stop : ℕ) → Tiled p prev bs stop → p ≤ stop
Tiled-le p prev [] stop t = omega arith
Tiled-le p prev (b ∷ bs) stop t = omega (arith, Tiled-le (p + b.size) b.free bs stop t.3)

-- Where no free block stands before a list, it may also follow an allocated one.
pub Tiled-after_used :
    (p : ℕ) (prev : Bool) (bs : List Block) (stop : ℕ)
    → Tiled p prev bs stop
    → Tiled p false bs stop
Tiled-after_used p prev [] stop t = t
Tiled-after_used p prev (b ∷ bs) stop t = (t.0, t.1, refl, t.3)

carve-Tiled :
    (size p : ℕ) (prev : Bool) (b : Block) (bs : List Block) (stop : ℕ)
    → 0 < size
    → size ≤ b.size
    → stop < size_mod
    → b.free ≡ true
    → Tiled p prev (b ∷ bs) stop
    → Tiled p prev (carve size b bs) stop
unfolding carve
carve-Tiled size p prev b bs stop hs hb hm hf t = ground (
  arith,
  Tiled-le (p + b.size) b.free bs stop t.3,
  Tiled-after_used (p + b.size) b.free bs stop t.3,
)

-- The loop of `allocate` keeps the layout.
pub first_fit-Tiled :
    (size p : ℕ) (prev : Bool) (bs : List Block) (stop : ℕ) {r : ℕ × List Block}
    → 0 < size
    → stop < size_mod
    → Tiled p prev bs stop
    → first_fit size bs ≡ some r
    → Tiled p prev r.1 stop
unfolding first_fit
first_fit-Tiled size p prev [] stop hs hm t e = cc
first_fit-Tiled size p prev (b ∷ bs) stop {r} hs hm t e = elim (Option-cases (first_fit size bs)) [
  | inl none_fits ↦ ground (arith, carve-Tiled size p prev b bs stop)
  | inr (r', e') ↦ ground (
    arith,
    carve-Tiled size p prev b bs stop,
    first_fit-Tiled size (p + b.size) b.free bs stop hs hm t.3 e',
  )
]

merge_next-Tiled :
    (p : ℕ) (b : Block) (bs : List Block) (stop : ℕ)
    → stop < size_mod
    → Tiled p false (b ∷ bs) stop
    → let (merged, rest) = merge_next (set_free b) bs in
      Tiled p false (merged ∷ rest) stop × (merged.free ≡ true)
unfolding merge_next set_free
merge_next-Tiled p b [] stop hm t = ground arith
merge_next-Tiled p b (n ∷ bs) stop hm t =
    ground (arith, Tiled-le (p + b.size + n.size) n.free bs stop t.3.3)

merge_prev-Tiled :
    (p : ℕ) (prev : Bool) (b n : Block) (bs : List Block) (stop : ℕ)
    → stop < size_mod
    → b.g_start ≡ p
    → 0 < b.size
    → (prev && b.free) ≡ false
    → n.free ≡ true
    → Tiled (p + b.size) false (n ∷ bs) stop
    → Tiled p prev (merge_prev b n bs) stop
unfolding merge_prev
merge_prev-Tiled p prev b n bs stop hm h0 h1 h2 hf t =
    ground (arith, Tiled-le (p + b.size + n.size) n.free bs stop t.3)

release_after-Tiled :
    (fits : ℕ → Bool) (q p : ℕ) (prev : Bool) (b : Block) (bs : List Block) (stop : ℕ)
    {cs : List Block}
    → stop < size_mod
    → Tiled p prev (b ∷ bs) stop
    → release_after fits q b bs ≡ ok cs
    → Tiled p prev cs stop
unfolding release_after
release_after-Tiled fits q p prev b [] stop hm t e = cc
release_after-Tiled fits q p prev b (n ∷ bs) stop hm t e =
    elim (Result-cases (release_after fits q n bs)) [
      | inl (_, e') ↦ ground (
        arith,
        merge_next-Tiled (p + b.size) n bs stop,
        merge_prev-Tiled p prev b (merge_next (set_free n) bs).0 (merge_next (set_free n) bs).1
            stop,
        Tiled-after_used (p + b.size) b.free (n ∷ bs) stop t.3,
      )
      | inr (cs', e') ↦ ground (
        arith,
        merge_next-Tiled (p + b.size) n bs stop,
        merge_prev-Tiled p prev b (merge_next (set_free n) bs).0 (merge_next (set_free n) bs).1
            stop,
        Tiled-after_used (p + b.size) b.free (n ∷ bs) stop t.3,
        release_after-Tiled fits q (p + b.size) b.free n bs stop hm t.3 e',
      )
    ]

-- The loop of `deallocate` keeps the layout.
pub release-Tiled :
    (fits : ℕ → Bool) (q p : ℕ) (bs : List Block) (stop : ℕ) {cs : List Block}
    → stop < size_mod
    → Tiled p false bs stop
    → release fits q bs ≡ ok cs
    → Tiled p false cs stop
unfolding release
release-Tiled fits q p [] stop hm t e = cc
release-Tiled fits q p (b ∷ bs) stop {cs} hm t e = ground (
  arith,
  merge_next-Tiled p b bs stop,
  release_after-Tiled fits q p false b bs stop {cs = cs} hm t,
)
