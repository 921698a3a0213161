-- ===== src/Segment/Blocks/Memory.antt =====
-- What a block list means: which addresses are handed out. `allocate` marks exactly the range that it
-- returns, which was free; `deallocate` clears exactly the range of the block that it releases.
use gaspi_cxx.Common.{
  ℕ, ◌+◌, ◌≤◌, ◌<◌, ◌≡◌, refl, Bool, true, false, not, ◌&&◌, ◌||◌, List, [], ◌∷◌, some, ok, arith,
  size_mod, leb, ltb, inl, inr,
}
use gaspi_cxx.Segment.Blocks.{
  Block, prepend, carve, first_fit, merge_next, merge_prev, set_free, release_after, release,
}
use gaspi_cxx.Segment.Blocks.Steps.{first_fit_step, release_after_step, release_step}
use gaspi_cxx.Segment.Blocks.Layout.{Tiled, Tiled-le}

-- `a` lies in the `size` addresses from `start` on.
abbrev pub within : ℕ → ℕ → ℕ → Bool
within start size a = leb start a && ltb a (start + size)

-- Address `a` belongs to an allocated block.
abbrev pub used : List Block → ℕ → Bool
used [] a = false
used (b ∷ bs) a = (not b.free && within b.g_start b.size a) || used bs a

pub used_below :
    (p : ℕ) (prev : Bool) (bs : List Block) (stop a : ℕ)
    → Tiled p prev bs stop
    → a < p
    → used bs a ≡ false
used_below p prev [] stop a t h = refl
used_below p prev (b ∷ bs) stop a t h = ground (arith, used_below (p + b.size) b.free bs stop a t.3)

pub used_above :
    (p : ℕ) (prev : Bool) (bs : List Block) (stop a : ℕ)
    → Tiled p prev bs stop
    → stop ≤ a
    → used bs a ≡ false
used_above p prev [] stop a t h = refl
used_above p prev (b ∷ bs) stop a t h = ground (
  arith,
  used_above (p + b.size) b.free bs stop a t.3 h,
  Tiled-le (p + b.size) b.free bs stop t.3,
)

-- What the loop of `allocate` does to the addresses: `r.0` is a start in the covered range, and the
-- range returned was unused throughout and is now the only change.
abbrev pub Claims : ℕ → ℕ → ℕ → List Block → ℕ × List Block → Type 0
Claims size p stop bs r =
    (p ≤ r.0)
    × (r.0 + size ≤ stop)
    × ((a : ℕ) → within r.0 size a ≡ true → used bs a ≡ false)
    × ((a : ℕ) → used r.1 a ≡ (within r.0 size a || used bs a))

carve-used :
    (size p : ℕ) (prev : Bool) (b : Block) (bs : List Block) (stop a : ℕ)
    → 0 < size
    → size ≤ b.size
    → stop < size_mod
    → b.free ≡ true
    → Tiled p prev (b ∷ bs) stop
    → (used (carve size b bs) a ≡ (within b.g_start size a || used (b ∷ bs) a))
unfolding carve
carve-used size p prev b bs stop a hs hb hm hf t =
    ground (arith, Tiled-le (p + b.size) b.free bs stop t.3)

carve-Claims :
    (size p : ℕ) (prev : Bool) (b : Block) (bs : List Block) (stop : ℕ)
    → 0 < size
    → size ≤ b.size
    → stop < size_mod
    → b.free ≡ true
    → Tiled p prev (b ∷ bs) stop
    → Claims size p stop (b ∷ bs) (b.g_start, carve size b bs)
carve-Claims size p prev b bs stop hs hb hm hf t = (
  omega arith,
  omega (arith, Tiled-le (p + b.size) b.free bs stop t.3),
  λ a w. ground (arith, used_below (p + b.size) b.free bs stop a t.3),
  λ a. carve-used size p prev b bs stop a hs hb hm hf t,
)

prepend-Claims :
    (size p : ℕ) (prev : Bool) (b : Block) (bs : List Block) (stop : ℕ) (r : ℕ × List Block)
    → Tiled p prev (b ∷ bs) stop
    → Claims size (p + b.size) stop bs r
    → Claims size p stop (b ∷ bs) (prepend b r)
prepend-Claims size p prev b bs stop r t (low, high, fresh, change) =
    (omega arith, high, λ a w. ground (arith, fresh a w), λ a. ground (arith, change a))

pub first_fit-Claims :
    (size p : ℕ) (prev : Bool) (bs : List Block) (stop : ℕ) {r : ℕ × List Block}
    → 0 < size
    → stop < size_mod
    → Tiled p prev bs stop
    → first_fit size bs ≡ some r
    → Claims size p stop bs r
unfolding first_fit
first_fit-Claims size p prev [] stop hs hm t e = cc
first_fit-Claims size p prev (b ∷ bs) stop {r} hs hm t e = elim (first_fit_step size b bs r e) [
  | inl (f, fits, e') ↦ rw e' (carve-Claims size p prev b bs stop hs fits hm f t)
  | inr (r', _, e', e'') ↦ rw e'' (
      prepend-Claims size p prev b bs stop r' t
        (first_fit-Claims size (p + b.size) b.free bs stop hs hm t.3 e'))
]

-- What the loop of `deallocate` does: the block at `q`, in the covered range, has a size that passes
-- the check, and its addresses are the only ones to change.
abbrev pub Frees : (ℕ → Bool) → ℕ → ℕ → ℕ → List Block → List Block → Type 0
Frees fits q p stop bs cs =
    (s : ℕ) × (fits s ≡ true)
    × (p ≤ q)
    × (q + s ≤ stop)
    × ((a : ℕ) → used cs a ≡ (used bs a && not (within q s a)))

merge_next-used :
    (p : ℕ) (prev : Bool) (b : Block) (bs : List Block) (stop a : ℕ)
    → stop < size_mod
    → Tiled p prev (b ∷ bs) stop
    → let (merged, rest) = merge_next (set_free b) bs in
      used (merged ∷ rest) a ≡ (used (b ∷ bs) a && not (within b.g_start b.size a))
unfolding merge_next set_free
merge_next-used p prev b [] stop a hm t = ground arith
merge_next-used p prev b (n ∷ bs) stop a hm t = ground (
  arith,
  used_below (p + b.size + n.size) n.free bs stop a t.3.3,
  used_below (p + b.size) b.free (n ∷ bs) stop a t.3,
)

-- Merging a free block into the one before it hands out and takes back nothing.
merge_prev-used :
    (prev b : Block) (bs : List Block) (a : ℕ)
    → b.free ≡ true
    → used (merge_prev prev b bs) a ≡ used (prev ∷ b ∷ bs) a
unfolding merge_prev
merge_prev-used prev b bs a hf = ground arith

merge_next_free : (b : Block) (bs : List Block) → (merge_next (set_free b) bs).0.free ≡ true
unfolding merge_next set_free
merge_next_free b [] = refl
merge_next_free b (n ∷ bs) = ground arith

release_after-Frees :
    (fits : ℕ → Bool) (q p : ℕ) (prev : Bool) (b : Block) (bs : List Block) (stop : ℕ)
    {cs : List Block}
    → stop < size_mod
    → Tiled p prev (b ∷ bs) stop
    → release_after fits q b bs ≡ ok cs
    → Frees fits q p stop (b ∷ bs) cs
unfolding release_after
release_after-Frees fits q p prev b [] stop hm t e = cc
release_after-Frees fits q p prev b (n ∷ bs) stop {cs} hm t e =
    elim (release_after_step fits q b n bs cs e) [
      | inl (hit, fit, e') ↦ (
        n.size,
        fit,
        omega arith,
        omega (arith, Tiled-le (p + b.size + n.size) n.free bs stop t.3.3),
        λ a. rw e' (
            ground (
              arith,
              merge_prev-used b (merge_next (set_free n) bs).0 (merge_next (set_free n) bs).1 a,
              merge_next_free n bs,
              merge_next-used (p + b.size) b.free n bs stop a hm t.3,
            )),
      )
      | inr (cs', miss, e', e'') ↦
          let (s, fit, low, high, change) =
            release_after-Frees fits q (p + b.size) b.free n bs stop hm t.3 e' in
          (s, fit, omega arith, high, λ a. rw e'' (ground (arith, change a)))
    ]

pub release-Frees :
    (fits : ℕ → Bool) (q p : ℕ) (bs : List Block) (stop : ℕ) {cs : List Block}
    → stop < size_mod
    → Tiled p false bs stop
    → release fits q bs ≡ ok cs
    → Frees fits q p stop bs cs
unfolding release
release-Frees fits q p [] stop hm t e = cc
release-Frees fits q p (b ∷ bs) stop {cs} hm t e = elim (release_step fits q b bs cs e) [
  | inl (hit, fit, e') ↦ (
    b.size,
    fit,
    omega arith,
    omega (arith, Tiled-le (p + b.size) b.free bs stop t.3),
    λ a. rw e' (ground (arith, merge_next-used p false b bs stop a hm t)),
  )
  | inr (_, e') ↦ release_after-Frees fits q p false b bs stop hm t e'
]
