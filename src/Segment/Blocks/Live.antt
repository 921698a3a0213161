-- ===== src/Segment/Blocks/Live.antt =====
-- Allocated blocks: `allocate` makes one, `deallocate` of one succeeds, and neither call touches any
-- other.
use gaspi_cxx.Common.{
  ℕ, ◌+◌, ◌<◌, ◌≤◌, ◌≡◌, ◌≢◌, Bool, true, false, List, [], ◌∷◌, some, ok, arith, inl, inr, ◌⊎◌,
}
use gaspi_cxx.Segment.Blocks.{
  Block, carve, first_fit, merge_next, merge_prev, set_free, release_after, release,
}
use gaspi_cxx.Segment.Blocks.Layout.{Tiled, Tiled-le}
use gaspi_cxx.Segment.Blocks.Steps.{first_fit_step, release_after_step, release_step}

-- The list has an allocated block of `s` bytes at `p`.
abbrev pub Live : ℕ → ℕ → List Block → Type 0
Live p s [] = ⊥
Live p s (b ∷ bs) = ((b.g_start ≡ p) × (b.size ≡ s) × (b.free ≡ false)) ⊎ Live p s bs

pub Live-bounds :
    (q s p : ℕ) (prev : Bool) (bs : List Block) (stop : ℕ)
    → Tiled p prev bs stop
    → Live q s bs
    → (p ≤ q) × (0 < s) × (q + s ≤ stop)
Live-bounds q s p prev [] stop t l = absurd l
Live-bounds q s p prev (b ∷ bs) stop t (inl l) =
    omega (arith, Tiled-le (p + b.size) b.free bs stop t.3)
Live-bounds q s p prev (b ∷ bs) stop t (inr l) =
    omega (arith, Live-bounds q s (p + b.size) b.free bs stop t.3 l)

pub first_fit-Live :
    (size : ℕ) (bs : List Block) {r : ℕ × List Block}
    → first_fit size bs ≡ some r
    → Live r.0 size r.1
unfolding first_fit
first_fit-Live size [] e = cc
first_fit-Live size (b ∷ bs) {r} e = elim (first_fit_step size b bs r e) [
  | inl (f, fits, e') ↦ rw e' (unfold carve in ground arith)
  | inr (r', _, e', e'') ↦ rw e'' (inr (first_fit-Live size bs e'))
]

pub first_fit-Live_other :
    (size p s : ℕ) (bs : List Block) {r : ℕ × List Block}
    → first_fit size bs ≡ some r
    → Live p s bs
    → Live p s r.1
first_fit-Live_other size p s [] e l = absurd l
first_fit-Live_other size p s (b ∷ bs) {r} e l = elim (first_fit_step size b bs r e) [
  | inl (f, fits, e') ↦ rw e' (unfold carve in ground arith)
  | inr (r', _, e', e'') ↦
      rw e'' (elim l [
        | inl here ↦ inl here
        | inr there ↦ inr (first_fit-Live_other size p s bs e' there)
      ])
]

release_after-Live :
    (fits : ℕ → Bool) (q s p : ℕ) (prev : Block) (prev_free : Bool) (bs : List Block) (stop : ℕ)
    → fits s ≡ true
    → Tiled p prev_free bs stop
    → Live q s bs
    → (cs : List Block) × (release_after fits q prev bs ≡ ok cs)
unfolding release_after
release_after-Live fits q s p prev prev_free [] stop hf t l = absurd l
release_after-Live fits q s p prev prev_free (b ∷ bs) stop hf t (inl l) =
    (merge_prev prev (merge_next (set_free b) bs).0 (merge_next (set_free b) bs).1, ground arith)
release_after-Live fits q s p prev prev_free (b ∷ bs) stop hf t (inr l) =
    let (cs, e) = release_after-Live fits q s (p + b.size) b b.free bs stop hf t.3 l in
    (prev ∷ cs, ground (arith, Live-bounds q s (p + b.size) b.free bs stop t.3 l))

-- A block that is allocated can be released.
pub release-Live :
    (fits : ℕ → Bool) (q s p : ℕ) (prev : Bool) (bs : List Block) (stop : ℕ)
    → fits s ≡ true
    → Tiled p prev bs stop
    → Live q s bs
    → (cs : List Block) × (release fits q bs ≡ ok cs)
release-Live fits q s p prev [] stop hf t l = absurd l
release-Live fits q s p prev (b ∷ bs) stop hf t (inl l) = (
  (merge_next (set_free b) bs).0 ∷ (merge_next (set_free b) bs).1,
  unfold release in ground arith,
)
release-Live fits q s p prev (b ∷ bs) stop hf t (inr l) =
    let (cs, e) = release_after-Live fits q s (p + b.size) b b.free bs stop hf t.3 l in
    (cs, unfold release in ground (arith, Live-bounds q s (p + b.size) b.free bs stop t.3 l))

merge_next-Live :
    (p s : ℕ) (b : Block) (bs : List Block)
    → Live p s bs
    → let (merged, rest) = merge_next (set_free b) bs in Live p s rest
unfolding merge_next set_free
merge_next-Live p s b [] l = absurd l
merge_next-Live p s b (n ∷ bs) l = ground arith

merge_prev-Live :
    (p s : ℕ) (prev b : Block) (bs : List Block)
    → Live p s (prev ∷ bs)
    → Live p s (merge_prev prev b bs)
unfolding merge_prev
merge_prev-Live p s prev b bs l = ground arith

release_after-Live_other :
    (fits : ℕ → Bool) (q p s : ℕ) (b : Block) (bs : List Block) {cs : List Block}
    → p ≢ q
    → release_after fits q b bs ≡ ok cs
    → Live p s (b ∷ bs)
    → Live p s cs
unfolding release_after
release_after-Live_other fits q p s b [] ne e l = cc
release_after-Live_other fits q p s b (n ∷ bs) {cs} ne e l =
    elim (release_after_step fits q b n bs cs e) [
      | inl (hit, fit, e') ↦ rw e' (
          merge_prev-Live p s b (merge_next (set_free n) bs).0 (merge_next (set_free n) bs).1
            (elim l [
              | inl here ↦ inl here
              | inr (inl there) ↦ absurd (omega arith)
              | inr (inr there) ↦ inr (merge_next-Live p s n bs there)
            ]))
      | inr (cs', miss, e', e'') ↦ rw e'' (elim l [
        | inl here ↦ inl here
        | inr there ↦ inr (release_after-Live_other fits q p s n bs ne e' there)
      ])
    ]

pub release-Live_other :
    (fits : ℕ → Bool) (q p s : ℕ) (bs : List Block) {cs : List Block}
    → p ≢ q
    → release fits q bs ≡ ok cs
    → Live p s bs
    → Live p s cs
release-Live_other fits q p s [] ne e l = absurd l
release-Live_other fits q p s (b ∷ bs) {cs} ne e l = elim (release_step fits q b bs cs e) [
  | inl (hit, fit, e') ↦ rw e' (elim l [
    | inl here ↦ absurd (omega arith)
    | inr there ↦ inr (merge_next-Live p s b bs there)
  ])
  | inr (_, e') ↦ release_after-Live_other fits q p s b bs ne e' l
]
