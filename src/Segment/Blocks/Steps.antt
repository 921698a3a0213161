-- ===== src/Segment/Blocks/Steps.antt =====
-- One round of the loops of `allocate` and `deallocate`: what a successful call says of its first
-- block and of the rest.
use gaspi_cxx.Common.{
  ℕ, ◌≤◌, ◌≡◌, ◌≢◌, ◌⊎◌, inl, inr, Bool, true, false, ◌&&◌, List, ◌∷◌, some, ok, arith, leb,
  Bool-cases, Option-cases, Result-cases, ℕ_discrete,
}
use gaspi_cxx.Segment.Blocks.{
  Block, carve, prepend, first_fit, merge_next, merge_prev, set_free, release_after, release,
}

pub first_fit_step :
    (size : ℕ) (b : Block) (bs : List Block) (r : ℕ × List Block)
    → first_fit size (b ∷ bs) ≡ some r
    → ((b.free ≡ true) × (size ≤ b.size) × (r ≡ (b.g_start, carve size b bs)))
      ⊎ ((r' : ℕ × List Block) × (b.free && leb size b.size ≡ false)
          × (first_fit size bs ≡ some r')
          × (r ≡ prepend b r'))
unfolding first_fit
first_fit_step size b bs r e = elim (Option-cases (first_fit size bs)) [
  | inl e' ↦ inl (ground arith, ground arith, ground arith)
  | inr (r', e') ↦ elim (Bool-cases (b.free && leb size b.size)) [
    | inl fits ↦ inl (ground arith, ground arith, ground arith)
    | inr no_fit ↦ inr (r', no_fit, e', ground arith)
  ]
]

pub release_after_step :
    (fits : ℕ → Bool) (q : ℕ) (prev b : Block) (bs cs : List Block)
    → release_after fits q prev (b ∷ bs) ≡ ok cs
    → let (merged, rest) = merge_next (set_free b) bs in
      ((b.g_start ≡ q) × (fits b.size ≡ true) × (cs ≡ merge_prev prev merged rest))
      ⊎ ((cs' : List Block) × (b.g_start ≢ q)
          × (release_after fits q b bs ≡ ok cs')
          × (cs ≡ prev ∷ cs'))
unfolding release_after
release_after_step fits q prev b bs cs e = elim (Result-cases (release_after fits q b bs)) [
  | inl (_, e') ↦ inl (ground arith, ground arith, ground arith)
  | inr (cs', e') ↦ elim (ℕ_discrete b.g_start q) [
    | yes hit ↦ inl (hit, ground arith, ground arith)
    | no miss ↦ inr (cs', miss, e', ground arith)
  ]
]

pub release_step :
    (fits : ℕ → Bool) (q : ℕ) (b : Block) (bs cs : List Block)
    → release fits q (b ∷ bs) ≡ ok cs
    → let (merged, rest) = merge_next (set_free b) bs in
      ((b.g_start ≡ q) × (fits b.size ≡ true) × (cs ≡ merged ∷ rest))
      ⊎ ((b.g_start ≢ q) × (release_after fits q b bs ≡ ok cs))
unfolding release
release_step fits q b bs cs e = ground arith
