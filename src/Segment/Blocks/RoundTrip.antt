-- ===== src/Segment/Blocks/RoundTrip.antt =====
-- Releasing what was just handed out gives back the very same block list.
use gaspi_cxx.Common.{
  ℕ, ◌+◌, ◌<◌, ◌≤◌, ◌≡◌, refl, Bool, true, false, List, [], ◌∷◌, some, ok, arith, size_mod, inl,
  inr,
}
use gaspi_cxx.Segment.Blocks.{Block, carve, first_fit, release_after, release}
use gaspi_cxx.Segment.Blocks.Layout.{Tiled, Tiled-le}
use gaspi_cxx.Segment.Blocks.Steps.{first_fit_step}
use gaspi_cxx.Segment.Blocks.Memory.{first_fit-Claims}

-- The first block of `carve`, taken back, is the block that was carved.
release-carve :
    (fits : ℕ → Bool) (size p : ℕ) (b : Block) (bs : List Block) (stop : ℕ)
    → fits size ≡ true
    → 0 < size
    → size ≤ b.size
    → stop < size_mod
    → b.free ≡ true
    → Tiled p false (b ∷ bs) stop
    → release fits b.g_start (carve size b bs) ≡ ok (b ∷ bs)
unfolding release carve
release-carve fits size p b [] stop hf hs fit hm f t = ground arith
release-carve fits size p b (n ∷ bs) stop hf hs fit hm f t =
    ground (arith, Tiled-le (p + b.size + n.size) n.free bs stop t.3.3)

release_after-carve :
    (fits : ℕ → Bool) (size p : ℕ) (prev b : Block) (bs : List Block) (stop : ℕ)
    → fits size ≡ true
    → 0 < size
    → size ≤ b.size
    → stop < size_mod
    → prev.free ≡ false
    → b.free ≡ true
    → Tiled p false (b ∷ bs) stop
    → release_after fits b.g_start prev (carve size b bs) ≡ ok (prev ∷ b ∷ bs)
unfolding release_after carve
release_after-carve fits size p prev b [] stop hf hs fit hm hp f t = ground arith
release_after-carve fits size p prev b (n ∷ bs) stop hf hs fit hm hp f t =
    ground (arith, Tiled-le (p + b.size + n.size) n.free bs stop t.3.3)

release_after-prepend :
    (fits : ℕ → Bool) (q : ℕ) (prev b : Block) (bs cs : List Block)
    → b.g_start < q
    → release_after fits q b bs ≡ ok cs
    → release_after fits q prev (b ∷ bs) ≡ ok (prev ∷ cs)
unfolding release_after
release_after-prepend fits q prev b bs cs h e = ground arith

release-prepend :
    (fits : ℕ → Bool) (q : ℕ) (b : Block) (bs cs : List Block)
    → b.g_start < q
    → release_after fits q b bs ≡ ok cs
    → release fits q (b ∷ bs) ≡ ok cs
unfolding release
release-prepend fits q b bs cs h e = ground arith

release_after-first_fit :
    (fits : ℕ → Bool) (size p : ℕ) (prev : Block) (bs : List Block) (stop : ℕ) {r : ℕ × List Block}
    → fits size ≡ true
    → 0 < size
    → stop < size_mod
    → Tiled p prev.free bs stop
    → first_fit size bs ≡ some r
    → release_after fits r.0 prev r.1 ≡ ok (prev ∷ bs)
unfolding first_fit
release_after-first_fit fits size p prev [] stop hf hs hm t e = cc
release_after-first_fit fits size p prev (b ∷ bs) stop {r} hf hs hm t e =
    elim (first_fit_step size b bs r e) [
      | inl (f, fit, e') ↦ rw e' (
          release_after-carve fits size p prev b bs stop hf hs fit hm (ground arith) f
            (t.0, t.1, refl, t.3))
      | inr (r', _, e', e'') ↦ rw e'' (
          release_after-prepend fits r'.0 prev b r'.1 (b ∷ bs)
            (omega
              (arith, (first_fit-Claims size (p + b.size) b.free bs stop hs hm t.3 e').0, t.0, t.1))
            (release_after-first_fit fits size (p + b.size) b bs stop hf hs hm t.3 e'))
    ]

-- `deallocate` of the address that `allocate` returned restores the block list.
pub release-first_fit :
    (fits : ℕ → Bool) (size p : ℕ) (bs : List Block) (stop : ℕ) {r : ℕ × List Block}
    → fits size ≡ true
    → 0 < size
    → stop < size_mod
    → Tiled p false bs stop
    → first_fit size bs ≡ some r
    → release fits r.0 r.1 ≡ ok bs
unfolding first_fit
release-first_fit fits size p [] stop hf hs hm t e = cc
release-first_fit fits size p (b ∷ bs) stop {r} hf hs hm t e = elim (first_fit_step size b bs r e) [
  | inl (f, fit, e') ↦ rw e' (release-carve fits size p b bs stop hf hs fit hm f t)
  | inr (r', _, e', e'') ↦ rw e'' (
      release-prepend fits r'.0 b r'.1 (b ∷ bs)
        (omega
          (arith, (first_fit-Claims size (p + b.size) b.free bs stop hs hm t.3 e').0, t.0, t.1))
        (release_after-first_fit fits size (p + b.size) b bs stop hf hs hm t.3 e'))
]
