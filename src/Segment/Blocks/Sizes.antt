-- ===== src/Segment/Blocks/Sizes.antt =====
-- The size that the loop of `deallocate` gives back, which the notification manager does not check: that
-- of the block that starts at the address, and that was asked for when it was handed out.
use gaspi_cxx.Common.{
  ℕ, ◌+◌, ◌<◌, ◌≤◌, ◌≡◌, Bool, true, false, not, ◌&&◌, List, [], ◌∷◌, some, ok, arith, size_mod,
  sym, inl, inr, ◌==◌, if◌then◌else◌,
}
use gaspi_cxx.Segment.Blocks.{Block, carve, first_fit, release_after, release}
use gaspi_cxx.Segment.Blocks.Steps.{first_fit_step, release_after_step, release_step}
use gaspi_cxx.Segment.Blocks.Layout.{Tiled}
use gaspi_cxx.Segment.Blocks.Memory.{within, used, first_fit-Claims, release-Frees}

-- The size of the block that starts at `q`, 0 if there is none.
abbrev pub size_at : ℕ → List Block → ℕ
size_at q [] = 0
size_at q (b ∷ bs) = let rest = size_at q bs in if b.g_start == q then b.size else rest

release_after-check :
    (q : ℕ) (prev : Block) (bs : List Block) {cs : List Block}
    → release_after (λ _. true) q prev bs ≡ ok cs
    → release_after (λ k. k == size_at q bs) q prev bs ≡ ok cs
unfolding release_after
release_after-check q prev [] e = cc
release_after-check q prev (b ∷ bs) {cs} e =
    elim (release_after_step (λ _. true) q prev b bs cs e) [
      | inl (hit, _, e') ↦ ground arith
      | inr (cs', miss, e', e'') ↦ ground (arith, release_after-check q b bs e')
    ]

release-check :
    (q : ℕ) (bs : List Block) {cs : List Block}
    → release (λ _. true) q bs ≡ ok cs
    → release (λ k. k == size_at q bs) q bs ≡ ok cs
unfolding release
release-check q [] e = cc
release-check q (b ∷ bs) {cs} e = elim (release_step (λ _. true) q b bs cs e) [
  | inl (hit, _, e') ↦ ground arith
  | inr (miss, e') ↦ ground (arith, release_after-check q b bs e')
]

release_after-positive :
    (q p : ℕ) (free : Bool) (prev : Block) (bs : List Block) (stop : ℕ) {cs : List Block}
    → Tiled p free bs stop
    → release_after (λ _. true) q prev bs ≡ ok cs
    → 0 < size_at q bs
unfolding release_after
release_after-positive q p free prev [] stop t e = cc
release_after-positive q p free prev (b ∷ bs) stop {cs} t e =
    elim (release_after_step (λ _. true) q prev b bs cs e) [
      | inl (hit, _, _) ↦ ground arith
      | inr (cs', miss, e', _) ↦
          ground (arith, release_after-positive q (p + b.size) b.free b bs stop t.3 e')
    ]

pub release-positive :
    (q p : ℕ) (bs : List Block) (stop : ℕ) {cs : List Block}
    → Tiled p false bs stop
    → release (λ _. true) q bs ≡ ok cs
    → 0 < size_at q bs
unfolding release
release-positive q p [] stop t e = cc
release-positive q p (b ∷ bs) stop {cs} t e = elim (release_step (λ _. true) q b bs cs e) [
  | inl (hit, _, _) ↦ ground arith
  | inr (miss, e') ↦ ground (arith, release_after-positive q (p + b.size) b.free b bs stop t.3 e')
]

-- The addresses of that block lie in the covered range, and they are the only ones to change.
pub release-size_at :
    (q p : ℕ) (bs : List Block) (stop : ℕ) {cs : List Block}
    → stop < size_mod
    → Tiled p false bs stop
    → release (λ _. true) q bs ≡ ok cs
    → (q + size_at q bs ≤ stop)
      × ((a : ℕ) → used cs a ≡ (used bs a && not (within q (size_at q bs) a)))
release-size_at q p bs stop hm t e =
    let (s, same, _, high, change) =
      release-Frees (λ k. k == size_at q bs) q p bs stop hm t (release-check q bs e) in
    let e' : s ≡ size_at q bs = ground arith in (omega arith, λ a. rw (sym e') (change a))

-- What the loop of `allocate` hands out starts a block of the size asked for.
pub first_fit-size_at :
    (size p : ℕ) (prev : Bool) (bs : List Block) (stop : ℕ) {r : ℕ × List Block}
    → 0 < size
    → stop < size_mod
    → Tiled p prev bs stop
    → first_fit size bs ≡ some r
    → size_at r.0 r.1 ≡ size
unfolding first_fit carve
first_fit-size_at size p prev [] stop hs hm t e = cc
first_fit-size_at size p prev (b ∷ bs) stop {r} hs hm t e = elim (first_fit_step size b bs r e) [
  | inl (f, fits, e') ↦ rw e' (ground arith)
  | inr (r', _, e', e'') ↦
      let (behind, _, _, _) = first_fit-Claims size (p + b.size) b.free bs stop hs hm t.3 e' in
      rw e'' (ground (arith, first_fit-size_at size (p + b.size) b.free bs stop hs hm t.3 e'))
]
