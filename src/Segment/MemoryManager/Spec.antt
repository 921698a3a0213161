-- ===== src/Segment/MemoryManager/Spec.antt =====
-- What the memory manager promises, over the addresses of its range.
use gaspi_cxx.Common.{
  ℕ, ◌+◌, ◌<◌, ◌≤◌, ◌≡◌, ◌↔◌, refl, Bool, true, false, not, ◌&&◌, ◌||◌, List, [], ◌∷◌, some, ok,
  err, bad_alloc, arith, size_mod, Bool-cases, Result-cases, inl, inr, if◌then◌else◌, ◌==◌, ◌∙◌, ap,
  eq→==, ==→eq,
}
use gaspi_cxx.Segment.Blocks.{Block, first_fit, release, can_fit}
use gaspi_cxx.Segment.Blocks.Layout.{Tiled, first_fit-Tiled, release-Tiled}
use gaspi_cxx.Segment.Blocks.Memory.{within, used, first_fit-Claims, release-Frees}
use gaspi_cxx.Segment.Blocks.RoundTrip.{release-first_fit}
use gaspi_cxx.Segment.Blocks.Complete.{
  can_fit-first_fit, first_fit-can_fit, can_fit_of_free, can_fit_one, all_free,
}
use gaspi_cxx.Segment.MemoryManager.{
  MemoryManager, construct, in_use, allocate, can_allocate, deallocate,
}

-- A manager of the `size` bytes from `base` on, which is not NULL, and the range does not wrap.
pub record IsValid (base size : ℕ) (m : MemoryManager) : Type 0 where
  pub not_null : 0 < base
  pub not_empty : 0 < size
  pub no_wrap : base + size < size_mod
  pub tiled : Tiled base false m.blocks (base + size)

-- Address `a` is handed out.
abbrev pub in_allocation : MemoryManager → ℕ → Bool
in_allocation m a = used m.blocks a

pub construct-IsValid :
    (base size : ℕ)
    → 0 < base
    → 0 < size
    → base + size < size_mod
    → IsValid base size (construct base size)
unfolding construct
construct-IsValid base size hb hs hm = ground arith

pub first_fit_of_allocate :
    (m m' : MemoryManager) (size p : ℕ)
    → 0 < size
    → allocate m size ≡ ok (p, m')
    → first_fit size m.blocks ≡ some (p, m'.blocks)
unfolding allocate
first_fit_of_allocate m m' size p hs e = ground arith

pub allocate-IsValid :
    (base total size p : ℕ) (m m' : MemoryManager)
    → IsValid base total m
    → allocate m size ≡ ok (p, m')
    → IsValid base total m'
allocate-IsValid base total size p m m' v e = elim (Bool-cases (size == 0)) [
  | inl zero_size ↦ unfold allocate in ground arith
  | inr not_zero ↦ record {
    not_null = v.not_null;
    not_empty = v.not_empty;
    no_wrap = v.no_wrap;
    tiled =
        first_fit-Tiled size base false m.blocks (base + total) (ground arith) v.no_wrap v.tiled
          (first_fit_of_allocate m m' size p (ground arith) e);
  }
]

pub release_of_deallocate :
    (m m' : MemoryManager) (p s : ℕ)
    → 0 < p
    → deallocate m p s ≡ ok m'
    → release (λ size. size == s) p m.blocks ≡ ok m'.blocks
unfolding deallocate
release_of_deallocate m m' p s hp e = elim (Result-cases (release (λ size. size == s) p m.blocks)) [
  | inl (_, e') ↦ ground arith
  | inr (_, e') ↦ ground arith
]

pub deallocate-IsValid :
    (base total p s : ℕ) (m m' : MemoryManager)
    → IsValid base total m
    → deallocate m p s ≡ ok m'
    → IsValid base total m'
deallocate-IsValid base total p s m m' v e = elim (Bool-cases (p == 0)) [
  | inl null ↦ unfold deallocate in ground arith
  | inr not_zero ↦ record {
    not_null = v.not_null;
    not_empty = v.not_empty;
    no_wrap = v.no_wrap;
    tiled =
        release-Tiled (λ size. size == s) p base m.blocks (base + total) v.no_wrap v.tiled
          (release_of_deallocate m m' p s (ground arith) e);
  }
]

-- On a valid manager of [base, base + total), an `allocate` of `size` > 0 bytes that returns `p`
-- keeps the manager valid; [p, p + size) lies in the manager's range, none of its addresses was
-- handed out before, and they are the only addresses to become handed out.
pub allocate_lem :
    (base total size p : ℕ) (m m' : MemoryManager)
    → IsValid base total m
    → 0 < size
    → allocate m size ≡ ok (p, m')
    → IsValid base total m'
      × (base ≤ p)
      × (p + size ≤ base + total)
      × ((a : ℕ) → (within p size a && in_allocation m a) ≡ false)
      × ((a : ℕ) → in_allocation m' a ≡ (within p size a || in_allocation m a))
allocate_lem base total size p m m' v hs e =
    let (low, high, fresh, change) =
      first_fit-Claims size base false m.blocks (base + total) hs v.no_wrap v.tiled
        (first_fit_of_allocate m m' size p hs e) in
    (allocate-IsValid base total size p m m' v e, low, high, λ a. ground (arith, fresh a), change)

-- On a valid manager, a `deallocate` of `s` bytes at a non-NULL `p` that does not throw keeps the
-- manager valid, and takes back the addresses of [p, p + s) and no others.
pub deallocate_lem :
    (base total p s : ℕ) (m m' : MemoryManager)
    → IsValid base total m
    → 0 < p
    → deallocate m p s ≡ ok m'
    → IsValid base total m'
      × ((a : ℕ) → in_allocation m' a ≡ (in_allocation m a && not (within p s a)))
deallocate_lem base total p s m m' v hp e =
    let (n, fit, _, _, change) =
      release-Frees (λ size. size == s) p base m.blocks (base + total) v.no_wrap v.tiled
        (release_of_deallocate m m' p s hp e) in
    (
      deallocate-IsValid base total p s m m' v e,
      λ a. change a ∙ ap (λ k. in_allocation m a && not (within p k a)) (==→eq n s fit),
    )

-- On a valid manager, giving back the bytes that `allocate` just returned succeeds and restores the
-- manager as it was, blocks and all, also for a request of 0 bytes.
pub deallocate-allocate :
    (base total size p : ℕ) (m m' : MemoryManager)
    → IsValid base total m
    → allocate m size ≡ ok (p, m')
    → deallocate m' p size ≡ ok m
deallocate-allocate base total size p m m' v e = elim (Bool-cases (size == 0)) [
  | inl zero_size ↦ unfold allocate deallocate in ground arith
  | inr not_zero ↦
      unfold deallocate in
      ground (
        arith,
        first_fit-Claims size base false m.blocks (base + total) (ground arith) v.no_wrap v.tiled
            (first_fit_of_allocate m m' size p (ground arith) e),
        release-first_fit (λ s. s == size) size base m.blocks (base + total) (eq→== size size refl)
            (ground arith) v.no_wrap v.tiled (first_fit_of_allocate m m' size p (ground arith) e),
        v.not_null,
      )
]

-- `canAllocate` returns true exactly when `allocate` of the same size does not throw.
pub can_allocate_iff :
    (m : MemoryManager) (size : ℕ)
    → (can_allocate m size ≡ true) ↔ ((r : ℕ × MemoryManager) × (allocate m size ≡ ok r))
unfolding can_allocate allocate
can_allocate_iff m size = elim (Bool-cases (can_fit size m.blocks)) [
  | inl fits ↦
      let (r, e) = can_fit-first_fit size m.blocks fits in
      (
        λ _. (if size == 0 then (0, m) else (r.0, record { blocks = r.1 }), ground arith),
        λ _. ground arith,
      )
  | inr no_fit ↦ (
    λ h. ((0, m), ground arith),
    λ (r, e). ground (arith, first_fit-can_fit size m.blocks no_fit),
  )
]

-- On a valid manager `allocate` throws only if every range of `size` consecutive addresses of the
-- manager has an address that is handed out: no request fails for want of coalescing.
pub allocate_complete :
    (base total size q : ℕ) (m : MemoryManager)
    → IsValid base total m
    → allocate m size ≡ err bad_alloc
    → base ≤ q
    → q + size ≤ base + total
    → ((a : ℕ) → within q size a ≡ true → in_allocation m a ≡ false)
    → ⊥
allocate_complete base total size q m v e low high free =
    let not_zero : 0 < size = unfold allocate in ground arith in
    let (r, e') =
      can_fit-first_fit size m.blocks (
        can_fit_of_free size q base false m.blocks (base + total) not_zero v.tiled low high free) in
    unfold allocate in ground arith

-- The destructor of a valid manager stays silent exactly when no address is handed out.
pub in_use_iff :
    (base total : ℕ) (m : MemoryManager)
    → IsValid base total m
    → (in_use m ≡ false) ↔ ((a : ℕ) → in_allocation m a ≡ false)
in_use_iff base total m v = (silent m.blocks v.tiled, quiet)
  where
    silent :
        (bs : List Block)
        → Tiled base false bs (base + total)
        → in_use (record { blocks = bs }) ≡ false
        → (a : ℕ) → used bs a ≡ false
    silent [] t h a = refl
    silent (b ∷ []) t h a = unfold in_use in ground arith
    silent (b ∷ c ∷ bs) t h a = unfold in_use in ground arith

    quiet : ((a : ℕ) → in_allocation m a ≡ false) → in_use m ≡ false
    quiet free =
        unfold in_use in
        ground (arith, all_free base m.blocks (base + total) (omega arith) v.tiled free)

-- A manager just made can serve any request up to its size.
pub can_allocate-construct : (size p n : ℕ) → size ≤ n → can_allocate (construct p n) size ≡ true
unfolding can_allocate construct
can_allocate-construct size p n h = ground (arith, can_fit_one size p n h)
