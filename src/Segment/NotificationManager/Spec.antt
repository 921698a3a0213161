-- ===== src/Segment/NotificationManager/Spec.antt =====
-- What the notification manager promises, over the ids of its range.
use gaspi_cxx.Common.{
  ℕ, ◌+◌, ◌<◌, ◌≤◌, ◌≡◌, Bool, true, false, not, ◌&&◌, ◌||◌, some, ok, arith, size_mod,
  Result-cases, inl, inr, refl, subst,
}
use gaspi_cxx.Segment.Blocks.{first_fit, release}
use gaspi_cxx.Segment.Blocks.Layout.{Tiled, first_fit-Tiled, release-Tiled}
use gaspi_cxx.Segment.Blocks.Memory.{within, used, first_fit-Claims}
use gaspi_cxx.Segment.Blocks.Sizes.{size_at, first_fit-size_at, release-size_at, release-positive}
use gaspi_cxx.Segment.Blocks.RoundTrip.{release-first_fit}
use gaspi_cxx.Segment.Blocks.Complete.{can_fit-first_fit, can_fit_of_free}
use gaspi_cxx.Segment.NotificationManager.{NotificationManager, construct, allocate, deallocate}

-- A manager of the ids below `count`.
pub record IsValid (count : ℕ) (m : NotificationManager) : Type 0 where
  pub not_empty : 0 < count
  pub no_wrap : count < size_mod
  pub tiled : Tiled 0 false m.blocks count

-- Notification id `a` is handed out.
abbrev pub acquired : NotificationManager → ℕ → Bool
acquired m a = used m.blocks a

pub construct-IsValid : (count : ℕ) → 0 < count → count < size_mod → IsValid count (construct count)
unfolding construct
construct-IsValid count h hm = ground arith

pub first_fit_of_allocate :
    (m m' : NotificationManager) (size p : ℕ)
    → allocate m size ≡ ok (p, m')
    → (0 < size) × (first_fit size m.blocks ≡ some (p, m'.blocks))
unfolding allocate
first_fit_of_allocate m m' size p e = (ground arith, ground arith)

pub release_of_deallocate :
    (m m' : NotificationManager) (p : ℕ)
    → deallocate m p ≡ ok m'
    → release (λ _. true) p m.blocks ≡ ok m'.blocks
unfolding deallocate
release_of_deallocate m m' p e = elim (Result-cases (release (λ _. true) p m.blocks)) [
  | inl (_, e') ↦ ground arith
  | inr (_, e') ↦ ground arith
]

-- On a valid manager of the ids below `count`, an `allocate` of `size` ids that returns `p` keeps the
-- manager valid; `size` is not 0, the ids [p, p + size) lie below `count`, none of them was handed out
-- before, and they are the only ids to become handed out; and a block of `size` ids starts at `p`.
pub allocate_ids :
    (count size p : ℕ) (m m' : NotificationManager)
    → IsValid count m
    → allocate m size ≡ ok (p, m')
    → IsValid count m'
      × (0 < size)
      × (p + size ≤ count)
      × ((a : ℕ) → (within p size a && acquired m a) ≡ false)
      × ((a : ℕ) → acquired m' a ≡ (within p size a || acquired m a))
      × (size_at p m'.blocks ≡ size)
allocate_ids count size p m m' v e =
    let (hs, e') = first_fit_of_allocate m m' size p e in
    let (_, high, fresh, change) =
      first_fit-Claims size 0 false m.blocks count hs v.no_wrap v.tiled e' in
    (
      record {
        not_empty = v.not_empty;
        no_wrap = v.no_wrap;
        tiled = first_fit-Tiled size 0 false m.blocks count hs v.no_wrap v.tiled e';
      },
      hs,
      high,
      λ a. ground (arith, fresh a),
      change,
      first_fit-size_at size 0 false m.blocks count hs v.no_wrap v.tiled e',
    )

-- On a valid manager of the ids below `count`, a `deallocate` at `p` that does not throw finds a block of
-- ids that starts at `p`, keeps the manager valid, and takes back all the ids of this block and no others.
pub deallocate_ids :
    (count p : ℕ) (m m' : NotificationManager)
    → IsValid count m
    → deallocate m p ≡ ok m'
    → IsValid count m'
      × (0 < size_at p m.blocks)
      × (p + size_at p m.blocks ≤ count)
      × ((a : ℕ) → acquired m' a ≡ (acquired m a && not (within p (size_at p m.blocks) a)))
deallocate_ids count p m m' v e =
    let e' = release_of_deallocate m m' p e in
    let (high, change) = release-size_at p 0 m.blocks count v.no_wrap v.tiled e' in
    (
      record {
        not_empty = v.not_empty;
        no_wrap = v.no_wrap;
        tiled = release-Tiled (λ _. true) p 0 m.blocks count v.no_wrap v.tiled e';
      },
      release-positive p 0 m.blocks count v.tiled e',
      high,
      change,
    )

-- On a valid manager, giving back the ids that `allocate` just returned succeeds and restores the
-- manager as it was.
pub deallocate-allocate_ids :
    (count size p : ℕ) (m m' : NotificationManager)
    → IsValid count m
    → allocate m size ≡ ok (p, m')
    → deallocate m' p ≡ ok m
deallocate-allocate_ids count size p m m' v e =
    let (hs, e') = first_fit_of_allocate m m' size p e in
    unfold deallocate in
    ground (arith, release-first_fit (λ _. true) size 0 m.blocks count refl hs v.no_wrap v.tiled e')

-- While an id below `count` is free, asking for one id succeeds.
pub allocate_one :
    (count a : ℕ) (m : NotificationManager)
    → IsValid count m
    → a < count
    → acquired m a ≡ false
    → (r : ℕ × NotificationManager) × (allocate m 1 ≡ ok r)
allocate_one count a m v h free =
    let (r, e) = can_fit-first_fit 1 m.blocks (
      can_fit_of_free 1 a 0 false m.blocks count (omega arith) v.tiled (omega arith) (omega arith)
        (λ b w. let e : a ≡ b = ground arith in subst (λ k. used m.blocks k ≡ false) e free)) in
    ((r.0, record { blocks = r.1 }), unfold allocate in ground arith)
