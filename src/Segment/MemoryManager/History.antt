-- ===== src/Segment/MemoryManager/History.antt =====
-- The life of a memory manager: clients allocate and give back in any order.
use gaspi_cxx.Common.{
  ℕ, ◌+◌, ◌<◌, ◌≤◌, ◌≡◌, ◌≢◌, ◌⊎◌, refl, true, false, List, [], ◌∷◌, ◌++◌, ok, arith, size_mod, inl,
  inr, if◌then◌else◌, ◌==◌, ◌-◌, eq→==, subst,
}
use gaspi_cxx.Segment.Blocks.Complete.{all_free}
use gaspi_cxx.Segment.Blocks.Live.{
  Live, Live-bounds, first_fit-Live, first_fit-Live_other, release-Live, release-Live_other,
}
use gaspi_cxx.Segment.Blocks.Memory.{within}
use gaspi_cxx.Segment.MemoryManager.{MemoryManager, construct, allocate, deallocate}
use gaspi_cxx.Segment.MemoryManager.Spec.{
  IsValid, in_allocation, construct-IsValid, first_fit_of_allocate, release_of_deallocate,
  allocate_lem, deallocate_lem,
}

-- One call, with the buffers that clients hold, each as its address and its size. A buffer is given back
-- with the size that it was asked for with.
pub data Call (m : MemoryManager) : List (ℕ × ℕ) → MemoryManager → List (ℕ × ℕ) → Type 0 where
  acquires :
      {held : List (ℕ × ℕ)} {m' : MemoryManager} (size p : ℕ)
      → 0 < size
      → allocate m size ≡ ok (p, m')
      → Call m held m' ((p, size) ∷ held)
  gives_back :
      {m' : MemoryManager} (p size : ℕ) (xs ys : List (ℕ × ℕ))
      → deallocate m p size ≡ ok m'
      → Call m (xs ++ ((p, size) ∷ ys)) m' (xs ++ ys)

-- What a manager made for the `size` bytes from `base` on can come to.
pub data History (base size : ℕ) : MemoryManager → List (ℕ × ℕ) → Type 0 where
  created : History base size (construct base size) []
  called :
      {m m' : MemoryManager} {held held' : List (ℕ × ℕ)}
      → History base size m held
      → Call m held m' held'
      → History base size m' held'

-- How many of the buffers have address `a`.
pub owners : List (ℕ × ℕ) → ℕ → ℕ
owners [] a = 0
owners ((p, s) ∷ held) a = if within p s a then owners held a + 1 else owners held a

abbrev pub Holds : ℕ → ℕ → List (ℕ × ℕ) → Type 0
Holds p s [] = ⊥
Holds p s ((q, t) ∷ held) = ((q ≡ p) × (t ≡ s)) ⊎ Holds p s held

owners-append :
    (xs ys : List (ℕ × ℕ)) (p s a : ℕ)
    → owners (xs ++ ((p, s) ∷ ys)) a
      ≡ (if within p s a then owners (xs ++ ys) a + 1 else owners (xs ++ ys) a)
unfolding owners
owners-append [] ys p s a = refl
owners-append ((q, t) ∷ xs) ys p s a = ground (arith, owners-append xs ys p s a)

owners_positive : (held : List (ℕ × ℕ)) (p s : ℕ) → 0 < s → Holds p s held → 0 < owners held p
unfolding owners
owners_positive [] p s hs h = absurd h
owners_positive ((q, t) ∷ held) p s hs (inl h) = ground arith
owners_positive ((q, t) ∷ held) p s hs (inr h) = ground (arith, owners_positive held p s hs h)

Holds-append :
    (xs ys : List (ℕ × ℕ)) (p s q t : ℕ) → Holds q t (xs ++ ys) → Holds q t (xs ++ ((p, s) ∷ ys))
Holds-append [] ys p s q t h = inr h
Holds-append ((x, y) ∷ xs) ys p s q t (inl h) = inl h
Holds-append ((x, y) ∷ xs) ys p s q t (inr h) = inr (Holds-append xs ys p s q t h)

Holds-middle : (xs ys : List (ℕ × ℕ)) (p s : ℕ) → Holds p s (xs ++ ((p, s) ∷ ys))
Holds-middle [] ys p s = inl (refl, refl)
Holds-middle ((x, y) ∷ xs) ys p s = inr (Holds-middle xs ys p s)

pub record Inv (base total : ℕ) (m : MemoryManager) (held : List (ℕ × ℕ)) : Type 0 where
  pub valid : IsValid base total m
  pub owned : (a : ℕ) → owners held a ≡ (if in_allocation m a then 1 else 0)
  pub live : (p s : ℕ) → Holds p s held → Live p s m.blocks

construct-owned :
    (base total : ℕ) (a : ℕ)
    → owners [] a ≡ (if in_allocation (construct base total) a then 1 else 0)
unfolding owners construct
construct-owned base total a = refl

acquires-Inv :
    (base total size p : ℕ) (m m' : MemoryManager) (held : List (ℕ × ℕ))
    → 0 < size
    → allocate m size ≡ ok (p, m')
    → Inv base total m held
    → Inv base total m' ((p, size) ∷ held)
unfolding owners
acquires-Inv base total size p m m' held hs e i =
    let (valid, low, high, fresh, change) = allocate_lem base total size p m m' i.valid hs e in
    let e' = first_fit_of_allocate m m' size p hs e in
    record {
      valid = valid;
      owned = λ a. ground (arith, fresh a, change a, i.owned a);
      live = λ q t h. elim h [
        | inl (eq, eq') ↦
            subst (λ x. Live x t m'.blocks) eq
              (subst (λ y. Live p y m'.blocks) eq' (first_fit-Live size m.blocks e'))
        | inr there ↦ first_fit-Live_other size q t m.blocks e' (i.live q t there)
      ];
    }

gives_back-Inv :
    (base total p size : ℕ) (m m' : MemoryManager) (xs ys : List (ℕ × ℕ))
    → deallocate m p size ≡ ok m'
    → Inv base total m (xs ++ ((p, size) ∷ ys))
    → Inv base total m' (xs ++ ys)
gives_back-Inv base total p size m m' xs ys e i =
    let (low, hs, high) =
      Live-bounds p size base false m.blocks (base + total) i.valid.tiled
        (i.live p size (Holds-middle xs ys p size)) in
    let not_null : 0 < p = omega (arith, i.valid.not_null) in
    let (valid, change) = deallocate_lem base total p size m m' i.valid not_null e in
    let owned : (a : ℕ) → owners (xs ++ ys) a ≡ (if in_allocation m' a then 1 else 0) =
      λ a. ground (arith, change a, i.owned a, owners-append xs ys p size a) in
    record {
      valid = valid;
      owned = owned;
      live = λ q t h.
          let l = i.live q t (Holds-append xs ys p size q t h) in
          let (_, ht, _) = Live-bounds q t base false m.blocks (base + total) i.valid.tiled l in
          let other : q ≢ p = λ eq.
            let some_owner =
              subst (λ k. 0 < owners (xs ++ ys) k) eq (owners_positive (xs ++ ys) q t ht h) in
            ground (arith, owned p, change p) in
          release-Live_other (λ k. k == size) p q t m.blocks other
            (release_of_deallocate m m' p size not_null e) l;
    }

pub History-Inv :
    (base total : ℕ) {m : MemoryManager} {held : List (ℕ × ℕ)}
    → 0 < base
    → 0 < total
    → base + total < size_mod
    → History base total m held
    → Inv base total m held
History-Inv base total hb ht hm created = record {
  valid = construct-IsValid base total hb ht hm;
  owned = construct-owned base total;
  live = λ p s h. absurd h;
}
History-Inv base total hb ht hm (called {m = m} {m' = m'} {held = held} h (acquires size p hs e)) =
    acquires-Inv base total size p m m' held hs e (History-Inv base total hb ht hm h)
History-Inv base total hb ht hm (called {m = m} {m' = m'} h (gives_back p size xs ys e)) =
    gives_back-Inv base total p size m m' xs ys e (History-Inv base total hb ht hm h)

-- For a manager made for the `total` > 0 bytes from a non-NULL `base` on, a range that does not wrap, after
-- any calls in which a buffer is given back with its own size: every buffer that clients hold lies in the
-- manager's range, giving it back succeeds, and no address belongs to two of the buffers.
pub held_buffers :
    (base total : ℕ) (m : MemoryManager) (held : List (ℕ × ℕ))
    → 0 < base
    → 0 < total
    → base + total < size_mod
    → History base total m held
    → ((p s : ℕ)
        → Holds p s held
        → (base ≤ p) × (p + s ≤ base + total) × ((m' : MemoryManager) × (deallocate m p s ≡ ok m')))
      × ((a : ℕ) → owners held a ≤ 1)
held_buffers base total m held hb ht hm h =
    let i = History-Inv base total hb ht hm h in
    (
      λ p s mem.
          let l = i.live p s mem in
          let (low, hs, high) =
            Live-bounds p s base false m.blocks (base + total) i.valid.tiled l in
          let (cs, e) =
            release-Live (λ k. k == s) p s base false m.blocks (base + total) (eq→== s s refl)
              i.valid.tiled l in
          (low, high, (record { blocks = cs }, unfold deallocate in ground (arith, hb))),
      λ a. ground (arith, i.owned a),
    )

-- For a manager made for the `total` > 0 bytes from a non-NULL `base` on, a range that does not wrap, after
-- any calls in which a buffer is given back with its own size: when the clients have given everything
-- back, the manager is as it was made, one free block.
pub all_given_back :
    (base total : ℕ) (m : MemoryManager)
    → 0 < base
    → 0 < total
    → base + total < size_mod
    → History base total m []
    → m ≡ construct base total
unfolding construct
all_given_back base total m hb ht hm h =
    let i = History-Inv base total hb ht hm h in
    let one : m.blocks ≡ record { g_start = base; size = base + total - base; free = true } ∷ [] =
      all_free base m.blocks (base + total) (omega arith) i.valid.tiled
        (λ a. unfold owners in ground (arith, i.owned a)) in
    let whole : base + total - base ≡ total = omega arith in ground (arith, one, whole)
