-- ===== src/Group/Ring/Laws.antt =====
-- The ring functions without `%`: the step to the right and to the left of `n` places.
use gaspi_cxx.Common.{
  ℕ, ◌+◌, ◌-◌, ◌%◌, ◌<◌, ◌≤◌, ◌≡◌, arith, size_mod, ◌==◌, if◌then◌else◌, refl, add_size, sub_size,
  add_size-eq_of_lt, ℕ_discrete,
}
use native.Mathlib.Nat.{mod-eq_of_lt, mod-eq-sub-mod}
use gaspi_cxx.Group.Ring.{
  increment_rank_on_ring, decrement_rank_on_ring, increment_index_on_ring, decrement_index_on_ring,
  ring_index, decrement,
}

abbrev pub right : ℕ → ℕ → ℕ
right n i = if i + 1 == n then 0 else i + 1

abbrev pub left : ℕ → ℕ → ℕ
left n i = if i == 0 then n - 1 else i - 1

mod_self : (n : ℕ) → 0 < n → n % n ≡ 0
mod_self n h =
    omega (arith, mod-eq-sub-mod {n = n} {m = n} (omega arith), mod-eq_of_lt {n = 0} {m = n} h)

mod_add_self : (a n : ℕ) → a < n → (a + n) % n ≡ a
mod_add_self a n h = grind arith

pub increment_index-right :
    (i n : ℕ) → i < n → n + n ≤ size_mod → increment_index_on_ring i n ≡ right n i
unfolding increment_index_on_ring
increment_index-right i n h hm =
    rw (add_size-eq_of_lt i 1 (omega arith)) (elim (ℕ_discrete (i + 1) n) [
      | yes e ↦ ground (arith, mod_self n (omega arith))
      | no ne ↦ ground (arith, mod-eq_of_lt {n = i + 1} {m = n} (omega arith))
    ])

pub decrement_index-left :
    (i n : ℕ) → i < n → n + n ≤ size_mod → decrement_index_on_ring i n ≡ left n i
unfolding decrement_index_on_ring
decrement_index-left i n h hm = elim (ℕ_discrete i 0) [
  | yes e ↦
      let sum : add_size (sub_size i 1) n ≡ n - 1 = omega arith in
      rw sum (ground (arith, mod-eq_of_lt {n = n - 1} {m = n} (omega arith)))
  | no ne ↦
      let sum : add_size (sub_size i 1) n ≡ i - 1 + n = omega arith in
      rw sum (ground (arith, mod_add_self (i - 1) n (omega arith)))
]

-- On a ring of `n` places, with 2 n at most 2 ^ 64, the two steps from an index below `n` stay below
-- `n` and undo one another.
pub increment-decrement :
    (i n : ℕ)
    → i < n
    → n + n ≤ size_mod
    → (increment_index_on_ring i n < n)
      × (decrement_index_on_ring i n < n)
      × (decrement_index_on_ring (increment_index_on_ring i n) n ≡ i)
      × (increment_index_on_ring (decrement_index_on_ring i n) n ≡ i)
increment-decrement i n h hm = ground (
  arith,
  increment_index-right i n h hm,
  decrement_index-left i n h hm,
  decrement_index-left (right n i) n,
  increment_index-right (left n i) n,
)

pub decrement_lem :
    (i n : ℕ)
    → i < n
    → n + n ≤ size_mod
    → decrement (record { index = i; size = n }) ≡ record { index = left n i; size = n }
unfolding decrement
decrement_lem i n h hm = ground (arith, decrement_index-left i n h hm)

pub index-ring_index : (i n : ℕ) → (ring_index i n).index ≡ i % n
unfolding ring_index
index-ring_index i n = refl

pub ring_index_lem : (i n : ℕ) → i < n → ring_index i n ≡ record { index = i; size = n }
unfolding ring_index
ring_index_lem i n h = ground (arith, mod-eq_of_lt {n = i} {m = n} h)

pub increment_rank-right :
    (i n : ℕ) → i < n → n + n ≤ size_mod → increment_rank_on_ring i n ≡ right n i
unfolding increment_rank_on_ring
increment_rank-right i n h hm = increment_index-right i n h hm

pub decrement_rank-left :
    (i n : ℕ) → i < n → n + n ≤ size_mod → decrement_rank_on_ring i n ≡ left n i
unfolding decrement_rank_on_ring
decrement_rank-left i n h hm = decrement_index-left i n h hm
