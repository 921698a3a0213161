-- ===== src/Collectives/AllreduceRing/Hops.antt =====
-- Chunks on the ring of AllreduceRing.hpp: how far chunk `c` has come when it is at rank `r`, which
-- chunk a rank works on in a step, and the value that a chunk has after some hops.
use gaspi_cxx.Common.{ℕ, zero, suc, ◌+◌, ◌-◌, ◌<◌, ◌≤◌, ◌≡◌, arith, leb, ltb, ◌==◌, if◌then◌else◌}
use gaspi_cxx.Group.Ring.Laws.{right, left}

-- The hops from rank `c`, where chunk `c` starts, to rank `r`.
unfoldable pub distance : ℕ → ℕ → ℕ → ℕ
distance n c r = if leb c r then r - c else r + n - c

-- The rank that is `d` hops to the right of rank `c`.
unfoldable pub place : ℕ → ℕ → ℕ → ℕ
place n c d = if ltb (c + d) n then c + d else c + d - n

-- The chunk that rank `r` works on in step `s`.
unfoldable pub chunk_at : ℕ → ℕ → ℕ → ℕ
chunk_at n r s =
    if leb (s + 1) r
    then r - 1 - s
    else if leb (s + 1) (r + n)
    then r + n - 1 - s
    else r + n + n - 1 - s

module _ (n : ℕ) where
  pub distance-lt : (c r : ℕ) → c < n → r < n → distance n c r < n
  unfolding distance
  distance-lt c r hc hr = ground arith

  pub distance_self : (c : ℕ) → c < n → distance n c c ≡ 0
  unfolding distance
  distance_self c hc = ground arith

  pub distance-right :
      (c r : ℕ)
      → c < n
      → r < n
      → distance n c (right n r) ≡ (if distance n c r + 1 == n then 0 else distance n c r + 1)
  unfolding distance
  distance-right c r hc hr = ground arith

  pub distance_injective :
      (c c' r : ℕ) → c < n → c' < n → r < n → distance n c r ≡ distance n c' r → c ≡ c'
  unfolding distance
  distance_injective c c' r hc hc' hr e = ground arith

  pub place-distance : (c r : ℕ) → c < n → r < n → place n c (distance n c r) ≡ r
  unfolding place distance
  place-distance c r hc hr = ground arith

  pub chunk_at-lt : (r s : ℕ) → r < n → s + 2 ≤ n + n → chunk_at n r s < n
  unfolding chunk_at
  chunk_at-lt r s hr hs = ground arith

  pub distance-chunk_at :
      (r s : ℕ)
      → r < n
      → s + 2 ≤ n + n
      → distance n (chunk_at n r s) r ≡ (if ltb (s + 1) n then s + 1 else s + 1 - n)
  unfolding distance chunk_at
  distance-chunk_at r s hr hs = ground arith

  pub chunk_at-zero : (r : ℕ) → r < n → chunk_at n r 0 ≡ left n r
  unfolding chunk_at
  chunk_at-zero r hr = ground arith

  pub left-chunk_at :
      (r s : ℕ) → r < n → s + 3 ≤ n + n → left n (chunk_at n r s) ≡ chunk_at n r (s + 1)
  unfolding chunk_at
  left-chunk_at r s hr hs = ground arith

  pub right-left : (r : ℕ) → r < n → (left n r < n) × (right n (left n r) ≡ r)
  right-left r hr = ground arith

  pub left-right : (r : ℕ) → r < n → (right n r < n) × (left n (right n r) ≡ r)
  left-right r hr = ground arith

  module _ {A : Type 0} (apply_reduce_op : A → A → A) (input : ℕ → ℕ → A) where
    -- Chunk `c` after `d` hops: each rank on the way has reduced its own chunk with what came.
    unfoldable pub partial : ℕ → ℕ → A
    partial c zero = input c c
    partial c (suc d) = apply_reduce_op (input (place n c (suc d)) c) (partial c d)

    -- The chunk after it has visited every rank.
    abbrev pub total : ℕ → A
    total c = partial c (n - 1)

    pub partial-distance :
        (c r d : ℕ)
        → c < n
        → r < n
        → distance n c r ≡ suc d
        → partial c (suc d) ≡ apply_reduce_op (input r c) (partial c d)
    unfolding partial
    partial-distance c r d hc hr e = rw (← e, place-distance c r hc hr)
