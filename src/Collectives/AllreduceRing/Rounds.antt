-- ===== src/Collectives/AllreduceRing/Rounds.antt =====
-- The rounds of `triggerProgressImpl` of AllreduceRing.hpp, on a rank that satisfies its invariant.
use gaspi_cxx.Common.{
  ℕ, ◌+◌, ◌-◌, ◌/◌, ◌%◌, ◌<◌, ◌≤◌, ◌≡◌, true, false, leb, ◌==◌, arith, if◌then◌else◌, size_mod,
  dec_lt, ℕ_discrete,
}
use native.Mathlib.Nat.{mod-eq_of_lt, mod-eq-sub-mod}
use gaspi_cxx.Common.Families.{update}
use gaspi_cxx.Group.Ring.{ring_index}
use gaspi_cxx.Group.Ring.Laws.{right, decrement_lem, index-ring_index}
use gaspi_cxx.Collectives.AllreduceRing.{
  Ring, RingStage, algorithm_get_current_stage, final_round, gather_round, reduce_round,
  trigger_progress_impl,
}
use gaspi_cxx.Collectives.AllreduceRing.Hops.{chunk_at, left-chunk_at, chunk_at-lt}

-- The index whose acknowledgement a rank waits for is the one that its right neighbor acknowledges.
ack_index :
    (n r : ℕ)
    → r < n
    → 2 ≤ n
    → (chunk_at n r (n + n - 2) + 2) % n ≡ chunk_at n (right n r) (n + n - 3)
unfolding chunk_at
ack_index n r hr hn = elim (ℕ_discrete (r + 1) n) [
  | yes e ↦ elim (ℕ_discrete n 2) [
    | yes two ↦ ground (
      arith,
      mod-eq-sub-mod {n = 2} {m = n} (omega arith),
      mod-eq_of_lt {n = 0} {m = n} (omega arith),
    )
    | no more ↦ ground (arith, mod-eq_of_lt {n = 2} {m = n} (omega arith))
  ]
  | no ne ↦ elim (dec_lt (r + 3) n) [
    | yes h ↦ ground (arith, mod-eq_of_lt {n = r + 3} {m = n} h)
    | no h ↦ ground (
      arith,
      mod-eq-sub-mod {n = r + 1 + 2} {m = n} (omega arith),
      mod-eq_of_lt {n = r + 1 + 2 - n} {m = n} (omega arith),
    )
  ]
]

-- A rank of `n` in its step `s`, with what the invariant says of its constants and of its index.
abbrev pub Working : {A : Type 0} → ℕ → ℕ → Ring A → Type 0
Working n r x =
    (0 < x.number_elements)
    × (x.number_ranks ≡ n)
    × (x.steps_per_stage ≡ n - 1)
    × (x.current_index ≡ record { index = chunk_at n r x.current_step; size = n })

module _ {A : Type 0} where
  -- The rank after its step in the reduce stage, in the gather stage, and after its last round.
  abbrev pub moved : ℕ → ℕ → Ring A → Ring A
  moved n r x = record x {
    current_step = x.current_step + 1;
    current_index = record { index = chunk_at n r (x.current_step + 1); size = n };
  }

  abbrev pub reduced : (A → A → A) → ℕ → ℕ → Ring A → Ring A
  reduced apply_reduce_op n r x =
      let i = chunk_at n r x.current_step in
      let last = x.current_step + 2 == n in
      moved n r (record x {
        reduce_arrived = update x.reduce_arrived i false;
        sources = update x.sources i (apply_reduce_op (x.sources i) (x.targets i));
        reduce_posted = if last then x.reduce_posted else update x.reduce_posted i true;
        gather_posted = if last then update x.gather_posted i true else x.gather_posted;
      })

  abbrev pub gathered : ℕ → ℕ → Ring A → Ring A
  gathered n r x =
      let i = chunk_at n r x.current_step in
      let last = x.current_step + 3 == n + n in
      moved n r (record x {
        gather_arrived = update x.gather_arrived i false;
        ack_posted = if last then update x.ack_posted i true else x.ack_posted;
        gather_posted = if last then x.gather_posted else update x.gather_posted i true;
      })

  abbrev pub acknowledged : ℕ → ℕ → Ring A → Ring A
  acknowledged n r x = record x {
    gather_acked = update x.gather_acked (chunk_at n (right n r) (n + n - 3)) false;
  }

  pub reduce_round_lem :
      (apply_reduce_op : A → A → A) (n r : ℕ) (x : Ring A)
      → 2 ≤ n
      → n + n ≤ size_mod
      → r < n
      → x.current_step + 2 ≤ n
      → Working n r x
      → reduce_round apply_reduce_op x ≡ (
          if x.reduce_arrived (chunk_at n r x.current_step)
          then (reduced apply_reduce_op n r x, false)
          else (x, false))
  unfolding reduce_round
  reduce_round_lem apply_reduce_op n r x hn hm hr hs (_, _, st, ix) = ground (
    arith,
    decrement_lem (chunk_at n r x.current_step) n (chunk_at-lt n r x.current_step hr (omega arith))
        hm,
    left-chunk_at n r x.current_step hr (omega arith),
  )

  pub gather_round_lem :
      (n r : ℕ) (x : Ring A)
      → 2 ≤ n
      → n + n ≤ size_mod
      → r < n
      → x.current_step + 3 ≤ n + n
      → Working n r x
      → gather_round x ≡ (
          if x.gather_arrived (chunk_at n r x.current_step)
          then (gathered n r x, false)
          else (x, false))
  unfolding gather_round
  gather_round_lem n r x hn hm hr hs (_, _, st, ix) = ground (
    arith,
    decrement_lem (chunk_at n r x.current_step) n (chunk_at-lt n r x.current_step hr (omega arith))
        hm,
    left-chunk_at n r x.current_step hr (omega arith),
  )

  pub final_round_lem :
      (n r : ℕ) (x : Ring A)
      → 2 ≤ n
      → r < n
      → x.current_step + 2 ≡ n + n
      → Working n r x
      → final_round x ≡ (
          if x.gather_acked (chunk_at n (right n r) (n + n - 3))
          then (acknowledged n r x, true)
          else (x, false))
  unfolding final_round
  final_round_lem n r x hn hr hs (_, nr, _, ix) =
      let s : x.current_step ≡ n + n - 2 = omega arith in
      let e : (ring_index (x.current_index.index + 2) x.number_ranks).index
          ≡ chunk_at n (right n r) (n + n - 3) =
        rw (ix, nr, s, index-ring_index) (ack_index n r hr hn) in
      rw e

  -- The stage is the first while fewer than `n - 1` steps are done.
  stage_reduce :
      (n : ℕ) (x : Ring A)
      → 2 ≤ n
      → x.steps_per_stage ≡ n - 1
      → algorithm_get_current_stage x
        ≡ (if leb (x.current_step + 2) n then RingStage.reduce else RingStage.gather)
  unfolding algorithm_get_current_stage
  stage_reduce n x hn st = elim (dec_lt x.current_step (n - 1)) [
    | yes h ↦
        let e : x.current_step / x.steps_per_stage ≡ 0 = rw st (grind arith) in rw e (ground arith)
    | no h ↦ let e : 0 < x.current_step / x.steps_per_stage = rw st (grind arith) in ground arith
  ]

  pub trigger_lem :
      (apply_reduce_op : A → A → A) (n r : ℕ) (x : Ring A)
      → 2 ≤ n
      → Working n r x
      → trigger_progress_impl apply_reduce_op x ≡ (
          if x.current_step + 2 == n + n
          then final_round x
          else if leb (x.current_step + 2) n
          then reduce_round apply_reduce_op x
          else gather_round x)
  unfolding trigger_progress_impl
  trigger_lem apply_reduce_op n r x hn (el, nr, st, _) = ground (arith, stage_reduce n x hn st)
