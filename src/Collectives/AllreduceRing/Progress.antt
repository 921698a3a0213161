-- ===== src/Collectives/AllreduceRing/Progress.antt =====
-- What a rank of AllreduceRing.hpp can do, and when a running rank can do it.
use gaspi_cxx.Common.{
  ℕ, zero, suc, ◌+◌, ◌-◌, ◌<◌, ◌≤◌, ◌≡◌, ◌⊎◌, inl, inr, refl, true, false, ◌||◌, arith, ℕ_discrete,
  dec_lt, subst, size_mod, Bool-cases,
}
use gaspi_cxx.Group.Ring.Laws.{right, left}
use gaspi_cxx.Collectives.LowLevel.{State, trigger_progress}
use gaspi_cxx.Collectives.AllreduceRing.{chunk_implementation}
use gaspi_cxx.Collectives.AllreduceRing.Hops.{distance-chunk_at, chunk_at, chunk_at-lt, left-right}
use gaspi_cxx.Collectives.AllreduceRing.Network.{Net}
use gaspi_cxx.Collectives.AllreduceRing.Edges.{outs, is_finished}
use gaspi_cxx.Collectives.AllreduceRing.Outcomes.{idle, reduces, gathers, finishes}
use gaspi_cxx.Collectives.AllreduceRing.Steps.{progress-Outcome}
use gaspi_cxx.Collectives.AllreduceRing.Invariant.{Inv, Edge-in}

-- Rank `r` can do something: its collective waits for `start`, one of its transfers is on its way, or
-- `triggerProgress` takes it to its next step or to its end.
unfoldable pub Active : {A : Type 0} → (A → A → A) → ℕ → Net A → ℕ → Type 0
Active apply_reduce_op n w r =
    ((w r).state ≡ State.ready)
    ⊎ ((i : ℕ) × (i < n)
        × (((w r).algorithm.reduce_posted i ≡ true)
            ⊎ (((w r).algorithm.gather_posted i ≡ true) ⊎ ((w r).algorithm.ack_posted i ≡ true))))
    ⊎ (let c = (trigger_progress (chunk_implementation apply_reduce_op) true (w r)).0 in
        (c.state ≡ State.finished) × ((w r).state ≡ State.running)
        ⊎ (c.algorithm.current_step ≡ (w r).algorithm.current_step + 1))

-- A place where a function is least.
pub least : (f : ℕ → ℕ) (n : ℕ) → (m : ℕ) × (m < n + 1) × ((k : ℕ) → k < n + 1 → f m ≤ f k)
least f zero =
    (0, omega arith, λ k h. let e : 0 ≡ k = omega arith in subst (λ j. f 0 ≤ f j) e (omega arith))
least f (suc n) =
    let (m, hm, low) = least f n in
    elim (dec_lt (f (n + 1)) (f m)) [
      | yes below ↦ (
        n + 1,
        omega arith,
        λ k h. elim (ℕ_discrete (n + 1) k) [
          | yes e ↦ subst (λ j. f (n + 1) ≤ f j) e (omega arith)
          | no ne ↦ omega (arith, low k (omega arith))
        ],
      )
      | no above ↦ (
        m,
        omega arith,
        λ k h. elim (ℕ_discrete (n + 1) k) [
          | yes e ↦ subst (λ j. f m ≤ f j) e (omega arith)
          | no ne ↦ low k (omega arith)
        ],
      )
    ]

-- The ranks below `n` have all finished, or there is one that has not.
pub all_finished :
    {A : Type 0} (w : Net A) (n : ℕ)
    → ((r : ℕ) → r < n → (w r).state ≡ State.finished)
      ⊎ ((r : ℕ) × (r < n) × (is_finished (w r).state ≡ false))
all_finished w zero = inl (λ r h. absurd (omega arith))
all_finished w (suc n) = elim (all_finished w n) [
  | inr (r, h, e) ↦ inr (r, omega arith, e)
  | inl all ↦ elim (Bool-cases (is_finished (w n).state)) [
    | inr e ↦ inr (n, omega arith, e)
    | inl e ↦ inl (λ r h. elim (ℕ_discrete n r) [
      | yes same ↦ subst (λ k. (w k).state ≡ State.finished) same (ground arith)
      | no ne ↦ all r (omega arith)
    ])
  ]
]

module _ {A : Type 0} (apply_reduce_op : A → A → A) (input : ℕ → ℕ → A) (n : ℕ) (hn : 2 ≤ n)
    (hm : n + n ≤ size_mod) (w : Net A) (v : Inv apply_reduce_op input n w) where
  -- A running rank for whose step something has arrived moves on.
  came-Active :
      (r : ℕ)
      → r < n
      → (w r).state ≡ State.running
      → (let s = (w r).algorithm.current_step in
          (((s + 2 ≤ n) × ((w r).algorithm.reduce_arrived (chunk_at n r s) ≡ true))
            ⊎ ((n ≤ s + 1)
                × (s + 3 ≤ n + n)
                × ((w r).algorithm.gather_arrived (chunk_at n r s) ≡ true))
            ⊎ ((s + 2 ≡ n + n)
                × ((w r).algorithm.gather_acked (chunk_at n (right n r) (n + n - 3)) ≡ true))))
      → Active apply_reduce_op n w r
  unfolding Active
  came-Active r hr run came = elim (progress-Outcome apply_reduce_op input n hn hm w v r hr) [
    | idle blocked e ↦
        let (not_reduce, not_gather, not_ack) = blocked run in
        elim came [
          | inl (h, c) ↦ absurd (ground (arith, not_reduce h, c))
          | inr (inl (h, h', c)) ↦ absurd (ground (arith, not_gather h h', c))
          | inr (inr (h, c)) ↦ absurd (ground (arith, not_ack h, c))
        ]
    | reduces _ _ _ e ↦ inr (inr (inr (rw e refl)))
    | gathers _ _ _ _ e ↦ inr (inr (inr (rw e refl)))
    | finishes _ _ _ e ↦ inr (inr (inl (rw e (refl, run))))
  ]

  -- A running rank whose left neighbor is not behind it is active, or a transfer to it is on its way.
  pub reduce-Active :
      (r : ℕ)
      → r < n
      → (w r).state ≡ State.running
      → (w r).algorithm.current_step + 2 ≤ n
      → (w r).algorithm.current_step < (outs (w (left n r))).sent
      → Active apply_reduce_op n w r ⊎ Active apply_reduce_op n w (left n r)
  reduce-Active r hr run hs ahead =
      let s = (w r).algorithm.current_step in
      let k = chunk_at n r s in
      let hk = chunk_at-lt n r s hr (omega arith) in
      let dk = distance-chunk_at n r s hr (omega arith) in
      let l = (Edge-in apply_reduce_op input n hn w v r hr).links k hk in
      let flight : ((w (left n r)).algorithm.reduce_posted k || (w r).algorithm.reduce_arrived k)
          ≡ true =
        ground (arith, l.reduce_flight, dk) in
      elim (Bool-cases ((w r).algorithm.reduce_arrived k)) [
        | inl came ↦ inl (came-Active r hr run (inl (hs, came)))
        | inr not_come ↦
            unfold Active in inr (inr (inl (k, hk, inl (ground (arith, flight, not_come)))))
      ]

  pub gather-Active :
      (r : ℕ)
      → r < n
      → (w r).state ≡ State.running
      → n ≤ (w r).algorithm.current_step + 1
      → (w r).algorithm.current_step + 3 ≤ n + n
      → (w r).algorithm.current_step < (outs (w (left n r))).sent
      → Active apply_reduce_op n w r ⊎ Active apply_reduce_op n w (left n r)
  gather-Active r hr run late hs ahead =
      let s = (w r).algorithm.current_step in
      let k = chunk_at n r s in
      let hk = chunk_at-lt n r s hr (omega arith) in
      let dk = distance-chunk_at n r s hr (omega arith) in
      let l = (Edge-in apply_reduce_op input n hn w v r hr).links k hk in
      let flight : ((w (left n r)).algorithm.gather_posted k || (w r).algorithm.gather_arrived k)
          ≡ true =
        ground (arith, l.gather_flight, dk) in
      elim (Bool-cases ((w r).algorithm.gather_arrived k)) [
        | inl came ↦ inl (came-Active r hr run (inr (inl (late, hs, came))))
        | inr not_come ↦
            unfold Active in inr (inr (inl (k, hk, inr (inl (ground (arith, flight, not_come))))))
      ]

  pub final-Active :
      (r : ℕ)
      → r < n
      → (w r).state ≡ State.running
      → (w r).algorithm.current_step + 2 ≡ n + n
      → (w (right n r)).algorithm.current_step + 2 ≡ n + n
      → Active apply_reduce_op n w r ⊎ Active apply_reduce_op n w (right n r)
  final-Active r hr run hs hs' =
      let (hq, _) = left-right n r hr in
      let k = chunk_at n (right n r) (n + n - 3) in
      let hk = chunk_at-lt n (right n r) (n + n - 3) hq (omega arith) in
      let flight : ((w (right n r)).algorithm.ack_posted k || (w r).algorithm.gather_acked k)
          ≡ true =
        ground (arith, run, (v.edges r hr).ack_flight k hk) in
      elim (Bool-cases ((w r).algorithm.gather_acked k)) [
        | inl acked ↦ inl (came-Active r hr run (inr (inr (hs, acked))))
        | inr not_acked ↦
            unfold Active in inr (inr (inl (k, hk, inr (inr (ground (arith, flight, not_acked))))))
      ]
