-- ===== src/Collectives/AllreduceRing/Outcomes.antt =====
-- What one call of `triggerProgress` does to a rank of AllreduceRing.hpp that satisfies its invariant.
use gaspi_cxx.Common.{
  ℕ, ◌+◌, ◌-◌, ◌<◌, ◌≤◌, ◌≡◌, inl, inr, true, false, arith, size_mod, dec_le, ◌≢◌, ℕ_discrete,
  Bool-cases,
}
use gaspi_cxx.Group.Ring.Laws.{right}
use gaspi_cxx.Collectives.LowLevel.{State, Collective, trigger_progress}
use gaspi_cxx.Collectives.AllreduceRing.{Ring, chunk_implementation}
use gaspi_cxx.Collectives.AllreduceRing.Hops.{chunk_at}
use gaspi_cxx.Collectives.AllreduceRing.Rounds.{
  Working, reduced, gathered, acknowledged, reduce_round_lem, gather_round_lem, final_round_lem,
  trigger_lem,
}

module _ {A : Type 0} where
  -- Nothing that rank `r` waits for in its step has come.
  abbrev pub Blocked : ℕ → ℕ → Collective (Ring A) → Type 0
  Blocked n r c =
      let s = c.algorithm.current_step in
      (s + 2 ≤ n → c.algorithm.reduce_arrived (chunk_at n r s) ≡ false)
      × (n ≤ s + 1 → s + 3 ≤ n + n → c.algorithm.gather_arrived (chunk_at n r s) ≡ false)
      × (s + 2 ≡ n + n → c.algorithm.gather_acked (chunk_at n (right n r) (n + n - 3)) ≡ false)

  -- What `triggerProgress` makes of the collective of rank `r`.
  pub data Outcome (apply_reduce_op : A → A → A) (n r : ℕ) (c c' : Collective (Ring A))
      : Type 0 where
    idle : (c.state ≡ State.running → Blocked n r c) → c' ≡ c → Outcome apply_reduce_op n r c c'
    reduces :
        c.state ≡ State.running
        → c.algorithm.current_step + 2 ≤ n
        → c.algorithm.reduce_arrived (chunk_at n r c.algorithm.current_step) ≡ true
        → c' ≡ record { state = State.running; algorithm = reduced apply_reduce_op n r c.algorithm }
        → Outcome apply_reduce_op n r c c'
    gathers :
        c.state ≡ State.running
        → n ≤ c.algorithm.current_step + 1
        → c.algorithm.current_step + 3 ≤ n + n
        → c.algorithm.gather_arrived (chunk_at n r c.algorithm.current_step) ≡ true
        → c' ≡ record { state = State.running; algorithm = gathered n r c.algorithm }
        → Outcome apply_reduce_op n r c c'
    finishes :
        c.state ≡ State.running
        → c.algorithm.current_step + 2 ≡ n + n
        → c.algorithm.gather_acked (chunk_at n (right n r) (n + n - 3)) ≡ true
        → c' ≡ record { state = State.finished; algorithm = acknowledged n r c.algorithm }
        → Outcome apply_reduce_op n r c c'

  pub unworking :
      (apply_reduce_op : A → A → A) (c : Collective (Ring A))
      → c.state ≢ State.running
      → (trigger_progress (chunk_implementation apply_reduce_op) true c).0 ≡ c
  unfolding trigger_progress
  unworking apply_reduce_op c ne = ground arith

  -- In a ring of at least 2 ranks, with 2 n at most 2 ^ 64, and with at least one element, a rank that is
  -- running in one of its 2 n - 1 steps, and whose index is the chunk of its step, is changed by `triggerProgress` in one of four ways, each under its own
  -- condition: not at all while what its step waits for has not come, by a reduction of the chunk that came, by passing on the total that came, or
  -- by its end after the acknowledgement.
  pub running-Outcome :
      (apply_reduce_op : A → A → A) (n r : ℕ) (c : Collective (Ring A))
      → 2 ≤ n
      → n + n ≤ size_mod
      → r < n
      → c.state ≡ State.running
      → c.algorithm.current_step + 2 ≤ n + n
      → Working n r c.algorithm
      → Outcome apply_reduce_op n r c
          (trigger_progress (chunk_implementation apply_reduce_op) true c).0
  unfolding trigger_progress chunk_implementation
  running-Outcome apply_reduce_op n r c hn hm hr run hs wk =
      elim (ℕ_discrete (c.algorithm.current_step + 2) (n + n)) [
        | yes last ↦
            elim (Bool-cases (c.algorithm.gather_acked (chunk_at n (right n r) (n + n - 3)))) [
              | inl acked ↦ finishes run last acked (
                  ground (
                    arith,
                    trigger_lem apply_reduce_op n r c.algorithm hn wk,
                    final_round_lem n r c.algorithm hn hr last wk,
                  ))
              | inr not_acked ↦
                  idle
                    (λ _. (λ h. absurd (omega arith), λ h h'. absurd (omega arith), λ h. not_acked))
                    (ground (
                      arith,
                      trigger_lem apply_reduce_op n r c.algorithm hn wk,
                      final_round_lem n r c.algorithm hn hr last wk,
                    ))
            ]
        | no not_last ↦ elim (dec_le (c.algorithm.current_step + 2) n) [
          | yes early ↦
              elim (Bool-cases
                (c.algorithm.reduce_arrived (chunk_at n r c.algorithm.current_step))) [
                  | inl came ↦ reduces run early came (
                      ground (
                        arith,
                        trigger_lem apply_reduce_op n r c.algorithm hn wk,
                        reduce_round_lem apply_reduce_op n r c.algorithm hn hm hr early wk,
                      ))
                  | inr not_come ↦
                      idle
                        (λ _.
                          (λ h. not_come, λ h h'. absurd (omega arith), λ h. absurd (omega arith)))
                        (ground (
                          arith,
                          trigger_lem apply_reduce_op n r c.algorithm hn wk,
                          reduce_round_lem apply_reduce_op n r c.algorithm hn hm hr early wk,
                        ))
                ]
          | no late ↦
              elim (Bool-cases
                (c.algorithm.gather_arrived (chunk_at n r c.algorithm.current_step))) [
                  | inl came ↦ gathers run (omega arith) (omega arith) came (
                      ground (
                        arith,
                        trigger_lem apply_reduce_op n r c.algorithm hn wk,
                        gather_round_lem n r c.algorithm hn hm hr (omega arith) wk,
                      ))
                  | inr not_come ↦
                      idle
                        (λ _.
                          (λ h. absurd (omega arith), λ h h'. not_come, λ h. absurd (omega arith)))
                        (ground (
                          arith,
                          trigger_lem apply_reduce_op n r c.algorithm hn wk,
                          gather_round_lem n r c.algorithm hn hm hr (omega arith) wk,
                        ))
                ]
        ]
      ]
