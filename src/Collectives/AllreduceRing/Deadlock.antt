-- ===== src/Collectives/AllreduceRing/Deadlock.antt =====
-- The ranks of AllreduceRing.hpp and their transfers: which of them can go on.
use gaspi_cxx.Common.{
  ℕ, ◌+◌, ◌-◌, ◌<◌, ◌≤◌, ◌≡◌, ◌≢◌, ◌⊎◌, inl, inr, refl, false, arith, ℕ_discrete, dec_le, size_mod,
}
use gaspi_cxx.Group.Ring.Laws.{right, left}
use gaspi_cxx.Collectives.LowLevel.{State}
use gaspi_cxx.Collectives.AllreduceRing.Hops.{left-right, right-left}
use gaspi_cxx.Collectives.AllreduceRing.Network.{Net, ready, Reach}
use gaspi_cxx.Collectives.AllreduceRing.Edges.{outs, is_finished, Phase, waiting, working, complete}
use gaspi_cxx.Collectives.AllreduceRing.Invariant.{Inv}
use gaspi_cxx.Collectives.AllreduceRing.Results.{Reach-Inv}
use gaspi_cxx.Collectives.AllreduceRing.Progress.{
  Active, least, all_finished, reduce-Active, gather-Active, final-Active,
}

module _ {A : Type 0} (apply_reduce_op : A → A → A) (input : ℕ → ℕ → A) (n : ℕ) (hn : 2 ≤ n)
    (hm : n + n ≤ size_mod) (w : Net A) (v : Inv apply_reduce_op input n w) where
  Phase-cases :
      {st : State} {s : ℕ}
      → Phase n st s
      → (st ≡ State.ready)
        ⊎ (((st ≡ State.running) × (s + 2 ≤ n + n)) ⊎ ((st ≡ State.finished) × (s + 2 ≡ n + n)))
  Phase-cases (waiting e) = inl refl
  Phase-cases (working h) = inr (inl (refl, h))
  Phase-cases (complete h) = inr (inr (refl, h))

  Phase-bound : {st : State} {s : ℕ} → Phase n st s → s + 2 ≤ n + n
  Phase-bound (waiting e) = omega arith
  Phase-bound (working h) = h
  Phase-bound (complete h) = omega arith

  -- The rank that is behind all others, while some step is left for it.
  behind-Active :
      (m : ℕ)
      → m < n
      → ((k : ℕ) → k < n → (w m).algorithm.current_step ≤ (w k).algorithm.current_step)
      → (w m).algorithm.current_step + 2 ≢ n + n
      → (r : ℕ) × (r < n) × Active apply_reduce_op n w r
  behind-Active m m_in low ne =
      let (hl, _) = right-left n m m_in in
      let l = left n m in
      elim (Phase-cases (v.nodes m m_in).phase) [
        | inl wait ↦ (m, m_in, unfold Active in inl wait)
        | inr (inr (_, over)) ↦ absurd (ne over)
        | inr (inl (run, h)) ↦ elim (Phase-cases (v.nodes l hl).phase) [
          | inl wait ↦ (l, hl, unfold Active in inl wait)
          | inr going ↦
              let ahead : (w m).algorithm.current_step < (outs (w l)).sent =
                ground (arith, going, low l hl) in
              elim (dec_le ((w m).algorithm.current_step + 2) n) [
                | yes early ↦
                    elim (reduce-Active apply_reduce_op input n hn hm w v m m_in run early ahead) [
                      | inl a ↦ (m, m_in, a)
                      | inr a ↦ (l, hl, a)
                    ]
                | no late ↦
                    elim (gather-Active apply_reduce_op input n hn hm w v m m_in run (omega arith)
                      (omega arith) ahead) [ inl a ↦ (m, m_in, a) | inr a ↦ (l, hl, a) ]
              ]
        ]
      ]

  -- A rank that has not finished when all have done their steps.
  waiting-Active :
      (q : ℕ)
      → q < n
      → ((k : ℕ) → k < n → n + n ≤ (w k).algorithm.current_step + 2)
      → is_finished (w q).state ≡ false
      → (r : ℕ) × (r < n) × Active apply_reduce_op n w r
  waiting-Active q hq all not_over =
      let (hr, _) = left-right n q hq in
      elim (Phase-cases (v.nodes q hq).phase) [
        | inl wait ↦ (q, hq, unfold Active in inl wait)
        | inr (inr (over, _)) ↦ absurd (ground (arith, over, not_over))
        | inr (inl (run, h)) ↦
            let bound : (w (right n q)).algorithm.current_step + 2 ≡ n + n =
              omega (arith, all (right n q) hr, Phase-bound (v.nodes (right n q) hr).phase) in
            elim (final-Active apply_reduce_op input n hn hm w v q hq run (omega (arith, all q hq))
              bound) [ inl a ↦ (q, hq, a) | inr a ↦ (right n q, hr, a) ]
      ]

  some-Active :
      ((r : ℕ) → r < n → (w r).state ≡ State.finished)
      ⊎ ((r : ℕ) × (r < n) × Active apply_reduce_op n w r)
  some-Active = elim (all_finished w n) [
    | inl all ↦ inl all
    | inr (q, hq, not_over) ↦
        let (m, hm, low) = least (λ k. (w k).algorithm.current_step) (n - 1) in
        let hm' : m < n = omega arith in
        inr (elim (ℕ_discrete ((w m).algorithm.current_step + 2) (n + n)) [
          | yes e ↦ waiting-Active q hq (λ k hk. omega (arith, low k (omega arith))) not_over
          | no ne ↦ behind-Active m hm' (λ k hk. low k (omega arith)) ne
        ])
  ]

-- In a ring of at least 2 ranks, with 2 n at most 2 ^ 64, and with at least one element: in every state
-- that the ranks and their transfers can reach, all ranks have finished, or one of them can do something:
-- its collective waits for `start`, one of its transfers is on its way, or `triggerProgress` takes it to
-- its next step or to its end. So the ranks do not deadlock.
pub no_deadlock :
    {A : Type 0} (apply_reduce_op : A → A → A) (input : ℕ → ℕ → A) (single : A)
    (targets : ℕ → ℕ → A) (number_elements n : ℕ)
    → 2 ≤ n
    → n + n ≤ size_mod
    → 0 < number_elements
    → (w : Net A) → Reach apply_reduce_op n (ready number_elements n single input targets) w
    → ((r : ℕ) → r < n → (w r).state ≡ State.finished)
      ⊎ ((r : ℕ) × (r < n) × Active apply_reduce_op n w r)
no_deadlock apply_reduce_op input single targets number_elements n hn hm he w reach =
    some-Active apply_reduce_op input n hn hm w
      (Reach-Inv apply_reduce_op input single targets number_elements n hn hm he reach)
