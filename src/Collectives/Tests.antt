-- ===== src/Collectives/Tests.antt =====
-- Runs of the collectives on small inputs, and the theorems at those inputs.
use gaspi_cxx.Common.{ℕ, ◌-◌, ◌≡◌, ◌⊎◌, refl, true, false, [], ◌∷◌, ok, some, ◌==◌}
use gaspi_cxx.Collectives.LowLevel.{
  State, Impl, Collective, copy_in, start, copy_out, wait_for_completion,
}
use gaspi_cxx.Collectives.LowLevel.Protocol.{
  trigger_all, FinishesIn, last, later, one_completer, round,
}

-- An algorithm that counts down, one round for each number.
abbrev countdown : Impl ℕ ℕ ℕ
countdown = record {
  wait_for_setup_impl = λ s. s;
  copy_in_impl = λ i s. i;
  start_impl = λ s. s;
  trigger_progress_impl = λ s. (s - 1, s == 0);
  copy_out_impl = λ s. (s, s);
}

abbrev counting : ℕ → Collective ℕ
counting s = record { state = State.running; algorithm = s }

two_rounds : FinishesIn countdown 2 2 0
two_rounds = later refl (later refl (last refl))

one_completer_example :
    let (d, n) = trigger_all countdown (true ∷ false ∷ true ∷ true ∷ true ∷ []) (counting 2) in
    ((d.state ≡ State.finished) × (n ≡ 1)) ⊎ ((d.state ≡ State.running) × (n ≡ 0))
one_completer_example =
    one_completer countdown (true ∷ false ∷ true ∷ true ∷ true ∷ []) (counting 2) refl

round_example :
    (c d e : Collective ℕ) × (copy_in countdown 2
        (record { state = State.initialized; algorithm = 9 })
      ≡ ok c)
    × (start countdown c ≡ ok d)
    × (wait_for_completion countdown 3 d ≡ some (e, true))
    × (copy_out countdown e ≡ ok (0, record { state = State.initialized; algorithm = 0 }))
round_example = round countdown 9 0 2 2 two_rounds
