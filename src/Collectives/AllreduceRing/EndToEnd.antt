-- ===== src/Collectives/AllreduceRing/EndToEnd.antt =====
-- AllreduceRing.hpp from the elements that every rank copies in to the elements that a rank copies out:
-- the copies of `Copies` and the rounds of `Network` together.
use gaspi_cxx.Common.{
  ℕ, ◌&&◌, ltb, ◌==◌, if◌then◌else◌, false, subst, ◌+◌, ◌-◌, ◌<◌, ◌≤◌, ◌≡◌, refl, ◌∙◌, List, arith,
  size_mod, ok, true, length,
}
use mathlib.Core.Path.{fun_ext}
use gaspi_cxx.Collectives.LowLevel.{State, Collective, start, trigger_progress, copy_in, copy_out}
use gaspi_cxx.Collectives.AllreduceRing.{
  Ring, construct, chunk_implementation, final_round, gather_round, reduce_round,
  trigger_progress_impl, start_impl,
}
use gaspi_cxx.Collectives.AllreduceRing.Network.{Net, ready, Reach, here, next, Step}
use gaspi_cxx.Collectives.AllreduceRing.Copies.{
  implementation, elementwise, copy_in_from, copy_out_from, copy_in_impl, copy_out_impl, ceil_div,
  copy_out_from-copy_in_from, le-ceil_div,
}
use gaspi_cxx.Collectives.AllreduceRing.Chunks.{
  length-copy_in_from, copy_out_from-cong, elementwise_assoc, elementwise_comm,
  copy_out_from-reduce_from, reduce_from-cong,
}
use gaspi_cxx.Collectives.AllreduceRing.Order.{reduce_all, copy_out-reduce_all}
use gaspi_cxx.Collectives.AllreduceRing.Results.{Reach-Inv}

-- No step changes how many elements a rank has.
abbrev SameElements : {A : Type 0} → Net A → Net A → Type 0
SameElements u v = (r : ℕ) → (v r).algorithm.number_elements ≡ (u r).algorithm.number_elements

module _ {A : Type 0} (op : A → A → A) where
  final_round_keeps : (r : Ring A) → (final_round r).0.number_elements ≡ r.number_elements
  unfolding final_round
  final_round_keeps r = ground arith

  gather_round_keeps : (r : Ring A) → (gather_round r).0.number_elements ≡ r.number_elements
  unfolding gather_round
  gather_round_keeps r = ground arith

  reduce_round_keeps : (r : Ring A) → (reduce_round op r).0.number_elements ≡ r.number_elements
  unfolding reduce_round
  reduce_round_keeps r = ground arith

  trigger_impl_keeps :
      (r : Ring A) → (trigger_progress_impl op r).0.number_elements ≡ r.number_elements
  unfolding trigger_progress_impl
  trigger_impl_keeps r =
      ground (arith, final_round_keeps r, gather_round_keeps r, reduce_round_keeps r)

  trigger_keeps :
      (c : Collective (Ring A))
      → (trigger_progress (chunk_implementation op) true c).0.algorithm.number_elements
        ≡ c.algorithm.number_elements
  unfolding trigger_progress chunk_implementation
  trigger_keeps c = ground (arith, trigger_impl_keeps c.algorithm)

  start_keeps :
      (c c' : Collective (Ring A))
      → start (chunk_implementation op) c ≡ ok c'
      → c'.algorithm.number_elements ≡ c.algorithm.number_elements
  unfolding start chunk_implementation start_impl
  start_keeps c c' e = ground arith

  Step-SameElements : (n : ℕ) {u v : Net A} → Step op n u v → SameElements u v
  Step-SameElements n {u} (Step.starts {c} r h e) k = ground (arith, start_keeps (u r) c e)
  Step-SameElements n {u} (Step.progresses r h) k = ground (arith, trigger_keeps (u r))
  Step-SameElements n {u} (Step.reduce_data r i h hi p) k = ground arith
  Step-SameElements n {u} (Step.reduce_completes r i h hi p) k = ground arith
  Step-SameElements n {u} (Step.gather_data r i h hi p) k = ground arith
  Step-SameElements n {u} (Step.gather_completes r i h hi p) k = ground arith
  Step-SameElements n {u} (Step.ack_completes r i h hi p) k = ground arith

  Reach-SameElements : (n : ℕ) {u v : Net A} → Reach op n u v → SameElements u v
  Reach-SameElements n here k = refl
  Reach-SameElements n (next reach step) k =
      Step-SameElements n step k ∙ Reach-SameElements n reach k

-- The rounds of the methods with copies are those that `Step` takes on whole chunks.
rounds_lem :
    {T : Type 0} (functor : T → T → T) (c : Collective (Ring (List T)))
    → (start (implementation functor) c ≡ start (chunk_implementation (elementwise functor)) c)
      × (trigger_progress (implementation functor) true c
          ≡ trigger_progress (chunk_implementation (elementwise functor)) true c)
unfolding start trigger_progress implementation chunk_implementation
rounds_lem functor c = (refl, refl)

module _ {T : Type 0} (functor : T → T → T) (N n : ℕ) (hn : 2 ≤ n) (single : List T)
    (inputs : ℕ → List T) (garbage targets : ℕ → ℕ → List T)
    (inputs_size : (r : ℕ) → length (inputs r) ≡ N) where
  -- What `copyIn` leaves in the buffers of a rank.
  chunks : ℕ → ℕ → List T
  chunks r = copy_in_from N (ceil_div N n) n 0 0 (inputs r) (garbage r)

  copied_in :
      (w0 : Net (List T))
      → 0 < N
      → ((r : ℕ)
          → copy_in (implementation functor) (inputs r) (record {
            state = State.initialized;
            algorithm = construct N n r single (garbage r) (targets r);
          })
            ≡ ok (w0 r))
      → (r : ℕ) → w0 r ≡ ready N n single chunks targets r
  unfolding copy_in implementation copy_in_impl construct ready chunks
  copied_in w0 he h r =
      let several : (n == 1) ≡ false = ground arith in
      let count : (if ltb 0 N && ltb 1 n then n else 0) ≡ n = ground arith in
      let e = h r in ground (arith, e, several, count)

  copy_out_lem :
      (x : Ring (List T))
      → 0 < N
      → x.number_elements ≡ N
      → x.number_ranks ≡ n
      → copy_out_impl x ≡ copy_out_from N (ceil_div N n) n 0 0 x.sources
  unfolding copy_out_impl
  copy_out_lem x he elements ranks =
      let several : (n == 1) ≡ false = ground arith in
      let count : (if ltb 0 N && ltb 1 n then n else 0) ≡ n = ground arith in
      rw (elements, ranks, several, count) refl

  -- In a group of n ranks, with 2 ≤ n and 2 n at most 2 ^ 64, and with N > 0 elements, for a functor that is
  -- associative and commutative: every rank, initialised, with buffers of ⌈N / n⌉ elements that hold
  -- anything, copies in its own N elements. Then, in whatever order the ranks run and the transfers arrive,
  -- what a successful `copyOut` on any rank writes is the elementwise reduction of the inputs of the
  -- ranks 0, ..., n - 1: every element of every rank once, in its place, and nothing of the padding.
  pub all_reduce :
      (w0 w : Net (List T)) (r : ℕ) (outputs : List T) (c : Collective (Ring (List T)))
      → n + n ≤ size_mod
      → 0 < N
      → ((x y z : T) → functor (functor x y) z ≡ functor x (functor y z))
      → ((x y : T) → functor x y ≡ functor y x)
      → ((q i : ℕ) → length (garbage q i) ≡ ceil_div N n)
      → ((q : ℕ)
          → copy_in (implementation functor) (inputs q) (record {
            state = State.initialized;
            algorithm = construct N n q single (garbage q) (targets q);
          })
            ≡ ok (w0 q))
      → Reach (elementwise functor) n w0 w
      → r < n
      → copy_out (implementation functor) (w r) ≡ ok (outputs, c)
      → outputs ≡ reduce_all (elementwise functor) inputs n
  unfolding copy_out implementation chunk_implementation ready construct chunks
  all_reduce w0 w r outputs c hm he assoc comm sizes loaded reach hr e =
      let start_eq : w0 ≡ ready N n single chunks targets = fun_ext (copied_in w0 he loaded) in
      let reach' : Reach (elementwise functor) n (ready N n single chunks targets) w =
        subst (λ u. Reach (elementwise functor) n u w) start_eq reach in
      let v = Reach-Inv (elementwise functor) chunks single targets N n hn hm he reach' in
      let ranks : (w r).algorithm.number_ranks ≡ n = (v.nodes r hr).ranks in
      let elements : (w r).algorithm.number_elements ≡ N =
        Reach-SameElements (elementwise functor) n reach' r in
      let over : (w r).state ≡ State.finished = ground arith in
      let out_eq : outputs ≡ copy_out_impl (w r).algorithm = ground arith in
      let s = (w r).algorithm.sources in
      let reduced : (i : ℕ)
          → 0 ≤ i
          → i < 0 + n
          → s i ≡ reduce_all (elementwise functor) (λ k. chunks k i) n =
        λ i low hi.
          copy_out-reduce_all (elementwise functor) chunks n (elementwise_assoc functor assoc)
            (elementwise_comm functor comm) single targets N hn hm he w r i s
            (record { state = State.initialized; algorithm = (w r).algorithm }) reach' hr
            (omega arith) (ground (arith, over)) in
      let out : outputs ≡ copy_out_from N (ceil_div N n) n 0 0 s =
        out_eq ∙ copy_out_lem (w r).algorithm he elements ranks in
      out
      ∙ copy_out_from-cong N (ceil_div N n) n 0 0 s
          (λ i. reduce_all (elementwise functor) (λ k. chunks k i) n) reduced
      ∙ copy_out_from-reduce_from functor N (ceil_div N n) n (ceil_div N n) (n - 1) chunks (λ k j.
        length-copy_in_from N (ceil_div N n) n 0 0 (inputs k) (garbage k) (omega arith)
          (omega (arith, inputs_size k)) (sizes k) j)
      ∙ reduce_from-cong functor (λ k. copy_out_from N (ceil_div N n) n 0 0 (chunks k)) inputs n 0
          (n - 1) (omega arith)
          (λ k hk.
            copy_out_from-copy_in_from N (ceil_div N n) n 0 0 (inputs k) (garbage k) (omega arith)
              (omega (arith, inputs_size k)) (omega (arith, le-ceil_div N n (omega arith))))
