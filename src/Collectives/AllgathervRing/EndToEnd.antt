-- ===== src/Collectives/AllgathervRing/EndToEnd.antt =====
-- AllgathervRing.hpp from the elements that every rank copies in to the outputs of a rank.
use gaspi_cxx.Common.{
  ℕ, zero, suc, ◌+◌, ◌<◌, ◌≤◌, ◌≡◌, refl, ap, ◌^◌, ◌∙◌, false, List, take, length, get_elem?, ◌==◌,
  some, ok, size_mod, arith,
}
use gaspi_cxx.Common.Families.{update}
use gaspi_cxx.Collectives.LowLevel.{State, Collective, copy_in, copy_out}
use gaspi_cxx.Collectives.AllreduceRing.Copies.{take_all}
use gaspi_cxx.Collectives.AllgathervRing.{
  Gather, construct, implementation, copy_in_impl, copy_out_impl, offset,
}
use gaspi_cxx.Collectives.AllgathervRing.Network.{Net, Reach}
use gaspi_cxx.Collectives.AllgathervRing.Invariant.{ready-Inv, Reach-Inv}
use gaspi_cxx.Collectives.AllgathervRing.{accumulate}
use gaspi_cxx.Collectives.AllgathervRing.Output.{copy_out-Placed}

-- `number_elements` is the sum of the counts when that is below 2 ^ 31.
pub accumulate-offset :
    (counts : ℕ → ℕ) (n : ℕ) → offset counts n < 2 ^ 31 → accumulate counts n ≡ offset counts n
unfolding accumulate offset
accumulate-offset counts zero h = refl
accumulate-offset counts (suc n) h = ground (arith, accumulate-offset counts n (omega arith))

-- In a group of n ranks, with 2 ≤ n and 2 n at most 2 ^ 64: every rank, initialised, with buffers that hold
-- anything, copies in its own elements, as many as its count. Then, in whatever order the ranks run and the
-- transfers arrive, a successful `copyOut` on any rank writes the elements of every rank k, in order, from
-- the sum of the counts of the ranks before k on: all ranks get the same concatenation.
pub all_gather :
    {T : Type 0} (counts : ℕ → ℕ) (inputs : ℕ → List T) (n : ℕ) (single : ℕ → List T)
    (garbage : ℕ → ℕ → List T) (w0 w : Net T) (r k j : ℕ) (x : T) (write : (ℕ → T) → ℕ → T)
    (c : Collective (Gather T)) (outputs : ℕ → T)
    → 2 ≤ n
    → n + n ≤ size_mod
    → ((q : ℕ) → length (inputs q) ≡ counts q)
    → ((q : ℕ)
        → copy_in implementation (inputs q) (record {
          state = State.initialized;
          algorithm = construct counts n q (single q) (garbage q);
        })
          ≡ ok (w0 q))
    → Reach n w0 w
    → r < n
    → k < n
    → copy_out implementation (w r) ≡ ok (write, c)
    → get_elem? (inputs k) j ≡ some x
    → write outputs (offset counts k + j) ≡ x
unfolding copy_in copy_out copy_in_impl construct
all_gather counts inputs n single garbage w0 w r k j x write c outputs hn hm sizes loaded reach hr
      hk e h =
    let own : (q : ℕ) → update (garbage q) 0 (take (counts q) (inputs q)) 0 ≡ inputs q =
      λ q. take_all (counts q) (inputs q) (sizes q) in
    let several : (n == 1) ≡ false = ground arith in
    let begin : (q : ℕ)
        → w0 q ≡ record {
          state = State.ready;
          algorithm =
              construct counts n q (single q) (update (garbage q) 0 (take (counts q) (inputs q)));
        } =
      λ q. ground (arith, loaded q, several) in
    let v0 =
      ready-Inv counts inputs n hn w0 single
        (λ q. update (garbage q) 0 (take (counts q) (inputs q))) own begin in
    let v = Reach-Inv counts inputs n hn hm v0 reach r hr in
    let over : (w r).state ≡ State.finished = ground arith in
    let out : write ≡ copy_out_impl (w r).algorithm = ground arith in
    let last = v.over over in
    ap (λ f. f outputs (offset counts k + j)) out
    ∙ copy_out-Placed counts inputs sizes n hn hm r hr (w r).algorithm v.sizes v.ranks
        (λ i hi. v.held i (omega arith)) outputs k v.own hk j x h
