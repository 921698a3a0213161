-- ===== src/Collectives/AllgathervRing/Output.antt =====
-- What `copyOutImpl` of AllgathervRing.hpp makes of the outputs.
use gaspi_cxx.Common.{
  ℕ, zero, suc, ◌+◌, ◌-◌, ◌<◌, ◌≤◌, ◌≡◌, ◌≢◌, ◌⊎◌, inl, inr, refl, sym, ap, subst, ◌∙◌, false, List,
  [], ◌∷◌, take, length, get_elem?, ◌==◌, some, size_mod, arith, ℕ_discrete, dec_le,
}
use gaspi_cxx.Common.Families.{update}
use gaspi_cxx.Group.Ring.{decrement_index_on_ring}
use gaspi_cxx.Group.Ring.Laws.{decrement_index-left}
use gaspi_cxx.Collectives.AllreduceRing.Copies.{take_all}
use gaspi_cxx.Collectives.AllgathervRing.{Gather, copy_out_impl, copy_targets, copy_to, offset}
use gaspi_cxx.Collectives.AllgathervRing.Nodes.{origin}

module _ {T : Type 0} where
  copy_to_outside :
      (begin : ℕ) (xs : List T) (out : ℕ → T) (j : ℕ)
      → (j < begin) ⊎ (begin + length xs ≤ j)
      → copy_to begin xs out j ≡ out j
  copy_to_outside begin [] out j h = refl
  copy_to_outside begin (x ∷ xs) out j h =
      let later : (j < begin + 1) ⊎ (begin + 1 + length xs ≤ j) = elim h [
        | inl before ↦ inl (omega arith)
        | inr after ↦ inr (omega arith)
      ] in
      let another : (begin == j) ≡ false = elim h [
        | inl before ↦ ground arith
        | inr after ↦ ground arith
      ] in
      copy_to_outside (begin + 1) xs (update out begin x) j later ∙ ground (arith, another)

  copy_to_inside :
      (begin : ℕ) (xs : List T) (out : ℕ → T) (j : ℕ) (x : T)
      → get_elem? xs j ≡ some x
      → copy_to begin xs out (begin + j) ≡ x
  copy_to_inside begin [] out j x h = cc
  copy_to_inside begin (y ∷ ys) out zero x h =
      subst (λ q. copy_to (begin + 1) ys (update out begin y) q ≡ x) (omega arith)
        (copy_to_outside (begin + 1) ys (update out begin y) begin (inl (omega arith))
          ∙ ground (arith, h))
  copy_to_inside begin (y ∷ ys) out (suc j) x h =
      subst (λ q. copy_to (begin + 1) ys (update out begin y) q ≡ x) (omega arith)
        (copy_to_inside (begin + 1) ys (update out begin y) j x h)

  get_elem?-length : (xs : List T) (j : ℕ) (x : T) → get_elem? xs j ≡ some x → j < length xs
  get_elem?-length [] j x h = cc
  get_elem?-length (y ∷ ys) zero x h = omega arith
  get_elem?-length (y ∷ ys) (suc j) x h = omega (arith, get_elem?-length ys j x h)

offset-le : (counts : ℕ → ℕ) (a d : ℕ) → offset counts a + counts a ≤ offset counts (a + 1 + d)
unfolding offset
offset-le counts a zero =
    let last : suc a ≡ a + 1 + 0 = omega arith in
    subst (λ q. offset counts a + counts a ≤ offset counts q) last (omega arith)
offset-le counts a (suc d) =
    let last : suc (a + 1 + d) ≡ a + 1 + suc d = omega arith in
    subst (λ q. offset counts a + counts a ≤ offset counts q) last
      (omega (arith, offset-le counts a d))

module _ {T : Type 0} (counts : ℕ → ℕ) (inputs : ℕ → List T)
    (sizes : (k : ℕ) → length (inputs k) ≡ counts k) where
  -- The elements of rank `k` are in their place.
  abbrev pub Placed : (ℕ → T) → ℕ → Type 0
  Placed out k = (j : ℕ) (x : T) → get_elem? (inputs k) j ≡ some x → out (offset counts k + j) ≡ x

  copies-Placed : (k : ℕ) (out : ℕ → T) → Placed (copy_to (offset counts k) (inputs k) out) k
  copies-Placed k out j x h = copy_to_inside (offset counts k) (inputs k) out j x h

  keeps-Placed :
      (k l : ℕ) (out : ℕ → T)
      → k ≢ l
      → Placed out l
      → Placed (copy_to (offset counts k) (inputs k) out) l
  keeps-Placed k l out ne placed j x h =
      let inside = get_elem?-length (inputs l) j x h in
      let apart : (offset counts l + j < offset counts k)
          ⊎ (offset counts k + length (inputs k) ≤ offset counts l + j) =
        elim (dec_le l k) [
          | yes low ↦
              let d : l + 1 + (k - l - 1) ≡ k = omega arith in
              let below =
                subst (λ q. offset counts l + counts l ≤ offset counts q) d
                  (offset-le counts l (k - l - 1)) in
              inl (omega (arith, below, sizes l, inside))
          | no high ↦
              let d : k + 1 + (l - k - 1) ≡ l = omega arith in
              let above =
                subst (λ q. offset counts k + counts k ≤ offset counts q) d
                  (offset-le counts k (l - k - 1)) in
              inr (omega (arith, above, sizes k))
        ] in
      copy_to_outside (offset counts k) (inputs k) out (offset counts l + j) apart ∙ placed j x h

  copied-Placed :
      (k l : ℕ) (out : ℕ → T)
      → (k ≢ l → Placed out l)
      → Placed (copy_to (offset counts k) (inputs k) out) l
  copied-Placed k l out placed = elim (ℕ_discrete k l) [
    | yes eq ↦ subst (Placed (copy_to (offset counts k) (inputs k) out)) eq (copies-Placed k out)
    | no ne ↦ keeps-Placed k l out ne (placed ne)
  ]

  module _ (n : ℕ) (hn : 2 ≤ n) (hm : n + n ≤ size_mod) (r : ℕ) (hr : r < n) (g : Gather T)
      (same_counts : g.counts ≡ counts) (ranks : g.number_ranks ≡ n)
      (held : (i : ℕ) → i + 1 ≤ n → g.buffers i ≡ inputs (origin n r i)) where
    part :
        (i idx : ℕ)
        → i + 1 ≤ n
        → idx ≡ origin n r i
        → take (g.counts idx) (g.buffers i) ≡ inputs idx
    part i idx hi e =
        ap (λ f. take (f idx) (g.buffers i)) same_counts
        ∙ ap (take (counts idx)) (held i hi ∙ ap inputs (sym e))
        ∙ take_all (counts idx) (inputs idx) (sizes idx)

    -- The loop from target `i` on, when everything up to buffer `i` is in its place.
    copy_targets-Placed :
        (k i idx : ℕ) (out : ℕ → T)
        → i + 1 + k ≡ n
        → (1 ≤ k → idx ≡ origin n r (i + 1))
        → ((j : ℕ) → j ≤ i → Placed out (origin n r j))
        → (j : ℕ) → j < n
        → Placed (copy_targets g k i idx out) (origin n r j)
    unfolding copy_targets
    copy_targets-Placed zero i idx out hk hidx placed j hj = placed j (omega arith)
    copy_targets-Placed (suc k) i idx out hk hidx placed j hj =
        let here = hidx (omega arith) in
        let idx-lt : idx < n = ground (arith, here) in
        let region : copy_to (offset g.counts idx) (take (g.counts idx) (g.buffers (i + 1))) out
            ≡ copy_to (offset counts idx) (inputs idx) out =
          ap (λ f. copy_to (offset f idx) (take (g.counts idx) (g.buffers (i + 1))) out) same_counts
          ∙ ap (λ xs. copy_to (offset counts idx) xs out) (part (i + 1) idx (omega arith) here) in
        let step : 1 ≤ k → decrement_index_on_ring idx g.number_ranks ≡ origin n r (i + 1 + 1) =
          λ more.
            ap (decrement_index_on_ring idx) ranks
            ∙ decrement_index-left idx n idx-lt hm
            ∙ ground (arith, here) in
        let placed' : (l : ℕ)
            → l ≤ i + 1
            → Placed (copy_to (offset counts idx) (inputs idx) out) (origin n r l) =
          λ l hl. copied-Placed idx (origin n r l) out (λ ne. elim (dec_le l i) [
            | yes low ↦ placed l low
            | no high ↦
                let last : l ≡ i + 1 = omega arith in
                absurd (ne (here ∙ ap (origin n r) (sym last)))
          ]) in
        copy_targets-Placed k (i + 1) (decrement_index_on_ring idx g.number_ranks)
          (copy_to (offset g.counts idx) (take (g.counts idx) (g.buffers (i + 1))) out)
          (omega arith) step
          (λ l hl. subst (λ o. Placed o (origin n r l)) (sym region) (placed' l hl)) j hj

    pub copy_out-Placed :
        (out : ℕ → T) (k : ℕ) → g.rank ≡ r → k < n → Placed (copy_out_impl g out) k
    unfolding copy_out_impl
    copy_out-Placed out k own hk =
        let several : (g.number_ranks == 1) ≡ false = ground (arith, ranks) in
        let mine : take (counts r) (g.buffers 0) ≡ inputs r =
          ap (take (counts r)) (held 0 (omega arith) ∙ ap inputs (ground arith))
          ∙ take_all (counts r) (inputs r) (sizes r) in
        let first = copy_to (offset counts r) (inputs r) out in
        let whole : copy_out_impl g out
            ≡ copy_targets g (n - 1) 0 (decrement_index_on_ring r n) first =
          rw (several, ranks, own, same_counts, mine) refl in
        let j = origin n r k in
        let j-lt : (j < n) × (origin n r j ≡ k) = ground arith in
        let index : 1 ≤ n - 1 → decrement_index_on_ring r n ≡ origin n r (0 + 1) =
          λ more. decrement_index-left r n hr hm ∙ ground arith in
        let begun : (l : ℕ) → l ≤ 0 → Placed first (origin n r l) = λ l hl.
          let mine_first : r ≡ origin n r l = ground arith in
          subst (Placed first) mine_first (copies-Placed r out) in
        let all =
          copy_targets-Placed (n - 1) 0 (decrement_index_on_ring r n) first (omega arith) index
            begun j j-lt.0 in
        subst (λ o. Placed o k) (sym whole)
          (subst (Placed (copy_targets g (n - 1) 0 (decrement_index_on_ring r n) first)) j-lt.1 all)
