-- ===== src/Collectives/AllreduceRing/Order.antt =====
-- The reduction that AllreduceRing.hpp takes around the ring, and the reduction in the order of the ranks.
use gaspi_cxx.Common.{
  ℕ, zero, suc, ◌+◌, ◌-◌, ◌<◌, ◌≤◌, ◌≡◌, refl, sym, arith, ap, subst, size_mod, ok, ◌∙◌, ℕ_discrete,
}
use gaspi_cxx.Collectives.LowLevel.{Collective, copy_out}
use gaspi_cxx.Collectives.AllreduceRing.{Ring, chunk_implementation}
use gaspi_cxx.Collectives.AllreduceRing.Hops.{place, partial, total}
use gaspi_cxx.Collectives.AllreduceRing.Network.{Net, ready, Reach}
use gaspi_cxx.Collectives.AllreduceRing.Results.{copy_out-total}

-- `f start`, ..., `f (start + d)`, reduced from the left.
unfoldable pub reduce_from : {A : Type 0} → (A → A → A) → (ℕ → A) → ℕ → ℕ → A
reduce_from op f start zero = f start
reduce_from op f start (suc d) = op (f (start + suc d)) (reduce_from op f start d)

-- The specification of an allreduce: the values of the ranks 0, ..., n - 1 in their order.
abbrev pub reduce_all : {A : Type 0} → (A → A → A) → (ℕ → A) → ℕ → A
reduce_all op f n = reduce_from op f 0 (n - 1)

module _ {A : Type 0} (op : A → A → A) (input : ℕ → ℕ → A) (n : ℕ)
    (assoc : (x y z : A) → op (op x y) z ≡ op x (op y z)) (comm : (x y : A) → op x y ≡ op y x) where
  before_wrap : (c d : ℕ) → c + d < n → partial n op input c d ≡ reduce_from op (λ r. input r c) c d
  unfolding partial reduce_from place
  before_wrap c zero h = refl
  before_wrap c (suc d) h = ground (arith, before_wrap c d (omega arith))

  after_wrap :
      (c m e : ℕ)
      → c + m + 1 ≡ n
      → e < c
      → partial n op input c (m + 1 + e)
        ≡ op (reduce_from op (λ r. input r c) 0 e) (reduce_from op (λ r. input r c) c m)
  unfolding partial reduce_from place
  after_wrap c m zero h he =
      let last : m + 1 + 0 ≡ suc m = omega arith in
      let wrapped : place n c (suc m) ≡ 0 = ground arith in
      rw (last, wrapped, before_wrap c m (omega arith)) refl
  after_wrap c m (suc e) h he =
      let last : m + 1 + suc e ≡ suc (m + 1 + e) = omega arith in
      let wrapped : place n c (suc (m + 1 + e)) ≡ suc e = ground arith in
      let zero_add : 0 + suc e ≡ suc e = omega arith in
      rw (last, wrapped, zero_add, after_wrap c m e h (omega arith)) (sym (assoc _ _ _))

  join :
      (f : ℕ → A) (k m : ℕ)
      → op (reduce_from op f 0 k) (reduce_from op f (k + 1) m) ≡ reduce_from op f 0 (k + 1 + m)
  unfolding reduce_from
  join f k zero =
      let last : k + 1 + 0 ≡ suc k = omega arith in
      let zero_add : 0 + suc k ≡ k + 1 = omega arith in
      rw (last, zero_add) (comm (reduce_from op f 0 k) (f (k + 1)))
  join f k (suc m) =
      let a = reduce_from op f 0 k in
      let b = reduce_from op f (k + 1) m in
      let x = f (k + 1 + suc m) in
      let last : k + 1 + suc m ≡ suc (k + 1 + m) = omega arith in
      let zero_add : 0 + suc (k + 1 + m) ≡ k + 1 + suc m = omega arith in
      let swapped : op a (op x b) ≡ op x (reduce_from op f 0 (k + 1 + m)) =
        sym (assoc a x b) ∙ ap (λ y. op y b) (comm a x) ∙ assoc x a b ∙ ap (op x) (join f k m) in
      subst (λ y. op a (op x b) ≡ reduce_from op f 0 y) (sym last) (rw zero_add swapped)

  -- Around the ring from any rank on, or in the order of the ranks: the same value.
  total_lem : (c : ℕ) → c < n → total n op input c ≡ reduce_all op (λ r. input r c) n
  total_lem c h = elim (ℕ_discrete c 0) [
    | yes e ↦ rw (before_wrap c (n - 1) (omega arith)) (
        subst (λ k. reduce_from op (λ r. input r c) k (n - 1) ≡ reduce_all op (λ r. input r c) n)
          (sym e) refl)
    | no ne ↦
        let m = n - 1 - c in
        let hops : n - 1 ≡ m + 1 + (c - 1) = omega arith in
        let begin : c - 1 + 1 ≡ c = omega arith in
        let whole : c - 1 + 1 + m ≡ n - 1 = omega arith in
        let f : ℕ → A = λ r. input r c in
        ap (partial n op input c) hops
        ∙ after_wrap c m (c - 1) (omega arith) (omega arith)
        ∙ subst
            (λ k.
              op (reduce_from op f 0 (c - 1)) (reduce_from op f k m) ≡ reduce_from op f 0 (k + m))
            begin (join f (c - 1) m)
        ∙ ap (reduce_from op f 0) (omega arith)
  ]

  -- In a ring of at least 2 ranks, with 2 n at most 2 ^ 64, and with at least one element, and for a
  -- reduction that is associative and commutative: in whatever order the ranks run and the transfers
  -- arrive, when `copyOut` on a rank succeeds, every chunk of the output is the reduction of the inputs
  -- of the ranks 0, ..., n - 1.
  pub copy_out-reduce_all :
      (single : A) (targets : ℕ → ℕ → A) (number_elements : ℕ)
      → 2 ≤ n
      → n + n ≤ size_mod
      → 0 < number_elements
      → (w : Net A) (r i : ℕ) (outputs : ℕ → A) (c : Collective (Ring A))
      → Reach op n (ready number_elements n single input targets) w
      → r < n
      → i < n
      → copy_out (chunk_implementation op) (w r) ≡ ok (outputs, c)
      → outputs i ≡ reduce_all op (λ k. input k i) n
  copy_out-reduce_all single targets number_elements hn hm he w r i outputs c reach hr hi e =
      copy_out-total op input single targets number_elements n hn hm he w r i outputs c reach hr hi
        e
      ∙ total_lem i hi
