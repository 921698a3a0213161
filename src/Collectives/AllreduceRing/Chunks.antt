-- ===== src/Collectives/AllreduceRing/Chunks.antt =====
-- The copies of AllreduceRing.hpp and the elementwise reduction: the chunks are reduced one by one, and the
-- elements with them.
use gaspi_cxx.Common.{
  take, drop, length-drop, ℕ, zero, suc, ◌+◌, ◌-◌, ◌<◌, ◌≤◌, ◌≡◌, refl, sym, ap, ◌∙◌, List, [], ◌∷◌,
  ◌++◌, arith, leb, length, Bool-cases, inl, inr, length-append,
}
use gaspi_cxx.Common.Families.{update}
use gaspi_cxx.Collectives.AllreduceRing.Copies.{to_copy, copy_in_from, copy_out_from, elementwise}
use gaspi_cxx.Collectives.AllreduceRing.Order.{reduce_from}

module _ {T : Type 0} where
  length-take : (n : ℕ) (xs : List T) → n ≤ length xs → length (take n xs) ≡ n
  length-take zero xs h = refl
  length-take (suc n) [] h = absurd (omega arith)
  length-take (suc n) (x ∷ xs) h = omega (arith, length-take n xs (omega arith))

  -- Every buffer keeps its size.
  pub length-copy_in_from :
      (number_elements elements k i total : ℕ) (inputs : List T) (sources : ℕ → List T)
      → total ≤ number_elements
      → length inputs ≡ number_elements - total
      → ((j : ℕ) → length (sources j) ≡ elements)
      → (j : ℕ)
      → length (copy_in_from number_elements elements k i total inputs sources j) ≡ elements
  unfolding copy_in_from
  length-copy_in_from number_elements elements zero i total inputs sources ht hl hs j = hs j
  length-copy_in_from number_elements elements (suc k) i total inputs sources ht hl hs j =
      let n = to_copy number_elements elements total in
      let fits : (n ≤ length inputs) × (total + n ≤ number_elements) × (n ≤ elements) =
        ground arith in
      let filled : ℕ → List T = update sources i (take n inputs ++ drop n (sources i)) in
      let size : length (take n inputs ++ drop n (sources i)) ≡ elements = omega (
        arith,
        length-append (take n inputs) (drop n (sources i)),
        length-take n inputs fits.0,
        length-drop n (sources i),
        hs i,
      ) in
      let kept : (l : ℕ) → length (filled l) ≡ elements = λ l. ground (arith, size, hs l) in
      let ih =
        length-copy_in_from number_elements elements k (i + 1) (total + n) (drop n inputs) filled
          fits.1 (omega (arith, length-drop n inputs)) kept j in
      ground (arith, ih, kept j)

  pub copy_out_from-cong :
      (number_elements elements k i total : ℕ) (s t : ℕ → List T)
      → ((j : ℕ) → i ≤ j → j < i + k → s j ≡ t j)
      → copy_out_from number_elements elements k i total s
        ≡ copy_out_from number_elements elements k i total t
  unfolding copy_out_from
  copy_out_from-cong number_elements elements zero i total s t h = refl
  copy_out_from-cong number_elements elements (suc k) i total s t h =
      let n = to_copy number_elements elements total in
      let here = h i (omega arith) (omega arith) in
      let ih =
        copy_out_from-cong number_elements elements k (i + 1) (total + n) s t
          (λ j low high. h j (omega arith) (omega arith)) in
      rw (here, ih) refl

  module _ (functor : T → T → T) where
    pub length-elementwise :
        (xs ys : List T) → length xs ≡ length ys → length (elementwise functor xs ys) ≡ length xs
    unfolding elementwise
    length-elementwise [] ys h = refl
    length-elementwise (x ∷ xs) [] h = absurd (omega arith)
    length-elementwise (x ∷ xs) (y ∷ ys) h = omega (arith, length-elementwise xs ys (omega arith))

    take-elementwise :
        (n : ℕ) (xs ys : List T)
        → take n (elementwise functor xs ys) ≡ elementwise functor (take n xs) (take n ys)
    unfolding elementwise
    take-elementwise zero xs ys = refl
    take-elementwise (suc n) [] ys = refl
    take-elementwise (suc n) (x ∷ xs) [] = refl
    take-elementwise (suc n) (x ∷ xs) (y ∷ ys) =
        ap (λ l. functor x y ∷ l) (take-elementwise n xs ys)

    elementwise-append :
        (xs ys us vs : List T)
        → length xs ≡ length ys
        → elementwise functor (xs ++ us) (ys ++ vs)
          ≡ elementwise functor xs ys ++ elementwise functor us vs
    unfolding elementwise
    elementwise-append [] [] us vs h = refl
    elementwise-append [] (y ∷ ys) us vs h = absurd (omega arith)
    elementwise-append (x ∷ xs) [] us vs h = absurd (omega arith)
    elementwise-append (x ∷ xs) (y ∷ ys) us vs h =
        ap (λ l. functor x y ∷ l) (elementwise-append xs ys us vs (omega arith))

    pub elementwise_assoc :
        ((x y z : T) → functor (functor x y) z ≡ functor x (functor y z))
        → (xs ys zs : List T)
        → elementwise functor (elementwise functor xs ys) zs
          ≡ elementwise functor xs (elementwise functor ys zs)
    unfolding elementwise
    elementwise_assoc assoc [] ys zs = refl
    elementwise_assoc assoc (x ∷ xs) [] zs = refl
    elementwise_assoc assoc (x ∷ xs) (y ∷ ys) [] = refl
    elementwise_assoc assoc (x ∷ xs) (y ∷ ys) (z ∷ zs) =
        rw (assoc x y z, elementwise_assoc assoc xs ys zs) refl

    pub elementwise_comm :
        ((x y : T) → functor x y ≡ functor y x)
        → (xs ys : List T) → elementwise functor xs ys ≡ elementwise functor ys xs
    unfolding elementwise
    elementwise_comm comm [] [] = refl
    elementwise_comm comm [] (y ∷ ys) = refl
    elementwise_comm comm (x ∷ xs) [] = refl
    elementwise_comm comm (x ∷ xs) (y ∷ ys) = rw (comm x y, elementwise_comm comm xs ys) refl

    length-take-eq :
        (n : ℕ) (xs ys : List T) → length xs ≡ length ys → length (take n xs) ≡ length (take n ys)
    length-take-eq zero xs ys h = refl
    length-take-eq (suc n) [] [] h = refl
    length-take-eq (suc n) [] (y ∷ ys) h = absurd (omega arith)
    length-take-eq (suc n) (x ∷ xs) [] h = absurd (omega arith)
    length-take-eq (suc n) (x ∷ xs) (y ∷ ys) h = omega (arith, length-take-eq n xs ys (omega arith))

    copy_out_from-elementwise :
        (number_elements elements k i total : ℕ) (s t : ℕ → List T)
        → ((j : ℕ) → i ≤ j → j < i + k → length (s j) ≡ length (t j))
        → copy_out_from number_elements elements k i total (λ j. elementwise functor (s j) (t j))
          ≡ elementwise functor
              (copy_out_from number_elements elements k i total s)
              (copy_out_from number_elements elements k i total t)
    unfolding copy_out_from
    copy_out_from-elementwise number_elements elements zero i total s t h =
        unfold elementwise in refl
    copy_out_from-elementwise number_elements elements (suc k) i total s t h =
        let n = to_copy number_elements elements total in
        let here = take-elementwise n (s i) (t i) in
        let same = length-take-eq n (s i) (t i) (h i (omega arith) (omega arith)) in
        let ih =
          copy_out_from-elementwise number_elements elements k (i + 1) (total + n) s t
            (λ j low high. h j (omega arith) (omega arith)) in
        elim (Bool-cases (leb number_elements (total + n))) [
          | inl last ↦ rw (last, here) refl
          | inr more ↦
              rw (more, here, ih) (sym (elementwise-append (take n (s i)) (take n (t i)) _ _ same))
        ]

    length-reduce_from :
        (f : ℕ → List T) (m start d : ℕ)
        → ((k : ℕ) → length (f k) ≡ m)
        → length (reduce_from (elementwise functor) f start d) ≡ m
    unfolding reduce_from
    length-reduce_from f m start zero h = h start
    length-reduce_from f m start (suc d) h =
        let ih = length-reduce_from f m start d h in
        length-elementwise (f (start + suc d)) (reduce_from (elementwise functor) f start d)
          (h (start + suc d) ∙ sym ih)
        ∙ h (start + suc d)

    -- Reducing the chunks and copying them out is copying them out and reducing what comes.
    pub copy_out_from-reduce_from :
        (number_elements elements count m d : ℕ) (input : ℕ → ℕ → List T)
        → ((k j : ℕ) → length (input k j) ≡ m)
        → copy_out_from number_elements elements count 0 0
            (λ j. reduce_from (elementwise functor) (λ k. input k j) 0 d)
          ≡ reduce_from
              (elementwise functor)
              (λ k. copy_out_from number_elements elements count 0 0 (input k))
              0
              d
    unfolding reduce_from
    copy_out_from-reduce_from number_elements elements count m zero input h = refl
    copy_out_from-reduce_from number_elements elements count m (suc d) input h =
        copy_out_from-elementwise number_elements elements count 0 0 (input (0 + suc d))
          (λ j. reduce_from (elementwise functor) (λ k. input k j) 0 d)
          (λ j low high.
            h (0 + suc d) j ∙ sym (length-reduce_from (λ k. input k j) m 0 d (λ k. h k j)))
        ∙ ap
            (elementwise functor
              (copy_out_from number_elements elements count 0 0 (input (0 + suc d))))
            (copy_out_from-reduce_from number_elements elements count m d input h)

    pub reduce_from-cong :
        (f g : ℕ → List T) (n start d : ℕ)
        → start + d < n
        → ((k : ℕ) → k < n → f k ≡ g k)
        → reduce_from (elementwise functor) f start d ≡ reduce_from (elementwise functor) g start d
    unfolding reduce_from
    reduce_from-cong f g n start zero hd h = h start (omega arith)
    reduce_from-cong f g n start (suc d) hd h =
        rw (h (start + suc d) hd, reduce_from-cong f g n start d (omega arith) h) refl
