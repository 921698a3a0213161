-- ===== src/Collectives/AllreduceRing/Copies.antt =====
-- The loops of `copyInImpl` and `copyOutImpl` of AllreduceRing.hpp for more than one rank, over buffers that
-- hold lists of elements. The `elements` of a buffer are `buffer->description().size() / sizeof(T)`.
use gaspi_cxx.Common.{
  take, drop, length-drop, ℕ, zero, suc, ◌+◌, ◌-◌, ◌*◌, ◌/◌, ◌<◌, ◌≤◌, ◌≡◌, refl, ap, ◌∙◌, false,
  List, [], ◌∷◌, ◌++◌, arith, ltb, leb, ◌==◌, if◌then◌else◌, length, dec_le, ◌&&◌, ℕ_discrete,
}
use gaspi_cxx.Common.Families.{update}
use gaspi_cxx.Collectives.LowLevel.{Impl}
use gaspi_cxx.Collectives.AllreduceRing.{Ring, start_impl, trigger_progress_impl}

unfoldable pub ceil_div : ℕ → ℕ → ℕ
ceil_div a b = (a + b - 1) / b

pub le-ceil_div : (a b : ℕ) → 0 < b → a ≤ b * ceil_div a b
unfolding ceil_div
le-ceil_div a b h = grind arith

-- `elements_to_copy`
abbrev pub to_copy : ℕ → ℕ → ℕ → ℕ
to_copy number_elements elements total =
    if ltb number_elements (total + elements) then number_elements - total else elements

module _ {T : Type 0} where
  -- The loop of `copyInImpl` over `k` buffers from buffer `i` on.
  unfoldable pub copy_in_from : ℕ → ℕ → ℕ → ℕ → ℕ → List T → (ℕ → List T) → ℕ → List T
  copy_in_from number_elements elements zero i total inputs sources = sources
  copy_in_from number_elements elements (suc k) i total inputs sources =
      let n = to_copy number_elements elements total in
      let filled = update sources i (take n inputs ++ drop n (sources i)) in
      let rest =
        copy_in_from number_elements elements k (i + 1) (total + n) (drop n inputs) filled in
      if leb number_elements (total + n) then filled else rest

  -- The loop of `copyOutImpl`: the elements that it writes.
  unfoldable pub copy_out_from : ℕ → ℕ → ℕ → ℕ → ℕ → (ℕ → List T) → List T
  copy_out_from number_elements elements zero i total sources = []
  copy_out_from number_elements elements (suc k) i total sources =
      let n = to_copy number_elements elements total in
      let rest = copy_out_from number_elements elements k (i + 1) (total + n) sources in
      if leb number_elements (total + n) then take n (sources i) else take n (sources i) ++ rest

  pub take-append : (n : ℕ) (xs ys : List T) → n ≤ length xs → take n (take n xs ++ ys) ≡ take n xs
  take-append zero xs ys h = refl
  take-append (suc n) [] ys h = absurd (omega arith)
  take-append (suc n) (x ∷ xs) ys h = ap (λ l. x ∷ l) (take-append n xs ys (omega arith))

  pub take-drop : (n : ℕ) (xs : List T) → take n xs ++ drop n xs ≡ xs
  take-drop zero xs = refl
  take-drop (suc n) [] = refl
  take-drop (suc n) (x ∷ xs) = ap (λ l. x ∷ l) (take-drop n xs)

  pub take_all : (n : ℕ) (xs : List T) → length xs ≡ n → take n xs ≡ xs
  take_all zero [] h = refl
  take_all zero (x ∷ xs) h = absurd (omega arith)
  take_all (suc n) [] h = refl
  take_all (suc n) (x ∷ xs) h = ap (λ l. x ∷ l) (take_all n xs (omega arith))

  -- The buffers before `i` are left alone.
  copy_in_from_below :
      (number_elements elements k i total j : ℕ) (inputs : List T) (sources : ℕ → List T)
      → j < i
      → copy_in_from number_elements elements k i total inputs sources j ≡ sources j
  unfolding copy_in_from
  copy_in_from_below number_elements elements zero i total j inputs sources h = refl
  copy_in_from_below number_elements elements (suc k) i total j inputs sources h =
      let n = to_copy number_elements elements total in
      let filled : ℕ → List T = update sources i (take n inputs ++ drop n (sources i)) in
      let below : filled j ≡ sources j = ground arith in
      let ih =
        copy_in_from_below number_elements elements k (i + 1) (total + n) j (drop n inputs) filled
          (omega arith) in
      ground (arith, below, ih)

  pub copy_out_from-copy_in_from :
      (number_elements elements k i total : ℕ) (inputs : List T) (sources : ℕ → List T)
      → total ≤ number_elements
      → length inputs ≡ number_elements - total
      → number_elements ≤ total + k * elements
      → copy_out_from number_elements elements k i total
          (copy_in_from number_elements elements k i total inputs sources)
        ≡ inputs
  unfolding copy_in_from copy_out_from
  copy_out_from-copy_in_from number_elements elements zero i total [] sources ht hl hk = refl
  copy_out_from-copy_in_from number_elements elements zero i total (x ∷ xs) sources ht hl hk =
      absurd (omega arith)
  copy_out_from-copy_in_from number_elements elements (suc k) i total inputs sources ht hl hk =
      let n = to_copy number_elements elements total in
      let filled : ℕ → List T = update sources i (take n inputs ++ drop n (sources i)) in
      let fits : (n ≤ length inputs) × (total + n ≤ number_elements) = ground arith in
      let now : filled i ≡ take n inputs ++ drop n (sources i) = ground arith in
      let mine : take n (filled i) ≡ take n inputs =
        ap (take n) now ∙ take-append n inputs (drop n (sources i)) fits.0 in
      elim (dec_le number_elements (total + n)) [
        | yes last ↦
            let whole : take n inputs ≡ inputs = take_all n inputs (omega arith) in
            ground (arith, mine, whole)
        | no more ↦
            let full : n ≡ elements = ground arith in
            let left_over : number_elements ≤ total + n + k * elements = ground arith in
            let size = length-drop n inputs in
            let ih =
              copy_out_from-copy_in_from number_elements elements k (i + 1) (total + n)
                (drop n inputs) filled fits.1 (omega arith) left_over in
            let below =
              copy_in_from_below number_elements elements k (i + 1) (total + n) i (drop n inputs)
                filled (omega arith) in
            let joined = take-drop n inputs in
            let front : take n (
                  copy_in_from number_elements elements k (i + 1) (total + n) (drop n inputs) filled
                    i)
                ≡ take n inputs =
              ap (take n) below ∙ mine in
            let test : leb number_elements (total + n) ≡ false = ground arith in
            rw (test, front, ih) joined
      ]

-- The number of buffers that the constructor makes.
abbrev pub buffer_count : {T : Type 0} → Ring (List T) → ℕ
buffer_count r = if ltb 0 r.number_elements && ltb 1 r.number_ranks then r.number_ranks else 0

-- The elements of one buffer.
abbrev pub buffer_elements : {T : Type 0} → Ring (List T) → ℕ
buffer_elements r = ceil_div r.number_elements r.number_ranks

module _ {T : Type 0} where
  unfoldable pub copy_in_impl : List T → Ring (List T) → Ring (List T)
  unfolding copy_in_from ceil_div
  copy_in_impl inputs r =
      if r.number_ranks == 1
      then record r { data_for_1rank_case = take r.number_elements inputs }
      else record r {
        sources =
            copy_in_from r.number_elements (buffer_elements r) (buffer_count r) 0 0 inputs
              r.sources;
      }

  unfoldable pub copy_out_impl : Ring (List T) → List T
  unfolding copy_out_from ceil_div
  copy_out_impl r =
      if r.number_ranks == 1
      then r.data_for_1rank_case
      else copy_out_from r.number_elements (buffer_elements r) (buffer_count r) 0 0 r.sources

  -- On a rank of a group of at least one rank, the copy of as many elements as the collective has into the
  -- buffers, and the copy out of the buffers, gives the same elements back: the padded chunks hold
  -- all of them, each once, in order. No element at all is a case of this.
  pub copy_out_impl-copy_in_impl :
      (r : Ring (List T)) (inputs : List T)
      → 0 < r.number_ranks
      → length inputs ≡ r.number_elements
      → copy_out_impl (copy_in_impl inputs r) ≡ inputs
  unfolding copy_out_impl copy_in_impl
  copy_out_impl-copy_in_impl r inputs hn hl =
      let n = r.number_ranks in
      let N = r.number_elements in
      elim (ℕ_discrete n 1) [
        | yes single ↦ ground (arith, take_all N inputs hl)
        | no several ↦
            let enough : N ≤ 0 + buffer_count r * ceil_div N n =
              ground (arith, le-ceil_div N n hn) in
            let back =
              copy_out_from-copy_in_from N (ceil_div N n) (buffer_count r) 0 0 inputs r.sources
                (omega arith) (omega arith) enough in
            ground (arith, back)
      ]

  -- `std::transform` of `apply_reduce_op`, on a source and a target of the same size.
  unfoldable pub elementwise : (T → T → T) → List T → List T → List T
  elementwise functor [] targets = []
  elementwise functor (x ∷ sources) [] = []
  elementwise functor (x ∷ sources) (y ∷ targets) =
      functor x y ∷ elementwise functor sources targets

  -- The methods for the life cycle of CollectiveLowLevel.cpp. The setup changes nothing that the
  -- algorithm reads.
  unfoldable pub implementation : (T → T → T) → Impl (Ring (List T)) (List T) (List T)
  unfolding copy_in_impl copy_out_impl elementwise start_impl trigger_progress_impl
  implementation functor = record {
    wait_for_setup_impl = λ r. r;
    copy_in_impl = copy_in_impl;
    start_impl = start_impl;
    trigger_progress_impl = trigger_progress_impl (elementwise functor);
    copy_out_impl = λ r. (r, copy_out_impl r);
  }
