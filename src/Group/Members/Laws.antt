-- ===== src/Group/Members/Laws.antt =====
-- The constructor of src/group/Group.cpp, and its translations between group ranks and global ranks.
use gaspi_cxx.Common.{
  ℕ, zero, suc, ◌<◌, ◌≤◌, ◌≡◌, ◌↔◌, true, false, List, [], ◌∷◌, some, ok, err, runtime_error, arith,
  length, get_elem?, ushort_mod, Option-cases, inl, inr, get_elem?-lt_length, dec_lt, ℕ_discrete,
}
use gaspi_cxx.Group.Rank
use gaspi_cxx.Group.Members.{
  Group, index_of, unique_size, contains_global_rank, construct, contains_rank, to_global_rank,
  to_group_rank,
}

get_elem?-index_of :
    (g : ℕ) (xs : List ℕ) (i : ℕ)
    → index_of g xs ≡ some i
    → (i < length xs) × (get_elem? xs i ≡ some g)
unfolding index_of
get_elem?-index_of g [] i e = cc
get_elem?-index_of g (x ∷ xs) i e = elim (Option-cases (index_of g xs)) [
  | inl e' ↦ ground arith
  | inr (j, e') ↦ ground (arith, get_elem?-index_of g xs j e')
]

index_of-contains :
    (g : ℕ) (xs : List ℕ) (i : ℕ) → get_elem? xs i ≡ some g → contains_global_rank xs g ≡ true
unfolding contains_global_rank index_of
index_of-contains g [] i e = cc
index_of-contains g (x ∷ xs) zero e = ground arith
index_of-contains g (x ∷ xs) (suc i) e = ground (arith, index_of-contains g xs i e)

unique_size-le : (xs : List ℕ) → unique_size xs ≤ length xs
unfolding unique_size
unique_size-le [] = omega arith
unique_size-le (x ∷ xs) = ground (arith, unique_size-le xs)

index_of-get_elem? :
    (g : ℕ) (xs : List ℕ) (i : ℕ)
    → unique_size xs ≡ length xs
    → get_elem? xs i ≡ some g
    → index_of g xs ≡ some i
unfolding unique_size index_of
index_of-get_elem? g [] i u e = cc
index_of-get_elem? g (x ∷ xs) zero u e = ground arith
index_of-get_elem? g (x ∷ xs) (suc i) u e =
    ground (arith, index_of-get_elem? g xs i, index_of-contains g xs i e, unique_size-le xs)

-- What the constructor establishes, for the process of global rank `me`.
pub record IsValid (me : ℕ) (g : Group) : Type 0 where
  pub unique : unique_size g.members ≡ length g.members
  pub fits : length g.members < ushort_mod
  pub own : get_elem? g.members g.group_rank ≡ some me
  pub own_in : g.group_rank < length g.members

-- The constructor accepts no list in which a global rank stands at two places.
pub construct_distinct :
    (ranks : List ℕ) (me i j a : ℕ) (g : Group)
    → construct ranks me ≡ ok g
    → get_elem? ranks i ≡ some a
    → get_elem? ranks j ≡ some a
    → i ≡ j
unfolding construct
construct_distinct ranks me i j a g e p q = elim (ℕ_discrete (unique_size ranks) (length ranks)) [
  | yes u ↦ ground (arith, index_of-get_elem? a ranks i u p, index_of-get_elem? a ranks j u q)
  | no u ↦ ground arith
]

-- A group that the constructor makes of fewer than 2 ^ 16 global ranks has those members in their
-- order, without repetition, and its own rank is the place of the calling process among them.
pub construct_members :
    (ranks : List ℕ) (me : ℕ) (g : Group)
    → length ranks < ushort_mod
    → construct ranks me ≡ ok g
    → IsValid me g × (g.members ≡ ranks)
unfolding construct Rank.make
construct_members ranks me g h e = elim (Option-cases (index_of me ranks)) [
  | inl e' ↦ ground arith
  | inr (i, e') ↦ ground (arith, get_elem?-index_of me ranks i e')
]

-- In a valid group every rank below the size has a global rank, which translates back to it.
pub to_group_rank-to_global_rank :
    (me : ℕ) (g : Group) (r : ℕ)
    → IsValid me g
    → r < length g.members
    → (a : ℕ) × (to_global_rank g r ≡ ok a) × (to_group_rank g a ≡ ok r)
unfolding to_global_rank to_group_rank Rank.make
to_group_rank-to_global_rank me g r v h =
    let (a, e) = get_elem?-lt_length g.members r h in
    (a, ground arith, ground (arith, index_of-get_elem? a g.members r v.unique e, v.fits))

-- In a valid group a global rank that translates to a rank is the one found at that rank, which is below
-- the size.
pub to_global_rank-to_group_rank :
    (me : ℕ) (g : Group) (a r : ℕ)
    → IsValid me g
    → to_group_rank g a ≡ ok r
    → (r < length g.members) × (to_global_rank g r ≡ ok a)
unfolding to_global_rank to_group_rank Rank.make
to_global_rank-to_group_rank me g a r v e = elim (Option-cases (index_of a g.members)) [
  | inl e' ↦ ground arith
  | inr (i, e') ↦ ground (arith, get_elem?-index_of a g.members i e', v.fits)
]

-- In a valid group `contains_rank` and `toGlobalRank` accept the same ranks, those below the size.
pub contains_rank_iff :
    (me : ℕ) (g : Group) (r : ℕ)
    → IsValid me g
    → ((contains_rank g r ≡ true) ↔ (r < length g.members))
      × ((contains_rank g r ≡ false) ↔ (to_global_rank g r ≡ err runtime_error))
unfolding contains_rank to_global_rank Rank.make Rank.less
contains_rank_iff me g r v = elim (dec_lt r (length g.members)) [
  | yes h ↦ ground (arith, v.fits, get_elem?-lt_length g.members r h)
  | no h ↦ ground (arith, v.fits)
]
