-- ===== src/Group/Members.antt =====
-- src/group/Group.cpp: a group as the list of its global ranks. The rank of the calling process, which
-- `gaspi_proc_rank` gives, is an argument of the constructor.
pub mod Laws
use gaspi_cxx.Common.{
  ℕ, zero, suc, Bool, true, false, List, [], ◌∷◌, Option, none, some, Result, ok, err,
  runtime_error, ltb, leb, ◌==◌, if◌then◌else◌, length, get_elem?, not,
}
use gaspi_cxx.Group.Rank
use gaspi_cxx.Group.Rank.{less}

pub record Group : Type 0 where
  pub members : List ℕ
  pub group_rank : ℕ

abbrev pub suc? : Option ℕ → Option ℕ
suc? none = none
suc? (some i) = some (suc i)

-- `std::find` and `std::distance`
unfoldable pub index_of : ℕ → List ℕ → Option ℕ
index_of g [] = none
index_of g (x ∷ xs) = if x == g then some 0 else suc? (index_of g xs)

-- `std::iota` from 0
pub iota : ℕ → ℕ → List ℕ
iota start zero = []
iota start (suc n) = start ∷ iota (suc start) n

pub generate_group_all : ℕ → List ℕ
unfolding iota
generate_group_all n_proc = iota 0 n_proc

unfoldable pub contains_global_rank : List ℕ → ℕ → Bool
unfolding index_of
contains_global_rank members g = elim (index_of g members) [ none ↦ false | some _ ↦ true ]

-- The number of elements of `std::unordered_set(members)`
unfoldable pub unique_size : List ℕ → ℕ
unfolding contains_global_rank
unique_size [] = 0
unique_size (x ∷ xs) = if contains_global_rank xs x then unique_size xs else suc (unique_size xs)

abbrev at_rank : List ℕ → Option ℕ → Result Group
at_rank members none = err runtime_error
at_rank members (some i) = ok (record { members = members; group_rank = Rank.make i })

unfoldable pub construct : List ℕ → ℕ → Result Group
construct group_ranks global_rank =
    if length group_ranks == 0
    then err runtime_error
    else if not (unique_size group_ranks == length group_ranks)
    then err runtime_error
    else at_rank group_ranks (index_of global_rank group_ranks)

unfoldable pub contains_rank : Group → ℕ → Bool
contains_rank g rank = less rank (Rank.make (length g.members))

abbrev or_error : Option ℕ → Result ℕ
or_error none = err runtime_error
or_error (some i) = ok i

unfoldable pub to_global_rank : Group → ℕ → Result ℕ
to_global_rank g group_rank =
    if leb (length g.members) group_rank
    then err runtime_error
    else or_error (get_elem? g.members group_rank)

abbrev as_rank : Option ℕ → Result ℕ
as_rank none = err runtime_error
as_rank (some i) = ok (Rank.make i)

unfoldable pub to_group_rank : Group → ℕ → Result ℕ
to_group_rank g global_rank = as_rank (index_of global_rank g.members)
