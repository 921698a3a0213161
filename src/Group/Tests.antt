-- ===== src/Group/Tests.antt =====
-- Runs of the group operations on a small group, and the theorems at those inputs.
use gaspi_cxx.Common.{
  ℕ, ◌<◌, ◌≡◌, ◌↔◌, refl, true, false, List, [], ◌∷◌, ok, err, runtime_error, arith, length,
}
use gaspi_cxx.Group.Rank
use gaspi_cxx.Group.Rank.Laws as RankLaws
use gaspi_cxx.Group.Ring.{increment_index_on_ring, decrement_index_on_ring}
use gaspi_cxx.Group.Ring.Laws as RingLaws
use gaspi_cxx.Group.Members.{
  Group, construct, index_of, unique_size, contains_global_rank, contains_rank, to_global_rank,
  to_group_rank,
}
use gaspi_cxx.Group.Members.Laws as MembersLaws

-- Three processes of a larger job, seen from the process of global rank 2.
abbrev ranks : List ℕ
ranks = 5 ∷ 2 ∷ 7 ∷ []

abbrev three : Group
three = record { members = ranks; group_rank = 1 }

three_run : construct ranks 2 ≡ ok three
unfolding construct index_of unique_size contains_global_rank Rank.make
three_run = refl

duplicate_run : construct (5 ∷ 2 ∷ 5 ∷ []) 2 ≡ err runtime_error
unfolding construct index_of unique_size contains_global_rank
duplicate_run = refl

three-IsValid : MembersLaws.IsValid 2 three
three-IsValid = (MembersLaws.construct_members ranks 2 three (omega arith) three_run).0

to_group_rank_run : to_group_rank three 7 ≡ ok 2
unfolding to_group_rank index_of Rank.make
to_group_rank_run = refl

construct_members_example : MembersLaws.IsValid 2 three × (three.members ≡ ranks)
construct_members_example = MembersLaws.construct_members ranks 2 three (omega arith) three_run

abbrev place : ℕ
place = 1

construct_distinct_example : place ≡ place
construct_distinct_example =
    MembersLaws.construct_distinct ranks 2 place place 2 three three_run refl refl

to_group_rank-to_global_rank_example :
    (a : ℕ) × (to_global_rank three 2 ≡ ok a) × (to_group_rank three a ≡ ok 2)
to_group_rank-to_global_rank_example =
    MembersLaws.to_group_rank-to_global_rank 2 three 2 three-IsValid (omega arith)

to_global_rank-to_group_rank_example : (2 < length three.members) × (to_global_rank three 2 ≡ ok 7)
to_global_rank-to_group_rank_example =
    MembersLaws.to_global_rank-to_group_rank 2 three 7 2 three-IsValid to_group_rank_run

contains_rank_iff_example :
    ((contains_rank three 3 ≡ true) ↔ (3 < length three.members))
    × ((contains_rank three 3 ≡ false) ↔ (to_global_rank three 3 ≡ err runtime_error))
contains_rank_iff_example = MembersLaws.contains_rank_iff 2 three 3 three-IsValid

increment-decrement_example :
    (increment_index_on_ring 4 5 < 5)
    × (decrement_index_on_ring 4 5 < 5)
    × (decrement_index_on_ring (increment_index_on_ring 4 5) 5 ≡ 4)
    × (increment_index_on_ring (decrement_index_on_ring 4 5) 5 ≡ 4)
increment-decrement_example = RingLaws.increment-decrement 4 5 (omega arith) (omega arith)

subtract-add_example :
    (Rank.subtract (Rank.add 60000 9000) 9000 ≡ 60000)
    × (Rank.add (Rank.subtract 60000 9000) 9000 ≡ 60000)
    × (Rank.decrement (Rank.increment 60000) ≡ 60000)
subtract-add_example = RankLaws.subtract-add 60000 9000 (omega arith) (omega arith)

abbrev low : ℕ
low = 3

abbrev high : ℕ
high = 4
