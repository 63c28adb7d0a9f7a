-- ===== src/Tests/Members.antt =====
-- The members of a membership at concrete inputs.
use mathlib.Core.Option
use tf.Prelude.{ℕ, ◌≡◌, ◌⊎◌, arith, refl, true, false, some, List, [], ◌∷◌, ◌++◌, All}
use tf.Configuration.{proc_by_id_in_conf}
use tf.Membership.{contains}
use tf.Protocol.State.{max_procs_ring}
use tf.Membership.Members.{insert_member, sort_members, stands_before}
use tf.Membership.Members.Smallest.{IsKnown}
use tf.Membership.Members.Sorted.{SortedOf, sort_members-SortedOf}
use tf.Membership.Members.Insert.{IsMembers, insert_member-IsMembers}
use tf.Tests.Data.{config, daemon}

abbrev members : List ℕ
members = 30 ∷ 10 ∷ 20 ∷ []

IsKnown-members : All (IsKnown config) members
unfolding proc_by_id_in_conf
IsKnown-members =
    ((2, daemon 30 2 0, refl), ((0, daemon 10 0 0, refl), ((1, daemon 20 0 1, refl), tt)))

sort_members-members : sort_members config members ≡ some (10 ∷ 20 ∷ 30 ∷ [])
unfolding sort_members stands_before proc_by_id_in_conf Option.bind
sort_members-members = refl

sort_members-SortedOf_example : SortedOf config members (sort_members config members)
sort_members-SortedOf_example = sort_members-SortedOf config members IsKnown-members

IsMembers-members : IsMembers members
IsMembers-members = record { few = omega arith; once = λ id. ground arith }

insert_member-IsMembers_example :
    let (new, m') = insert_member members 40 in
    IsMembers m'
    × (((new ≡ true) × (m' ≡ members ++ (40 ∷ [])))
        ⊎ ((new ≡ false) × (m' ≡ members) × ((contains members 40 ≡ true) ⊎ (3 ≡ max_procs_ring))))
insert_member-IsMembers_example = insert_member-IsMembers members 40 IsMembers-members
