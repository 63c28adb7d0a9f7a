-- ===== src/Membership/Members.antt =====
-- spread-src-4.4.0/daemon/membership.c: Insert_member, Smallest_member and Sort_members. A members_info
-- is the list of its first `num_members` members. `none` is the end of the process by an alarm.
pub mod Smallest
pub mod Sorted
pub mod Insert
use mathlib.Core.Option
use tf.Prelude.{
  ℕ, zero, suc, ◌+◌, Bool, true, false, ◌&&◌, ◌||◌, ◌==◌, ltb, if◌then◌else◌, Option, none, some,
  List, [], ◌∷◌, ◌++◌, length, get_or, set,
}
use tf.Configuration.{Proc, Configuration, proc_by_id_in_conf}
use tf.Membership.{contains}
use tf.Membership.Selection.{selection}
use tf.Protocol.State.{max_procs_ring}

-- Whether the member is new, and the members.
unfoldable pub insert_member : List ℕ → ℕ → Bool × List ℕ
unfolding contains
insert_member m proc_id =
    if contains m proc_id
    then (false, m)
    else if length m == max_procs_ring
    then (false, m)
    else (true, m ++ (proc_id ∷ []))

-- The order of the daemons in the configuration.
unfoldable pub stands_before : Proc → Proc → Bool
stands_before p q =
    ltb p.seg_index q.seg_index || p.seg_index == q.seg_index && ltb p.index_in_seg q.index_in_seg

-- The loop of Smallest_member over the members from the index `i` on.
unfoldable pub smallest_from :
    Configuration → (curr_proc : Proc) → (current i : ℕ) → List ℕ → Option ℕ
unfolding proc_by_id_in_conf stands_before
smallest_from cn curr_proc current i [] = some current
smallest_from cn curr_proc current i (x ∷ xs) = elim (proc_by_id_in_conf cn x) [
  | none ↦ none
  | some (_, i_proc) ↦
      let moved = smallest_from cn i_proc i (i + 1) xs in
      let kept = smallest_from cn curr_proc current (i + 1) xs in
      if stands_before i_proc curr_proc then moved else kept
]

-- The index of the smallest member. Sort_members does not ask for that of no members.
unfoldable pub smallest_member : Configuration → List ℕ → Option ℕ
unfolding smallest_from proc_by_id_in_conf
smallest_member cn [] = none
smallest_member cn (x ∷ xs) = elim (proc_by_id_in_conf cn x) [
  | none ↦ none
  | some (_, p) ↦ smallest_from cn p 0 1 xs
]

-- As many rounds as there are members.
unfoldable pub sort_members : Configuration → List ℕ → Option (List ℕ)
unfolding selection smallest_member
sort_members cn m = selection (smallest_member cn) 0 (length m) m
