-- ===== src/Tests/Reps.antt =====
-- The reps of the segments at concrete inputs.
use mathlib.Core.Option
use tf.Prelude.{ℕ, ◌≡◌, ◌↔◌, ◌⊎◌, refl, arith, Bool, true, false, none, some, List, [], ◌∷◌, All}
use tf.Configuration.{proc_by_id_in_conf}
use tf.Membership.Reps.{
  RepInfo, potential_rep, seg_rep, ring_rep, no_rep, insert_rep, sort_reps, smallest_rep,
  takes_over,
}
use tf.Membership.Reps.Insert.{
  IsReps, IsRepOf, Inserted, is_type, insert_rep-Inserted, insert_rep-exits,
}
use tf.Membership.Selection.{Sorted, selection}
use tf.Membership.Reps.Smallest.{IsSettled, rep_before, sort_reps-Sorted}
use tf.Tests.Data.{config, daemon}

abbrev rep : ℕ → ℕ → ℕ → RepInfo
rep proc_id type seg_index = record { proc_id = proc_id; type = type; seg_index = seg_index }

-- A potential rep of the last segment, and a rep of the first.
abbrev gathered : List RepInfo
gathered = rep 30 potential_rep 2 ∷ rep 10 ring_rep 0 ∷ []

IsReps-gathered : IsReps gathered
IsReps-gathered = record {
  few = omega arith;
  typed = (refl, (refl, tt));
  separate = ((refl, tt), (tt, tt));
}

IsRepOf-30 : IsRepOf config (rep 30 seg_rep 2) (daemon 30 2 0)
unfolding proc_by_id_in_conf
IsRepOf-30 = record { index = 2; known = refl; own_id = refl; own_seg = refl }

insert_rep-gathered :
    insert_rep config (rep 30 seg_rep 2) gathered
    ≡ some (true, rep 30 seg_rep 2 ∷ rep 10 ring_rep 0 ∷ [])
unfolding insert_rep proc_by_id_in_conf
insert_rep-gathered = refl

insert_rep-Inserted_example :
    (new : Bool) × (r' : List RepInfo) × (insert_rep config (rep 30 seg_rep 2) gathered
      ≡ some (new, r'))
    × Inserted (rep 30 seg_rep 2) gathered r'
insert_rep-Inserted_example =
    insert_rep-Inserted config (rep 30 seg_rep 2) (daemon 30 2 0) gathered IsRepOf-30 refl
      IsReps-gathered

insert_rep-exits_example :
    (insert_rep config (rep 40 seg_rep 2) gathered ≡ none)
    ↔ ((proc_by_id_in_conf config 40 ≡ none) ⊎ (is_type (rep 40 seg_rep 2) ≡ false))
insert_rep-exits_example = insert_rep-exits config (rep 40 seg_rep 2) gathered

-- Two reps of rings and one of a segment.
abbrev settled : List RepInfo
settled = rep 20 ring_rep 0 ∷ rep 10 ring_rep 0 ∷ rep 30 seg_rep 2 ∷ []

IsSettled-settled : All (IsSettled config) settled
unfolding proc_by_id_in_conf
IsSettled-settled = (
  ((1, daemon 20 0 1, refl), refl),
  (((0, daemon 10 0 0, refl), refl), (((2, daemon 30 2 0, refl), refl), tt)),
)

sort_reps-settled :
    sort_reps config settled ≡ some (rep 30 seg_rep 2 ∷ rep 10 ring_rep 0 ∷ rep 20 ring_rep 0 ∷ [])
unfolding sort_reps smallest_rep takes_over proc_by_id_in_conf selection Option.bind
sort_reps-settled = refl

sort_reps-Sorted_example : Sorted no_rep (rep_before config) settled (sort_reps config settled)
sort_reps-Sorted_example = sort_reps-Sorted config settled IsSettled-settled
