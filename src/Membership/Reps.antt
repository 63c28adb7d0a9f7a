-- ===== src/Membership/Reps.antt =====
-- spread-src-4.4.0/daemon/membership.c: Insert_rep, Smallest_rep and Sort_reps. A reps_info is the
-- list of its first `num_reps` reps. `none` is the end of the process by an alarm.
pub mod Insert
pub mod Smallest
use mathlib.Core.Option
use tf.Prelude.{
  ℕ, ◌+◌, Bool, true, false, ◌&&◌, ◌||◌, ◌==◌, ltb, if◌then◌else◌, Option, none, some, List, [],
  ◌∷◌, ◌++◌, length,
}
use tf.Configuration.{Proc, Configuration, proc_by_id_in_conf}
use tf.Membership.Selection.{selection}

-- POTENTIAL_REP, SEG_REP, RING_REP
abbrev pub potential_rep : ℕ
potential_rep = 0

abbrev pub seg_rep : ℕ
seg_rep = 1

abbrev pub ring_rep : ℕ
ring_rep = 2

abbrev pub max_reps : ℕ
max_reps = 25

-- `type` and `seg_index` may come from a packet.
pub record RepInfo : Type 0 where
  pub proc_id : ℕ
  pub type : ℕ
  pub seg_index : ℕ

-- Is there a rep of the segment?
unfoldable pub has_seg : List RepInfo → ℕ → Bool
has_seg [] seg_index = false
has_seg (x ∷ xs) seg_index = x.seg_index == seg_index || has_seg xs seg_index

-- The loops for a rep of a segment or of a ring: the result, or `none` where the loop ends without
-- one.
unfoldable pub seg_loop : Proc → List RepInfo → Option (Bool × List RepInfo)
seg_loop p [] = none
seg_loop p (x ∷ xs) =
    let rest = Option.map (λ (new, ys). (new, x ∷ ys)) (seg_loop p xs) in
    if x.seg_index == p.seg_index
    then (if x.type == potential_rep
        then some (true, record x { type = seg_rep; proc_id = p.id } ∷ xs)
        else if x.type == seg_rep
        then (if x.proc_id == p.id then some (false, x ∷ xs) else rest)
        else if x.type == ring_rep && x.proc_id == p.id
        then some (true, record x { type = seg_rep } ∷ xs)
        else rest)
    else rest

unfoldable pub ring_loop : Proc → List RepInfo → Option (Bool × List RepInfo)
ring_loop p [] = none
ring_loop p (x ∷ xs) =
    let rest = Option.map (λ (new, ys). (new, x ∷ ys)) (ring_loop p xs) in
    if x.seg_index == p.seg_index
    then (if x.type == potential_rep
        then some (true, record x { type = ring_rep; proc_id = p.id } ∷ xs)
        else if x.type == seg_rep
        then (if x.proc_id == p.id then some (true, record x { type = ring_rep } ∷ xs) else rest)
        else if x.type == ring_rep && x.proc_id == p.id
        then some (false, x ∷ xs)
        else rest)
    else rest

-- Behind the loops.
unfoldable pub add_rep : RepInfo → List RepInfo → Bool × List RepInfo
add_rep rep r = if length r == max_reps then (false, r) else (true, r ++ (rep ∷ []))

unfoldable pub loop_or_add :
    RepInfo → List RepInfo → Option (Bool × List RepInfo) → Bool × List RepInfo
unfolding add_rep
loop_or_add rep r (some result) = result
loop_or_add rep r none = add_rep rep r

-- Whether something changed, and the reps.
unfoldable pub insert_rep : Configuration → RepInfo → List RepInfo → Option (Bool × List RepInfo)
unfolding proc_by_id_in_conf has_seg seg_loop ring_loop add_rep loop_or_add
insert_rep cn rep r = elim (proc_by_id_in_conf cn rep.proc_id) [
  | none ↦ none
  | some (_, p) ↦
      if rep.type == potential_rep
      then some (if has_seg r p.seg_index then (false, r) else add_rep rep r)
      else if rep.type == seg_rep
      then some (loop_or_add rep r (seg_loop p r))
      else if rep.type == ring_rep
      then some (loop_or_add rep r (ring_loop p r))
      else none
]

-- Does the rep `x` take the place of the current one? `none`: an alarm ends the process, or a place
-- in a segment is read of a daemon that was not found.
unfoldable pub takes_over : Configuration → (x curr : RepInfo) → Option Bool
unfolding proc_by_id_in_conf
takes_over cn x curr =
    if curr.type == seg_rep
    then some (x.type == seg_rep && ltb x.seg_index curr.seg_index)
    else if curr.type == ring_rep
    then (if x.type == ring_rep
        then (if ltb x.seg_index curr.seg_index
            then some true
            else if x.seg_index == curr.seg_index
            then (elim (proc_by_id_in_conf cn curr.proc_id) [
              | none ↦ none
              | some (_, curr_p) ↦ elim (proc_by_id_in_conf cn x.proc_id) [
                | none ↦ none
                | some (_, i_p) ↦ some (ltb i_p.index_in_seg curr_p.index_in_seg)
              ]
            ])
            else some false)
        else some (x.type == seg_rep))
    else none

-- The loop of Smallest_rep over the reps from the index `i` on.
unfoldable pub smallest_rep_from :
    Configuration → (curr : RepInfo) (current i : ℕ) → List RepInfo → Option (ℕ × RepInfo)
unfolding takes_over
smallest_rep_from cn curr current i [] = some (current, curr)
smallest_rep_from cn curr current i (x ∷ xs) =
    let moved = smallest_rep_from cn x i (i + 1) xs in
    let kept = smallest_rep_from cn curr current (i + 1) xs in
    Option.bind (takes_over cn x curr) (λ moves. if moves then moved else kept)

-- The index of the smallest rep, and the rep. It is not asked for that of no reps.
unfoldable pub smallest_rep : Configuration → List RepInfo → Option (ℕ × RepInfo)
unfolding smallest_rep_from
smallest_rep cn [] = none
smallest_rep cn (x ∷ xs) = smallest_rep_from cn x 0 1 xs

abbrev pub no_rep : RepInfo
no_rep = record { proc_id = 0; type = 0; seg_index = 0 }

-- As many rounds as there are reps.
unfoldable pub sort_reps : Configuration → List RepInfo → Option (List RepInfo)
unfolding selection smallest_rep
sort_reps cn r =
    selection (λ xs. Option.map (λ (index, rep). index) (smallest_rep cn xs)) no_rep (length r) r
