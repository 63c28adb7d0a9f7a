-- ===== src/Membership/Members/Insert.antt =====
-- Insert_member of spread-src-4.4.0/daemon/membership.c.
use tf.Prelude.{
  ℕ, ◌+◌, ◌≤◌, ◌≡◌, ◌⊎◌, inl, inr, refl, arith, true, false, ◌==◌, List, [], ◌∷◌, ◌++◌, length,
  length-append, Bool-cases,
}
use tf.Membership.{contains}
use tf.Membership.Members.{insert_member}
use tf.Membership.Members.Sorted.{count}
use tf.Protocol.State.{max_procs_ring}

count-contains : (xs : List ℕ) (id : ℕ) → contains xs id ≡ false → count id xs ≡ 0
unfolding contains
count-contains [] id h = refl
count-contains (x ∷ xs) id h = ground (arith, count-contains xs id (ground arith))

count-append : (id : ℕ) (xs ys : List ℕ) → count id (xs ++ ys) ≡ count id xs + count id ys
count-append id [] ys = omega arith
count-append id (x ∷ xs) ys = omega (arith, count-append id xs ys)

-- At most MAX_PROCS_RING members, and none twice.
pub record IsMembers (m : List ℕ) : Type 0 where
  pub few : length m ≤ max_procs_ring
  pub once : (id : ℕ) → count id m ≤ 1

-- Insert_member keeps the members well-formed. It adds a new member at the end, and says so, unless
-- it is there already or the members are full: then it changes nothing.
pub insert_member-IsMembers :
    (m : List ℕ) (proc_id : ℕ)
    → IsMembers m
    → let (new, m') = insert_member m proc_id in
      IsMembers m'
      × (((new ≡ true) × (m' ≡ m ++ (proc_id ∷ [])))
          ⊎ ((new ≡ false)
              × (m' ≡ m)
              × ((contains m proc_id ≡ true) ⊎ (length m ≡ max_procs_ring))))
unfolding insert_member
insert_member-IsMembers m proc_id h = elim (Bool-cases (contains m proc_id)) [
  | inl there ↦ rw there (h, inr (refl, refl, inl refl))
  | inr absent ↦ elim (Bool-cases (length m == max_procs_ring)) [
    | inl full ↦ rw absent (rw full (h, inr (refl, refl, inr (ground arith))))
    | inr room ↦ rw absent (
        rw room (
          record {
            few = ground (arith, h.few, length-append m (proc_id ∷ []));
            once = λ id. ground (
              arith,
              h.once id,
              count-contains m proc_id absent,
              count-append id m (proc_id ∷ []),
            );
          },
          inl (refl, refl),
        ))
  ]
]
