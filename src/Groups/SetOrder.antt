-- ===== src/Groups/SetOrder.antt =====
-- G_build_memb_vs_buf of spread-src-4.4.0/daemon/groups.c: the order in which it takes the daemons.
use Prim.Native.Nat.{Ordering}
use tf.Prelude.{
  ℕ, ◌+◌, ◌≤◌, ◌≡◌, refl, inl, inr, arith, ◌==◌, if◌then◌else◌, List, [], ◌∷◌, All, Bool-cases,
}
use tf.Configuration.{Configuration}
use tf.Groups.SkipList.{put, Above, Sorted}
use tf.Groups.Totals.{total, All-put}
use tf.Groups.Orders.{compare_proc_ids_by_conf-IsOrder}
use tf.Groups.State.{DaemonMembers, compare_daemon_vs_set, compare_proc_ids_by_conf}
use tf.Groups.Views.{by_vs_set}

abbrev whole : DaemonMembers → DaemonMembers
whole d = d

abbrev pub id_of : DaemonMembers → ℕ
id_of d = d.proc_id

-- The daemons go through the list `temp` in another order, and none is lost.
module _ (config : Configuration) (w : DaemonMembers → ℕ) where
  total-put_vs :
      (a : DaemonMembers) (xs : List DaemonMembers)
      → All (λ e. compare_proc_ids_by_conf config e.proc_id a.proc_id ≡ Ordering.lt) xs
      → total w (put (compare_daemon_vs_set config) whole a xs) ≡ w a + total w xs
  unfolding put compare_daemon_vs_set
  total-put_vs a [] h = refl
  total-put_vs a (x ∷ xs) h =
      let order = compare_proc_ids_by_conf-IsOrder config in
      ground (arith, total-put_vs a xs h.1, order.after x.proc_id a.proc_id h.0)

  pub total-by_vs_set :
      (temp ds : List DaemonMembers)
      → Sorted (compare_proc_ids_by_conf config) id_of ds
      → All (λ e. Above (compare_proc_ids_by_conf config) id_of e.proc_id ds) temp
      → total w (by_vs_set config temp ds) ≡ total w temp + total w ds
  unfolding by_vs_set
  total-by_vs_set temp [] sorted h = omega arith
  total-by_vs_set temp (d ∷ ds) sorted h =
      let cmp = compare_proc_ids_by_conf config in
      omega (
        arith,
        total-by_vs_set (put (compare_daemon_vs_set config) whole d temp) ds sorted.1 (
            All-put (compare_daemon_vs_set config) whole (λ e. Above cmp id_of e.proc_id ds) d temp
              sorted.0 (tails temp h)),
        total-put_vs d temp (heads temp h),
      )
    where
      heads :
          (xs : List DaemonMembers)
          → All (λ e. Above (compare_proc_ids_by_conf config) id_of e.proc_id (d ∷ ds)) xs
          → All (λ e. compare_proc_ids_by_conf config e.proc_id d.proc_id ≡ Ordering.lt) xs
      heads [] h = tt
      heads (x ∷ xs) h = (h.0.0, heads xs h.1)

      tails :
          (xs : List DaemonMembers)
          → All (λ e. Above (compare_proc_ids_by_conf config) id_of e.proc_id (d ∷ ds)) xs
          → All (λ e. Above (compare_proc_ids_by_conf config) id_of e.proc_id ds) xs
      tails [] h = tt
      tails (x ∷ xs) h = (h.0.1, tails xs h.1)

-- This daemon is there once at most.
abbrev pub mine : ℕ → DaemonMembers → ℕ
mine my_id d = if d.proc_id == my_id then 1 else 0

mine-Above :
    (config : Configuration) (my_id : ℕ) (ds : List DaemonMembers)
    → Above (compare_proc_ids_by_conf config) id_of my_id ds
    → total (mine my_id) ds ≡ 0
mine-Above config my_id [] h = refl
mine-Above config my_id (d ∷ ds) h = ground (
  arith,
  mine-Above config my_id ds h.1,
  (compare_proc_ids_by_conf-IsOrder config).self my_id,
  h.0,
)

pub mine-once :
    (config : Configuration) (my_id : ℕ) (ds : List DaemonMembers)
    → Sorted (compare_proc_ids_by_conf config) id_of ds
    → total (mine my_id) ds ≤ 1
mine-once config my_id [] h = omega arith
mine-once config my_id (d ∷ ds) h = elim (Bool-cases (d.proc_id == my_id)) [
  | inl e ↦
      let same : d.proc_id ≡ my_id = ground (arith, e) in
      rw e (omega (arith, mine-Above config my_id ds (rw same at (h.0))))
  | inr e ↦ rw e (omega (arith, mine-once config my_id ds h.1))
]
