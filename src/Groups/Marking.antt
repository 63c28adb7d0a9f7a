-- ===== src/Groups/Marking.antt =====
-- The daemons of a group of spread-src-4.4.0/daemon/groups.c get other membership ids, or leave.
use tf.Prelude.{
  ℕ, ◌≡◌, refl, ap, ap₂, sym, ◌∙◌, arith, ◌==◌, if◌then◌else◌, List, [], ◌∷◌, map, All,
}
use tf.Configuration.{Configuration}
use tf.Groups.SkipList.{find, Above, Sorted}
use tf.Groups.Totals.{total}
use tf.Groups.State.{
  Name, DaemonMembers, Group, Session, compare_proc_ids_by_conf, get_daemon, get_member,
}
use tf.Groups.Handle.{is_some}
use tf.Groups.Invariant.{IsDaemon, IsGroup, local_weight, size, one, at_mbox}
use tf.Groups.Joining.{proc_id_of}
use tf.Groups.Members.{holds}

-- A change of daemons that keeps their ids and members.
module _ (config : Configuration) (f : DaemonMembers → DaemonMembers)
    (same_id : (d : DaemonMembers) → (f d).proc_id ≡ d.proc_id)
    (same_members : (d : DaemonMembers) → (f d).members ≡ d.members) where
  Above-map :
      (k : ℕ) (ds : List DaemonMembers)
      → Above (compare_proc_ids_by_conf config) proc_id_of k ds
      → Above (compare_proc_ids_by_conf config) proc_id_of k (map f ds)
  Above-map k [] h = tt
  Above-map k (d ∷ ds) h =
      (ap (compare_proc_ids_by_conf config k) (same_id d) ∙ h.0, Above-map k ds h.1)

  Sorted-map :
      (ds : List DaemonMembers)
      → Sorted (compare_proc_ids_by_conf config) proc_id_of ds
      → Sorted (compare_proc_ids_by_conf config) proc_id_of (map f ds)
  Sorted-map [] h = tt
  Sorted-map (d ∷ ds) h = (rw (same_id d) (Above-map d.proc_id ds h.0), Sorted-map ds h.1)

  IsDaemon-map :
      (ds : List DaemonMembers) → All (IsDaemon config) ds → All (IsDaemon config) (map f ds)
  IsDaemon-map [] h = tt
  IsDaemon-map (d ∷ ds) h = (
    record {
      own = rw (same_id d) h.0.own;
      sorted = rw (same_members d) h.0.sorted;
      inhabited = rw (same_members d) h.0.inhabited;
    },
    IsDaemon-map ds h.1,
  )

  total-map :
      (w : DaemonMembers → ℕ)
      → ((d : DaemonMembers) → w (f d) ≡ w d)
      → (ds : List DaemonMembers) → total w (map f ds) ≡ total w ds
  total-map w same [] = refl
  total-map w same (d ∷ ds) = omega (arith, same d, total-map w same ds)

  pub IsGroup-map :
      (my_id : ℕ) (ss : List Session) (g g' : Group)
      → IsGroup config my_id ss g
      → g'.daemons ≡ map f g.daemons
      → g'.num_members ≡ g.num_members
      → g'.mboxes ≡ g.mboxes
      → IsGroup config my_id ss g'
  IsGroup-map my_id ss g g' good daemons num mboxes = record {
    sorted = rw daemons (Sorted-map g.daemons good.sorted);
    daemons = rw daemons (IsDaemon-map g.daemons good.daemons);
    counted =
        rw (daemons, num)
          (good.counted ∙ sym (total-map size (λ d. ap (total one) (same_members d)) g.daemons));
    mailboxes = λ m.
        rw (daemons, mboxes)
          (good.mailboxes m
            ∙ sym (
                total-map (local_weight my_id ss m)
                  (λ d.
                    ap₂
                      (λ (i : ℕ) (ms : List Name).
                        if i == my_id then total (at_mbox ss m) ms else 0)
                      (same_id d) (same_members d))
                  g.daemons));
  }

  pub holds-map :
      (ds : List DaemonMembers) (i : ℕ) (n : Name)
      → holds config (map f ds) i n ≡ holds config ds i n
  unfolding get_daemon find
  holds-map [] i n = refl
  holds-map (d ∷ ds) i n = ground (
    arith,
    holds-map ds i n,
    ap (compare_proc_ids_by_conf config i) (same_id d),
    ap (λ (ms : List Name). is_some (get_member ms n)) (same_members d),
  )
