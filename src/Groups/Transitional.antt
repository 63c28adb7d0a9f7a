-- ===== src/Groups/Transitional.antt =====
-- The transitional membership of the daemons: G_handle_trans_memb of
-- spread-src-4.4.0/daemon/groups.c, for one group.
use tf.Prelude.{
  ℕ, ◌≡◌, refl, ap, sym, ◌∙◌, inl, inr, arith, Bool, true, false, not, if◌then◌else◌, some, List,
  [], ◌∷◌, map, All, Bool-cases,
}
use tf.Configuration.{Configuration}
use tf.NetTypes.{MembershipId}
use tf.Groups.State.{Name, DaemonMembers, Group, Groups, is_partitioned_daemon, is_unknown_memb_id}
use tf.Groups.Views.{send_trans_memb}
use tf.Groups.Handle.{is_nil}
use tf.Groups.Invariant.{IsGroup}
use tf.Groups.Members.{holds}
use tf.Groups.Sweep.{Good, Stepped}
use tf.Groups.Change.{
  in_memb, mark, mark_daemons, lacks_daemon, update_memb_id, update_daemon_memb_ids, renew,
  trans_in_group,
}
use tf.Groups.Marking.{IsGroup-map, holds-map}

-- In GOP no daemon is partitioned and no group is changed.
pub record IsSettled (g : Group) : Type 0 where
  pub established : All (λ d. is_partitioned_daemon d ≡ false) g.daemons
  pub unchanged : g.changed ≡ false

-- After a transitional membership, the daemons that are not in it are partitioned, and a group with
-- such a daemon is changed.
pub record IsMarked (memb : Configuration) (g : Group) : Type 0 where
  pub marked : All (λ d. is_partitioned_daemon d ≡ not (in_memb memb d.proc_id)) g.daemons
  pub complete : g.changed ≡ false → All (λ d. in_memb memb d.proc_id ≡ true) g.daemons

mark-id : (memb : Configuration) (d : DaemonMembers) → (mark memb d).proc_id ≡ d.proc_id
unfolding mark
mark-id memb d = ground arith

mark-members : (memb : Configuration) (d : DaemonMembers) → (mark memb d).members ≡ d.members
unfolding mark
mark-members memb d = ground arith

pub update-id : (m : MembershipId) (d : DaemonMembers) → (update_memb_id m d).proc_id ≡ d.proc_id
unfolding update_memb_id
update-id m d = ground arith

pub update-members :
    (m : MembershipId) (d : DaemonMembers) → (update_memb_id m d).members ≡ d.members
unfolding update_memb_id
update-members m d = ground arith

module _ (memb : Configuration) (m : MembershipId) (known : is_unknown_memb_id m ≡ false) where
  update-partitioned :
      (d : DaemonMembers) → is_partitioned_daemon (update_memb_id m d) ≡ is_partitioned_daemon d
  unfolding update_memb_id is_partitioned_daemon
  update-partitioned d = ground (arith, known)

  mark-partitioned :
      (d : DaemonMembers)
      → is_partitioned_daemon d ≡ false
      → is_partitioned_daemon (mark memb d) ≡ not (in_memb memb d.proc_id)
  unfolding mark is_partitioned_daemon is_unknown_memb_id
  mark-partitioned d h = ground (arith, h)

  marked_all :
      (ds : List DaemonMembers)
      → All (λ d. is_partitioned_daemon d ≡ false) ds
      → All
          (λ d. is_partitioned_daemon d ≡ not (in_memb memb d.proc_id))
          (map (update_memb_id m) (map (mark memb) ds))
  marked_all [] h = tt
  marked_all (d ∷ ds) h = (
    update-partitioned (mark memb d)
        ∙ mark-partitioned d h.0
        ∙ ap (λ (i : ℕ). not (in_memb memb i)) (sym (update-id m (mark memb d) ∙ mark-id memb d)),
    marked_all ds h.1,
  )

  pub settled_all :
      (ds : List DaemonMembers)
      → All (λ d. is_partitioned_daemon d ≡ false) ds
      → All (λ d. is_partitioned_daemon d ≡ false) (map (update_memb_id m) ds)
  settled_all [] h = tt
  settled_all (d ∷ ds) h = (update-partitioned d ∙ h.0, settled_all ds h.1)

complete_all :
    (memb : Configuration) (ds : List DaemonMembers)
    → lacks_daemon memb ds ≡ false
    → All (λ d. is_partitioned_daemon d ≡ false) ds
    → All (λ d. in_memb memb d.proc_id ≡ true) ds
      × All (λ d. is_partitioned_daemon d ≡ not (in_memb memb d.proc_id)) ds
unfolding lacks_daemon
complete_all memb [] e h = (tt, tt)
complete_all memb (d ∷ ds) e h =
    let (first, second) = complete_all memb ds (ground (arith, e)) h.1 in
    let here : in_memb memb d.proc_id ≡ true = ground (arith, e) in
    ((here, first), (h.0 ∙ sym (ap not here), second))

pub not-not : (b : Bool) → not (not b) ≡ b
not-not true = refl
not-not false = refl

pub established_all :
    (memb : Configuration) (ds : List DaemonMembers)
    → All (λ d. is_partitioned_daemon d ≡ not (in_memb memb d.proc_id)) ds
    → All (λ d. in_memb memb d.proc_id ≡ true) ds
    → All (λ d. is_partitioned_daemon d ≡ false) ds
established_all memb [] h k = tt
established_all memb (d ∷ ds) h k = (h.0 ∙ ap not k.0, established_all memb ds h.1 k.1)

-- A group with new ids.
pub renew-IsGroup :
    (s : Groups) (m : MembershipId) (changed : Bool) (g : Group)
    → IsGroup s.conf s.my_id s.sessions g
    → IsGroup s.conf s.my_id s.sessions (renew m changed g)
unfolding renew update_daemon_memb_ids
renew-IsGroup s m changed g good =
    IsGroup-map s.conf (update_memb_id m) (update-id m) (update-members m) s.my_id s.sessions g
      (renew m changed g) good refl refl refl

module _ (s : Groups) (known : is_unknown_memb_id s.trans_memb_id ≡ false) where
  abbrev marked_group : Group → Group
  marked_group g = record g { daemons = mark_daemons s.trans_memb g.daemons }

  renewed-Stays :
      (g : Group)
      → Good s g × IsSettled g
      → (Good s (renew s.trans_memb_id true (marked_group g))
          × IsMarked s.trans_memb (renew s.trans_memb_id true (marked_group g)))
        × ((renew s.trans_memb_id true (marked_group g)).name ≡ g.name)
  unfolding renew update_daemon_memb_ids mark_daemons
  renewed-Stays g ((well, pos), settled) = (
    (
      (
        renew-IsGroup s s.trans_memb_id true (marked_group g) (
            IsGroup-map s.conf (mark s.trans_memb) (mark-id s.trans_memb)
              (mark-members s.trans_memb) s.my_id s.sessions g (marked_group g) well refl refl
              refl),
        pos,
      ),
      record {
        marked = marked_all s.trans_memb s.trans_memb_id known g.daemons settled.established;
        complete = λ e. absurd (cc e);
      },
    ),
    refl,
  )

  renewed-members :
      (g : Group) (i : ℕ) (n : Name)
      → holds s.conf (renew s.trans_memb_id true (marked_group g)).daemons i n
        ≡ holds s.conf g.daemons i n
  unfolding renew update_daemon_memb_ids mark_daemons
  renewed-members g i n =
      holds-map s.conf (update_memb_id s.trans_memb_id) (update-id s.trans_memb_id)
        (update-members s.trans_memb_id) (map (mark s.trans_memb) g.daemons) i n
      ∙ holds-map s.conf (mark s.trans_memb) (mark-id s.trans_memb) (mark-members s.trans_memb)
          g.daemons i n

  pub trans_in_group-Stepped :
      (g : Group)
      → Good s g × IsSettled g
      → Stepped s.conf
          (λ h. Good s h × IsSettled h)
          (λ h. Good s h × IsMarked s.trans_memb h)
          (trans_in_group s)
          (λ i n. true)
          g
  unfolding trans_in_group
  trans_in_group-Stepped g ((well, pos), settled) =
      elim (Bool-cases (lacks_daemon s.trans_memb g.daemons)) [
        | inr all_there ↦
            let (complete, marked) =
              complete_all s.trans_memb g.daemons all_there settled.established in
            record {
              rest = some g;
              views = [];
              returns = rw (all_there, trans_in_group);
              stays = (((well, pos), record { marked = marked; complete = λ e. complete }), refl);
              members = λ i n. refl;
            }
        | inl lacks ↦ record {
          rest = some (renew s.trans_memb_id true (marked_group g));
          views = if is_nil g.mboxes then [] else send_trans_memb s.sessions (marked_group g);
          returns = rw (lacks, trans_in_group);
          stays = renewed-Stays g ((well, pos), settled);
          members = renewed-members g;
        }
      ]
