-- ===== src/Groups/Subtractive.antt =====
-- The regular membership of the daemons, where it only lost some: G_handle_reg_memb of
-- spread-src-4.4.0/daemon/groups.c, for one group.
use Prim.Native.Nat.{Ordering}
use tf.Prelude.{
  ℕ, ◌<◌, ◌≡◌, refl, ap, sym, ◌∙◌, inl, inr, arith, true, false, not, ◌&&◌, ◌==◌, Option, none,
  some, List, [], ◌∷◌, All, Bool-cases, Option-cases,
}
use tf.Groups.Totals.{All-find, find-key}
use tf.Groups.State.{
  Name, DaemonMembers, Group, Sent, Groups, compare_proc_ids_by_conf, get_daemon,
  is_partitioned_daemon, is_unknown_memb_id,
}
use tf.Groups.Views.{send_heavyweight_memb, send_heavyweight_join}
use tf.Groups.Handle.{is_nil}
use tf.Groups.Invariant.{IsDaemon, IsGroup}
use tf.Groups.Joining.{proc_id_of}
use tf.Groups.Leaving.{IsGroup-daemons, IsGroup-mboxes}
use tf.Groups.Sets.{build_memb_vs_buf-IsPartition}
use tf.Groups.Members.{holds, get_daemon-nil}
use tf.Groups.Sweep.{Good, Stays, Stepped}
use tf.Groups.Change.{
  in_memb, update_memb_id, update_daemon_memb_ids, renew, is_ggt, is_eliminated, stay,
  eliminate_partitioned_daemons, renew_or_remove, reg_in_group,
}
use tf.Groups.Marking.{holds-map}
use tf.Groups.Shrink.{owner, owner-own, StaysHere, eliminate-IsGroup, holds-stay}
use tf.Groups.Transitional.{
  IsSettled, IsMarked, update-id, update-members, renew-IsGroup, established_all, not-not,
  settled_all,
}

-- The group without the daemons that are gone: it is removed, or it gets the new id.
module _ (s : Groups) (known : is_unknown_memb_id s.reg_memb_id ≡ false) where
  told :
      (g : Group)
      → (g.num_members == 0) ≡ false
      → IsGroup s.conf s.my_id s.sessions (renew s.reg_memb_id false g)
      → (views : List Sent) × (renew_or_remove s g
          ≡ some (some (renew s.reg_memb_id false g), views))
  unfolding renew_or_remove send_heavyweight_memb send_heavyweight_join
  told g full well =
      let g' = renew s.reg_memb_id false g in
      let (offset, sets, built, sums) =
        build_memb_vs_buf-IsPartition s.conf s.my_id g' none well.sorted tt in
      elim (Bool-cases (is_nil g.mboxes)) [
        | inl e ↦ rw (full, e) ([], refl)
        | inr e ↦ rw (full, e) (rw built (_, refl))
      ]

  renewed :
      (g : Group)
      → IsGroup s.conf s.my_id s.sessions g
      → 0 < g.num_members
      → All (λ d. is_partitioned_daemon d ≡ false) g.daemons
      → (Good s (renew s.reg_memb_id false g) × IsSettled (renew s.reg_memb_id false g))
        × ((renew s.reg_memb_id false g).name ≡ g.name)
  unfolding renew update_daemon_memb_ids
  renewed g well pos established = (
    (
      (renew-IsGroup s s.reg_memb_id false g well, pos),
      record {
        established = settled_all s.conf s.reg_memb_id known g.daemons established;
        unchanged = refl;
      },
    ),
    refl,
  )

  renew_or_remove-Stepped :
      (g : Group)
      → IsGroup s.conf s.my_id s.sessions g
      → All (λ d. is_partitioned_daemon d ≡ false) g.daemons
      → Stepped s.conf
          (λ h. Unit {0})
          (λ h. Good s h × IsSettled h)
          (renew_or_remove s)
          (λ i n. true)
          g
  unfolding renew_or_remove send_heavyweight_memb send_heavyweight_join
  renew_or_remove-Stepped g well established = elim (Bool-cases (g.num_members == 0)) [
    | inl empty ↦
        let no_members : g.num_members ≡ 0 = ground (arith, empty) in
        let no_daemons = IsGroup-daemons s.conf s.my_id s.sessions g well no_members in
        let no_mboxes = IsGroup-mboxes s.conf s.my_id s.sessions g well no_members in
        record {
          rest = none;
          views = [];
          returns = ground (arith, empty, no_daemons, no_mboxes);
          stays = tt;
          members = λ i n. ground (arith, get_daemon-nil s.conf g.daemons i no_daemons);
        }
    | inr full ↦
        let g' = renew s.reg_memb_id false g in
        let well' = renew-IsGroup s s.reg_memb_id false g well in
        let (views, returns) = told g (ground (arith, full)) well' in
        record {
          rest = some g';
          views = views;
          returns = returns;
          stays = renewed g well (ground (arith, full)) established;
          members = λ i n.
              holds-map s.conf (update_memb_id s.reg_memb_id) (update-id s.reg_memb_id)
                (update-members s.reg_memb_id) g.daemons i n;
        }
  ]

module _ (s : Groups) (known : is_unknown_memb_id s.reg_memb_id ≡ false)
    (in_gtrans : is_ggt s.gstate ≡ false) (here : in_memb s.trans_memb s.my_id ≡ true) where
  eliminated :
      (d : DaemonMembers)
      → is_partitioned_daemon d ≡ not (in_memb s.trans_memb d.proc_id)
      → is_eliminated s d ≡ not (in_memb s.trans_memb d.proc_id)
  unfolding is_eliminated
  eliminated d marked = rw in_gtrans marked

  stays_here :
      (ds : List DaemonMembers)
      → All (λ d. is_partitioned_daemon d ≡ not (in_memb s.trans_memb d.proc_id)) ds
      → StaysHere s ds
  stays_here [] h = tt
  stays_here (d ∷ ds) h = (mine d h.0, stays_here ds h.1)
    where
      mine :
          (e : DaemonMembers)
          → is_partitioned_daemon e ≡ not (in_memb s.trans_memb e.proc_id)
          → is_eliminated s e ≡ true
          → (e.proc_id == s.my_id) ≡ false
      mine e marked gone = elim (Bool-cases (e.proc_id == s.my_id)) [
        | inr away ↦ away
        | inl own ↦
            let same : e.proc_id ≡ s.my_id = ground (arith, own) in
            absurd (cc (gone, eliminated e marked, ap (in_memb s.trans_memb) same, here))
      ]

  keep_here :
      (ds : List DaemonMembers) (i : ℕ)
      → All (IsDaemon s.conf) ds
      → All (λ d. is_partitioned_daemon d ≡ not (in_memb s.trans_memb d.proc_id)) ds
      → All
          (λ d.
            compare_proc_ids_by_conf s.conf i d.proc_id ≡ Ordering.eq
            → in_memb s.trans_memb (owner s.conf i) ≡ not (is_eliminated s d))
          ds
  keep_here [] i own h = tt
  keep_here (d ∷ ds) i own h = (
    λ e.
        ap (in_memb s.trans_memb) (owner-own s.conf i d.proc_id own.0.own e)
        ∙ sym (ap not (eliminated d h.0) ∙ not-not (in_memb s.trans_memb d.proc_id)),
    keep_here ds i own.1 h.1,
  )

  -- All daemons stay in a group that did not change.
  keep_all :
      (ds : List DaemonMembers) (i : ℕ) (n : Name)
      → All (IsDaemon s.conf) ds
      → All (λ d. in_memb s.trans_memb d.proc_id ≡ true) ds
      → holds s.conf ds i n ≡ (in_memb s.trans_memb (owner s.conf i) && holds s.conf ds i n)
  unfolding get_daemon
  keep_all ds i n own complete = elim (Option-cases (get_daemon s.conf ds i)) [
    | inl absent ↦ ground (arith, absent)
    | inr (d, e) ↦
        let cmp = compare_proc_ids_by_conf s.conf in
        let is_daemon = All-find cmp proc_id_of (IsDaemon s.conf) i ds own e in
        let same = owner-own s.conf i d.proc_id is_daemon.own (find-key cmp proc_id_of i ds d e) in
        let there : in_memb s.trans_memb d.proc_id ≡ true =
          All-find cmp proc_id_of (λ f. in_memb s.trans_memb f.proc_id ≡ true) i ds complete e in
        rw (ap (in_memb s.trans_memb) same ∙ there)
  ]

  established_stay :
      (ds : List DaemonMembers) → All (λ d. is_partitioned_daemon d ≡ false) (stay s ds)
  unfolding stay is_eliminated
  established_stay [] = tt
  established_stay (d ∷ ds) = elim (Bool-cases (is_partitioned_daemon d)) [
    | inl e ↦ rw (in_gtrans, e) (established_stay ds)
    | inr e ↦ rw (in_gtrans, e) (e, established_stay ds)
  ]

  Stays-removed :
      (g : Group) (rest : Option Group)
      → Stays s.conf
          (λ h. Unit {0})
          (λ h. Good s h × IsSettled h)
          (renew_or_remove s)
          (λ i n. true)
          (eliminate_partitioned_daemons s g).name
          rest
      → Stays s.conf
          (λ h. Good s h × IsMarked s.trans_memb h)
          (λ h. Good s h × IsSettled h)
          (reg_in_group s)
          (λ i n. in_memb s.trans_memb (owner s.conf i))
          g.name
          rest
  unfolding eliminate_partitioned_daemons
  Stays-removed g none h = tt
  Stays-removed g (some h) k = k

  pub reg_in_group-Stepped :
      (g : Group)
      → Good s g × IsMarked s.trans_memb g
      → Stepped s.conf
          (λ h. Good s h × IsMarked s.trans_memb h)
          (λ h. Good s h × IsSettled h)
          (reg_in_group s)
          (λ i n. in_memb s.trans_memb (owner s.conf i))
          g
  unfolding reg_in_group eliminate_partitioned_daemons
  reg_in_group-Stepped g ((well, pos), marked) = elim (Bool-cases g.changed) [
    | inr unchanged ↦
        let complete = marked.complete unchanged in
        record {
          rest = some g;
          views = [];
          returns = rw (unchanged, reg_in_group);
          stays = (
            (
              (well, pos),
              record {
                established = established_all s.trans_memb g.daemons marked.marked complete;
                unchanged = unchanged;
              },
            ),
            refl,
          );
          members = λ i n. keep_all g.daemons i n well.daemons complete;
        }
    | inl changed ↦
        let g' = eliminate_partitioned_daemons s g in
        let well' = eliminate-IsGroup s g well (stays_here g.daemons marked.marked) in
        let step = renew_or_remove-Stepped s known g' well' (established_stay g.daemons) in
        record {
          rest = step.rest;
          views = step.views;
          returns = rw (changed, reg_in_group) step.returns;
          stays = Stays-removed g step.rest step.stays;
          members = λ i n.
              step.members i n
              ∙ holds-stay s g.daemons (λ j. in_memb s.trans_memb (owner s.conf j)) well.sorted i n
                  (keep_here g.daemons i well.daemons marked.marked);
        }
  ]
