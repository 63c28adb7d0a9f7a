-- ===== src/Groups/Change.antt =====
-- spread-src-4.4.0/daemon/groups.c: the membership of the daemons changes. `none` is the end of the
-- process. G_handle_reg_memb is there for the case that no daemon was added; the exchange of the groups
-- by messages is not modelled, nor is the threshold that G_shift_to_GOP sets.
use tf.Prelude.{
  ℕ, ◌+◌, ◌-◌, Bool, true, false, not, ◌&&◌, ◌||◌, ◌==◌, if◌then◌else◌, Option, none, some, List,
  [], ◌∷◌, map, length, ◌>>=◌, ◌>>◌, guard,
}
use tf.Configuration.{Configuration, id_in_conf}
use tf.NetTypes.{MembershipId}
use tf.Groups.State.{
  GState, DaemonMembers, Group, Sent, Groups, unknown_memb_id, is_partitioned_daemon,
}
use tf.Groups.Views.{send_trans_memb, send_heavyweight_memb}
use tf.Groups.Handle.{is_nil, is_some}
use tf.Groups.Depart.{for_groups, after_loop}

-- Is the daemon in the membership?
unfoldable pub in_memb : Configuration → ℕ → Bool
unfolding id_in_conf
in_memb memb proc_id = is_some (id_in_conf memb proc_id)

-- Daemons that are not in the transitional membership are partitioned.
unfoldable pub mark : Configuration → DaemonMembers → DaemonMembers
unfolding in_memb
mark memb d = if in_memb memb d.proc_id then d else record d { memb_id = unknown_memb_id }

unfoldable pub mark_daemons : Configuration → List DaemonMembers → List DaemonMembers
unfolding mark
mark_daemons memb ds = map (mark memb) ds

-- Is a daemon of the group not in the membership? G_check_if_changed_by_cascade, and `group_changed`
-- after the loop over the daemons in GOP.
unfoldable pub lacks_daemon : Configuration → List DaemonMembers → Bool
unfolding in_memb
lacks_daemon memb [] = false
lacks_daemon memb (d ∷ ds) = not (in_memb memb d.proc_id) || lacks_daemon memb ds

-- Established daemons get the group's membership id.
unfoldable pub update_memb_id : MembershipId → DaemonMembers → DaemonMembers
unfolding is_partitioned_daemon
update_memb_id memb_id d = if is_partitioned_daemon d then d else record d { memb_id = memb_id }

unfoldable pub update_daemon_memb_ids : MembershipId → List DaemonMembers → List DaemonMembers
unfolding update_memb_id
update_daemon_memb_ids memb_id ds = map (update_memb_id memb_id) ds

-- The group with a new id, and its established daemons with it.
unfoldable pub renew : MembershipId → Bool → Group → Group
unfolding update_daemon_memb_ids
renew memb_id changed g = record g {
  grp_id = record { memb_id = memb_id; index = 1 };
  changed = changed;
  daemons = update_daemon_memb_ids memb_id g.daemons;
}

-- G_handle_trans_memb in GOP, for one group. Local members hear of the change under the old id.
unfoldable pub trans_in_group : Groups → Group → Option (Option Group × List Sent)
unfolding lacks_daemon mark_daemons send_trans_memb renew
trans_in_group s g =
    let marked = record g { daemons = mark_daemons s.trans_memb g.daemons } in
    if lacks_daemon s.trans_memb g.daemons
    then some (
      some (renew s.trans_memb_id true marked),
      if is_nil g.mboxes then [] else send_trans_memb s.sessions marked,
    )
    else some (some g, [])

-- In GGATHER, groups that lose daemons are changed.
unfoldable pub mark_changed : Configuration → List Group → List Group
unfolding lacks_daemon
mark_changed memb [] = []
mark_changed memb (g ∷ gs) =
    record g { changed = g.changed || lacks_daemon memb g.daemons } ∷ mark_changed memb gs

-- G_update_synced_set_status: those in the membership, and whether one was lost.
unfoldable pub still_synced : Configuration → List ℕ → List ℕ
unfolding in_memb
still_synced memb [] = []
still_synced memb (id ∷ ids) =
    let rest = still_synced memb ids in if in_memb memb id then id ∷ rest else rest

unfoldable pub update_synced_set : Configuration → List ℕ → List ℕ × Bool
unfolding still_synced
update_synced_set memb ids =
    (still_synced memb ids, not (length (still_synced memb ids) == length ids))

unfoldable pub save_trans : Groups → Configuration → MembershipId → Groups
save_trans s memb memb_id = record s { trans_memb = memb; trans_memb_id = memb_id }

unfoldable pub enter_gtrans : Groups → Groups
unfolding update_synced_set
enter_gtrans s = record s {
  gstate = GState.gtrans;
  synced_set = (update_synced_set s.trans_memb s.synced_set).0;
}

unfoldable pub trans_in_gop : Groups → Option Groups
unfolding for_groups trans_in_group after_loop enter_gtrans
trans_in_gop s = do
  result ← for_groups (trans_in_group s) s.groups_list
  some (enter_gtrans (after_loop s result))

unfoldable pub handle_trans_memb : Groups → Configuration → MembershipId → Option Groups
unfolding save_trans trans_in_gop mark_changed
handle_trans_memb s memb memb_id = elim s.gstate [
  | GState.gop ↦ trans_in_gop (save_trans s memb memb_id)
  | GState.gtrans ↦ none
  | GState.ggather ↦ some (record (save_trans s memb memb_id) {
    groups_list = mark_changed memb s.groups_list;
    gstate = GState.ggt;
  })
  | GState.ggt ↦ none
]

unfoldable pub is_ggt : GState → Bool
is_ggt GState.ggt = true
is_ggt _ = false

-- The daemons that leave a group: after a cascading change by the transitional membership, else
-- those that are marked.
unfoldable pub is_eliminated : Groups → DaemonMembers → Bool
unfolding is_ggt in_memb is_partitioned_daemon
is_eliminated s d =
    if is_ggt s.gstate then not (in_memb s.trans_memb d.proc_id) else is_partitioned_daemon d

-- G_remove_daemon of each daemon that leaves. It is found by its id, where the loop is.
unfoldable pub stay : Groups → List DaemonMembers → List DaemonMembers
unfolding is_eliminated
stay s [] = []
stay s (d ∷ ds) = let rest = stay s ds in if is_eliminated s d then rest else d ∷ rest

unfoldable pub lose : Groups → List DaemonMembers → ℕ
unfolding is_eliminated
lose s [] = 0
lose s (d ∷ ds) = (if is_eliminated s d then length d.members else 0) + lose s ds

unfoldable pub eliminate_partitioned_daemons : Groups → Group → Group
unfolding stay lose
eliminate_partitioned_daemons s g = record g {
  daemons = stay s g.daemons;
  num_members = g.num_members - lose s g.daemons;
}

-- An empty group is removed, and its assertions are checked.
unfoldable pub renew_or_remove : Groups → Group → Option (Option Group × List Sent)
unfolding renew send_heavyweight_memb
renew_or_remove s g =
    if g.num_members == 0
    then (do guard (is_nil g.daemons && is_nil g.mboxes); some (none, []))
    else if is_nil g.mboxes
    then some (some (renew s.reg_memb_id false g), [])
    else (do
      views ← send_heavyweight_memb s.conf s.my_id s.sessions (renew s.reg_memb_id false g)
      some (some (renew s.reg_memb_id false g), views))

-- G_handle_reg_memb in GTRANS, for one group, where the membership only lost daemons.
unfoldable pub reg_in_group : Groups → Group → Option (Option Group × List Sent)
unfolding eliminate_partitioned_daemons renew_or_remove
reg_in_group s g =
    if g.changed then renew_or_remove s (eliminate_partitioned_daemons s g) else some (some g, [])

unfoldable pub save_reg : Groups → Configuration → MembershipId → Groups
save_reg s memb memb_id = record s { reg_memb = memb; reg_memb_id = memb_id }

unfoldable pub shift_to_gop : Groups → Groups
shift_to_gop s = record s { gstate = GState.gop }

unfoldable pub reg_subtractive : Groups → Configuration → MembershipId → Option Groups
unfolding save_reg for_groups reg_in_group after_loop shift_to_gop
reg_subtractive s memb memb_id = do
  result ← for_groups (reg_in_group (save_reg s memb memb_id)) s.groups_list
  some (shift_to_gop (after_loop (save_reg s memb memb_id) result))
