-- ===== src/Groups/Handle.antt =====
-- spread-src-4.4.0/daemon/groups.c: a client joins a group. `none` is the end of the process by an
-- alarm or an assertion; so is what C leaves undefined: a name that is no private group's, whose daemon
-- is looked up all the same, and the mailbox of no session. G_compute_group_mask does nothing in
-- this version of the protocol.
use tf.Prelude.{
  ℕ, ◌+◌, Bool, true, false, ◌||◌, ◌==◌, if◌then◌else◌, Option, none, some, List, [], ◌∷◌, ◌++◌,
  ◌>>=◌, ◌>>◌, guard,
}
use tf.Configuration.{Configuration, Proc, proc_by_name_in_conf, id_in_conf}
use tf.Groups.State.{
  Name, GState, DaemonMembers, Group, Sent, Groups, unknown_memb_id, is_partitioned_daemon,
  get_group, put_group, get_daemon, put_daemon, get_member, put_member, get_session,
}
use tf.Groups.Names.{private_to_names}
use tf.Groups.Views.{caused_by_join, send_lightweight_memb, send_trans_memb, send_heavyweight_join}

abbrev pub is_nil {ℓ} : {A : Type ℓ} → List A → Bool
is_nil [] = true
is_nil (x ∷ xs) = false

abbrev pub is_some {ℓ} : {A : Type ℓ} → Option A → Bool
is_some none = false
is_some (some a) = true

abbrev pub or_new {ℓ} : {A : Type ℓ} → Option A → A → A
or_new none b = b
or_new (some a) b = a

-- Groups are changed by clients in GOP and GTRANS.
unfoldable pub takes_clients : GState → Bool
takes_clients GState.gop = true
takes_clients GState.gtrans = true
takes_clients GState.ggather = false
takes_clients GState.ggt = false

unfoldable pub is_gop : GState → Bool
is_gop GState.gop = true
is_gop _ = false

-- The private name and the daemon of a client. The inner `none`: no daemon has that name.
unfoldable pub client : Groups → Name → Option (Option (Name × Proc))
unfolding private_to_names proc_by_name_in_conf
client s private_group_name = elim (private_to_names private_group_name) [
  | none ↦ none
  | some (private_name, proc_name) ↦ some (elim (proc_by_name_in_conf s.conf proc_name) [
    | none ↦ none
    | some (i, p) ↦ some (private_name, p)
  ])
]

unfoldable pub new_group : Groups → Name → Group
unfolding is_gop
new_group s name = record {
  name = name;
  grp_id = record {
    memb_id = if is_gop s.gstate then s.reg_memb_id else s.trans_memb_id;
    index = 0;
  };
  changed = false;
  num_members = 0;
  daemons = [];
  mboxes = [];
}

-- A daemon that is not in the transitional membership is partitioned.
unfoldable pub new_daemon : Groups → Group → ℕ → DaemonMembers
unfolding is_gop id_in_conf
new_daemon s g proc_id = record {
  proc_id = proc_id;
  memb_id =
      if is_gop s.gstate || is_some (id_in_conf s.trans_memb proc_id)
      then g.grp_id.memb_id
      else unknown_memb_id;
  members = [];
}

unfoldable pub group_or_new : Groups → Name → Group
unfolding get_group new_group
group_or_new s name = or_new (get_group s.groups_list name) (new_group s name)

unfoldable pub daemon_or_new : Groups → Group → ℕ → DaemonMembers
unfolding get_daemon new_daemon
daemon_or_new s g proc_id = or_new (get_daemon s.conf g.daemons proc_id) (new_daemon s g proc_id)

-- The mailbox of a local client, whose session must be there.
unfoldable pub local_mbox : Groups → Name → ℕ → Option (Option ℕ)
unfolding get_session
local_mbox s private_name proc_id =
    if proc_id == s.my_id
    then (elim (get_session s.sessions private_name) [
      | none ↦ none
      | some ses ↦ some (some ses.mbox)
    ])
    else some none

unfoldable pub add_mbox : Option ℕ → List ℕ → List ℕ
add_mbox none ms = ms
add_mbox (some m) ms = ms ++ (m ∷ [])

-- The group with one more member. A partitioned daemon changes it.
unfoldable pub with_member : Configuration → Group → DaemonMembers → Name → Option ℕ → Group
unfolding put_daemon put_member is_partitioned_daemon add_mbox
with_member config g d name new_mbox = record g {
  grp_id = record { memb_id = g.grp_id.memb_id; index = g.grp_id.index + 1 };
  changed = g.changed || is_partitioned_daemon d;
  num_members = g.num_members + 1;
  daemons = put_daemon config (record d { members = put_member name d.members }) g.daemons;
  mboxes = add_mbox new_mbox g.mboxes;
}

-- Local members hear of a changed group by the network, of another one by the joiner.
unfoldable pub announce_join : Groups → Group → Name → Option ℕ → Option (List Sent)
unfolding send_heavyweight_join send_trans_memb send_lightweight_memb
announce_join s g name new_mbox =
    if is_nil g.mboxes
    then some []
    else if g.changed
    then (do
      views ← send_heavyweight_join s.conf s.my_id s.sessions g (some name) new_mbox
      some (views ++ send_trans_memb s.sessions g))
    else some (send_lightweight_memb s.sessions g caused_by_join name)

-- The group takes its place in the list.
unfoldable pub store_group : Groups → Group → List Sent → Groups
unfolding get_group put_group
store_group s g views = record s {
  groups_list = put_group g s.groups_list;
  num_groups = if is_some (get_group s.groups_list g.name) then s.num_groups else s.num_groups + 1;
  sent = s.sent ++ views;
}

-- The daemon is known, and the group and the daemon's entry are at hand. Where the client is a member
-- already, neither of them is new.
unfoldable pub join_group : Groups → Name → Name → Proc → Group → DaemonMembers → Option Groups
unfolding get_member local_mbox with_member announce_join store_group
join_group s name private_name p g d = elim (get_member d.members name) [
  | some _ ↦ some s
  | none ↦ do
    new_mbox ← local_mbox s private_name d.proc_id
    let g' = with_member s.conf g d name new_mbox
    views ← announce_join s g' name new_mbox
    some (store_group s g' views)
]

unfoldable pub join_client : Groups → Name → Name → Option (Name × Proc) → Option Groups
unfolding group_or_new daemon_or_new join_group
join_client s name group_name none = some s
join_client s name group_name (some (private_name, p)) =
    let g = group_or_new s group_name in join_group s name private_name p g (daemon_or_new s g p.id)

unfoldable pub handle_join : Groups → (private_group_name group_name : Name) → Option Groups
unfolding takes_clients client join_client
handle_join s private_group_name group_name = do
  guard (takes_clients s.gstate)
  c ← client s private_group_name
  join_client s private_group_name group_name c
