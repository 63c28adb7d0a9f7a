-- ===== src/Groups/Depart.antt =====
-- spread-src-4.4.0/daemon/groups.c: a client leaves a group, or is gone from all of them. `none` is the
-- end of the process by an alarm or an assertion, or what C leaves undefined.
use tf.Prelude.{
  ℕ, ◌+◌, ◌-◌, ◌&&◌, ◌==◌, if◌then◌else◌, Option, none, some, List, [], ◌∷◌, ◌++◌, length, ◌>>=◌,
  ◌>>◌, guard,
}
use tf.Configuration.{Configuration, Proc}
use tf.Membership.Selection.{take_out}
use tf.Groups.State.{
  Name, DaemonMembers, Group, Sent, Groups, get_group, put_group, erase_group, get_daemon,
  put_daemon, erase_daemon, get_member, erase_member, get_session,
}
use tf.Groups.Views.{
  caused_by_leave, caused_by_disconnect, send_lightweight_memb, send_self_leave, send_trans_memb,
  send_heavyweight_memb,
}
use tf.Groups.Handle.{is_nil, is_nil, takes_clients, client, local_mbox}

-- The place of a mailbox.
unfoldable pub mbox_index : ℕ → List ℕ → Option ℕ
mbox_index m [] = none
mbox_index m (x ∷ xs) =
    if x == m then some 0 else (elim (mbox_index m xs) [ none ↦ none | some i ↦ some (i + 1) ])

-- The last mailbox takes its place.
unfoldable pub remove_mailbox : ℕ → List ℕ → Option (List ℕ)
unfolding mbox_index
remove_mailbox m ms = elim (mbox_index m ms) [ none ↦ none | some i ↦ some (take_out ms i) ]

unfoldable pub take_mbox : Option ℕ → List ℕ → Option (List ℕ)
unfolding remove_mailbox
take_mbox none ms = some ms
take_mbox (some m) ms = remove_mailbox m ms

-- G_remove_daemon of a daemon without members, or what is left of it.
unfoldable pub shrink_daemon :
    Configuration → DaemonMembers → List Name → List DaemonMembers → List DaemonMembers
unfolding erase_daemon put_daemon
shrink_daemon config d members ds =
    if is_nil members
    then erase_daemon config d.proc_id ds
    else put_daemon config (record d { members = members }) ds

-- The group with one member less, before its id changes.
unfoldable pub without_member : Configuration → Group → DaemonMembers → Name → List ℕ → Group
unfolding shrink_daemon erase_member
without_member config g d name mboxes = record g {
  num_members = g.num_members - 1;
  daemons = shrink_daemon config d (erase_member name d.members) g.daemons;
  mboxes = mboxes;
}

unfoldable pub next_id : Group → Group
next_id g = record g { grp_id = record { memb_id = g.grp_id.memb_id; index = g.grp_id.index + 1 } }

unfoldable pub announce_departure : Groups → Group → ℕ → Name → Option (List Sent)
unfolding send_heavyweight_memb send_trans_memb send_lightweight_memb
announce_departure s g caused name =
    if is_nil g.mboxes
    then some []
    else if g.changed
    then (do
      views ← send_heavyweight_memb s.conf s.my_id s.sessions g
      some (views ++ send_trans_memb s.sessions g))
    else some (send_lightweight_memb s.sessions g caused name)

-- G_remove_group of an empty group, whose assertions are checked, or the group with its next id and
-- what is announced.
unfoldable pub keep_or_remove : Groups → ℕ → Name → Group → Option (Option Group × List Sent)
unfolding next_id announce_departure
keep_or_remove s caused name g =
    if g.num_members == 0
    then (do guard (is_nil g.daemons && is_nil g.mboxes); some (none, []))
    else (do views ← announce_departure s (next_id g) caused name; some (some (next_id g), views))

unfoldable pub extract_member :
    Groups
    → (caused : ℕ) → Name
    → Group
    → DaemonMembers
    → Option ℕ
    → Option (Option Group × List Sent)
unfolding take_mbox without_member keep_or_remove
extract_member s caused name g d mbox = do
  mboxes ← take_mbox mbox g.mboxes
  let g' = without_member s.conf g d name mboxes
  keep_or_remove s caused name g'

unfoldable pub store_or_remove : Groups → Name → Option Group → List Sent → Groups
unfolding put_group erase_group
store_or_remove s name none views = record s {
  groups_list = erase_group name s.groups_list;
  num_groups = s.num_groups - 1;
  sent = s.sent ++ views;
}
store_or_remove s name (some g) views = record s {
  groups_list = put_group g s.groups_list;
  sent = s.sent ++ views;
}

-- A local client is told of its own leave.
unfoldable pub self_leave : Groups → Group → Name → ℕ → Option (Option ℕ × List Sent)
unfolding get_session send_self_leave
self_leave s g private_name proc_id =
    if proc_id == s.my_id
    then (elim (get_session s.sessions private_name) [
      | none ↦ none
      | some ses ↦ some (some ses.mbox, send_self_leave s.sessions g ses)
    ])
    else some (none, [])

unfoldable pub leave_group : Groups → Name → Name → Proc → Group → DaemonMembers → Option Groups
unfolding get_member self_leave extract_member store_or_remove
leave_group s name private_name p g d = elim (get_member d.members name) [
  | none ↦ some s
  | some _ ↦ do
    told ← self_leave s g private_name p.id
    let (mbox, own) = told
    result ← extract_member s caused_by_leave name g d mbox
    let (rest, views) = result
    some (store_or_remove s g.name rest (own ++ views))
]

unfoldable pub leave_client : Groups → Name → Name → Option (Name × Proc) → Option Groups
unfolding get_group get_daemon leave_group
leave_client s name group_name none = some s
leave_client s name group_name (some (private_name, p)) =
    elim (get_group s.groups_list group_name) [
      | none ↦ some s
      | some g ↦ elim (get_daemon s.conf g.daemons p.id) [
        | none ↦ some s
        | some d ↦ leave_group s name private_name p g d
      ]
    ]

unfoldable pub handle_leave : Groups → (private_group_name group_name : Name) → Option Groups
unfolding takes_clients client leave_client
handle_leave s private_group_name group_name = do
  guard (takes_clients s.gstate)
  c ← client s private_group_name
  leave_client s private_group_name group_name c

-- One round of the loop of G_handle_kill: what is left of the group.
unfoldable pub kill_in_group :
    Groups → Name → Name → Proc → Group → Option (Option Group × List Sent)
unfolding get_daemon get_member local_mbox extract_member
kill_in_group s name private_name p g = elim (get_daemon s.conf g.daemons p.id) [
  | none ↦ some (some g, [])
  | some d ↦ elim (get_member d.members name) [
    | none ↦ some (some g, [])
    | some _ ↦ do
      mbox ← local_mbox s private_name p.id
      extract_member s caused_by_disconnect name g d mbox
  ]
]

unfoldable pub cons_rest : Option Group → List Group → List Group
cons_rest none gs = gs
cons_rest (some g) gs = g ∷ gs

-- A loop over the groups, which may remove the group that it is at.
unfoldable pub for_groups :
    (Group → Option (Option Group × List Sent)) → List Group → Option (List Group × List Sent)
unfolding cons_rest
for_groups step [] = some ([], [])
for_groups step (g ∷ gs) = do
  here ← step g
  others ← for_groups step gs
  let (rest, views) = here
  let (gs', later) = others
  some (cons_rest rest gs', views ++ later)

-- The groups and their number after such a loop.
unfoldable pub after_loop : Groups → List Group × List Sent → Groups
after_loop s (gs, views) = record s {
  groups_list = gs;
  num_groups = s.num_groups - (length s.groups_list - length gs);
  sent = s.sent ++ views;
}

unfoldable pub kill_client : Groups → Name → Option (Name × Proc) → Option Groups
unfolding for_groups kill_in_group after_loop
kill_client s name none = some s
kill_client s name (some (private_name, p)) =
    for_groups (kill_in_group s name private_name p) s.groups_list >>= λ result.
    some (after_loop s result)

unfoldable pub handle_kill : Groups → (private_group_name : Name) → Option Groups
unfolding takes_clients client kill_client
handle_kill s private_group_name = do
  guard (takes_clients s.gstate)
  c ← client s private_group_name
  kill_client s private_group_name c
