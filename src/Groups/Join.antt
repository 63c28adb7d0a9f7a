-- ===== src/Groups/Join.antt =====
-- G_handle_join of spread-src-4.4.0/daemon/groups.c.
use tf.Prelude.{
  ℕ, ◌<◌, ◌≡◌, refl, ap, sym, ◌∙◌, inl, inr, arith, true, ◌&&◌, ◌||◌, Option, none, some, List, All,
  Bool-cases, Option-cases,
}
use tf.Configuration.{Configuration, Proc}
use tf.Groups.Totals.{total, All-find, find-key}
use tf.Groups.Orders.{compare_nameptr-IsOrder, compare_nameptr-eq}
use tf.Groups.State.{
  Name, DaemonMembers, Group, Sent, Groups, compare_nameptr, compare_proc_ids_by_conf, get_group,
  get_daemon, get_member,
}
use tf.Groups.Handle.{
  takes_clients, client, group_or_new, daemon_or_new, new_daemon, with_member, store_group,
  join_group, join_client, handle_join,
}
use tf.Groups.Invariant.{is_own, own_ids_eq, IsDaemon, total-put_member}
use tf.Groups.Joining.{
  Entry, proc_id_of, daemon_or_new-Entry, with_member-IsGroup, total-put_daemon, weight-Entry,
}
use tf.Groups.Sets.{Among, is_joiner}
use tf.Groups.Members.{
  same_name, same_daemon, is_member, get_group-put, holds-with_member, get_member-nil,
  get_daemon-nil, get_daemon-same,
}
use tf.Groups.WellFormed.{
  IsGroups, IsClient, local_mbox-some, announce_join-some, Target, group_or_new-Target,
  store_group-IsGroups,
}

-- The members after a join.
abbrev pub Joined : Groups → Name → Name → ℕ → Groups → Type 0
Joined s group client id s' =
    (i : ℕ) (g c : Name)
    → is_member s' i g c ≡ (
        (same_name g group && (same_daemon s.conf i id && same_name c client)) || is_member s i g c)

with_member-name :
    (config : Configuration) (g : Group) (d : DaemonMembers) (name : Name) (mbox : Option ℕ)
    → (with_member config g d name mbox).name ≡ g.name
unfolding with_member
with_member-name config g d name mbox = refl

is_joiner_self : (name : Name) → is_joiner name name ≡ 1
is_joiner_self name = ground (arith, compare_nameptr-IsOrder.self name)

module _ (s : Groups) (name group private_name : Name) (p : Proc) (g : Group) (d : DaemonMembers)
    (good : IsGroups s) (target : Target s group g) (entry : Entry s.conf g.daemons d) where
  -- A client that is a member is one of a group and a daemon that are not new.
  found_there :
      {found : Name}
      → get_member d.members name ≡ some found
      → (get_group s.groups_list group ≡ some g) × (get_daemon s.conf g.daemons d.proc_id ≡ some d)
  found_there {found} e = elim entry.stands [
    | inr (absent, empty) ↦ absurd (cc (e, get_member-nil d.members name (rw empty refl)))
    | inl here ↦ elim target.stands [
      | inl there ↦ (there, here)
      | inr (absent, empty) ↦ absurd (cc (here, get_daemon-nil s.conf g.daemons d.proc_id empty))
    ]
  ]

  Joined-member :
      {found : Name} → get_member d.members name ≡ some found → Joined s group name d.proc_id s
  Joined-member {found} e i h c =
      let (there, here) = found_there e in
      elim (Bool-cases
        (same_name h group && (same_daemon s.conf i d.proc_id && same_name c name))) [
          | inr other ↦ rw other
          | inl same ↦
              let h_eq = compare_nameptr-eq h group (ground (arith, same)) in
              let c_eq = compare_nameptr-eq c name (ground (arith, same)) in
              ground (
                arith,
                ap (get_group s.groups_list) h_eq,
                there,
                get_daemon-same s.conf i d.proc_id g.daemons,
                same,
                here,
                ap (get_member d.members) c_eq,
                e,
              )
        ]

  Joined-new :
      (mbox : Option ℕ) (views : List Sent)
      → Joined s group name d.proc_id (store_group s (with_member s.conf g d name mbox) views)
  unfolding store_group
  Joined-new mbox views i h c =
      let put = get_group-put h (with_member s.conf g d name mbox) s.groups_list in
      let name_eq = with_member-name s.conf g d name mbox ∙ target.named in
      elim (Bool-cases (same_name h group)) [
        | inr other ↦ ground (arith, put, name_eq, ap (compare_nameptr h) name_eq, other)
        | inl same ↦
            let h_eq = compare_nameptr-eq h group (ground (arith, same)) in
            ground (
              arith,
              put,
              ap (compare_nameptr h) name_eq,
              same,
              ap (get_group s.groups_list) h_eq,
              target.stands,
              holds-with_member s.conf g d name mbox entry i c,
              get_daemon-nil s.conf g.daemons i,
            )
      ]

  with_member-Among :
      (mbox : Option ℕ)
      → get_member d.members name ≡ none
      → Among (some name) (with_member s.conf g d name mbox).daemons
  unfolding with_member
  with_member-Among mbox absent =
      let w = λ (e : DaemonMembers). total (is_joiner name) e.members in
      omega (
        arith,
        is_joiner_self name,
        total-put_daemon s.conf s.my_id s.sessions g d name mbox w (is_joiner name name)
            (weight-Entry s.conf s.my_id s.sessions g d name mbox w entry
              (ap (total (is_joiner name))))
            (total-put_member (is_joiner name) name d.members absent),
      )

  with_member-num : (mbox : Option ℕ) → 0 < (with_member s.conf g d name mbox).num_members
  unfolding with_member
  with_member-num mbox = omega arith

  join_group-Joined :
      IsClient s name private_name p
      → d.proc_id ≡ p.id
      → (s' : Groups) × (join_group s name private_name p g d ≡ some s')
        × IsGroups s'
        × Joined s group name d.proc_id s'
  unfolding join_group
  join_group-Joined is_client same = elim (Option-cases (get_member d.members name)) [
    | inr (found, e) ↦ (s, rw (e, join_group), good, Joined-member e)
    | inl absent ↦
        let (mbox, at, arrived) = local_mbox-some s name private_name p d.proc_id is_client same in
        let g' = with_member s.conf g d name mbox in
        let well =
          with_member-IsGroup s.conf s.my_id s.sessions g d name mbox target.well_formed entry
            absent arrived in
        let (views, told) =
          announce_join-some s g' name mbox well.sorted (with_member-Among mbox absent) in
        (
          store_group s g' views,
          rw (absent, join_group) (rw at (rw told)),
          store_group-IsGroups s g' views good well (with_member-num mbox),
          Joined-new mbox views,
        )
  ]

-- The entry of a client's daemon goes by the daemon's id.
pub get_daemon-id :
    (config : Configuration) (ds : List DaemonMembers) (id : ℕ) (d : DaemonMembers)
    → All (IsDaemon config) ds
    → is_own config id ≡ true
    → get_daemon config ds id ≡ some d
    → d.proc_id ≡ id
unfolding get_daemon
get_daemon-id config ds id d h own e =
    let cmp = compare_proc_ids_by_conf config in
    let is_daemon = All-find cmp proc_id_of (IsDaemon config) id ds h e in
    sym (own_ids_eq config id d.proc_id own is_daemon.own (find-key cmp proc_id_of id ds d e))

daemon_or_new-id :
    (s : Groups) (g : Group) (id : ℕ)
    → All (IsDaemon s.conf) g.daemons
    → is_own s.conf id ≡ true
    → (daemon_or_new s g id).proc_id ≡ id
unfolding daemon_or_new new_daemon
daemon_or_new-id s g id h own = elim (Option-cases (get_daemon s.conf g.daemons id)) [
  | inl absent ↦ rw absent
  | inr (d, e) ↦ rw e (get_daemon-id s.conf g.daemons id d h own e)
]

-- G_handle_join of a client with a session, in GOP or GTRANS, returns, and keeps the groups
-- well-formed: each group has its daemons in order, its number of members, and the mailboxes of the
-- local members. The client, at its daemon, is a member of the group afterwards, and otherwise the
-- same clients are members of the same groups.
pub handle_join-Joined :
    (s : Groups) (name group private_name : Name) (p : Proc)
    → IsGroups s
    → takes_clients s.gstate ≡ true
    → IsClient s name private_name p
    → (s' : Groups) × (handle_join s name group ≡ some s')
      × IsGroups s'
      × Joined s group name p.id s'
unfolding handle_join join_client
handle_join-Joined s name group private_name p good takes c =
    let target = group_or_new-Target s group good in
    let g = group_or_new s group in
    let entry = daemon_or_new-Entry s g p.id target.well_formed.daemons c.own in
    let id = daemon_or_new-id s g p.id target.well_formed.daemons c.own in
    let (s', returns, good', joined) =
      join_group-Joined s name group private_name p g (daemon_or_new s g p.id) good target entry c
        id in
    (s', rw (takes, c.known) returns, good', rw id at joined)
