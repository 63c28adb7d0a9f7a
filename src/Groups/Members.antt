-- ===== src/Groups/Members.antt =====
-- Who is a member, of a group of spread-src-4.4.0/daemon/groups.c and of all groups.
use tf.Prelude.{
  ℕ, ◌≡◌, refl, ap, inl, inr, arith, Bool, true, false, not, ◌&&◌, ◌||◌, if◌then◌else◌, Option,
  none, some, List, [], ◌∷◌, Bool-cases, Option-cases,
}
use tf.Configuration.{Configuration}
use tf.Groups.SkipList.{find, is_eq, Sorted, find-put, find-erase, find-same}
use tf.Groups.Totals.{find-key}
use tf.Groups.Orders.{compare_nameptr-IsOrder, compare_nameptr-eq, compare_proc_ids_by_conf-IsOrder}
use tf.Groups.State.{
  Name, DaemonMembers, Group, Groups, compare_nameptr, compare_proc_ids_by_conf, get_group,
  put_group, erase_group, get_daemon, put_daemon, erase_daemon, get_member, put_member,
  erase_member,
}
use tf.Groups.Handle.{is_some, is_nil, with_member}
use tf.Groups.Depart.{without_member, shrink_daemon}
use tf.Groups.Joining.{Entry, proc_id_of}

abbrev pub same_name : Name → Name → Bool
same_name a b = is_eq (compare_nameptr a b)

abbrev pub same_daemon : Configuration → ℕ → ℕ → Bool
same_daemon config a b = is_eq (compare_proc_ids_by_conf config a b)

-- Is the client a member at the daemon?
abbrev pub holds : Configuration → List DaemonMembers → ℕ → Name → Bool
holds config ds id n = elim (get_daemon config ds id) [
  | none ↦ false
  | some d ↦ is_some (get_member d.members n)
]

-- And of the group?
abbrev pub in_group : Configuration → Option Group → ℕ → Name → Bool
in_group config none id n = false
in_group config (some g) id n = holds config g.daemons id n

-- The abstract view of the groups: which client at which daemon is a member of which group.
abbrev pub is_member : Groups → (id : ℕ) (group client : Name) → Bool
is_member s id group client = in_group s.conf (get_group s.groups_list group) id client

abbrev pub name_of : Group → Name
name_of g = g.name

abbrev pub itself : Name → Name
itself n = n

get_member-put :
    (j n : Name) (ms : List Name)
    → get_member (put_member n ms) j ≡ (if same_name j n then some n else get_member ms j)
unfolding get_member put_member
get_member-put j n ms = find-put compare_nameptr itself compare_nameptr-IsOrder j n ms

get_member-erase :
    (j n : Name) (ms : List Name)
    → Sorted compare_nameptr itself ms
    → get_member (erase_member n ms) j ≡ (if same_name j n then none else get_member ms j)
unfolding get_member erase_member
get_member-erase j n ms h = find-erase compare_nameptr itself compare_nameptr-IsOrder j n ms h

pub get_member-nil : (ms : List Name) (j : Name) → is_nil ms ≡ true → get_member ms j ≡ none
unfolding get_member find
get_member-nil [] j h = refl
get_member-nil (n ∷ ns) j h = cc

pub get_daemon-nil :
    (config : Configuration) (ds : List DaemonMembers) (id : ℕ)
    → ds ≡ []
    → get_daemon config ds id ≡ none
unfolding get_daemon find
get_daemon-nil config [] id e = refl
get_daemon-nil config (d ∷ ds) id e = cc

module _ (config : Configuration) where
  get_daemon-put :
      (id : ℕ) (d : DaemonMembers) (ds : List DaemonMembers)
      → get_daemon config (put_daemon config d ds) id
        ≡ (if same_daemon config id d.proc_id then some d else get_daemon config ds id)
  unfolding get_daemon put_daemon
  get_daemon-put id d ds =
      find-put (compare_proc_ids_by_conf config) proc_id_of
        (compare_proc_ids_by_conf-IsOrder config) id d ds

  get_daemon-erase :
      (id k : ℕ) (ds : List DaemonMembers)
      → Sorted (compare_proc_ids_by_conf config) proc_id_of ds
      → get_daemon config (erase_daemon config k ds) id
        ≡ (if same_daemon config id k then none else get_daemon config ds id)
  unfolding get_daemon erase_daemon
  get_daemon-erase id k ds h =
      find-erase (compare_proc_ids_by_conf config) proc_id_of
        (compare_proc_ids_by_conf-IsOrder config) id k ds h

  pub get_daemon-same :
      (id k : ℕ) (ds : List DaemonMembers)
      → same_daemon config id k ≡ true
      → get_daemon config ds id ≡ get_daemon config ds k
  unfolding get_daemon
  get_daemon-same id k ds e =
      find-same (compare_proc_ids_by_conf config) proc_id_of
        (compare_proc_ids_by_conf-IsOrder config) id k ds (ground (arith, e))

pub get_group-put :
    (name : Name) (g : Group) (gs : List Group)
    → get_group (put_group g gs) name
      ≡ (if same_name name g.name then some g else get_group gs name)
unfolding get_group put_group
get_group-put name g gs = find-put compare_nameptr name_of compare_nameptr-IsOrder name g gs

pub get_group-erase :
    (name k : Name) (gs : List Group)
    → Sorted compare_nameptr name_of gs
    → get_group (erase_group k gs) name ≡ (if same_name name k then none else get_group gs name)
unfolding get_group erase_group
get_group-erase name k gs h = find-erase compare_nameptr name_of compare_nameptr-IsOrder name k gs h

-- A group is found under its name.
pub get_group-name :
    (gs : List Group) (name : Name) (g : Group) → get_group gs name ≡ some g → name ≡ g.name
unfolding get_group
get_group-name gs name g e =
    compare_nameptr-eq name g.name (find-key compare_nameptr name_of name gs g e)

-- The client and no other joins.
pub holds-with_member :
    (config : Configuration) (g : Group) (d : DaemonMembers) (name : Name) (mbox : Option ℕ)
    → Entry config g.daemons d
    → (id : ℕ) (n : Name)
    → holds config (with_member config g d name mbox).daemons id n
      ≡ ((same_daemon config id d.proc_id && same_name n name) || holds config g.daemons id n)
unfolding with_member
holds-with_member config g d name mbox entry id n = ground (
  arith,
  get_daemon-put config id (record d { members = put_member name d.members }) g.daemons,
  get_member-put n name d.members,
  get_daemon-same config id d.proc_id g.daemons,
  entry.stands,
  ap is_nil {x = d.members} {y = []},
  get_member-nil d.members n,
)

-- The client and no other leaves.
pub holds-without_member :
    (config : Configuration) (g : Group) (d : DaemonMembers) (name : Name) (mboxes : List ℕ)
    → Sorted (compare_proc_ids_by_conf config) proc_id_of g.daemons
    → Sorted compare_nameptr itself d.members
    → get_daemon config g.daemons d.proc_id ≡ some d
    → (id : ℕ) (n : Name)
    → holds config (without_member config g d name mboxes).daemons id n
      ≡ (not (same_daemon config id d.proc_id && same_name n name) && holds config g.daemons id n)
unfolding without_member shrink_daemon
holds-without_member config g d name mboxes sorted own_sorted here id n =
    let left = erase_member name d.members in
    elim (Bool-cases (is_nil left)) [
      | inl e ↦ rw e (
          ground (
            arith,
            get_daemon-erase config id d.proc_id g.daemons sorted,
            get_daemon-same config id d.proc_id g.daemons,
            get_member-erase n name d.members own_sorted,
            get_member-nil left n e,
            here,
          ))
      | inr e ↦ rw e (
          ground (
            arith,
            get_daemon-put config id (record d { members = left }) g.daemons,
            get_daemon-same config id d.proc_id g.daemons,
            get_member-erase n name d.members own_sorted,
            here,
          ))
    ]

-- Ids at one place are one daemon.
pub is_member-same :
    (s : Groups) (i id : ℕ) (group client : Name)
    → same_daemon s.conf i id ≡ true
    → is_member s i group client ≡ is_member s id group client
is_member-same s i id group client e = elim (Option-cases (get_group s.groups_list group)) [
  | inl absent ↦ ground (arith, absent)
  | inr (g, there) ↦ ground (arith, there, get_daemon-same s.conf i id g.daemons e)
]
