-- ===== src/Groups/State.antt =====
-- spread-src-4.4.0/daemon/groups.c: the state of the groups, the orders of the skip lists and the
-- searches. The structs stand in spread-src-4.4.0/daemon/sess_body.h. A name is its bytes without the
-- final null, and a session of a client keeps what groups.c reads of it.
use Prim.Native.Nat.{Ordering, compare}
use tf.Prelude.{ℕ, ◌+◌, ◌-◌, ◌%◌, Bool, ◌==◌, ltb, if◌then◌else◌, Option, none, some, List, [], ◌∷◌}
use tf.Configuration.{Configuration, proc_by_id_in_conf}
use tf.NetTypes.{MembershipId}
use tf.Groups.SkipList.{find, put, erase}

abbrev pub Name : Type 0
Name = List ℕ

-- Gstate
pub data GState : Type 0 where
  gop : GState
  gtrans : GState
  ggather : GState
  ggt : GState

-- group_id. The source does not guard the index against overflow.
pub record GroupId : Type 0 where
  pub memb_id : MembershipId
  pub index : ℕ

pub record DaemonMembers : Type 0 where
  pub proc_id : ℕ
  pub memb_id : MembershipId
  pub members : List Name

pub record Group : Type 0 where
  pub name : Name
  pub grp_id : GroupId
  pub changed : Bool
  pub num_members : ℕ
  pub daemons : List DaemonMembers
  pub mboxes : List ℕ

-- A session: its name, its mailbox, and whether it asked for membership messages.
pub record Session : Type 0 where
  pub name : Name
  pub mbox : ℕ
  pub is_memb : Bool

-- What a session is sent: a regular membership with its members, the group's id, the offset of the
-- receiver's set and the sets of members that came together; a transitional one; its own leave.
pub data Notice : Type 0 where
  reg_memb :
      (caused : ℕ) (name : Name) (members : List Name) (grp_id : GroupId) (offset : ℕ)
      (vs_sets : List (List Name))
      → Notice
  trans_memb : (name : Name) (grp_id : GroupId) → Notice
  self_leave : (name : Name) → Notice

pub record Sent : Type 0 where
  pub mbox : ℕ
  pub notice : Notice

-- The variables of the file, the configuration (Cn_active, a copy of Conf()), the sessions, My.id,
-- and what was written to sessions.
pub record Groups : Type 0 where
  pub gstate : GState
  pub my_id : ℕ
  pub conf : Configuration
  pub sessions : List Session
  pub groups_list : List Group
  pub num_groups : ℕ
  pub reg_memb : Configuration
  pub reg_memb_id : MembershipId
  pub trans_memb : Configuration
  pub trans_memb_id : MembershipId
  pub synced_set : List ℕ
  pub sent : List Sent

-- proc_id -1
abbrev pub unknown_memb_id : MembershipId
unknown_memb_id = record { proc_id = 0xffff_ffff; time = 0xffff_ffff }

unfoldable pub is_unknown_memb_id : MembershipId → Bool
is_unknown_memb_id m = m.proc_id == 0xffff_ffff

unfoldable pub is_partitioned_daemon : DaemonMembers → Bool
unfolding is_unknown_memb_id
is_partitioned_daemon d = is_unknown_memb_id d.memb_id

-- strncmp of names, which are shorter than the bound.
unfoldable pub compare_nameptr : Name → Name → Ordering
compare_nameptr [] [] = Ordering.eq
compare_nameptr [] (y ∷ ys) = Ordering.lt
compare_nameptr (x ∷ xs) [] = Ordering.gt
compare_nameptr (x ∷ xs) (y ∷ ys) = elim (compare x y) [
  | Ordering.lt ↦ Ordering.lt
  | Ordering.eq ↦ compare_nameptr xs ys
  | Ordering.gt ↦ Ordering.gt
]

-- By the places in the configuration; daemons that are not there come last, by their ids.
unfoldable pub compare_places : Option ℕ → Option ℕ → (aip bip : ℕ) → Ordering
compare_places (some ia) (some ib) aip bip = compare ia ib
compare_places (some ia) none aip bip = Ordering.lt
compare_places none (some ib) aip bip = Ordering.gt
compare_places none none aip bip = compare aip bip

unfoldable pub place : Configuration → ℕ → Option ℕ
unfolding proc_by_id_in_conf
place config ip = elim (proc_by_id_in_conf config ip) [ none ↦ none | some (i, p) ↦ some i ]

unfoldable pub compare_proc_ids_by_conf : Configuration → ℕ → ℕ → Ordering
unfolding compare_places place
compare_proc_ids_by_conf config aip bip =
    compare_places (place config aip) (place config bip) aip bip

-- The sign of the difference of two int32.
unfoldable pub sign32 : ℕ → ℕ → Ordering
sign32 a b =
    let d = (a + 0x1_0000_0000 - b) % 0x1_0000_0000 in
    if d == 0 then Ordering.eq else if ltb d 0x8000_0000 then Ordering.gt else Ordering.lt

-- Unknown ids come last.
unfoldable pub compare_memb_ids : MembershipId → MembershipId → Ordering
unfolding is_unknown_memb_id sign32
compare_memb_ids mid1 mid2 =
    if is_unknown_memb_id mid1
    then (if is_unknown_memb_id mid2 then Ordering.eq else Ordering.gt)
    else if is_unknown_memb_id mid2
    then Ordering.lt
    else if mid1.proc_id == mid2.proc_id
    then sign32 mid1.time mid2.time
    else sign32 mid1.proc_id mid2.proc_id

unfoldable pub compare_daemon_vs_set : Configuration → DaemonMembers → DaemonMembers → Ordering
unfolding compare_memb_ids compare_proc_ids_by_conf
compare_daemon_vs_set config da db = elim (compare_memb_ids da.memb_id db.memb_id) [
  | Ordering.eq ↦ compare_proc_ids_by_conf config da.proc_id db.proc_id
  | other ↦ other
]

-- The skip lists: of groups by name, of daemons by their places, of members by name.
unfoldable pub get_group : List Group → Name → Option Group
unfolding find compare_nameptr
get_group gs name = find compare_nameptr (λ (g : Group). g.name) name gs

unfoldable pub put_group : Group → List Group → List Group
unfolding put compare_nameptr
put_group g gs = put compare_nameptr (λ (h : Group). h.name) g gs

unfoldable pub erase_group : Name → List Group → List Group
unfolding erase compare_nameptr
erase_group name gs = erase compare_nameptr (λ (g : Group). g.name) name gs

unfoldable pub get_daemon : Configuration → List DaemonMembers → ℕ → Option DaemonMembers
unfolding find compare_proc_ids_by_conf
get_daemon config ds proc_id =
    find (compare_proc_ids_by_conf config) (λ (d : DaemonMembers). d.proc_id) proc_id ds

unfoldable pub put_daemon : Configuration → DaemonMembers → List DaemonMembers → List DaemonMembers
unfolding put compare_proc_ids_by_conf
put_daemon config d ds =
    put (compare_proc_ids_by_conf config) (λ (e : DaemonMembers). e.proc_id) d ds

unfoldable pub erase_daemon : Configuration → ℕ → List DaemonMembers → List DaemonMembers
unfolding erase compare_proc_ids_by_conf
erase_daemon config proc_id ds =
    erase (compare_proc_ids_by_conf config) (λ (d : DaemonMembers). d.proc_id) proc_id ds

unfoldable pub get_member : List Name → Name → Option Name
unfolding find compare_nameptr
get_member ms name = find compare_nameptr (λ (n : Name). n) name ms

unfoldable pub put_member : Name → List Name → List Name
unfolding put compare_nameptr
put_member name ms = put compare_nameptr (λ (n : Name). n) name ms

unfoldable pub erase_member : Name → List Name → List Name
unfolding erase compare_nameptr
erase_member name ms = erase compare_nameptr (λ (n : Name). n) name ms

-- session.c: Sess_get_session. The list of the sessions is in the order of their names, so that the
-- early return at a greater name finds as much.
unfoldable pub get_session : List Session → Name → Option Session
unfolding compare_nameptr
get_session [] name = none
get_session (s ∷ ss) name = elim (compare_nameptr s.name name) [
  | Ordering.lt ↦ get_session ss name
  | Ordering.eq ↦ some s
  | Ordering.gt ↦ none
]
