-- ===== src/Groups/Views.antt =====
-- spread-src-4.4.0/daemon/groups.c: what the members of a group are told. A message is kept as its
-- parts, in the order in which they stand in its buffer.
use tf.Prelude.{
  ℕ, ◌+◌, ◌-◌, ◌*◌, Bool, true, false, ◌==◌, if◌then◌else◌, Option, none, some, List, [], ◌∷◌, ◌++◌,
  length, ◌>>=◌,
}
use tf.Configuration.{Configuration}
use tf.NetTypes.{MembershipId, memb_is_equal}
use tf.Groups.Names.{max_group_name}
use tf.Groups.SkipList.{put, is_eq}
use tf.Groups.State.{
  Name, DaemonMembers, Group, Session, Notice, Sent, is_unknown_memb_id, unknown_memb_id,
  compare_nameptr, compare_daemon_vs_set,
}

-- CAUSED_BY_JOIN, CAUSED_BY_LEAVE, CAUSED_BY_DISCONNECT, CAUSED_BY_NETWORK
abbrev pub caused_by_join : ℕ
caused_by_join = 0x100

abbrev pub caused_by_leave : ℕ
caused_by_leave = 0x200

abbrev pub caused_by_disconnect : ℕ
caused_by_disconnect = 0x400

abbrev pub caused_by_network : ℕ
caused_by_network = 0x800

-- The members of a group, by daemons.
unfoldable pub members_of : List DaemonMembers → List Name
members_of [] = []
members_of (d ∷ ds) = d.members ++ members_of ds

-- The session of a mailbox wants membership messages. The mailboxes of a group have sessions.
unfoldable pub is_memb_session : List Session → ℕ → Bool
is_memb_session [] mbox = false
is_memb_session (s ∷ ss) mbox = if s.mbox == mbox then s.is_memb else is_memb_session ss mbox

-- The loops that write one message to mailboxes.
unfoldable pub write_all : List Session → List ℕ → Notice → List Sent
unfolding is_memb_session
write_all ss [] notice = []
write_all ss (m ∷ ms) notice =
    let rest = write_all ss ms notice in
    if is_memb_session ss m then record { mbox = m; notice = notice } ∷ rest else rest

-- One set of members, the one that joined or left.
unfoldable pub send_lightweight_memb : List Session → Group → ℕ → Name → List Sent
unfolding write_all members_of
send_lightweight_memb ss g caused name =
    write_all ss g.mboxes
      (Notice.reg_memb caused g.name (members_of g.daemons) g.grp_id 0 ((name ∷ []) ∷ []))

unfoldable pub send_self_leave : List Session → Group → Session → List Sent
unfolding write_all
send_self_leave ss g ses =
    if ses.is_memb then record { mbox = ses.mbox; notice = Notice.self_leave g.name } ∷ [] else []

unfoldable pub send_trans_memb : List Session → Group → List Sent
unfolding write_all
send_trans_memb ss g = write_all ss g.mboxes (Notice.trans_memb g.name g.grp_id)

-- The daemons by their memberships, then by their places: what goes through the list `temp`.
unfoldable pub by_vs_set :
    Configuration → List DaemonMembers → List DaemonMembers → List DaemonMembers
unfolding put compare_daemon_vs_set
by_vs_set config temp [] = temp
by_vs_set config temp (d ∷ ds) =
    by_vs_set config (put (compare_daemon_vs_set config) (λ (e : DaemonMembers). e) d temp) ds

-- The bytes of sets: a size and the names.
unfoldable pub vs_bytes : List (List Name) → ℕ
vs_bytes [] = 0
vs_bytes (s ∷ ss) = 4 + max_group_name * length s + vs_bytes ss

-- The members of a daemon but the joiner, and whether it was found.
unfoldable pub without_joiner : Name → List Name → Bool × List Name
unfolding compare_nameptr
without_joiner joiner [] = (false, [])
without_joiner joiner (n ∷ ns) =
    let (found, rest) = without_joiner joiner ns in
    if is_eq (compare_nameptr joiner n) then (true, ns) else (found, n ∷ rest)

-- The sets that are complete and the last one, with its membership, while the daemons are gone
-- through. Before the first daemon there is no set.
pub record VsBuf : Type 0 where
  pub complete : List (List Name)
  pub current : Option (List Name)
  pub memb_id : MembershipId
  pub offset : ℕ
  pub found_joiner : Bool

unfoldable pub sets_of : VsBuf → List (List Name)
sets_of b = elim b.current [ none ↦ b.complete | some names ↦ b.complete ++ (names ∷ []) ]

-- A daemon of another membership, or a partitioned one, begins a set.
unfoldable pub begin_set : MembershipId → VsBuf → VsBuf
unfolding is_unknown_memb_id memb_is_equal sets_of
begin_set memb_id b =
    if is_unknown_memb_id b.memb_id
    then record b { complete = sets_of b; current = some []; memb_id = memb_id }
    else if memb_is_equal b.memb_id memb_id
    then b
    else record b { complete = sets_of b; current = some []; memb_id = memb_id }

-- The daemon's own set is found once.
unfoldable pub note_offset : ℕ → DaemonMembers → VsBuf → Option VsBuf
unfolding vs_bytes
note_offset my_id d b =
    if d.proc_id == my_id
    then (if b.offset == 0 then some (record b { offset = vs_bytes b.complete }) else none)
    else some b

-- `joiner` is none for NULL.
unfoldable pub add_names : Option Name → List Name → VsBuf → VsBuf
unfolding without_joiner
add_names none names b = record b {
  current = elim b.current [ none ↦ none | some ns ↦ some (ns ++ names) ];
}
add_names (some joiner) names b =
    let (found, rest) = without_joiner joiner names in
    let kept = if b.found_joiner then names else rest in
    record b {
      current = elim b.current [ none ↦ none | some ns ↦ some (ns ++ kept) ];
      found_joiner = if b.found_joiner then true else found;
    }

unfoldable pub add_daemons : ℕ → Option Name → List DaemonMembers → VsBuf → Option VsBuf
unfolding begin_set note_offset add_names
add_daemons my_id joiner [] b = some b
add_daemons my_id joiner (d ∷ ds) b = do
  b' ← note_offset my_id d (begin_set d.memb_id b)
  add_daemons my_id joiner ds (add_names joiner d.members b')

abbrev pub no_sets : VsBuf
no_sets = record {
  complete = [];
  current = none;
  memb_id = unknown_memb_id;
  offset = 0;
  found_joiner = false;
}

-- The joiner is the last set.
unfoldable pub close_sets : Option Name → VsBuf → Option (ℕ × List (List Name))
unfolding sets_of
close_sets none b = some (b.offset, sets_of b)
close_sets (some joiner) b =
    if b.found_joiner then some (b.offset, sets_of b ++ ((joiner ∷ []) ∷ [])) else none

-- The local offset and the sets. `none`: the process ends by an alarm.
unfoldable pub build_memb_vs_buf :
    Configuration → ℕ → Group → Option Name → Option (ℕ × List (List Name))
unfolding by_vs_set add_daemons close_sets
build_memb_vs_buf config my_id g joiner = do
  b ← add_daemons my_id joiner (by_vs_set config [] g.daemons) no_sets
  close_sets joiner b

-- memcmp of mailboxes: all but the joiner's.
unfoldable pub other_mboxes : Option ℕ → List ℕ → List ℕ
other_mboxes none ms = ms
other_mboxes (some new_mbox) [] = []
other_mboxes (some new_mbox) (m ∷ ms) =
    let rest = other_mboxes (some new_mbox) ms in if new_mbox == m then rest else m ∷ rest

-- The joiner's set starts where all but the last set and its one name end.
unfoldable pub joiner_offset : List (List Name) → ℕ
unfolding vs_bytes
joiner_offset sets = vs_bytes sets - (4 + max_group_name)

unfoldable pub send_heavyweight_join :
    Configuration → ℕ → List Session → Group → Option Name → Option ℕ → Option (List Sent)
unfolding build_memb_vs_buf other_mboxes write_all joiner_offset members_of
send_heavyweight_join config my_id ss g joiner new_mbox = do
  built ← build_memb_vs_buf config my_id g joiner
  some (
      let (offset, sets) = built in
      write_all ss (other_mboxes new_mbox g.mboxes)
        (Notice.reg_memb caused_by_network g.name (members_of g.daemons) g.grp_id offset sets)
      ++ (elim new_mbox [
        | none ↦ []
        | some mbox ↦ write_all ss (mbox ∷ []) (
            Notice.reg_memb caused_by_network g.name (members_of g.daemons) g.grp_id
              (joiner_offset sets) sets)
      ]))

unfoldable pub send_heavyweight_memb : Configuration → ℕ → List Session → Group → Option (List Sent)
unfolding send_heavyweight_join
send_heavyweight_memb config my_id ss g = send_heavyweight_join config my_id ss g none none
