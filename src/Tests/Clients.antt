-- ===== src/Tests/Clients.antt =====
-- The clients of two daemons in groups, at concrete inputs.
use tf.Prelude.{ℕ, ◌≡◌, ◌↔◌, refl, arith, true, false, none, some, List, [], ◌∷◌}
use tf.Configuration.{Proc, Configuration, proc_by_id_in_conf}
use tf.Groups.State.{
  Name, GState, DaemonMembers, Group, Session, Groups, compare_nameptr, compare_proc_ids_by_conf,
  get_session,
}
use tf.Groups.Views.{build_memb_vs_buf}
use tf.Groups.Names.{private_to_names, private_group_name}
use tf.Groups.Naming.{IsName, private_to_names-private_group_name}
use tf.Groups.Handle.{takes_clients, client, handle_join}
use tf.Groups.Depart.{handle_leave, handle_kill}
use tf.Groups.Invariant.{IsGroup}
use tf.Groups.SetSums.{in_sets, in_daemons}
use tf.Groups.Sets.{build_memb_vs_buf-IsPartition}
use tf.Groups.Join.{Joined, handle_join-Joined}
use tf.Groups.WellFormed.{IsGroups, IsClient}
use tf.Groups.Leave.{Left, handle_leave-Left}
use tf.Groups.Kill.{Gone, handle_kill-Gone}
use tf.Groups.State.{is_partitioned_daemon, is_unknown_memb_id}
use tf.Groups.Change.{handle_trans_memb, reg_subtractive, in_memb}
use tf.Groups.Transitional.{IsSettled}
use tf.Groups.Departures.{Remaining, daemons_lost-Remaining}
use tf.Groups.Cascade.{Cascaded, handle_trans_memb-Cascaded}
use tf.Tests.Data.{memb_id}

-- The daemons `a` and `b`.
abbrev named : ℕ → ℕ → Proc
named id letter = record {
  name = letter ∷ [];
  port = 4803;
  seg_index = 0;
  index_in_seg = 0;
  id = id;
  ifc = record { ip = id; port = 4803; type = 0 } ∷ [];
}

abbrev pair : Configuration
pair = record {
  hash_code = 0;
  allprocs = named 10 b'a' ∷ named 20 b'b' ∷ [];
  segments =
      record { bcast_address = 1; port = 4803; procs = named 10 b'a' ∷ named 20 b'b' ∷ [] } ∷ [];
}

-- #x#a, #y#a and #z#b
abbrev x : Name
x = b'#' ∷ b'x' ∷ b'#' ∷ b'a' ∷ []

abbrev y : Name
y = b'#' ∷ b'y' ∷ b'#' ∷ b'a' ∷ []

abbrev z : Name
z = b'#' ∷ b'z' ∷ b'#' ∷ b'b' ∷ []

abbrev room : Name
room = b'r' ∷ []

abbrev members_at : ℕ → List Name → DaemonMembers
members_at proc_id members = record { proc_id = proc_id; memb_id = memb_id; members = members }

-- #x#a and #z#b are in the room.
abbrev room_group : Group
room_group = record {
  name = room;
  grp_id = record { memb_id = memb_id; index = 2 };
  changed = false;
  num_members = 2;
  daemons = members_at 10 (x ∷ []) ∷ members_at 20 (z ∷ []) ∷ [];
  mboxes = 5 ∷ [];
}

abbrev sessions : List Session
sessions =
    record { name = b'x' ∷ []; mbox = 5; is_memb = true }
    ∷ record { name = b'y' ∷ []; mbox = 6; is_memb = true }
    ∷ []

abbrev clients : Groups
clients = record {
  gstate = GState.gop;
  my_id = 10;
  conf = pair;
  sessions = sessions;
  groups_list = room_group ∷ [];
  num_groups = 1;
  reg_memb = pair;
  reg_memb_id = memb_id;
  trans_memb = pair;
  trans_memb_id = memb_id;
  synced_set = 10 ∷ 20 ∷ [];
  sent = [];
}

IsGroup-room : IsGroup pair 10 sessions room_group
unfolding compare_proc_ids_by_conf compare_nameptr proc_by_id_in_conf private_to_names get_session
IsGroup-room = record {
  sorted = ((refl, tt), (tt, tt));
  daemons = (
    record { own = refl; sorted = (tt, tt); inhabited = refl },
    (record { own = refl; sorted = (tt, tt); inhabited = refl }, tt),
  );
  counted = refl;
  mailboxes = λ m. omega arith;
}

IsGroups-clients : IsGroups clients
IsGroups-clients = record {
  sorted = (tt, tt);
  groups = ((IsGroup-room, omega arith), tt);
  counted = refl;
}

IsClient-x : IsClient clients x (b'x' ∷ []) (named 10 b'a')
unfolding client proc_by_id_in_conf get_session
IsClient-x = record {
  known = refl;
  own = refl;
  session = λ e. (record { name = b'x' ∷ []; mbox = 5; is_memb = true }, refl);
}

IsClient-y : IsClient clients y (b'y' ∷ []) (named 10 b'a')
unfolding client proc_by_id_in_conf get_session
IsClient-y = record {
  known = refl;
  own = refl;
  session = λ e. (record { name = b'y' ∷ []; mbox = 6; is_memb = true }, refl);
}

handle_join-Joined_example :
    (s' : Groups) × (handle_join clients y room ≡ some s')
    × IsGroups s'
    × Joined clients room y 10 s'
unfolding takes_clients
handle_join-Joined_example =
    handle_join-Joined clients y room (b'y' ∷ []) (named 10 b'a') IsGroups-clients refl IsClient-y

handle_leave-Left_example :
    (s' : Groups) × (handle_leave clients x room ≡ some s')
    × IsGroups s'
    × Left clients room x 10 s'
unfolding takes_clients
handle_leave-Left_example =
    handle_leave-Left clients x room (b'x' ∷ []) (named 10 b'a') IsGroups-clients refl IsClient-x

handle_kill-Gone_example :
    (s' : Groups) × (handle_kill clients x ≡ some s') × IsGroups s' × Gone clients x 10 s'
unfolding takes_clients
handle_kill-Gone_example =
    handle_kill-Gone clients x (b'x' ∷ []) (named 10 b'a') IsGroups-clients refl IsClient-x

-- The daemon `a` alone.
abbrev alone : Configuration
alone = record {
  hash_code = 0;
  allprocs = named 10 b'a' ∷ [];
  segments = record { bcast_address = 1; port = 4803; procs = named 10 b'a' ∷ [] } ∷ [];
}

IsSettled-room : IsSettled room_group
unfolding is_partitioned_daemon
IsSettled-room = record { established = (refl, (refl, tt)); unchanged = refl }

daemons_lost-Remaining_example :
    (s1 s2 : Groups) × (handle_trans_memb clients alone memb_id ≡ some s1)
    × (reg_subtractive s1 alone memb_id ≡ some s2)
    × Remaining clients alone s2
unfolding in_memb is_unknown_memb_id
daemons_lost-Remaining_example =
    daemons_lost-Remaining clients alone memb_id alone memb_id IsGroups-clients (IsSettled-room, tt)
      refl refl refl refl

build_memb_vs_buf-IsPartition_example :
    (offset : ℕ) × (sets : List (List Name)) × (build_memb_vs_buf pair 10 room_group (some z)
      ≡ some (offset, sets))
    × ((w : Name → ℕ) → in_sets w sets ≡ in_daemons w room_group.daemons)
unfolding compare_nameptr
build_memb_vs_buf-IsPartition_example =
    build_memb_vs_buf-IsPartition pair 10 room_group (some z) IsGroup-room.sorted (omega arith)

-- The joiner has a set of its own, which starts behind that of #x#a.
build_memb_vs_buf-room :
    build_memb_vs_buf pair 10 room_group (some z) ≡ some (0, (x ∷ []) ∷ (z ∷ []) ∷ [])
unfolding build_memb_vs_buf
build_memb_vs_buf-room = refl

-- The last local member leaves, and the room stays with its other one.
handle_leave-groups :
    (elim (handle_leave clients x room) [ none ↦ [] | some s ↦ s.groups_list ])
    ≡ record room_group {
      grp_id = record { memb_id = memb_id; index = 3 };
      num_members = 1;
      daemons = members_at 20 (z ∷ []) ∷ [];
      mboxes = [];
    }
      ∷ []
unfolding handle_leave
handle_leave-groups = refl

-- The other daemon is lost, and #z#b with it.
daemons_lost-groups :
    (elim (handle_trans_memb clients alone memb_id) [
      | none ↦ []
      | some s ↦ elim (reg_subtractive s alone memb_id) [ none ↦ [] | some s' ↦ s'.groups_list ]
    ])
    ≡ record room_group {
      grp_id = record { memb_id = memb_id; index = 1 };
      num_members = 1;
      daemons = members_at 10 (x ∷ []) ∷ [];
    }
      ∷ []
unfolding handle_trans_memb reg_subtractive
daemons_lost-groups = refl

private_to_names-private_group_name_example : (private_to_names x ≡ some (b'x' ∷ [], b'a' ∷ [])) ↔ (
    (x ≡ private_group_name (b'x' ∷ []) (b'a' ∷ []))
    × IsName 10 (b'x' ∷ [])
    × IsName 19 (b'a' ∷ []))
private_to_names-private_group_name_example =
    private_to_names-private_group_name x (b'x' ∷ []) (b'a' ∷ [])

-- A name of 11 characters is too long.
private_to_names-long :
    private_to_names (
      private_group_name
        (b'l' ∷ b'o' ∷ b'n' ∷ b'g' ∷ b'e' ∷ b's' ∷ b't' ∷ b'n' ∷ b'a' ∷ b'm' ∷ b'e' ∷ [])
        (b'a' ∷ []))
    ≡ none
unfolding private_to_names private_group_name
private_to_names-long = refl

-- The groups are exchanged.
abbrev gathering : Groups
gathering = record clients { gstate = GState.ggather }

IsGroups-gathering : IsGroups gathering
IsGroups-gathering = record {
  sorted = (tt, tt);
  groups = ((IsGroup-room, omega arith), tt);
  counted = refl;
}

handle_trans_memb-Cascaded_example :
    (s' : Groups) × (handle_trans_memb gathering alone memb_id ≡ some s')
    × Cascaded gathering alone s'
handle_trans_memb-Cascaded_example =
    handle_trans_memb-Cascaded gathering alone memb_id IsGroups-gathering refl
