-- ===== src/Membership/Gather/Read.antt =====
-- Read_form2 of spread-src-4.4.0/daemon/membership.c: a daemon reads a complete form token, and goes
-- to EVS with the future membership. Net_set_membership, and the lengths of a malformed token, are
-- not modelled. `none` also stands for the id of the membership where none is on the token.
use mathlib.Core.Option
use tf.Prelude.{
  ℕ, ◌+◌, ◌-◌, ◌^◌, Bool, true, not, ◌&&◌, ◌==◌, leb, if◌then◌else◌, Option, none, some, List, [],
  ◌∷◌, length, get_or, set, take, map, ◌>>=◌,
}
use tf.Prelude.Int.{pos}
use tf.Configuration.{
  Segment, Configuration, no_segment, append_id_to_seg, proc_by_id_in_conf, previous, last,
}
use tf.NetTypes.{MembershipId, TokenHeader, memb_is_equal}
use tf.FlowControl.{MembState, max_seq_gap}
use tf.Membership.{CommitSet}
use tf.Membership.Form.{Form2, RingInfo, my_ring}
use tf.Membership.Gather.{Daemon, pass_form2, pass_token, memb_of, my_of, no_procs, send}
use tf.Membership.Gather.Create.{fresh_time}
use tf.Membership.Gather.Fill.{is_next}
use tf.Protocol.State.{Prot, max_procs_ring, slot, set_slot}
use tf.Protocol.Discard.{discard_packets}

unfoldable pub is_sound_ring : RingInfo → Bool
is_sound_ring rg =
    leb 1 rg.num_trans
    && (leb rg.num_trans (length rg.commit)
        && (leb (length rg.commit) max_procs_ring && leb (length rg.holes) max_seq_gap))

unfoldable pub all_sound : List RingInfo → Bool
unfolding is_sound_ring
all_sound [] = true
all_sound (rg ∷ rgs) = is_sound_ring rg && all_sound rgs

-- The checks behind which the token is read.
unfoldable pub is_legal : Form2 → Daemon → Bool
unfolding all_sound memb_is_equal
is_legal t d =
    let m = t.members in
    memb_is_equal t.head.memb_id d.form1_memb_id
    && (not (m.num_pending == 0)
        && (not (leb max_procs_ring (m.num_members + m.num_pending))
            && (is_next m (my_of d).id && all_sound t.rings)))

-- The members go to their segments, in the order of the token.
unfoldable pub append_members : Configuration → List ℕ → List Segment → Option (List Segment)
unfolding proc_by_id_in_conf append_id_to_seg
append_members cn [] segs = some segs
append_members cn (x ∷ xs) segs = do
  (i, p) ← proc_by_id_in_conf cn x
  seg ← append_id_to_seg cn (get_or segs p.seg_index no_segment) p.id
  append_members cn xs (set segs p.seg_index seg)

unfoldable pub new_membership : Configuration → List ℕ → Option Configuration
unfolding append_members
new_membership cn members = do
  segs ← append_members cn members (map no_procs cn.segments)
  some (record cn { segments = segs })

-- A hole of the token becomes a dummy. A packet that is there must be one of the own membership,
-- whose sender is not found in the future membership.
unfoldable pub make_dummy : Configuration → (seq : ℕ) → Prot → Option Prot
unfolding set_slot memb_is_equal proc_by_id_in_conf
make_dummy future seq s =
    let p = slot s seq in
    let dummy = set_slot s seq (record p { exist = 3 }) in
    if p.exist == 0
    then some dummy
    else if memb_is_equal p.head.memb_id s.memb.membership_id && p.head.seq == seq
    then (elim (proc_by_id_in_conf future p.head.proc_id) [ some _ ↦ none | none ↦ some dummy ])
    else none

unfoldable pub make_dummies : Configuration → List ℕ → Prot → Option Prot
unfolding make_dummy
make_dummies future [] s = some s
make_dummies future (seq ∷ seqs) s = do s' ← make_dummy future seq s; make_dummies future seqs s'

-- The membership id of a leader, with the time for a transitional membership and the last time used;
-- or that on the token.
unfoldable pub choose_id :
    (now : ℕ) → (leads : Bool) → Form2 → Daemon → Option (MembershipId × ℕ × ℕ)
choose_id now leads t d =
    if leads
    then (let time = fresh_time now d.last_time_used in
        some (record { proc_id = (my_of d).id; time = time + 1 }, time, time + 1))
    else Option.map (λ id. (id, 0, d.last_time_used)) t.memb_id

-- The time of the transitional membership: that on the token, or the one chosen, or a fresh one; and
-- the last time used.
unfoldable pub trans_time : (now : ℕ) → RingInfo → (memb_time last_time_used : ℕ) → ℕ × ℕ
trans_time now rg memb_time last_time_used =
    if not (rg.trans_time == 0)
    then (rg.trans_time, last_time_used)
    else if not (memb_time == 0)
    then (memb_time, last_time_used)
    else (let time = fresh_time now last_time_used in (time, time))

-- The time is written to the last ring with the id.
unfoldable pub write_time : MembershipId → ℕ → List RingInfo → List RingInfo
unfolding my_ring memb_is_equal
write_time id time [] = []
write_time id time (rg ∷ rgs) = elim (my_ring id rgs) [
  | some _ ↦ rg ∷ write_time id time rgs
  | none ↦ (if memb_is_equal rg.memb_id id then record rg { trans_time = time } else rg) ∷ rgs
]

-- The packets of the old membership, behind the form token: those that are stable go, and the holes
-- become dummies.
unfoldable pub take_ring : RingInfo → (future : Configuration) → Prot → Option Prot
unfolding discard_packets make_dummies
take_ring rg future s = do
  s' ← discard_packets (record s { highest_seq = rg.highest_seq; aru = rg.aru })
  make_dummies future rg.holes s'

-- The first regular token, from the last daemon of the ring.
abbrev pub first_token : TokenHeader → MembershipId → TokenHeader
first_token head id = record head {
  type = 0;
  memb_id = id;
  seq = 0;
  aru = 2 ^ 31 - 1;
  aru_last_id = 2 ^ 32 - 1;
  flow_control = pos 0;
  rtr_len = 0;
}

-- The members when one more has read the token.
abbrev pub next_members : CommitSet → CommitSet
next_members m = record m { num_members = m.num_members + 1; num_pending = m.num_pending - 1 }

-- The token as it is sent on.
unfoldable pub passed_token : Form2 → Daemon → MembershipId → (time : ℕ) → Form2
unfolding write_time
passed_token t d id time = record {
  head = record t.head { proc_id = (my_of d).id };
  members = next_members t.members;
  memb_id = some id;
  rings = write_time (memb_of d).membership_id time t.rings;
}

unfoldable pub read_legal : (now : ℕ) → Form2 → RingInfo → Daemon → Option Daemon
unfolding choose_id new_membership take_ring trans_time passed_token previous last
read_legal now t rg d = do
  let my = my_of d
  let cn = (memb_of d).cn
  let m = next_members t.members
  (id, memb_time, used) ← choose_id now (m.num_members == 1) t d
  future ← new_membership cn (take (m.num_members + m.num_pending) m.members)
  prev ← previous my future
  s ← take_ring rg future (record d.prot {
    last_seq = t.head.seq;
    prev_proc_id = prev;
    last_num_retrans = 0;
    last_num_sent = 0;
    memb = record (memb_of d) { future_membership = future; future_membership_id = id };
  })
  let (time, used') = trans_time now rg memb_time used
  last_id ← last future
  let head = record t.head { proc_id = my.id }
  let passes = not (last_id == my.id)
  let token =
      if passes then pass_form2 (passed_token t d id time) else pass_token (first_token head id)
  let last_token = s.last_token
  some (
      send (token ∷ token ∷ []) (record d {
        prot = record s {
          token_rounds = if passes then 0 else 1;
          received_token_rounds = 0;
          last_token = record last_token { type = 0; seq = 0; aru = 0 };
          aru = 0;
          memb = record s.memb {
            state = MembState.evs;
            token_alive = true;
            future_commit_set = record {
              num_members = length rg.commit;
              num_pending = rg.num_trans;
              members = rg.commit;
            };
            f_trans_memb_time = time;
          };
        };
        last_time_used = used';
        timers = record d.timers { token_loss = true };
      }))

-- A token that is not legal, or without the own ring, is dropped.
unfoldable pub read_form2 : (now : ℕ) → Form2 → Daemon → Option Daemon
unfolding is_legal read_legal my_ring
read_form2 now t d =
    if is_legal t d
    then (elim (my_ring (memb_of d).membership_id t.rings) [
      | none ↦ some d
      | some rg ↦ read_legal now t rg d
    ])
    else some d
