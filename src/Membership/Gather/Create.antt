-- ===== src/Membership/Gather/Create.antt =====
-- Create_form1 of spread-src-4.4.0/daemon/membership.c: the smallest rep begins a form token. `none`
-- also stands for a read of a member that was not written.
use tf.Prelude.{
  ℕ, ◌+◌, ◌-◌, true, false, not, ◌&&◌, ◌==◌, ltb, leb, if◌then◌else◌, Option, none, some, List, [],
  ◌∷◌, ◌++◌, length, get_or, take, map, ◌>>=◌, ◌>>◌, guard,
}
use tf.Prelude.Int.{pos}
use tf.Configuration.{Proc, Segment, Configuration}
use tf.NetTypes.{MembershipId, TokenHeader, sizeof_token_body, block_regular_delivery}
use tf.FlowControl.{MembState}
use tf.Membership.{CommitSet, contains}
use tf.Membership.Reps.{RepInfo, potential_rep, ring_rep, no_rep, insert_rep, sort_reps}
use tf.Membership.Form.{
  Form1, RingInfo, form1_type, form2_type, sizeof_members_info, sizeof_reps_info,
  sizeof_membership_id, sizeof_rings, holes_up, own_ring,
}
use tf.Membership.Gather.{Daemon, Sent, form1, form2, memb_of, my_of, send}

-- E_get_time().sec is `now`, unless that time was used.
abbrev pub fresh_time : (now last_time_used : ℕ) → ℕ
fresh_time now last_time_used = if leb now last_time_used then last_time_used + 1 else now

unfoldable pub ids_of_segments : List Segment → List ℕ
ids_of_segments [] = []
ids_of_segments (s ∷ ss) = map (λ (p : Proc). p.id) s.procs ++ ids_of_segments ss

abbrev pub rep_ids : List RepInfo → List ℕ
rep_ids = map (λ (r : RepInfo). r.proc_id)

-- The members that are no reps, and My.
unfoldable pub no_reps : (my_id : ℕ) (reps members : List ℕ) → List ℕ
unfolding contains
no_reps my_id reps [] = []
no_reps my_id reps (x ∷ xs) =
    let rest = no_reps my_id reps xs in
    if contains reps x && not (x == my_id) then rest else x ∷ rest

-- The reps of other segments, as potential ones.
unfoldable pub insert_potentials :
    Configuration → Proc → List RepInfo → List RepInfo → Option (List RepInfo)
unfolding insert_rep
insert_potentials cn my [] r = some r
insert_potentials cn my (x ∷ xs) r =
    if x.seg_index == my.seg_index then insert_potentials cn my xs r else do
      (new, r') ← insert_rep cn (record x { type = potential_rep }) r
      insert_potentials cn my xs r'

-- The ends of Create_form1 and Fill_form1.
unfoldable pub enter_form : Daemon → Daemon
enter_form d = record d {
  prot = record d.prot {
    delivery_threshold = block_regular_delivery;
    memb = record (memb_of d) { state = MembState.form; token_alive = false };
  };
  timers = record d.timers { send_join = false; token_loss = true; token_hurry = false };
}

-- The header of a form token with the fields that Create_form1 sets; the others are 0.
abbrev pub form_head : (my_id : ℕ) → MembershipId → (seq : ℕ) → TokenHeader
form_head my_id id seq = record {
  type = form1_type;
  transmiter_id = 0;
  proc_id = my_id;
  memb_id = id;
  seq = seq;
  aru = 0;
  aru_last_id = 0;
  flow_control = pos 0;
  rtr_len = 0;
  conf_hash = 0;
}

unfoldable pub form1_len : List RingInfo → ℕ
unfolding sizeof_rings
form1_len rings = sizeof_members_info + sizeof_reps_info + sizeof_rings rings

unfoldable pub form2_len : List RingInfo → ℕ
unfolding sizeof_rings
form2_len rings = sizeof_members_info + sizeof_membership_id + sizeof_rings rings

-- The token, twice, to the next pending member, or to the next rep, or to My as a form2 token, and
-- the members of that.
unfoldable pub first_hop : (my_id : ℕ) → Form1 → List Sent × CommitSet
unfolding form1_len form2_len
first_hop my_id t =
    let m = t.members in
    if ltb 0 m.num_pending
    then (let s = form1 (get_or m.members m.num_members 0) t in s ∷ s ∷ [], m)
    else if ltb t.reps.rep_index (length t.reps.reps)
    then (let s = form1 (get_or t.reps.reps t.reps.rep_index no_rep).proc_id t in s ∷ s ∷ [], m)
    else let m' : CommitSet = record m { num_pending = 1; num_members = 0 } in
      let s = form2 my_id (record {
        head = record t.head { type = form2_type; rtr_len = form2_len t.rings };
        members = m';
        memb_id = none;
        rings = t.rings;
      }) in
      (s ∷ s ∷ [], m')

unfoldable pub create_form1 : (now : ℕ) → Daemon → Option Daemon
unfolding no_reps ids_of_segments insert_potentials first_hop enter_form sort_reps holes_up own_ring
create_form1 now d = do
  let my = my_of d
  let m = memb_of d
  let time = fresh_time now d.last_time_used
  let id : MembershipId = record { proc_id = my.id; time = time }
  let gathered =
      if (get_or d.f_reps 0 no_rep).type == ring_rep
      then ids_of_segments m.membership.segments
      else d.f_members
  let valid = no_reps my.id (rep_ids d.f_reps) gathered
  guard (ltb 0 (length valid))
  reps ← sort_reps m.cn d.f_reps
  potential ← insert_potentials m.cn my reps []
  let rings = own_ring d.prot (holes_up d.prot (d.prot.my_aru + 1)) ∷ []
  guard (leb (sizeof_rings rings) sizeof_token_body)
  let head = form_head my.id id (d.prot.highest_seq + 3333)
  let t : Form1 = record {
    head = record head { rtr_len = form1_len rings };
    members = record { num_members = 1; num_pending = length valid - 1; members = valid };
    reps = record { rep_index = 1; reps = reps };
    rings = rings;
  }
  let (sent, members) = first_hop my.id t
  some (
      enter_form (
        send sent (record d {
          last_time_used = time;
          form1_memb_id = id;
          f_members = take members.num_members valid;
          f_num_pending = members.num_pending;
          f_reps = reps;
          potential_reps = potential;
        })))
