-- ===== src/Membership/Gather/Handle.antt =====
-- The handlers of messages and form tokens by state, of spread-src-4.4.0/daemon/membership.c. `none` is the end of the process by an alarm, or a read of a daemon that was
-- not found.
use tf.Prelude.{
  ℕ, ◌%◌, ◌^◌, Bool, true, false, not, ◌&&◌, ◌==◌, ltb, if◌then◌else◌, Option, none, some, List, [],
  ◌∷◌, ◌++◌, length, map, ◌>>=◌,
}
use tf.Configuration.{
  Proc, Segment, Configuration, proc_by_id_in_conf, id_in_conf, leader, seg_leader,
}
use tf.FlowControl.{MembState}
use tf.Membership.Members.{insert_member}
use tf.Membership.Reps.{RepInfo, seg_rep, ring_rep, insert_rep, smallest_rep}
use tf.Membership.Form.{Form1, Form2}
use tf.Membership.Gather.{
  Daemon, alive, join_seg, join, refer, foreign, memb_of, my_of, set_memb, send, shift_to_gather,
  shift_to_represented, insert_reps, token_loss,
}
use tf.Membership.Gather.Fill.{fill_form1}
use tf.Membership.Gather.Read.{read_form2}

-- The packets, from the daemon `proc_id`. The members on a join change nothing; its first rep is read
-- where it has no reps, too.
pub record Join : Type 0 where
  pub proc_id : ℕ
  pub first_rep : RepInfo
  pub reps : List RepInfo

pub data Message : Type 0 where
  alive_message : (proc_id : ℕ) → Message
  join_message : Join → Message
  -- memb_id.proc_id and memb_id.time of a refer
  refer_message : (rep type : ℕ) → Message
  regular_message : (proc_id : ℕ) → Message

abbrev pub is_in : Configuration → ℕ → Bool
is_in c id = elim (id_in_conf c id) [ some _ ↦ true | none ↦ false ]

unfoldable pub take_member : ℕ → Daemon → Daemon
unfolding insert_member
take_member id d = let (new, m) = insert_member d.f_members id in record d { f_members = m }

-- The sender belongs to my ring: my token is lost.
unfoldable pub lose_and_take : ℕ → Daemon → Option Daemon
unfolding token_loss take_member
lose_and_take id d = do d' ← token_loss d; some (take_member id d')

unfoldable pub handle_alive_in : MembState → ℕ → Daemon → Option Daemon
unfolding lose_and_take take_member id_in_conf
handle_alive_in st id d =
    let m = memb_of d in
    elim st [
      | MembState.op ↦ if is_in m.membership id then lose_and_take id d else some d
      | MembState.seg ↦ some (take_member id d)
      | MembState.represented ↦ some (record d { timers = record d.timers { shift_to_seg = true } })
      | MembState.gather ↦
          if not m.token_alive
          then some (take_member id d)
          else if is_in m.membership id
          then lose_and_take id d
          else some d
      | MembState.form ↦ some d
      | MembState.evs ↦ if is_in m.future_membership id then lose_and_take id d else some d
    ]

unfoldable pub handle_alive : ℕ → Daemon → Option Daemon
unfolding handle_alive_in
handle_alive id d = handle_alive_in (memb_of d).state id d

-- Scast_alive. With the code 0 it comes again.
unfoldable pub scast_alive : (code : ℕ) → Daemon → Daemon
scast_alive code d =
    let d' = send (alive (my_of d).seg_index d.f_members ∷ []) d in
    if code == 0 then record d' { timers = record d.timers { scast_alive = true } } else d'

-- A join from another ring, in OP.
unfoldable pub join_in_op : Join → Daemon → Option Daemon
unfolding leader seg_leader shift_to_gather
join_in_op j d = do
  let m = memb_of d
  let my = my_of d
  let gathers = record d { potential_reps = j.first_rep ∷ []; f_members = []; f_num_pending = 0 }
  ring_leader ← leader m.membership
  let referred = some (send (refer j.proc_id ring_leader ring_rep ∷ []) d)
  if ring_leader == my.id
      then some (shift_to_gather gathers)
      else if not (j.first_rep.seg_index == my.seg_index)
      then referred
      else (seg_leader m.membership my.seg_index >>= λ l. if l == my.id then referred else some d)

-- Is the sender of the join the rep of the own segment?
unfoldable pub is_my_rep : Join → Daemon → Option Bool
unfolding proc_by_id_in_conf
is_my_rep j d = do
  (i, p) ← proc_by_id_in_conf (memb_of d).cn j.proc_id
  some ((my_of d).seg_index == p.seg_index && j.first_rep.type == seg_rep)

unfoldable pub join_in_seg : Join → Daemon → Option Daemon
unfolding is_my_rep shift_to_represented scast_alive
join_in_seg j d = do
  mine ← is_my_rep j d
  let d' = scast_alive 1 (shift_to_represented (record d { my_seg_rep = some j.proc_id }))
  some (if mine then d' else d)

unfoldable pub join_in_represented : Join → Daemon → Option Daemon
unfolding is_my_rep scast_alive
join_in_represented j d = do
  mine ← is_my_rep j d
  let follows =
      scast_alive 1
        (record d { my_seg_rep = some j.proc_id; timers = record d.timers { shift_to_seg = true } })
  let refers : Daemon = elim d.my_seg_rep [
    | some rep ↦ send (refer j.proc_id rep seg_rep ∷ []) d
    | none ↦ d
  ]
  some (if mine then follows else refers)

unfoldable pub join_in_gather : Join → Daemon → Option Daemon
unfolding insert_rep insert_reps smallest_rep
join_in_gather j d = do
  let cn = (memb_of d).cn
  (new, f_reps) ← insert_rep cn j.first_rep d.f_reps
  potential ← insert_reps cn j.reps d.potential_reps
  (index, rep) ← smallest_rep cn f_reps
  let d' = record d { f_reps = f_reps; potential_reps = potential }
  some (
      if rep.proc_id == j.first_rep.proc_id
      then record d' { timers = record d.timers { form_or_fail = true } }
      else d')

unfoldable pub handle_join_in : MembState → Join → Daemon → Option Daemon
unfolding join_in_op join_in_seg join_in_represented join_in_gather token_loss lose_and_take
    id_in_conf
handle_join_in st j d =
    let m = memb_of d in
    elim st [
      | MembState.op ↦
          if not (is_in m.membership j.proc_id)
          then join_in_op j d
          else if ltb 1 (length m.cn.segments)
          then token_loss d
          else some d
      | MembState.seg ↦ join_in_seg j d
      | MembState.represented ↦ join_in_represented j d
      | MembState.gather ↦ join_in_gather j d
      | MembState.form ↦ some d
      | MembState.evs ↦
          if is_in m.future_membership j.proc_id then lose_and_take j.proc_id d else some d
    ]

unfoldable pub handle_join : Join → Daemon → Option Daemon
unfolding handle_join_in
handle_join j d = handle_join_in (memb_of d).state j d

-- The type is the int16 of memb_id.time: a negative one is the number 2 ^ 16 less, and no type.
unfoldable pub handle_refer_in : MembState → (rep type : ℕ) → Daemon → Option Daemon
unfolding insert_rep proc_by_id_in_conf
handle_refer_in st rep type d = elim st [
  | MembState.gather ↦ elim (proc_by_id_in_conf (memb_of d).cn rep) [
    | none ↦ some d
    | some (i, p) ↦ do
      let r : RepInfo = record { proc_id = p.id; type = type % 2 ^ 16; seg_index = p.seg_index }
      (new, potential) ← insert_rep (memb_of d).cn r d.potential_reps
      some (record d { potential_reps = potential })
  ]
  | _ ↦ some d
]

unfoldable pub handle_refer : (rep type : ℕ) → Daemon → Option Daemon
unfolding handle_refer_in
handle_refer rep type d = handle_refer_in (memb_of d).state rep type d

-- The ids of the daemons of the configuration that are not in the ring.
unfoldable pub absent_procs : Configuration → List Proc → List ℕ
unfolding id_in_conf
absent_procs ring [] = []
absent_procs ring (p ∷ ps) =
    let rest = absent_procs ring ps in if is_in ring p.id then rest else p.id ∷ rest

unfoldable pub absent : Configuration → List Segment → List ℕ
unfolding absent_procs
absent ring [] = []
absent ring (s ∷ ss) = absent_procs ring s.procs ++ absent ring ss

unfoldable pub lookup_new_members_in : MembState → Daemon → Daemon
unfolding absent shift_to_gather
lookup_new_members_in st d =
    let my = my_of d in
    let m = memb_of d in
    let reps : List RepInfo =
      record { proc_id = my.id; seg_index = my.seg_index; type = ring_rep } ∷ [] in
    let to =
      if length m.cn.segments == 1
      then join_seg my.seg_index [] reps ∷ []
      else map (λ id. join id [] reps) (absent m.reg_membership m.cn.segments) in
    let d' =
      send to
        (record d { potential_reps = []; f_reps = reps; f_members = []; f_num_pending = 0 }) in
    elim st [ MembState.op ↦ if length to == 0 then d' else shift_to_gather d' | _ ↦ d ]

unfoldable pub lookup_new_members : Daemon → Daemon
unfolding lookup_new_members_in
lookup_new_members d = lookup_new_members_in (memb_of d).state d

unfoldable pub handle_foreign_in : MembState → ℕ → Daemon → Option Daemon
unfolding proc_by_id_in_conf leader seg_leader lookup_new_members
handle_foreign_in st proc_id d =
    let m = memb_of d in
    let my = my_of d in
    elim st [
      | MembState.op ↦ elim (proc_by_id_in_conf m.cn proc_id) [
        | none ↦ some d
        | some _ ↦ do
          ring_leader ← leader m.membership
          let sent = foreign ring_leader ∷ foreign ring_leader ∷ []
          let reports = send sent (set_memb d (record m { foreign_found = true }))
          if ring_leader == my.id
              then some (lookup_new_members d)
              else (seg_leader m.membership my.seg_index >>= λ l.
                  some (if l == my.id && not m.foreign_found then reports else d))
      ]
      | _ ↦ some d
    ]

unfoldable pub handle_foreign : ℕ → Daemon → Option Daemon
unfolding handle_foreign_in
handle_foreign proc_id d = handle_foreign_in (memb_of d).state proc_id d

unfoldable pub handle_message : Message → Daemon → Option Daemon
unfolding handle_alive handle_join handle_refer handle_foreign
handle_message (alive_message proc_id) d = handle_alive proc_id d
handle_message (join_message j) d = handle_join j d
handle_message (refer_message rep type) d = handle_refer rep type d
handle_message (regular_message proc_id) d = handle_foreign proc_id d

unfoldable pub handle_form1_in : MembState → Form1 → Daemon → Option Daemon
unfolding leader fill_form1
handle_form1_in st t d = elim st [
  | MembState.op ↦ do
    ring_leader ← leader (memb_of d).membership
    if ring_leader == (my_of d).id then some d else fill_form1 t d
  | MembState.represented ↦ fill_form1 t d
  | MembState.gather ↦ fill_form1 t d
  | MembState.seg ↦ some d
  | MembState.form ↦ some d
  | MembState.evs ↦ some d
]

unfoldable pub handle_form1 : Form1 → Daemon → Option Daemon
unfolding handle_form1_in
handle_form1 t d = handle_form1_in (memb_of d).state t d

unfoldable pub handle_form2_in : MembState → (now : ℕ) → Form2 → Daemon → Option Daemon
unfolding read_form2
handle_form2_in st now t d = elim st [ MembState.form ↦ read_form2 now t d | _ ↦ some d ]

unfoldable pub handle_form2 : (now : ℕ) → Form2 → Daemon → Option Daemon
unfolding handle_form2_in
handle_form2 now t d = handle_form2_in (memb_of d).state now t d
