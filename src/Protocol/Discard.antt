-- ===== src/Protocol/Discard.antt =====
-- spread-src-4.4.0/daemon/protocol.c:
-- Discard_packets. In EVS, once every member of the new ring has all packets of
-- the old one, it delivers what is left and installs the new membership. `none` is the end of the
-- process by an alarm. What the session layer does with a membership is not modelled; it changes
-- no variable of this record.
use mathlib.Core.Option
use tf.Prelude.{
  ℕ, zero, suc, ◌+◌, ◌-◌, Bool, true, false, ◌||◌, ◌==◌, ltb, leb, if◌then◌else◌, Option, none,
  some, List, [], ◌∷◌, ◌++◌, not, ◌^◌,
}
use tf.Configuration.{id_in_conf, num_procs}
use tf.NetTypes.{is_safe}
use tf.FlowControl.{is_evs}
use tf.Membership.{
  Timer, memb_lookup_new_members_event, transitional as memb_transitional, regular as memb_regular,
}
use tf.Protocol.State.{
  PacketInfo, Prot, Effect, queue, deliver_trans_memb, deliver_reg_memb, net_clear_partition,
  max_procs_ring, max_packets_in_struct, emit, slot, set_slot,
}
use tf.Protocol.Deliver.{discard_packet, discard_stable}

-- The first loop: up to the first hole or safe packet.
unfoldable pub before_transitional : ℕ → ℕ → Prot → Option Prot
unfolding discard_packet is_safe
before_transitional zero seq s = some s
before_transitional (suc n) seq s =
    let p = slot s seq in
    if p.exist == 0
    then none
    else if p.exist == 3
    then some s
    else if is_safe p.head.type
    then some s
    else Option.bind (discard_packet seq s)
        (λ s'. before_transitional n (seq + 1) (record s' { last_discarded = seq }))

abbrev pub emptied : ℕ → Prot → Prot
emptied seq s = set_slot s seq (record (slot s seq) { exist = 0 })

-- The second loop: behind a hole only packets of committed members are delivered.
unfoldable pub after_transitional : ℕ → ℕ → Bool → Prot → Option Prot
unfolding discard_packet set_slot id_in_conf
after_transitional zero seq found_hole s = some s
after_transitional (suc n) seq found_hole s =
    let p = slot s seq in
    if p.exist == 0
    then none
    else if p.exist == 3
    then after_transitional n (seq + 1) true (emptied seq s)
    else let committed : Bool = elim (id_in_conf s.memb.commit_membership p.head.proc_id) [
      | none ↦ false
      | some _ ↦ true
    ] in
      Option.bind
        (if not found_hole || committed then discard_packet seq s else some (emptied seq s))
        (λ s'. after_transitional n (seq + 1) found_hole s')

-- No packet is left in the first `n` slots.
unfoldable pub all_empty : ℕ → (ℕ → PacketInfo) → Bool
all_empty zero packets = true
all_empty (suc n) packets =
    let rest = all_empty n packets in if (packets n).exist == 0 then rest else false

-- Messages of which only a part came are dropped; a message of this daemon of which only a part
-- was sent is sent anew.
unfoldable pub drop_partial : Prot → Prot
drop_partial s = record s {
  down_queue = record s.down_queue {
    cur_element = elim s.down_queue.messages [ [] ↦ s.down_queue.cur_element | _ ∷ _ ↦ 0 ];
  };
  up_queue = λ w. if ltb w max_procs_ring then none else s.up_queue w;
}

abbrev pub initial_sequence : Prot → ℕ
initial_sequence s = if s.debug_initial_sequence then 2 ^ 30 - 5 else 0

-- The variables for the next membership.
unfoldable pub restart : Prot → Prot
restart s = record s {
  highest_seq = initial_sequence s;
  highest_fifo_seq = initial_sequence s;
  my_aru = initial_sequence s;
  aru = initial_sequence s;
  last_discarded = initial_sequence s;
  last_delivered = initial_sequence s;
  token_counter = 0;
}

abbrev pub queue_all : List Timer → List Effect
queue_all [] = []
queue_all (t ∷ ts) = queue t ∷ queue_all ts

-- The end of a change of configuration: the partition is lifted. GOP, of groups.c, is 1.
unfoldable pub end_reload : Prot → Option Prot
unfolding num_procs
end_reload s =
    if not s.reload_singleton
    then some s
    else if not (s.gstate == 1) || not (num_procs s.memb.reg_membership == 1)
    then none
    else some (record s {
      reload_singleton = false;
      out = s.out ++ (net_clear_partition ∷ queue memb_lookup_new_members_event ∷ []);
    })

-- The regular membership is installed.
unfoldable pub install : Prot → Option Prot
unfolding all_empty drop_partial memb_regular end_reload restart
install s =
    if not (all_empty max_packets_in_struct s.packets)
    then none
    else let s' = drop_partial s in
      Option.bind (memb_regular s'.need_conf_reload s'.memb) (λ r.
        let (memb, timers) = r in
        Option.map restart (
          end_reload (record s' {
            memb = memb;
            out =
                s'.out
                ++ (queue_all timers
                    ++ (deliver_reg_memb memb.reg_membership memb.membership_id ∷ []));
          })))

unfoldable pub discard_evs : Prot → Option Prot
unfolding before_transitional after_transitional memb_transitional install emit
discard_evs s =
    if not (s.aru == s.last_seq)
    then some s
    else Option.bind
        (before_transitional (s.highest_seq - s.last_discarded) (s.last_discarded + 1) s)
        (λ s1. Option.bind (memb_transitional s1.memb) (λ memb.
          Option.bind
            (after_transitional (s1.highest_seq - s1.last_discarded) (s1.last_discarded + 1) false
              (record s1 {
                memb = memb;
                out = s1.out ++ (deliver_trans_memb memb.trans_membership memb.trans_memb_id ∷ []);
              }))
            install))

unfoldable pub discard_packets : Prot → Option Prot
unfolding discard_evs discard_stable is_evs
discard_packets s =
    if leb s.aru s.last_discarded
    then some s
    else if is_evs s.memb.state
    then discard_evs s
    else discard_stable s
