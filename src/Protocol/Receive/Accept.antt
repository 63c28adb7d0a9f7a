-- ===== src/Protocol/Receive/Accept.antt =====
-- Prot_handle_bcast of spread-src-4.4.0/daemon/protocol.c, for a packet of the present membership.
use tf.Prelude.{
  ℕ, ◌+◌, ◌≤◌, ◌<◌, ◌≡◌, ◌≢◌, refl, arith, true, false, ◌==◌, leb, Option, none, some, Bool-cases,
  inl, inr, sym, ◌∙◌, ap, subst, some_injective,
}
use tf.Configuration.{Proc, proc_by_id_in_conf}
use tf.Protocol.State.{Packet, Prot, max_packets_in_struct, exists}
use tf.Protocol.Receive.{raise_my_aru, insert_packet, deliver_new, accept_packet}
use tf.Protocol.Receive.Window.{
  InWindow, IsHeld, IsWindow, raise_my_aru-IsWindow, insert_packet-exists, insert_packet-IsHeld,
  insert_packet-IsWindow, insert_packet_fields,
}
use tf.Protocol.Receive.Keeps.{
  Keeps-exists, Keeps-IsWindow, deliver_agreed_packets-Keeps, deliver_reliable_packets-Keeps,
}

-- What is held in `s` is held in `s'`.
abbrev pub LosesNone : Prot → Prot → Type 0
LosesNone s s' = (i : ℕ) → InWindow s i → exists s i ≡ true → exists s' i ≡ true

-- The window is in order, nothing was lost, and the packet of number `seq` is held.
abbrev pub Accepted : ℕ → Prot → Prot → Type 0
Accepted seq s s' = IsWindow s' × LosesNone s s' × (exists s' seq ≡ true)

deliver_new-IsWindow :
    (seq : ℕ) (s s' : Prot)
    → IsHeld s
    → (seq ≢ s.my_aru + 1 → IsWindow s)
    → deliver_new seq s ≡ some s'
    → IsWindow s' × ((i : ℕ) → exists s' i ≡ exists s i)
unfolding deliver_new
deliver_new-IsWindow seq s s' h w e = elim (Bool-cases (seq == s.my_aru + 1)) [
  | inl next ↦
      let k = deliver_agreed_packets-Keeps (raise_my_aru s) s' (rw next at e) in
      (
        Keeps-IsWindow (raise_my_aru s) s' k (raise_my_aru-IsWindow s h),
        λ i. unfold raise_my_aru in (Keeps-exists k i),
      )
  | inr other ↦
      let k = deliver_reliable_packets-Keeps seq 1 s s' (rw other at e) in
      (Keeps-IsWindow s s' k (w (ground arith)), Keeps-exists k)
]

insert-Accepted :
    (p : Packet) (proc_index : ℕ) (s s' : Prot)
    → IsWindow s
    → InWindow s p.head.seq
    → exists s p.head.seq ≡ false
    → deliver_new p.head.seq (insert_packet p proc_index s) ≡ some s'
    → Accepted p.head.seq s s'
insert-Accepted p proc_index s s' w inside absent e =
    let same = insert_packet-exists p proc_index s w.holds inside absent in
    let (w', after) =
      deliver_new-IsWindow p.head.seq (insert_packet p proc_index s) s'
        (insert_packet-IsHeld p proc_index s w.holds inside absent)
        (λ other.
          insert_packet-IsWindow p proc_index s w.holds inside absent
            (λ next. other (next ∙ ap (λ a. a + 1) (sym (insert_packet_fields p proc_index s).0)))
            w.next_missing)
        e in
    (
      w',
      λ i a was. after i ∙ (same i a ∙ ground arith),
      after p.head.seq ∙ (same p.head.seq inside ∙ ground arith),
    )

abbrev Outcome : Packet → Prot → Prot → Type 0
Outcome p s s' =
    IsWindow s' × LosesNone s s' × (s.last_discarded < p.head.seq → exists s' p.head.seq ≡ true)

from_known :
    (p : Packet) (s s' : Prot)
    → IsWindow s
    → InWindow s p.head.seq
    → exists s p.head.seq ≡ false
    → (o : Option (ℕ × Proc)) → o ≢ none
    → (elim o as (λ _. Option Prot) [
      | none ↦ some s
      | some (proc_index, _) ↦ deliver_new p.head.seq (insert_packet p proc_index s)
    ])
      ≡ some s'
    → Outcome p s s'
from_known p s s' w inside absent none known e = absurd (known refl)
from_known p s s' w inside absent (some (proc_index, _)) known e =
    let (w', kept, here) = insert-Accepted p proc_index s s' w inside absent e in
    (w', kept, λ _. here)

-- In a window in order, a packet whose number is at most MAX_PACKETS_IN_STRUCT above
-- Last_discarded, and which a daemon of the configuration sent, leaves the window in order, and
-- loses none of the packets that were held, where no alarm of the deliveries ends the process. If
-- its number is above Last_discarded, it is held then.
pub accept_packet-IsWindow :
    (p : Packet) (s s' : Prot)
    → IsWindow s
    → p.head.seq ≤ s.last_discarded + max_packets_in_struct
    → proc_by_id_in_conf s.memb.cn p.head.proc_id ≢ none
    → accept_packet p s ≡ some s'
    → IsWindow s' × LosesNone s s' × (s.last_discarded < p.head.seq → exists s' p.head.seq ≡ true)
unfolding accept_packet
accept_packet-IsWindow p s s' w near known e = elim (Bool-cases (leb p.head.seq s.last_discarded)) [
  | inl old ↦
      let same = some_injective (rw old at e) in
      subst (Outcome p s) same (w, λ i a was. was, λ above. absurd (ground arith))
  | inr fresh ↦ elim (Bool-cases (exists s p.head.seq)) [
    | inl twice ↦
        let same = some_injective (rw twice at (rw fresh at e)) in
        subst (Outcome p s) same (w, λ i a was. was, λ above. twice)
    | inr absent ↦
        from_known p s s' w (ground arith, near) absent
          (proc_by_id_in_conf s.memb.cn p.head.proc_id) known (rw absent at (rw fresh at e))
  ]
]
