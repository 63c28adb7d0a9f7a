-- ===== src/Membership/Gather/Fill.antt =====
-- Fill_form1 of spread-src-4.4.0/daemon/membership.c: a daemon puts itself, its members and its ring
-- on a form token and sends it on. `none` also stands for a read of a member that was not written. A
-- place behind the listed members or reps of a token is that of no daemon.
use tf.Prelude.{
  ℕ, ◌+◌, ◌-◌, Bool, false, not, ◌&&◌, ◌||◌, ◌==◌, ltb, leb, if◌then◌else◌, Option, none, some,
  List, [], ◌∷◌, ◌++◌, length, get_or, get_elem?, take, ◌>>=◌, ◌>>◌, guard,
}
use tf.Configuration.{Configuration}
use tf.NetTypes.{sizeof_token_body}
use tf.FlowControl.{MembState}
use tf.Membership.{CommitSet, contains}
use tf.Membership.Members.{sort_members}
use tf.Membership.Reps.{seg_rep, ring_rep, no_rep}
use tf.Membership.Form.{
  Form1, RepsInfo, RingInfo, form2_type, max_form_reps, sizeof_ring_info, sizeof_rings, holes_up,
  own_ring, my_ring, other_rings, merge_ring,
}
use tf.Membership.Gather.{Daemon, Sent, form1, form2, memb_of, my_of, send}
use tf.Membership.Gather.Create.{
  ids_of_segments, rep_ids, no_reps, insert_potentials, form1_len, form2_len, enter_form,
}
use tf.Protocol.State.{Prot}

-- The members and the reps of the token with this daemon, and its F_members; or the token is dropped.
pub data Admission : Type 0 where
  drops : Admission
  exits : Admission
  admits : CommitSet → RepsInfo → (f_members : List ℕ) → Admission

abbrev pub is_next : CommitSet → ℕ → Bool
is_next m id = elim (get_elem? m.members m.num_members) [ some x ↦ x == id | none ↦ false ]

-- The members that are not in the list.
unfoldable pub not_in : List ℕ → List ℕ → List ℕ
unfolding contains
not_in ids [] = []
not_in ids (x ∷ xs) = let rest = not_in ids xs in if contains ids x then rest else x ∷ rest

-- In OP and REPRESENTED: the next of the pending members.
unfoldable pub admit_member : Form1 → Daemon → Admission
admit_member t d =
    let m = t.members in
    if not (is_next m (my_of d).id) || m.num_pending == 0
    then drops
    else admits (record m { num_members = m.num_members + 1; num_pending = m.num_pending - 1 })
        t.reps d.f_members

-- The members `more` go on the token behind those that are listed. There must be one.
unfoldable pub add_members : CommitSet → List ℕ → RepsInfo → (f_members : List ℕ) → Admission
add_members m more reps f_members =
    if length more == 0
    then exits
    else admits
        (record {
          num_members = m.num_members + 1;
          num_pending = length more - 1;
          members = take m.num_members m.members ++ more;
        })
        (record reps { rep_index = reps.rep_index + 1 }) f_members

-- In GATHER: the next of the reps, with its members or its ring.
unfoldable pub admit_rep : Form1 → Daemon → Admission
unfolding not_in no_reps ids_of_segments add_members
admit_rep t d =
    let m = t.members in
    let id = (my_of d).id in
    let alive = (memb_of d).token_alive in
    let rep = get_or t.reps.reps t.reps.rep_index no_rep in
    if not (ltb t.reps.rep_index (length t.reps.reps) && rep.proc_id == id)
      || (alive && rep.type == seg_rep
          || (not alive && rep.type == ring_rep || not (m.num_pending == 0)))
    then drops
    else let f_members =
        no_reps id (rep_ids d.f_reps)
          (no_reps id (rep_ids t.reps.reps) (not_in (take m.num_members m.members) d.f_members)) in
      if rep.type == seg_rep
      then add_members m f_members t.reps f_members
      else if rep.type == ring_rep
      then add_members m (ids_of_segments (memb_of d).membership.segments) t.reps f_members
      else exits

unfoldable pub admit_in : MembState → Form1 → Daemon → Admission
unfolding admit_member admit_rep
admit_in st t d = elim st [
  | MembState.op ↦ admit_member t d
  | MembState.represented ↦ admit_member t d
  | MembState.gather ↦ admit_rep t d
  | MembState.seg ↦ exits
  | MembState.form ↦ exits
  | MembState.evs ↦ exits
]

unfoldable pub admit : Form1 → Daemon → Admission
unfolding admit_in
admit t d = admit_in (memb_of d).state t d

-- The first of the `n` members that is My is taken out.
unfoldable pub remove_self : (n my_id : ℕ) → List ℕ → List ℕ
remove_self n my_id [] = []
remove_self n my_id (x ∷ xs) =
    let rest = x ∷ remove_self (n - 1) my_id xs in
    if n == 0 then x ∷ xs else if x == my_id then xs else rest

-- The rings, and the members, which lose My where another ring does not fit.
unfoldable pub fill_rings : Prot → List RingInfo → CommitSet → Option (List RingInfo × CommitSet)
unfolding my_ring other_rings remove_self own_ring holes_up merge_ring
fill_rings s rings m =
    let others = other_rings s.memb.membership_id rings in
    elim (my_ring s.memb.membership_id rings) [
      | none ↦
          if ltb max_form_reps (length others + 1)
          then (guard (leb (sizeof_rings others + sizeof_ring_info) sizeof_token_body)
              >> some (
                others,
                record m {
                  num_members = m.num_members - 1;
                  members = remove_self m.num_members s.my.id m.members;
                },
              ))
          else let all = others ++ (own_ring s (holes_up s (s.last_discarded + 1)) ∷ []) in
            guard (leb (sizeof_rings all) sizeof_token_body) >> some (all, m)
      | some rg ↦ do
        mine ← merge_ring s rg
        let all = others ++ (mine ∷ [])
        guard (leb (sizeof_rings all) sizeof_token_body)
        some (all, m)
    ]

-- The token, twice, to the next pending member, or to the next rep, or as a form2 token to the first
-- of the members in order.
unfoldable pub next_hop : Configuration → Form1 → Option (List Sent)
unfolding form2_len sort_members
next_hop cn t =
    let m = t.members in
    if ltb 0 m.num_pending
    then (let s = form1 (get_or m.members m.num_members 0) t in some (s ∷ s ∷ []))
    else if ltb t.reps.rep_index (length t.reps.reps)
    then (let s = form1 (get_or t.reps.reps t.reps.rep_index no_rep).proc_id t in some (s ∷ s ∷ []))
    else do
      sorted ← sort_members cn (take m.num_members m.members)
      guard (ltb 0 (length sorted))
      let s = form2 (get_or sorted 0 0) (record {
        head = record t.head { type = form2_type; rtr_len = form2_len t.rings };
        members = record { num_members = 0; num_pending = m.num_members; members = sorted };
        memb_id = none;
        rings = t.rings;
      })
      some (s ∷ s ∷ [])

unfoldable pub fill_admitted :
    Form1 → CommitSet → RepsInfo → (f_members : List ℕ) → Daemon → Option Daemon
unfolding insert_potentials fill_rings form1_len next_hop enter_form
fill_admitted t m reps f_members d = do
  let my = my_of d
  let cn = (memb_of d).cn
  let least = d.prot.highest_seq + 3333
  potential ← insert_potentials cn my reps.reps []
  (rings, m') ← fill_rings d.prot t.rings m
  sent ← next_hop cn (record {
    head = record t.head {
      proc_id = my.id;
      seq = if ltb t.head.seq least then least else t.head.seq;
      rtr_len = form1_len rings;
    };
    members = m';
    reps = reps;
    rings = rings;
  })
  let d' = enter_form (send sent d)
  some (record d' {
    f_members = f_members;
    form1_memb_id = t.head.memb_id;
    potential_reps = potential;
    timers = record d'.timers { form_or_fail = false; shift_to_seg = false };
  })

unfoldable pub fill_form1 : Form1 → Daemon → Option Daemon
unfolding admit fill_admitted
fill_form1 t d = elim (admit t d) [
  | drops ↦ some d
  | exits ↦ none
  | admits m reps f_members ↦ fill_admitted t m reps f_members d
]
