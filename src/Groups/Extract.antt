-- ===== src/Groups/Extract.antt =====
-- What a member that goes leaves of its group: G_handle_leave and G_handle_kill of
-- spread-src-4.4.0/daemon/groups.c.
use tf.Prelude.{
  ℕ, ◌+◌, ◌≤◌, ◌<◌, ◌≡◌, refl, ap, ◌∙◌, inl, inr, arith, true, not, ◌&&◌, ◌==◌, if◌then◌else◌,
  Option, none, some, List, [], Bool-cases,
}
use tf.Membership.Selection.{count_if}
use tf.Groups.SkipList.{Sorted}
use tf.Groups.Totals.{total, weight, total-erase}
use tf.Groups.State.{
  Name, DaemonMembers, Group, Sent, Groups, compare_proc_ids_by_conf, get_daemon, get_member,
}
use tf.Groups.Views.{send_heavyweight_memb, send_heavyweight_join}
use tf.Groups.Handle.{is_nil}
use tf.Groups.Depart.{
  take_mbox, without_member, next_id, announce_departure, keep_or_remove, extract_member,
}
use tf.Groups.Invariant.{at_mbox, local_weight, IsGroup, total-erase_member}
use tf.Groups.Joining.{proc_id_of, arrives, get_daemon_self, get_daemon-IsDaemon}
use tf.Groups.Leaving.{remove_mailbox-some, without_member-IsGroup, IsGroup-daemons, IsGroup-mboxes}
use tf.Groups.Sets.{build_memb_vs_buf-IsPartition}
use tf.Groups.Members.{
  same_name, same_daemon, holds, in_group, holds-without_member, get_daemon-nil,
}

take_mbox-some :
    (mbox : Option ℕ) (ms : List ℕ)
    → ((m : ℕ) → arrives m mbox ≤ count_if (λ x. x == m) ms)
    → (ms' : List ℕ) × (take_mbox mbox ms ≡ some ms')
      × ((m : ℕ) → count_if (λ x. x == m) ms ≡ arrives m mbox + count_if (λ x. x == m) ms')
unfolding take_mbox
take_mbox-some none ms h = (ms, refl, λ m. omega arith)
take_mbox-some (some x) ms h = remove_mailbox-some x ms (ground (arith, h x))

announce_departure-some :
    (s : Groups) (g : Group) (caused : ℕ) (name : Name)
    → Sorted (compare_proc_ids_by_conf s.conf) proc_id_of g.daemons
    → (views : List Sent) × (announce_departure s g caused name ≡ some views)
unfolding announce_departure send_heavyweight_memb send_heavyweight_join
announce_departure-some s g caused name sorted =
    let (offset, sets, built, sums) =
      build_memb_vs_buf-IsPartition s.conf s.my_id g none sorted tt in
    elim (Bool-cases (is_nil g.mboxes)) [
      | inl e ↦ rw e ([], refl)
      | inr e ↦
          rw e (elim (Bool-cases g.changed) [
            | inl c ↦ rw (c, built) (_, refl)
            | inr c ↦ rw c (_, refl)
          ])
    ]

-- What is left of a group is well-formed and has members.
abbrev pub Remains : Groups → Name → Option Group → Type 0
Remains s name none = Unit
Remains s name (some g) =
    IsGroup s.conf s.my_id s.sessions g × (0 < g.num_members) × (g.name ≡ name)

keep_or_remove-Remains :
    (s : Groups) (caused : ℕ) (name : Name) (g : Group)
    → IsGroup s.conf s.my_id s.sessions g
    → (rest : Option Group) × (views : List Sent) × (keep_or_remove s caused name g
        ≡ some (rest, views))
      × Remains s g.name rest
      × ((i : ℕ) (c : Name) → in_group s.conf rest i c ≡ holds s.conf g.daemons i c)
unfolding keep_or_remove next_id
keep_or_remove-Remains s caused name g good = elim (Bool-cases (g.num_members == 0)) [
  | inl empty ↦
      let no_members : g.num_members ≡ 0 = ground (arith, empty) in
      let no_daemons = IsGroup-daemons s.conf s.my_id s.sessions g good no_members in
      let no_mboxes = IsGroup-mboxes s.conf s.my_id s.sessions g good no_members in
      (
        none,
        [],
        ground (arith, empty, no_daemons, no_mboxes),
        tt,
        λ i c. ground (arith, get_daemon-nil s.conf g.daemons i no_daemons),
      )
  | inr full ↦
      let (views, told) = announce_departure-some s (next_id g) caused name good.sorted in
      (
        some (next_id g),
        views,
        ground (arith, full, told),
        (
          record {
            sorted = good.sorted;
            daemons = good.daemons;
            counted = good.counted;
            mailboxes = good.mailboxes;
          },
          ground (arith, full),
          refl,
        ),
        λ i c. refl,
      )
]

module _ (s : Groups) (caused : ℕ) (name : Name) (g : Group) (d : DaemonMembers) (id : ℕ)
    (mbox : Option ℕ) {found : Name} (good : IsGroup s.conf s.my_id s.sessions g)
    (here : get_daemon s.conf g.daemons id ≡ some d)
    (member : get_member d.members name ≡ some found)
    (own : (m : ℕ)
      → arrives m mbox ≡ (if d.proc_id == s.my_id then at_mbox s.sessions m name else 0)) where
  local_here :
      (m : ℕ)
      → (d.proc_id == s.my_id) ≡ true
      → local_weight s.my_id s.sessions m d ≡ total (at_mbox s.sessions m) d.members
  local_here m e = rw e

  mbox_there : (m : ℕ) → arrives m mbox ≤ count_if (λ x. x == m) g.mboxes
  unfolding get_daemon
  mbox_there m =
      let w = local_weight s.my_id s.sessions m in
      let below = total-erase (compare_proc_ids_by_conf s.conf) proc_id_of w id g.daemons in
      let lost = total-erase_member (at_mbox s.sessions m) name d.members member in
      elim (Bool-cases (d.proc_id == s.my_id)) [
        | inl e ↦ omega (
          arith,
          good.mailboxes m,
          below,
          ap (weight w) here,
          lost,
          rw e at (own m),
          local_here m e,
        )
        | inr e ↦ omega (arith, rw e at (own m))
      ]

  pub extract_member-Remains :
      (rest : Option Group) × (views : List Sent) × (extract_member s caused name g d mbox
        ≡ some (rest, views))
      × Remains s g.name rest
      × ((i : ℕ) (c : Name)
          → in_group s.conf rest i c ≡ (
              not (same_daemon s.conf i d.proc_id && same_name c name)
              && holds s.conf g.daemons i c))
  unfolding extract_member
  extract_member-Remains =
      let (ms, taken, counts) = take_mbox-some mbox g.mboxes mbox_there in
      let g' = without_member s.conf g d name ms in
      let was = get_daemon-IsDaemon s.conf g.daemons id d good.daemons here in
      let well =
        without_member-IsGroup s.conf s.my_id s.sessions g d id name found mbox ms good here member
          (λ m. counts m ∙ ap (λ (k : ℕ). k + count_if (λ x. x == m) ms) (own m)) in
      let (rest, views, kept, remains, same) = keep_or_remove-Remains s caused name g' well in
      (
        rest,
        views,
        rw taken kept,
        remains,
        λ i c.
            same i c
            ∙ holds-without_member s.conf g d name ms good.sorted was.sorted
                (get_daemon_self s.conf g.daemons id d here) i c,
      )
