-- ===== src/Groups/Leaving.antt =====
-- A member less in a group of spread-src-4.4.0/daemon/groups.c.
use tf.Prelude.{
  ℕ, ◌+◌, ◌<◌, ◌≡◌, refl, ap, ◌∙◌, inl, inr, arith, true, false, ◌==◌, if◌then◌else◌, Option, some,
  List, [], ◌∷◌, length, All, Bool-cases, get_or, if_both,
}
use tf.Configuration.{Configuration}
use tf.Membership.Selection.{count_if, count_if-take_out, take_out}
use tf.Groups.SkipList.{Sorted, Sorted-put, Sorted-erase}
use tf.Groups.Totals.{total, weight, total-put, total-erase, All-put, All-erase}
use tf.Groups.Orders.{compare_nameptr-IsOrder, compare_proc_ids_by_conf-IsOrder}
use tf.Groups.State.{
  Name, DaemonMembers, Group, Session, compare_nameptr, compare_proc_ids_by_conf, get_daemon,
  put_daemon, erase_daemon, get_member, erase_member,
}
use tf.Groups.Handle.{is_nil}
use tf.Groups.Depart.{mbox_index, remove_mailbox, shrink_daemon, without_member}
use tf.Groups.Invariant.{one, at_mbox, local_weight, size, IsDaemon, IsGroup, total-erase_member}
use tf.Groups.Joining.{proc_id_of, arrives, local_weight-nil, get_daemon_self, get_daemon-IsDaemon}

is_nil-eq : (ms : List Name) → is_nil ms ≡ true → ms ≡ []
is_nil-eq [] h = refl
is_nil-eq (n ∷ ns) h = cc

local_weight-lost :
    (my_id : ℕ) (ss : List Session) (m : ℕ) (d : DaemonMembers) (members : List Name) (lost : ℕ)
    → total (at_mbox ss m) members + lost ≡ total (at_mbox ss m) d.members
    → local_weight my_id ss m (record d { members = members })
        + (if d.proc_id == my_id then lost else 0)
      ≡ local_weight my_id ss m d
local_weight-lost my_id ss m d members lost e = elim (Bool-cases (d.proc_id == my_id)) [
  | inl here ↦ rw here e
  | inr away ↦ rw away
]

mbox_index-found :
    (x : ℕ) (ms : List ℕ)
    → 0 < count_if (λ y. y == x) ms
    → (i : ℕ) × (mbox_index x ms ≡ some i) × (i < length ms) × (get_or ms i 0 ≡ x)
unfolding mbox_index
mbox_index-found x [] h = absurd (omega arith)
mbox_index-found x (y ∷ ys) h = elim (Bool-cases (y == x)) [
  | inl e ↦ rw e (0, refl, omega arith, ground arith)
  | inr e ↦
      let (i, at, lt, got) = mbox_index-found x ys (ground (arith, e, h)) in
      (i + 1, ground (arith, e, at), omega arith, ground (arith, got))
]

-- A mailbox that is there can be taken out once.
pub remove_mailbox-some :
    (x : ℕ) (ms : List ℕ)
    → 0 < count_if (λ y. y == x) ms
    → (ms' : List ℕ) × (remove_mailbox x ms ≡ some ms')
      × ((m : ℕ) → count_if (λ y. y == m) ms ≡ arrives m (some x) + count_if (λ y. y == m) ms')
unfolding remove_mailbox
remove_mailbox-some x ms h =
    let (i, at, lt, got) = mbox_index-found x ms h in
    (
      take_out ms i,
      ground (arith, at),
      λ m.
          count_if-take_out 0 (λ y. y == m) ms i lt
          ∙ ap (λ (y : ℕ). (if y == m then 1 else 0) + count_if (λ z. z == m) (take_out ms i)) got,
    )

module _ (config : Configuration) (my_id : ℕ) (ss : List Session) (g : Group) (d : DaemonMembers)
    (id : ℕ) (name found : Name) (mbox : Option ℕ) (mboxes : List ℕ)
    (good : IsGroup config my_id ss g) (here : get_daemon config g.daemons id ≡ some d)
    (member : get_member d.members name ≡ some found) where
  abbrev left : List Name
  left = erase_member name d.members

  total-shrink_daemon :
      (w : DaemonMembers → ℕ) (lost : ℕ)
      → w (record d { members = left }) + lost ≡ w d
      → (left ≡ [] → w (record d { members = left }) ≡ 0)
      → total w (shrink_daemon config d left g.daemons) + lost ≡ total w g.daemons
  unfolding shrink_daemon erase_daemon put_daemon get_daemon
  total-shrink_daemon w lost after empty =
      let cmp = compare_proc_ids_by_conf config in
      let own = ap (weight w) (get_daemon_self config g.daemons id d here) in
      elim (Bool-cases (is_nil left)) [
        | inl e ↦ rw e (
            omega (
              arith,
              own,
              total-erase cmp proc_id_of w d.proc_id g.daemons,
              empty (is_nil-eq left e),
            ))
        | inr e ↦
            rw e (
              omega
                (arith, own, total-put cmp proc_id_of w (record d { members = left }) g.daemons))
      ]

  shrink_daemon-Sorted :
      Sorted (compare_proc_ids_by_conf config) proc_id_of (shrink_daemon config d left g.daemons)
  unfolding shrink_daemon erase_daemon put_daemon erase_member
  shrink_daemon-Sorted =
      let order = compare_proc_ids_by_conf-IsOrder config in
      if_both (Sorted (compare_proc_ids_by_conf config) proc_id_of) (is_nil left)
        (Sorted-erase _ proc_id_of order d.proc_id g.daemons good.sorted)
        (Sorted-put _ proc_id_of order (record d { members = left }) g.daemons good.sorted)

  shrink_daemon-daemons : All (IsDaemon config) (shrink_daemon config d left g.daemons)
  unfolding shrink_daemon erase_daemon put_daemon erase_member
  shrink_daemon-daemons =
      let cmp = compare_proc_ids_by_conf config in
      let was = get_daemon-IsDaemon config g.daemons id d good.daemons here in
      elim (Bool-cases (is_nil left)) [
        | inl e ↦ rw e (All-erase cmp proc_id_of (IsDaemon config) d.proc_id g.daemons good.daemons)
        | inr e ↦ rw e (
            All-put cmp proc_id_of (IsDaemon config) (record d { members = left }) g.daemons
              (record {
                own = was.own;
                sorted =
                    Sorted-erase compare_nameptr (λ (n : Name). n) compare_nameptr-IsOrder name
                      d.members was.sorted;
                inhabited = e;
              })
              good.daemons)
      ]

  pub without_member-IsGroup :
      ((m : ℕ)
        → count_if (λ x. x == m) g.mboxes
          ≡ (if d.proc_id == my_id then at_mbox ss m name else 0) + count_if (λ x. x == m) mboxes)
      → IsGroup config my_id ss (without_member config g d name mboxes)
  unfolding without_member
  without_member-IsGroup mailbox = record {
    sorted = shrink_daemon-Sorted;
    daemons = shrink_daemon-daemons;
    counted = omega (
      arith,
      good.counted,
      total-shrink_daemon size 1 (total-erase_member one name d.members member) (ap (total one)),
    );
    mailboxes = λ m. omega (
      arith,
      good.mailboxes m,
      mailbox m,
      total-shrink_daemon (local_weight my_id ss m)
          (if d.proc_id == my_id then at_mbox ss m name else 0) (local_weight-left m)
          (local_weight-nil my_id ss m (record d { members = left })),
    );
  }
    where
      local_weight-left :
          (m : ℕ)
          → local_weight my_id ss m (record d { members = left })
              + (if d.proc_id == my_id then at_mbox ss m name else 0)
            ≡ local_weight my_id ss m d
      local_weight-left m =
          local_weight-lost my_id ss m d left (at_mbox ss m name)
            (total-erase_member (at_mbox ss m) name d.members member)

-- A group that counts no members has no daemons and no mailboxes.
module _ (config : Configuration) (my_id : ℕ) (ss : List Session) (g : Group)
    (good : IsGroup config my_id ss g) (empty : g.num_members ≡ 0) where
  daemons-nil : (ds : List DaemonMembers) → All (IsDaemon config) ds → total size ds ≡ 0 → ds ≡ []
  daemons-nil [] h e = refl
  daemons-nil (d ∷ ds) h e = absurd (size-pos d.members h.0.inhabited (omega arith))
    where
      size-pos : (ms : List Name) → is_nil ms ≡ false → total one ms ≡ 0 → ⊥
      size-pos [] h e = cc
      size-pos (n ∷ ns) h e = omega arith

  pub IsGroup-daemons : g.daemons ≡ []
  IsGroup-daemons = daemons-nil g.daemons good.daemons (omega (arith, good.counted))

  pub IsGroup-mboxes : g.mboxes ≡ []
  IsGroup-mboxes =
      none_there g.mboxes
        λ m. good.mailboxes m ∙ ap (total (local_weight my_id ss m)) IsGroup-daemons
    where
      none_there : (ms : List ℕ) → ((m : ℕ) → count_if (λ x. x == m) ms ≡ 0) → ms ≡ []
      none_there [] h = refl
      none_there (x ∷ xs) h = absurd (ground (arith, h x))
