-- ===== src/Groups/Joining.antt =====
-- A member more in a group of spread-src-4.4.0/daemon/groups.c.
use tf.Prelude.{
  ℕ, ◌+◌, ◌≡◌, refl, ap, sym, ◌∙◌, ◌⊎◌, inl, inr, arith, true, false, ◌==◌, if◌then◌else◌, Option,
  none, some, List, [], ◌∷◌, All, Bool-cases, Option-cases,
}
use tf.Configuration.{Configuration}
use tf.Membership.Selection.{count_if}
use tf.Groups.SkipList.{put, Sorted, find-same, Sorted-put}
use tf.Groups.Totals.{total, weight, total-put, All-put, All-find, find-key}
use tf.Groups.Orders.{compare_nameptr-IsOrder, compare_proc_ids_by_conf-IsOrder}
use tf.Groups.State.{
  Name, DaemonMembers, Group, Session, Groups, compare_nameptr, compare_proc_ids_by_conf,
  get_daemon, put_daemon, get_member, put_member,
}
use tf.Groups.Handle.{is_nil, add_mbox, with_member, daemon_or_new, new_daemon}
use tf.Groups.Invariant.{
  is_own, one, at_mbox, local_weight, size, IsDaemon, IsGroup, total-put_member,
}

abbrev pub proc_id_of : DaemonMembers → ℕ
proc_id_of d = d.proc_id

-- The entry of a daemon of a group, or a new one.
pub record Entry (config : Configuration) (ds : List DaemonMembers) (d : DaemonMembers)
    : Type 0 where
  pub own : is_own config d.proc_id ≡ true
  pub sorted : Sorted compare_nameptr (λ (n : Name). n) d.members
  pub stands :
      (get_daemon config ds d.proc_id ≡ some d)
      ⊎ ((get_daemon config ds d.proc_id ≡ none) × (d.members ≡ []))

-- A found daemon is found by its own id.
pub get_daemon_self :
    (config : Configuration) (ds : List DaemonMembers) (id : ℕ) (d : DaemonMembers)
    → get_daemon config ds id ≡ some d
    → get_daemon config ds d.proc_id ≡ some d
unfolding get_daemon
get_daemon_self config ds id d e =
    let cmp = compare_proc_ids_by_conf config in
    sym (
      find-same cmp proc_id_of (compare_proc_ids_by_conf-IsOrder config) id d.proc_id ds
        (find-key cmp proc_id_of id ds d e))
    ∙ e

pub get_daemon-IsDaemon :
    (config : Configuration) (ds : List DaemonMembers) (id : ℕ) (d : DaemonMembers)
    → All (IsDaemon config) ds
    → get_daemon config ds id ≡ some d
    → IsDaemon config d
unfolding get_daemon
get_daemon-IsDaemon config ds id d h e =
    All-find (compare_proc_ids_by_conf config) proc_id_of (IsDaemon config) id ds h e

pub daemon_or_new-Entry :
    (s : Groups) (g : Group) (id : ℕ)
    → All (IsDaemon s.conf) g.daemons
    → is_own s.conf id ≡ true
    → Entry s.conf g.daemons (daemon_or_new s g id)
unfolding daemon_or_new new_daemon
daemon_or_new-Entry s g id h own = elim (Option-cases (get_daemon s.conf g.daemons id)) [
  | inl absent ↦ rw absent (record { own = own; sorted = tt; stands = inr (absent, refl) })
  | inr (d, e) ↦
      let good = get_daemon-IsDaemon s.conf g.daemons id d h e in
      rw e (record {
        own = good.own;
        sorted = good.sorted;
        stands = inl (get_daemon_self s.conf g.daemons id d e);
      })
]

-- What a new mailbox adds.
abbrev pub arrives : ℕ → Option ℕ → ℕ
arrives m new_mbox = weight (λ x. if x == m then 1 else 0) new_mbox

count_if-add_mbox :
    (m : ℕ) (new_mbox : Option ℕ) (ms : List ℕ)
    → count_if (λ x. x == m) (add_mbox new_mbox ms) ≡ count_if (λ x. x == m) ms + arrives m new_mbox
unfolding add_mbox
count_if-add_mbox m none ms = omega arith
count_if-add_mbox m (some x) [] = omega arith
count_if-add_mbox m (some x) (y ∷ ys) = omega (arith, count_if-add_mbox m (some x) ys)

is_nil-put_member : (name : Name) (ms : List Name) → is_nil (put_member name ms) ≡ false
unfolding put_member put
is_nil-put_member name [] = refl
is_nil-put_member name (x ∷ xs) = ground arith

module _ (my_id : ℕ) (ss : List Session) (m : ℕ) (d : DaemonMembers) where
  pub local_weight-nil : d.members ≡ [] → local_weight my_id ss m d ≡ 0
  local_weight-nil e = elim (Bool-cases (d.proc_id == my_id)) [
    | inl here ↦ rw here (ap (total (at_mbox ss m)) e)
    | inr away ↦ rw away
  ]

  pub local_weight-member :
      (members : List Name) (added : ℕ)
      → total (at_mbox ss m) members ≡ total (at_mbox ss m) d.members + added
      → local_weight my_id ss m (record d { members = members })
        ≡ local_weight my_id ss m d + (if d.proc_id == my_id then added else 0)
  local_weight-member members added e = elim (Bool-cases (d.proc_id == my_id)) [
    | inl here ↦ rw here e
    | inr away ↦ rw away
  ]

module _ (config : Configuration) (my_id : ℕ) (ss : List Session) (g : Group) (d : DaemonMembers)
    (name : Name) (new_mbox : Option ℕ) where
  abbrev pub joined_daemon : DaemonMembers
  joined_daemon = record d { members = put_member name d.members }

  pub total-put_daemon :
      (w : DaemonMembers → ℕ) (added : ℕ)
      → weight w (get_daemon config g.daemons d.proc_id) ≡ w d
      → w joined_daemon ≡ w d + added
      → total w (put_daemon config joined_daemon g.daemons) ≡ total w g.daemons + added
  unfolding put_daemon get_daemon
  total-put_daemon w added before after =
      omega
        (arith, total-put (compare_proc_ids_by_conf config) proc_id_of w joined_daemon g.daemons)

  pub weight-Entry :
      (w : DaemonMembers → ℕ)
      → Entry config g.daemons d
      → (d.members ≡ [] → w d ≡ 0)
      → weight w (get_daemon config g.daemons d.proc_id) ≡ w d
  weight-Entry w entry zero = elim entry.stands [
    | inl e ↦ rw e
    | inr (e, none_yet) ↦ rw e (sym (zero none_yet))
  ]

  pub with_member-IsGroup :
      IsGroup config my_id ss g
      → Entry config g.daemons d
      → get_member d.members name ≡ none
      → ((m : ℕ) → arrives m new_mbox ≡ (if d.proc_id == my_id then at_mbox ss m name else 0))
      → IsGroup config my_id ss (with_member config g d name new_mbox)
  unfolding with_member
  with_member-IsGroup good entry absent mbox = record {
    sorted =
        Sorted-put (compare_proc_ids_by_conf config) proc_id_of
          (compare_proc_ids_by_conf-IsOrder config) joined_daemon g.daemons good.sorted;
    daemons =
        All-put (compare_proc_ids_by_conf config) proc_id_of (IsDaemon config) joined_daemon
          g.daemons
          (record {
            own = entry.own;
            sorted =
                Sorted-put compare_nameptr (λ (n : Name). n) compare_nameptr-IsOrder name d.members
                  entry.sorted;
            inhabited = is_nil-put_member name d.members;
          })
          good.daemons;
    counted = omega (
      arith,
      good.counted,
      total-put_daemon size 1 (weight-Entry size entry (ap (total one)))
          (total-put_member one name d.members absent),
    );
    mailboxes = λ m. omega (
      arith,
      good.mailboxes m,
      mbox m,
      count_if-add_mbox m new_mbox g.mboxes,
      total-put_daemon (local_weight my_id ss m)
          (if d.proc_id == my_id then at_mbox ss m name else 0)
          (weight-Entry (local_weight my_id ss m) entry (local_weight-nil my_id ss m d))
          (local_weight-member my_id ss m d (put_member name d.members) (at_mbox ss m name)
            (total-put_member (at_mbox ss m) name d.members absent)),
    );
  }
