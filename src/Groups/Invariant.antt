-- ===== src/Groups/Invariant.antt =====
-- What the groups of spread-src-4.4.0/daemon/groups.c keep.
use Prim.Native.Nat.{Ordering}
use tf.Prelude.{
  ℕ, ◌+◌, ◌≡◌, ap, inl, inr, arith, Bool, true, false, ◌==◌, if◌then◌else◌, Option, none, some,
  List, All, Option-cases, subst,
}
use tf.Configuration.{Configuration, Proc, proc_by_id_in_conf}
use tf.Configuration.Copy.{Found, proc_by_id_in_conf-Found}
use tf.Membership.Selection.{count_if}
use tf.Groups.SkipList.{Sorted}
use tf.Groups.Totals.{total, weight, total-put, total-erase, find-key}
use tf.Groups.Orders.{compare_nameptr-eq}
use tf.Groups.State.{
  Name, DaemonMembers, Group, Session, compare_nameptr, compare_places, place,
  compare_proc_ids_by_conf, get_session, get_member, put_member, erase_member,
}
use tf.Groups.Names.{private_to_names}
use tf.Groups.Handle.{is_nil}

-- The daemon at the id's place has this id for its own.
abbrev pub is_own : Configuration → ℕ → Bool
is_own config id = elim (proc_by_id_in_conf config id) [ none ↦ false | some (i, p) ↦ p.id == id ]

pub same_place :
    (config : Configuration) (a b i : ℕ) (p q : Proc)
    → proc_by_id_in_conf config a ≡ some (i, p)
    → proc_by_id_in_conf config b ≡ some (i, q)
    → p ≡ q
same_place config a b i p q e f =
    let (k, at, got, has) =
      subst (Found config.allprocs a 0) e (proc_by_id_in_conf-Found config a) in
    let (l, at', got', has') =
      subst (Found config.allprocs b 0) f (proc_by_id_in_conf-Found config b) in
    ground (arith, at, got, at', got')

-- Own ids at one place are equal.
pub own_ids_eq :
    (config : Configuration) (a b : ℕ)
    → is_own config a ≡ true
    → is_own config b ≡ true
    → compare_proc_ids_by_conf config a b ≡ Ordering.eq
    → a ≡ b
unfolding compare_proc_ids_by_conf compare_places place
own_ids_eq config a b ha hb e = elim (Option-cases (proc_by_id_in_conf config a)) [
  | inl unknown ↦ ground (arith, unknown)
  | inr ((i, p), f) ↦ elim (Option-cases (proc_by_id_in_conf config b)) [
    | inl unknown ↦ ground (arith, unknown)
    | inr ((j, q), g) ↦
        let j_eq : i ≡ j = ground (arith, e, f, g) in
        let q_eq : p ≡ q = same_place config a b i p q f (rw j_eq g) in
        ground (arith, f, g, ap (λ (r : Proc). r.id) q_eq, ha, hb)
  ]
]

-- The mailbox of a client's session.
abbrev pub mbox_of : List Session → Name → Option ℕ
mbox_of ss name = elim (private_to_names name) [
  | none ↦ none
  | some (private_name, proc_name) ↦ elim (get_session ss private_name) [
    | none ↦ none
    | some ses ↦ some ses.mbox
  ]
]

abbrev pub one : Name → ℕ
one name = 1

-- 1 for a client with the mailbox.
abbrev pub at_mbox : List Session → ℕ → Name → ℕ
at_mbox ss m name = elim (mbox_of ss name) [ none ↦ 0 | some x ↦ if x == m then 1 else 0 ]

-- The clients with the mailbox at the daemon, if it is this one.
abbrev pub local_weight : ℕ → List Session → ℕ → DaemonMembers → ℕ
local_weight my_id ss m d = if d.proc_id == my_id then total (at_mbox ss m) d.members else 0

abbrev pub size : DaemonMembers → ℕ
size d = total one d.members

pub record IsDaemon (config : Configuration) (d : DaemonMembers) : Type 0 where
  pub own : is_own config d.proc_id ≡ true
  pub sorted : Sorted compare_nameptr (λ (n : Name). n) d.members
  pub inhabited : is_nil d.members ≡ false

-- A group: its daemons in order, each with members, its count of members, and its mailboxes, which
-- are those of the local members.
pub record IsGroup (config : Configuration) (my_id : ℕ) (ss : List Session) (g : Group)
    : Type 0 where
  pub sorted : Sorted (compare_proc_ids_by_conf config) (λ (d : DaemonMembers). d.proc_id) g.daemons
  pub daemons : All (IsDaemon config) g.daemons
  pub counted : g.num_members ≡ total size g.daemons
  pub mailboxes :
      (m : ℕ) → count_if (λ x. x == m) g.mboxes ≡ total (local_weight my_id ss m) g.daemons

-- How a daemon's members weigh after a member came or went.
module _ (w : Name → ℕ) (name : Name) (members : List Name) where
  pub total-put_member :
      get_member members name ≡ none → total w (put_member name members) ≡ total w members + w name
  unfolding get_member put_member
  total-put_member absent =
      omega
        (arith, total-put compare_nameptr (λ (n : Name). n) w name members, ap (weight w) absent)

  pub total-erase_member :
      {found : Name}
      → get_member members name ≡ some found
      → total w (erase_member name members) + w name ≡ total w members
  unfolding get_member erase_member
  total-erase_member {found} e =
      let same =
        compare_nameptr-eq name found
          (find-key compare_nameptr (λ (n : Name). n) name members found e) in
      omega (
        arith,
        total-erase compare_nameptr (λ (n : Name). n) w name members,
        ap (weight w) e,
        ap w same,
      )
