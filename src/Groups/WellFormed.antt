-- ===== src/Groups/WellFormed.antt =====
-- The well-formed groups of spread-src-4.4.0/daemon/groups.c, and the clients that change them.
use tf.Prelude.{
  ℕ, ◌<◌, ◌≡◌, refl, sym, ◌⊎◌, inl, inr, arith, true, ◌==◌, if◌then◌else◌, Option, none, some, List,
  [], ◌∷◌, length, All, Bool-cases, Option-cases,
}
use tf.Configuration.{Proc, proc_by_name_in_conf}
use tf.Groups.SkipList.{put, Sorted, Sorted-put}
use tf.Groups.Totals.{total, total-put, All-put, All-find}
use tf.Groups.Orders.{compare_nameptr-IsOrder}
use tf.Groups.State.{
  Name, Group, Session, Sent, Groups, compare_nameptr, compare_proc_ids_by_conf, get_group,
  put_group, get_session,
}
use tf.Groups.Names.{private_to_names}
use tf.Groups.Views.{send_heavyweight_join}
use tf.Groups.Handle.{
  is_nil, client, new_group, group_or_new, local_mbox, announce_join, store_group,
}
use tf.Groups.Invariant.{is_own, at_mbox, IsGroup}
use tf.Groups.Joining.{proc_id_of, arrives}
use tf.Groups.Sets.{Among, build_memb_vs_buf-IsPartition}
use tf.Groups.Members.{name_of, get_group-name}

-- The groups in order, each well-formed and with members, and their number.
pub record IsGroups (s : Groups) : Type 0 where
  pub sorted : Sorted compare_nameptr name_of s.groups_list
  pub groups : All (λ g. IsGroup s.conf s.my_id s.sessions g × (0 < g.num_members)) s.groups_list
  pub counted : s.num_groups ≡ length s.groups_list

-- A private group name of a client of the daemon `p`, which has a session if that is this daemon.
pub record IsClient (s : Groups) (name private_name : Name) (p : Proc) : Type 0 where
  pub known : client s name ≡ some (some (private_name, p))
  pub own : is_own s.conf p.id ≡ true
  pub session : p.id ≡ s.my_id → (ses : Session) × (get_session s.sessions private_name ≡ some ses)

pub client-names :
    (s : Groups) (name private_name : Name) (p : Proc)
    → client s name ≡ some (some (private_name, p))
    → (proc_name : Name) × (private_to_names name ≡ some (private_name, proc_name))
unfolding client
client-names s name private_name p e = elim (Option-cases (private_to_names name)) [
  | inl bad ↦ absurd (ground (arith, bad))
  | inr ((a, b), good) ↦ elim (Option-cases (proc_by_name_in_conf s.conf b)) [
    | inl unknown ↦ absurd (ground (arith, good, unknown))
    | inr ((i, q), known) ↦ (b, ground (arith, good, known))
  ]
]

-- The mailbox of a client is that of its session, at its daemon.
pub local_mbox-some :
    (s : Groups) (name private_name : Name) (p : Proc) (id : ℕ)
    → IsClient s name private_name p
    → id ≡ p.id
    → (mbox : Option ℕ) × (local_mbox s private_name id ≡ some mbox)
      × ((m : ℕ) → arrives m mbox ≡ (if id == s.my_id then at_mbox s.sessions m name else 0))
unfolding local_mbox
local_mbox-some s name private_name p id c same =
    let (proc_name, names) = client-names s name private_name p c.known in
    elim (Bool-cases (id == s.my_id)) [
      | inr away ↦ rw away (none, refl, λ m. refl)
      | inl here ↦
          let (ses, found) = c.session (ground (arith, here, same)) in
          rw (here, found) (some ses.mbox, refl, λ m. ground (arith, names, found))
    ]

pub announce_join-some :
    (s : Groups) (g : Group) (name : Name) (new_mbox : Option ℕ)
    → Sorted (compare_proc_ids_by_conf s.conf) proc_id_of g.daemons
    → Among (some name) g.daemons
    → (views : List Sent) × (announce_join s g name new_mbox ≡ some views)
unfolding announce_join send_heavyweight_join
announce_join-some s g name new_mbox sorted among =
    let (offset, sets, built, sums) =
      build_memb_vs_buf-IsPartition s.conf s.my_id g (some name) sorted among in
    elim (Bool-cases (is_nil g.mboxes)) [
      | inl e ↦ rw e ([], refl)
      | inr e ↦
          rw e (elim (Bool-cases g.changed) [
            | inl c ↦ rw (c, built) (_, refl)
            | inr c ↦ rw c (_, refl)
          ])
    ]

-- The group to be joined, found or new.
pub record Target (s : Groups) (name : Name) (g : Group) : Type 0 where
  pub well_formed : IsGroup s.conf s.my_id s.sessions g
  pub named : g.name ≡ name
  pub stands :
      (get_group s.groups_list name ≡ some g)
      ⊎ ((get_group s.groups_list name ≡ none) × (g.daemons ≡ []))

pub get_group-IsGroup :
    (s : Groups) (name : Name) (g : Group)
    → IsGroups s
    → get_group s.groups_list name ≡ some g
    → IsGroup s.conf s.my_id s.sessions g × (0 < g.num_members)
unfolding get_group
get_group-IsGroup s name g good e =
    All-find compare_nameptr name_of
      (λ h. IsGroup s.conf s.my_id s.sessions h × (0 < h.num_members)) name s.groups_list
      good.groups e

pub group_or_new-Target :
    (s : Groups) (name : Name) → IsGroups s → Target s name (group_or_new s name)
unfolding group_or_new new_group
group_or_new-Target s name good = elim (Option-cases (get_group s.groups_list name)) [
  | inl absent ↦ rw absent (record {
    well_formed = record { sorted = tt; daemons = tt; counted = refl; mailboxes = λ m. refl };
    named = refl;
    stands = inr (absent, refl);
  })
  | inr (g, e) ↦ rw e (record {
    well_formed = (get_group-IsGroup s name g good e).0;
    named = sym (get_group-name s.groups_list name g e);
    stands = inl e;
  })
]

pub length-total : (gs : List Group) → length gs ≡ total (λ g. 1) gs
length-total [] = refl
length-total (g ∷ gs) = omega (arith, length-total gs)

-- A well-formed group with members takes its place.
pub store_group-IsGroups :
    (s : Groups) (g : Group) (views : List Sent)
    → IsGroups s
    → IsGroup s.conf s.my_id s.sessions g
    → 0 < g.num_members
    → IsGroups (store_group s g views)
unfolding store_group put_group get_group
store_group-IsGroups s g views good well pos = record {
  sorted = Sorted-put compare_nameptr name_of compare_nameptr-IsOrder g s.groups_list good.sorted;
  groups =
      All-put compare_nameptr name_of
        (λ h. IsGroup s.conf s.my_id s.sessions h × (0 < h.num_members)) g s.groups_list (well, pos)
        good.groups;
  counted = ground (
    arith,
    good.counted,
    length-total s.groups_list,
    length-total (put compare_nameptr name_of g s.groups_list),
    total-put compare_nameptr name_of (λ h. 1) g s.groups_list,
  );
}
