-- ===== src/Groups/Cascade.antt =====
-- G_handle_trans_memb of spread-src-4.4.0/daemon/groups.c in GGATHER: the membership of the daemons
-- changes again, while the groups are exchanged.
use Prim.Native.Nat.{Ordering}
use mathlib.Core.Option
use tf.Prelude.{
  ℕ, ◌+◌, ◌≡◌, refl, ap, ap₂, ◌∙◌, arith, Bool, true, false, not, ◌&&◌, ◌||◌, ltb, if◌then◌else◌,
  some, List, [], ◌∷◌, length, All,
}
use tf.Configuration.{Configuration}
use tf.NetTypes.{MembershipId}
use tf.Groups.SkipList.{Above, Sorted}
use tf.Groups.State.{
  compare_proc_ids_by_conf, DaemonMembers, Name, GState, Group, Groups, compare_nameptr, get_group,
}
use tf.Groups.Members.{holds, is_member, in_group, name_of}
use tf.Groups.WellFormed.{IsGroups}
use tf.Groups.Sweep.{Good, get_group-cons}
use tf.Groups.Invariant.{IsDaemon, IsGroup}
use tf.Groups.Shrink.{owner, owner-own, holds-stay}
use tf.Groups.Change.{
  in_memb, is_ggt, is_eliminated, stay, lose, eliminate_partitioned_daemons, lacks_daemon,
  mark_changed, save_trans, handle_trans_memb,
}

-- How many daemons of a group are not in the membership.
abbrev pub lost : Configuration → List DaemonMembers → ℕ
lost memb [] = 0
lost memb (d ∷ ds) = (if in_memb memb d.proc_id then 0 else 1) + lost memb ds

lacks_daemon-lost :
    (memb : Configuration) (ds : List DaemonMembers) → lacks_daemon memb ds ≡ ltb 0 (lost memb ds)
unfolding lacks_daemon
lacks_daemon-lost memb [] = refl
lacks_daemon-lost memb (d ∷ ds) = ground (arith, lacks_daemon-lost memb ds)

-- The group is changed if it was or if it lost a daemon, and else the same.
abbrev pub noticing : Configuration → Group → Group
noticing memb g = record g { changed = g.changed || ltb 0 (lost memb g.daemons) }

module _ (memb : Configuration) where
  Above-mark_changed :
      (k : Name) (gs : List Group)
      → Above compare_nameptr name_of k gs
      → Above compare_nameptr name_of k (mark_changed memb gs)
  unfolding mark_changed
  Above-mark_changed k [] h = tt
  Above-mark_changed k (g ∷ gs) h = (h.0, Above-mark_changed k gs h.1)

  Sorted-mark_changed :
      (gs : List Group)
      → Sorted compare_nameptr name_of gs
      → Sorted compare_nameptr name_of (mark_changed memb gs)
  unfolding mark_changed
  Sorted-mark_changed [] h = tt
  Sorted-mark_changed (g ∷ gs) h = (Above-mark_changed g.name gs h.0, Sorted-mark_changed gs h.1)

  length-mark_changed : (gs : List Group) → length (mark_changed memb gs) ≡ length gs
  unfolding mark_changed
  length-mark_changed [] = refl
  length-mark_changed (g ∷ gs) = omega (arith, length-mark_changed gs)

  get_group-mark_changed :
      (gs : List Group) (h : Name)
      → get_group (mark_changed memb gs) h ≡ Option.map (noticing memb) (get_group gs h)
  unfolding mark_changed get_group
  get_group-mark_changed [] h = refl
  get_group-mark_changed (g ∷ gs) h =
      let g' : Group = record g { changed = g.changed || lacks_daemon memb g.daemons } in
      let same : g' ≡ noticing memb g =
        ap (λ (b : Bool). record g { changed = g.changed || b })
          (lacks_daemon-lost memb g.daemons) in
      ground (
        arith,
        get_group-mark_changed gs h,
        get_group-cons g gs h,
        get_group-cons g' (mark_changed memb gs) h,
        same,
      )

  Good-mark_changed :
      (s : Groups) (gs : List Group) → All (Good s) gs → All (Good s) (mark_changed memb gs)
  unfolding mark_changed
  Good-mark_changed s [] h = tt
  Good-mark_changed s (g ∷ gs) h = (
    (
      record {
        sorted = h.0.0.sorted;
        daemons = h.0.0.daemons;
        counted = h.0.0.counted;
        mailboxes = h.0.0.mailboxes;
      },
      h.0.1,
    ),
    Good-mark_changed s gs h.1,
  )

  members-mark_changed :
      (s : Groups) (gs : List Group) (i : ℕ) (h n : Name)
      → in_group s.conf (get_group (mark_changed memb gs) h) i n
        ≡ in_group s.conf (get_group gs h) i n
  unfolding mark_changed
  members-mark_changed s [] i h n = refl
  members-mark_changed s (g ∷ gs) i h n =
      let g' : Group = record g { changed = g.changed || lacks_daemon memb g.daemons } in
      ground (
        arith,
        members-mark_changed s gs i h n,
        get_group-cons g gs h,
        get_group-cons g' (mark_changed memb gs) h,
      )

-- In GGT, G_eliminate_partitioned_daemons takes out the daemons that the transitional membership lost.
module _ (s : Groups) (waits : is_ggt s.gstate ≡ true) where
  nothing_lost :
      (ds : List DaemonMembers) → lost s.trans_memb ds ≡ 0 → (stay s ds ≡ ds) × (lose s ds ≡ 0)
  unfolding stay lose is_eliminated
  nothing_lost [] e = (refl, refl)
  nothing_lost (d ∷ ds) e =
      let rest = nothing_lost ds (ground (arith, e)) in
      let there : in_memb s.trans_memb d.proc_id ≡ true = ground (arith, e) in
      (ground (arith, waits, there, rest.0), ground (arith, waits, there, rest.1))

  -- A group that lost no daemon stays as it is.
  untouched : (g : Group) → lost s.trans_memb g.daemons ≡ 0 → eliminate_partitioned_daemons s g ≡ g
  unfolding eliminate_partitioned_daemons
  untouched g e =
      let (same, none_lost) = nothing_lost g.daemons e in
      ap₂ (λ (ds : List DaemonMembers) (n : ℕ). record g { daemons = ds; num_members = n }) same
        (omega (arith, none_lost))

  keep_there :
      (ds : List DaemonMembers) (i : ℕ)
      → All (IsDaemon s.conf) ds
      → All
          (λ d.
            compare_proc_ids_by_conf s.conf i d.proc_id ≡ Ordering.eq
            → in_memb s.trans_memb (owner s.conf i) ≡ not (is_eliminated s d))
          ds
  unfolding is_eliminated
  keep_there [] i own = tt
  keep_there (d ∷ ds) i own = (
    λ e.
        ap (in_memb s.trans_memb) (owner-own s.conf i d.proc_id own.0.own e)
        ∙ ground (arith, waits),
    keep_there ds i own.1,
  )

  survivors :
      (g : Group)
      → IsGroup s.conf s.my_id s.sessions g
      → (i : ℕ) (n : Name)
      → holds s.conf (eliminate_partitioned_daemons s g).daemons i n
        ≡ (in_memb s.trans_memb (owner s.conf i) && holds s.conf g.daemons i n)
  unfolding eliminate_partitioned_daemons
  survivors g good i n =
      holds-stay s g.daemons (λ j. in_memb s.trans_memb (owner s.conf j)) good.sorted i n
        (keep_there g.daemons i good.daemons)

-- What G_eliminate_partitioned_daemons will make of a group: without the mark nothing changes, and in
-- any case exactly the members at daemons of the membership stay.
pub record IsReady (s : Groups) (memb : Configuration) (g : Group) : Type 0 where
  pub spared : g.changed ≡ false → eliminate_partitioned_daemons s g ≡ g
  pub survive :
      (i : ℕ) (n : Name)
      → holds s.conf (eliminate_partitioned_daemons s g).daemons i n
        ≡ (in_memb memb (owner s.conf i) && holds s.conf g.daemons i n)

mark_changed-IsReady :
    (s : Groups)
    → is_ggt s.gstate ≡ true
    → (gs : List Group) → All (Good s) gs
    → All (IsReady s s.trans_memb) (mark_changed s.trans_memb gs)
unfolding mark_changed
mark_changed-IsReady s waits [] good = tt
mark_changed-IsReady s waits (g ∷ gs) good = (
  record {
    spared = λ e. untouched s waits _ (ground (arith, e, lacks_daemon-lost s.trans_memb g.daemons));
    survive = survivors s waits _ (Good-mark_changed s.trans_memb s (g ∷ []) (good.0, tt)).0.0;
  },
  mark_changed-IsReady s waits gs good.1,
)

-- The groups after a cascading transitional membership.
pub record Cascaded (s : Groups) (memb : Configuration) (s' : Groups) : Type 0 where
  pub well_formed : IsGroups s'
  pub waits : s'.gstate ≡ GState.ggt
  pub noticed :
      (h : Name)
      → get_group s'.groups_list h ≡ Option.map (noticing memb) (get_group s.groups_list h)
  pub ready : All (IsReady s' memb) s'.groups_list
  pub members : (i : ℕ) (g n : Name) → is_member s' i g n ≡ is_member s i g n

abbrev after_cascade : Groups → Configuration → MembershipId → Groups
after_cascade s memb memb_id = record s {
  trans_memb = memb;
  trans_memb_id = memb_id;
  groups_list = mark_changed memb s.groups_list;
  gstate = GState.ggt;
}

in_ggather :
    (s : Groups) (memb : Configuration) (memb_id : MembershipId)
    → s.gstate ≡ GState.ggather
    → handle_trans_memb s memb memb_id ≡ some (after_cascade s memb memb_id)
unfolding handle_trans_memb save_trans
in_ggather s memb memb_id e = ground (arith, e)

-- In GGATHER, G_handle_trans_memb returns in the state GGT and keeps the groups well-formed and their
-- members, those at lost daemons too. Each group is marked as changed if it was or if it has a daemon
-- that is not in the membership, and is else the same. So G_eliminate_partitioned_daemons, in GGT,
-- changes no group without the mark, and leaves of each group exactly the members at the daemons of
-- the membership.
pub handle_trans_memb-Cascaded :
    (s : Groups) (memb : Configuration) (memb_id : MembershipId)
    → IsGroups s
    → s.gstate ≡ GState.ggather
    → (s' : Groups) × (handle_trans_memb s memb memb_id ≡ some s') × Cascaded s memb s'
unfolding is_ggt
handle_trans_memb-Cascaded s memb memb_id good ggather = (
  after_cascade s memb memb_id,
  in_ggather s memb memb_id ggather,
  record {
    well_formed = record {
      sorted = Sorted-mark_changed memb s.groups_list good.sorted;
      groups = Good-mark_changed memb s s.groups_list good.groups;
      counted = omega (arith, good.counted, length-mark_changed memb s.groups_list);
    };
    waits = refl;
    noticed = get_group-mark_changed memb s.groups_list;
    ready = mark_changed-IsReady (after_cascade s memb memb_id) refl s.groups_list good.groups;
    members = λ i g n. members-mark_changed memb s s.groups_list i g n;
  },
)
