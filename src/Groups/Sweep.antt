-- ===== src/Groups/Sweep.antt =====
-- The loops of spread-src-4.4.0/daemon/groups.c over all groups.
use Prim.Native.Nat.{Ordering}
use tf.Prelude.{
  ℕ, ◌≤◌, ◌<◌, ◌≡◌, refl, ap, ◌∙◌, ◌⊎◌, inl, inr, arith, Bool, ◌&&◌, Option, none, some, List, [],
  ◌∷◌, ◌++◌, length, All,
}
use tf.Configuration.{Configuration}
use tf.Groups.SkipList.{find, find-Above, Above-lower, Above-same, Above, Sorted}
use tf.Groups.Orders.{compare_nameptr-IsOrder}
use tf.Groups.State.{Name, Group, Sent, Groups, compare_nameptr, get_group}
use tf.Groups.Depart.{cons_rest, for_groups, after_loop}
use tf.Groups.Invariant.{IsGroup}
use tf.Groups.Members.{holds, in_group, name_of}
use tf.Groups.WellFormed.{IsGroups}

-- A name up to that of the first group is none of a later one.
none-Above :
    (h k : Name) (gs : List Group)
    → Above compare_nameptr name_of k gs
    → (compare_nameptr h k ≡ Ordering.lt) ⊎ (compare_nameptr h k ≡ Ordering.eq)
    → get_group gs h ≡ none
unfolding get_group
none-Above h k gs top (inl e) =
    find-Above compare_nameptr name_of compare_nameptr-IsOrder h gs
      (Above-lower compare_nameptr name_of compare_nameptr-IsOrder h k gs e top)
none-Above h k gs top (inr e) =
    find-Above compare_nameptr name_of compare_nameptr-IsOrder h gs
      (Above-same compare_nameptr name_of compare_nameptr-IsOrder h k gs e top)

pub get_group-cons :
    (g : Group) (gs : List Group) (h : Name)
    → get_group (g ∷ gs) h ≡ (elim (compare_nameptr h g.name) [
      | Ordering.lt ↦ none
      | Ordering.eq ↦ some g
      | Ordering.gt ↦ get_group gs h
    ])
unfolding get_group find
get_group-cons g gs h = refl

-- A step on a group, which keeps the members that pass a test and what holds of every group.
module _ (config : Configuration) (P Q : Group → Type 0)
    (step : Group → Option (Option Group × List Sent)) (keep : ℕ → Name → Bool) where
  abbrev pub Stays : Name → Option Group → Type 0
  Stays name none = Unit
  Stays name (some g) = Q g × (g.name ≡ name)

  abbrev pub KeepsMembers : Group → Option Group → Type 0
  KeepsMembers g rest =
      (i : ℕ) (n : Name) → in_group config rest i n ≡ (keep i n && holds config g.daemons i n)

  pub record Stepped (g : Group) : Type 0 where
    pub rest : Option Group
    pub views : List Sent
    pub returns : step g ≡ some (rest, views)
    pub stays : Stays g.name rest
    pub members : KeepsMembers g rest

  pub record Swept (gs : List Group) : Type 0 where
    pub rest : List Group
    pub views : List Sent
    pub returns : for_groups step gs ≡ some (rest, views)
    pub good : All Q rest
    pub above :
        (k : Name) → Above compare_nameptr name_of k gs → Above compare_nameptr name_of k rest
    pub sorted : Sorted compare_nameptr name_of rest
    pub fewer : length rest ≤ length gs
    pub members :
        (i : ℕ) (h n : Name)
        → in_group config (get_group rest h) i n
          ≡ (keep i n && in_group config (get_group gs h) i n)

  sweep :
      (g : Group) (gs : List Group) (here : Option Group) (views : List Sent)
      → step g ≡ some (here, views)
      → Stays g.name here
      → KeepsMembers g here
      → Above compare_nameptr name_of g.name gs
      → Swept gs
      → Swept (g ∷ gs)
  unfolding for_groups cons_rest
  sweep g gs none views stepped stays same top others = record {
    rest = others.rest;
    views = views ++ others.views;
    returns = rw (stepped, for_groups) (rw others.returns);
    good = others.good;
    above = λ k h. others.above k h.1;
    sorted = others.sorted;
    fewer = omega (arith, others.fewer);
    members = λ i h n.
        ground (
          arith,
          others.members i h n,
          same i n,
          get_group-cons g gs h,
          none-Above h g.name gs top,
        );
  }
  sweep g gs (some g') views stepped stays same top others = record {
    rest = g' ∷ others.rest;
    views = views ++ others.views;
    returns = rw (stepped, for_groups) (rw others.returns);
    good = (stays.0, others.good);
    above = λ k h. (ap (compare_nameptr k) stays.1 ∙ h.0, others.above k h.1);
    sorted = (others.above g'.name (rw stays.1 top), others.sorted);
    fewer = omega (arith, others.fewer);
    members = λ i h n. ground (
      arith,
      others.members i h n,
      same i n,
      get_group-cons g gs h,
      get_group-cons g' others.rest h,
      ap (compare_nameptr h) stays.1,
    );
  }

  pub for_groups-Swept :
      ((g : Group) → P g → Stepped g)
      → (gs : List Group) → All P gs
      → Sorted compare_nameptr name_of gs
      → Swept gs
  unfolding for_groups get_group find
  for_groups-Swept one [] good sorted = record {
    rest = [];
    views = [];
    returns = refl;
    good = tt;
    above = λ k h. tt;
    sorted = tt;
    fewer = omega arith;
    members = λ i h n. ground arith;
  }
  for_groups-Swept one (g ∷ gs) good sorted =
      let here = one g good.0 in
      sweep g gs here.rest here.views here.returns here.stays here.members sorted.0
        (for_groups-Swept one gs good.1 sorted.1)

abbrev pub Good : Groups → Group → Type 0
Good s g = IsGroup s.conf s.my_id s.sessions g × (0 < g.num_members)

pub after_loop-IsGroups :
    (s : Groups) (rest : List Group) (views : List Sent)
    → IsGroups s
    → All (Good s) rest
    → Sorted compare_nameptr name_of rest
    → length rest ≤ length s.groups_list
    → IsGroups (after_loop s (rest, views))
unfolding after_loop
after_loop-IsGroups s rest views good groups sorted fewer = record {
  sorted = sorted;
  groups = groups;
  counted = omega (arith, good.counted, fewer);
}
