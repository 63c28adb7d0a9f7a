-- ===== src/Groups/Kill.antt =====
-- G_handle_kill of spread-src-4.4.0/daemon/groups.c.
use tf.Prelude.{
  ℕ, ◌≡◌, refl, ap, sym, ◌∙◌, inl, inr, arith, true, false, not, ◌&&◌, ◌==◌, if◌then◌else◌, Option,
  none, some, [], Bool-cases, Option-cases,
}
use tf.Configuration.{Proc}
use tf.Groups.Orders.{compare_nameptr-eq}
use tf.Groups.State.{Name, Group, Groups, get_daemon, get_member}
use tf.Groups.Views.{caused_by_disconnect}
use tf.Groups.Handle.{takes_clients}
use tf.Groups.Depart.{kill_in_group, after_loop, kill_client, handle_kill}
use tf.Groups.Invariant.{at_mbox}
use tf.Groups.Members.{same_name, same_daemon, holds, is_member, get_daemon-same}
use tf.Groups.Join.{get_daemon-id}
use tf.Groups.WellFormed.{IsGroups, IsClient, local_mbox-some}
use tf.Groups.Sweep.{Good, Stays, Stepped, for_groups-Swept, after_loop-IsGroups}
use tf.Groups.Extract.{Remains, extract_member-Remains}

-- The client is a member of no group afterwards, and otherwise the same clients are.
abbrev pub Gone : Groups → Name → ℕ → Groups → Type 0
Gone s client id s' =
    (i : ℕ) (g c : Name)
    → is_member s' i g c
      ≡ (not (same_daemon s.conf i id && same_name c client) && is_member s i g c)

Remains-Stays :
    (s : Groups) (name : Name) (rest : Option Group)
    → Remains s name rest
    → Stays s.conf (Good s) (Good s) (λ g. none) (λ i n. true) name rest
Remains-Stays s name none h = tt
Remains-Stays s name (some g) h = ((h.0, h.1), h.2)

module _ (s : Groups) (name private_name : Name) (p : Proc)
    (c : IsClient s name private_name p) where
  absent_here :
      (g : Group) (i : ℕ) (n : Name)
      → holds s.conf g.daemons p.id name ≡ false
      → holds s.conf g.daemons i n
        ≡ (not (same_daemon s.conf i p.id && same_name n name) && holds s.conf g.daemons i n)
  absent_here g i n absent = elim (Bool-cases (same_daemon s.conf i p.id && same_name n name)) [
    | inr other ↦ rw other
    | inl same ↦
        let n_eq = compare_nameptr-eq n name (ground (arith, same)) in
        let moved = ap (holds s.conf g.daemons i) n_eq in
        ground (arith, same, moved, get_daemon-same s.conf i p.id g.daemons, absent)
  ]

  kill_in_group-Remains :
      (g : Group)
      → Good s g
      → Stepped s.conf
          (Good s)
          (Good s)
          (kill_in_group s name private_name p)
          (λ i n. not (same_daemon s.conf i p.id && same_name n name))
          g
  unfolding kill_in_group
  kill_in_group-Remains g good = elim (Option-cases (get_daemon s.conf g.daemons p.id)) [
    | inl absent ↦ record {
      rest = some g;
      views = [];
      returns = rw (absent, kill_in_group);
      stays = (good, refl);
      members = λ i n. absent_here g i n (ground (arith, absent));
    }
    | inr (d, here) ↦ elim (Option-cases (get_member d.members name)) [
      | inl absent ↦ record {
        rest = some g;
        views = [];
        returns = rw (here, kill_in_group) (rw absent);
        stays = (good, refl);
        members = λ i n. absent_here g i n (ground (arith, here, absent));
      }
      | inr (found, member) ↦
          let id = get_daemon-id s.conf g.daemons p.id d good.0.daemons c.own here in
          let (mbox, at, arrived) = local_mbox-some s name private_name p p.id c refl in
          let (rest, views, extracted, remains, same) =
            extract_member-Remains s caused_by_disconnect name g d p.id mbox good.0 here member
              (λ m.
                arrived m
                ∙ ap (λ (k : ℕ). if k == s.my_id then at_mbox s.sessions m name else 0) (sym id)) in
          record {
            rest = rest;
            views = views;
            returns = rw (here, kill_in_group) (rw member (rw at extracted));
            stays = Remains-Stays s g.name rest remains;
            members = rw id at same;
          }
    ]
  ]

-- G_handle_kill of a client with a session, in GOP or GTRANS, returns, keeps the groups well-formed,
-- and takes the client out of every group that it is a member of. Otherwise the same clients are
-- members of the same groups.
pub handle_kill-Gone :
    (s : Groups) (name private_name : Name) (p : Proc)
    → IsGroups s
    → takes_clients s.gstate ≡ true
    → IsClient s name private_name p
    → (s' : Groups) × (handle_kill s name ≡ some s') × IsGroups s' × Gone s name p.id s'
unfolding handle_kill kill_client after_loop
handle_kill-Gone s name private_name p good takes c =
    let swept =
      for_groups-Swept s.conf (Good s) (Good s) _ _ (kill_in_group-Remains s name private_name p c)
        s.groups_list good.groups good.sorted in
    (
      after_loop s (swept.rest, swept.views),
      rw (takes, c.known) (rw (swept.returns, kill_client)),
      after_loop-IsGroups s swept.rest swept.views good swept.good swept.sorted swept.fewer,
      swept.members,
    )
