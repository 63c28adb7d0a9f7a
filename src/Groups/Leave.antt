-- ===== src/Groups/Leave.antt =====
-- G_handle_leave of spread-src-4.4.0/daemon/groups.c, and what a member leaves of its group.
use tf.Prelude.{
  ℕ, ◌≡◌, refl, ap, ap₂, sym, ◌∙◌, inl, inr, arith, true, false, not, ◌&&◌, ◌==◌, if◌then◌else◌,
  Option, none, some, List, [], ◌++◌, Bool-cases, Option-cases, subst,
}
use tf.Configuration.{Proc}
use tf.Groups.SkipList.{put, erase, Sorted-erase, Sorted-put}
use tf.Groups.Totals.{weight, total-erase, total-put, All-erase, All-put}
use tf.Groups.Orders.{compare_nameptr-IsOrder, compare_nameptr-eq}
use tf.Groups.State.{
  Name, DaemonMembers, Group, Sent, Groups, compare_nameptr, get_group, put_group, erase_group,
  get_daemon, get_member,
}
use tf.Groups.Views.{send_self_leave, caused_by_leave}
use tf.Groups.Handle.{takes_clients, client}
use tf.Groups.Depart.{store_or_remove, self_leave, leave_group, leave_client, handle_leave}
use tf.Groups.Invariant.{at_mbox}
use tf.Groups.Joining.{arrives}
use tf.Groups.Members.{
  same_name, same_daemon, holds, in_group, is_member, name_of, get_group-put, get_group-erase,
  get_group-name, is_member-same,
}
use tf.Groups.Join.{get_daemon-id}
use tf.Groups.WellFormed.{IsGroups, IsClient, client-names, get_group-IsGroup, length-total}
use tf.Groups.Extract.{Remains, extract_member-Remains}

-- The members after a leave, or after a client is gone from all groups.
abbrev pub Left : Groups → Name → Name → ℕ → Groups → Type 0
Left s group client id s' =
    (i : ℕ) (g c : Name)
    → is_member s' i g c ≡ (
        not (same_name g group && (same_daemon s.conf i id && same_name c client))
        && is_member s i g c)

module _ (s : Groups) (group : Name) (views : List Sent) (good : IsGroups s) where
  store_or_remove-IsGroups :
      (rest : Option Group) (g : Group)
      → get_group s.groups_list group ≡ some g
      → Remains s group rest
      → IsGroups (store_or_remove s group rest views)
  unfolding store_or_remove erase_group put_group get_group
  store_or_remove-IsGroups none g here remains = record {
    sorted =
        Sorted-erase compare_nameptr name_of compare_nameptr-IsOrder group s.groups_list
          good.sorted;
    groups = All-erase compare_nameptr name_of _ group s.groups_list good.groups;
    counted = omega (
      arith,
      good.counted,
      length-total s.groups_list,
      length-total (erase compare_nameptr name_of group s.groups_list),
      total-erase compare_nameptr name_of (λ h. 1) group s.groups_list,
      ap (weight (λ (h : Group). 1)) here,
    );
  }
  store_or_remove-IsGroups (some g') g here remains = record {
    sorted =
        Sorted-put compare_nameptr name_of compare_nameptr-IsOrder g' s.groups_list good.sorted;
    groups = All-put compare_nameptr name_of _ g' s.groups_list (remains.0, remains.1) good.groups;
    counted = omega (
      arith,
      good.counted,
      length-total s.groups_list,
      length-total (put compare_nameptr name_of g' s.groups_list),
      total-put compare_nameptr name_of (λ h. 1) g' s.groups_list,
      ap (λ (n : Name). weight (λ (h : Group). 1) (get_group s.groups_list n)) remains.2,
      ap (weight (λ (h : Group). 1)) here,
    );
  }

  store_or_remove-Left :
      (rest : Option Group) (g : Group) (client : Name) (id : ℕ)
      → get_group s.groups_list group ≡ some g
      → Remains s group rest
      → ((i : ℕ) (c : Name)
          → in_group s.conf rest i c
            ≡ (not (same_daemon s.conf i id && same_name c client) && holds s.conf g.daemons i c))
      → Left s group client id (store_or_remove s group rest views)
  unfolding store_or_remove
  store_or_remove-Left none g client id here remains same i h c =
      elim (Bool-cases (same_name h group)) [
        | inr other ↦ ground (arith, get_group-erase h group s.groups_list good.sorted, other)
        | inl e ↦
            let h_eq = compare_nameptr-eq h group (ground (arith, e)) in
            ground (
              arith,
              get_group-erase h group s.groups_list good.sorted,
              e,
              ap (get_group s.groups_list) h_eq,
              here,
              same i c,
            )
      ]
  store_or_remove-Left (some g') g client id here remains same i h c =
      elim (Bool-cases (same_name h group)) [
        | inr other ↦
            ground
              (arith, get_group-put h g' s.groups_list, ap (compare_nameptr h) remains.2, other)
        | inl e ↦
            let h_eq = compare_nameptr-eq h group (ground (arith, e)) in
            ground (
              arith,
              get_group-put h g' s.groups_list,
              ap (compare_nameptr h) remains.2,
              e,
              ap (get_group s.groups_list) h_eq,
              here,
              same i c,
            )
      ]

self_leave-some :
    (s : Groups) (g : Group) (name private_name : Name) (p : Proc) (id : ℕ)
    → IsClient s name private_name p
    → id ≡ p.id
    → (mbox : Option ℕ) × (own : List Sent) × (self_leave s g private_name p.id ≡ some (mbox, own))
      × ((m : ℕ) → arrives m mbox ≡ (if id == s.my_id then at_mbox s.sessions m name else 0))
unfolding self_leave
self_leave-some s g name private_name p id c same =
    let (proc_name, names) = client-names s name private_name p c.known in
    elim (Bool-cases (p.id == s.my_id)) [
      | inr away ↦ rw away (none, [], refl, λ m. ground (arith, away, same))
      | inl here ↦
          let (ses, found) = c.session (ground (arith, here)) in
          rw (here, found)
            (
              some ses.mbox,
              send_self_leave s.sessions g ses,
              refl,
              λ m. ground (arith, names, found, here, same),
            )
    ]

-- Nothing changes where the client is no member.
Left-absent :
    (s : Groups) (group client : Name) (id : ℕ)
    → is_member s id group client ≡ false
    → Left s group client id s
Left-absent s group client id absent i h c =
    elim (Bool-cases (same_name h group && (same_daemon s.conf i id && same_name c client))) [
      | inr other ↦ rw other
      | inl same ↦
          let h_eq = compare_nameptr-eq h group (ground (arith, same)) in
          let c_eq = compare_nameptr-eq c client (ground (arith, same)) in
          let moved : is_member s i h c ≡ is_member s i group client =
            ap₂ (λ (x y : Name). is_member s i x y) h_eq c_eq in
          let none_there =
            moved ∙ is_member-same s i id group client (ground (arith, same)) ∙ absent in
          rw (same, none_there)
    ]

leave_group-Left :
    (s : Groups) (name group private_name : Name) (p : Proc) (g : Group) (d : DaemonMembers)
    → IsGroups s
    → IsClient s name private_name p
    → get_group s.groups_list group ≡ some g
    → get_daemon s.conf g.daemons p.id ≡ some d
    → (s' : Groups) × (leave_group s name private_name p g d ≡ some s')
      × IsGroups s'
      × Left s group name p.id s'
unfolding leave_group
leave_group-Left s name group private_name p g d good c there here =
    let named = get_group-name s.groups_list group g there in
    let well = (get_group-IsGroup s group g good there).0 in
    let id = get_daemon-id s.conf g.daemons p.id d well.daemons c.own here in
    elim (Option-cases (get_member d.members name)) [
      | inl absent ↦ (
        s,
        rw (absent, leave_group),
        good,
        Left-absent s group name p.id (ground (arith, there, here, absent)),
      )
      | inr (found, member) ↦
          let (mbox, own, told, at) = self_leave-some s g name private_name p d.proc_id c id in
          let (rest, views, extracted, remains, same) =
            extract_member-Remains s caused_by_leave name g d p.id mbox well here member at in
          let remains' = subst (λ (n : Name). Remains s n rest) (sym named) remains in
          (
            store_or_remove s g.name rest (own ++ views),
            rw (member, leave_group) (rw told (rw extracted)),
            subst (λ (n : Name). IsGroups (store_or_remove s n rest (own ++ views))) named
                (store_or_remove-IsGroups s group (own ++ views) good rest g there remains'),
            subst (λ (n : Name). Left s group name p.id (store_or_remove s n rest (own ++ views)))
                named
                (store_or_remove-Left s group (own ++ views) good rest g name p.id there remains'
                  (rw id at same)),
          )
    ]

-- G_handle_leave of a client with a session, in GOP or GTRANS, returns: the assertions of
-- G_remove_group hold for a group that becomes empty. It keeps the groups well-formed, the client is no
-- member of the group afterwards, and otherwise the same clients are members of the same groups.
pub handle_leave-Left :
    (s : Groups) (name group private_name : Name) (p : Proc)
    → IsGroups s
    → takes_clients s.gstate ≡ true
    → IsClient s name private_name p
    → (s' : Groups) × (handle_leave s name group ≡ some s')
      × IsGroups s'
      × Left s group name p.id s'
unfolding handle_leave leave_client
handle_leave-Left s name group private_name p good takes c =
    elim (Option-cases (get_group s.groups_list group)) [
      | inl absent ↦ (
        s,
        rw (takes, c.known) (rw (absent, leave_client)),
        good,
        Left-absent s group name p.id (ground (arith, absent)),
      )
      | inr (g, there) ↦ elim (Option-cases (get_daemon s.conf g.daemons p.id)) [
        | inl absent ↦ (
          s,
          rw (takes, c.known) (rw (there, leave_client) (rw absent)),
          good,
          Left-absent s group name p.id (ground (arith, there, absent)),
        )
        | inr (d, here) ↦
            let (s', returns, good', gone) =
              leave_group-Left s name group private_name p g d good c there here in
            (s', rw (takes, c.known) (rw (there, leave_client) (rw here returns)), good', gone)
      ]
    ]
