-- ===== src/Groups/Sets.antt =====
-- G_build_memb_vs_buf of spread-src-4.4.0/daemon/groups.c: the sets of members that came together.
use tf.Prelude.{
  ℕ, ◌+◌, ◌<◌, ◌≡◌, refl, sym, ◌∙◌, ◌⊎◌, inl, inr, arith, true, ltb, if◌then◌else◌, Option, none,
  some, List, [], ◌∷◌, ◌++◌, Bool-cases, subst, some_injective, >>=-eq-some,
}
use tf.Configuration.{Configuration}
use tf.Groups.SkipList.{is_eq, Sorted}
use tf.Groups.Totals.{total}
use tf.Groups.State.{
  Name, DaemonMembers, Group, compare_nameptr, compare_proc_ids_by_conf, is_unknown_memb_id,
}
use tf.Groups.Views.{
  VsBuf, by_vs_set, without_joiner, sets_of, begin_set, note_offset, add_names, add_daemons,
  no_sets, close_sets, build_memb_vs_buf,
}
use tf.Groups.SetOrder.{id_of, total-by_vs_set, mine, mine-once}
use tf.Groups.SetSums.{
  in_sets, in_sets-append, lost, found-begin_set, found-add_names, in_daemons, Added,
  add_daemons-Added,
}

-- Where the joiner is a member, it is found.
abbrev pub is_joiner : Name → Name → ℕ
is_joiner joiner n = if is_eq (compare_nameptr joiner n) then 1 else 0

without_joiner-found :
    (joiner : Name) (names : List Name)
    → 0 < total (is_joiner joiner) names
    → (without_joiner joiner names).0 ≡ true
unfolding without_joiner
without_joiner-found joiner [] h = absurd (omega arith)
without_joiner-found joiner (n ∷ ns) h = ground (arith, without_joiner-found joiner ns)

add_names-found :
    (joiner : Name) (names : List Name) (b : VsBuf)
    → 0 < total (is_joiner joiner) names
    → (add_names (some joiner) names b).found_joiner ≡ true
unfolding add_names
add_names-found joiner names b h = ground (arith, without_joiner-found joiner names h)

note_offset-found :
    (my_id : ℕ) (d : DaemonMembers) (b b' : VsBuf)
    → note_offset my_id d b ≡ some b'
    → b'.found_joiner ≡ b.found_joiner
unfolding note_offset
note_offset-found my_id d b b' e = ground (arith, e)

add_daemons-found :
    (my_id : ℕ) (joiner : Name) (ds : List DaemonMembers) (b b' : VsBuf)
    → add_daemons my_id (some joiner) ds b ≡ some b'
    → (b.found_joiner ≡ true) ⊎ (0 < in_daemons (is_joiner joiner) ds)
    → b'.found_joiner ≡ true
unfolding add_daemons
add_daemons-found my_id joiner [] b b' e (inl f) = ground (arith, e)
add_daemons-found my_id joiner [] b b' e (inr h) = absurd (omega arith)
add_daemons-found my_id joiner (d ∷ ds) b b' e h =
    let w = is_joiner joiner in
    let (b2, noted, more) = >>=-eq-some (note_offset my_id d (begin_set d.memb_id b)) _ e in
    let same = note_offset-found my_id d (begin_set d.memb_id b) b2 noted in
    let kept = λ (f : b.found_joiner ≡ true).
      found-add_names w (some joiner) d.members b2 (same ∙ found-begin_set w d.memb_id b ∙ f) in
    add_daemons-found my_id joiner ds (add_names (some joiner) d.members b2) b' more (elim h [
      | inl f ↦ inl (kept f)
      | inr more_than ↦ elim (Bool-cases (ltb 0 (total w d.members))) [
        | inl here ↦ inl (add_names-found joiner d.members b2 (ground (arith, here)))
        | inr away ↦ inr (ground (arith, away, more_than))
      ]
    ])

-- The members that a joiner needs to be among.
abbrev pub Among : Option Name → List DaemonMembers → Type 0
Among none ds = Unit
Among (some joiner) ds = 0 < in_daemons (is_joiner joiner) ds

abbrev Seen : Option Name → VsBuf → Type 0
Seen none b = Unit
Seen (some joiner) b = b.found_joiner ≡ true

close_sets-some :
    (joiner : Option Name) (b : VsBuf)
    → Seen joiner b
    → (offset : ℕ) × (sets : List (List Name)) × (close_sets joiner b ≡ some (offset, sets))
      × ((w : Name → ℕ) → in_sets w sets ≡ in_sets w (sets_of b) + lost w joiner no_sets b)
unfolding close_sets
close_sets-some none b h = (b.offset, sets_of b, refl, λ w. omega arith)
close_sets-some (some joiner) b h = (
  b.offset,
  sets_of b ++ ((joiner ∷ []) ∷ []),
  rw h,
  λ w. rw h (omega (arith, in_sets-append w (sets_of b) (joiner ∷ []))),
)

module _ (config : Configuration) (my_id : ℕ) (g : Group) (joiner : Option Name)
    (sorted : Sorted (compare_proc_ids_by_conf config) id_of g.daemons) where
  in_order : List DaemonMembers
  in_order = by_vs_set config [] g.daemons

  total-in_order : (w : DaemonMembers → ℕ) → total w in_order ≡ total w g.daemons
  unfolding in_order
  total-in_order w = omega (arith, total-by_vs_set config w [] g.daemons sorted tt)

  added : (w : Name → ℕ) → Added w my_id joiner in_order no_sets
  unfolding is_unknown_memb_id
  added w =
      add_daemons-Added w my_id joiner in_order no_sets (λ e. refl) (inl refl)
        (omega (arith, total-in_order (mine my_id), mine-once config my_id g.daemons sorted))

  same_after : (v w : Name → ℕ) → (added v).after ≡ (added w).after
  same_after v w = some_injective (sym (added v).returns ∙ (added w).returns)

seen :
    (config : Configuration) (my_id : ℕ) (g : Group) (joiner : Option Name)
    (sorted : Sorted (compare_proc_ids_by_conf config) id_of g.daemons) (b : VsBuf)
    → add_daemons my_id joiner (in_order config my_id g joiner sorted) no_sets ≡ some b
    → Among joiner g.daemons
    → Seen joiner b
seen config my_id g none sorted b e h = tt
seen config my_id g (some joiner) sorted b e h = add_daemons-found my_id joiner _ no_sets b e (
    inr (
      omega (
        arith,
        h,
        total-in_order config my_id g (some joiner) sorted
            (λ (d : DaemonMembers). total (is_joiner joiner) d.members),
      )))

-- G_build_memb_vs_buf, of a group with its daemons in order and of which the joiner, if there is one,
-- is a member, returns: it finds the own daemon once at most, and the joiner. Its sets hold every
-- member of the group as often as the group does.
pub build_memb_vs_buf-IsPartition :
    (config : Configuration) (my_id : ℕ) (g : Group) (joiner : Option Name)
    → Sorted (compare_proc_ids_by_conf config) id_of g.daemons
    → Among joiner g.daemons
    → (offset : ℕ) × (sets : List (List Name)) × (build_memb_vs_buf config my_id g joiner
        ≡ some (offset, sets))
      × ((w : Name → ℕ) → in_sets w sets ≡ in_daemons w g.daemons)
unfolding build_memb_vs_buf in_order sets_of
build_memb_vs_buf-IsPartition config my_id g joiner sorted among =
    let base = added config my_id g joiner sorted (λ n. 1) in
    let b = base.after in
    let (offset, sets, closed, sums) =
      close_sets-some joiner b (seen config my_id g joiner sorted b base.returns among) in
    (
      offset,
      sets,
      rw base.returns closed,
      λ w. omega (
        arith,
        sums w,
        subst
            (λ (x : VsBuf).
              in_sets w (sets_of x) + lost w joiner no_sets x
              ≡ 0 + in_daemons w (in_order config my_id g joiner sorted))
            (same_after config my_id g joiner sorted w (λ n. 1))
            (added config my_id g joiner sorted w).sums,
        total-in_order config my_id g joiner sorted (λ (d : DaemonMembers). total w d.members),
      ),
    )
