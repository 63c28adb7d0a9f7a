-- ===== src/Groups/SetSums.antt =====
-- G_build_memb_vs_buf of spread-src-4.4.0/daemon/groups.c: the names that are put into the sets.
use tf.Prelude.{
  ℕ, ◌+◌, ◌≤◌, ◌≡◌, refl, ap, sym, ◌∙◌, ◌⊎◌, inl, inr, arith, true, ◌==◌, if◌then◌else◌, Option,
  none, some, List, [], ◌∷◌, ◌++◌, Bool-cases, Option-cases, if_both,
}
use tf.NetTypes.{MembershipId, memb_is_equal}
use tf.Groups.Totals.{total}
use tf.Groups.Orders.{compare_nameptr-eq}
use tf.Groups.State.{Name, DaemonMembers, is_unknown_memb_id}
use tf.Groups.Views.{
  VsBuf, without_joiner, sets_of, begin_set, note_offset, add_names, add_daemons, vs_bytes,
}
use tf.Groups.SetOrder.{mine}

module _ (w : Name → ℕ) where
  -- What the names in the sets weigh.
  abbrev pub in_sets : List (List Name) → ℕ
  in_sets [] = 0
  in_sets (s ∷ ss) = total w s + in_sets ss

  total-append : (xs ys : List Name) → total w (xs ++ ys) ≡ total w xs + total w ys
  total-append [] ys = omega arith
  total-append (x ∷ xs) ys = omega (arith, total-append xs ys)

  pub in_sets-append :
      (xs : List (List Name)) (s : List Name) → in_sets (xs ++ (s ∷ [])) ≡ in_sets xs + total w s
  in_sets-append [] s = omega arith
  in_sets-append (x ∷ xs) s = omega (arith, in_sets-append xs s)

  -- The joiner was found between the two.
  abbrev pub lost : Option Name → (b b' : VsBuf) → ℕ
  lost none b b' = 0
  lost (some joiner) b b' = if b.found_joiner then 0 else if b'.found_joiner then w joiner else 0

  without_joiner-total :
      (joiner : Name) (names : List Name)
      → let (found, rest) = without_joiner joiner names in
        total w rest + (if found then w joiner else 0) ≡ total w names
  unfolding without_joiner
  without_joiner-total joiner [] = omega arith
  without_joiner-total joiner (n ∷ ns) =
      ground (arith, without_joiner-total joiner ns, compare_nameptr-eq joiner n, ap w)

  in_sets-add_names :
      (joiner : Option Name) (names : List Name) (b : VsBuf) (ns : List Name)
      → b.current ≡ some ns
      → in_sets (sets_of (add_names joiner names b)) + lost joiner b (add_names joiner names b)
        ≡ in_sets (sets_of b) + total w names
  unfolding sets_of add_names
  in_sets-add_names none names b ns e = rw e (
      omega (
        arith,
        in_sets-append b.complete ns,
        in_sets-append b.complete (ns ++ names),
        total-append ns names,
      ))
  in_sets-add_names (some joiner) names b ns e = elim (Bool-cases b.found_joiner) [
    | inl f ↦
        rw (e, f)
          (omega (
            arith,
            in_sets-append b.complete ns,
            in_sets-append b.complete (ns ++ names),
            total-append ns names,
          ))
    | inr f ↦
        let (found, rest) = without_joiner joiner names in
        rw (e, f)
          (omega (
            arith,
            in_sets-append b.complete ns,
            in_sets-append b.complete (ns ++ rest),
            total-append ns rest,
            without_joiner-total joiner names,
          ))
  ]

  -- A set is open once a daemon was seen.
  abbrev Opened : VsBuf → Type 0
  Opened b = (b.current ≡ none) → is_unknown_memb_id b.memb_id ≡ true

  begin_set-current :
      (memb_id : MembershipId) (b : VsBuf)
      → Opened b
      → (ns : List Name) × ((begin_set memb_id b).current ≡ some ns)
  unfolding begin_set
  begin_set-current memb_id b h = elim (Bool-cases (is_unknown_memb_id b.memb_id)) [
    | inl e ↦ rw e ([], refl)
    | inr e ↦ rw e (elim (Bool-cases (memb_is_equal b.memb_id memb_id)) [
      | inr f ↦ rw f ([], refl)
      | inl f ↦ rw f (elim (Option-cases b.current) [ inr (ns, g) ↦ (ns, g) | inl g ↦ cc (h g, e) ])
    ])
  ]

  in_sets-empty : (s : List (List Name)) → in_sets (s ++ ([] ∷ [])) ≡ in_sets s
  in_sets-empty s = omega (arith, in_sets-append s [])

  in_sets-begin_set :
      (memb_id : MembershipId) (b : VsBuf)
      → in_sets (sets_of (begin_set memb_id b)) ≡ in_sets (sets_of b)
  unfolding begin_set sets_of
  in_sets-begin_set memb_id b =
      let P = λ (x : VsBuf). in_sets (sets_of x) ≡ in_sets (sets_of b) in
      if_both P (is_unknown_memb_id b.memb_id) (in_sets-empty (sets_of b))
        (if_both P (memb_is_equal b.memb_id memb_id) refl (in_sets-empty (sets_of b)))

  pub found-begin_set :
      (memb_id : MembershipId) (b : VsBuf) → (begin_set memb_id b).found_joiner ≡ b.found_joiner
  unfolding begin_set
  found-begin_set memb_id b = ground arith

  offset-begin_set : (memb_id : MembershipId) (b : VsBuf) → (begin_set memb_id b).offset ≡ b.offset
  unfolding begin_set
  offset-begin_set memb_id b = ground arith

  add_names-current :
      (joiner : Option Name) (names : List Name) (b : VsBuf) (ns : List Name)
      → b.current ≡ some ns
      → (ns' : List Name) × ((add_names joiner names b).current ≡ some ns')
  unfolding add_names
  add_names-current none names b ns e = rw e (_, refl)
  add_names-current (some joiner) names b ns e = rw e (_, refl)

  add_names-offset :
      (joiner : Option Name) (names : List Name) (b : VsBuf)
      → (add_names joiner names b).offset ≡ b.offset
  unfolding add_names
  add_names-offset none names b = refl
  add_names-offset (some joiner) names b = refl

  -- The alarm for a second own set is not reached.
  note_offset-some :
      (my_id : ℕ) (d : DaemonMembers) (b : VsBuf)
      → (b.offset ≡ 0) ⊎ (mine my_id d ≡ 0)
      → (o : ℕ) × (note_offset my_id d b ≡ some (record b { offset = o }))
        × ((o ≡ b.offset) ⊎ (mine my_id d ≡ 1))
  unfolding note_offset
  note_offset-some my_id d b h = elim (Bool-cases (d.proc_id == my_id)) [
    | inr e ↦ rw e (b.offset, refl, inl refl)
    | inl e ↦ rw e (vs_bytes b.complete, ground (arith, h, e), inr refl)
  ]

  pub found-add_names :
      (joiner : Option Name) (names : List Name) (b : VsBuf)
      → b.found_joiner ≡ true
      → (add_names joiner names b).found_joiner ≡ true
  unfolding add_names
  found-add_names none names b f = f
  found-add_names (some joiner) names b f = rw f

  abbrev pub in_daemons : List DaemonMembers → ℕ
  in_daemons = total (λ (d : DaemonMembers). total w d.members)

  pub record Added (my_id : ℕ) (joiner : Option Name) (ds : List DaemonMembers) (b : VsBuf)
      : Type 0 where
    pub after : VsBuf
    pub returns : add_daemons my_id joiner ds b ≡ some after
    pub kept : b.found_joiner ≡ true → after.found_joiner ≡ true
    pub sums : in_sets (sets_of after) + lost joiner b after ≡ in_sets (sets_of b) + in_daemons ds

  lost_trans :
      (joiner : Option Name) (b b' b'' : VsBuf)
      → (b.found_joiner ≡ true → b'.found_joiner ≡ true)
      → (b'.found_joiner ≡ true → b''.found_joiner ≡ true)
      → lost joiner b b'' ≡ lost joiner b b' + lost joiner b' b''
  lost_trans none b b' b'' h k = omega arith
  lost_trans (some joiner) b b' b'' h k = ground arith

  lost-from :
      (joiner : Option Name) (b b' b'' : VsBuf)
      → b.found_joiner ≡ b'.found_joiner
      → lost joiner b b'' ≡ lost joiner b' b''
  lost-from none b b' b'' e = refl
  lost-from (some joiner) b b' b'' e = ground (arith, e)

  pub add_daemons-Added :
      (my_id : ℕ) (joiner : Option Name) (ds : List DaemonMembers) (b : VsBuf)
      → Opened b
      → (b.offset ≡ 0) ⊎ (total (mine my_id) ds ≡ 0)
      → total (mine my_id) ds ≤ 1
      → Added my_id joiner ds b
  unfolding add_daemons
  add_daemons-Added my_id joiner [] b opened free once = record {
    after = b;
    returns = refl;
    kept = λ f. f;
    sums = lost-self joiner b;
  }
    where
      lost-self :
          (j : Option Name) (x : VsBuf) → in_sets (sets_of x) + lost j x x ≡ in_sets (sets_of x) + 0
      lost-self none x = refl
      lost-self (some j) x = ground arith
  add_daemons-Added my_id joiner (d ∷ ds) b opened free once =
      let b1 = begin_set d.memb_id b in
      let (o, noted, at) =
        note_offset-some my_id d b1 (ground (arith, free, offset-begin_set d.memb_id b)) in
      let b2 : VsBuf = record b1 { offset = o } in
      let (ns, cur) = begin_set-current d.memb_id b opened in
      let b3 = add_names joiner d.members b2 in
      let (ns', cur') = add_names-current joiner d.members b2 ns cur in
      let rest =
        add_daemons-Added my_id joiner ds b3 (λ e. cc (e, cur'))
          (ground
            (arith, free, at, add_names-offset joiner d.members b2, offset-begin_set d.memb_id b))
          (omega (arith, once)) in
      let kept3 = λ (f : b.found_joiner ≡ true).
        found-add_names joiner d.members b2 (found-begin_set d.memb_id b ∙ f) in
      record {
        after = rest.after;
        returns = rw noted rest.returns;
        kept = λ f. rest.kept (kept3 f);
        sums = omega (
          arith,
          rest.sums,
          lost_trans joiner b b3 rest.after kept3 rest.kept,
          lost-from joiner b b2 b3 (sym (found-begin_set d.memb_id b)),
          in_sets-add_names joiner d.members b2 ns cur,
          in_sets-begin_set d.memb_id b,
        );
      }
