-- ===== src/Groups/Departures.antt =====
-- Daemons are lost: the transitional membership, then the regular one, of the daemons of
-- spread-src-4.4.0/daemon/groups.c.
use tf.Prelude.{
  ℕ, ◌≡◌, refl, ap, ap₂, subst, sym, ◌∙◌, arith, Bool, true, false, ◌&&◌, some, List, [], ◌∷◌, All,
}
use tf.Configuration.{Configuration}
use tf.NetTypes.{MembershipId}
use tf.Groups.State.{Name, GState, Groups, is_unknown_memb_id}
use tf.Groups.Depart.{after_loop}
use tf.Groups.Members.{is_member}
use tf.Groups.WellFormed.{IsGroups}
use tf.Groups.Sweep.{Good, for_groups-Swept}
use tf.Groups.Change.{
  in_memb, trans_in_group, save_trans, enter_gtrans, trans_in_gop, handle_trans_memb, is_ggt,
  reg_in_group, save_reg, shift_to_gop, reg_subtractive,
}
use tf.Groups.Shrink.{owner}
use tf.Groups.Transitional.{IsSettled, IsMarked, trans_in_group-Stepped}
use tf.Groups.Subtractive.{reg_in_group-Stepped}

-- Two properties of all elements are one of each.
All-both :
    {A : Type 0} (P Q : A → Type 0) (xs : List A) → All P xs → All Q xs → All (λ x. P x × Q x) xs
All-both P Q [] h k = tt
All-both P Q (x ∷ xs) h k = ((h.0, k.0), All-both P Q xs h.1 k.1)

All-first : {A : Type 0} (P Q : A → Type 0) (xs : List A) → All (λ x. P x × Q x) xs → All P xs
All-first P Q [] h = tt
All-first P Q (x ∷ xs) h = (h.0.0, All-first P Q xs h.1)

All-second : {A : Type 0} (P Q : A → Type 0) (xs : List A) → All (λ x. P x × Q x) xs → All Q xs
All-second P Q [] h = tt
All-second P Q (x ∷ xs) h = (h.0.1, All-second P Q xs h.1)

-- The groups in GTRANS, after the transitional membership and before the regular one.
record InGtrans (s : Groups) (memb : Configuration) (s' : Groups) : Type 0 where
  returned : IsGroups s'
  gathered : s'.gstate ≡ GState.gtrans
  settings : (s'.conf ≡ s.conf) × (s'.my_id ≡ s.my_id) × (s'.trans_memb ≡ memb)
  marked : All (IsMarked memb) s'.groups_list
  kept : (i : ℕ) (g n : Name) → is_member s' i g n ≡ is_member s i g n

in_gop :
    (s : Groups) (memb : Configuration) (tid : MembershipId)
    → s.gstate ≡ GState.gop
    → handle_trans_memb s memb tid ≡ trans_in_gop (save_trans s memb tid)
unfolding handle_trans_memb
in_gop s memb tid gop = ground (arith, gop)

trans-InGtrans :
    (s : Groups) (memb : Configuration) (tid : MembershipId)
    → IsGroups s
    → All IsSettled s.groups_list
    → s.gstate ≡ GState.gop
    → is_unknown_memb_id tid ≡ false
    → (s' : Groups) × (handle_trans_memb s memb tid ≡ some s') × InGtrans s memb s'
unfolding trans_in_gop save_trans after_loop enter_gtrans
trans-InGtrans s memb tid good settled gop known =
    let s0 = save_trans s memb tid in
    let swept =
      for_groups-Swept s.conf (λ h. Good s0 h × IsSettled h) (λ h. Good s0 h × IsMarked memb h)
        (trans_in_group s0) (λ i n. true) (trans_in_group-Stepped s0 known) s.groups_list
        (All-both (Good s0) IsSettled s.groups_list good.groups settled) good.sorted in
    (
      enter_gtrans (after_loop s0 (swept.rest, swept.views)),
      in_gop s memb tid gop ∙ rw (swept.returns, trans_in_gop) refl,
      record {
        returned = record {
          sorted = swept.sorted;
          groups = All-first (Good s0) (IsMarked memb) swept.rest swept.good;
          counted = omega (arith, good.counted, swept.fewer);
        };
        gathered = refl;
        settings = (refl, refl, refl);
        marked = All-second (Good s0) (IsMarked memb) swept.rest swept.good;
        kept = λ i g n. swept.members i g n;
      },
    )

-- The groups after a change of the daemons' membership to `memb`, which only lost daemons: the
-- members are those at the daemons that stayed.
pub record Remaining (s : Groups) (memb : Configuration) (s' : Groups) : Type 0 where
  pub well_formed : IsGroups s'
  pub settled : All IsSettled s'.groups_list
  pub operational : s'.gstate ≡ GState.gop
  pub members :
      (i : ℕ) (g n : Name)
      → is_member s' i g n ≡ (in_memb memb (owner s.conf i) && is_member s i g n)

reg-Remaining :
    (s : Groups) (memb : Configuration) (s1 : Groups) (reg : Configuration) (rid : MembershipId)
    → InGtrans s memb s1
    → in_memb memb s.my_id ≡ true
    → is_unknown_memb_id rid ≡ false
    → (s' : Groups) × (reg_subtractive s1 reg rid ≡ some s') × Remaining s memb s'
unfolding reg_subtractive save_reg after_loop shift_to_gop is_ggt
reg-Remaining s memb s1 reg rid gtrans here known =
    let s2 = save_reg s1 reg rid in
    let (conf, id, trans) = gtrans.settings in
    let in_gtrans : is_ggt s1.gstate ≡ false = ap is_ggt gtrans.gathered in
    let mine : in_memb s1.trans_memb s1.my_id ≡ true = ap₂ in_memb trans id ∙ here in
    let marked = subst (λ m. All (IsMarked m) s1.groups_list) (sym trans) gtrans.marked in
    let swept =
      for_groups-Swept s1.conf (λ h. Good s2 h × IsMarked s1.trans_memb h)
        (λ h. Good s2 h × IsSettled h) (reg_in_group s2)
        (λ i n. in_memb s1.trans_memb (owner s1.conf i))
        (reg_in_group-Stepped s2 known in_gtrans mine) s1.groups_list
        (All-both (Good s2) (IsMarked s1.trans_memb) s1.groups_list gtrans.returned.groups marked)
        gtrans.returned.sorted in
    (
      shift_to_gop (after_loop s2 (swept.rest, swept.views)),
      rw swept.returns refl,
      record {
        well_formed = record {
          sorted = swept.sorted;
          groups = All-first (Good s2) IsSettled swept.rest swept.good;
          counted = omega (arith, gtrans.returned.counted, swept.fewer);
        };
        settled = All-second (Good s2) IsSettled swept.rest swept.good;
        operational = refl;
        members = λ i g n.
            swept.members i g n
            ∙ ap₂ (λ (m c : Configuration). in_memb m (owner c i) && is_member s1 i g n) trans conf
            ∙ ap (λ (b : Bool). in_memb memb (owner s.conf i) && b) (gtrans.kept i g n);
      },
    )

-- In GOP, where no daemon is partitioned and no group is changed, G_handle_trans_memb with a membership
-- that has this daemon, then G_handle_reg_memb with one that adds no daemon, both with ids other than
-- the unknown one, return and are in GOP with well-formed groups, where no daemon is partitioned. The
-- members of each group are then exactly those that it had at the daemons of the transitional
-- membership.
pub daemons_lost-Remaining :
    (s : Groups) (memb : Configuration) (tid : MembershipId) (reg : Configuration)
    (rid : MembershipId)
    → IsGroups s
    → All IsSettled s.groups_list
    → s.gstate ≡ GState.gop
    → in_memb memb s.my_id ≡ true
    → is_unknown_memb_id tid ≡ false
    → is_unknown_memb_id rid ≡ false
    → (s1 s2 : Groups) × (handle_trans_memb s memb tid ≡ some s1)
      × (reg_subtractive s1 reg rid ≡ some s2)
      × Remaining s memb s2
daemons_lost-Remaining s memb tid reg rid good settled gop here known_trans known_reg =
    let (s1, first, gtrans) = trans-InGtrans s memb tid good settled gop known_trans in
    let (s2, second, remaining) = reg-Remaining s memb s1 reg rid gtrans here known_reg in
    (s1, s2, first, second, remaining)
