-- ===== src/Groups/Orders.antt =====
-- The orders of the skip lists of spread-src-4.4.0/daemon/groups.c.
use Prim.Native.Nat.{Ordering}
use tf.Prelude.{◌≡◌, refl, ap, arith, [], ◌∷◌}
use tf.Configuration.{Configuration}
use tf.Groups.SkipList.{IsOrder}
use tf.Groups.State.{Name, compare_nameptr, compare_places, compare_proc_ids_by_conf}

compare_nameptr_self : (a : Name) → compare_nameptr a a ≡ Ordering.eq
unfolding compare_nameptr
compare_nameptr_self [] = refl
compare_nameptr_self (x ∷ xs) = ground (arith, compare_nameptr_self xs)

-- Names that compare equal are equal.
pub compare_nameptr-eq : (a b : Name) → compare_nameptr a b ≡ Ordering.eq → a ≡ b
unfolding compare_nameptr
compare_nameptr-eq [] [] h = refl
compare_nameptr-eq [] (y ∷ ys) h = ground arith
compare_nameptr-eq (x ∷ xs) [] h = ground arith
compare_nameptr-eq (x ∷ xs) (y ∷ ys) h = ground (arith, compare_nameptr-eq xs ys)

compare_nameptr-after :
    (a b : Name) → compare_nameptr a b ≡ Ordering.lt → compare_nameptr b a ≡ Ordering.gt
unfolding compare_nameptr
compare_nameptr-after [] [] h = ground arith
compare_nameptr-after [] (y ∷ ys) h = refl
compare_nameptr-after (x ∷ xs) [] h = ground arith
compare_nameptr-after (x ∷ xs) (y ∷ ys) h = ground (arith, compare_nameptr-after xs ys)

compare_nameptr-before :
    (a b : Name) → compare_nameptr a b ≡ Ordering.gt → compare_nameptr b a ≡ Ordering.lt
unfolding compare_nameptr
compare_nameptr-before [] [] h = ground arith
compare_nameptr-before [] (y ∷ ys) h = ground arith
compare_nameptr-before (x ∷ xs) [] h = refl
compare_nameptr-before (x ∷ xs) (y ∷ ys) h = ground (arith, compare_nameptr-before xs ys)

compare_nameptr_trans :
    (a b c : Name)
    → compare_nameptr a b ≡ Ordering.lt
    → compare_nameptr b c ≡ Ordering.lt
    → compare_nameptr a c ≡ Ordering.lt
unfolding compare_nameptr
compare_nameptr_trans [] [] c h k = ground arith
compare_nameptr_trans [] (y ∷ ys) [] h k = ground arith
compare_nameptr_trans [] (y ∷ ys) (z ∷ zs) h k = refl
compare_nameptr_trans (x ∷ xs) [] c h k = ground arith
compare_nameptr_trans (x ∷ xs) (y ∷ ys) [] h k = ground arith
compare_nameptr_trans (x ∷ xs) (y ∷ ys) (z ∷ zs) h k =
    ground (arith, compare_nameptr_trans xs ys zs)

pub compare_nameptr-IsOrder : IsOrder compare_nameptr
compare_nameptr-IsOrder = record {
  self = compare_nameptr_self;
  congruent = λ a b c e. ap (compare_nameptr c) (compare_nameptr-eq a b e);
  congruent_left = λ a b c e. ap (λ d. compare_nameptr d c) (compare_nameptr-eq a b e);
  after = compare_nameptr-after;
  before = compare_nameptr-before;
  trans = compare_nameptr_trans;
}

module _ (config : Configuration) where
  pub compare_proc_ids_by_conf-IsOrder : IsOrder (compare_proc_ids_by_conf config)
  unfolding compare_proc_ids_by_conf compare_places
  compare_proc_ids_by_conf-IsOrder = record {
    self = λ a. ground arith;
    congruent = λ a b c e. ground arith;
    congruent_left = λ a b c e. ground arith;
    after = λ a b e. ground arith;
    before = λ a b e. ground arith;
    trans = λ a b c e f. ground arith;
  }
