-- ===== src/Membership/Members/Sorted.antt =====
-- Sort_members of spread-src-4.4.0/daemon/membership.c.
use tf.Prelude.{ℕ, ◌≡◌, refl, arith, ◌==◌, Option, some, List, [], ◌∷◌, length, All}
use tf.Configuration.{Proc, Configuration}
use tf.Membership.Selection as Selection
use tf.Membership.Selection.{count_if, count_if-false, all_false, selection-Sorted}
use tf.Membership.Members.{stands_before, smallest_member, sort_members}
use tf.Membership.Members.Smallest.{proc_of, IsKnown, NoneBefore, smallest_member_lem}

-- How often a number is in a list.
abbrev pub count : ℕ → List ℕ → ℕ
count id = count_if (λ x. x == id)

-- Members in the order of the configuration.
abbrev pub InOrder : Configuration → List ℕ → Type 0
InOrder cn [] = Unit
InOrder cn (x ∷ xs) = NoneBefore cn (proc_of cn x) xs × InOrder cn xs

module _ (cn : Configuration) where
  -- `o` is the list of the members of `xs` in the order of the configuration.
  pub record SortedOf (xs : List ℕ) (o : Option (List ℕ)) : Type 0 where
    pub out : List ℕ
    pub returns : o ≡ some out
    pub in_order : InOrder cn out
    pub same_members : (id : ℕ) → count id out ≡ count id xs
    pub keeps : (q : Proc) → NoneBefore cn q xs → NoneBefore cn q out

InOrder-members :
    (cn : Configuration) (xs : List ℕ)
    → Selection.InOrder 0 (λ y x. stands_before (proc_of cn y) (proc_of cn x)) xs
    → InOrder cn xs
InOrder-members cn [] h = tt
InOrder-members cn (x ∷ xs) h = (h.0, InOrder-members cn xs h.1)

-- If all members are daemons of the configuration, Sort_members returns, with every member as often
-- as it was there, and in the order of segments and of places in a segment.
pub sort_members-SortedOf :
    (cn : Configuration) (m : List ℕ) → All (IsKnown cn) m → SortedOf cn m (sort_members cn m)
unfolding sort_members
sort_members-SortedOf cn m h =
    let sorted =
      selection-Sorted 0 (λ y x. stands_before (proc_of cn y) (proc_of cn x)) (IsKnown cn)
        (smallest_member cn) (smallest_member_lem cn) (length m) m refl h in
    record {
      out = sorted.out;
      returns = sorted.returns;
      in_order = InOrder-members cn sorted.out sorted.in_order;
      same_members = λ id. sorted.same (λ x. x == id);
      keeps = λ q k.
          let p = λ (y : ℕ). stands_before (proc_of cn y) q in
          all_false p sorted.out (omega (arith, sorted.same p, count_if-false p m k));
    }
