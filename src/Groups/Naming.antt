-- ===== src/Groups/Naming.antt =====
-- Private group names are put together and taken apart: daemon/session.c and G_private_to_names of
-- spread-src-4.4.0/daemon/groups.c.
use tf.Prelude.{
  ℕ, zero, suc, ◌-◌, ◌≤◌, ◌<◌, ◌≡◌, ◌↔◌, refl, ap, ap₂, sym, ◌∙◌, inl, inr, arith, Bool, true,
  false, ◌&&◌, ◌==◌, ltb, leb, some, [], ◌∷◌, ◌++◌, length, take, Bool-cases, Option-cases,
  length-append, subst,
}
use tf.Groups.State.{Name}
use tf.Groups.Names.{
  max_private_name, max_proc_name, max_group_name, hash, split_hash, legal_chars, private_to_names,
  private_group_name,
}

-- A name is not empty, not longer than allowed, and has no character up to '#' or above '~'.
pub record IsName (most : ℕ) (name : Name) : Type 0 where
  pub inhabited : 0 < length name
  pub short : length name ≤ most
  pub legal : legal_chars name ≡ true

split_hash-append : (a b : Name) → legal_chars a ≡ true → split_hash (a ++ (hash ∷ b)) ≡ some (a, b)
unfolding split_hash legal_chars
split_hash-append [] b h = refl
split_hash-append (c ∷ cs) b h =
    let rest = split_hash-append cs b (ground (arith, h)) in
    let other : (c == hash) ≡ false = ground (arith, h) in rw (split_hash, other) (rw rest refl)

split_hash-some : (s a b : Name) → split_hash s ≡ some (a, b) → s ≡ a ++ (hash ∷ b)
unfolding split_hash
split_hash-some [] a b e = absurd (cc e)
split_hash-some (c ∷ cs) a b e = elim (Bool-cases (c == hash)) [
  | inl same ↦
      let a_eq : [] ≡ a = ground (arith, e, same) in
      let b_eq : cs ≡ b = ground (arith, e, same) in
      let c_eq : c ≡ hash = ground (arith, same) in
      ap₂ (λ (d : ℕ) (ds : Name). d ∷ ds) c_eq b_eq
      ∙ ap (λ (front : Name). front ++ (hash ∷ b)) a_eq
  | inr other ↦ elim (Option-cases (split_hash cs)) [
    | inl absent ↦ absurd (ground (arith, e, other, absent))
    | inr ((front, back), split) ↦
        let a_eq : c ∷ front ≡ a = ground (arith, e, other, split) in
        let b_eq : back ≡ b = ground (arith, e, other, split) in
        let rest = split_hash-some cs front back split in
        ap (λ (ds : Name). c ∷ ds) rest ∙ ap₂ (λ (ds es : Name). ds ++ (hash ∷ es)) a_eq b_eq
  ]
]

take-short : (k : ℕ) (xs : Name) → length xs ≤ k → take k xs ≡ xs
take-short zero [] h = refl
take-short zero (x ∷ xs) h = absurd (omega (arith, h))
take-short (suc k) [] h = refl
take-short (suc k) (x ∷ xs) h = ap (λ (ys : Name). x ∷ ys) (take-short k xs (omega (arith, h)))

private_group_name-all :
    (n p : Name)
    → IsName max_private_name n
    → IsName (max_proc_name - 1) p
    → private_group_name n p ≡ hash ∷ (n ++ (hash ∷ p))
unfolding private_group_name
private_group_name-all n p name proc =
    take-short (max_group_name - 1) (hash ∷ (n ++ (hash ∷ p)))
      (omega (arith, length-append n (hash ∷ p), name.short, proc.short))

parsed :
    (n p : Name)
    → IsName max_private_name n
    → IsName (max_proc_name - 1) p
    → private_to_names (hash ∷ (n ++ (hash ∷ p))) ≡ some (n, p)
unfolding private_to_names
parsed n p name proc =
    rw (private_to_names, split_hash-append n p name.legal)
      (ground
        (arith, name.legal, proc.legal, name.short, proc.short, name.inhabited, proc.inhabited))

-- The tests of a name that was split.
abbrev is_sized : ℕ → Name → Name → Bool
is_sized c a b =
    c == hash
    && ((leb (length a) max_private_name && ltb 0 (length a))
        && (ltb (length b) max_proc_name && ltb 0 (length b)))

parsed-IsName :
    (s n p : Name)
    → private_to_names s ≡ some (n, p)
    → (s ≡ hash ∷ (n ++ (hash ∷ p))) × IsName max_private_name n × IsName (max_proc_name - 1) p
unfolding private_to_names
parsed-IsName [] n p e = absurd (cc e)
parsed-IsName (c ∷ cs) n p e = elim (Option-cases (split_hash cs)) [
  | inl absent ↦ absurd (ground (arith, e, absent))
  | inr ((a, b), split) ↦ elim (Bool-cases (is_sized c a b)) [
    | inr bad ↦ absurd (ground (arith, e, split, bad))
    | inl sized ↦ elim (Bool-cases (legal_chars a && legal_chars b)) [
      | inr bad ↦ absurd (ground (arith, e, split, sized, bad))
      | inl legal ↦
          let a_eq : a ≡ n = ground (arith, e, split, sized, legal) in
          let b_eq : b ≡ p = ground (arith, e, split, sized, legal) in
          let c_eq : c ≡ hash = ground (arith, sized) in
          (
            ap₂ (λ (d : ℕ) (ds : Name). d ∷ ds) c_eq (split_hash-some cs a b split)
                ∙ ap₂ (λ (ds es : Name). hash ∷ (ds ++ (hash ∷ es))) a_eq b_eq,
            subst (IsName max_private_name) a_eq (record {
              inhabited = ground (arith, sized);
              short = ground (arith, sized);
              legal = ground (arith, legal);
            }),
            subst (IsName (max_proc_name - 1)) b_eq (record {
              inhabited = ground (arith, sized);
              short = ground (arith, sized);
              legal = ground (arith, legal);
            }),
          )
    ]
  ]
]

-- G_private_to_names returns exactly the two names of which the private group name is made up, and
-- only if these are legal: non-empty, of at most 10 and 19 characters, each above '#' and up to '~'.
-- The name that the session layer builds from such names is not cut off.
pub private_to_names-private_group_name :
    (s name proc_name : Name)
    → (private_to_names s ≡ some (name, proc_name)) ↔ (
        (s ≡ private_group_name name proc_name)
        × IsName max_private_name name
        × IsName (max_proc_name - 1) proc_name)
private_to_names-private_group_name s n p = (
  λ e.
      let (whole, name, proc) = parsed-IsName s n p e in
      (whole ∙ sym (private_group_name-all n p name proc), name, proc),
  λ (built, name, proc).
      ap private_to_names (built ∙ private_group_name-all n p name proc) ∙ parsed n p name proc,
)
