-- ===== src/Groups/Names.antt =====
-- spread-src-4.4.0/daemon/groups.c: the names of private groups, #private#daemon.
use mathlib.Core.Option
use tf.Prelude.{
  ℕ, ◌-◌, Bool, true, false, ◌&&◌, ◌==◌, ltb, leb, if◌then◌else◌, Option, none, some, [], ◌∷◌, ◌++◌,
  length, take,
}
use tf.Groups.State.{Name}

abbrev pub max_private_name : ℕ
max_private_name = 10

-- With the null.
abbrev pub max_proc_name : ℕ
max_proc_name = 20

-- '#'
abbrev pub hash : ℕ
hash = 35

-- What is in front of the first '#' and behind it.
unfoldable pub split_hash : Name → Option (Name × Name)
split_hash [] = none
split_hash (c ∷ cs) = elim (c == hash) [
  | true ↦ some ([], cs)
  | false ↦ Option.map (λ (a, b). (c ∷ a, b)) (split_hash cs)
]

-- Every character is above '#' and at most '~'.
unfoldable pub legal_chars : Name → Bool
legal_chars [] = true
legal_chars (c ∷ cs) = (ltb hash c && leb c 126) && legal_chars cs

-- `none` is ILLEGAL_GROUP.
unfoldable pub private_to_names : Name → Option (Name × Name)
unfolding split_hash legal_chars
private_to_names [] = none
private_to_names (c ∷ cs) = elim (split_hash cs) [
  | none ↦ none
  | some (private_name, proc_name) ↦
      if c == hash
        && ((leb (length private_name) max_private_name && ltb 0 (length private_name))
            && (ltb (length proc_name) max_proc_name && ltb 0 (length proc_name)))
      then (if legal_chars private_name && legal_chars proc_name
          then some (private_name, proc_name)
          else none)
      else none
]

-- With the null.
abbrev pub max_group_name : ℕ
max_group_name = 32

-- The private group of a session: snprintf writes MAX_GROUP_NAME characters at most, with the null.
unfoldable pub private_group_name : Name → Name → Name
private_group_name name proc_name = take (max_group_name - 1) ((hash ∷ name) ++ (hash ∷ proc_name))
