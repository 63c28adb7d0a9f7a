-- ===== src/Groups/Shrink.antt =====
-- Daemons leave a group of spread-src-4.4.0/daemon/groups.c.
use Prim.Native.Nat.{Ordering}
use tf.Prelude.{
  ℕ, ◌+◌, ◌≡◌, refl, ap, sym, ◌∙◌, ◌⊎◌, inl, inr, arith, Bool, true, false, not, ◌&&◌, ◌==◌, none,
  some, List, [], ◌∷◌, length, All, Bool-cases, Option-cases, if_both,
}
use tf.Configuration.{Configuration, Proc, proc_by_id_in_conf}
use tf.Groups.SkipList.{find, find-Above, Above-lower, Above-same, Above, Sorted}
use tf.Groups.Totals.{total}
use tf.Groups.Orders.{compare_proc_ids_by_conf-IsOrder}
use tf.Groups.State.{
  Name, DaemonMembers, Group, Groups, compare_proc_ids_by_conf, compare_places, place, get_daemon,
}
use tf.Groups.Invariant.{IsDaemon, IsGroup, is_own, local_weight, size, one, same_place}
use tf.Groups.Joining.{proc_id_of}
use tf.Groups.Members.{holds, get_daemon-nil}
use tf.Groups.Change.{is_eliminated, stay, lose, eliminate_partitioned_daemons}

-- The own id of the daemon at an id's place.
abbrev pub owner : Configuration → ℕ → ℕ
owner config id = elim (proc_by_id_in_conf config id) [ none ↦ id | some (i, p) ↦ p.id ]

pub owner-own :
    (config : Configuration) (i id : ℕ)
    → is_own config id ≡ true
    → compare_proc_ids_by_conf config i id ≡ Ordering.eq
    → owner config i ≡ id
unfolding compare_proc_ids_by_conf compare_places place
owner-own config i id own e = elim (Option-cases (proc_by_id_in_conf config id)) [
  | inl unknown ↦ absurd (ground (arith, own, unknown))
  | inr ((j, p), f) ↦ elim (Option-cases (proc_by_id_in_conf config i)) [
    | inl unknown ↦ absurd (ground (arith, e, f, unknown))
    | inr ((k, q), g) ↦
        let k_eq : k ≡ j = ground (arith, e, f, g) in
        let q_eq : q ≡ p = same_place config i id j q p (rw k_eq at g) f in
        ground (arith, f, g, ap (λ (r : Proc). r.id) q_eq, own)
  ]
]

module _ (config : Configuration) where
  none-Above :
      (i k : ℕ) (ds : List DaemonMembers)
      → Above (compare_proc_ids_by_conf config) proc_id_of k ds
      → (compare_proc_ids_by_conf config i k ≡ Ordering.lt)
        ⊎ (compare_proc_ids_by_conf config i k ≡ Ordering.eq)
      → get_daemon config ds i ≡ none
  unfolding get_daemon
  none-Above i k ds top (inl e) =
      let order = compare_proc_ids_by_conf-IsOrder config in
      find-Above _ proc_id_of order i ds (Above-lower _ proc_id_of order i k ds e top)
  none-Above i k ds top (inr e) =
      let order = compare_proc_ids_by_conf-IsOrder config in
      find-Above _ proc_id_of order i ds (Above-same _ proc_id_of order i k ds e top)

  get_daemon-cons :
      (d : DaemonMembers) (ds : List DaemonMembers) (i : ℕ)
      → get_daemon config (d ∷ ds) i ≡ (elim (compare_proc_ids_by_conf config i d.proc_id) [
        | Ordering.lt ↦ none
        | Ordering.eq ↦ some d
        | Ordering.gt ↦ get_daemon config ds i
      ])
  unfolding get_daemon find
  get_daemon-cons d ds i = refl

module _ (s : Groups) where
  All-stay : (P : DaemonMembers → Type 0) (ds : List DaemonMembers) → All P ds → All P (stay s ds)
  unfolding stay
  All-stay P [] h = tt
  All-stay P (d ∷ ds) h =
      if_both (All P) (is_eliminated s d) (All-stay P ds h.1) (h.0, All-stay P ds h.1)

  Sorted-stay :
      (ds : List DaemonMembers)
      → Sorted (compare_proc_ids_by_conf s.conf) proc_id_of ds
      → Sorted (compare_proc_ids_by_conf s.conf) proc_id_of (stay s ds)
  unfolding stay
  Sorted-stay [] h = tt
  Sorted-stay (d ∷ ds) h =
      if_both (Sorted (compare_proc_ids_by_conf s.conf) proc_id_of) (is_eliminated s d)
        (Sorted-stay ds h.1) (All-stay _ ds h.0, Sorted-stay ds h.1)

  length-one : (ms : List Name) → length ms ≡ total one ms
  length-one [] = refl
  length-one (n ∷ ns) = omega (arith, length-one ns)

  total-stay : (ds : List DaemonMembers) → total size (stay s ds) + lose s ds ≡ total size ds
  unfolding stay lose
  total-stay [] = omega arith
  total-stay (d ∷ ds) = ground (arith, total-stay ds, length-one d.members)

  -- This daemon is not among those that leave.
  abbrev pub StaysHere : List DaemonMembers → Type 0
  StaysHere = All (λ d. is_eliminated s d ≡ true → (d.proc_id == s.my_id) ≡ false)

  local-stay :
      (m : ℕ) (ds : List DaemonMembers)
      → StaysHere ds
      → total (local_weight s.my_id s.sessions m) (stay s ds)
        ≡ total (local_weight s.my_id s.sessions m) ds
  unfolding stay
  local-stay m [] h = refl
  local-stay m (d ∷ ds) h = elim (Bool-cases (is_eliminated s d)) [
    | inl e ↦ rw e (rw (h.0 e) (omega (arith, local-stay m ds h.1)))
    | inr e ↦ rw e (omega (arith, local-stay m ds h.1))
  ]

  pub eliminate-IsGroup :
      (g : Group)
      → IsGroup s.conf s.my_id s.sessions g
      → StaysHere g.daemons
      → IsGroup s.conf s.my_id s.sessions (eliminate_partitioned_daemons s g)
  unfolding eliminate_partitioned_daemons
  eliminate-IsGroup g good here = record {
    sorted = Sorted-stay g.daemons good.sorted;
    daemons = All-stay (IsDaemon s.conf) g.daemons good.daemons;
    counted = omega (arith, good.counted, total-stay g.daemons);
    mailboxes = λ m. good.mailboxes m ∙ sym (local-stay m g.daemons here);
  }

  -- Who was a member stays one if its daemon stays.
  pub holds-stay :
      (ds : List DaemonMembers) (keep : ℕ → Bool)
      → Sorted (compare_proc_ids_by_conf s.conf) proc_id_of ds
      → (i : ℕ) (n : Name)
      → All
          (λ d.
            compare_proc_ids_by_conf s.conf i d.proc_id ≡ Ordering.eq
            → keep i ≡ not (is_eliminated s d))
          ds
      → holds s.conf (stay s ds) i n ≡ (keep i && holds s.conf ds i n)
  unfolding stay
  holds-stay [] keep sorted i n h = ground (arith, get_daemon-nil s.conf [] i refl)
  holds-stay (d ∷ ds) keep sorted i n h =
      let later =
        All-stay
          (λ (e : DaemonMembers). compare_proc_ids_by_conf s.conf d.proc_id e.proc_id ≡ Ordering.lt)
          ds sorted.0 in
      ground (
        arith,
        holds-stay ds keep sorted.1 i n h.1,
        h.0,
        get_daemon-cons s.conf d ds i,
        get_daemon-cons s.conf d (stay s ds) i,
        none-Above s.conf i d.proc_id ds sorted.0,
        none-Above s.conf i d.proc_id (stay s ds) later,
      )
