-- ===== src/Configuration/Copy.antt =====
-- The searches by id and Conf_config_copy, of spread-src-4.4.0/daemon/configuration.c.
use tf.Prelude.{
  ℕ, suc, ◌+◌, ◌≡◌, refl, arith, Option, none, some, List, [], ◌∷◌, get_elem?, true, false, inl,
  inr, All, All-get_elem?, Bool-cases,
}
use tf.Configuration.{
  Proc, Segment, Configuration, has_ip, proc_by_id_from, proc_by_id_in_conf, copy_procs,
  copy_segments, same_ids, same_segment_ids, config_copy,
}

-- What a search for `id` in `ps` has to return, counting from `i`.
abbrev pub Found : List Proc → ℕ → ℕ → Option (ℕ × Proc) → Type 0
Found ps id i none = All (λ q. has_ip q.ifc id ≡ false) ps
Found ps id i (some (j, p)) =
    (k : ℕ) × (j ≡ i + k) × (get_elem? ps k ≡ some p) × (has_ip p.ifc id ≡ true)

Found-cons :
    (p : Proc) (ps : List Proc) (id i : ℕ) (o : Option (ℕ × Proc))
    → has_ip p.ifc id ≡ false
    → Found ps id (i + 1) o
    → Found (p ∷ ps) id i o
Found-cons p ps id i none e f = (e, f)
Found-cons p ps id i (some (j, q)) e (k, at, got, has) = (suc k, omega arith, got, has)

proc_by_id_from-Found : (ps : List Proc) (id i : ℕ) → Found ps id i (proc_by_id_from ps id i)
unfolding proc_by_id_from
proc_by_id_from-Found [] id i = tt
proc_by_id_from-Found (p ∷ ps) id i = elim (Bool-cases (has_ip p.ifc id)) [
  | inl e ↦ rw e (0, omega arith, refl, e)
  | inr e ↦ rw e (Found-cons p ps id i _ e (proc_by_id_from-Found ps id (i + 1)))
]

-- `proc_by_id_in_conf` returns a daemon of the configuration that has the address, with its index,
-- and fails only where no daemon has it.
pub proc_by_id_in_conf-Found :
    (c : Configuration) (id : ℕ) → Found c.allprocs id 0 (proc_by_id_in_conf c id)
unfolding proc_by_id_in_conf
proc_by_id_in_conf-Found c id = proc_by_id_from-Found c.allprocs id 0

-- A daemon of `allprocs` that has its own id for an address, which no other daemon there has.
pub record IsOwn (all : List Proc) (p : Proc) : Type 0 where
  pub place : ℕ
  pub here : get_elem? all place ≡ some p
  pub has : has_ip p.ifc p.id ≡ true
  pub alone : All (λ q. has_ip q.ifc p.id ≡ true → q ≡ p) all

Found-IsOwn :
    (all : List Proc) (p : Proc) (o : Option (ℕ × Proc))
    → IsOwn all p
    → Found all p.id 0 o
    → (j : ℕ) × (o ≡ some (j, p))
Found-IsOwn all p none own f =
    absurd (cc (All-get_elem? (λ q. has_ip q.ifc p.id ≡ false) all own.place f own.here, own.has))
Found-IsOwn all p (some (j, q)) own (k, at, got, has) =
    let same : q ≡ p = All-get_elem? _ all k own.alone got has in (j, rw same)

module _ (dst : Configuration) where
  copy_procs_lem : (ps : List Proc) → All (IsOwn dst.allprocs) ps → copy_procs dst ps ≡ some ps
  unfolding copy_procs
  copy_procs_lem [] h = refl
  copy_procs_lem (p ∷ ps) h =
      let (j, e) = Found-IsOwn dst.allprocs p _ h.0 (proc_by_id_in_conf-Found dst p.id) in
      ground (arith, e, copy_procs_lem ps h.1)

  copy_segments_lem :
      (ss : List Segment)
      → All (λ s. All (IsOwn dst.allprocs) s.procs) ss
      → copy_segments dst ss ≡ some ss
  unfolding copy_segments
  copy_segments_lem [] h = refl
  copy_segments_lem (s ∷ ss) h =
      ground (arith, copy_procs_lem s.procs h.0, copy_segments_lem ss h.1)

same_ids_refl : (ps : List Proc) → same_ids ps ps ≡ true
unfolding same_ids
same_ids_refl [] = refl
same_ids_refl (p ∷ ps) = ground (arith, same_ids_refl ps)

same_segment_ids_refl : (ss : List Segment) → same_segment_ids ss ss ≡ true
unfolding same_segment_ids
same_segment_ids_refl [] = refl
same_segment_ids_refl (s ∷ ss) = ground (arith, same_ids_refl s.procs, same_segment_ids_refl ss)

-- If every daemon of the segments stands in `allprocs` with an address of its own, then no
-- assertion of `config_copy` fails, and the copy is the same configuration.
pub config_copy_lem :
    (c : Configuration)
    → All (λ s. All (IsOwn c.allprocs) s.procs) c.segments
    → config_copy c ≡ some c
unfolding config_copy
config_copy_lem c h =
    ground (arith, copy_segments_lem c c.segments h, same_segment_ids_refl c.segments)
