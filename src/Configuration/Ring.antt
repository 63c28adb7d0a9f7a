-- ===== src/Configuration/Ring.antt =====
-- The token's ring, of spread-src-4.4.0/daemon/configuration.c: the daemons of all segments in one
-- sequence.
use tf.Prelude.{
  ℕ, zero, suc, ◌+◌, ◌-◌, ◌≡◌, refl, arith, or_else, take, drop, ltb, if◌then◌else◌, ap, ◌∙◌,
  take-append_left, drop-append_left, get_or-append_right, sym, take-length, Option, none, some,
  List, [], ◌∷◌, ◌++◌, length, get_or, append_assoc, append-nil, length-append,
}
use native.Mathlib.Nat.{zero-add, suc-add}
use tf.Configuration.{
  Proc, Segment, Configuration, no_segment, no_proc, leader_from, leader, seg_last_of, last_down,
  last, num_procs_from, num_procs, previous, previous_outside, id_in_seg,
}

-- The specification: the ids in the order of the ring.
abbrev pub ids : List Proc → List ℕ
ids [] = []
ids (p ∷ ps) = p.id ∷ ids ps

abbrev pub ring_of : List Segment → List ℕ
ring_of [] = []
ring_of (s ∷ ss) = ids s.procs ++ ring_of ss

abbrev pub ring : Configuration → List ℕ
ring c = ring_of c.segments

abbrev pub first_of : List ℕ → Option ℕ
first_of [] = none
first_of (x ∷ xs) = some x

abbrev pub last_of : List ℕ → Option ℕ
last_of [] = none
last_of (x ∷ xs) = or_else (last_of xs) (some x)

ids-append : (ps qs : List Proc) → ids (ps ++ qs) ≡ ids ps ++ ids qs
ids-append [] qs = refl
ids-append (p ∷ ps) qs = ground (arith, ids-append ps qs)

ring_of-append : (ss ts : List Segment) → ring_of (ss ++ ts) ≡ ring_of ss ++ ring_of ts
ring_of-append [] ts = refl
ring_of-append (s ∷ ss) ts = simp (ring_of-append ss ts, append_assoc)

-- `leader` is the first daemon of the ring, and fails exactly on an empty ring.
leader_lem : (c : Configuration) → leader c ≡ first_of (ring c)
unfolding leader
leader_lem c = from c.segments
  where
    from : (ss : List Segment) → leader_from ss ≡ first_of (ring_of ss)
    from [] = refl
    from (s ∷ ss) = ground (arith, from ss)

length-ids : (ps : List Proc) → length (ids ps) ≡ length ps
length-ids [] = refl
length-ids (p ∷ ps) = ap suc (length-ids ps)

-- `num_procs` counts the daemons of the ring.
num_procs_lem : (c : Configuration) → num_procs c ≡ length (ring c)
unfolding num_procs
num_procs_lem c = from c.segments 0 ∙ omega arith
  where
    from : (ss : List Segment) (ret : ℕ) → num_procs_from ss ret ≡ ret + length (ring_of ss)
    from [] ret = omega arith
    from (s ∷ ss) ret = omega (
      arith,
      from ss (ret + length s.procs),
      length-append (ids s.procs) (ring_of ss),
      length-ids s.procs,
    )

last_of-append : (xs ys : List ℕ) → last_of (xs ++ ys) ≡ or_else (last_of ys) (last_of xs)
last_of-append [] ys = ground arith
last_of-append (x ∷ xs) ys = ground (arith, last_of-append xs ys)

last_of-get_or :
    (p : Proc) (ps : List Proc)
    → last_of (ids (p ∷ ps)) ≡ some (get_or (p ∷ ps) (length ps) no_proc).id
last_of-get_or p [] = refl
last_of-get_or p (q ∷ ps) = ground (arith, last_of-get_or q ps)

seg_last_of_lem : (s : Segment) → seg_last_of s ≡ last_of (ids s.procs)
unfolding seg_last_of
seg_last_of_lem s = from s.procs
  where
    from :
        (ps : List Proc)
        → (if ltb 0 (length ps) then some (get_or ps (length ps - 1) no_proc).id else none)
          ≡ last_of (ids ps)
    from [] = refl
    from (p ∷ ps) = ground (arith, last_of-get_or p ps)

slice-suc :
    (segs : List Segment) (lo k : ℕ)
    → ring_of (take (suc k) (drop lo segs))
      ≡ ring_of (take k (drop lo segs)) ++ ids (get_or segs (lo + k) no_segment).procs
slice-suc [] zero zero = refl
slice-suc [] zero (suc k) = refl
slice-suc [] (suc lo) zero = refl
slice-suc [] (suc lo) (suc k) = refl
slice-suc (s ∷ ss) zero zero = append-nil (ids s.procs)
slice-suc (s ∷ ss) zero (suc k) = rw (slice-suc ss zero k, zero-add, zero-add) (simp append_assoc)
slice-suc (s ∷ ss) (suc lo) k = rw (slice-suc ss lo k, suc-add)

last_down_lem :
    (segs : List Segment) (lo k : ℕ)
    → last_down segs lo k ≡ last_of (ring_of (take k (drop lo segs)))
unfolding last_down
last_down_lem segs lo zero = refl
last_down_lem segs lo (suc k) =
    let seg = get_or segs (lo + k) no_segment in
    rw (slice-suc segs lo k) (
      ground (
        arith,
        last_down_lem segs lo k,
        seg_last_of_lem seg,
        last_of-append (ring_of (take k (drop lo segs))) (ids seg.procs),
      ))

-- `last` is the last daemon of the ring, and fails exactly on an empty ring.
last_lem : (c : Configuration) → last c ≡ last_of (ring c)
unfolding last
last_lem c =
    last_down_lem c.segments 0 (length c.segments)
    ∙ ap (λ ss. last_of (ring_of ss)) (take-length c.segments)

-- `leader` is the first daemon of the ring and `last` the last one; both fail exactly on an empty
-- ring. `num_procs` counts the daemons of the ring.
pub leader-last_lem :
    (c : Configuration)
    → (leader c ≡ first_of (ring c)) × (last c ≡ last_of (ring c)) × (num_procs c ≡ length (ring c))
leader-last_lem c = (leader_lem c, last_lem c, num_procs_lem c)

-- A place in the ring: the daemon `my` stands in `seg` between `ps` and `qs`, and the searches by
-- its id find it there.
pub record Standing (c : Configuration) (my : Proc) (before after : List Segment) (seg : Segment)
    (ps qs : List Proc) : Type 0 where
  pub segments : c.segments ≡ before ++ (seg ∷ after)
  pub procs : seg.procs ≡ ps ++ (my ∷ qs)
  pub seg_index : my.seg_index ≡ length before
  pub found : id_in_seg seg my.id ≡ some (length ps)

last_of-get_or-append :
    (p : Proc) (ps rest : List Proc)
    → some (get_or ((p ∷ ps) ++ rest) (length ps) no_proc).id ≡ last_of (ids (p ∷ ps))
last_of-get_or-append p [] rest = refl
last_of-get_or-append p (q ∷ ps) rest =
    ground (arith, last_of-get_or-append q ps rest, last_of-get_or q ps)

previous_outside_lem :
    (before after : List Segment) (seg : Segment)
    → previous_outside (before ++ (seg ∷ after)) (length before)
      ≡ or_else (last_of (ring_of before)) (last_of (ring_of (seg ∷ after)))
unfolding previous_outside
previous_outside_lem before after seg =
    let segs = before ++ (seg ∷ after) in
    let n = length before in
    ground (
      arith,
      last_down_lem segs 0 n,
      last_down_lem segs n (length segs - n),
      take-append_left before (seg ∷ after),
      drop-append_left before (seg ∷ after),
      take-length (seg ∷ after),
      length-append before (seg ∷ after),
    )

-- The index found in the segment leads to the daemon in front of `my`, or out of the segment.
previous-procs :
    (segs : List Segment) (here : ℕ) (procs ps qs : List Proc) (my : Proc)
    → procs ≡ ps ++ (my ∷ qs)
    → ◌≡◌ {A = Option ℕ}
        (elim (length ps) [
          | suc j ↦ some (get_or procs j no_proc).id
          | zero ↦ previous_outside segs here
        ])
        (or_else (last_of (ids ps)) (previous_outside segs here))
previous-procs segs here procs [] qs my e = refl
previous-procs segs here procs (p ∷ ps) qs my e =
    rw e (ground (arith, last_of-get_or-append p ps (my ∷ qs), last_of-get_or p ps))

module _ {c : Configuration} {my : Proc} {before after : List Segment} {seg : Segment}
    {ps qs : List Proc} (st : Standing c my before after seg ps qs) where
  seg-at : get_or c.segments my.seg_index no_segment ≡ seg
  seg-at = rw (st.segments, st.seg_index) (get_or-append_right before (seg ∷ after) no_segment)

  last_of-around :
      last_of ((my.id ∷ ids qs) ++ (ring_of after ++ (ring_of before ++ ids ps)))
      ≡ or_else
          (last_of (ids ps))
          (or_else (last_of (ring_of before)) (last_of (ring_of (seg ∷ after))))
  last_of-around =
      rw (st.procs, ids-append)
        (ground (
          arith,
          last_of-append (ids qs) (ring_of after ++ (ring_of before ++ ids ps)),
          last_of-append (ring_of after) (ring_of before ++ ids ps),
          last_of-append (ring_of before) (ids ps),
          last_of-append (ids ps ++ (my.id ∷ ids qs)) (ring_of after),
          last_of-append (ids ps) (my.id ∷ ids qs),
        ))

  previous-at :
      previous my c ≡ or_else (last_of (ids ps)) (previous_outside c.segments my.seg_index)
  unfolding previous
  previous-at =
      ground (
        arith,
        seg-at,
        st.found,
        previous-procs c.segments my.seg_index seg.procs ps qs my st.procs,
      )

  -- `previous` is the daemon in front of `my` in the ring, and in front of the first the last: the
  -- last one of the ring as it is read from `my` on.
  pub previous_lem :
      previous my c ≡ last_of ((my.id ∷ ids qs) ++ (ring_of after ++ (ring_of before ++ ids ps)))
  previous_lem =
      previous-at
      ∙ rw (st.segments, st.seg_index, previous_outside_lem before after seg) (sym last_of-around)
