-- ===== src/Configuration.antt =====
-- spread-src-4.4.0/daemon/configuration.c and configuration.h:
-- the daemons of a configuration, by segments, and
-- the ring that the token follows through them.
-- A `segment` holds pointers into `allprocs`; here it holds the pointed-to values, which no
-- function of the file changes. `num_segments`, `num_procs`, `num_total_procs` and `num_if` are
-- the lengths of the lists. -1 is `none`, and so is the end of the process by `Alarm( EXIT )`.
pub mod Ring
pub mod Copy
use mathlib.Core.Option
use tf.Prelude.{
  ℕ, zero, suc, ◌+◌, ◌-◌, Bool, true, false, ◌||◌, ◌&&◌, ◌==◌, if◌then◌else◌, ltb, Option, none,
  some, List, [], ◌∷◌, ◌++◌, length, get_or,
}

-- struct spread_if_info
pub record Interface : Type 0 where
  pub ip : ℕ
  pub port : ℕ
  pub type : ℕ

pub record Proc : Type 0 where
  pub name : List ℕ
  pub port : ℕ
  pub seg_index : ℕ
  pub index_in_seg : ℕ
  pub id : ℕ
  pub ifc : List Interface

pub record Segment : Type 0 where
  pub bcast_address : ℕ
  pub port : ℕ
  pub procs : List Proc

pub record Configuration : Type 0 where
  pub hash_code : ℕ
  pub allprocs : List Proc
  pub segments : List Segment

-- The inner loop of the searches by id: does an interface of the daemon have the address?
unfoldable pub has_ip : List Interface → ℕ → Bool
has_ip [] id = false
has_ip (x ∷ xs) id = x.ip == id || has_ip xs id

proc_by_id_from : List Proc → ℕ → ℕ → Option (ℕ × Proc)
proc_by_id_from [] id i = none
proc_by_id_from (p ∷ ps) id i =
    if has_ip p.ifc id then some (i, p) else proc_by_id_from ps id (i + 1)

-- The index and the daemon.
unfoldable pub proc_by_id_in_conf : Configuration → ℕ → Option (ℕ × Proc)
unfolding proc_by_id_from has_ip
proc_by_id_in_conf config id = proc_by_id_from config.allprocs id 0

-- strcmp( a, b ) == 0, of names without their final null.
same_name : List ℕ → List ℕ → Bool
same_name [] [] = true
same_name [] (y ∷ ys) = false
same_name (x ∷ xs) [] = false
same_name (x ∷ xs) (y ∷ ys) = x == y && same_name xs ys

proc_by_name_from : List Proc → List ℕ → ℕ → Option (ℕ × Proc)
proc_by_name_from [] name i = none
proc_by_name_from (p ∷ ps) name i =
    if same_name p.name name then some (i, p) else proc_by_name_from ps name (i + 1)

unfoldable pub proc_by_name_in_conf : Configuration → List ℕ → Option (ℕ × Proc)
unfolding proc_by_name_from same_name
proc_by_name_in_conf config name = proc_by_name_from config.allprocs name 0

id_in_procs : List Proc → ℕ → ℕ → Option ℕ
id_in_procs [] id j = none
id_in_procs (p ∷ ps) id j = if has_ip p.ifc id then some j else id_in_procs ps id (j + 1)

-- The place of the daemon in the segment.
unfoldable pub id_in_seg : Segment → ℕ → Option ℕ
unfolding id_in_procs has_ip
id_in_seg seg id = id_in_procs seg.procs id 0

id_in_segments : List Segment → ℕ → ℕ → Option ℕ
id_in_segments [] id i = none
id_in_segments (s ∷ ss) id i = elim (id_in_seg s id) [
  | some _ ↦ some i
  | none ↦ id_in_segments ss id (i + 1)
]

-- The segment of the daemon.
unfoldable pub id_in_conf : Configuration → ℕ → Option ℕ
unfolding id_in_segments id_in_seg
id_in_conf config id = id_in_segments config.segments id 0

num_procs_from : List Segment → ℕ → ℕ
num_procs_from [] ret = ret
num_procs_from (s ∷ ss) ret = num_procs_from ss (ret + length s.procs)

unfoldable pub num_procs : Configuration → ℕ
unfolding num_procs_from
num_procs config = num_procs_from config.segments 0

leader_from : List Segment → Option ℕ
leader_from [] = none
leader_from (s ∷ ss) = elim s.procs [ [] ↦ leader_from ss | p ∷ _ ↦ some p.id ]

unfoldable pub leader : Configuration → Option ℕ
unfolding leader_from
leader config = leader_from config.segments

-- An element of the array `segments` behind the last segment has no daemons.
abbrev pub no_segment : Segment
no_segment = record { bcast_address = 0; port = 0; procs = [] }

abbrev pub no_proc : Proc
no_proc = record { name = []; port = 0; seg_index = 0; index_in_seg = 0; id = 0; ifc = [] }

-- procs[num_procs - 1]->id, where there is a daemon.
unfoldable pub seg_last_of : Segment → Option ℕ
seg_last_of seg =
    if ltb 0 (length seg.procs)
    then some (get_or seg.procs (length seg.procs - 1) no_proc).id
    else none

-- The loops `for( i = lo + k - 1; i >= lo; i-- )` of `last` and `previous`: the last daemon of the
-- last segment that has one.
unfoldable pub last_down : List Segment → ℕ → ℕ → Option ℕ
last_down segs lo zero = none
last_down segs lo (suc k) = elim (seg_last_of (get_or segs (lo + k) no_segment)) [
  | some id ↦ some id
  | none ↦ last_down segs lo k
]

unfoldable pub last : Configuration → Option ℕ
unfolding last_down seg_last_of
last config = last_down config.segments 0 (length config.segments)

-- The two loops of `previous` over other segments.
unfoldable pub previous_outside : List Segment → ℕ → Option ℕ
unfolding last_down seg_last_of
previous_outside segs here = elim (last_down segs 0 here) [
  | some id ↦ some id
  | none ↦ last_down segs here (length segs - here)
]

-- The daemon that sends the token to `my`.
unfoldable pub previous : Proc → Configuration → Option ℕ
unfolding previous_outside id_in_seg last_down seg_last_of
previous my config =
    let seg = get_or config.segments my.seg_index no_segment in
    elim (id_in_seg seg my.id) [
      | some (suc j) ↦ some (get_or seg.procs j no_proc).id
      | _ ↦ previous_outside config.segments my.seg_index
    ]

unfoldable pub seg_leader : Configuration → ℕ → Option ℕ
seg_leader config seg_index = elim (get_or config.segments seg_index no_segment).procs [
  | [] ↦ none
  | p ∷ _ ↦ some p.id
]

unfoldable pub seg_last : Configuration → ℕ → Option ℕ
unfolding seg_last_of
seg_last config seg_index = seg_last_of (get_or config.segments seg_index no_segment)

unfoldable pub num_procs_in_seg : Configuration → ℕ → ℕ
num_procs_in_seg config seg_index = length (get_or config.segments seg_index no_segment).procs

-- The configuration is the `Config` in which the daemon is looked up.
unfoldable pub append_id_to_seg : Configuration → Segment → ℕ → Option Segment
unfolding proc_by_id_in_conf
append_id_to_seg config seg id = elim (proc_by_id_in_conf config id) [
  | some (_, p) ↦ some (record seg { procs = seg.procs ++ (p ∷ []) })
  | none ↦ none
]

copy_procs : Configuration → List Proc → Option (List Proc)
copy_procs dst [] = some []
copy_procs dst (p ∷ ps) = elim (proc_by_id_in_conf dst p.id) [
  | some (_, q) ↦ Option.map (λ qs. q ∷ qs) (copy_procs dst ps)
  | none ↦ none
]

copy_segments : Configuration → List Segment → Option (List Segment)
copy_segments dst [] = some []
copy_segments dst (s ∷ ss) = elim (copy_procs dst s.procs) [
  | some qs ↦ Option.map (λ ts. record s { procs = qs } ∷ ts) (copy_segments dst ss)
  | none ↦ none
]

same_ids : List Proc → List Proc → Bool
same_ids [] [] = true
same_ids (p ∷ ps) (q ∷ qs) = p.id == q.id && same_ids ps qs
same_ids _ _ = false

same_segment_ids : List Segment → List Segment → Bool
same_segment_ids [] [] = true
same_segment_ids (s ∷ ss) (t ∷ ts) = same_ids s.procs t.procs && same_segment_ids ss ts
same_segment_ids _ _ = false

-- Each daemon of a segment is looked up anew in the copy of `allprocs`. `none`: an assertion, in
-- the copying or in the comparison behind it, fails.
unfoldable pub config_copy : Configuration → Option Configuration
unfolding copy_segments copy_procs proc_by_id_in_conf same_segment_ids same_ids
config_copy src = elim (copy_segments src src.segments) [
  | some ts ↦ if same_segment_ids ts src.segments then some (record src { segments = ts }) else none
  | none ↦ none
]
