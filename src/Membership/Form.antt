-- ===== src/Membership/Form.antt =====
-- spread-src-4.4.0/daemon/membership.c: the form tokens, and the information on a ring that
-- Create_form1 and Fill_form1 put on them. The token is the record that its bytes stand for: of the
-- members the first `num_members` and then `num_pending` more are listed, a ring_info is followed by
-- its holes and by the members of its commit set, of which the first `num_trans` come along.
pub mod Holes
use mathlib.Core.Option
use tf.Prelude.{
  ℕ, zero, suc, ◌+◌, ◌-◌, ◌*◌, ◌^◌, Bool, true, false, not, ◌==◌, ltb, leb, if◌then◌else◌, Option,
  none, some, List, [], ◌∷◌, ◌++◌, length, take, drop, ◌>>=◌, ◌>>◌, guard,
}
use tf.NetTypes.{MembershipId, TokenHeader, memb_is_equal}
use tf.Membership.{Membership, CommitSet}
use tf.Membership.Members.{insert_member}
use tf.Membership.Reps.{RepInfo}
use tf.Protocol.State.{Prot, exists}

-- reps_info with its `rep_index`: the next rep that the token goes to
pub record RepsInfo : Type 0 where
  pub rep_index : ℕ
  pub reps : List RepInfo

pub record RingInfo : Type 0 where
  pub memb_id : MembershipId
  pub trans_time : ℕ
  pub aru : ℕ
  pub highest_seq : ℕ
  pub holes : List ℕ
  pub num_trans : ℕ
  pub commit : List ℕ

pub record Form1 : Type 0 where
  pub head : TokenHeader
  pub members : CommitSet
  pub reps : RepsInfo
  pub rings : List RingInfo

-- In place of the reps a form2 token has the id of the new membership, which the first daemon that
-- reads the token writes: `none` before.
pub record Form2 : Type 0 where
  pub head : TokenHeader
  pub members : CommitSet
  pub memb_id : Option MembershipId
  pub rings : List RingInfo

abbrev pub form1_type : ℕ
form1_type = 0x1000

abbrev pub form2_type : ℕ
form2_type = 0x2000

abbrev pub max_form_reps : ℕ
max_form_reps = 20

-- sizeof(ring_info), sizeof(members_info), sizeof(reps_info), sizeof(membership_id)
abbrev pub sizeof_ring_info : ℕ
sizeof_ring_info = 28

abbrev pub sizeof_members_info : ℕ
sizeof_members_info = 4 + 4 * 128

abbrev pub sizeof_reps_info : ℕ
sizeof_reps_info = 4 + 8 * 25

abbrev pub sizeof_membership_id : ℕ
sizeof_membership_id = 8

-- The bytes of a ring, and of the number of rings with the rings.
unfoldable pub sizeof_ring : RingInfo → ℕ
sizeof_ring rg = sizeof_ring_info + (length rg.holes + length rg.commit) * 4

unfoldable pub sizeof_rings : List RingInfo → ℕ
unfolding sizeof_ring
sizeof_rings [] = 4
sizeof_rings (rg ∷ rgs) = sizeof_ring rg + sizeof_rings rgs

-- The sequence numbers without a packet, of `n` of them from `seq` on.
unfoldable pub holes_from : Prot → ℕ → ℕ → List ℕ
holes_from s zero seq = []
holes_from s (suc n) seq =
    let rest = holes_from s n (seq + 1) in if exists s seq then rest else seq ∷ rest

-- The loops `for( index = first; index <= Highest_seq; index++ )`.
unfoldable pub holes_up : Prot → (first : ℕ) → List ℕ
unfolding holes_from
holes_up s first = holes_from s (s.highest_seq + 1 - first) first

abbrev pub without : ℕ → List ℕ → List ℕ
without id [] = []
without id (x ∷ xs) = if x == id then without id xs else x ∷ without id xs

-- The own ring, with My first in the commit set.
unfoldable pub own_ring : Prot → List ℕ → RingInfo
own_ring s holes = record {
  memb_id = s.memb.membership_id;
  trans_time = 0;
  aru = s.aru;
  highest_seq = s.highest_seq;
  holes = holes;
  num_trans = 1;
  commit = s.my.id ∷ without s.my.id (take s.memb.commit_set.num_members s.memb.commit_set.members);
}

-- Fill_form1, of the ring that is on the token already: the last with the own membership id.
unfoldable pub my_ring : MembershipId → List RingInfo → Option RingInfo
unfolding memb_is_equal
my_ring id [] = none
my_ring id (rg ∷ rgs) = elim (my_ring id rgs) [
  | some later ↦ some later
  | none ↦ if memb_is_equal rg.memb_id id then some rg else none
]

unfoldable pub other_rings : MembershipId → List RingInfo → List RingInfo
unfolding memb_is_equal
other_rings id [] = []
other_rings id (rg ∷ rgs) =
    let rest = other_rings id rgs in if memb_is_equal rg.memb_id id then rest else rg ∷ rest

-- Those of the holes that are holes here too.
unfoldable pub common_holes : Prot → List ℕ → List ℕ
common_holes s [] = []
common_holes s (seq ∷ seqs) =
    let rest = common_holes s seqs in if exists s seq then rest else seq ∷ rest

-- The holes of a ring and those behind its highest packet.
unfoldable pub merge_holes : Prot → RingInfo → List ℕ
unfolding common_holes holes_up
merge_holes s rg =
    common_holes s rg.holes
    ++ (if ltb rg.highest_seq s.highest_seq then holes_up s (rg.highest_seq + 1) else [])

unfoldable pub insert_members : List ℕ → List ℕ → List ℕ
unfolding insert_member
insert_members [] m = m
insert_members (x ∷ xs) m = let (new, m') = insert_member m x in insert_members xs m'

-- The members that come along with My, then the other members of the commit sets.
unfoldable pub merge_commit : Prot → RingInfo → Option (List ℕ)
unfolding insert_members
merge_commit s rg = do
  let trans = insert_members (take rg.num_trans rg.commit ++ (s.my.id ∷ [])) []
  guard (length trans == rg.num_trans + 1)
  let set = s.memb.commit_set
  some (insert_members (drop rg.num_trans rg.commit ++ take set.num_members set.members) trans)

unfoldable pub merge_ring : Prot → RingInfo → Option RingInfo
unfolding merge_holes merge_commit
merge_ring s rg = do
  commit ← merge_commit s rg
  some (record {
    memb_id = s.memb.membership_id;
    trans_time = 0;
    aru = if ltb s.aru rg.aru then rg.aru else s.aru;
    highest_seq = if ltb s.highest_seq rg.highest_seq then rg.highest_seq else s.highest_seq;
    holes = merge_holes s rg;
    num_trans = rg.num_trans + 1;
    commit = commit;
  })
