-- ===== src/Membership/Form/Holes.antt =====
-- The holes that Create_form1 and Fill_form1 of spread-src-4.4.0/daemon/membership.c put on a form
-- token.
use tf.Prelude.{
  ℕ, zero, suc, ◌+◌, ◌-◌, ◌≤◌, ◌<◌, ◌≡◌, inl, inr, refl, ap, ap₂, sym, ◌∙◌, arith, Bool, true,
  false, not, ◌&&◌, ◌||◌, ltb, leb, if◌then◌else◌, List, [], ◌∷◌, ◌++◌, All, Bool-cases,
  Option-cases, some, some_injective,
}
use native.Mathlib.Nat.{suc-add}
use native.Mathlib.Decide.{ℕ_discrete}
use tf.Membership.{contains}
use tf.Membership.Form.{
  merge_ring, merge_commit, RingInfo, holes_from, holes_up, own_ring, common_holes, merge_holes,
}
use tf.Protocol.State.{Prot, exists}
use tf.Protocol.Receive.Window.{IsHeld}

holes_from-contains :
    (s : Prot) (n first seq : ℕ)
    → contains (holes_from s n first) seq
      ≡ (leb first seq && (ltb seq (first + n) && not (exists s seq)))
unfolding holes_from contains
holes_from-contains s zero first seq = ground arith
holes_from-contains s (suc n) first seq =
    let ih = holes_from-contains s n (first + 1) seq in
    elim (ℕ_discrete first seq) [
      | yes e ↦ elim (Bool-cases (exists s first)) [
        | inl there ↦ rw there (ground (arith, ih, e, there, ap (exists s) e))
        | inr gap ↦ rw gap (ground (arith, ih, e, gap, ap (exists s) e))
      ]
      | no ne ↦ elim (Bool-cases (exists s first)) [
        | inl there ↦ rw there (ground (arith, ih, ne))
        | inr gap ↦ rw gap (ground (arith, ih, ne))
      ]
    ]

holes_up-contains :
    (s : Prot) (first seq : ℕ)
    → contains (holes_up s first) seq
      ≡ (leb first seq && (leb seq s.highest_seq && not (exists s seq)))
unfolding holes_up
holes_up-contains s first seq =
    ground (arith, holes_from-contains s (s.highest_seq + 1 - first) first seq)

common_holes-contains :
    (s : Prot) (xs : List ℕ) (seq : ℕ)
    → contains (common_holes s xs) seq ≡ (contains xs seq && not (exists s seq))
unfolding common_holes contains
common_holes-contains s [] seq = refl
common_holes-contains s (x ∷ xs) seq =
    let ih = common_holes-contains s xs seq in
    elim (ℕ_discrete x seq) [
      | yes e ↦ elim (Bool-cases (exists s x)) [
        | inl there ↦ rw there (ground (arith, ih, e, there, ap (exists s) e))
        | inr gap ↦ rw gap (ground (arith, ih, e, gap, ap (exists s) e))
      ]
      | no ne ↦ elim (Bool-cases (exists s x)) [
        | inl there ↦ rw there (ground (arith, ih, ne))
        | inr gap ↦ rw gap (ground (arith, ih, ne))
      ]
    ]

contains-append :
    (xs ys : List ℕ) (id : ℕ) → contains (xs ++ ys) id ≡ (contains xs id || contains ys id)
unfolding contains
contains-append [] ys id = refl
contains-append (x ∷ xs) ys id = ground (arith, contains-append xs ys id)

-- The daemon has no packet with the sequence number.
abbrev pub lacks : Prot → ℕ → Bool
lacks s seq = ltb s.highest_seq seq || not (exists s seq)

abbrev pub all_lack : List Prot → ℕ → Bool
all_lack [] seq = true
all_lack (s ∷ ss) seq = lacks s seq && all_lack ss seq

-- The holes of the ring are the sequence numbers above `base`, up to the highest of all daemons, that
-- all of them lack.
pub record IsCollected (base : ℕ) (ss : List Prot) (rg : RingInfo) : Type 0 where
  pub holes :
      (seq : ℕ)
      → contains rg.holes seq ≡ (ltb base seq && (leb seq rg.highest_seq && all_lack ss seq))
  pub highest : All (λ s. s.highest_seq ≤ rg.highest_seq) ss
  pub above : base ≤ rg.highest_seq

-- The ring that Fill_form1 puts on a token without it has the holes of this daemon above
-- Last_discarded.
pub own_ring-IsCollected :
    (s : Prot)
    → s.last_discarded ≤ s.highest_seq
    → IsCollected s.last_discarded (s ∷ []) (own_ring s (holes_up s (s.last_discarded + 1)))
unfolding own_ring
own_ring-IsCollected s h = record {
  holes = λ seq. ground (arith, holes_up-contains s (s.last_discarded + 1) seq);
  highest = (omega arith, tt);
  above = h;
}

-- No packet of another window stands where the daemon would hold one of the ring.
abbrev pub NoStale : ℕ → Prot → RingInfo → Type 0
NoStale base s rg =
    (seq : ℕ) → base < seq → s.highest_seq < seq → seq ≤ rg.highest_seq → exists s seq ≡ false

beyond_all_lack :
    (ss : List Prot) (top seq : ℕ)
    → All (λ s. s.highest_seq ≤ top) ss
    → top < seq
    → all_lack ss seq ≡ true
beyond_all_lack [] top seq h k = refl
beyond_all_lack (s ∷ ss) top seq h k = ground (arith, h.0, k, beyond_all_lack ss top seq h.1 k)

merge_ring_fields :
    (s : Prot) (rg rg' : RingInfo)
    → merge_ring s rg ≡ some rg'
    → (rg'.holes ≡ merge_holes s rg)
      × (rg'.highest_seq
          ≡ (if ltb s.highest_seq rg.highest_seq then rg.highest_seq else s.highest_seq))
unfolding merge_ring
merge_ring_fields s rg rg' e = elim (Option-cases (merge_commit s rg)) [
  | inl failed ↦ cc
  | inr (commit, made) ↦
      let same = some_injective (rw made at e) in
      (sym (ap (λ (r : RingInfo). r.holes) same), sym (ap (λ (r : RingInfo). r.highest_seq) same))
]

merge_holes-contains :
    (s : Prot) (rg : RingInfo) (seq : ℕ)
    → contains (merge_holes s rg) seq ≡ (
        contains rg.holes seq && not (exists s seq)
        || ltb rg.highest_seq seq && (leb seq s.highest_seq && not (exists s seq)))
unfolding merge_holes contains
merge_holes-contains s rg seq =
    let common = common_holes-contains s rg.holes seq in
    elim (Bool-cases (ltb rg.highest_seq s.highest_seq)) [
      | inl more ↦ rw more (
          contains-append (common_holes s rg.holes) (holes_up s (rg.highest_seq + 1)) seq
          ∙ ground (arith, common, holes_up-contains s (rg.highest_seq + 1) seq))
      | inr less ↦
          rw less (contains-append (common_holes s rg.holes) [] seq ∙ ground (arith, common, less))
    ]

-- The test of a hole before and after.
merged_test :
    (base top own top' seq : ℕ) (hole there all : Bool)
    → hole ≡ (ltb base seq && (leb seq top && all))
    → (top < seq → all ≡ true)
    → (base < seq → own < seq → seq ≤ top → there ≡ false)
    → base ≤ top
    → top' ≡ (if ltb own top then top else own)
    → (hole && not there || ltb top seq && (leb seq own && not there))
      ≡ (ltb base seq && (leb seq top' && ((ltb own seq || not there) && all)))
merged_test base top own top' seq hole true true h beyond stale above e = ground arith
merged_test base top own top' seq hole true false h beyond stale above e = ground arith
merged_test base top own top' seq hole false true h beyond stale above e = ground arith
merged_test base top own top' seq hole false false h beyond stale above e = ground arith

-- Fill_form1 merges the ring of this daemon with the same ring on the token: its holes are then the
-- sequence numbers, up to the highest of all the daemons of the ring that the token has visited, that
-- all of them lack, if no packet stands in a place of this daemon that is beyond its highest.
pub merge_ring-IsCollected :
    (base : ℕ) (ss : List Prot) (s : Prot) (rg rg' : RingInfo)
    → IsCollected base ss rg
    → NoStale base s rg
    → merge_ring s rg ≡ some rg'
    → IsCollected base (s ∷ ss) rg'
merge_ring-IsCollected base ss s rg rg' old stale e =
    let (holes, highest) = merge_ring_fields s rg rg' e in
    record {
      holes = λ seq.
          ap (λ h. contains h seq) holes
          ∙ merge_holes-contains s rg seq
          ∙ merged_test base rg.highest_seq s.highest_seq rg'.highest_seq seq
              (contains rg.holes seq) (exists s seq) (all_lack ss seq) (old.holes seq)
              (beyond_all_lack ss rg.highest_seq seq old.highest) (stale seq) old.above highest;
      highest = (
        ground (arith, highest),
        raise ss rg.highest_seq rg'.highest_seq (ground (arith, highest)) old.highest,
      );
      above = ground (arith, highest, old.above);
    }
  where
    raise :
        (ts : List Prot) (a b : ℕ)
        → a ≤ b
        → All (λ t. t.highest_seq ≤ a) ts
        → All (λ t. t.highest_seq ≤ b) ts
    raise [] a b h k = tt
    raise (t ∷ ts) a b h k = (omega (arith, h, k.0), raise ts a b h k.1)

holes_from_all_there :
    (s : Prot) (k n first : ℕ)
    → ((i : ℕ) → first ≤ i → i < first + k → exists s i ≡ true)
    → holes_from s (k + n) first ≡ holes_from s n (first + k)
unfolding holes_from
holes_from_all_there s zero n first there = ap₂ (holes_from s) (omega arith) (omega arith)
holes_from_all_there s (suc k) n first there = rw (suc-add k n) (
    rw (there first (omega arith) (omega arith)) (
      holes_from_all_there s k n (first + 1)
        (λ i a b. there i (omega (arith, a)) (omega (arith, b)))
      ∙ ap (holes_from s n) (omega arith)))

-- Create_form1 looks for holes above My_aru, Fill_form1 above Last_discarded: where the window of
-- packets is as Prot_handle_bcast keeps it, both find the same holes.
pub holes_up-my_aru :
    (s : Prot) → IsHeld s → holes_up s (s.last_discarded + 1) ≡ holes_up s (s.my_aru + 1)
unfolding holes_up
holes_up-my_aru s h =
    let k = s.my_aru - s.last_discarded in
    let n = s.highest_seq - s.my_aru in
    ap (λ m. holes_from s m (s.last_discarded + 1)) (omega (arith, h.aru_in.0, h.aru_in.1))
    ∙ holes_from_all_there s k n (s.last_discarded + 1)
        (λ i a b. h.held i (omega (arith, a)) (omega (arith, b, h.aru_in.0)))
    ∙ ap₂ (holes_from s) (omega (arith, h.aru_in.1)) (omega (arith, h.aru_in.0))
