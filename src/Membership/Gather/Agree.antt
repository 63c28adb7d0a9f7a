-- ===== src/Membership/Gather/Agree.antt =====
-- Read_form2 of spread-src-4.4.0/daemon/membership.c: what the daemons that read one form2 token, one
-- after the other, agree on.
use tf.Prelude.{
  ℕ, ◌+◌, ◌≡◌, refl, ap, ap₂, sym, not, ◌++◌, drop, length, drop-append_left, ◌∙◌, subst, arith,
  Bool, true, false, ◌==◌, if◌then◌else◌, Option, none, some, List, [], ◌∷◌, Bool-cases,
  Option-cases, inl, inr, some_injective, ◌≤◌, ◌<◌, Whenever, Whenever-eq, Whenever-some, take,
  >>=-eq-some, leb, ◌-◌,
}
use tf.Configuration.{Configuration}
use tf.FlowControl.{is_evs}
use tf.Membership.{Membership}
use tf.Configuration.{previous, last}
use tf.NetTypes.{MembershipId, TokenHeader, memb_is_equal}
use tf.Membership.Form.{Form2, RingInfo, my_ring}
use tf.Membership.Gather.{Daemon, Sent, pass_form2, pass_token, memb_of, my_of}
use tf.Membership.Gather.Read.{
  make_dummy, make_dummies, take_ring, choose_id, new_membership, trans_time, write_time,
  passed_token, next_members, read_legal, first_token,
}
use tf.Protocol.State.{Prot, set_slot}
use tf.Protocol.Deliver.{discard_stable}
use tf.Protocol.Discard.{discard_packets}
use tf.Protocol.Unmoved.{discard_stable-Kept}

discard_packets-memb :
    (s s' : Prot) → is_evs s.memb.state ≡ false → discard_packets s ≡ some s' → s'.memb ≡ s.memb
unfolding discard_packets
discard_packets-memb s s' quiet e = elim (Bool-cases (leb s.aru s.last_discarded)) [
  | inl done ↦ ap (λ (x : Prot). x.memb) (sym (some_injective (rw done at e)))
  | inr more ↦
      Whenever-some (λ (x : Prot). x.memb ≡ s.memb) (discard_stable s) (rw quiet at (rw more at e))
        (discard_stable-Kept (λ m. m ≡ s.memb) s refl)
]

make_dummy-memb :
    (c : Configuration) (seq : ℕ) (s s' : Prot) → make_dummy c seq s ≡ some s' → s'.memb ≡ s.memb
unfolding make_dummy set_slot
make_dummy-memb c seq s s' e = ground arith

make_dummies-memb :
    (c : Configuration) (seqs : List ℕ) (s s' : Prot)
    → make_dummies c seqs s ≡ some s'
    → s'.memb ≡ s.memb
unfolding make_dummies
make_dummies-memb c [] s s' e = ap (λ (x : Prot). x.memb) (sym (some_injective e))
make_dummies-memb c (x ∷ xs) s s' e =
    let (t, d, rest) = >>=-eq-some (make_dummy c x s) _ e in
    make_dummies-memb c xs t s' rest ∙ make_dummy-memb c x s t d

abbrev twice : Sent → List Sent
twice x = x ∷ x ∷ []

-- What a daemon that reads the token takes from it, and sends.
record WasRead (now : ℕ) (t : Form2) (rg : RingInfo) (d d' : Daemon) : Type 0 where
  id : MembershipId
  memb_time : ℕ
  used : ℕ
  chosen : choose_id now (t.members.num_members + 1 == 1) t d ≡ some (id, memb_time, used)
  future : Configuration
  made :
      new_membership
        (memb_of d).cn
        (take (t.members.num_members + 1 + (t.members.num_pending - 1)) t.members.members)
      ≡ some future
  future_membership : (memb_of d').future_membership ≡ future
  future_membership_id : (memb_of d').future_membership_id ≡ id
  time : (memb_of d').f_trans_memb_time ≡ (trans_time now rg memb_time used).0
  passes : Bool
  first : TokenHeader
  sent :
      d'.sent
      ≡ d.sent
        ++ twice (
            if passes
            then pass_form2 (passed_token t d id (trans_time now rg memb_time used).0)
            else pass_token first)

take_ring-memb :
    (rg : RingInfo) (c : Configuration) (s s' : Prot)
    → is_evs s.memb.state ≡ false
    → take_ring rg c s ≡ some s'
    → s'.memb ≡ s.memb
unfolding take_ring
take_ring-memb rg c s s' quiet e =
    let (t, d, rest) =
      >>=-eq-some (discard_packets (record s { highest_seq = rg.highest_seq; aru = rg.aru })) _ e in
    make_dummies-memb c rg.holes t s' rest
    ∙ discard_packets-memb (record s { highest_seq = rg.highest_seq; aru = rg.aru }) t quiet d

-- The variables before the rings of the token are read.
abbrev prepared : Form2 → Daemon → Configuration → MembershipId → ℕ → Prot
prepared t d future id prev = record d.prot {
  last_seq = t.head.seq;
  prev_proc_id = prev;
  last_num_retrans = 0;
  last_num_sent = 0;
  memb = record (memb_of d) { future_membership = future; future_membership_id = id };
}

read_legal-WasRead :
    (now : ℕ) (t : Form2) (rg : RingInfo) (d : Daemon)
    → is_evs (memb_of d).state ≡ false
    → Whenever (WasRead now t rg d) (read_legal now t rg d)
unfolding read_legal
read_legal-WasRead now t rg d quiet =
    let m = next_members t.members in
    let Q = WasRead now t rg d in
    Whenever-eq Q (choose_id now (m.num_members == 1) t d) _ (λ c chosen.
      Whenever-eq Q (new_membership (memb_of d).cn (take (m.num_members + m.num_pending) m.members))
        _
        (λ future made. Whenever-eq Q (previous (my_of d) future) _ (λ prev was.
          Whenever-eq Q (take_ring rg future (prepared t d future c.0 prev)) _ (λ s taken.
            let same = take_ring-memb rg future (prepared t d future c.0 prev) s quiet taken in
            Whenever-eq Q (last future) _ (λ last_id ends. record {
              id = c.0;
              memb_time = c.1;
              used = c.2;
              chosen = chosen;
              future = future;
              made = made;
              future_membership = ap (λ (x : Membership). x.future_membership) same;
              future_membership_id = ap (λ (x : Membership). x.future_membership_id) same;
              time = refl;
              passes = not (last_id == (my_of d).id);
              first = first_token (record t.head { proc_id = (my_of d).id }) c.0;
              sent = refl;
            })))))

abbrev with_time : ℕ → Option RingInfo → Option RingInfo
with_time time none = none
with_time time (some rg) = some (record rg { trans_time = time })

-- The ring with the id has the time written in.
my_ring-write_time :
    (id : MembershipId) (time : ℕ) (rgs : List RingInfo)
    → my_ring id (write_time id time rgs) ≡ with_time time (my_ring id rgs)
unfolding my_ring write_time
my_ring-write_time id time [] = refl
my_ring-write_time id time (x ∷ xs) =
    let ih = my_ring-write_time id time xs in
    elim (Option-cases (my_ring id xs)) [
      | inl last_one ↦ elim (Bool-cases (memb_is_equal x.memb_id id)) [
        | inl mine ↦ ground (arith, ih, last_one, mine)
        | inr other ↦ ground (arith, ih, last_one, other)
      ]
      | inr (later, found) ↦ ground (arith, ih, found)
    ]

-- The two copies of the token that a daemon sends on.
abbrev pub SendsOn : Daemon → Form2 → Daemon → Type 0
SendsOn d t' d₁ = drop (length d.sent) d₁.sent ≡ pass_form2 t' ∷ pass_form2 t' ∷ []

sent_token :
    (passes : Bool) (x t' : Form2) (first : TokenHeader)
    → twice (if passes then pass_form2 x else pass_token first) ≡ twice (pass_form2 t')
    → x ≡ t'
sent_token true x t' first e = cc e
sent_token false x t' first e = absurd (cc e)

-- The token that is sent on.
sent-passed_token :
    (now : ℕ) (t t' : Form2) (rg : RingInfo) (d d₁ : Daemon)
    → is_evs (memb_of d).state ≡ false
    → read_legal now t rg d ≡ some d₁
    → SendsOn d t' d₁
    → passed_token t d (memb_of d₁).future_membership_id (memb_of d₁).f_trans_memb_time ≡ t'
sent-passed_token now t t' rg d d₁ quiet e on =
    let r = Whenever-some (WasRead now t rg d) _ e (read_legal-WasRead now t rg d quiet) in
    let tokens = sym (drop-append_left d.sent _) ∙ ap (drop (length d.sent)) (sym r.sent) ∙ on in
    ap₂ (passed_token t d) r.future_membership_id r.time ∙ sent_token r.passes _ t' r.first tokens

read_passed-agree :
    (now now' : ℕ) (t : Form2) (rg rg' : RingInfo) (d d₁ d' d₁' : Daemon)
    → is_evs (memb_of d).state ≡ false
    → is_evs (memb_of d').state ≡ false
    → (memb_of d').cn ≡ (memb_of d).cn
    → 2 ≤ t.members.num_pending
    → read_legal now t rg d ≡ some d₁
    → read_legal now'
        (passed_token t d (memb_of d₁).future_membership_id (memb_of d₁).f_trans_memb_time)
        rg'
        d'
      ≡ some d₁'
    → ((memb_of d₁').future_membership ≡ (memb_of d₁).future_membership)
      × ((memb_of d₁').future_membership_id ≡ (memb_of d₁).future_membership_id)
unfolding passed_token choose_id
read_passed-agree now now' t rg rg' d d₁ d' d₁' quiet quiet' same more e e' =
    let t' = passed_token t d (memb_of d₁).future_membership_id (memb_of d₁).f_trans_memb_time in
    let r = Whenever-some (WasRead now t rg d) _ e (read_legal-WasRead now t rg d quiet) in
    let r' =
      Whenever-some (WasRead now' t' rg' d') _ e' (read_legal-WasRead now' t' rg' d' quiet') in
    let k = t.members.num_members + 1 + 1 + (t.members.num_pending - 1 - 1) in
    let k' = t.members.num_members + 1 + (t.members.num_pending - 1) in
    let length_eq : k ≡ k' = omega (arith, more) in
    let futures : some r'.future ≡ some r.future =
      sym r'.made
      ∙ ap (λ c. new_membership c (take k t.members.members)) same
      ∙ ap (λ n. new_membership (memb_of d).cn (take n t.members.members)) length_eq
      ∙ r.made in
    let not_first : (t.members.num_members + 1 + 1 == 1) ≡ false = ground arith in
    let ids = some_injective (rw not_first at r'.chosen) in
    (
      r'.future_membership ∙ some_injective futures ∙ sym r.future_membership,
      r'.future_membership_id ∙ ap (λ (c : MembershipId × ℕ × ℕ). c.0) (sym ids),
    )

trans_time-fixed :
    (now : ℕ) (rg : RingInfo) (memb_time used time : ℕ)
    → rg.trans_time ≡ time
    → 0 < time
    → (trans_time now rg memb_time used).0 ≡ time
unfolding trans_time
trans_time-fixed now rg memb_time used time e more = ground arith

trans_time-positive :
    (now : ℕ) (rg : RingInfo) (memb_time used : ℕ)
    → 0 < now
    → 0 < (trans_time now rg memb_time used).0
unfolding trans_time
trans_time-positive now rg memb_time used more = ground arith

read_passed-agree_time :
    (now now' : ℕ) (t : Form2) (rg rg' : RingInfo) (d d₁ d' d₁' : Daemon)
    → is_evs (memb_of d).state ≡ false
    → is_evs (memb_of d').state ≡ false
    → 0 < now
    → (memb_of d').membership_id ≡ (memb_of d).membership_id
    → let t' = passed_token t d (memb_of d₁).future_membership_id (memb_of d₁).f_trans_memb_time in
      my_ring (memb_of d).membership_id t.rings ≡ some rg
      → my_ring (memb_of d').membership_id t'.rings ≡ some rg'
      → read_legal now t rg d ≡ some d₁
      → read_legal now' t' rg' d' ≡ some d₁'
      → (memb_of d₁').f_trans_memb_time ≡ (memb_of d₁).f_trans_memb_time
unfolding passed_token
read_passed-agree_time now now' t rg rg' d d₁ d' d₁' quiet quiet' more same on on' e e' =
    let time = (memb_of d₁).f_trans_memb_time in
    let id = (memb_of d).membership_id in
    let t' = passed_token t d (memb_of d₁).future_membership_id time in
    let r = Whenever-some (WasRead now t rg d) _ e (read_legal-WasRead now t rg d quiet) in
    let r' =
      Whenever-some (WasRead now' t' rg' d') _ e' (read_legal-WasRead now' t' rg' d' quiet') in
    let written : some rg' ≡ some (record rg { trans_time = time }) =
      sym on'
      ∙ ap (λ i. my_ring i (write_time id time t.rings)) same
      ∙ my_ring-write_time id time t.rings
      ∙ ap (with_time time) on in
    let fixed = ap (λ (x : RingInfo). x.trans_time) (some_injective written) in
    let positive : 0 < time =
      subst (λ n. 0 < n) (sym r.time) (trans_time-positive now rg _ _ more) in
    r'.time ∙ trans_time-fixed now' rg' _ _ time fixed positive

-- Of two daemons with one configuration, not in EVS, the first reads a form2 token with two pending
-- members or more, and the second reads the token that the first sends on: they agree on the future
-- membership and on its id.
pub read_legal-agree :
    (now now' : ℕ) (t t' : Form2) (rg rg' : RingInfo) (d d₁ d' d₁' : Daemon)
    → is_evs (memb_of d).state ≡ false
    → is_evs (memb_of d').state ≡ false
    → (memb_of d').cn ≡ (memb_of d).cn
    → 2 ≤ t.members.num_pending
    → read_legal now t rg d ≡ some d₁
    → SendsOn d t' d₁
    → read_legal now' t' rg' d' ≡ some d₁'
    → ((memb_of d₁').future_membership ≡ (memb_of d₁).future_membership)
      × ((memb_of d₁').future_membership_id ≡ (memb_of d₁).future_membership_id)
read_legal-agree now now' t t' rg rg' d d₁ d' d₁' quiet quiet' same more e on e' =
    let passed = sent-passed_token now t t' rg d d₁ quiet e on in
    read_passed-agree now now' t rg rg' d d₁ d' d₁' quiet quiet' same more e
      (ap (λ x. read_legal now' x rg' d') passed ∙ e')

-- Of two daemons of one old ring, not in EVS, the first, whose clock is not at 0, reads a form2 token
-- with that ring on it, and the second reads the token that the first sends on, from its entry for
-- the ring: they agree on the time of the transitional membership.
pub read_legal-agree_time :
    (now now' : ℕ) (t t' : Form2) (rg rg' : RingInfo) (d d₁ d' d₁' : Daemon)
    → is_evs (memb_of d).state ≡ false
    → is_evs (memb_of d').state ≡ false
    → 0 < now
    → (memb_of d').membership_id ≡ (memb_of d).membership_id
    → my_ring (memb_of d).membership_id t.rings ≡ some rg
    → read_legal now t rg d ≡ some d₁
    → SendsOn d t' d₁
    → my_ring (memb_of d').membership_id t'.rings ≡ some rg'
    → read_legal now' t' rg' d' ≡ some d₁'
    → (memb_of d₁').f_trans_memb_time ≡ (memb_of d₁).f_trans_memb_time
read_legal-agree_time now now' t t' rg rg' d d₁ d' d₁' quiet quiet' more same ring e on ring' e' =
    let passed = sent-passed_token now t t' rg d d₁ quiet e on in
    read_passed-agree_time now now' t rg rg' d d₁ d' d₁' quiet quiet' more same ring
      (ap (λ (x : Form2). my_ring (memb_of d').membership_id x.rings) passed ∙ ring') e
      (ap (λ x. read_legal now' x rg' d') passed ∙ e')
