-- ===== src/Protocol/Fragment/Pending.antt =====
-- The down queue of spread-src-4.4.0/daemon/protocol.c as the sequence of the elements that wait.
use tf.Prelude.{
  ℕ, zero, suc, ◌+◌, ◌-◌, ◌≤◌, ◌<◌, ◌≡◌, refl, arith, List, [], ◌∷◌, ◌++◌, length, get_or, drop,
  All, ltb, if◌then◌else◌,
}
use tf.Prelude.Int.{ℤ, pos, negsuc}
use tf.Protocol.Fragment.{DownLink, DownQueue}

-- The specification: the elements that wait in the down queue, with their fragment indices.
abbrev pub index_of : ℕ → ℕ → ℤ
index_of n cur = if ltb (cur + 1) n then pos (cur + 1) else negsuc (n - 1)

abbrev pub numbered : ℕ → ℕ → List (List ℕ) → List (ℤ × List ℕ)
numbered n cur [] = []
numbered n cur (e ∷ es) = (index_of n cur, e) ∷ numbered n (suc cur) es

abbrev pub pending_of : List DownLink → List (ℤ × List ℕ)
pending_of [] = []
pending_of (m ∷ ms) = numbered (length m.elements) 0 m.elements ++ pending_of ms

abbrev pub pending_from : List DownLink → ℕ → List (ℤ × List ℕ)
pending_from [] cur = []
pending_from (m ∷ ms) cur = numbered (length m.elements) cur (drop cur m.elements) ++ pending_of ms

abbrev pub pending : DownQueue → List (ℤ × List ℕ)
pending d = pending_from d.messages d.cur_element

-- Every message has elements, and the current element is one of the first message.
abbrev pub IsCurrent : List DownLink → ℕ → Type 0
IsCurrent [] cur = Unit
IsCurrent (m ∷ ms) cur = cur < length m.elements

pub record IsQueue (d : DownQueue) : Type 0 where
  pub nonempty : All (λ m. 0 < length m.elements) d.messages
  pub current : IsCurrent d.messages d.cur_element

pub drop-get_or :
    (xs : List (List ℕ)) (k : ℕ) → k < length xs → drop k xs ≡ get_or xs k [] ∷ drop (suc k) xs
drop-get_or [] k h = absurd (omega arith)
drop-get_or (x ∷ xs) zero h = refl
drop-get_or (x ∷ xs) (suc k) h = drop-get_or xs k (omega arith)

pub drop_all : (xs : List (List ℕ)) (k : ℕ) → length xs ≤ k → drop k xs ≡ []
drop_all [] zero h = refl
drop_all [] (suc k) h = refl
drop_all (x ∷ xs) zero h = absurd (omega arith)
drop_all (x ∷ xs) (suc k) h = drop_all xs k (omega arith)

pub pending-cons :
    (m : DownLink) (rest : List DownLink) (cur : ℕ)
    → cur < length m.elements
    → pending_from (m ∷ rest) cur
      ≡ (index_of (length m.elements) cur, get_or m.elements cur [])
        ∷ pending_from (m ∷ rest) (suc cur)
pending-cons m rest cur h = rw (drop-get_or m.elements cur h)

pub pending-end :
    (m : DownLink) (rest : List DownLink) (cur : ℕ)
    → length m.elements ≤ cur
    → pending_from (m ∷ rest) cur ≡ pending_of rest
pending-end m rest cur h = rw (drop_all m.elements cur h)

pub pending-start : (ms : List DownLink) → pending_from ms 0 ≡ pending_of ms
pending-start [] = refl
pending-start (m ∷ ms) = refl

pub IsCurrent-start : (ms : List DownLink) → All (λ m. 0 < length m.elements) ms → IsCurrent ms 0
IsCurrent-start [] h = tt
IsCurrent-start (m ∷ ms) h = h.0
