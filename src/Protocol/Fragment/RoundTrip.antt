-- ===== src/Protocol/Fragment/RoundTrip.antt =====
-- add_fragment and later_messages of spread-src-4.4.0/daemon/protocol.c, one behind the other.
use tf.Prelude.{
  ℕ, zero, suc, ◌+◌, ◌^◌, ◌≤◌, ◌<◌, ◌≡◌, arith, List, [], ◌∷◌, ◌++◌, length, get_or, take, drop,
  replicate, length-append, length-replicate, take-append_left, drop-append_add, get_or-append_add,
  ap, ap₂, sym, ◌∙◌, append-nil, append_assoc, All,
}
use native.Mathlib.Nat.{add_assoc}
use tf.Prelude.Int.{ℤ}
use tf.Protocol.Fragment.{
  padding_bytes, int16_word, bytes_of, read_int16, add_fragment, later_messages,
}

-- The fragments behind the first, one by one.
abbrev pub add_all : List ℕ → List (ℤ × List ℕ) → List ℕ
add_all body [] = body
add_all body ((index, element) ∷ es) = add_all (add_fragment body index element) es

abbrev pub elements_of : List (ℤ × List ℕ) → List (List ℕ)
elements_of [] = []
elements_of ((index, element) ∷ es) = element ∷ elements_of es

abbrev pub IsShort : ℤ × List ℕ → Type 0
IsShort e = length e.1 < 2 ^ 15

-- The body with the padding behind it.
padded : List ℕ → List ℕ
padded body = body ++ replicate (padding_bytes (length body)) 0

length-padded : (body : List ℕ) → length (padded body) ≡ length body + padding_bytes (length body)
unfolding padded
length-padded body =
    let n = padding_bytes (length body) in
    length-append body (replicate n 0) ∙ ap (λ k. length body + k) (length-replicate n 0)

header_of : ℤ → List ℕ → List ℕ
header_of index element = bytes_of (int16_word index) ++ bytes_of (length element)

-- A fragment in front of whatever follows it, in its parts.
add_fragment-append :
    (body : List ℕ) (index : ℤ) (element t : List ℕ)
    → add_fragment body index element ++ t
      ≡ padded body ++ (header_of index element ++ (element ++ t))
unfolding add_fragment padded header_of
add_fragment-append body index element t = simp append_assoc

pub length-add_fragment :
    (body : List ℕ) (index : ℤ) (element : List ℕ)
    → length (add_fragment body index element)
      ≡ length body + padding_bytes (length body) + 4 + length element
unfolding header_of
length-add_fragment body index element =
    let whole = add_fragment-append body index element [] in
    omega (
      arith,
      ap length whole,
      length-append (add_fragment body index element) [],
      length-append (padded body) (header_of index element ++ (element ++ [])),
      length-append element [],
      length-padded body,
    )

add_all-append :
    (body : List ℕ) (es : List (ℤ × List ℕ)) → (t : List ℕ) × (add_all body es ≡ body ++ t)
unfolding padded
add_all-append body [] = ([], sym (append-nil body))
add_all-append body ((index, element) ∷ es) =
    let (t, e) = add_all-append (add_fragment body index element) es in
    let rest = header_of index element ++ (element ++ t) in
    (
      replicate (padding_bytes (length body)) 0 ++ rest,
      e ∙ add_fragment-append body index element t ∙ append_assoc body _ rest,
    )

-- One round of the loop that reads a fragment of `len` bytes.
later_messages-cons :
    (fuel data_len : ℕ) (body : List ℕ) (p len : ℕ)
    → read_int16 body (p + padding_bytes p + 2) ≡ len
    → p < data_len
    → p + padding_bytes p + 4 + len ≤ data_len
    → later_messages (suc fuel) data_len body p
      ≡ take len (drop (p + padding_bytes p + 4) body)
        ∷ later_messages fuel data_len body (p + padding_bytes p + 4 + len)
unfolding later_messages
later_messages-cons fuel data_len body p len e h k = rw e (ground arith)

-- What stands at the place of a fragment.
module _ (body : List ℕ) (index : ℤ) (element t : List ℕ) where
  abbrev at : ℕ
  at = length body + padding_bytes (length body)

  read_int16-fragment :
      length element < 2 ^ 15
      → read_int16 (add_fragment body index element ++ t) (at + 2) ≡ length element
  unfolding header_of
  read_int16-fragment h =
      rw (add_fragment-append, ← length-padded)
        (let rest = header_of index element ++ (element ++ t) in
          omega (
            arith,
            get_or-append_add (padded body) rest 2 0,
            get_or-append_add (padded body) rest 3 0,
            ap (λ k. get_or (padded body ++ rest) k 0) (add_assoc (length (padded body)) 2 1),
          ))

  drop-fragment : drop (at + 4) (add_fragment body index element ++ t) ≡ element ++ t
  unfolding header_of
  drop-fragment =
      rw (add_fragment-append, ← length-padded)
        (drop-append_add (padded body) (header_of index element ++ (element ++ t)) 4)

pub length-le-add_all :
    (body : List ℕ) (es : List (ℤ × List ℕ)) → length body ≤ length (add_all body es)
length-le-add_all body es =
    let (t, e) = add_all-append body es in omega (arith, ap length e, length-append body t)

-- One round over a fragment that was added, and over nothing the other rounds.
later_messages-add_fragment :
    (fuel : ℕ) (body : List ℕ) (index : ℤ) (element : List ℕ) (es : List (ℤ × List ℕ))
    → length element < 2 ^ 15
    → let next = add_fragment body index element in
      let whole = add_all next es in
      later_messages (suc fuel) (length whole) whole (length body)
      ≡ element ∷ later_messages fuel (length whole) whole (length next)
later_messages-add_fragment fuel body index element es h =
    let next = add_fragment body index element in
    let whole = add_all next es in
    let (t, e) = add_all-append next es in
    let long = length-add_fragment body index element in
    later_messages-cons fuel (length whole) whole (length body) (length element)
      (rw e (read_int16-fragment body index element t h))
      (omega (arith, length-le-add_all next es, long))
      (omega (arith, length-le-add_all next es, long))
    ∙ ap₂ ◌∷◌ (rw (e, drop-fragment) (take-append_left element t))
        (ap (later_messages fuel (length whole) whole) (sym long))

pub later_messages_add :
    (fuel : ℕ) (body : List ℕ) (es : List (ℤ × List ℕ))
    → length (add_all body es) ≤ length body + fuel
    → All IsShort es
    → later_messages (suc fuel) (length (add_all body es)) (add_all body es) (length body)
      ≡ elements_of es
unfolding later_messages
later_messages_add fuel body [] h s = ground arith
later_messages_add zero body ((index, element) ∷ es) h s = absurd (
    omega (
      arith,
      length-add_fragment body index element,
      length-le-add_all (add_fragment body index element) es,
    ))
later_messages_add (suc fuel) body ((index, element) ∷ es) h s =
    later_messages-add_fragment (suc fuel) body index element es s.0
    ∙ ap (λ ms. element ∷ ms)
        (later_messages_add fuel (add_fragment body index element) es
          (omega (arith, length-add_fragment body index element)) s.1)
