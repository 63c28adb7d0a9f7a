-- ===== src/Protocol/Fragment.antt =====
-- spread-src-4.4.0/daemon/protocol.c:
-- how Send_new_packets fills the body of a packet with fragments, and how
-- Deliver_packet takes them out again.
-- A body is the list of its bytes up to `data_len`. The padding bytes keep what the buffer held;
-- here they are 0. The two int16 of a fragment header stand in little-endian order.
pub mod RoundTrip
pub mod Pending
pub mod Fill
use tf.Prelude.{
  ℕ, zero, suc, ◌+◌, ◌-◌, ◌*◌, ◌/◌, ◌%◌, ◌^◌, Bool, true, false, not, ◌&&◌, ◌||◌, ◌==◌, ltb, leb,
  if◌then◌else◌, Option, none, some, List, [], ◌∷◌, ◌++◌, length, get_or, take, drop, replicate,
}
use tf.Prelude.Int.{ℤ, pos, negsuc}
use tf.NetTypes.{is_fifo, is_agreed, sizeof_packet_body, sizeof_fragment_header}

-- The switch over `n % 4`.
unfoldable pub padding_bytes : ℕ → ℕ
padding_bytes n = if n % 4 == 0 then 0 else 4 - n % 4

-- (int16) of an integer, as its two bytes.
unfoldable pub int16_word : ℤ → ℕ
int16_word (pos n) = n % 2 ^ 16
int16_word (negsuc n) = 2 ^ 16 - 1 - n % 2 ^ 16

abbrev pub bytes_of : ℕ → List ℕ
bytes_of w = (w % 256) ∷ (w / 256 % 256) ∷ []

abbrev pub read_int16 : List ℕ → ℕ → ℕ
read_int16 body at = get_or body at 0 + get_or body (at + 1) 0 * 256

-- Appends a fragment: padding up to a multiple of 4, its header, its bytes.
unfoldable pub add_fragment : List ℕ → ℤ → List ℕ → List ℕ
unfolding padding_bytes int16_word
add_fragment body index element =
    body
    ++ (replicate (padding_bytes (length body)) 0
        ++ (bytes_of (int16_word index) ++ (bytes_of (length element) ++ element)))

-- protocol.h: down_link, a message on its way to the network, in elements.
pub record DownLink : Type 0 where
  pub type : ℕ
  pub elements : List (List ℕ)

-- Calls into session.c.
pub data LevelCall : Type 0 where
  block_users_level unblock_users_level : LevelCall

-- protocol.h: down_queue. `num_mess` is the length; `calls` are the calls made so far.
pub record DownQueue : Type 0 where
  pub messages : List DownLink
  pub cur_element : ℕ
  pub calls : List LevelCall

abbrev pub water_mark : ℕ
water_mark = 500

-- The down queue moves on to the next element, from a first message `m`. Returns the fragment index
-- of the element just taken; `none` is `Alarm( EXIT )`.
unfoldable pub advance : DownLink → List DownLink → DownQueue → Option (ℤ × DownQueue)
advance m rest d =
    let cur = d.cur_element + 1 in
    if ltb cur (length m.elements)
    then some (pos cur, record d { cur_element = cur })
    else if cur == length m.elements
    then some (
      negsuc (length m.elements - 1),
      record {
        messages = rest;
        cur_element = 0;
        calls =
            if ltb (length rest) water_mark then d.calls ++ (unblock_users_level ∷ []) else d.calls;
      },
    )
    else none

-- Does another element fit behind the body? The source's comparison is of signed numbers.
unfoldable pub fits : List ℕ → List ℕ → Bool
unfolding padding_bytes
fits body element =
    leb (length body + padding_bytes (length body) + sizeof_fragment_header + length element)
      sizeof_packet_body

unfoldable pub compatible : ℕ → ℕ → Bool
unfolding is_fifo is_agreed
compatible t u = t == u || (is_fifo t || is_agreed t) && (is_fifo u || is_agreed u)

-- What the inner loop of Send_new_packets ends with.
pub data Filling : Type 0 where
  filled : (body : List ℕ) → DownQueue → Filling
  exit : Filling
  out_of_fuel : Filling

-- The loop goes on if `advance` did not end the process.
abbrev pub on_advanced : (ℤ → DownQueue → Filling) → Option (ℤ × DownQueue) → Filling
on_advanced more none = exit
on_advanced more (some (index, d)) = more index d

-- The inner loop, from behind the first `advance`: fragments are added until one of the three
-- reasons to stop.
unfoldable pub fill : ℕ → ℕ → List ℕ → DownQueue → Filling
unfolding advance fits compatible add_fragment
fill zero type body d = out_of_fuel
fill (suc fuel) type body d = elim d.messages [
  | [] ↦ filled body d
  | m ∷ rest ↦
      if not (fits body (get_or m.elements d.cur_element []))
      then filled body d
      else if not (compatible type m.type)
      then filled body d
      else on_advanced
          (λ index d'.
            fill fuel type (add_fragment body index (get_or m.elements d.cur_element [])) d')
          (advance m rest d)
]

-- The first loop of Deliver_packet: the messages behind the first fragment, from `processed` on. It
-- stops at a fragment that reaches beyond `data_len`.
unfoldable pub later_messages : ℕ → ℕ → List ℕ → ℕ → List (List ℕ)
unfolding padding_bytes
later_messages zero data_len body processed = []
later_messages (suc fuel) data_len body processed =
    let at = processed + padding_bytes processed in
    let start = at + sizeof_fragment_header in
    let len = read_int16 body (at + 2) in
    let rest = take len (drop start body) ∷ later_messages fuel data_len body (start + len) in
    if ltb processed data_len then (if ltb data_len (start + len) then [] else rest) else []
