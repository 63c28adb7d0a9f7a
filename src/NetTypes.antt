-- ===== src/NetTypes.antt =====
-- spread-src-4.4.0/daemon/net_types.h:
-- the type words of packets and tokens, and the headers on the wire.
-- A type word is the bit pattern of an int32, a number below 2 ^ 32. Sequence numbers, lengths and
-- rounds are the non-negative values of their fields. A process id of -1 is `none`.
pub mod Bits
use tf.Prelude.{ℕ, ◌+◌, ◌-◌, ◌*◌, ◌/◌, ◌%◌, ◌^◌, Bool, not, ◌&&◌, ◌==◌, leb, List, Option}
use tf.Prelude.Int.{ℤ}

abbrev pub unreliable_type : ℕ
unreliable_type = 0x1

abbrev pub reliable_type : ℕ
reliable_type = 0x2

abbrev pub fifo_type : ℕ
fifo_type = 0x4

abbrev pub agreed_type : ℕ
agreed_type = 0x8

abbrev pub safe_type : ℕ
safe_type = 0x10

abbrev pub block_regular_delivery : ℕ
block_regular_delivery = 0x20

abbrev pub hurry_type : ℕ
hurry_type = 0x40

-- type & (1 << k)
unfoldable pub has_bit : ℕ → ℕ → Bool
has_bit k type = type / 2 ^ k % 2 == 1

unfoldable pub is_reliable : ℕ → Bool
unfolding has_bit
is_reliable = has_bit 1

unfoldable pub is_fifo : ℕ → Bool
unfolding has_bit
is_fifo = has_bit 2

unfoldable pub is_agreed : ℕ → Bool
unfolding has_bit
is_agreed = has_bit 3

unfoldable pub is_safe : ℕ → Bool
unfolding has_bit
is_safe = has_bit 4

-- type & REGULAR_TYPE, the number
unfoldable pub regular_of : ℕ → ℕ
regular_of type = type % 2 ^ 5

unfoldable pub is_regular : ℕ → Bool
unfolding regular_of
is_regular type = not (regular_of type == 0)

unfoldable pub is_hurry : ℕ → Bool
unfolding has_bit
is_hurry = has_bit 6

-- type & MEMBERSHIP_TYPE
unfoldable pub is_membership : ℕ → Bool
is_membership type = not (type / 2 ^ 8 % 2 ^ 3 == 0)

-- type & FORM_TYPE
unfoldable pub is_form : ℕ → Bool
is_form type = not (type / 2 ^ 12 % 2 ^ 2 == 0)

unfoldable pub get_arq : ℕ → ℕ
get_arq type = type / 2 ^ 16 % 2 ^ 4

-- (type & ~ARQ_TYPE) | ((val << 16) & ARQ_TYPE)
unfoldable pub set_arq : ℕ → ℕ → ℕ
set_arq type val = type - type / 2 ^ 16 % 2 ^ 4 * 2 ^ 16 + val % 2 ^ 4 * 2 ^ 16

unfoldable pub get_retrans : ℕ → ℕ
get_retrans type = type / 2 ^ 20 % 2 ^ 4

unfoldable pub set_retrans : ℕ → ℕ → ℕ
set_retrans type val = type - type / 2 ^ 20 % 2 ^ 4 * 2 ^ 20 + val % 2 ^ 4 * 2 ^ 20

unfoldable pub is_status : ℕ → Bool
unfolding has_bit
is_status = has_bit 24

unfoldable pub is_fc : ℕ → Bool
unfolding has_bit
is_fc = has_bit 26

unfoldable pub is_conf_reload : ℕ → Bool
unfolding has_bit
is_conf_reload = has_bit 27

-- daemon/arch.h
pub record MembershipId : Type 0 where
  pub proc_id : ℕ
  pub time : ℕ

-- A fragment header: 1, 2, … for the fragments of a message, and -n for the last of n.
pub record FragmentHeader : Type 0 where
  pub fragment_index : ℤ
  pub fragment_len : ℕ

pub record PacketHeader : Type 0 where
  pub type : ℕ
  pub transmiter_id : ℕ
  pub proc_id : ℕ
  pub memb_id : MembershipId
  pub seq : ℕ
  pub token_round : ℕ
  pub conf_hash : ℕ
  pub data_len : ℕ
  pub first_frag_header : FragmentHeader

-- The bytes of the body up to `data_len`.
abbrev pub PacketBody : Type 0
PacketBody = List ℕ

-- sizeof(packet_body): MAX_PACKET_SIZE less the header
abbrev pub sizeof_packet_body : ℕ
sizeof_packet_body = 1472 - 40

abbrev pub sizeof_fragment_header : ℕ
sizeof_fragment_header = 4

pub record TokenHeader : Type 0 where
  pub type : ℕ
  pub transmiter_id : ℕ
  pub proc_id : ℕ
  pub memb_id : MembershipId
  pub seq : ℕ
  pub aru : ℕ
  pub aru_last_id : ℕ
  pub flow_control : ℤ
  pub rtr_len : ℕ
  pub conf_hash : ℕ

abbrev pub sizeof_token_header : ℕ
sizeof_token_header = 40

abbrev pub sizeof_token_body : ℕ
sizeof_token_body = (2 ^ 16 - 1) - 20 - 8 - 40

abbrev pub sizeof_ring_rtr : ℕ
sizeof_ring_rtr = 16

-- A retransmission request on the token, with the sequence numbers that follow it there;
-- `num_seq` is their number. -1 is `none`.
pub record RingRtr : Type 0 where
  pub memb_id : MembershipId
  pub proc_id : Option ℕ
  pub seg_index : Option ℕ
  pub seqs : List ℕ

-- daemon/membership.c: Memb_is_equal
unfoldable pub memb_is_equal : MembershipId → MembershipId → Bool
memb_is_equal m1 m2 = m1.proc_id == m2.proc_id && m1.time == m2.time
