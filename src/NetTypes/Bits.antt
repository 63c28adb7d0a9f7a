-- ===== src/NetTypes/Bits.antt =====
-- The counters in a token's type word, spread-src-4.4.0/daemon/net_types.h.
use tf.Prelude.{ℕ, ◌%◌, ◌/◌, ◌^◌, ◌≡◌, arith, ◌<◌}
use tf.NetTypes.{get_arq, set_arq, get_retrans, set_retrans}

-- Setting the token's ARQ counter leaves its value modulo 16 there and keeps the retransmission
-- counter, the 16 bits below both counters and the bits above them; and the other way round.
pub set_arq-set_retrans_fields :
    (type val : ℕ)
    → (get_arq (set_arq type val) ≡ val % 16)
      × (get_retrans (set_arq type val) ≡ get_retrans type)
      × (set_arq type val % 2 ^ 16 ≡ type % 2 ^ 16)
      × (set_arq type val / 2 ^ 24 ≡ type / 2 ^ 24)
      × (get_retrans (set_retrans type val) ≡ val % 16)
      × (get_arq (set_retrans type val) ≡ get_arq type)
      × (set_retrans type val % 2 ^ 16 ≡ type % 2 ^ 16)
      × (set_retrans type val / 2 ^ 24 ≡ type / 2 ^ 24)
unfolding get_arq set_arq get_retrans set_retrans
set_arq-set_retrans_fields type val = omega arith

pub get_arq-set_arq : (type val : ℕ) → get_arq (set_arq type val) ≡ val % 16
get_arq-set_arq type val = (set_arq-set_retrans_fields type val).0

pub get_retrans-set_arq : (type val : ℕ) → get_retrans (set_arq type val) ≡ get_retrans type
get_retrans-set_arq type val = (set_arq-set_retrans_fields type val).1

pub get_retrans-set_retrans : (type val : ℕ) → get_retrans (set_retrans type val) ≡ val % 16
get_retrans-set_retrans type val = (set_arq-set_retrans_fields type val).4

pub get_arq-set_retrans : (type val : ℕ) → get_arq (set_retrans type val) ≡ get_arq type
get_arq-set_retrans type val = (set_arq-set_retrans_fields type val).5

pub get_arq-lt : (type : ℕ) → get_arq type < 16
unfolding get_arq
get_arq-lt type = omega arith
