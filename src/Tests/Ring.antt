-- ===== src/Tests/Ring.antt =====
-- The configuration, the windows and the type words at concrete inputs.
use tf.Prelude.{ℕ, ◌%◌, ◌/◌, ◌^◌, ◌≡◌, ◌⊎◌, refl, arith, some, [], ◌∷◌}
use tf.Prelude.Int.{pos, ◌≤ℤ◌, ◌+ℤ◌, ◌-ℤ◌}
use tf.Configuration.{
  leader, last, num_procs, previous, proc_by_id_in_conf, config_copy, id_in_seg, has_ip,
}
use tf.Configuration.Ring.{Standing, ring, first_of, last_of, leader-last_lem, previous_lem}
use tf.Configuration.Copy.{Found, IsOwn, proc_by_id_in_conf-Found, config_copy_lem}
use tf.NetTypes.{get_arq, set_arq, get_retrans, set_retrans}
use tf.NetTypes.Bits.{set_arq-set_retrans_fields}
use tf.FlowControl.{MembState, allowed}
use tf.FlowControl.Bounds.{allowed_bounds}
use tf.Tests.Data.{daemon, config, first_segment, empty_segment, last_segment, idle}

-- The first daemon of the ring follows the last, over the empty segment.
previous-wraps : previous (daemon 10 0 0) config ≡ some 30
unfolding previous id_in_seg
previous-wraps = refl

ring-config : ring config ≡ 10 ∷ 20 ∷ 30 ∷ []
ring-config = refl

first_Standing :
    Standing config
      (daemon 10 0 0)
      []
      (empty_segment ∷ last_segment ∷ [])
      first_segment
      []
      (daemon 20 0 1 ∷ [])
unfolding id_in_seg
first_Standing = record { segments = refl; procs = refl; seg_index = refl; found = refl }

previous_lem_example : previous (daemon 10 0 0) config ≡ last_of (10 ∷ 20 ∷ 30 ∷ [])
previous_lem_example = previous_lem first_Standing

leader-last_lem_example :
    (leader config ≡ first_of (10 ∷ 20 ∷ 30 ∷ []))
    × (last config ≡ last_of (10 ∷ 20 ∷ 30 ∷ []))
    × (num_procs config ≡ 3)
leader-last_lem_example = leader-last_lem config

proc_by_id_in_conf-Found_example : Found config.allprocs 20 0 (proc_by_id_in_conf config 20)
proc_by_id_in_conf-Found_example = proc_by_id_in_conf-Found config 20

IsOwn-daemon_10 : IsOwn config.allprocs (daemon 10 0 0)
unfolding has_ip
IsOwn-daemon_10 = record {
  place = 0;
  here = refl;
  has = refl;
  alone = (λ _. refl, (λ e. absurd (cc e), (λ e. absurd (cc e), tt)));
}

IsOwn-daemon_20 : IsOwn config.allprocs (daemon 20 0 1)
unfolding has_ip
IsOwn-daemon_20 = record {
  place = 1;
  here = refl;
  has = refl;
  alone = (λ e. absurd (cc e), (λ _. refl, (λ e. absurd (cc e), tt)));
}

IsOwn-daemon_30 : IsOwn config.allprocs (daemon 30 2 0)
unfolding has_ip
IsOwn-daemon_30 = record {
  place = 2;
  here = refl;
  has = refl;
  alone = (λ e. absurd (cc e), (λ e. absurd (cc e), (λ _. refl, tt)));
}

config_copy_lem_example : config_copy config ≡ some config
config_copy_lem_example =
    config_copy_lem config
      ((IsOwn-daemon_10, (IsOwn-daemon_20, tt)), (tt, ((IsOwn-daemon_30, tt), tt)))

allowed_bounds_example :
    let fc = idle.flow_control in
    let n = allowed fc MembState.op 100 50 (pos 70) in
    (pos 0 ≤ℤ n) × (n ≤ℤ pos 60) × (n ≤ℤ pos 15) × ((n ≡ pos 0) ⊎ (n +ℤ pos 70 ≤ℤ pos 60 +ℤ pos 15))
allowed_bounds_example =
    allowed_bounds idle.flow_control MembState.op 100 50 (pos 70) (omega arith) (omega arith)

-- Five packets are what is left of both windows.
allowed-5 : allowed idle.flow_control MembState.op 100 50 (pos 70) ≡ pos 5
unfolding allowed ◌+ℤ◌ ◌-ℤ◌
allowed-5 = refl

abbrev word : ℕ
word = 0x00370080

set_arq-set_retrans_fields_example :
    (get_arq (set_arq word 17) ≡ 17 % 16)
    × (get_retrans (set_arq word 17) ≡ get_retrans word)
    × (set_arq word 17 % 2 ^ 16 ≡ word % 2 ^ 16)
    × (set_arq word 17 / 2 ^ 24 ≡ word / 2 ^ 24)
    × (get_retrans (set_retrans word 17) ≡ 17 % 16)
    × (get_arq (set_retrans word 17) ≡ get_arq word)
    × (set_retrans word 17 % 2 ^ 16 ≡ word % 2 ^ 16)
    × (set_retrans word 17 / 2 ^ 24 ≡ word / 2 ^ 24)
set_arq-set_retrans_fields_example = set_arq-set_retrans_fields word 17
