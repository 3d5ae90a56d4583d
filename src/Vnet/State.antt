-- ===== src/Vnet/State.antt =====
-- The data of include/wolftrust/vnet/*.h and the status codes.
use wolf_trust_fork.Base.{ℕ, ◌^◌, ◌-◌, ◌+◌, ◌%◌, Bool, true, false, update, ◌==◌}

-- `vnet_mac_t`, whose array of six bytes is six fields
pub record Mac : Type 0 where
  pub b0 : ℕ
  pub b1 : ℕ
  pub b2 : ℕ
  pub b3 : ℕ
  pub b4 : ℕ
  pub b5 : ℕ

-- `vnet_rx_desc_t`
pub record RxDesc : Type 0 where
  pub slot : ℕ
  pub gen : ℕ
  pub len : ℕ
  pub flags : ℕ
  pub src_vm : ℕ

-- `vnet_ring_t`
pub record Ring : Type 0 where
  pub buf : ℕ → RxDesc
  pub capacity : ℕ
  pub head : ℕ
  pub tail : ℕ
  pub count : ℕ

-- `vnet_frame_t`
pub record Frame : Type 0 where
  pub len : ℕ
  pub gen : ℕ
  pub refcnt : ℕ
  pub flags : ℕ
  pub src_vm : ℕ
  pub dst_mask : ℕ
  pub born_tick : ℕ
  pub data_bytes : ℕ → ℕ

-- `vnet_pool_t`
pub record FramePool : Type 0 where
  pub slots : ℕ → Frame
  pub slot_count : ℕ
  pub in_use_count : ℕ

-- `vnet_fdb_kind_t`
pub data FdbKind : Type 0 where
  fdb_empty fdb_assigned fdb_learned : FdbKind

-- `vnet_fdb_entry_t`
pub record FdbEntry : Type 0 where
  pub mac : Mac
  pub guest_id : ℕ
  pub kind : FdbKind

-- `vnet_fdb_t`
pub record Fdb : Type 0 where
  pub entries : ℕ → FdbEntry
  pub capacity : ℕ

-- `vnet_stats_t`
pub record VnetStats : Type 0 where
  pub tx_frames : ℕ
  pub tx_bytes : ℕ
  pub rx_frames : ℕ
  pub rx_bytes : ℕ
  pub drop_pool_full : ℕ
  pub drop_queue_full : ℕ
  pub drop_unknown_unicast : ℕ
  pub drop_policy : ℕ
  pub drop_timeout : ℕ
  pub err_malformed : ℕ
  pub err_spoof_src_mac : ℕ
  pub err_dup_mac_assign : ℕ
  pub err_invalid_mac_assign : ℕ
  pub err_release : ℕ

-- `vnet_vnic_t`. The C name `open` is `is_open` here.
pub record Vnic : Type 0 where
  pub is_open : Bool
  pub mac_set : Bool
  pub mac : Mac
  pub mtu : ℕ
  pub rx_irq_pending : Bool
  pub rxq : Ring
  pub stats : VnetStats

-- `vnet_switch_t`
pub record Switch : Type 0 where
  pub vnics : ℕ → Vnic
  pub nvm : ℕ
  pub pool : FramePool
  pub fdb : Fdb
  pub unknown_unicast_flood : Bool
  pub global_stats : VnetStats

-- The negative codes of vnet_errors.h
pub data VnetError : Type 0 where
  vnet_badarg vnet_notready vnet_access vnet_not_open vnet_inval_mac vnet_dup_mac vnet_no_mac
        vnet_spoof vnet_frame_len vnet_malformed vnet_pool_full vnet_queue_full vnet_empty
        vnet_stale_cookie vnet_not_owner vnet_double_release vnet_dropped_unknown
        vnet_dropped_policy :
      VnetError

-- The `int` that an operation returns: a count from 0, `WT_VNET_OK` being 0, or an error.
pub data Status : Type 0 where
  success : ℕ → Status
  failure : VnetError → Status

-- `rc == WT_VNET_OK`
abbrev pub is_success : Status → Bool
is_success (success n) = n == 0
is_success (failure e) = false

-- `rc < 0`
abbrev pub is_failure : Status → Bool
is_failure (success n) = false
is_failure (failure e) = true

abbrev pub is_empty : FdbKind → Bool
is_empty fdb_empty = true
is_empty _ = false

abbrev pub is_assigned : FdbKind → Bool
is_assigned fdb_assigned = true
is_assigned _ = false

abbrev pub is_learned : FdbKind → Bool
is_learned fdb_learned = true
is_learned _ = false

-- `VNET_FDB_NO_VM`
abbrev pub no_vm : ℕ
no_vm = 2 ^ 32 - 1

-- `WT_VNET_FRAME_MAX` and `WT_VNET_FRAME_MIN`
abbrev pub frame_max : ℕ
frame_max = 1536

abbrev pub frame_min : ℕ
frame_min = 14

-- `x++` and `x += n` on 16 and 32 bits
abbrev pub inc16 : ℕ → ℕ
inc16 n = (n + 1) % 2 ^ 16

abbrev pub add32 : ℕ → ℕ → ℕ
add32 n k = (n + k) % 2 ^ 32

abbrev pub set_vnic : Switch → ℕ → Vnic → Switch
set_vnic sw i v = record sw { vnics = update sw.vnics i v }

-- `vnet_info_t`
pub record VnetInfo : Type 0 where
  pub abi_version : ℕ
  pub features : ℕ
  pub mtu : ℕ
  pub rx_irq : ℕ
  pub default_mac : Mac
  pub mac_set : Bool

-- `vnet_rx_meta_t`
pub record RxMeta : Type 0 where
  pub token_slot : ℕ
  pub token_gen : ℕ
  pub len : ℕ
  pub flags : ℕ
  pub src_vm : ℕ

-- The counters that an operation steps, both a guest's and the switch's.
abbrev pub count_malformed : VnetStats → VnetStats
count_malformed s = record s { err_malformed = add32 s.err_malformed 1 }

abbrev pub count_spoof : VnetStats → VnetStats
count_spoof s = record s { err_spoof_src_mac = add32 s.err_spoof_src_mac 1 }

abbrev pub count_dup_mac : VnetStats → VnetStats
count_dup_mac s = record s { err_dup_mac_assign = add32 s.err_dup_mac_assign 1 }

abbrev pub count_invalid_mac : VnetStats → VnetStats
count_invalid_mac s = record s { err_invalid_mac_assign = add32 s.err_invalid_mac_assign 1 }

abbrev pub count_release : VnetStats → VnetStats
count_release s = record s { err_release = add32 s.err_release 1 }

abbrev pub count_pool_full : VnetStats → VnetStats
count_pool_full s = record s { drop_pool_full = add32 s.drop_pool_full 1 }

abbrev pub count_queue_full : VnetStats → VnetStats
count_queue_full s = record s { drop_queue_full = add32 s.drop_queue_full 1 }

abbrev pub count_unknown_unicast : VnetStats → VnetStats
count_unknown_unicast s = record s { drop_unknown_unicast = add32 s.drop_unknown_unicast 1 }

abbrev pub count_policy : VnetStats → VnetStats
count_policy s = record s { drop_policy = add32 s.drop_policy 1 }

abbrev pub count_tx : ℕ → VnetStats → VnetStats
count_tx len s = record s { tx_frames = add32 s.tx_frames 1; tx_bytes = add32 s.tx_bytes len }

abbrev pub count_rx : ℕ → VnetStats → VnetStats
count_rx len s = record s { rx_frames = add32 s.rx_frames 1; rx_bytes = add32 s.rx_bytes len }

-- `v->stats.X++; sw->global_stats.X++;`
abbrev pub count_both : (VnetStats → VnetStats) → Switch → ℕ → Switch
count_both f sw i = record (set_vnic sw i (record (sw.vnics i) { stats = f (sw.vnics i).stats })) {
  global_stats = f sw.global_stats;
}
