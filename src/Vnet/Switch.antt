-- ===== src/Vnet/Switch.antt =====
-- src/vnet/vnet_switch.c: set-up, the opening of a guest's port, and the assignment of its address.
use wolf_trust_fork.Base.{
  ℕ, ◌-◌, Bool, true, false, ◌==◌, leb, not, ◌&&◌, if◌then◌else◌, map_cell, for_below, update,
}
use wolf_trust_fork.Vnet.State.{
  Mac, RxDesc, Ring, Frame, FramePool, FdbEntry, Fdb, VnetStats, Vnic, Switch, VnetInfo, VnetError,
  Status, success, failure, vnet_badarg, vnet_not_open, vnet_inval_mac, vnet_dup_mac, is_success,
  set_vnic, count_both, count_dup_mac, count_invalid_mac, frame_max,
}
use wolf_trust_fork.Vnet.Mac.{mac_is_local_unicast, mac_equals, mac_copy}
use wolf_trust_fork.Vnet.Ring.{ring_init}
use wolf_trust_fork.Vnet.Pool.{pool_init}
use wolf_trust_fork.Vnet.Fdb.{fdb_init, fdb_assign}
pub mod Keeps
pub mod Ports
pub mod Operations
pub mod Transmit
pub mod Receive

-- `memset(&stats, 0, sizeof(stats))`
abbrev pub zeroed_stats : VnetStats
zeroed_stats = record {
  tx_frames = 0;
  tx_bytes = 0;
  rx_frames = 0;
  rx_bytes = 0;
  drop_pool_full = 0;
  drop_queue_full = 0;
  drop_unknown_unicast = 0;
  drop_policy = 0;
  drop_timeout = 0;
  err_malformed = 0;
  err_spoof_src_mac = 0;
  err_dup_mac_assign = 0;
  err_invalid_mac_assign = 0;
  err_release = 0;
}

abbrev pub zeroed_mac : Mac
zeroed_mac = record { b0 = 0; b1 = 0; b2 = 0; b3 = 0; b4 = 0; b5 = 0 }

-- `vnic_reset`
abbrev pub vnic_reset : (ℕ → RxDesc) → ℕ → Vnic
vnic_reset ring_storage ring_capacity = record {
  is_open = false;
  mac_set = false;
  mac = zeroed_mac;
  mtu = frame_max;
  rx_irq_pending = false;
  rxq = ring_init ring_storage ring_capacity;
  stats = zeroed_stats;
}

-- The loop of `vnet_switch_init`
unfoldable pub reset_vnics : (ℕ → ℕ → RxDesc) → ℕ → ℕ → (ℕ → Vnic) → ℕ → Vnic
unfolding for_below
reset_vnics rings ring_capacity n vnics =
    for_below n (λ i vs. update vs i (vnic_reset (rings i) ring_capacity)) vnics

-- `vnet_switch_init` on the switch `sw`
unfoldable pub switch_init :
    Switch
    → (ℕ → Vnic)
    → ℕ
    → (ℕ → Frame)
    → ℕ
    → (ℕ → FdbEntry)
    → ℕ
    → (ℕ → ℕ → RxDesc)
    → ℕ
    → Bool
    → Status × Switch
unfolding reset_vnics
switch_init sw vnics nvm frames frame_count fdb_storage fdb_capacity rings ring_capacity flood =
    if nvm == 0
    then (failure vnet_badarg, sw)
    else if frame_count == 0
    then (failure vnet_badarg, sw)
    else if fdb_capacity == 0
    then (failure vnet_badarg, sw)
    else if ring_capacity == 0
    then (failure vnet_badarg, sw)
    else (
      success 0,
      record {
        vnics = reset_vnics rings ring_capacity nvm vnics;
        nvm = nvm;
        pool = pool_init frames frame_count;
        fdb = fdb_init fdb_storage fdb_capacity;
        unknown_unicast_flood = flood;
        global_stats = zeroed_stats;
      },
    )

-- What `vnet_switch_open` reports of a port: `WT_VNET_ABI_VERSION`, no features, `WT_VNET_RX_IRQ`
abbrev pub info_of : Vnic → VnetInfo
info_of v = record {
  abi_version = 1;
  features = 0;
  mtu = v.mtu;
  rx_irq = 130;
  default_mac = if v.mac_set then mac_copy v.mac else zeroed_mac;
  mac_set = v.mac_set;
}

-- `vnet_switch_open`; the report is meaningful if the status is `WT_VNET_OK`
unfoldable pub switch_open : Switch → ℕ → Status × VnetInfo × Switch
unfolding mac_copy
switch_open sw vm_id =
    let v = sw.vnics vm_id in
    if leb sw.nvm vm_id
    then (failure vnet_badarg, info_of v, sw)
    else (success 0, info_of v, set_vnic sw vm_id (record v { is_open = true }))

-- The counter that a refusal of `vnet_fdb_assign` steps
abbrev pub count_refusal : Status → Switch → ℕ → Switch
count_refusal (failure vnet_dup_mac) sw vm_id = count_both count_dup_mac sw vm_id
count_refusal (failure vnet_inval_mac) sw vm_id = count_both count_invalid_mac sw vm_id
count_refusal _ sw vm_id = sw

-- `vnet_switch_assign_mac` from the result of `vnet_fdb_assign` on
abbrev pub assigned_mac : Switch → ℕ → Mac → Status × Fdb → Status × Switch
assigned_mac sw vm_id mac (rc, fdb) =
    let sw1 = record sw { fdb = fdb } in
    let own = record (sw.vnics vm_id) { mac = mac_copy mac; mac_set = true } in
    if not (is_success rc)
    then (rc, count_refusal rc sw1 vm_id)
    else (success 0, set_vnic sw1 vm_id own)

-- `vnet_switch_assign_mac`
unfoldable pub switch_assign_mac : Switch → ℕ → Mac → Status × Switch
unfolding mac_is_local_unicast mac_equals mac_copy fdb_assign
switch_assign_mac sw vm_id mac =
    let v = sw.vnics vm_id in
    if leb sw.nvm vm_id
    then (failure vnet_badarg, sw)
    else if not v.is_open
    then (failure vnet_not_open, sw)
    else if not (mac_is_local_unicast mac)
    then (failure vnet_inval_mac, count_both count_invalid_mac sw vm_id)
    else if v.mac_set && not (mac_equals v.mac mac)
    then (failure vnet_dup_mac, count_both count_dup_mac sw vm_id)
    else assigned_mac sw vm_id mac (fdb_assign sw.fdb vm_id mac)
