-- ===== src/Vnet/Switch/Transmit.antt =====
-- src/vnet/vnet_switch.c: `vnet_switch_tx` and the delivery of a frame to a port.
use wolf_trust_fork.Base.{
  ℕ, ◌+◌, ◌-◌, ◌%◌, ◌^◌, Bool, true, false, Option, none, some, ◌==◌, ltb, leb, not, ◌&&◌, ◌||◌,
  if◌then◌else◌, for_below, update,
}
use wolf_trust_fork.Vnet.State.{
  Mac, RxDesc, Ring, Frame, FramePool, Vnic, Switch, VnetStats, Status, success, failure,
  vnet_badarg, vnet_not_open, vnet_no_mac, vnet_frame_len, vnet_malformed, vnet_spoof,
  vnet_pool_full, vnet_notready, vnet_dropped_policy, vnet_dropped_unknown, is_success, set_vnic,
  count_both, count_malformed, count_spoof, count_pool_full, count_queue_full,
  count_unknown_unicast, count_policy, count_tx, count_rx, add32, no_vm, frame_min, frame_max,
}
use wolf_trust_fork.Vnet.Mac.{mac_is_zero, mac_is_multicast, mac_equals}
use wolf_trust_fork.Vnet.Ring.{ring_push}
use wolf_trust_fork.Vnet.Pool.{pool_alloc, pool_ref, pool_release, set_slot}
use wolf_trust_fork.Vnet.Fdb.{fdb_learn, fdb_lookup}
pub mod Private
pub mod Stages
pub mod Isolation

-- `memcpy(mac.b, &frame[at], VNET_MAC_LEN)`
abbrev pub mac_at : (ℕ → ℕ) → ℕ → Mac
mac_at frame at = record {
  b0 = frame at;
  b1 = frame (at + 1);
  b2 = frame (at + 2);
  b3 = frame (at + 3);
  b4 = frame (at + 4);
  b5 = frame (at + 5);
}

-- The head of the ring steps back over a push.
abbrev pub undo_push : Ring → Ring
undo_push r =
    if ltb 0 r.count
    then record r { head = if r.head == 0 then r.capacity - 1 else r.head - 1; count = r.count - 1 }
    else r

abbrev pub set_rxq : Switch → ℕ → Ring → Switch
set_rxq sw i r = set_vnic sw i (record (sw.vnics i) { rxq = r })

-- The frame counts as received by port `i`.
abbrev pub received : Switch → ℕ → ℕ → Switch
received sw i len =
    count_both (count_rx len) (set_vnic sw i (record (sw.vnics i) { rx_irq_pending = true })) i

-- `try_deliver_one` from the result of `vnet_pool_ref` on
abbrev pub deliver_counted : Switch → ℕ → ℕ → Status × FramePool → Status × Switch
deliver_counted sw i len (rc, pool) =
    let sw1 = record sw { pool = pool } in
    if not (is_success rc)
    then (failure vnet_notready, set_rxq sw1 i (undo_push (sw.vnics i).rxq))
    else (success 0, received sw1 i len)

-- `try_deliver_one` from the result of `vnet_ring_push` on
unfoldable pub deliver_pushed : Switch → ℕ → ℕ → ℕ → ℕ → Status × Ring → Status × Switch
deliver_pushed sw i slot gen len (rc, rxq) =
    let sw1 = set_rxq sw i rxq in
    if not (is_success rc)
    then (rc, count_both count_queue_full sw1 i)
    else deliver_counted sw1 i len (pool_ref sw.pool slot gen)

-- `try_deliver_one` to port `i`
unfoldable pub try_deliver_one : Switch → ℕ → ℕ → ℕ → ℕ → ℕ → Status × Switch
unfolding ring_push pool_ref deliver_pushed
try_deliver_one sw i slot gen len src_vm =
    let v = sw.vnics i in
    let desc : RxDesc = record { slot = slot; gen = gen; len = len; flags = 0; src_vm = src_vm } in
    if not v.is_open
    then (failure vnet_dropped_policy, sw)
    else deliver_pushed sw i slot gen len (ring_push v.rxq desc)

-- `if (try_deliver_one(...) == WT_VNET_OK) deliveries++;`
abbrev pub count_delivery : ℕ → Status × Switch → Switch × ℕ
count_delivery deliveries (rc, sw) = (sw, if is_success rc then add32 deliveries 1 else deliveries)

-- One round of the loops over all ports, on the switch and the number of deliveries.
unfoldable pub flood_round : ℕ → ℕ → ℕ → ℕ → ℕ → Switch × ℕ → Switch × ℕ
unfolding try_deliver_one
flood_round src_vm slot gen len i (sw, deliveries) =
    if i == src_vm
    then (sw, deliveries)
    else count_delivery deliveries (try_deliver_one sw i slot gen len src_vm)

unfoldable pub flood : Switch → ℕ → ℕ → ℕ → ℕ → Switch × ℕ
unfolding for_below flood_round
flood sw src_vm slot gen len = for_below sw.nvm (flood_round src_vm slot gen len) (sw, 0)

-- The part of `vnet_switch_tx` that hands the frame to its destinations.
unfoldable pub forward : Switch → ℕ → Mac → ℕ → ℕ → ℕ → Switch × ℕ
unfolding flood try_deliver_one fdb_lookup mac_is_multicast
forward sw src_vm dst_mac slot gen len =
    let dst_vm = fdb_lookup sw.fdb dst_mac in
    if mac_is_multicast dst_mac
    then flood sw src_vm slot gen len
    else if not (dst_vm == no_vm) && not (dst_vm == src_vm)
    then if leb sw.nvm dst_vm
      then (sw, 0)
      else count_delivery 0 (try_deliver_one sw dst_vm slot gen len src_vm)
    else if dst_vm == no_vm && sw.unknown_unicast_flood
    then flood sw src_vm slot gen len
    else (sw, 0)

-- `(void)vnet_pool_release(&sw->pool, slot, gen);`
abbrev pub drop_reference : Switch → ℕ → ℕ → Switch
drop_reference sw slot gen = record sw { pool = (pool_release sw.pool slot gen).1 }

-- The end of `vnet_switch_tx`, on the switch and the number of deliveries
unfoldable pub tx_finish : ℕ → Bool → ℕ → ℕ → Switch × ℕ → Status × Switch
unfolding pool_release
tx_finish src_vm dst_multicast slot gen (sw, deliveries) =
    let sw1 = drop_reference sw slot gen in
    if deliveries == 0
    then if not dst_multicast
      then (failure vnet_dropped_unknown, count_both count_unknown_unicast sw1 src_vm)
      else (failure vnet_dropped_policy, count_both count_policy sw1 src_vm)
    else (success 0, sw1)

-- The frame in its slot, and the sender's counters
abbrev pub store_frame : Switch → ℕ → ℕ → (ℕ → ℕ) → ℕ → Switch
store_frame sw src_vm slot frame len =
    let f = sw.pool.slots slot in
    let copied = λ (j : ℕ). if ltb j len then frame j else f.data_bytes j in
    let stored : Frame = record f {
      data_bytes = copied;
      len = len;
      src_vm = src_vm;
      dst_mask = 0;
    } in
    count_both (count_tx len) (record sw { pool = set_slot sw.pool slot stored }) src_vm

-- `vnet_switch_tx` from the result of `vnet_pool_alloc` on
unfoldable pub tx_allocated : Switch → ℕ → (ℕ → ℕ) → ℕ → Option (ℕ × FramePool) → Status × Switch
unfolding forward tx_finish pool_release mac_is_zero mac_is_multicast
tx_allocated sw src_vm frame len none =
    (failure vnet_pool_full, count_both count_pool_full sw src_vm)
tx_allocated sw src_vm frame len (some (slot, pool)) =
    let gen = (pool.slots slot).gen in
    let sw1 = store_frame (record sw { pool = pool }) src_vm slot frame len in
    let dst_mac = mac_at frame 0 in
    if mac_is_zero dst_mac
    then (failure vnet_malformed, drop_reference (count_both count_malformed sw1 src_vm) slot gen)
    else tx_finish src_vm (mac_is_multicast dst_mac) slot gen
        (forward sw1 src_vm dst_mac slot gen len)

-- `vnet_switch_tx` from the call of `vnet_fdb_learn` on
unfoldable pub tx_learned : Switch → ℕ → (ℕ → ℕ) → ℕ → ℕ → Status × Switch
unfolding tx_allocated pool_alloc fdb_learn
tx_learned sw src_vm frame len now_tick =
    let sw1 = record sw { fdb = (fdb_learn sw.fdb src_vm (mac_at frame 6)).1 } in
    tx_allocated sw1 src_vm frame len (pool_alloc sw.pool now_tick)

-- `vnet_switch_tx` from the checks of the source address on
unfoldable pub tx_sized : Switch → ℕ → (ℕ → ℕ) → ℕ → ℕ → Status × Switch
unfolding tx_learned mac_is_zero mac_is_multicast mac_equals
tx_sized sw src_vm frame len now_tick =
    let src_mac = mac_at frame 6 in
    if mac_is_zero src_mac || mac_is_multicast src_mac
    then (failure vnet_malformed, count_both count_malformed sw src_vm)
    else if not (mac_equals src_mac (sw.vnics src_vm).mac)
    then (failure vnet_spoof, count_both count_spoof sw src_vm)
    else tx_learned sw src_vm frame len now_tick

-- `vnet_switch_tx`
unfoldable pub switch_tx : Switch → ℕ → (ℕ → ℕ) → ℕ → ℕ → Status × Switch
unfolding tx_sized
switch_tx sw src_vm frame len now_tick =
    let src = sw.vnics src_vm in
    if leb sw.nvm src_vm
    then (failure vnet_badarg, sw)
    else if not src.is_open
    then (failure vnet_not_open, sw)
    else if not src.mac_set
    then (failure vnet_no_mac, count_both count_spoof sw src_vm)
    else if ltb len frame_min || ltb frame_max len
    then (failure vnet_frame_len, count_both count_malformed sw src_vm)
    else tx_sized sw src_vm frame len now_tick
