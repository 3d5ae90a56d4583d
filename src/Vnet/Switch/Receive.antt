-- ===== src/Vnet/Switch/Receive.antt =====
-- src/vnet/vnet_switch.c: what a guest does with its received frames, and the expiry of frames.
use wolf_trust_fork.Base.{
  ℕ, zero, suc, Bool, true, false, Option, none, some, ◌==◌, ltb, leb, not, ◌||◌, if◌then◌else◌,
  for_below,
}
use wolf_trust_fork.Vnet.State.{
  RxDesc, RxMeta, Ring, Frame, FramePool, Vnic, Switch, Status, success, failure, vnet_badarg,
  vnet_not_open, vnet_empty, vnet_not_owner, vnet_stale_cookie, is_success, is_failure, set_vnic,
  count_both, count_release, add32,
}
use wolf_trust_fork.Vnet.Ring.{ring_peek, ring_drop_head, ring_empty}
use wolf_trust_fork.Vnet.Pool.{pool_slot, pool_release, pool_drop_expired}
pub mod Stale

-- `vnet_pool_slot(&sw->pool, desc.slot, desc.gen) != NULL`
abbrev pub is_some : Option Frame → Bool
is_some none = false
is_some (some f) = true

unfoldable pub is_live : FramePool → RxDesc → Bool
unfolding pool_slot
is_live pool desc = is_some (pool_slot pool desc.slot desc.gen)

-- One round of `skip_stale_head`, on what the peek returned; `rest` is what the next rounds make of
-- the ring without its head.
abbrev pub skip_found : FramePool → Ring → Ring → Status × Option RxDesc → Ring
skip_found pool r rest (success n, some desc) = if is_live pool desc then r else rest
skip_found pool r rest (success n, none) = r
skip_found pool r rest (failure e, o) = r

-- The loop of `skip_stale_head`, for at most as many rounds as the first argument says.
unfoldable pub skip_stale : ℕ → FramePool → Ring → Ring
unfolding ring_peek ring_drop_head is_live
skip_stale zero pool r = r
skip_stale (suc n) pool r =
    let rest = skip_stale n pool (ring_drop_head r).1 in skip_found pool r rest (ring_peek r)

-- `skip_stale_head` on the port's queue: a round for each frame in it
abbrev pub skipped : FramePool → Vnic → Vnic
skipped pool v = record v { rxq = skip_stale v.rxq.count pool v.rxq }

abbrev pub skip_stale_head : Switch → ℕ → Switch
skip_stale_head sw i = set_vnic sw i (skipped sw.pool (sw.vnics i))

-- `v->rx_irq_pending = b;`
abbrev pub set_pending : Switch → ℕ → Bool → Switch
set_pending sw i b = set_vnic sw i (record (sw.vnics i) { rx_irq_pending = b })

abbrev pub meta_of : RxDesc → RxMeta
meta_of desc = record {
  token_slot = desc.slot;
  token_gen = desc.gen;
  len = desc.len;
  flags = desc.flags;
  src_vm = desc.src_vm;
}

-- The end of `vnet_switch_poll_rx`, on what the peek returned
abbrev pub poll_found : Switch → Status × Option RxDesc → Status × Option RxMeta × Switch
poll_found sw (success n, some desc) = (success 0, some (meta_of desc), sw)
poll_found sw (rc, o) = (rc, none, sw)

-- `vnet_switch_poll_rx`
unfoldable pub switch_poll_rx : Switch → ℕ → Status × Option RxMeta × Switch
unfolding skip_stale ring_peek
switch_poll_rx sw vm_id =
    let sw1 = skip_stale_head sw vm_id in
    let rxq = (sw1.vnics vm_id).rxq in
    if leb sw.nvm vm_id
    then (failure vnet_badarg, none, sw)
    else if not (sw.vnics vm_id).is_open
    then (failure vnet_not_open, none, sw)
    else if ring_empty rxq
    then (failure vnet_empty, none, set_pending sw1 vm_id false)
    else poll_found sw1 (ring_peek rxq)

-- The end of `vnet_switch_read_rx`, on what `vnet_pool_slot` returned: the status and the buffer
abbrev pub copy_frame : (ℕ → ℕ) → ℕ → Option Frame → Status × (ℕ → ℕ)
copy_frame dst dst_len none = (failure vnet_stale_cookie, dst)
copy_frame dst dst_len (some f) =
    if ltb dst_len f.len
    then (failure vnet_badarg, dst)
    else (success f.len, λ j. if ltb j f.len then f.data_bytes j else dst j)

-- The same on what the peek returned
abbrev pub read_found : FramePool → ℕ → ℕ → (ℕ → ℕ) → ℕ → Status × Option RxDesc → Status × (ℕ → ℕ)
read_found pool slot gen dst dst_len (success n, some head) =
    if not (head.slot == slot) || not (head.gen == gen)
    then (failure vnet_not_owner, dst)
    else copy_frame dst dst_len (pool_slot pool slot gen)
read_found pool slot gen dst dst_len (rc, o) = (failure vnet_empty, dst)

-- `vnet_switch_read_rx`, with the buffer that it leaves
unfoldable pub switch_read_rx : Switch → ℕ → ℕ → ℕ → (ℕ → ℕ) → ℕ → (Status × (ℕ → ℕ)) × Switch
unfolding skip_stale ring_peek pool_slot
switch_read_rx sw vm_id slot gen dst dst_len =
    let sw1 = skip_stale_head sw vm_id in
    if leb sw.nvm vm_id
    then ((failure vnet_badarg, dst), sw)
    else if not (sw.vnics vm_id).is_open
    then ((failure vnet_not_open, dst), sw)
    else (read_found sw1.pool slot gen dst dst_len (ring_peek (sw1.vnics vm_id).rxq), sw1)

-- The end of `vnet_switch_release_rx`, on the result of `vnet_pool_release`
abbrev pub release_counted : Switch → ℕ → Status × FramePool → Status × Switch
release_counted sw vm_id (rc, pool) =
    let sw1 = record sw { pool = pool } in
    if is_failure rc
    then (rc, count_both count_release sw1 vm_id)
    else if ring_empty (sw.vnics vm_id).rxq
    then (success 0, set_pending sw1 vm_id false)
    else (success 0, sw1)

-- The same on what the peek returned
abbrev pub release_found : Switch → ℕ → ℕ → ℕ → Status × Option RxDesc → Status × Switch
release_found sw vm_id slot gen (success n, some head) =
    let v = sw.vnics vm_id in
    let dropped = set_vnic sw vm_id (record v { rxq = (ring_drop_head v.rxq).1 }) in
    if not (head.slot == slot) || not (head.gen == gen)
    then (failure vnet_not_owner, count_both count_release sw vm_id)
    else release_counted dropped vm_id (pool_release sw.pool slot gen)
release_found sw vm_id slot gen (rc, o) = (failure vnet_empty, count_both count_release sw vm_id)

-- `vnet_switch_release_rx`
unfoldable pub switch_release_rx : Switch → ℕ → ℕ → ℕ → Status × Switch
unfolding skip_stale ring_peek ring_drop_head pool_release
switch_release_rx sw vm_id slot gen =
    let sw1 = skip_stale_head sw vm_id in
    if leb sw.nvm vm_id
    then (failure vnet_badarg, sw)
    else if not (sw.vnics vm_id).is_open
    then (failure vnet_not_open, sw)
    else release_found sw1 vm_id slot gen (ring_peek (sw1.vnics vm_id).rxq)

-- `vnet_switch_irq_ack`, which returns 1 if frames are waiting
unfoldable pub switch_irq_ack : Switch → ℕ → Status × Switch
unfolding skip_stale
switch_irq_ack sw vm_id =
    let sw1 = skip_stale_head sw vm_id in
    if leb sw.nvm vm_id
    then (failure vnet_badarg, sw)
    else if not (sw.vnics vm_id).is_open
    then (failure vnet_not_open, sw)
    else if ring_empty (sw1.vnics vm_id).rxq
    then (success 0, set_pending sw1 vm_id false)
    else (success 1, set_pending sw1 vm_id true)

-- `vnet_switch_irq_pending`
unfoldable pub switch_irq_pending : Switch → ℕ → Bool
switch_irq_pending sw vm_id = if leb sw.nvm vm_id then false else (sw.vnics vm_id).rx_irq_pending

-- One round of the loop of `vnet_switch_drop_expired`
abbrev pub expire_round : ℕ → Switch → Switch
expire_round i sw =
    let sw1 = skip_stale_head sw i in
    if ring_empty (sw1.vnics i).rxq then set_pending sw1 i false else sw1

-- `vnet_switch_drop_expired`
unfoldable pub switch_drop_expired : Switch → ℕ → ℕ → ℕ × Switch
unfolding for_below skip_stale pool_drop_expired
switch_drop_expired sw now_tick timeout_ticks =
    let (pool, freed) = pool_drop_expired sw.pool now_tick timeout_ticks in
    let stats = sw.global_stats in
    let counted = record sw {
      pool = pool;
      global_stats = record stats { drop_timeout = add32 stats.drop_timeout freed };
    } in
    if ltb 0 freed
    then (freed, for_below sw.nvm expire_round counted)
    else (freed, record sw { pool = pool })
