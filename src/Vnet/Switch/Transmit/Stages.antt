-- ===== src/Vnet/Switch/Transmit/Stages.antt =====
-- What the stages of a transmission keep.
use wolf_trust_fork.Base.{
  ℕ, ◌<◌, ◌≡◌, refl, sym, subst, Bool, true, false, not, ◌||◌, ◌==◌, ltb, leb, if◌then◌else◌,
  Option, none, some, arith, inl, inr, Bool-cases, if-when, if-each,
}
use wolf_trust_fork.Vnet.State.{
  Mac, Frame, FramePool, Switch, Status, failure, count_both, VnetStats, VnetError, vnet_badarg,
  vnet_not_open, vnet_no_mac, vnet_frame_len, vnet_malformed, vnet_spoof, count_malformed,
  count_spoof, count_pool_full, count_tx, frame_min, frame_max,
}
use wolf_trust_fork.Vnet.Mac.{mac_is_zero, mac_is_multicast, mac_equals}
use wolf_trust_fork.Vnet.Mac.Equality.{mac_equals-eq}
use wolf_trust_fork.Vnet.Pool.{pool_alloc, pool_release, set_slot}
use wolf_trust_fork.Vnet.Pool.InUse.{
  pool_release-IsPool, pool_alloc-IsPool, IsPool-set_slot, pool_alloc-some,
}
use wolf_trust_fork.Vnet.Fdb.{fdb_learn}
use wolf_trust_fork.Vnet.Fdb.Assigned.{Assigns, fdb_learn-assigned}
use wolf_trust_fork.Vnet.Switch.Keeps.{
  IsSwitch, Keeps, Keeps-same, Keeps-trans, Keeps-pool, Keeps-count_both, Keeps-wider,
}
use wolf_trust_fork.Vnet.Switch.Transmit.{
  mac_at, drop_reference, store_frame, tx_allocated, tx_learned, tx_sized, switch_tx, forward,
}
use wolf_trust_fork.Vnet.Switch.Transmit.Private.{Kept, reaches, forward-Flooded, tx_finish-Kept}

-- The sender is among the ports reached.
reaches_self : (sw : Switch) (src : ℕ) (dst : Mac) → reaches sw src dst src ≡ true
reaches_self sw src dst = ground arith

store_frame-Keeps :
    (sw : Switch) (src slot : ℕ) (frame : ℕ → ℕ) (len : ℕ) (s : ℕ → Bool)
    → s src ≡ true
    → slot < sw.pool.slot_count
    → Keeps s sw (store_frame sw src slot frame len)
store_frame-Keeps sw src slot frame len s e lt =
    let f = sw.pool.slots slot in
    let copied = λ (j : ℕ). if ltb j len then frame j else f.data_bytes j in
    let stored : Frame = record f { data_bytes = copied; len = len; src_vm = src; dst_mask = 0 } in
    let pool = set_slot sw.pool slot stored in
    let sw1 = record sw { pool = pool } in
    Keeps-trans s sw sw1 (count_both (count_tx len) sw1 src)
      (Keeps-pool s sw pool
        (λ inv. IsPool-set_slot sw.pool slot stored lt refl (inv.2 slot lt) inv))
      (Keeps-count_both s (count_tx len) sw1 src e)

-- The counters that have changed do not matter to where a frame goes.
reaches-store_frame :
    (sw : Switch) (src slot : ℕ) (frame : ℕ → ℕ) (len : ℕ) (dst : Mac) (j : ℕ)
    → reaches sw src dst j ≡ false
    → reaches (store_frame sw src slot frame len) src dst j ≡ false
reaches-store_frame sw src slot frame len dst j h = elim (Bool-cases (src == j)) [
  | inl e ↦ absurd (ground arith)
  | inr e ↦ rw e h
]

tx_allocated-Kept :
    (sw : Switch) (src : ℕ) (frame : ℕ → ℕ) (len now : ℕ) (o : Option (ℕ × FramePool))
    → pool_alloc sw.pool now ≡ o
    → Kept (reaches sw src (mac_at frame 0)) sw (tx_allocated sw src frame len o)
unfolding tx_allocated
tx_allocated-Kept sw src frame len now none a =
    let dst = mac_at frame 0 in
    Keeps-count_both (reaches sw src dst) count_pool_full sw src (reaches_self sw src dst)
tx_allocated-Kept sw src frame len now (some (slot, pool)) a =
    let dst = mac_at frame 0 in
    let s = reaches sw src dst in
    let self = reaches_self sw src dst in
    let (lt, free, e) = pool_alloc-some sw.pool now slot pool a in
    let inside : slot < pool.slot_count = subst (λ p. slot < FramePool.slot_count p) (sym e) lt in
    let sw0 = record sw { pool = pool } in
    let sw1 = store_frame sw0 src slot frame len in
    let gen = (pool.slots slot).gen in
    let taken = Keeps-pool s sw pool (pool_alloc-IsPool sw.pool now slot pool a) in
    let stored =
      Keeps-trans s sw sw0 sw1 taken (store_frame-Keeps sw0 src slot frame len s self inside) in
    let sw2 = count_both count_malformed sw1 src in
    let released = (pool_release sw2.pool slot gen).1 in
    let sent = forward sw1 src dst slot gen len in
    let widened =
      Keeps-wider (reaches sw1 src dst) s sw1 sent.0
        (reaches-store_frame sw0 src slot frame len dst)
        (forward-Flooded sw1 src dst slot gen len) in
    if-each (Kept s sw) _ _ (mac_is_zero dst)
      (Keeps-trans s sw sw1 (drop_reference sw2 slot gen) stored (
        Keeps-trans s sw1 sw2 (drop_reference sw2 slot gen)
          (Keeps-count_both s count_malformed sw1 src self)
          (Keeps-pool s sw2 released (pool_release-IsPool sw2.pool slot gen))))
      (tx_finish-Kept s sw src (mac_is_multicast dst) slot gen sent self
        (Keeps-trans s sw sw1 sent.0 stored widened))

-- The table is left as it is, since the sender's address is assigned to the sender.
learned :
    (sw : Switch) (src : ℕ) (mac : Mac)
    → IsSwitch sw
    → leb sw.nvm src ≡ false
    → not (sw.vnics src).mac_set ≡ false
    → not (mac_equals mac (sw.vnics src).mac) ≡ false
    → (fdb_learn sw.fdb src mac).1 ≡ sw.fdb
learned sw src mac (fdb, pool, macs) inside has same =
    let e = mac_equals-eq mac (sw.vnics src).mac (ground arith) in
    let a = macs src (ground arith) (ground arith) in
    fdb_learn-assigned sw.fdb src mac fdb (subst (Assigns sw.fdb src) (sym e) a)

tx_learned-Kept :
    (sw : Switch) (src : ℕ) (frame : ℕ → ℕ) (len now : ℕ)
    → (fdb_learn sw.fdb src (mac_at frame 6)).1 ≡ sw.fdb
    → Kept (reaches sw src (mac_at frame 0)) sw (tx_learned sw src frame len now)
unfolding tx_learned
tx_learned-Kept sw src frame len now e =
    let found = pool_alloc sw.pool now in
    subst
      (λ f.
        Kept (reaches sw src (mac_at frame 0)) sw
          (tx_allocated (record sw { fdb = f }) src frame len found))
      (sym e) (tx_allocated-Kept sw src frame len now found refl)

-- A refusal: a status, and a switch in which at most the sender's counters differ.
module _ (sw : Switch) (src : ℕ) (dst : Mac) where
  abbrev Refused : Status × Switch → Type 0
  Refused z = Kept (reaches sw src dst) sw z

  refused : (e : VnetError) → Refused (failure e, sw)
  refused e = Keeps-same (reaches sw src dst) sw

  refused_counted :
      (e : VnetError) (f : VnetStats → VnetStats) → Refused (failure e, count_both f sw src)
  refused_counted e f = Keeps-count_both (reaches sw src dst) f sw src (reaches_self sw src dst)

tx_sized-Kept :
    (sw : Switch) (src : ℕ) (frame : ℕ → ℕ) (len now : ℕ)
    → IsSwitch sw
    → leb sw.nvm src ≡ false
    → not (sw.vnics src).mac_set ≡ false
    → Refused sw src (mac_at frame 0) (tx_sized sw src frame len now)
unfolding tx_sized
tx_sized-Kept sw src frame len now inv inside has =
    let dst = mac_at frame 0 in
    let mac = mac_at frame 6 in
    if-when (Refused sw src dst) (failure vnet_malformed, count_both count_malformed sw src)
      (if not (mac_equals mac (sw.vnics src).mac)
        then (failure vnet_spoof, count_both count_spoof sw src)
        else tx_learned sw src frame len now)
      (mac_is_zero mac || mac_is_multicast mac)
      (λ h. refused_counted sw src dst vnet_malformed count_malformed)
      (λ h.
        if-when (Refused sw src dst) (failure vnet_spoof, count_both count_spoof sw src)
          (tx_learned sw src frame len now) (not (mac_equals mac (sw.vnics src).mac))
          (λ k. refused_counted sw src dst vnet_spoof count_spoof)
          (λ own. tx_learned-Kept sw src frame len now (learned sw src mac inv inside has own)))

pub switch_tx-Kept :
    (sw : Switch) (src : ℕ) (frame : ℕ → ℕ) (len now : ℕ)
    → IsSwitch sw
    → Refused sw src (mac_at frame 0) (switch_tx sw src frame len now)
unfolding switch_tx
switch_tx-Kept sw src frame len now inv =
    let dst = mac_at frame 0 in
    elim (Bool-cases (leb sw.nvm src)) [
      | inl e ↦ rw e (refused sw src dst vnet_badarg)
      | inr inside ↦ elim (Bool-cases (not (sw.vnics src).is_open)) [
        | inl e ↦ rw (inside, e) (refused sw src dst vnet_not_open)
        | inr up ↦ elim (Bool-cases (not (sw.vnics src).mac_set)) [
          | inl e ↦ rw (inside, up, e) (refused_counted sw src dst vnet_no_mac count_spoof)
          | inr has ↦ elim (Bool-cases (ltb len frame_min || ltb frame_max len)) [
            | inl e ↦
                rw (inside, up, has, e) (refused_counted sw src dst vnet_frame_len count_malformed)
            | inr size ↦
                rw (inside, up, has, size) (tx_sized-Kept sw src frame len now inv inside has)
          ]
        ]
      ]
    ]
