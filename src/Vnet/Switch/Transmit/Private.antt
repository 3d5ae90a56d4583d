-- ===== src/Vnet/Switch/Transmit/Private.antt =====
-- What a transmission keeps, and which ports it reaches.
use wolf_trust_fork.Base.{
  ℕ, ◌≡◌, refl, sym, ◌∙◌, Bool, true, false, not, ◌&&◌, ◌||◌, arith, ◌==◌, leb, if-when, if-each,
  for_below_inv,
}
use wolf_trust_fork.Vnet.State.{
  Mac, RxDesc, Ring, FramePool, Switch, Status, is_success, set_vnic, count_both, count_queue_full,
  count_unknown_unicast, count_policy, count_rx, no_vm,
}
use wolf_trust_fork.Vnet.Mac.{mac_is_multicast}
use wolf_trust_fork.Vnet.Ring.{ring_push}
use wolf_trust_fork.Vnet.Pool.{pool_ref, pool_release}
use wolf_trust_fork.Vnet.Pool.InUse.{IsPool, pool_ref-IsPool, pool_release-IsPool}
use wolf_trust_fork.Vnet.Fdb.{fdb_lookup}
use wolf_trust_fork.Vnet.Switch.Keeps.{
  Keeps, Keeps-same, Keeps-trans, Keeps-set_vnic, Keeps-pool, Keeps-count_both,
}
use wolf_trust_fork.Vnet.Switch.Transmit.{
  undo_push, set_rxq, received, deliver_counted, deliver_pushed, try_deliver_one, count_delivery,
  flood_round, flood, forward, drop_reference, tx_finish,
}

module _ (s : ℕ → Bool) where
  -- The switch of a result
  abbrev pub Kept : Switch → Status × Switch → Type 0
  Kept sw z = Keeps s sw z.1

  Keeps-set_rxq : (sw : Switch) (i : ℕ) (r : Ring) → s i ≡ true → Keeps s sw (set_rxq sw i r)
  Keeps-set_rxq sw i r e =
      Keeps-set_vnic s sw i (record (sw.vnics i) { rxq = r }) e (refl, refl, refl)

  Keeps-received : (sw : Switch) (i len : ℕ) → s i ≡ true → Keeps s sw (received sw i len)
  Keeps-received sw i len e =
      let v = record (sw.vnics i) { rx_irq_pending = true } in
      Keeps-trans s sw (set_vnic sw i v) (received sw i len)
        (Keeps-set_vnic s sw i v e (refl, refl, refl))
        (Keeps-count_both s (count_rx len) (set_vnic sw i v) i e)

  deliver_counted-Kept :
      (sw : Switch) (i len : ℕ) (x : Status × FramePool)
      → s i ≡ true
      → (IsPool sw.pool → IsPool x.1)
      → Kept sw (deliver_counted sw i len x)
  deliver_counted-Kept sw i len (rc, pool) e keep =
      let sw1 = record sw { pool = pool } in
      let first = Keeps-pool s sw pool keep in
      let undone = undo_push (sw.vnics i).rxq in
      if-each (Kept sw) _ _ (not (is_success rc))
        (Keeps-trans s sw sw1 (set_rxq sw1 i undone) first (Keeps-set_rxq sw1 i undone e))
        (Keeps-trans s sw sw1 (received sw1 i len) first (Keeps-received sw1 i len e))

  deliver_pushed-Kept :
      (sw : Switch) (i slot gen len : ℕ) (x : Status × Ring)
      → s i ≡ true
      → Kept sw (deliver_pushed sw i slot gen len x)
  unfolding deliver_pushed
  deliver_pushed-Kept sw i slot gen len (rc, rxq) e =
      let sw1 = set_rxq sw i rxq in
      let first = Keeps-set_rxq sw i rxq e in
      if-each (Kept sw) _ _ (not (is_success rc))
        (Keeps-trans s sw sw1 (count_both count_queue_full sw1 i) first
          (Keeps-count_both s count_queue_full sw1 i e))
        (Keeps-trans s sw sw1 (deliver_counted sw1 i len (pool_ref sw.pool slot gen)).1 first (
          deliver_counted-Kept sw1 i len (pool_ref sw.pool slot gen) e
            (pool_ref-IsPool sw.pool slot gen)))

  -- Delivery to a port, which is in the set if it is open
  try_deliver_one-Kept :
      (sw : Switch) (i slot gen len src : ℕ)
      → ((sw.vnics i).is_open ≡ true → s i ≡ true)
      → Kept sw (try_deliver_one sw i slot gen len src)
  unfolding try_deliver_one
  try_deliver_one-Kept sw i slot gen len src e =
      let desc : RxDesc = record { slot = slot; gen = gen; len = len; flags = 0; src_vm = src } in
      if-when (Kept sw) _ _ (not (sw.vnics i).is_open) (λ h. Keeps-same s sw)
        (λ h.
          deliver_pushed-Kept sw i slot gen len (ring_push (sw.vnics i).rxq desc)
            (e (ground arith)))

  -- The switch of a round of flooding
  abbrev pub Flooded : Switch → Switch × ℕ → Type 0
  Flooded sw z = Keeps s sw z.0

  count_delivery-Flooded :
      (sw : Switch) (d : ℕ) (z : Status × Switch) → Kept sw z → Flooded sw (count_delivery d z)
  count_delivery-Flooded sw d (rc, t) h = h

  -- Every open port but the source is in the set.
  abbrev Covers : Switch → ℕ → Type 0
  Covers sw src = (i : ℕ) → (i == src) ≡ false → (sw.vnics i).is_open ≡ true → s i ≡ true

  flood_round-Flooded :
      (sw : Switch) (src slot gen len i : ℕ) (z : Switch × ℕ)
      → Covers sw src
      → Flooded sw z
      → Flooded sw (flood_round src slot gen len i z)
  unfolding flood_round
  flood_round-Flooded sw src slot gen len i (t, d) all h =
      if-when (Flooded sw) _ _ (i == src) (λ e. h)
        (λ e.
          let into =
            try_deliver_one-Kept t i slot gen len src (λ o. all i e (sym ((h.1 i).0) ∙ o)) in
          let x = try_deliver_one t i slot gen len src in
          count_delivery-Flooded sw d x (Keeps-trans s sw t x.1 h into))

  flood-Flooded :
      (sw : Switch) (src slot gen len : ℕ) → Covers sw src → Flooded sw (flood sw src slot gen len)
  unfolding flood
  flood-Flooded sw src slot gen len all =
      for_below_inv (λ k z. Flooded sw z) sw.nvm (flood_round src slot gen len) (sw, 0)
        (λ k z lt h. flood_round-Flooded sw src slot gen len k z all h) (Keeps-same s sw)

  pub tx_finish-Kept :
      (sw : Switch) (src : ℕ) (b : Bool) (slot gen : ℕ) (z : Switch × ℕ)
      → s src ≡ true
      → Flooded sw z
      → Kept sw (tx_finish src b slot gen z)
  unfolding tx_finish
  tx_finish-Kept sw src b slot gen (t, d) e h =
      let t1 = drop_reference t slot gen in
      let released = (pool_release t.pool slot gen).1 in
      let first =
        Keeps-trans s sw t t1 h (Keeps-pool s t released (pool_release-IsPool t.pool slot gen)) in
      let unknown = Keeps-count_both s count_unknown_unicast t1 src e in
      let policy = Keeps-count_both s count_policy t1 src e in
      if-each (Kept sw) _ _ (d == 0)
        (if-each (Kept sw) _ _ (not b)
          (Keeps-trans s sw t1 (count_both count_unknown_unicast t1 src) first unknown)
          (Keeps-trans s sw t1 (count_both count_policy t1 src) first policy))
        first

-- The ports that a frame from `src` to the address may change: the sender's, and of the open ones
-- the port of the guest that has the address, or all if the address is a group's or is unknown
-- and unknown addresses are flooded.
abbrev pub reaches : Switch → ℕ → Mac → ℕ → Bool
reaches sw src dst j =
    let dst_vm = fdb_lookup sw.fdb dst in
    let all = mac_is_multicast dst || (dst_vm == no_vm && sw.unknown_unicast_flood) in
    j == src || ((sw.vnics j).is_open && (all || dst_vm == j))

pub forward-Flooded :
    (sw : Switch) (src : ℕ) (dst : Mac) (slot gen len : ℕ)
    → Flooded (reaches sw src dst) sw (forward sw src dst slot gen len)
unfolding forward
forward-Flooded sw src dst slot gen len =
    let s = reaches sw src dst in
    let to = fdb_lookup sw.fdb dst in
    let nothing = Keeps-same s sw in
    if-when (Flooded s sw) _ _ (mac_is_multicast dst)
      (λ m. flood-Flooded s sw src slot gen len (λ i e o. ground arith))
      (λ m.
        if-when (Flooded s sw) _ _ (not (to == no_vm) && not (to == src))
          (λ known. if-each (Flooded s sw) _ _ (leb sw.nvm to) nothing (
            count_delivery-Flooded s sw 0 (try_deliver_one sw to slot gen len src)
              (try_deliver_one-Kept s sw to slot gen len src (λ o. ground arith))))
          (λ h.
            if-when (Flooded s sw) _ _ (to == no_vm && sw.unknown_unicast_flood)
              (λ all. flood-Flooded s sw src slot gen len (λ i e o. ground arith)) (λ h. nothing)))
