-- ===== src/Vnet/Switch/Ports.antt =====
-- What the operations on received frames keep of the switch.
use wolf_trust_fork.Base.{
  ℕ, ◌≡◌, refl, sym, subst, inl, inr, Bool, true, false, not, ◌||◌, Option, none, some, ◌==◌, ltb,
  leb, if◌then◌else◌, Bool-cases, if-each, for_below_inv,
}
use wolf_trust_fork.Vnet.State.{
  RxDesc, RxMeta, FramePool, Switch, Status, success, failure, vnet_empty, vnet_not_owner,
  is_failure, set_vnic, count_both, count_release, add32,
}
use wolf_trust_fork.Vnet.Pool.{pool_release, pool_drop_expired}
use wolf_trust_fork.Vnet.Pool.InUse.{IsPool, pool_release-IsPool, pool_drop_expired-IsPool}
use wolf_trust_fork.Vnet.Ring.{ring_peek, ring_drop_head, ring_empty}
use wolf_trust_fork.Vnet.Switch.Receive.{
  skipped, skip_stale_head, set_pending, poll_found, switch_poll_rx, switch_read_rx,
  release_counted, release_found, switch_release_rx, switch_irq_ack, expire_round,
  switch_drop_expired,
}
use wolf_trust_fork.Vnet.Switch.Keeps.{
  Keeps, Keeps-same, Keeps-trans, Keeps-set_vnic, Keeps-pool, Keeps-count_both,
}

-- An operation of guest `i` changes at most the port of `i`; `s` is any set with that port.
module _ (s : ℕ → Bool) (i : ℕ) (e : s i ≡ true) where
  skip_stale_head-Keeps : (sw : Switch) → Keeps s sw (skip_stale_head sw i)
  skip_stale_head-Keeps sw =
      Keeps-set_vnic s sw i (skipped sw.pool (sw.vnics i)) e (refl, refl, refl)

  set_pending-Keeps : (sw : Switch) (b : Bool) → Keeps s sw (set_pending sw i b)
  set_pending-Keeps sw b =
      Keeps-set_vnic s sw i (record (sw.vnics i) { rx_irq_pending = b }) e (refl, refl, refl)

  skipped_pending : (sw : Switch) (b : Bool) → Keeps s sw (set_pending (skip_stale_head sw i) i b)
  skipped_pending sw b =
      let sw1 = skip_stale_head sw i in
      Keeps-trans s sw sw1 (set_pending sw1 i b) (skip_stale_head-Keeps sw)
        (set_pending-Keeps sw1 b)

  poll_found-same : (sw : Switch) (x : Status × Option RxDesc) → (poll_found sw x).2 ≡ sw
  poll_found-same sw (success n, some d) = refl
  poll_found-same sw (success n, none) = refl
  poll_found-same sw (failure f, o) = refl

  abbrev Polled : Switch → Status × Option RxMeta × Switch → Type 0
  Polled sw z = Keeps s sw z.2

  pub switch_poll_rx-Keeps : (sw : Switch) → Polled sw (switch_poll_rx sw i)
  unfolding switch_poll_rx
  switch_poll_rx-Keeps sw =
      let sw1 = skip_stale_head sw i in
      let rxq = (sw1.vnics i).rxq in
      elim (Bool-cases (leb sw.nvm i)) [
        | inl a ↦ rw a (Keeps-same s sw)
        | inr a ↦ elim (Bool-cases (not (sw.vnics i).is_open)) [
          | inl b ↦ rw (a, b) (Keeps-same s sw)
          | inr b ↦
              rw (a, b)
                (if-each (Polled sw) (failure vnet_empty, none, set_pending sw1 i false)
                  (poll_found sw1 (ring_peek rxq)) (ring_empty rxq) (skipped_pending sw false)
                  (subst (Keeps s sw) (sym (poll_found-same sw1 (ring_peek rxq)))
                    (skip_stale_head-Keeps sw)))
        ]
      ]

  pub switch_read_rx-Keeps :
      (sw : Switch) (slot gen : ℕ) (dst : ℕ → ℕ) (dst_len : ℕ)
      → Keeps s sw (switch_read_rx sw i slot gen dst dst_len).1
  unfolding switch_read_rx
  switch_read_rx-Keeps sw slot gen dst dst_len = elim (Bool-cases (leb sw.nvm i)) [
    | inl a ↦ rw a (Keeps-same s sw)
    | inr a ↦ elim (Bool-cases (not (sw.vnics i).is_open)) [
      | inl b ↦ rw (a, b) (Keeps-same s sw)
      | inr b ↦ rw (a, b) (skip_stale_head-Keeps sw)
    ]
  ]

  abbrev Released : Switch → Status × Switch → Type 0
  Released sw z = Keeps s sw z.1

  release_counted-Released :
      (sw : Switch) (x : Status × FramePool)
      → (IsPool sw.pool → IsPool x.1)
      → Released sw (release_counted sw i x)
  release_counted-Released sw (rc, pool) keep =
      let sw1 = record sw { pool = pool } in
      let first = Keeps-pool s sw pool keep in
      let counted = count_both count_release sw1 i in
      if-each (Released sw) (rc, counted)
        (if ring_empty (sw.vnics i).rxq
          then (success 0, set_pending sw1 i false)
          else (success 0, sw1))
        (is_failure rc)
        (Keeps-trans s sw sw1 counted first (Keeps-count_both s count_release sw1 i e))
        (if-each (Released sw) (success 0, set_pending sw1 i false) (success 0, sw1)
          (ring_empty (sw.vnics i).rxq)
          (Keeps-trans s sw sw1 (set_pending sw1 i false) first (set_pending-Keeps sw1 false))
          first)

  release_found-Released :
      (sw : Switch) (slot gen : ℕ) (x : Status × Option RxDesc)
      → Released sw (release_found sw i slot gen x)
  release_found-Released sw slot gen (failure f, o) = Keeps-count_both s count_release sw i e
  release_found-Released sw slot gen (success n, none) = Keeps-count_both s count_release sw i e
  release_found-Released sw slot gen (success n, some d) =
      let v = sw.vnics i in
      let w = record v { rxq = (ring_drop_head v.rxq).1 } in
      let dropped = set_vnic sw i w in
      let freed = pool_release sw.pool slot gen in
      if-each (Released sw) (failure vnet_not_owner, count_both count_release sw i)
        (release_counted dropped i freed) (not (d.slot == slot) || not (d.gen == gen))
        (Keeps-count_both s count_release sw i e)
        (Keeps-trans s sw dropped (release_counted dropped i freed).1
          (Keeps-set_vnic s sw i w e (refl, refl, refl))
          (release_counted-Released dropped freed (pool_release-IsPool sw.pool slot gen)))

  pub switch_release_rx-Keeps :
      (sw : Switch) (slot gen : ℕ) → Released sw (switch_release_rx sw i slot gen)
  unfolding switch_release_rx
  switch_release_rx-Keeps sw slot gen =
      let sw1 = skip_stale_head sw i in
      let x = ring_peek (sw1.vnics i).rxq in
      elim (Bool-cases (leb sw.nvm i)) [
        | inl a ↦ rw a (Keeps-same s sw)
        | inr a ↦ elim (Bool-cases (not (sw.vnics i).is_open)) [
          | inl b ↦ rw (a, b) (Keeps-same s sw)
          | inr b ↦
              rw (a, b)
                (Keeps-trans s sw sw1 (release_found sw1 i slot gen x).1 (skip_stale_head-Keeps sw)
                  (release_found-Released sw1 slot gen x))
        ]
      ]

  pub switch_irq_ack-Keeps : (sw : Switch) → Released sw (switch_irq_ack sw i)
  unfolding switch_irq_ack
  switch_irq_ack-Keeps sw =
      let sw1 = skip_stale_head sw i in
      elim (Bool-cases (leb sw.nvm i)) [
        | inl a ↦ rw a (Keeps-same s sw)
        | inr a ↦ elim (Bool-cases (not (sw.vnics i).is_open)) [
          | inl b ↦ rw (a, b) (Keeps-same s sw)
          | inr b ↦
              rw (a, b)
                (if-each (Released sw) (success 0, set_pending sw1 i false)
                  (success 1, set_pending sw1 i true) (ring_empty (sw1.vnics i).rxq)
                  (skipped_pending sw false) (skipped_pending sw true))
        ]
      ]

abbrev pub every : ℕ → Bool
every i = true

expire_round-Keeps : (sw : Switch) (i : ℕ) → Keeps every sw (expire_round i sw)
expire_round-Keeps sw i =
    let sw1 = skip_stale_head sw i in
    if-each (Keeps every sw) (set_pending sw1 i false) sw1 (ring_empty (sw1.vnics i).rxq)
      (skipped_pending every i refl sw false) (skip_stale_head-Keeps every i refl sw)

pub switch_drop_expired-Keeps :
    (sw : Switch) (now timeout : ℕ) → Keeps every sw (switch_drop_expired sw now timeout).1
unfolding switch_drop_expired
switch_drop_expired-Keeps sw now timeout =
    let x = pool_drop_expired sw.pool now timeout in
    let swept = Keeps-pool every sw x.0 (pool_drop_expired-IsPool sw.pool now timeout) in
    let stats = sw.global_stats in
    let counted = record sw {
      pool = x.0;
      global_stats = record stats { drop_timeout = add32 stats.drop_timeout x.1 };
    } in
    elim (Bool-cases (ltb 0 x.1)) [
      | inl e ↦ rw e (
          for_below_inv (λ k t. Keeps every sw t) sw.nvm expire_round counted
            (λ k t lt h. Keeps-trans every sw t (expire_round k t) h (expire_round-Keeps t k))
            swept)
      | inr e ↦ rw e swept
    ]
