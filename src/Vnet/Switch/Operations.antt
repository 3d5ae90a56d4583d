-- ===== src/Vnet/Switch/Operations.antt =====
-- The invariant under the operations of the switch other than a transmission.
use native.Mathlib.Decide.{ℕ_discrete as dec_eq}
use wolf_trust_fork.Base.{
  ℕ, zero, suc, ◌<◌, ◌^◌, ◌≡◌, refl, sym, ap, subst, inl, inr, Bool, true, false, not, ◌&&◌, arith,
  ◌==◌, leb, if◌then◌else◌, update, Bool-cases, if-when, if-each, for_below,
}
use wolf_trust_fork.Vnet.State.{
  Mac, RxDesc, Fdb, FdbEntry, Frame, Vnic, VnetStats, Switch, Status, success, failure, set_vnic,
  count_both, vnet_badarg, vnet_not_open, is_success, vnet_dup_mac, vnet_inval_mac, count_dup_mac,
  count_invalid_mac,
}
use wolf_trust_fork.Vnet.Pool.InUse.{pool_init-IsPool}
use wolf_trust_fork.Vnet.Mac.{mac_copy, mac_equals, mac_is_local_unicast}
use wolf_trust_fork.Vnet.Mac.Equality.{mac_copy-eq}
use wolf_trust_fork.Vnet.Fdb.{fdb_assign}
use wolf_trust_fork.Vnet.Fdb.Unique.{Extends, Extends-same}
use wolf_trust_fork.Vnet.Fdb.Operations.{fdb_assign-Extends, fdb_init-IsFdb}
use wolf_trust_fork.Vnet.Fdb.Assigned.{Assigns, AssignsIf, fdb_assign-Assigns}
use wolf_trust_fork.Vnet.Switch.{
  switch_open, switch_assign_mac, assigned_mac, count_refusal, switch_init, reset_vnics, vnic_reset,
}
use wolf_trust_fork.Vnet.Switch.Receive.{
  switch_poll_rx, switch_read_rx, switch_release_rx, switch_irq_ack, switch_drop_expired,
}
use wolf_trust_fork.Vnet.Switch.Keeps.{IsSwitch, Keeps, Keeps-fdb, Keeps-count_both, Keeps-IsSwitch}
use wolf_trust_fork.Vnet.Switch.Ports.{
  every, switch_poll_rx-Keeps, switch_read_rx-Keeps, switch_release_rx-Keeps, switch_irq_ack-Keeps,
  switch_drop_expired-Keeps,
}

-- The invariant when the port of one guest changes, and the table with it.
IsSwitch-port :
    (sw : Switch) (f : Fdb) (i : ℕ) (v : Vnic)
    → IsSwitch sw
    → Extends sw.fdb f
    → (i < sw.nvm → v.mac_set ≡ true → Assigns f i v.mac)
    → IsSwitch (set_vnic (record sw { fdb = f }) i v)
IsSwitch-port sw f i v inv ext new =
    let wider =
      Keeps-IsSwitch every sw (record sw { fdb = f }) (Keeps-fdb every sw f (λ h. ext)) inv in
    (ext.0, inv.1, λ j lt. ports wider j lt)
  where
    ports :
        IsSwitch (record sw { fdb = f })
        → (j : ℕ) → j < sw.nvm
        → (update sw.vnics i v j).mac_set ≡ true
        → Assigns f j (update sw.vnics i v j).mac
    ports wider j lt = elim (dec_eq i j) [
      | yes p ↦
          let here : (i == j) ≡ true = ground arith in
          rw here (subst (λ n. v.mac_set ≡ true → Assigns f n v.mac) p (new (omega arith)))
      | no ne ↦ let away : (i == j) ≡ false = ground arith in rw away (wider.2 j lt)
    ]

pub switch_open-IsSwitch : (sw : Switch) (i : ℕ) → IsSwitch sw → IsSwitch (switch_open sw i).2
unfolding switch_open
switch_open-IsSwitch sw i inv = elim (Bool-cases (leb sw.nvm i)) [
  | inl a ↦ rw a inv
  | inr a ↦ rw a (
      IsSwitch-port sw sw.fdb i (record (sw.vnics i) { is_open = true }) inv
        (Extends-same sw.fdb inv.0) (inv.2 i))
]

count_both-IsSwitch :
    (f : VnetStats → VnetStats) (sw : Switch) (i : ℕ) → IsSwitch sw → IsSwitch (count_both f sw i)
count_both-IsSwitch f sw i inv =
    Keeps-IsSwitch every sw (count_both f sw i) (Keeps-count_both every f sw i refl) inv

count_refusal-IsSwitch :
    (rc : Status) (sw : Switch) (i : ℕ) → IsSwitch sw → IsSwitch (count_refusal rc sw i)
count_refusal-IsSwitch (failure vnet_dup_mac) sw i inv = count_both-IsSwitch count_dup_mac sw i inv
count_refusal-IsSwitch (failure vnet_inval_mac) sw i inv =
    count_both-IsSwitch count_invalid_mac sw i inv
count_refusal-IsSwitch (success n) sw i inv = inv
count_refusal-IsSwitch (failure _) sw i inv = inv

-- The switch of a result
abbrev Sound : Status × Switch → Type 0
Sound z = IsSwitch z.1

assigned_mac-Sound :
    (sw : Switch) (i : ℕ) (mac : Mac) (x : Status × Fdb)
    → IsSwitch sw
    → Extends sw.fdb x.1
    → AssignsIf i mac x
    → Sound (assigned_mac sw i mac x)
assigned_mac-Sound sw i mac (rc, f) inv ext new =
    let sw1 = record sw { fdb = f } in
    let own = record (sw.vnics i) { mac = mac_copy mac; mac_set = true } in
    let wider = Keeps-IsSwitch every sw sw1 (Keeps-fdb every sw f (λ h. ext)) inv in
    if-when Sound (rc, count_refusal rc sw1 i) (success 0, set_vnic sw1 i own) (not (is_success rc))
      (λ h. count_refusal-IsSwitch rc sw1 i wider)
      (λ h.
        IsSwitch-port sw f i own inv ext
          (λ lt e. subst (Assigns f i) (sym (mac_copy-eq mac)) (new (ground arith))))

pub switch_assign_mac-IsSwitch :
    (sw : Switch) (i : ℕ) (mac : Mac) → IsSwitch sw → Sound (switch_assign_mac sw i mac)
unfolding switch_assign_mac
switch_assign_mac-IsSwitch sw i mac inv =
    let v = sw.vnics i in
    let last = assigned_mac sw i mac (fdb_assign sw.fdb i mac) in
    let differs = v.mac_set && not (mac_equals v.mac mac) in
    let dup : Status × Switch = (failure vnet_dup_mac, count_both count_dup_mac sw i) in
    let inval : Status × Switch = (failure vnet_inval_mac, count_both count_invalid_mac sw i) in
    let second : Status × Switch = if differs then dup else last in
    let first : Status × Switch = if not (mac_is_local_unicast mac) then inval else second in
    let opened : Status × Switch = if not v.is_open then (failure vnet_not_open, sw) else first in
    if-each Sound (failure vnet_badarg, sw) opened (leb sw.nvm i) inv
      (if-each Sound (failure vnet_not_open, sw) first (not v.is_open) inv
        (if-each Sound inval second (not (mac_is_local_unicast mac))
          (count_both-IsSwitch count_invalid_mac sw i inv)
          (if-each Sound dup last differs (count_both-IsSwitch count_dup_mac sw i inv) (
            assigned_mac-Sound sw i mac (fdb_assign sw.fdb i mac) inv
              (fdb_assign-Extends sw.fdb i mac inv.0) (fdb_assign-Assigns sw.fdb i mac)))))

-- Opening a port, assigning an address, polling, reading and releasing a received frame, the
-- acknowledgement and the expiry of frames keep the invariant of the switch on every branch.
pub switch_operations-IsSwitch :
    (sw : Switch) (i : ℕ) (mac : Mac) (slot gen : ℕ) (dst : ℕ → ℕ) (n now timeout : ℕ)
    → IsSwitch sw
    → IsSwitch (switch_open sw i).2
      × IsSwitch (switch_assign_mac sw i mac).1
      × IsSwitch (switch_poll_rx sw i).2
      × IsSwitch (switch_read_rx sw i slot gen dst n).1
      × IsSwitch (switch_release_rx sw i slot gen).1
      × IsSwitch (switch_irq_ack sw i).1
      × IsSwitch (switch_drop_expired sw now timeout).1
switch_operations-IsSwitch sw i mac slot gen dst n now timeout inv = (
  switch_open-IsSwitch sw i inv,
  switch_assign_mac-IsSwitch sw i mac inv,
  keep (switch_poll_rx sw i).2 (switch_poll_rx-Keeps every i refl sw),
  keep (switch_read_rx sw i slot gen dst n).1 (switch_read_rx-Keeps every i refl sw slot gen dst n),
  keep (switch_release_rx sw i slot gen).1 (switch_release_rx-Keeps every i refl sw slot gen),
  keep (switch_irq_ack sw i).1 (switch_irq_ack-Keeps every i refl sw),
  keep (switch_drop_expired sw now timeout).1 (switch_drop_expired-Keeps sw now timeout),
)
  where
    keep : (t : Switch) → Keeps every sw t → IsSwitch t
    keep t k = Keeps-IsSwitch every sw t k inv

reset_vnics-below :
    (rings : ℕ → ℕ → RxDesc) (depth n i : ℕ) (vnics : ℕ → Vnic)
    → i < n
    → reset_vnics rings depth n vnics i ≡ vnic_reset (rings i) depth
unfolding reset_vnics for_below
reset_vnics-below rings depth zero i vnics lt = absurd (omega arith)
reset_vnics-below rings depth (suc n) i vnics lt = elim (dec_eq n i) [
  | yes p ↦
      let here : (n == i) ≡ true = ground arith in rw here (ap (λ k. vnic_reset (rings k) depth) p)
  | no ne ↦
      let away : (n == i) ≡ false = ground arith in
      rw away (reset_vnics-below rings depth n i vnics (omega arith))
]

-- The switch of a successful result
abbrev SoundIf : Status × Switch → Type 0
SoundIf z = is_success z.0 ≡ true → IsSwitch z.1

-- A successful set-up establishes the invariant, with fewer than 2^16 frames.
pub switch_init-IsSwitch :
    (sw : Switch) (vnics : ℕ → Vnic) (nvm : ℕ) (frames : ℕ → Frame) (frame_count : ℕ)
    (table : ℕ → FdbEntry) (n : ℕ) (rings : ℕ → ℕ → RxDesc) (depth : ℕ) (flood : Bool)
    → frame_count < 2 ^ 16
    → is_success (switch_init sw vnics nvm frames frame_count table n rings depth flood).0 ≡ true
    → IsSwitch (switch_init sw vnics nvm frames frame_count table n rings depth flood).1
unfolding switch_init
switch_init-IsSwitch sw vnics nvm frames frame_count table n rings depth flood small =
    if-each SoundIf _ _ (nvm == 0) (λ k. absurd (cc k))
      (if-each SoundIf _ _ (frame_count == 0) (λ k. absurd (cc k))
        (if-each SoundIf _ _ (n == 0) (λ k. absurd (cc k))
          (if-each SoundIf _ _ (depth == 0) (λ k. absurd (cc k))
            (λ k. (
              fdb_init-IsFdb table n,
              pool_init-IsPool frames frame_count small,
              λ i lt e. absurd (
                  cc (
                    sym e,
                    ap (λ v. Vnic.mac_set v) (reset_vnics-below rings depth nvm i vnics lt),
                  )),
            )))))
