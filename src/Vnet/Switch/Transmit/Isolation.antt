-- ===== src/Vnet/Switch/Transmit/Isolation.antt =====
-- A whole transmission: the invariant, the sender's address and the ports that are reached.
use wolf_trust_fork.Base.{
  ℕ, ◌<◌, ◌≤◌, ◌≡◌, ◌≢◌, refl, Bool, true, false, not, ◌||◌, ltb, leb, arith, inl, inr, Bool-cases,
}
use wolf_trust_fork.Vnet.State.{Switch, frame_min, frame_max, is_success, no_vm}
use wolf_trust_fork.Vnet.Mac.{mac_is_zero, mac_is_multicast, mac_equals}
use wolf_trust_fork.Vnet.Mac.Equality.{mac_equals-eq}
use wolf_trust_fork.Vnet.Fdb.Assigned.{Assigns, fdb_lookup-assigned}
use wolf_trust_fork.Vnet.Switch.Keeps.{IsSwitch, Keeps-IsSwitch}
use wolf_trust_fork.Vnet.Switch.Transmit.{mac_at, tx_sized, switch_tx}
use wolf_trust_fork.Vnet.Switch.Transmit.Private.{reaches}
use wolf_trust_fork.Vnet.Switch.Transmit.Stages.{switch_tx-Kept}

-- What a transmission that was accepted tells of the sender and of the frame
abbrev pub Accepted : Switch → ℕ → (ℕ → ℕ) → ℕ → Type 0
Accepted sw src frame len =
    (src < sw.nvm)
    × ((sw.vnics src).is_open ≡ true)
    × ((sw.vnics src).mac_set ≡ true)
    × (mac_at frame 6 ≡ (sw.vnics src).mac)
    × (frame_min ≤ len)
    × (len ≤ frame_max)

undo_not : (b : Bool) → not b ≡ false → b ≡ true
undo_not true h = refl
undo_not false h = absurd (cc h)

below : (a b : ℕ) → leb b a ≡ false → a < b
below a b h = ground arith

within :
    (len : ℕ)
    → (ltb len frame_min || ltb frame_max len) ≡ false
    → (frame_min ≤ len) × (len ≤ frame_max)
within len h = ground arith

tx_sized-success :
    (sw : Switch) (src : ℕ) (frame : ℕ → ℕ) (len now : ℕ)
    → is_success (tx_sized sw src frame len now).0 ≡ true
    → mac_at frame 6 ≡ (sw.vnics src).mac
unfolding tx_sized
tx_sized-success sw src frame len now h =
    let mac = mac_at frame 6 in
    elim (Bool-cases (mac_is_zero mac || mac_is_multicast mac)) [
      | inl e ↦ absurd (cc (rw e at h))
      | inr e ↦ elim (Bool-cases (not (mac_equals mac (sw.vnics src).mac))) [
        | inl f ↦ absurd (cc (rw (e, f) at h))
        | inr own ↦ mac_equals-eq mac (sw.vnics src).mac (undo_not _ own)
      ]
    ]

switch_tx-success :
    (sw : Switch) (src : ℕ) (frame : ℕ → ℕ) (len now : ℕ)
    → is_success (switch_tx sw src frame len now).0 ≡ true
    → Accepted sw src frame len
unfolding switch_tx
switch_tx-success sw src frame len now h = elim (Bool-cases (leb sw.nvm src)) [
  | inl e ↦ absurd (cc (rw e at h))
  | inr inside ↦ elim (Bool-cases (not (sw.vnics src).is_open)) [
    | inl e ↦ absurd (cc (rw (inside, e) at h))
    | inr up ↦ elim (Bool-cases (not (sw.vnics src).mac_set)) [
      | inl e ↦ absurd (cc (rw (inside, up, e) at h))
      | inr has ↦ elim (Bool-cases (ltb len frame_min || ltb frame_max len)) [
        | inl e ↦ absurd (cc (rw (inside, up, has, e) at h))
        | inr size ↦ (
          below src sw.nvm inside,
          undo_not _ up,
          undo_not _ has,
          tx_sized-success sw src frame len now (rw (inside, up, has, size) at h),
          (within len size).0,
          (within len size).1,
        )
      ]
    ]
  ]
]

-- Where the invariant of the switch holds, a transmission keeps it, on every branch, and changes no port
-- but the sender's and those that the frame reaches: open ports that have its destination address, or
-- all open ports for a group address and, where flooding is on, for an unknown one.
pub switch_tx-reaches :
    (sw : Switch) (src : ℕ) (frame : ℕ → ℕ) (len now : ℕ)
    → IsSwitch sw
    → IsSwitch (switch_tx sw src frame len now).1
      × ((j : ℕ)
          → reaches sw src (mac_at frame 0) j ≡ false
          → (switch_tx sw src frame len now).1.vnics j ≡ sw.vnics j)
switch_tx-reaches sw src frame len now inv =
    let k = switch_tx-Kept sw src frame len now inv in
    let s = reaches sw src (mac_at frame 0) in
    (Keeps-IsSwitch s sw (switch_tx sw src frame len now).1 k inv, k.2)

-- Where the invariant of the switch holds, a frame to an address that is assigned to a guest and is no
-- group's changes no port but the guest's and the sender's, and it is accepted only from an open port,
-- with the sender's own address as its source, and with a length within the limits.
pub switch_tx-unicast :
    (sw : Switch) (src : ℕ) (frame : ℕ → ℕ) (len now guest : ℕ)
    → IsSwitch sw
    → Assigns sw.fdb guest (mac_at frame 0)
    → (mac_is_multicast (mac_at frame 0) || mac_is_zero (mac_at frame 0)) ≡ false
    → guest ≢ no_vm
    → ((j : ℕ) → j ≢ src → j ≢ guest → (switch_tx sw src frame len now).1.vnics j ≡ sw.vnics j)
      × (is_success (switch_tx sw src frame len now).0 ≡ true → Accepted sw src frame len)
switch_tx-unicast sw src frame len now guest inv a single real = (
  λ j apart other.
      (switch_tx-reaches sw src frame len now inv).1 j
        (ground (arith, fdb_lookup-assigned sw.fdb guest (mac_at frame 0) inv.0 a single, single)),
  switch_tx-success sw src frame len now,
)
