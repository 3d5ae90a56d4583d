-- ===== src/Tests/Ports.antt =====
-- A switch of three guests, and the theorems of the virtual network applied to it.
use wolf_trust_fork.Base.{
  ℕ, ◌≡◌, ◌≢◌, ◌↔◌, refl, arith, true, false, ◌==◌, if◌then◌else◌, [], ◌∷◌, find, find_from,
  for_below, ◌||◌,
}
use wolf_trust_fork.Vnet.State.{
  Mac, RxDesc, Ring, Frame, FdbEntry, fdb_empty, Switch, is_success, no_vm,
}
use wolf_trust_fork.Vnet.Mac.{
  mac_equals, mac_is_zero, mac_is_multicast, mac_is_local, mac_is_local_unicast, mac_copy,
}
use wolf_trust_fork.Vnet.Mac.Equality.{mac_equals_iff}
use wolf_trust_fork.Vnet.Ring.{ring_init, ring_push, ring_pop, ring_drop_head, ring_peek}
use wolf_trust_fork.Vnet.Ring.Fifo.{
  IsRing, fifo_push, fifo_pop, ring_init-IsRing, ring_operations-IsRing, ring_push-fifo_push,
}
use wolf_trust_fork.Vnet.Fdb.{fdb_init, fdb_assign, fdb_learn, fdb_release, fdb_room, assign_found}
use wolf_trust_fork.Vnet.Fdb.Unique.{IsFdb, Extends}
use wolf_trust_fork.Vnet.Fdb.Assigned.{Assigns, AssignsIf, fdb_operations-IsFdb}
use wolf_trust_fork.Vnet.Switch.{
  switch_init, reset_vnics, switch_open, switch_assign_mac, zeroed_mac, zeroed_stats, vnic_reset,
}
use wolf_trust_fork.Vnet.Switch.Keeps.{IsSwitch}
use wolf_trust_fork.Vnet.Switch.Operations.{
  switch_init-IsSwitch, switch_open-IsSwitch, switch_assign_mac-IsSwitch,
  switch_operations-IsSwitch,
}
use wolf_trust_fork.Vnet.Switch.Transmit.{mac_at, switch_tx}
use wolf_trust_fork.Vnet.Switch.Transmit.Private.{reaches}
use wolf_trust_fork.Vnet.Switch.Transmit.Isolation.{Accepted, switch_tx-reaches, switch_tx-unicast}
use wolf_trust_fork.Vnet.Switch.Receive.{
  switch_poll_rx, switch_read_rx, switch_release_rx, switch_irq_ack, switch_drop_expired,
  skip_stale,
}
use wolf_trust_fork.Vnet.Switch.Receive.Stale.{drop_stale, skip_stale-drop_stale}

-- Locally administered addresses, told apart by the last byte
abbrev address : ℕ → Mac
address last = record { b0 = 2; b1 = 0; b2 = 0; b3 = 0; b4 = 0; b5 = last }

abbrev blank_desc : RxDesc
blank_desc = record { slot = 0; gen = 0; len = 0; flags = 0; src_vm = 0 }

abbrev blank_frame : Frame
blank_frame = record {
  len = 0;
  gen = 0;
  refcnt = 0;
  flags = 0;
  src_vm = 0;
  dst_mask = 0;
  born_tick = 0;
  data_bytes = λ _. 0;
}

abbrev blank_entry : FdbEntry
blank_entry = record { mac = zeroed_mac; guest_id = no_vm; kind = fdb_empty }

abbrev blank_switch : Switch
blank_switch = record {
  vnics = λ _. vnic_reset (λ _. blank_desc) 0;
  nvm = 0;
  pool = record { slots = λ _. blank_frame; slot_count = 0; in_use_count = 0 };
  fdb = record { entries = λ _. blank_entry; capacity = 0 };
  unknown_unicast_flood = false;
  global_stats = zeroed_stats;
}

-- Three ports, four frames, four entries, and rings of two frames
abbrev new_switch : Switch
new_switch =
    (switch_init blank_switch (λ _. vnic_reset (λ _. blank_desc) 0) 3 (λ _. blank_frame) 4
      (λ _. blank_entry) 4 (λ _ _. blank_desc) 2 false).1

started : IsSwitch new_switch
unfolding switch_init
started =
    switch_init-IsSwitch blank_switch (λ _. vnic_reset (λ _. blank_desc) 0) 3 (λ _. blank_frame) 4
      (λ _. blank_entry) 4 (λ _ _. blank_desc) 2 false (omega arith) refl

-- Guests 0 and 1 open their ports, and have the addresses 10 and 11; the port of guest 2 is closed.
abbrev both_open : Switch
both_open = (switch_open (switch_open new_switch 0).2 1).2

abbrev two_ports : Switch
two_ports = (switch_assign_mac (switch_assign_mac both_open 0 (address 10)).1 1 (address 11)).1

two_ports-IsSwitch : IsSwitch two_ports
two_ports-IsSwitch =
    let opened =
      switch_open-IsSwitch (switch_open new_switch 0).2 1
        (switch_open-IsSwitch new_switch 0 started) in
    switch_assign_mac-IsSwitch (switch_assign_mac both_open 0 (address 10)).1 1 (address 11)
      (switch_assign_mac-IsSwitch both_open 0 (address 10) opened)

-- A frame from the address 10 to the address 11
abbrev frame : ℕ → ℕ
frame j =
    if j == 0 then 2 else if j == 5 then 11 else if j == 6 then 2 else if j == 11 then 10 else 0

switch_tx-reaches_example :
    IsSwitch (switch_tx two_ports 0 frame 60 7).1
    × ((j : ℕ)
        → reaches two_ports 0 (mac_at frame 0) j ≡ false
        → (switch_tx two_ports 0 frame 60 7).1.vnics j ≡ two_ports.vnics j)
switch_tx-reaches_example = switch_tx-reaches two_ports 0 frame 60 7 two_ports-IsSwitch

eleven : Assigns two_ports.fdb 1 (mac_at frame 0)
unfolding switch_init switch_open switch_assign_mac reset_vnics fdb_init fdb_assign assign_found
    fdb_room mac_equals mac_is_zero mac_is_multicast mac_is_local mac_is_local_unicast mac_copy find
    find_from for_below
eleven = (1, omega arith, refl, refl, refl)

single : mac_is_multicast (mac_at frame 0) ≡ false
unfolding mac_is_multicast
single = refl

mapped : (mac_is_multicast (mac_at frame 0) || mac_is_zero (mac_at frame 0)) ≡ false
unfolding mac_is_multicast mac_is_zero
mapped = refl

switch_tx-unicast_example :
    ((j : ℕ) → j ≢ 0 → j ≢ 1 → (switch_tx two_ports 0 frame 60 7).1.vnics j ≡ two_ports.vnics j)
    × (is_success (switch_tx two_ports 0 frame 60 7).0 ≡ true → Accepted two_ports 0 frame 60)
switch_tx-unicast_example =
    switch_tx-unicast two_ports 0 frame 60 7 1 two_ports-IsSwitch eleven mapped (omega arith)

-- The port of guest 1 holds the frame.
abbrev sent : Switch
sent = (switch_tx two_ports 0 frame 60 7).1

sent-IsSwitch : IsSwitch sent
sent-IsSwitch = switch_tx-reaches_example.0

switch_operations-IsSwitch_example :
    IsSwitch (switch_open sent 2).2
    × IsSwitch (switch_assign_mac sent 2 (address 12)).1
    × IsSwitch (switch_poll_rx sent 2).2
    × IsSwitch (switch_read_rx sent 2 0 1 frame 60).1
    × IsSwitch (switch_release_rx sent 2 0 1).1
    × IsSwitch (switch_irq_ack sent 2).1
    × IsSwitch (switch_drop_expired sent 600 500).1
switch_operations-IsSwitch_example =
    switch_operations-IsSwitch sent 2 (address 12) 0 1 frame 60 600 500 sent-IsSwitch

fdb_operations-IsFdb_example :
    Extends two_ports.fdb (fdb_assign two_ports.fdb 2 (address 12)).1
    × AssignsIf 2 (address 12) (fdb_assign two_ports.fdb 2 (address 12))
    × Extends two_ports.fdb (fdb_learn two_ports.fdb 2 (address 12)).1
    × IsFdb (fdb_release two_ports.fdb 2)
fdb_operations-IsFdb_example =
    fdb_operations-IsFdb two_ports.fdb 2 (address 12) two_ports-IsSwitch.0

mac_equals_iff_example : (mac_equals (address 10) (address 11) ≡ true) ↔ (address 10 ≡ address 11)
mac_equals_iff_example = mac_equals_iff (address 10) (address 11)

-- A ring of two cells that holds one frame
abbrev received_desc : RxDesc
received_desc = record { slot = 0; gen = 1; len = 60; flags = 0; src_vm = 0 }

abbrev small_ring : Ring
small_ring = ring_init (λ _. blank_desc) 2

abbrev one_frame : Ring
one_frame = (ring_push small_ring received_desc).1

one_frame-IsRing : IsRing one_frame (received_desc ∷ [])
unfolding fifo_push
one_frame-IsRing =
    (ring_push-fifo_push small_ring [] received_desc
      (ring_init-IsRing (λ _. blank_desc) 2 (omega arith) (omega arith))).1

ring_operations-IsRing_example :
    (((ring_push one_frame blank_desc).0
        ≡ (fifo_push one_frame.capacity (received_desc ∷ []) blank_desc).0)
      × IsRing
          (ring_push one_frame blank_desc).1
          (fifo_push one_frame.capacity (received_desc ∷ []) blank_desc).1)
    × (((ring_pop one_frame).0 ≡ (fifo_pop (received_desc ∷ [])).0)
        × ((ring_pop one_frame).1 ≡ (fifo_pop (received_desc ∷ [])).1)
        × IsRing (ring_pop one_frame).2 (fifo_pop (received_desc ∷ [])).2)
    × (ring_drop_head one_frame ≡ ((ring_pop one_frame).0, (ring_pop one_frame).2))
    × (ring_peek one_frame ≡ ((ring_pop one_frame).0, (ring_pop one_frame).1))
ring_operations-IsRing_example =
    ring_operations-IsRing one_frame (received_desc ∷ []) blank_desc one_frame-IsRing

skip_stale-drop_stale_example :
    IsRing (skip_stale 5 sent.pool one_frame) (drop_stale sent.pool (received_desc ∷ []))
    × (skip_stale 5 sent.pool one_frame ≡ skip_stale 1 sent.pool one_frame)
skip_stale-drop_stale_example =
    skip_stale-drop_stale sent.pool 5 one_frame (received_desc ∷ []) one_frame-IsRing (omega arith)
