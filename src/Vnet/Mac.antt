-- ===== src/Vnet/Mac.antt =====
-- src/vnet/vnet_mac.c: tests on Ethernet addresses.
use wolf_trust_fork.Base.{ℕ, Bool, true, false, not, bit_and, bit_or, bit_xor, ◌==◌, if◌then◌else◌}
use wolf_trust_fork.Vnet.State.{Mac}
pub mod Equality

-- `vnet_mac_is_zero`
unfoldable pub mac_is_zero : Mac → Bool
mac_is_zero m = bit_or (bit_or (bit_or (bit_or (bit_or m.b0 m.b1) m.b2) m.b3) m.b4) m.b5 == 0

-- `vnet_mac_is_broadcast`
unfoldable pub mac_is_broadcast : Mac → Bool
mac_is_broadcast m =
    bit_and (bit_and (bit_and (bit_and (bit_and m.b0 m.b1) m.b2) m.b3) m.b4) m.b5 == 255

-- `vnet_mac_is_multicast`
unfoldable pub mac_is_multicast : Mac → Bool
mac_is_multicast m = not (bit_and m.b0 1 == 0)

-- `vnet_mac_is_locally_administered`
unfoldable pub mac_is_local : Mac → Bool
mac_is_local m = not (bit_and m.b0 2 == 0)

-- `vnet_mac_is_locally_administered_unicast`
unfoldable pub mac_is_local_unicast : Mac → Bool
unfolding mac_is_zero mac_is_multicast mac_is_local
mac_is_local_unicast m =
    if mac_is_zero m then false else if mac_is_multicast m then false else mac_is_local m

-- `vnet_mac_equals`; the exclusive or of two bytes is a byte, so that the casts leave it
unfoldable pub mac_equals : Mac → Mac → Bool
mac_equals a b =
    let diff0 = bit_xor a.b0 b.b0 in
    let diff1 = bit_or diff0 (bit_xor a.b1 b.b1) in
    let diff2 = bit_or diff1 (bit_xor a.b2 b.b2) in
    let diff3 = bit_or diff2 (bit_xor a.b3 b.b3) in
    let diff4 = bit_or diff3 (bit_xor a.b4 b.b4) in
    let diff5 = bit_or diff4 (bit_xor a.b5 b.b5) in diff5 == 0

-- `vnet_mac_copy`: what the destination holds afterwards
unfoldable pub mac_copy : Mac → Mac
mac_copy src = record {
  b0 = src.b0;
  b1 = src.b1;
  b2 = src.b2;
  b3 = src.b3;
  b4 = src.b4;
  b5 = src.b5;
}
