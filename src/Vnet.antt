-- ===== src/Vnet.antt =====
-- src/vnet/ and include/wolftrust/vnet/: the virtual Ethernet switch between the guests. All storage
-- that the code takes from its caller is given, so the tests for NULL arguments have no counterpart.
pub mod State
pub mod Mac
pub mod Ring
pub mod Pool
pub mod Fdb
pub mod Switch
