-- ===== src/Lib.antt =====
-- wolfTrust: the FF-M manager of Secure Partitions, the IPC connection rules, the virtual network,
-- the dependencies of a manifest, the restart of partitions and the sleep mutex.
--
-- The program keeps Secure Partitions and their clients apart on Armv8-M. A client reaches a service
-- only through the manager of src/ffm.c: it connects, calls and closes, and each request is a
-- message in a fixed pool that waits in a linked queue of its service until the partition gets it,
-- reads and writes its vectors, and replies. src/ipc.c has the state machine of one connection, and
-- the validation of vectors that the manager uses for every call. The partitions come from a system
-- manifest, which src/manifest.c checks before src/ffm.c reads it; a crashed partition is restarted
-- by src/sp_recovery.c within the budget of src/restart_policy.c, after its clients were unblocked
-- through the manager. The coroutines of the secure side wait for each other at the mutex of
-- src/sync/mutex.c. The guests exchange Ethernet frames through the switch of src/vnet/. The
-- development models these files, of src/manifest.c the check of the dependencies, and the
-- structures of include/wolftrust/ that they keep.
--
-- Which file models which part:
-- - Base: Boolean tests, the C arrays as functions of the index, signed values, bitwise laws.
-- - Ipc.State, Ipc.Connection, Ipc.Vectors: the types of include/wolftrust/ipc.h;
--   `wt_ipc_handle_create`, `wt_ipc_handle_matches`, `wt_ipc_connection_open`,
--   `wt_ipc_connection_transition`; `wt_ipc_validate_vectors`.
-- - Ffm.State: the runtime of include/wolftrust/ffm.h with its partitions, services, connections and
--   messages.
-- - Ffm.Handle, Ffm.Lookup, Ffm.Pools: handles, searches and policy, the slot pools of src/ffm.c.
-- - Ffm.Queue: `wt_ffm_enqueue`, `wt_ffm_dequeue_message`, `wt_ffm_update_service_signal`,
--   `wt_ffm_close_abandoned`.
-- - Ffm.Vectors, Ffm.Client, Ffm.Finish, Ffm.Sync: `wt_ffm_prepare_vectors`; the two halves of
--   connect, call and close; the synchronous calls.
-- - Ffm.Service, Ffm.Signals, Ffm.Recovery, Ffm.Init: what partitions do with messages and signals;
--   the clean-up after a client or a partition; the initialisation.
-- - Ffm.Waiting: the invariant of all queues together, and a module for each group of operations
--   that keeps it.
-- - Vnet: the switch of src/vnet/. Vnet.State has the structures of include/wolftrust/vnet/,
--   Vnet.Mac, Vnet.Ring, Vnet.Pool, Vnet.Fdb and Vnet.Switch the files vnet_mac.c to vnet_switch.c,
--   with Transmit for `vnet_switch_tx` and Receive for what a guest does with received frames. A
--   function named `vnet_switch_f` is `switch_f`, and so for the others.
-- - Manifest.Dependencies: `wt_manifest_find_service` and `wt_manifest_validate_dependencies` of
--   src/manifest.c, over the manifest that Ffm.Init reads.
-- - Restart: src/restart_policy.c and src/sp_recovery.c.
-- - Mutex: src/sync/mutex.c. A coroutine is its index; `wt_mutex_acquire` is `mutex_acquire` up to
--   the first block and `mutex_resume` after each, and the coroutine that a release wakes is
--   returned.
-- - Tests: sample runtimes and a sample switch, and the theorems applied to them.
--
-- A function of src/ffm.c named `wt_ffm_f` is `f` here, one of src/ipc.c named `wt_ipc_f` is `f`
-- without its prefix as the file's comment says. A function that changes the runtime takes it and
-- returns it; a result code is a constructor, and a value that C returns through a pointer is a
-- component of the result. The data that C reaches by a pointer to a slot is read by the slot's
-- index. A helper with no name in C is a part of the function that its comment names, so that a
-- theorem can speak of it.
--
-- Bounds: the pools have 16 connections and 8 messages, and there are at most 9 partitions and 20
-- services, as in the header files. The loop of `wt_ffm_dequeue_message` has fuel for 9 rounds: a
-- queue holds each message at most once, so it has at most 8. The loop of `skip_stale_head` has a
-- round for each frame in the queue, and drops one in each round; the `do` loop of
-- `wt_manifest_validate_dependencies` has one round more than there are partitions, and each round
-- but the last removes one. The loops over the waiters of a mutex take the number of rounds, and
-- more rounds than waiters are enough. All other loops run over a fixed range, and are structural.
-- The sizes of the switch's tables and of the frame pool are those of its set-up; its counters wrap
-- at 32 bits, and the generations of frames at 16. Handles and generations are 32-bit values, and
-- their masks and shifts are written out; subtractions of sizes stop at 0, where the positions of a
-- vector never pass its size.
--
-- Parameters: what the port says of a range of client memory (`check_read`, `check_write`), and the
-- dispatch callback of a partition. Client memory is a function of the address. The arrays of
-- vectors stand apart from it: `out_vec` with `out_len` is an `Iovecs`, and what a call does to its
-- lengths is a component of the result. The operations of the platform in a recovery are a record of
-- functions on a context of any type.
--
-- Not modelled: arguments that are null where the function only refuses them, the words that
-- src/ffm.c writes for a debugger, the name and the stateless index of a service, and the panic
-- callback. The pointers of the switch to storage that its caller owns are given, not null, and
-- apart from each other. The other checks of src/manifest.c, domains, the scheduler, the monitor and
-- the secure gate are other parts of the program. The code of the architecture, the boards and the
-- services is hardware access or calls of wolfHSM and wolfCrypt.
pub mod Base
pub mod Ipc
pub mod Ffm
pub mod Vnet
pub mod Manifest
pub mod Restart
pub mod Mutex
pub mod Tests
