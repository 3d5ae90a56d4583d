-- ===== src/Ffm/Recovery.antt =====
-- What is done when a partition faults or a client dies: `wt_ffm_fail_partition_messages`,
-- `wt_ffm_fail_client_connections` and `wt_ffm_partition_restarted`.
pub mod Cleanup
use wolf_trust_fork.Base.{
  ℕ, ◌+◌, ◌%◌, ◌^◌, Bool, true, false, not, ◌&&◌, ◌||◌, ◌==◌, if◌then◌else◌, ℤ, ◌==ℤ◌, for_below,
}
use wolf_trust_fork.Ipc.State.{free, error, terminal, same_state}
use wolf_trust_fork.Ffm.State.{
  Runtime, Message, Result, ok, err, bad_policy, max_connections, max_messages, queue_none,
  Abandoned, kept, abandoned_reply, abandoned_close, set_connection, set_message, set_service,
  set_partition,
}
use wolf_trust_fork.Ffm.Lookup.{find_partition}
use wolf_trust_fork.Ffm.Pools.{release_connection, release_message, owner_domain, same_domain}
use wolf_trust_fork.Ffm.Queue.{is_abandoned, update_service_signal, dequeue_message}

-- The runtime and the count that a loop carries.
abbrev pub Counted : Type 0
Counted = Runtime × ℕ

abbrev pub closes : Abandoned → Bool
closes abandoned_close = true
closes _ = false

-- An abandoned message that is force-completed is released, with its connection if that was closed.
unfoldable pub drop_abandoned : Runtime → ℕ → Runtime
drop_abandoned r m =
    let message = r.messages m in
    if not (is_abandoned message.abandoned)
    then r
    else if closes message.abandoned
    then release_message (release_connection r message.connection_index) m
    else release_message r m

-- One message of the faulted partition completes with the status, and its connection is in error.
unfoldable pub fail_message : Runtime → ℕ → ℤ → Runtime
fail_message r m status =
    let message = r.messages m in
    let c = message.connection_index in
    drop_abandoned
      (set_connection
        (set_message r m
          (record message { reply_status = status; active = false; complete = true }))
        c (record (r.connections c) { state = error }))
      m

unfoldable pub fail_message_step : ℤ → ℤ → ℕ → Counted → Counted
fail_message_step partition_id status m (r, failed) =
    let message = r.messages m in
    if not message.allocated || message.complete
    then (r, failed)
    else if not (same_domain (owner_domain r message.service_index) partition_id)
    then (r, failed)
    else (fail_message r m status, failed + 1)

-- The queue of a service of the faulted partition is emptied, and its signal dropped.
unfoldable pub drain_service_step : ℤ → ℕ → Runtime → Runtime
drain_service_step partition_id s r =
    if not (same_domain (owner_domain r s) partition_id)
    then r
    else update_service_signal
        (set_service r s
          (record (r.services s) { queue_head = queue_none; queue_tail = queue_none }))
        s

unfoldable pub fail_connection_step : ℤ → ℕ → Runtime → Runtime
fail_connection_step partition_id c r =
    let connection = r.connections c in
    if not connection.allocated
      || same_state connection.state free
      || same_state connection.state terminal
    then r
    else if not (same_domain (owner_domain r connection.service_index) partition_id)
    then r
    else set_connection r c (record connection { state = error; rhandle = 0 })

-- `wt_ffm_fail_partition_messages`
unfoldable pub fail_partition_messages : Runtime → ℤ → ℤ → Counted
fail_partition_messages r partition_id status =
    let (r1, failed) = for_below max_messages (fail_message_step partition_id status) (r, 0) in
    let r2 = for_below r1.service_count (drain_service_step partition_id) r1 in
    (for_below max_connections (fail_connection_step partition_id) r2, failed)

-- A message that waits leaves its queue.
abbrev pub leave_queue : Runtime → ℕ → Runtime
leave_queue r m =
    if not (r.messages m).complete && not (r.messages m).active
    then dequeue_message r (r.messages m).service_index m
    else r

-- A message of the dead client leaves its queue, if it waits there, and is released.
unfoldable pub drop_client_message : ℤ → ℕ → Runtime → Runtime
drop_client_message caller m r =
    let message = r.messages m in
    if not message.allocated || not (message.caller ==ℤ caller)
    then r
    else release_message (leave_queue r m) m

unfoldable pub drop_client_connection : ℤ → ℕ → Counted → Counted
drop_client_connection caller c (r, freed) =
    let connection = r.connections c in
    if not connection.allocated || not (connection.caller ==ℤ caller)
    then (r, freed)
    else (release_connection r c, freed + 1)

-- `wt_ffm_fail_client_connections`
unfoldable pub fail_client_connections : Runtime → ℤ → Counted
fail_client_connections r caller =
    for_below max_connections (drop_client_connection caller)
      (for_below max_messages (drop_client_message caller) r, 0)

-- `wt_ffm_partition_restarted`
unfoldable pub partition_restarted : Runtime → ℤ → ℤ → Result Counted
partition_restarted r partition_id status = elim (find_partition r partition_id) [
  | err e ↦ err bad_policy
  | ok p ↦
      let (r1, failed) = fail_partition_messages r partition_id status in
      let r2 = (fail_client_connections r1 partition_id).0 in
      ok (
        set_partition r2 p (record (r2.partitions p) {
          asserted_signals = 0;
          instance_number = ((r2.partitions p).instance_number + 1) % 2 ^ 32;
        }),
        failed,
      )
]
