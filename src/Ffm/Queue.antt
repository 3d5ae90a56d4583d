-- ===== src/Ffm/Queue.antt =====
-- The queue of undelivered messages that each service has, linked through the messages.
pub mod Links
pub mod Fifo
pub mod Frame
use wolf_trust_fork.Base.{
  ℕ, zero, suc, bit_and, bit_or, bit_not, Bool, true, false, not, ◌&&◌, ◌==◌, if◌then◌else◌, Option,
  none, some, find,
}
use wolf_trust_fork.Ipc.State.{disconnecting}
use wolf_trust_fork.Ffm.State.{
  Runtime, Connection, Message, Service, Abandoned, kept, abandoned_reply, abandoned_close,
  max_messages, queue_none, set_connection, set_message, set_service, set_partition,
}

abbrev pub is_abandoned : Abandoned → Bool
is_abandoned kept = false
is_abandoned abandoned_reply = true
is_abandoned abandoned_close = true

-- `wt_ffm_close_abandoned`: `some` if a message that its client gave up still holds the connection.
abbrev pub is_given_up : Runtime → ℕ → ℕ → Bool
is_given_up r c i =
    (r.messages i).allocated
    && (is_abandoned (r.messages i).abandoned && (r.messages i).connection_index == c)

abbrev pub close_later : Runtime → ℕ → ℕ → Runtime
close_later r c i =
    set_connection (set_message r i (record (r.messages i) { abandoned = abandoned_close })) c
      (record (r.connections c) { state = disconnecting })

abbrev pub closed_later : Runtime → ℕ → Option ℕ → Option Runtime
closed_later r c none = none
closed_later r c (some i) = some (close_later r c i)

unfoldable pub close_abandoned : Runtime → ℕ → Option Runtime
close_abandoned r c = closed_later r c (find (is_given_up r c) max_messages)

-- `wt_ffm_update_service_signal`: the partition's flag of the service tells whether a message waits.
unfoldable pub update_service_signal : Runtime → ℕ → Runtime
update_service_signal r s =
    let service = r.services s in
    let partition = r.partitions service.partition_index in
    let signal = service.descriptor.signal in
    set_partition r service.partition_index (record partition {
      asserted_signals =
          if service.queue_head == queue_none
          then bit_and partition.asserted_signals (bit_not 32 signal)
          else bit_or partition.asserted_signals signal;
    })

-- The links that `wt_ffm_enqueue` writes.
unfoldable pub link_last : Runtime → ℕ → ℕ → Runtime
link_last r s m =
    let service = r.services s in
    if service.queue_tail == queue_none
    then set_service r s (record service { queue_head = m; queue_tail = m })
    else set_service
        (set_message r service.queue_tail (record (r.messages service.queue_tail) { next = m })) s
        (record service { queue_tail = m })

-- `wt_ffm_enqueue`
unfoldable pub enqueue : Runtime → ℕ → ℕ → Runtime
enqueue r s m = update_service_signal (link_last r s m) s

-- The body of the loop of `wt_ffm_dequeue_message` where `current` is the message to unlink.
unfoldable pub unlink : Runtime → ℕ → ℕ → ℕ → Runtime
unlink r s current previous =
    let service = r.services s in
    let after = (r.messages current).next in
    let new_tail = if service.queue_tail == current then previous else service.queue_tail in
    let linked =
      if previous == queue_none
      then set_service r s (record service { queue_head = after; queue_tail = new_tail })
      else set_service (set_message r previous (record (r.messages previous) { next = after })) s
          (record service { queue_tail = new_tail }) in
    set_message linked current (record (linked.messages current) { next = queue_none })

-- Its loop, for at most as many rounds as the fuel; a queue holds at most `max_messages` messages.
unfoldable pub unlink_from : ℕ → Runtime → ℕ → ℕ → ℕ → ℕ → Runtime
unlink_from zero r s m current previous = r
unlink_from (suc fuel) r s m current previous =
    let rest = unlink_from fuel r s m (r.messages current).next current in
    if current == queue_none then r else if current == m then unlink r s current previous else rest

-- `wt_ffm_dequeue_message`
unfoldable pub dequeue_message : Runtime → ℕ → ℕ → Runtime
dequeue_message r s m =
    update_service_signal
      (unlink_from (suc max_messages) r s m (r.services s).queue_head queue_none) s

-- The links that `wt_ffm_get` writes when it takes the head of the queue, which is message `m`.
unfoldable pub pop_head : Runtime → ℕ → ℕ → Runtime
pop_head r s m =
    let service = r.services s in
    let after = (r.messages m).next in
    set_message
      (set_service r s (record service {
        queue_head = after;
        queue_tail = if after == queue_none then queue_none else service.queue_tail;
      }))
      m (record (r.messages m) { next = queue_none; active = true })
