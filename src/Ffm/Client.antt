-- ===== src/Ffm/Client.antt =====
-- What a client asks of the manager, in the two halves that Secure Partitions use: `..._begin` checks the
-- request and queues a message, `..._finish` takes the reply. The synchronous calls of `Ffm.Sync` start
-- with the same checks, which are functions of their own here.
pub mod Admit
use wolf_trust_fork.Base.{
  ℕ, ◌+◌, Bool, true, false, not, ◌&&◌, ◌||◌, ltb, leb, ◌==◌, if◌then◌else◌, Option, none, some, ℤ,
  pos, negsuc, ◌==ℤ◌, is_neg, ◌≡◌, refl, ◌⊎◌, inl, inr,
}
use wolf_trust_fork.Ipc.State.{
  pending_connect, idle, pending_request, disconnecting, error, same_state,
}
use wolf_trust_fork.Ffm.State.{
  Runtime, Message, Result, ok, err, FfmError, bad_argument, bad_state, bad_buffer, no_resource,
  max_connections_per_client, max_ns_connections, max_messages, max_iovec, psa_success,
  psa_error_programmer_error, psa_error_connection_refused, psa_error_connection_busy,
  psa_error_not_supported, psa_error_invalid_argument, psa_error_insufficient_memory,
  psa_ipc_connect, psa_ipc_disconnect, set_connection, set_message,
}
use wolf_trust_fork.Ffm.Handle.{make_handle, connection_type}
use wolf_trust_fork.Ffm.Lookup.{
  caller_instance, find_service, caller_allowed, version_allowed, client_connection_count,
  ns_connection_count,
}
use wolf_trust_fork.Ffm.Pools.{
  alloc_connection, release_connection, alloc_message, release_message, connection_from_handle,
}
use wolf_trust_fork.Ffm.Queue.{close_abandoned, enqueue}
use wolf_trust_fork.Ffm.Vectors.{Iovecs, prepare_vectors}

-- The service that a client may connect to now, or the status of the refusal.
pub data Admission : Type 0 where
  admit : ℕ → Admission
  refuse : ℤ → Admission

pub Admission-cases :
    (a : Admission) → ((status : ℤ) × (a ≡ refuse status)) ⊎ ((s : ℕ) × (a ≡ admit s))
Admission-cases (refuse status) = inl (status, refl)
Admission-cases (admit s) = inr (s, refl)

-- The policy and the quotas of a connect, at a service that was found.
unfoldable pub admit_service : Runtime → ℤ → ℕ → ℕ → Admission
admit_service r caller s version =
    if not (caller_allowed r caller s) || not (version_allowed (r.services s).descriptor version)
    then refuse psa_error_connection_refused
    else if not (r.services s).descriptor.connection_based
    then refuse psa_error_not_supported
    else if leb max_connections_per_client (client_connection_count r caller)
    then refuse psa_error_connection_busy
    else if is_neg caller && leb max_ns_connections (ns_connection_count r)
    then refuse psa_error_connection_busy
    else admit s

unfoldable pub admit_connect : Runtime → ℤ → ℕ → ℕ → Admission
admit_connect r caller sid version =
    if caller ==ℤ pos 0 then refuse psa_error_invalid_argument else elim (find_service r sid) [
      | err e ↦ refuse psa_error_connection_refused
      | ok s ↦ admit_service r caller s version
    ]

-- A request that has queued a message, or a status with the runtime that the refusal leaves.
pub data Opened : Type 0 where
  opened : Runtime → ℤ → ℕ → ℕ → Opened
  turned_away : Runtime → ℤ → Opened

-- The message of a request, before its vectors are loaded.
abbrev pub address_message : Message → ℤ → ℕ → ℕ → ℤ → Message
address_message m caller c s type = record m {
  caller = caller;
  connection_index = c;
  service_index = s;
  type = type;
}

-- The slots are taken: fill them in, and queue the connect message. The result has the handle, the
-- connection and the message.
unfoldable pub post_connect : Runtime → ℤ → ℕ → ℕ → ℕ → Opened
post_connect r caller s c m =
    let filled = set_connection r c (record (r.connections c) {
      caller = caller;
      client_instance = caller_instance r caller;
      service_index = s;
      state = pending_connect;
    }) in
    let addressed =
      set_message filled m (address_message (r.messages m) caller c s psa_ipc_connect) in
    opened (enqueue addressed s m) (make_handle connection_type c (r.connections c).generation) c m

-- A connection slot is taken: take a message slot too, or give the connection back.
unfoldable pub connect_message : Runtime → ℤ → ℕ → ℕ → Opened
connect_message r caller s c = elim (alloc_message r) [
  | none ↦ turned_away (release_connection r c) psa_error_connection_busy
  | some (m, r1) ↦ post_connect r1 caller s c m
]

unfoldable pub open_connection : Runtime → ℤ → ℕ → Opened
open_connection r caller s = elim (alloc_connection r) [
  | none ↦ turned_away r psa_error_connection_busy
  | some (c, r1) ↦ connect_message r1 caller s c
]

-- `wt_ffm_connect_begin`, and `wt_ffm_connect` up to its dispatch
unfoldable pub connect_begin : Runtime → ℤ → ℕ → ℕ → Opened
connect_begin r caller sid version = elim (admit_connect r caller sid version) [
  | refuse status ↦ turned_away r status
  | admit s ↦ open_connection r caller s
]

-- A malformed or ill-timed call: an idle connection drops to the error state, another one is latched.
unfoldable pub mark_error : Runtime → ℕ → Runtime
mark_error r c =
    if same_state (r.connections c).state idle
    then set_connection r c (record (r.connections c) { state = error })
    else set_connection r c (record (r.connections c) { error_latch = true })

-- The call is none, or it has too many vectors.
abbrev pub malformed : ℤ → Iovecs → Iovecs → Bool
malformed type ins outs =
    is_neg type
    || ltb max_iovec ins.count
    || ltb max_iovec outs.count
    || ltb max_iovec (ins.count + outs.count)

-- A message slot is taken and its vectors are judged: queue the loaded message, or release the slot.
-- Only a request that is too large leaves the connection usable.
unfoldable pub queue_call : Runtime → ℕ → ℕ → Result Message → Opened
queue_call r c m (err bad_buffer) = turned_away (release_message r m) psa_error_invalid_argument
queue_call r c m (err e) =
    turned_away
      (set_connection (release_message r m) c (record (r.connections c) { state = error }))
      psa_error_programmer_error
queue_call r c m (ok loaded) =
    opened
      (enqueue
        (set_message (set_connection r c (record (r.connections c) { state = pending_request })) m
          loaded)
        (r.connections c).service_index m)
      psa_success c m

module _ (check_read check_write : ℤ → ℕ → ℕ → Bool) (memory : ℕ → ℕ) where
  -- The message of the call with its vectors.
  abbrev pub call_message : Runtime → ℤ → ℕ → ℕ → ℤ → Iovecs → Iovecs → Result Message
  call_message r caller c m type ins outs =
      prepare_vectors check_read check_write memory
        (address_message (r.messages m) caller c (r.connections c).service_index type) ins outs

  -- The call on a connection that the handle gave.
  unfoldable pub call_on : Runtime → ℤ → ℕ → ℤ → Iovecs → Iovecs → Opened
  call_on r caller c type ins outs =
      if malformed type ins outs
      then turned_away (mark_error r c) psa_error_programmer_error
      else if not (same_state (r.connections c).state idle)
      then turned_away (set_connection r c (record (r.connections c) { error_latch = true }))
          psa_error_programmer_error
      else elim (alloc_message r) [
        | none ↦ turned_away r psa_error_insufficient_memory
        | some (m, r1) ↦ queue_call r1 c m (call_message r1 caller c m type ins outs)
      ]

  unfoldable pub call_from : Runtime → ℤ → ℤ → Iovecs → Iovecs → Result ℕ → Opened
  call_from r caller type ins outs (err e) = turned_away r psa_error_programmer_error
  call_from r caller type ins outs (ok c) = call_on r caller c type ins outs

  -- `wt_ffm_call_begin`, and `wt_ffm_call` up to its dispatch
  unfoldable pub call_begin : Runtime → ℤ → ℤ → ℤ → Iovecs → Iovecs → Opened
  call_begin r caller handle type ins outs =
      if caller ==ℤ pos 0
      then turned_away r psa_error_invalid_argument
      else call_from r caller type ins outs (connection_from_handle r caller handle)

-- `wt_ffm_call_refuse`
unfoldable pub call_refuse : Runtime → ℤ → ℤ → Runtime
call_refuse r caller handle =
    if caller ==ℤ pos 0
    then r
    else elim (connection_from_handle r caller handle) [ err e ↦ r | ok c ↦ mark_error r c ]

-- What `wt_ffm_close_begin` returns: `closing` queued a message, `closed` needs none.
pub data Closing : Type 0 where
  closing : Runtime → ℕ → ℕ → Closing
  closed : Runtime → Closing
  not_closed : FfmError → Closing

unfoldable pub post_close : Runtime → ℤ → ℕ → ℕ → Closing
post_close r caller c m =
    let s = (r.connections c).service_index in
    closing
      (enqueue
        (set_message (set_connection r c (record (r.connections c) { state = disconnecting })) m
          (address_message (r.messages m) caller c s psa_ipc_disconnect))
        s m)
      c m

abbrev pub open_to_close : Runtime → ℕ → Bool
open_to_close r c =
    same_state (r.connections c).state idle || same_state (r.connections c).state error

unfoldable pub close_message : Runtime → ℤ → ℕ → Option (ℕ × Runtime) → Closing
close_message r caller c none = not_closed no_resource
close_message r caller c (some (m, r1)) = post_close r1 caller c m

unfoldable pub close_kept : Runtime → ℤ → ℕ → Option Runtime → Closing
close_kept r caller c (some r1) = closed r1
close_kept r caller c none = close_message r caller c (alloc_message r)

unfoldable pub close_on : Runtime → ℤ → ℕ → Closing
close_on r caller c =
    if not (open_to_close r c)
    then not_closed bad_state
    else close_kept r caller c (close_abandoned r c)

unfoldable pub close_from : Runtime → ℤ → Result ℕ → Closing
close_from r caller (err e) = not_closed e
close_from r caller (ok c) = close_on r caller c

-- `wt_ffm_close_begin`, and `wt_ffm_close` up to its dispatch
unfoldable pub close_begin : Runtime → ℤ → ℤ → Closing
close_begin r caller handle =
    if handle ==ℤ pos 0
    then closed r
    else if caller ==ℤ pos 0
    then not_closed bad_argument
    else close_from r caller (connection_from_handle r caller handle)
