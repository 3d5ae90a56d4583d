-- ===== src/Ffm/Service.antt =====
-- What a partition that serves a message may do: get it, name the connection, read, skip and write its
-- vectors, and reply.
pub mod Transfer
use wolf_trust_fork.Base.{
  ℕ, ◌+◌, ◌-◌, Bool, true, false, not, ◌&&◌, ◌||◌, ltb, leb, ◌==◌, if◌then◌else◌, Option, none,
  some, ℤ, pos, negsuc, ◌==ℤ◌, is_neg, update, find, min,
}
use wolf_trust_fork.Ipc.State.{
  ConnectionState, connecting, idle, active, disconnecting, error, terminal,
}
use wolf_trust_fork.Ffm.State.{
  Runtime, Message, Connection, Result, ok, err, bad_argument, bad_state, bad_handle, bad_buffer,
  FfmError, max_messages, max_iovec, queue_none, psa_success, psa_error_programmer_error,
  psa_error_connection_refused, psa_error_connection_busy, psa_error_does_not_exist,
  psa_ipc_connect, psa_ipc_disconnect, Abandoned, kept, abandoned_reply, abandoned_close,
  set_connection, set_message,
}
use wolf_trust_fork.Ffm.Handle.{make_handle, message_type}
use wolf_trust_fork.Ffm.Lookup.{find_partition}
use wolf_trust_fork.Ffm.Pools.{release_connection, release_message, message_from_handle}
use wolf_trust_fork.Ffm.Queue.{is_abandoned, update_service_signal, enqueue, pop_head}
use wolf_trust_fork.Ffm.Vectors.{copy}

-- `psa_msg_t`; the sizes are those of all `PSA_MAX_IOVEC` vectors.
pub record PsaMsg : Type 0 where
  pub type : ℤ
  pub handle : ℤ
  pub client_id : ℤ
  pub rhandle : ℕ
  pub in_size : ℕ → ℕ
  pub out_size : ℕ → ℕ

-- What `wt_ffm_get` returns: a message, or a status that leaves the runtime as it was.
pub data Got : Type 0 where
  got : Runtime → PsaMsg → ℕ → Got
  got_none : ℤ → Got

-- A connect message makes its connection connecting, a call makes it active.
abbrev pub serving_state : ℤ → ConnectionState → ConnectionState
serving_state (pos n) s = active
serving_state (negsuc n) s = if n == 0 then connecting else s

abbrev pub start_serving : Runtime → ℕ → Runtime
start_serving r m =
    let c = (r.messages m).connection_index in
    set_connection r c (record (r.connections c) {
      state = serving_state (r.messages m).type (r.connections c).state;
    })

abbrev pub describe : Runtime → ℕ → PsaMsg
describe r m =
    let message = r.messages m in
    record {
      type = message.type;
      handle = make_handle message_type m message.generation;
      client_id = message.caller;
      rhandle = (r.connections message.connection_index).rhandle;
      in_size = message.in_size;
      out_size = message.out_size;
    }

-- The runtime after the head `m` of the queue of service `s` is handed over.
abbrev pub handed : Runtime → ℕ → ℕ → Runtime
handed r s m = start_serving (update_service_signal (pop_head r s m) (r.messages m).service_index) m

-- The part of `wt_ffm_get` that takes the head of the queue of service `s`.
abbrev pub take_head : Runtime → ℕ → ℕ → Got
take_head r s m =
    if m == queue_none
    then got_none psa_error_does_not_exist
    else got (handed r s m) (describe (handed r s m) m) m

unfoldable pub take_message : Runtime → ℕ → Got
take_message r s = take_head r s (r.services s).queue_head

unfoldable pub take_from : Runtime → Option ℕ → Got
take_from r none = got_none psa_error_does_not_exist
take_from r (some s) = take_message r s

-- The partition's service that has the signal.
abbrev pub serves : Runtime → ℕ → ℕ → ℕ → Bool
serves r p signal s =
    (r.services s).partition_index == p && (r.services s).descriptor.signal == signal

-- `wt_ffm_get`
unfoldable pub get : Runtime → ℤ → ℕ → Got
get r partition_id signal =
    if signal == 0
    then got_none psa_error_programmer_error
    else elim (find_partition r partition_id) [
      | err e ↦ got_none psa_error_programmer_error
      | ok p ↦ take_from r (find (serves r p signal) r.service_count)
    ]

-- `wt_ffm_set_rhandle`
unfoldable pub set_rhandle : Runtime → ℤ → ℤ → ℕ → Result Runtime
set_rhandle r partition_id handle rhandle = elim (message_from_handle r partition_id handle) [
  | err e ↦ err bad_handle
  | ok m ↦
      if (r.messages m).type ==ℤ psa_ipc_disconnect
      then ok r
      else let c = (r.messages m).connection_index in
        ok (set_connection r c (record (r.connections c) { rhandle = rhandle }))
]

-- `wt_ffm_msg_access_check`
unfoldable pub msg_access_check : Runtime → ℤ → ℤ → ℕ → Result ℕ
msg_access_check r partition_id handle vec_idx =
    if leb max_iovec vec_idx
    then err bad_argument
    else elim (message_from_handle r partition_id handle) [
      | err e ↦ err bad_handle
      | ok m ↦ if is_neg (r.messages m).type then err bad_state else ok m
    ]

-- The input vector of a message that a partition may read, if any.
abbrev pub readable : Runtime → ℤ → ℤ → ℕ → Option ℕ
readable r partition_id handle idx =
    if leb max_iovec idx then none else elim (message_from_handle r partition_id handle) [
      | err e ↦ none
      | ok m ↦
          if is_neg (r.messages m).type || leb (r.messages m).in_count idx then none else some m
    ]

-- What is left of an input vector, at most `num_bytes`.
abbrev pub read_length : Message → ℕ → ℕ → ℕ
read_length m idx num_bytes =
    let remaining = m.in_size idx - m.in_position idx in
    if ltb num_bytes remaining then num_bytes else remaining

abbrev pub advance_input : Runtime → ℕ → ℕ → ℕ → Runtime
advance_input r m idx n =
    let message = r.messages m in
    set_message r m (record message {
      in_position = update message.in_position idx (message.in_position idx + n);
    })

-- `wt_ffm_read`: the runtime, the buffer and the count of bytes read; `null` stands for a null buffer.
unfoldable pub read : Runtime → ℤ → ℤ → ℕ → Bool → (ℕ → ℕ) → ℕ → Runtime × (ℕ → ℕ) × ℕ
read r partition_id handle idx null buffer num_bytes =
    elim (if null then none else readable r partition_id handle idx) [
      | none ↦ (r, buffer, 0)
      | some m ↦
          let message = r.messages m in
          let n = read_length message idx num_bytes in
          let from = message.in_offset idx + message.in_position idx in
          (advance_input r m idx n, copy buffer 0 (λ k. message.input (from + k)) n, n)
    ]

-- `wt_ffm_skip`
unfoldable pub skip : Runtime → ℤ → ℤ → ℕ → ℕ → Runtime × ℕ
skip r partition_id handle idx num_bytes = elim (readable r partition_id handle idx) [
  | none ↦ (r, 0)
  | some m ↦ let n = read_length (r.messages m) idx num_bytes in (advance_input r m idx n, n)
]

-- The bytes go behind what was written before.
abbrev pub written : Runtime → ℕ → ℕ → (ℕ → ℕ) → ℕ → Runtime
written r m idx buffer num_bytes =
    let message = r.messages m in
    let position = message.out_position idx in
    set_message r m (record message {
      output = copy message.output (message.out_offset idx + position) buffer num_bytes;
      out_position = update message.out_position idx (position + num_bytes);
    })

unfoldable pub write_output : Runtime → ℕ → ℕ → (ℕ → ℕ) → ℕ → Result Runtime
write_output r m idx buffer num_bytes =
    let message = r.messages m in
    if leb message.out_count idx
    then (if num_bytes == 0 then ok r else err bad_buffer)
    else if ltb (message.out_size idx - message.out_position idx) num_bytes
    then err bad_buffer
    else ok (written r m idx buffer num_bytes)

-- `wt_ffm_write`; `null` stands for a null buffer.
unfoldable pub write : Runtime → ℤ → ℤ → ℕ → Bool → (ℕ → ℕ) → ℕ → Result Runtime
write r partition_id handle idx null buffer num_bytes =
    if null && not (num_bytes == 0) || leb max_iovec idx
    then err bad_argument
    else elim (message_from_handle r partition_id handle) [
      | err e ↦ err bad_argument
      | ok m ↦
          if is_neg (r.messages m).type
          then err bad_state
          else write_output r m idx buffer num_bytes
    ]

-- A disconnect must follow the reply to a message that its client gave up.
abbrev pub needs_disconnect : Message → Bool
needs_disconnect m =
    m.type ==ℤ psa_ipc_connect && m.reply_status ==ℤ psa_success
    || not (is_neg m.type) && (elim m.abandoned [ abandoned_close ↦ true | _ ↦ false ])

-- The replied slot `m`, released, becomes the disconnect message of connection `c`.
unfoldable pub post_disconnect : Runtime → ℕ → ℕ → Runtime
post_disconnect r c m =
    let connection = r.connections c in
    let reused = record (r.messages m) {
      allocated = true;
      abandoned = abandoned_close;
      caller = connection.caller;
      connection_index = c;
      service_index = connection.service_index;
      type = psa_ipc_disconnect;
    } in
    enqueue
      (set_connection (set_message r m reused) c (record connection { state = disconnecting }))
      connection.service_index m

-- `wt_ffm_finish_abandoned`
unfoldable pub finish_abandoned : Runtime → ℕ → Runtime
finish_abandoned r m =
    let message = r.messages m in
    let c = message.connection_index in
    if needs_disconnect message
    then post_disconnect (release_message r m) c m
    else if is_neg message.type
    then release_message (release_connection r c) m
    else release_message r m

-- The state that a reply gives the connection, or a refusal of the status.
unfoldable pub replied_state : Message → Connection → ℤ → Result ConnectionState
replied_state m c status =
    if m.type ==ℤ psa_ipc_connect
    then if not (status ==ℤ psa_success)
        && not (status ==ℤ psa_error_connection_refused)
        && not (status ==ℤ psa_error_connection_busy)
      then err bad_argument
      else ok (if status ==ℤ psa_success then idle else error)
    else if m.type ==ℤ psa_ipc_disconnect
    then ok terminal
    else if not (is_neg m.type)
    then if status ==ℤ psa_error_connection_refused || status ==ℤ psa_error_connection_busy
      then err bad_argument
      else ok (if status ==ℤ psa_error_programmer_error || c.error_latch then error else idle)
    else err bad_state

-- The reply is recorded, and the connection is in its new state.
unfoldable pub complete_message : Runtime → ℕ → ConnectionState → ℤ → Runtime
complete_message r m state status =
    let message = r.messages m in
    let c = message.connection_index in
    set_message (set_connection r c (record (r.connections c) { state = state })) m
      (record message { reply_status = status; active = false; complete = true })

-- The reply in its new state; a message that its client gave up is finished here.
unfoldable pub reply_in : Runtime → ℕ → ℤ → Result ConnectionState → Result Runtime
reply_in r m status (err e) = err e
reply_in r m status (ok state) =
    let completed = complete_message r m state status in
    ok (if is_abandoned (r.messages m).abandoned then finish_abandoned completed m else completed)

unfoldable pub reply_to : Runtime → ℤ → Result ℕ → Result Runtime
reply_to r status (err e) = err bad_handle
reply_to r status (ok m) =
    reply_in r m status
      (replied_state (r.messages m) (r.connections (r.messages m).connection_index) status)

-- `wt_ffm_reply`
unfoldable pub reply : Runtime → ℤ → ℤ → ℤ → Result Runtime
reply r partition_id handle status = reply_to r status (message_from_handle r partition_id handle)
