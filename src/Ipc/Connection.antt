-- ===== src/Ipc/Connection.antt =====
-- `wt_ipc_handle_create`, `wt_ipc_handle_matches`, `wt_ipc_connection_open` and
-- `wt_ipc_connection_transition` of src/ipc.c. Pointers are not null: a null pointer is refused first
-- in each of these functions.
pub mod Guard
use wolf_trust_fork.Base.{
  ℕ, Bool, true, false, not, ◌&&◌, ◌||◌, ◌==◌, if◌then◌else◌, Option, none, some,
}
use wolf_trust_fork.Ipc.State.{
  ConnectionState, free, pending_connect, connecting, idle, pending_request, active, disconnecting,
  error, terminal, same_state, ConnectionEvent, connect_accept, connect_complete, request,
  request_active, reply, close, close_complete, fail, abort, IpcError, bad_argument, bad_handle,
  bad_owner, bad_state,
}

-- `wt_ipc_handle_type_t`
pub data HandleType : Type 0 where
  no_handle connection_handle message_handle : HandleType

abbrev pub type_value : HandleType → ℕ
type_value no_handle = 0
type_value connection_handle = 1
type_value message_handle = 2

-- `wt_ipc_handle_t`: four 32-bit fields with no padding, so `memcmp` compares the fields.
pub record Handle : Type 0 where
  pub value : ℕ
  pub generation : ℕ
  pub owner_id : ℕ
  pub type : HandleType

-- `wt_ipc_connection_t`
pub record Connection : Type 0 where
  pub state : ConnectionState
  pub handle : Handle
  pub service_sid : ℕ
  pub service_version : ℕ
  pub owner_id : ℕ
  pub stateless : Bool

abbrev pub null_handle : Handle
null_handle = record { value = 0; generation = 0; owner_id = 0; type = no_handle }

-- `memset(connection, 0, sizeof(*connection))`
abbrev pub zeroed : Connection
zeroed = record {
  state = free;
  handle = null_handle;
  service_sid = 0;
  service_version = 0;
  owner_id = 0;
  stateless = false;
}

unfoldable pub handle_create : ℕ → ℕ → ℕ → HandleType → Option Handle
handle_create value generation owner_id type =
    if value == 0 || generation == 0 || owner_id == 0 || type_value type == 0
    then none
    else some (record { value = value; generation = generation; owner_id = owner_id; type = type })

abbrev pub is_null : Handle → Bool
is_null h = h.value == 0 || h.generation == 0 || h.owner_id == 0 || type_value h.type == 0

unfoldable pub handle_matches : Handle → Handle → Bool
handle_matches expected presented =
    not (is_null expected || is_null presented)
    && (expected.value == presented.value
        && expected.generation == presented.generation
        && expected.owner_id == presented.owner_id
        && type_value expected.type == type_value presented.type)

unfoldable pub connection_open : Handle → ℕ → ℕ → ℕ → Bool → Option Connection
connection_open handle owner_id service_sid service_version stateless =
    if owner_id == 0
      || service_sid == 0
      || service_version == 0
      || not (type_value handle.type == 1)
      || not (handle.owner_id == owner_id)
      || not (handle_matches handle handle)
    then none
    else some (record {
      state = if stateless then idle else pending_connect;
      handle = handle;
      service_sid = service_sid;
      service_version = service_version;
      owner_id = owner_id;
      stateless = stateless;
    })

-- What a transition returns: the connection after it, or an error that leaves it as it was.
pub data Outcome : Type 0 where
  moved : Connection → Outcome
  refused : IpcError → Outcome

abbrev pub move_if : Bool → Connection → ConnectionState → Outcome
move_if true c next = moved (record c { state = next })
move_if false c next = refused bad_state

-- The `switch` of `wt_ipc_connection_transition`.
unfoldable pub apply_event : Connection → ConnectionEvent → Outcome
apply_event c connect_accept =
    move_if (not (c.stateless || not (same_state c.state pending_connect))) c connecting
apply_event c connect_complete =
    move_if (not (c.stateless || not (same_state c.state connecting))) c idle
apply_event c request = move_if (same_state c.state idle) c pending_request
apply_event c request_active = move_if (same_state c.state pending_request) c active
apply_event c reply = move_if (same_state c.state active) c idle
apply_event c close = move_if (not (c.stateless || not (same_state c.state idle))) c disconnecting
apply_event c close_complete =
    if same_state c.state disconnecting then moved zeroed else refused bad_state
apply_event c fail = move_if (not (same_state c.state free || same_state c.state terminal)) c error
apply_event c abort =
    move_if (not (same_state c.state free || same_state c.state terminal)) c terminal

unfoldable pub transition : Connection → ℕ → Handle → ConnectionEvent → Outcome
transition c caller_id handle event =
    if caller_id == 0
    then refused bad_argument
    else if not (caller_id == c.owner_id)
    then refused bad_owner
    else if not (handle_matches c.handle handle)
    then refused bad_handle
    else apply_event c event
