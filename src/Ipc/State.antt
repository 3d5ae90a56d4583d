-- ===== src/Ipc/State.antt =====
-- The types of include/wolftrust/ipc.h.
use wolf_trust_fork.Base.{ℕ, ◌^◌, ◌-◌, Bool, ◌==◌}

-- `wt_ipc_connection_state_t`
pub data ConnectionState : Type 0 where
  free pending_connect connecting idle pending_request active disconnecting error terminal :
      ConnectionState

-- The enumeration's value, by which C compares two states.
abbrev pub state_value : ConnectionState → ℕ
state_value free = 0
state_value pending_connect = 1
state_value connecting = 2
state_value idle = 3
state_value pending_request = 4
state_value active = 5
state_value disconnecting = 6
state_value error = 7
state_value terminal = 8

abbrev pub same_state : ConnectionState → ConnectionState → Bool
same_state a b = state_value a == state_value b

-- `wt_ipc_connection_event_t`
pub data ConnectionEvent : Type 0 where
  connect_accept connect_complete request request_active reply close close_complete fail abort :
      ConnectionEvent

-- `wt_ipc_result_t` without `WT_IPC_VALID`
pub data IpcError : Type 0 where
  bad_argument bad_handle bad_owner bad_state bad_policy : IpcError
  vector_count vector_address vector_overflow vector_limit : IpcError

-- `WT_IPC_MAX_VECTORS`, `SIZE_MAX` and `UINTPTR_MAX` of the 32-bit targets
abbrev pub max_vectors : ℕ
max_vectors = 4

abbrev pub size_max : ℕ
size_max = 2 ^ 32 - 1
