-- ===== src/Ffm/State.antt =====
-- The data of include/wolftrust/ffm.h and of the manifest that src/ffm.c reads. C arrays are functions
-- of the index; `wt_ffm_init` fills the manifest pointers of all partitions and services that count, so
-- these are plain fields here.
use wolf_trust_fork.Base.{
  ℕ, ◌^◌, ◌/◌, ◌-◌, Bool, false, Option, ℤ, pos, negsuc, update, ◌≡◌, refl, ap, if◌then◌else◌, ◌⊎◌,
  inl, inr,
}
use wolf_trust_fork.Ipc.State.{ConnectionState, free}

-- `wt_service_version_policy_t`
pub data VersionPolicy : Type 0 where
  strict relaxed unspecified : VersionPolicy

-- `wt_service_descriptor_t`, less the name and the stateless index, which src/ffm.c does not read
pub record ServiceDescriptor : Type 0 where
  pub sid : ℕ
  pub version : ℕ
  pub version_policy : VersionPolicy
  pub signal : ℕ
  pub nonsecure_clients : Bool
  pub connection_based : Bool

-- `wt_manifest_interrupt_t`
pub record Interrupt : Type 0 where
  pub interrupt : ℕ
  pub signal : ℕ

-- `wt_partition_model_t`
pub data PartitionModel : Type 0 where
  ipc_model sfn_model : PartitionModel

-- `wt_partition_manifest_t`
pub record PartitionManifest : Type 0 where
  pub domain_id : ℕ
  pub framework_version : ℕ
  pub model : PartitionModel
  pub services : ℕ → ServiceDescriptor
  pub service_count : ℕ
  pub dependencies : ℕ → ℕ
  pub dependency_count : ℕ
  pub interrupts : ℕ → Interrupt
  pub interrupt_count : ℕ

-- `wt_ffm_partition_runtime_t`. `dispatch` names the registered callback and its context, if any.
pub record Partition : Type 0 where
  pub manifest : PartitionManifest
  pub dispatch : Option ℕ
  pub asserted_signals : ℕ
  pub instance_number : ℕ
  pub initialized : ℕ

-- `wt_ffm_service_runtime_t`
pub record Service : Type 0 where
  pub descriptor : ServiceDescriptor
  pub partition_index : ℕ
  pub queue_head : ℕ
  pub queue_tail : ℕ

-- `wt_ffm_connection_runtime_t`
pub record Connection : Type 0 where
  pub state : ConnectionState
  pub caller : ℤ
  pub generation : ℕ
  pub client_instance : ℕ
  pub rhandle : ℕ
  pub service_index : ℕ
  pub allocated : Bool
  pub error_latch : Bool

-- `abandoned`: 0, `WT_FFM_ABANDONED_REPLY` and `WT_FFM_ABANDONED_CLOSE`
pub data Abandoned : Type 0 where
  kept abandoned_reply abandoned_close : Abandoned

-- `wt_ffm_message_runtime_t`
pub record Message : Type 0 where
  pub caller : ℤ
  pub reply_status : ℤ
  pub generation : ℕ
  pub connection_index : ℕ
  pub service_index : ℕ
  pub next : ℕ
  pub type : ℤ
  pub in_count : ℕ
  pub out_count : ℕ
  pub in_size : ℕ → ℕ
  pub out_size : ℕ → ℕ
  pub in_offset : ℕ → ℕ
  pub out_offset : ℕ → ℕ
  pub in_position : ℕ → ℕ
  pub out_position : ℕ → ℕ
  pub client_output : ℕ → ℕ
  pub input : ℕ → ℕ
  pub output : ℕ → ℕ
  pub allocated : Bool
  pub active : Bool
  pub complete : Bool
  pub abandoned : Abandoned

-- `wt_ffm_runtime_t`, less the port's operations, which are parameters of the functions that call them
pub record Runtime : Type 0 where
  pub partitions : ℕ → Partition
  pub services : ℕ → Service
  pub connections : ℕ → Connection
  pub messages : ℕ → Message
  pub partition_count : ℕ
  pub service_count : ℕ
  pub lifecycle : ℕ

abbrev pub max_partitions : ℕ
max_partitions = 9

abbrev pub max_services : ℕ
max_services = 20

abbrev pub max_connections : ℕ
max_connections = 16

abbrev pub max_connections_per_client : ℕ
max_connections_per_client = max_connections / 2

-- `WT_FFM_MAX_CONNECTIONS - WT_FFM_SECURE_RESERVED_CONNECTIONS`
abbrev pub max_ns_connections : ℕ
max_ns_connections = max_connections - 4

abbrev pub max_messages : ℕ
max_messages = 8

abbrev pub transfer_bytes : ℕ
transfer_bytes = 1024

-- `WT_FFM_QUEUE_NONE`
abbrev pub queue_none : ℕ
queue_none = 2 ^ 16 - 1

-- `PSA_MAX_IOVEC`
abbrev pub max_iovec : ℕ
max_iovec = 4

-- `wt_ffm_result_t` without `WT_FFM_SUCCESS`
pub data FfmError : Type 0 where
  bad_argument bad_manifest bad_policy no_resource bad_handle bad_state not_ready bad_buffer
        bad_isolation :
      FfmError

-- A function that returns a `wt_ffm_result_t`, and a value through a pointer on success.
pub data Result (A : Type 0) : Type 0 where
  ok : A → Result A
  err : FfmError → Result A

abbrev pub is_ok : {A : Type 0} → Result A → Bool
is_ok (ok a) = Bool.true
is_ok (err e) = false

pub Result-cases :
    {A : Type 0} (x : Result A) → ((e : FfmError) × (x ≡ err e)) ⊎ ((a : A) × (x ≡ ok a))
Result-cases (ok a) = inr (a, refl)
Result-cases (err e) = inl (e, refl)

abbrev ok_value : {A : Type 0} → A → Result A → A
ok_value d (ok a) = a
ok_value d (err e) = d

pub ok-injective : {A : Type 0} (a b : A) → ok a ≡ ok b → a ≡ b
ok-injective a b h = ap (ok_value a) h

-- A guard that let a result through.
pub passes :
    {A : Type 0} (b : Bool) (e : FfmError) (x : Result A) (a : A)
    → (if b then err e else x) ≡ ok a
    → (b ≡ false) × (x ≡ ok a)
passes Bool.true e x a h = absurd (cc h)
passes false e x a h = (refl, h)

-- Two guards and three guards.
pub passes_two :
    {A : Type 0} (b c : Bool) (e f : FfmError) (x : Result A) (a : A)
    → (if b then err e else if c then err f else x) ≡ ok a
    → (b ≡ false) × (c ≡ false) × (x ≡ ok a)
passes_two b c e f x a h =
    let (first, rest) = passes b e (if c then err f else x) a h in
    let (second, last) = passes c f x a rest in (first, second, last)

pub passes_three :
    {A : Type 0} (b c d : Bool) (e f g : FfmError) (x : Result A) (a : A)
    → (if b then err e else if c then err f else if d then err g else x) ≡ ok a
    → (b ≡ false) × (c ≡ false) × (d ≡ false) × (x ≡ ok a)
passes_three b c d e f g x a h =
    let (first, rest) = passes b e (if c then err f else if d then err g else x) a h in
    let (second, third, last) = passes_two c d f g x a rest in (first, second, third, last)

-- include/psa/error.h
abbrev pub psa_success : ℤ
psa_success = pos 0

abbrev pub psa_error_programmer_error : ℤ
psa_error_programmer_error = negsuc 128

abbrev pub psa_error_connection_refused : ℤ
psa_error_connection_refused = negsuc 129

abbrev pub psa_error_connection_busy : ℤ
psa_error_connection_busy = negsuc 130

abbrev pub psa_error_generic_error : ℤ
psa_error_generic_error = negsuc 131

abbrev pub psa_error_not_supported : ℤ
psa_error_not_supported = negsuc 133

abbrev pub psa_error_invalid_argument : ℤ
psa_error_invalid_argument = negsuc 134

abbrev pub psa_error_does_not_exist : ℤ
psa_error_does_not_exist = negsuc 139

abbrev pub psa_error_insufficient_memory : ℤ
psa_error_insufficient_memory = negsuc 140

-- `PSA_IPC_CONNECT`, `PSA_IPC_DISCONNECT` and `PSA_IPC_CALL`; a call's type is at least the last
abbrev pub psa_ipc_connect : ℤ
psa_ipc_connect = negsuc 0

abbrev pub psa_ipc_disconnect : ℤ
psa_ipc_disconnect = negsuc 1

-- `memset(connection, 0, sizeof(*connection))` and the new generation
abbrev pub zeroed_connection : ℕ → Connection
zeroed_connection generation = record {
  state = free;
  caller = pos 0;
  generation = generation;
  client_instance = 0;
  rhandle = 0;
  service_index = 0;
  allocated = false;
  error_latch = false;
}

-- `memset(message, 0, sizeof(*message))`, the new generation, and no successor
abbrev pub zeroed_message : ℕ → Message
zeroed_message generation = record {
  caller = pos 0;
  reply_status = pos 0;
  generation = generation;
  connection_index = 0;
  service_index = 0;
  next = queue_none;
  type = pos 0;
  in_count = 0;
  out_count = 0;
  in_size = λ _. 0;
  out_size = λ _. 0;
  in_offset = λ _. 0;
  out_offset = λ _. 0;
  in_position = λ _. 0;
  out_position = λ _. 0;
  client_output = λ _. 0;
  input = λ _. 0;
  output = λ _. 0;
  allocated = false;
  active = false;
  complete = false;
  abandoned = kept;
}

abbrev pub set_connection : Runtime → ℕ → Connection → Runtime
set_connection r i c = record r { connections = update r.connections i c }

abbrev pub set_message : Runtime → ℕ → Message → Runtime
set_message r i m = record r { messages = update r.messages i m }

abbrev pub set_service : Runtime → ℕ → Service → Runtime
set_service r i s = record r { services = update r.services i s }

abbrev pub set_partition : Runtime → ℕ → Partition → Runtime
set_partition r i p = record r { partitions = update r.partitions i p }
