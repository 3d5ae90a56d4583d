-- ===== src/Ffm/Pools.antt =====
-- The pools of connections and messages, and the way from a handle to its slot.
pub mod Alloc
pub mod Handle
use wolf_trust_fork.Base.{
  ◌-◌, ◌^◌, ◌+◌, ℕ, Bool, true, false, not, ◌||◌, ◌==◌, if◌then◌else◌, Option, none, some, ℤ, pos,
  negsuc, ◌==ℤ◌, find,
}
use wolf_trust_fork.Ipc.State.{free}
use wolf_trust_fork.Ffm.State.{
  Runtime, Connection, Message, Result, ok, err, bad_handle, bad_policy, max_connections,
  max_messages, queue_none, zeroed_connection, zeroed_message, set_connection, set_message,
}
use wolf_trust_fork.Ffm.Handle.{next_generation, connection_type, message_type, decode_handle}
use wolf_trust_fork.Ffm.Lookup.{caller_instance}

abbrev pub claim_connection : Runtime → ℕ → Runtime
claim_connection r i =
    set_connection r i
      (record (r.connections i) { allocated = true; state = free; error_latch = false })

-- `wt_ffm_alloc_connection`; `none` is `WT_FFM_ERROR_RESOURCE`.
unfoldable pub alloc_connection : Runtime → Option (ℕ × Runtime)
alloc_connection r = elim (find (λ i. not (r.connections i).allocated) max_connections) [
  | none ↦ none
  | some i ↦ some (i, claim_connection r i)
]

-- `wt_ffm_release_connection`
unfoldable pub release_connection : Runtime → ℕ → Runtime
release_connection r i =
    set_connection r i (zeroed_connection (next_generation (r.connections i).generation))

abbrev pub claim_message : Runtime → ℕ → Runtime
claim_message r i = set_message r i (record (r.messages i) { allocated = true; next = queue_none })

-- `wt_ffm_alloc_message`
unfoldable pub alloc_message : Runtime → Option (ℕ × Runtime)
alloc_message r = elim (find (λ i. not (r.messages i).allocated) max_messages) [
  | none ↦ none
  | some i ↦ some (i, claim_message r i)
]

-- `wt_ffm_release_message`
unfoldable pub release_message : Runtime → ℕ → Runtime
release_message r i = set_message r i (zeroed_message (next_generation (r.messages i).generation))

-- The checks of `wt_ffm_connection_from_handle` once the handle is read.
unfoldable pub check_connection : Runtime → ℤ → ℕ → ℕ → Result ℕ
check_connection r caller index generation =
    let c = r.connections index in
    if not c.allocated || not (c.generation == generation)
    then err bad_handle
    else if not (c.caller ==ℤ caller)
    then err bad_policy
    else if not (c.client_instance == caller_instance r caller)
    then err bad_handle
    else ok index

-- `wt_ffm_connection_from_handle`
unfoldable pub connection_from_handle : Runtime → ℤ → ℤ → Result ℕ
connection_from_handle r caller handle =
    elim (decode_handle handle connection_type max_connections) [
      | err e ↦ err e
      | ok (index, generation) ↦ check_connection r caller index generation
    ]

-- `domain_id == (wt_domain_id_t)partition_id`; the cast of a negative id adds 2^32.
abbrev pub same_domain : ℕ → ℤ → Bool
same_domain id (pos n) = id == n
same_domain id (negsuc n) = id == 2 ^ 32 - (n + 1)

-- The domain that serves a service.
abbrev pub owner_domain : Runtime → ℕ → ℕ
owner_domain r s = (r.partitions (r.services s).partition_index).manifest.domain_id

-- The checks of `wt_ffm_message_from_handle` once the handle is read.
unfoldable pub check_message : Runtime → ℤ → ℕ → ℕ → Result ℕ
check_message r partition_id index generation =
    let m = r.messages index in
    if not m.allocated || not m.active || not (m.generation == generation)
    then err bad_handle
    else if not (same_domain (owner_domain r m.service_index) partition_id)
    then err bad_policy
    else ok index

-- `wt_ffm_message_from_handle`
unfoldable pub message_from_handle : Runtime → ℤ → ℤ → Result ℕ
message_from_handle r partition_id handle = elim (decode_handle handle message_type max_messages) [
  | err e ↦ err e
  | ok (index, generation) ↦ check_message r partition_id index generation
]
