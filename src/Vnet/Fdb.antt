-- ===== src/Vnet/Fdb.antt =====
-- src/vnet/vnet_fdb.c: the table from Ethernet addresses to guests. A pointer to an entry is its index,
-- and NULL is `none`.
use wolf_trust_fork.Base.{
  ℕ, Bool, true, false, Option, none, some, ◌==◌, not, ◌&&◌, ◌||◌, if◌then◌else◌, update, find,
  for_below, map_cell,
}
use wolf_trust_fork.Vnet.State.{
  Mac, Fdb, FdbEntry, FdbKind, fdb_empty, fdb_assigned, fdb_learned, is_empty, is_assigned,
  is_learned, no_vm, Status, success, failure, vnet_badarg, vnet_inval_mac, vnet_dup_mac,
  vnet_notready, vnet_spoof,
}
use wolf_trust_fork.Vnet.Mac.{
  mac_equals, mac_is_local_unicast, mac_is_multicast, mac_is_zero, mac_copy,
}
pub mod Unique
pub mod Operations
pub mod Assigned

-- What `fdb_find_mac` looks for
abbrev pub holds_mac : Fdb → Mac → ℕ → Bool
holds_mac fdb mac i = let e = fdb.entries i in not (is_empty e.kind) && mac_equals e.mac mac

-- `fdb_find_mac`
abbrev pub fdb_find_mac : Fdb → Mac → Option ℕ
fdb_find_mac fdb mac = find (holds_mac fdb mac) fdb.capacity

-- What `fdb_find_assigned_by_guest` looks for
abbrev pub assigned_to : Fdb → ℕ → ℕ → Bool
assigned_to fdb guest_id i = let e = fdb.entries i in is_assigned e.kind && e.guest_id == guest_id

-- `fdb_find_assigned_by_guest`
abbrev pub fdb_find_assigned_by_guest : Fdb → ℕ → Option ℕ
fdb_find_assigned_by_guest fdb guest_id = find (assigned_to fdb guest_id) fdb.capacity

-- `fdb_find_empty`
abbrev pub fdb_find_empty : Fdb → Option ℕ
fdb_find_empty fdb = find (λ i. is_empty (fdb.entries i).kind) fdb.capacity

-- `fdb_evict_oldest_learned`
abbrev pub fdb_evict_oldest_learned : Fdb → Option ℕ
fdb_evict_oldest_learned fdb = find (λ i. is_learned (fdb.entries i).kind) fdb.capacity

-- `slot = fdb_find_empty(fdb); if (slot == NULL) slot = fdb_evict_oldest_learned(fdb);`
abbrev pub or_else : Option ℕ → Option ℕ → Option ℕ
or_else (some i) o = some i
or_else none o = o

unfoldable pub fdb_room : Fdb → Option ℕ
fdb_room fdb = or_else (fdb_find_empty fdb) (fdb_evict_oldest_learned fdb)

abbrev pub set_entry : Fdb → ℕ → FdbEntry → Fdb
set_entry fdb i e = record fdb { entries = update fdb.entries i e }

-- An entry that no guest has
abbrev pub emptied : FdbEntry → FdbEntry
emptied e = record e { kind = fdb_empty; guest_id = no_vm }

-- `vnet_fdb_init`, with storage
unfoldable pub fdb_init : (ℕ → FdbEntry) → ℕ → Fdb
fdb_init storage n =
    let entries = for_below n (map_cell emptied) storage in
    record { entries = entries; capacity = n }

-- The new entry goes to the slot found, if there is one.
abbrev pub fdb_enter : Fdb → ℕ → Mac → FdbKind → Option ℕ → Status × Fdb
fdb_enter fdb guest_id mac kind none = (failure vnet_notready, fdb)
fdb_enter fdb guest_id mac kind (some i) =
    (success 0, set_entry fdb i (record { mac = mac_copy mac; guest_id = guest_id; kind = kind }))

-- The entry with the address, which is not assigned, is promoted, unless the guest has another one.
abbrev pub promote_entry : Fdb → ℕ → ℕ → Option ℕ → Status × Fdb
promote_entry fdb guest_id i (some j) =
    let promoted = record (fdb.entries i) { kind = fdb_assigned; guest_id = guest_id } in
    if not (i == j) then (failure vnet_dup_mac, fdb) else (success 0, set_entry fdb i promoted)
promote_entry fdb guest_id i none = (
  success 0,
  set_entry fdb i (record (fdb.entries i) { kind = fdb_assigned; guest_id = guest_id }),
)

-- `vnet_fdb_assign` from the two searches on: the entry with the address, and the guest's entry.
unfoldable pub assign_found : Fdb → ℕ → Mac → Option ℕ → Option ℕ → Status × Fdb
unfolding fdb_room
assign_found fdb guest_id mac (some i) e_guest =
    let e = fdb.entries i in
    if is_assigned e.kind
    then if e.guest_id == guest_id then (success 0, fdb) else (failure vnet_dup_mac, fdb)
    else promote_entry fdb guest_id i e_guest
assign_found fdb guest_id mac none (some j) = (failure vnet_dup_mac, fdb)
assign_found fdb guest_id mac none none = fdb_enter fdb guest_id mac fdb_assigned (fdb_room fdb)

-- `vnet_fdb_assign`
unfoldable pub fdb_assign : Fdb → ℕ → Mac → Status × Fdb
unfolding assign_found
fdb_assign fdb guest_id mac =
    if guest_id == no_vm
    then (failure vnet_badarg, fdb)
    else if not (mac_is_local_unicast mac)
    then (failure vnet_inval_mac, fdb)
    else assign_found fdb guest_id mac (fdb_find_mac fdb mac)
        (fdb_find_assigned_by_guest fdb guest_id)

-- One round of the loop of `vnet_fdb_release`
abbrev pub release_entry : ℕ → FdbEntry → FdbEntry
release_entry guest_id e =
    if is_empty e.kind then e else if not (e.guest_id == guest_id) then e else emptied e

-- `vnet_fdb_release`
unfoldable pub fdb_release : Fdb → ℕ → Fdb
fdb_release fdb guest_id = record fdb {
  entries = for_below fdb.capacity (map_cell (release_entry guest_id)) fdb.entries;
}

-- `vnet_fdb_learn` from the search on
unfoldable pub learn_found : Fdb → ℕ → Mac → Option ℕ → Status × Fdb
unfolding fdb_room
learn_found fdb guest_id mac (some i) =
    let e = fdb.entries i in
    if is_assigned e.kind
    then if e.guest_id == guest_id then (success 0, fdb) else (failure vnet_spoof, fdb)
    else (success 0, set_entry fdb i (record e { guest_id = guest_id; kind = fdb_learned }))
learn_found fdb guest_id mac none = fdb_enter fdb guest_id mac fdb_learned (fdb_room fdb)

-- `vnet_fdb_learn`
unfoldable pub fdb_learn : Fdb → ℕ → Mac → Status × Fdb
unfolding learn_found
fdb_learn fdb guest_id mac =
    if guest_id == no_vm
    then (failure vnet_badarg, fdb)
    else if mac_is_multicast mac || mac_is_zero mac
    then (failure vnet_badarg, fdb)
    else learn_found fdb guest_id mac (fdb_find_mac fdb mac)

-- The guest of the entry found, if any
abbrev pub guest_of : Fdb → Option ℕ → ℕ
guest_of fdb none = no_vm
guest_of fdb (some i) = (fdb.entries i).guest_id

-- `vnet_fdb_lookup`
unfoldable pub fdb_lookup : Fdb → Mac → ℕ
fdb_lookup fdb mac =
    if mac_is_multicast mac || mac_is_zero mac then no_vm else guest_of fdb (fdb_find_mac fdb mac)

-- `vnet_fdb_get_assigned`
unfoldable pub fdb_get_assigned : Fdb → ℕ → Option Mac
fdb_get_assigned fdb guest_id = elim (fdb_find_assigned_by_guest fdb guest_id) [
  | none ↦ none
  | some i ↦ some (mac_copy (fdb.entries i).mac)
]
