-- ===== src/Ffm/Lookup.antt =====
-- The searches and the access rules of src/ffm.c: partitions and services by number, who may call which
-- service at which version, and how many connections a client holds.
use wolf_trust_fork.Base.{
  ℕ, Bool, true, false, not, ◌&&◌, ltb, leb, ◌==◌, if◌then◌else◌, Option, none, some, ℤ, pos,
  negsuc, ◌==ℤ◌, is_neg, find, count,
}
use wolf_trust_fork.Ffm.State.{
  Runtime, ServiceDescriptor, strict, relaxed, unspecified, VersionPolicy, PartitionManifest,
  Result, ok, err, bad_argument, bad_policy, max_connections,
}

abbrev pub found : Option ℕ → Result ℕ
found (some i) = ok i
found none = err bad_policy

-- `partitions[i].manifest->domain_id == (wt_domain_id_t)id`
abbrev pub has_domain : Runtime → ℕ → ℕ → Bool
has_domain r id i = (r.partitions i).manifest.domain_id == id

-- `wt_ffm_find_partition`
unfoldable pub find_partition : Runtime → ℤ → Result ℕ
find_partition r (negsuc n) = err bad_argument
find_partition r (pos id) =
    if id == 0 then err bad_argument else found (find (has_domain r id) r.partition_count)

-- `wt_ffm_caller_instance`: a Non-secure caller has none.
unfoldable pub caller_instance : Runtime → ℤ → ℕ
caller_instance r caller = elim (find_partition r caller) [
  | ok i ↦ (r.partitions i).instance_number
  | err e ↦ 0
]

-- `wt_ffm_find_service`
unfoldable pub find_service : Runtime → ℕ → Result ℕ
find_service r sid =
    if sid == 0
    then err bad_argument
    else found (find (λ i. (r.services i).descriptor.sid == sid) r.service_count)

-- The manifest of the partition lists the service.
abbrev pub depends_on : PartitionManifest → ℕ → Bool
depends_on m sid = elim (find (λ j. m.dependencies j == sid) m.dependency_count) [
  | some j ↦ true
  | none ↦ false
]

-- `wt_ffm_caller_allowed`
unfoldable pub caller_allowed : Runtime → ℤ → ℕ → Bool
caller_allowed r (negsuc n) service_index =
    ltb service_index r.service_count && (r.services service_index).descriptor.nonsecure_clients
caller_allowed r (pos id) service_index =
    not (id == 0)
    && (ltb service_index r.service_count && elim (find (has_domain r id) r.partition_count) [
      | none ↦ false
      | some i ↦
          not (i == (r.services service_index).partition_index)
          && depends_on (r.partitions i).manifest (r.services service_index).descriptor.sid
    ])

abbrev pub policy_allows : VersionPolicy → ℕ → ℕ → Bool
policy_allows unspecified version requested = true
policy_allows strict version requested = requested == version
policy_allows relaxed version requested = leb requested version

-- `wt_ffm_version_allowed`
unfoldable pub version_allowed : ServiceDescriptor → ℕ → Bool
version_allowed d requested =
    not (requested == 0) && policy_allows d.version_policy d.version requested

abbrev pub held_by : Runtime → ℤ → ℕ → Bool
held_by r caller i = (r.connections i).allocated && (r.connections i).caller ==ℤ caller

-- `wt_ffm_client_connection_count`
unfoldable pub client_connection_count : Runtime → ℤ → ℕ
client_connection_count r caller = count (held_by r caller) max_connections

abbrev pub held_by_ns : Runtime → ℕ → Bool
held_by_ns r i = (r.connections i).allocated && is_neg (r.connections i).caller

-- `wt_ffm_ns_connection_count`
unfoldable pub ns_connection_count : Runtime → ℕ
ns_connection_count r = count (held_by_ns r) max_connections

-- `wt_ffm_service_version`; 0 is `PSA_VERSION_NONE`.
unfoldable pub service_version : Runtime → ℤ → ℕ → ℕ
service_version r caller sid = elim (find_service r sid) [
  | err e ↦ 0
  | ok s ↦ if caller_allowed r caller s then (r.services s).descriptor.version else 0
]
