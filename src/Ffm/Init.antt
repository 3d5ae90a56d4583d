-- ===== src/Ffm/Init.antt =====
-- `wt_ffm_init`, `wt_ffm_register_partition`, `wt_ffm_framework_version` and `wt_ffm_set_lifecycle`.
pub mod Placed
pub mod Empty
use wolf_trust_fork.Base.{
  ℕ, zero, suc, ◌+◌, ◌-◌, bit_and, Bool, true, false, not, ◌&&◌, ◌||◌, ltb, ◌==◌, if◌then◌else◌,
  Option, none, some, ℤ, find, for_below, update,
}
use wolf_trust_fork.Ipc.State.{free}
use wolf_trust_fork.Ffm.State.{
  Runtime, Partition, Service, ServiceDescriptor, PartitionManifest, PartitionModel, ipc_model,
  sfn_model, Result, ok, err, bad_manifest, max_partitions, max_services, queue_none,
  zeroed_connection, zeroed_message, set_service, set_partition, strict,
}
use wolf_trust_fork.Ffm.Lookup.{find_partition}

-- `wt_system_manifest_t`, as far as src/ffm.c reads it
pub record SystemManifest : Type 0 where
  pub features : ℕ
  pub partitions : ℕ → PartitionManifest
  pub partition_count : ℕ

-- `PSA_FRAMEWORK_VERSION`, `WT_FFM_VERSION_1_0` and `WT_FFM_VERSION_1_1`
abbrev pub psa_framework_version : ℕ
psa_framework_version = 0x0100

abbrev pub ffm_version_1_0 : ℕ
ffm_version_1_0 = 0x0100

abbrev pub ffm_version_1_1 : ℕ
ffm_version_1_1 = 0x0101

-- The features that only framework 1.1 has: SFN, stateless handles and memory-mapped vectors.
abbrev pub features_1_1 : ℕ
features_1_1 = 2 + 4 + 8

abbrev pub is_ipc : PartitionModel → Bool
is_ipc ipc_model = true
is_ipc sfn_model = false

-- The total of services of the first `n` partitions, if each of them passes the checks.
abbrev pub fits : PartitionManifest → ℕ → Bool
fits p total =
    is_ipc p.model
    && (not (ltb psa_framework_version p.framework_version)
        && not (ltb (max_services - total) p.service_count))

abbrev pub add_count : PartitionManifest → Option ℕ → Option ℕ
add_count p none = none
add_count p (some total) = if not (fits p total) then none else some (total + p.service_count)

unfoldable pub count_services : SystemManifest → ℕ → Option ℕ
count_services manifest zero = some 0
count_services manifest (suc n) = add_count (manifest.partitions n) (count_services manifest n)

-- What `memset(runtime, 0, sizeof(*runtime))` leaves of a cell, until the cell is filled.
abbrev pub no_descriptor : ServiceDescriptor
no_descriptor = record {
  sid = 0;
  version = 0;
  version_policy = strict;
  signal = 0;
  nonsecure_clients = false;
  connection_based = false;
}

abbrev pub no_service : Service
no_service = record {
  descriptor = no_descriptor;
  partition_index = 0;
  queue_head = 0;
  queue_tail = 0;
}

abbrev pub no_manifest : PartitionManifest
no_manifest = record {
  domain_id = 0;
  framework_version = 0;
  model = ipc_model;
  services = λ _. no_descriptor;
  service_count = 0;
  dependencies = λ _. 0;
  dependency_count = 0;
  interrupts = λ _. record { interrupt = 0; signal = 0 };
  interrupt_count = 0;
}

abbrev pub new_partition : PartitionManifest → Partition
new_partition m = record {
  manifest = m;
  dispatch = none;
  asserted_signals = 0;
  instance_number = 0;
  initialized = 0;
}

abbrev pub new_service : ServiceDescriptor → ℕ → Service
new_service d p = record {
  descriptor = d;
  partition_index = p;
  queue_head = queue_none;
  queue_tail = queue_none;
}

-- The two loops that fill the services, with the number of services so far.
unfoldable pub add_service : PartitionManifest → ℕ → ℕ → Runtime × ℕ → Runtime × ℕ
add_service m p j (r, next) = (set_service r next (new_service (m.services j) p), next + 1)

unfoldable pub add_partition : SystemManifest → ℕ → Runtime × ℕ → Runtime × ℕ
add_partition manifest p (r, next) =
    let m = manifest.partitions p in
    for_below m.service_count (add_service m p) (set_partition r p (new_partition m), next)

abbrev pub blank : SystemManifest → ℕ → Runtime
blank manifest service_count = record {
  partitions = λ _. new_partition no_manifest;
  services = λ _. no_service;
  connections = λ _. zeroed_connection 1;
  messages = λ _. zeroed_message 1;
  partition_count = manifest.partition_count;
  service_count = service_count;
  lifecycle = 0;
}

abbrev pub fill_runtime : SystemManifest → ℕ → Runtime × ℕ
fill_runtime manifest total =
    for_below manifest.partition_count (add_partition manifest) (blank manifest total, 0)

-- The runtime for a total of services, if the manifest passes the checks.
abbrev pub built : SystemManifest → Option ℕ → Result Runtime
built manifest none = err bad_manifest
built manifest (some total) = ok (fill_runtime manifest total).0

-- `wt_ffm_init` with operations that are not null
unfoldable pub init : SystemManifest → Result Runtime
init manifest =
    if ltb max_partitions manifest.partition_count
    then err bad_manifest
    else built manifest (count_services manifest manifest.partition_count)

-- `wt_ffm_register_partition` with a callback that is not null
unfoldable pub register_partition : Runtime → ℤ → ℕ → Result Runtime
register_partition r partition_id callback = elim (find_partition r partition_id) [
  | err e ↦ err e
  | ok p ↦ ok (set_partition r p (record (r.partitions p) { dispatch = some callback }))
]

abbrev pub is_1_1 : SystemManifest → ℕ → Bool
is_1_1 manifest i = (manifest.partitions i).framework_version == ffm_version_1_1

-- `wt_ffm_framework_version`
unfoldable pub framework_version : SystemManifest → ℕ
framework_version manifest =
    let base : ℕ =
      if not (bit_and manifest.features features_1_1 == 0)
      then ffm_version_1_1
      else ffm_version_1_0 in
    let version : ℕ = elim (find (is_1_1 manifest) manifest.partition_count) [
      | some i ↦ ffm_version_1_1
      | none ↦ base
    ] in
    if ltb psa_framework_version version then psa_framework_version else version

-- `wt_ffm_set_lifecycle`
unfoldable pub set_lifecycle : Runtime → ℕ → Runtime
set_lifecycle r lifecycle = record r { lifecycle = lifecycle }
