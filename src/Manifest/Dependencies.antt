-- ===== src/Manifest/Dependencies.antt =====
-- src/manifest.c: `wt_manifest_find_service` and `wt_manifest_validate_dependencies`.
use wolf_trust_fork.Base.{
  ℕ, zero, suc, ◌+◌, Bool, true, false, not, ◌&&◌, Option, none, some, ◌==◌, if◌then◌else◌, update,
  find, for_below, map_cell,
}
use wolf_trust_fork.Ffm.State.{PartitionManifest, ServiceDescriptor}
use wolf_trust_fork.Ffm.Init.{SystemManifest}
pub mod Graph
pub mod Order

-- `WT_MANIFEST_VALID`, `WT_MANIFEST_ERROR_DEPENDENCY` and `WT_MANIFEST_ERROR_DEPENDENCY_CYCLE`
pub data DependencyCheck : Type 0 where
  dependencies_valid bad_dependency dependency_cycle : DependencyCheck

abbrev pub found : Option ℕ → Bool
found none = false
found (some i) = true

-- The inner loop of `wt_manifest_find_service`
abbrev pub provides : SystemManifest → ℕ → ℕ → Bool
provides manifest sid i =
    let p = manifest.partitions i in found (find (λ j. (p.services j).sid == sid) p.service_count)

-- `wt_manifest_find_service`, with the partition index that it stores
unfoldable pub find_service_partition : SystemManifest → ℕ → Option ℕ
find_service_partition manifest sid = find (provides manifest sid) manifest.partition_count

-- `edges[i][target]`
abbrev pub Edges : Type 0
Edges = ℕ → ℕ → Bool

-- `edges[i][target] = 1U;`, unless the service is not found or is the partition's own
abbrev pub edge_to : ℕ → Edges → Option ℕ → Option Edges
edge_to i edges none = none
edge_to i edges (some target) =
    if target == i then none else some (update edges i (update (edges i) target true))

-- One dependency of partition `i`; `none` stands for the early return of the error.
abbrev pub dependency_edge : SystemManifest → ℕ → ℕ → Option Edges → Option Edges
dependency_edge manifest i j none = none
dependency_edge manifest i j (some edges) =
    edge_to i edges (find_service_partition manifest ((manifest.partitions i).dependencies j))

-- The dependencies of partition `i`
abbrev pub partition_edges : SystemManifest → ℕ → Option Edges → Option Edges
partition_edges manifest i edges =
    for_below (manifest.partitions i).dependency_count (dependency_edge manifest i) edges

-- The first loop of `wt_manifest_validate_dependencies`
unfoldable pub build_edges : SystemManifest → Option Edges
unfolding for_below find_service_partition find
build_edges manifest =
    for_below manifest.partition_count (partition_edges manifest) (some (λ i j. false))

-- The variables of the second loop
pub record Elimination : Type 0 where
  pub edges : Edges
  pub removed : ℕ → Bool
  pub removed_count : ℕ
  pub progress : Bool

-- Whether partition `i` depends on one that has not been removed, of `n` in all
unfoldable pub has_edge : ℕ → Elimination → ℕ → Bool
has_edge n st i = found (find (λ j. not (st.removed j) && st.edges i j) n)

-- Partition `i` is removed, and the edges to it are cleared.
abbrev pub remove_partition : ℕ → ℕ → Elimination → Elimination
remove_partition n i st = record {
  edges = for_below n (map_cell (λ row. update row i false)) st.edges;
  removed = update st.removed i true;
  removed_count = st.removed_count + 1;
  progress = true;
}

-- One round of the loop over the partitions
unfoldable pub sweep_round : ℕ → ℕ → Elimination → Elimination
unfolding for_below has_edge find
sweep_round n i st =
    if st.removed i then st else if has_edge n st i then st else remove_partition n i st

-- The body of the `do` loop
unfoldable pub sweep : ℕ → Elimination → Elimination
unfolding for_below sweep_round
sweep n st = for_below n (sweep_round n) (record st { progress = false })

-- The `do` loop, for at most as many rounds as the first argument says
unfoldable pub eliminate : ℕ → ℕ → Elimination → Elimination
unfolding sweep
eliminate zero n st = st
eliminate (suc fuel) n st =
    let next = sweep n st in
    let rest = eliminate fuel n next in if next.progress then rest else next

abbrev pub start : Edges → Elimination
start edges = record { edges = edges; removed = λ _. false; removed_count = 0; progress = true }

-- The second part of the check: a round for each partition, and the one that finds nothing to do
abbrev pub check_edges : ℕ → Option Edges → DependencyCheck
check_edges n none = bad_dependency
check_edges n (some edges) =
    let removed_count = (eliminate (suc n) n (start edges)).removed_count in
    if removed_count == n then dependencies_valid else dependency_cycle

-- `wt_manifest_validate_dependencies`
unfoldable pub validate_dependencies : SystemManifest → DependencyCheck
unfolding eliminate build_edges
validate_dependencies manifest = check_edges manifest.partition_count (build_edges manifest)
