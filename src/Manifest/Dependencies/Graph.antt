-- ===== src/Manifest/Dependencies/Graph.antt =====
-- The graph of dependencies that the check builds, against the manifest.
use mathlib.Core.Option.{some-injective}
use native.Mathlib.Decide.{ℕ_discrete as dec_eq}
use wolf_trust_fork.Base.{
  ℕ, suc, ◌<◌, ◌≡◌, ◌≢◌, refl, sym, subst, inl, inr, true, false, Option, none, some, arith, ◌==◌,
  update, find-some, for_below_inv, ==_iff, Bool-cases, if-when,
}
use wolf_trust_fork.Ffm.Init.{SystemManifest}
use wolf_trust_fork.Manifest.Dependencies.{
  dependencies_valid, Edges, provides, find_service_partition, edge_to, dependency_edge,
  partition_edges, build_edges, eliminate, start, check_edges, validate_dependencies,
}
use wolf_trust_fork.Manifest.Dependencies.Order.{eliminate-rank}

-- Dependency `j` of partition `i` has its edge.
abbrev pub HasEdge : SystemManifest → Edges → ℕ → ℕ → Type 0
HasEdge manifest edges i j =
    (target : ℕ) × (find_service_partition manifest ((manifest.partitions i).dependencies j)
      ≡ some target)
    × (target ≢ i)
    × (edges i target ≡ true)

-- The edges that were there are there still.
abbrev pub Grows : Edges → Edges → Type 0
Grows e e' = (i j : ℕ) → e i j ≡ true → e' i j ≡ true

Grows-edge : (e : Edges) (i t : ℕ) → Grows e (update e i (update (e i) t true))
Grows-edge e i t k j h = elim (dec_eq i k) [
  | yes p ↦
      let here : (i == k) ≡ true = ground arith in
      rw here (
        if-when (λ b. b ≡ true) true (e i j) (t == j) (λ q. refl)
          (λ q. subst (λ m. e m j ≡ true) (sym p) h))
  | no ne ↦ let away : (i == k) ≡ false = ground arith in rw away h
]

edge_to-some :
    (i : ℕ) (e e' : Edges) (o : Option ℕ)
    → edge_to i e o ≡ some e'
    → Grows e e' × ((t : ℕ) × (o ≡ some t) × (t ≢ i) × (e' i t ≡ true))
edge_to-some i e e' none h = absurd (cc h)
edge_to-some i e e' (some t) h = elim (Bool-cases (t == i)) [
  | inl p ↦ absurd (cc (rw p at h))
  | inr p ↦
      let q = some-injective _ _ (rw p at h) in
      subst (λ x. Grows e x × ((u : ℕ) × (some t ≡ some u) × (u ≢ i) × (x i u ≡ true))) q
        (Grows-edge e i t, (t, refl, ground arith, set_edge))
]
  where
    set_edge : update e i (update (e i) t true) i t ≡ true
    set_edge = ground arith

Grows-trans : (a b c : Edges) → Grows a b → Grows b c → Grows a c
Grows-trans a b c p q i j h = q i j (p i j h)

HasEdge-Grows :
    (m : SystemManifest) (e e' : Edges) (i j : ℕ) → HasEdge m e i j → Grows e e' → HasEdge m e' i j
HasEdge-Grows m e e' i j (t, f, ne, h) g = (t, f, ne, g i t h)

-- The loop over the dependencies of partition `i` from the edges `o`, after `k` rounds
abbrev Within : SystemManifest → ℕ → Option Edges → ℕ → Option Edges → Type 0
Within m i o k o' =
    (e' : Edges)
    → o' ≡ some e'
    → (e : Edges) × (o ≡ some e) × Grows e e' × ((j : ℕ) → j < k → HasEdge m e' i j)

Within-step :
    (m : SystemManifest) (i : ℕ) (o : Option Edges) (k : ℕ) (o' : Option Edges)
    → Within m i o k o'
    → Within m i o (suc k) (dependency_edge m i k o')
Within-step m i o k none h e' q = absurd (cc q)
Within-step m i o k (some e1) h e' q =
    let (e, p, g, all) = h e1 refl in
    let (g', (t, f, ne, there)) = edge_to-some i e1 e' _ q in
    (
      e,
      p,
      Grows-trans e e1 e' g g',
      λ j lt. elim (dec_eq j k) [
        | yes r ↦ subst (HasEdge m e' i) (sym r) (t, f, ne, there)
        | no r ↦ HasEdge-Grows m e1 e' i j (all j (omega arith)) g'
      ],
    )

partition_edges-Within :
    (m : SystemManifest) (i : ℕ) (o : Option Edges)
    → Within m i o (m.partitions i).dependency_count (partition_edges m i o)
partition_edges-Within m i o =
    for_below_inv (Within m i o) (m.partitions i).dependency_count (dependency_edge m i) o
      (λ k o' lt h. Within-step m i o k o' h)
      (λ e' q. (e', q, (λ a b h. h), λ j lt. absurd (omega arith)))

-- The loop over the partitions, after `k` rounds
abbrev Complete : SystemManifest → ℕ → Option Edges → Type 0
Complete m k o =
    (e : Edges)
    → o ≡ some e
    → (i j : ℕ) → i < k
    → j < (m.partitions i).dependency_count
    → HasEdge m e i j

Complete-step :
    (m : SystemManifest) (k : ℕ) (o : Option Edges)
    → Complete m k o
    → Complete m (suc k) (partition_edges m k o)
Complete-step m k o h e q i j il jl =
    let (e0, p, g, all) = partition_edges-Within m k o e q in
    elim (dec_eq i k) [
      | yes r ↦
          subst (λ n. HasEdge m e n j) (sym r)
            (all j (subst (λ n. j < (m.partitions n).dependency_count) r jl))
      | no r ↦ HasEdge-Grows m e0 e i j (h e0 p i j (omega arith) jl) g
    ]

build_edges-Complete : (m : SystemManifest) → Complete m m.partition_count (build_edges m)
unfolding build_edges
build_edges-Complete m =
    for_below_inv (Complete m) m.partition_count (partition_edges m) (some (λ i j. false))
      (λ k o lt h. Complete-step m k o h) (λ e q i j il jl. absurd (omega arith))

-- Partitions can be ordered so that each comes after those that it depends on.
abbrev pub Ordered : SystemManifest → (ℕ → ℕ) → Type 0
Ordered m rank =
    (i j : ℕ)
    → i < m.partition_count
    → j < (m.partitions i).dependency_count
    → (target : ℕ) × (find_service_partition m ((m.partitions i).dependencies j) ≡ some target)
      × (rank target < rank i)

found_partition :
    (m : SystemManifest) (sid t : ℕ) → find_service_partition m sid ≡ some t → t < m.partition_count
unfolding find_service_partition
found_partition m sid t h = (find-some (provides m sid) m.partition_count t h).0

check_edges-valid :
    (n : ℕ) (o : Option Edges)
    → check_edges n o ≡ dependencies_valid
    → (e : Edges) × (o ≡ some e) × ((eliminate (suc n) n (start e)).removed_count ≡ n)
check_edges-valid n none h = absurd (cc h)
check_edges-valid n (some e) h =
    elim (Bool-cases ((eliminate (suc n) n (start e)).removed_count == n)) [
      | inl p ↦ (e, refl, (==_iff _ n).0 p)
      | inr p ↦ absurd (cc (rw p at h))
    ]

-- If the dependencies of a manifest are accepted, each names a service of some partition, and the
-- partitions can be ordered such that each comes after those that it depends on: there is no cycle.
pub validate_dependencies-Ordered :
    (m : SystemManifest)
    → validate_dependencies m ≡ dependencies_valid
    → (rank : ℕ → ℕ) × Ordered m rank
unfolding validate_dependencies
validate_dependencies-Ordered m h =
    let (e, built, count) = check_edges-valid m.partition_count (build_edges m) h in
    let (rank, up) = eliminate-rank m.partition_count e count in
    (
      rank,
      λ i j il jl.
          let (t, f, ne, there) = build_edges-Complete m e built i j il jl in
          (t, f, up i t il (found_partition m _ t f) there),
    )
