-- ===== src/Ffm/Init/Placed.antt =====
-- Where the loops of `wt_ffm_init` place the partitions and services of the manifest.
use native.Mathlib.Decide.{ℕ_discrete as dec_eq}
use wolf_trust_fork.Base.{
  true, ◌==◌, ◌≢◌, ℕ, zero, suc, ◌+◌, ◌≤◌, ◌<◌, ◌≡◌, refl, ap, subst, arith, false, for_below,
  for_below_inv,
}
use wolf_trust_fork.Ffm.State.{Runtime, ServiceDescriptor, Service, set_service, set_partition}
use wolf_trust_fork.Ffm.Init.{
  SystemManifest, add_service, add_partition, new_service, new_partition, blank,
}

-- The number of services of the first `n` partitions.
unfoldable pub service_total : SystemManifest → ℕ → ℕ
service_total manifest zero = 0
service_total manifest (suc n) = service_total manifest n + (manifest.partitions n).service_count

-- Service `i` is the entry `d` of partition `p`.
abbrev pub Entry : Runtime → ℕ → ServiceDescriptor → ℕ → Type 0
Entry r i d p = ((r.services i).descriptor ≡ d) × ((r.services i).partition_index ≡ p)

-- The first `n` partitions are those of the manifest, and their services stand one behind the other.
abbrev pub Placed : SystemManifest → ℕ → Runtime → Type 0
Placed manifest n r =
    ((p : ℕ) → p < n → (r.partitions p).manifest ≡ manifest.partitions p)
    × ((p j : ℕ)
        → p < n
        → j < (manifest.partitions p).service_count
        → Entry r (service_total manifest p + j) ((manifest.partitions p).services j) p)

-- The partitions before `n` end before the services of `n`.
service_total_le :
    (manifest : SystemManifest) (p n : ℕ)
    → p < n
    → service_total manifest p + (manifest.partitions p).service_count ≤ service_total manifest n
unfolding service_total
service_total_le manifest p zero lt = absurd (omega arith)
service_total_le manifest p (suc n) lt = elim (dec_eq p n) [
  | yes e ↦
      subst
        (λ k.
          service_total manifest p + (manifest.partitions p).service_count
          ≤ service_total manifest k + (manifest.partitions k).service_count)
        e (omega arith)
  | no ne ↦ omega (arith, service_total_le manifest p n (omega arith))
]

-- The round for partition `n` after `k` of its services
record Placing (manifest : SystemManifest) (n k : ℕ) (t : Runtime × ℕ) : Type 0 where
  next : t.1 ≡ service_total manifest n + k
  partitions : (p : ℕ) → p < suc n → (t.0.partitions p).manifest ≡ manifest.partitions p
  before :
      (p j : ℕ)
      → p < n
      → j < (manifest.partitions p).service_count
      → Entry t.0 (service_total manifest p + j) ((manifest.partitions p).services j) p
  here :
      (j : ℕ)
      → j < k
      → Entry t.0 (service_total manifest n + j) ((manifest.partitions n).services j) n

Entry-set :
    (r : Runtime) (next i : ℕ) (s : Service) (d : ServiceDescriptor) (p : ℕ)
    → next ≢ i
    → Entry r i d p
    → Entry (set_service r next s) i d p
Entry-set r next i s d p ne e = let other : (next == i) ≡ false = ground arith in rw other e

Entry-new :
    (r : Runtime) (next i : ℕ) (d : ServiceDescriptor) (p : ℕ)
    → next ≡ i
    → Entry (set_service r next (new_service d p)) i d p
Entry-new r next i d p e = let same : (next == i) ≡ true = ground arith in rw same (refl, refl)

add_service-Placing :
    (manifest : SystemManifest) (n k : ℕ) (t : Runtime × ℕ)
    → Placing manifest n k t
    → Placing manifest n (suc k) (add_service (manifest.partitions n) n k t)
unfolding add_service
add_service-Placing manifest n k (r, next) f = record {
  next = omega (arith, f.next);
  partitions = f.partitions;
  before = λ p j lt below.
      Entry-set r next (service_total manifest p + j) _ _ p
        (λ e. omega (arith, f.next, e, service_total_le manifest p n lt)) (f.before p j lt below);
  here = λ j lt. elim (dec_eq k j) [
    | yes e ↦
        subst
          (λ i.
            Entry (set_service r next (new_service ((manifest.partitions n).services k) n))
              (service_total manifest n + i) ((manifest.partitions n).services i) n)
          e (Entry-new r next (service_total manifest n + k) _ n f.next)
    | no ne ↦
        Entry-set r next (service_total manifest n + j) _ _ n (λ e. ne (omega (arith, f.next, e)))
          (f.here j (omega arith))
  ];
}

set_partition-Placing :
    (manifest : SystemManifest) (n : ℕ) (r : Runtime) (next : ℕ)
    → Placed manifest n r
    → next ≡ service_total manifest n
    → Placing manifest n 0 (set_partition r n (new_partition (manifest.partitions n)), next)
set_partition-Placing manifest n r next (parts, entries) e = record {
  next = omega (arith, e);
  partitions = λ p lt. elim (dec_eq n p) [
    | yes same ↦ let t : (n == p) ≡ true = ground arith in rw t (ap manifest.partitions same)
    | no ne ↦ let f : (n == p) ≡ false = ground arith in rw f (parts p (omega arith))
  ];
  before = entries;
  here = λ j lt. absurd (omega arith);
}

add_partition-Placed :
    (manifest : SystemManifest) (n : ℕ) (t : Runtime × ℕ)
    → Placed manifest n t.0
    → t.1 ≡ service_total manifest n
    → Placed manifest (suc n) (add_partition manifest n t).0
      × ((add_partition manifest n t).1 ≡ service_total manifest (suc n))
unfolding add_partition service_total
add_partition-Placed manifest n (r, next) placed e =
    let f =
      for_below_inv (Placing manifest n) (manifest.partitions n).service_count
        (add_service (manifest.partitions n) n) _ (λ k t lt g. add_service-Placing manifest n k t g)
        (set_partition-Placing manifest n r next placed e) in
    (
      (
        f.partitions,
        λ p j lt below. elim (dec_eq n p) [
          | yes same ↦
              subst
                (λ k.
                  (i : ℕ)
                  → i < (manifest.partitions k).service_count
                  → Entry (add_partition manifest n (r, next)).0 (service_total manifest k + i)
                      ((manifest.partitions k).services i) k)
                same f.here j below
          | no ne ↦ f.before p j (omega arith) below
        ],
      ),
      f.next,
    )

pub fill_runtime-Placed :
    (manifest : SystemManifest) (total n : ℕ)
    → Placed manifest n (for_below n (add_partition manifest) (blank manifest total, 0)).0
unfolding service_total
fill_runtime-Placed manifest total n =
    let (placed, next) =
      for_below_inv
        (λ k (t : Runtime × ℕ). Placed manifest k t.0 × (t.1 ≡ service_total manifest k)) n
        (add_partition manifest) (blank manifest total, 0)
        (λ k t lt (f, e). add_partition-Placed manifest k t f e)
        ((λ p lt. absurd (omega arith), λ p j lt below. absurd (omega arith)), refl) in
    placed
