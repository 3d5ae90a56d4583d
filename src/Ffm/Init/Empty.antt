-- ===== src/Ffm/Init/Empty.antt =====
-- What `wt_ffm_init` leaves.
use wolf_trust_fork.Base.{
  ℕ, zero, suc, ◌+◌, ◌≤◌, ◌<◌, ◌≡◌, inl, inr, refl, ap, subst, ◌∙◌, arith, false, ltb, Option, none,
  some, Option-cases, [], for_below, for_below_inv,
}
use wolf_trust_fork.Ffm.State.{
  Runtime, Message, Connection, ok, ok-injective, PartitionManifest, max_services, max_partitions,
  queue_none, bad_manifest, passes,
}
use wolf_trust_fork.Ffm.Waiting.{is_waiting, is_clear, Waiting}
use wolf_trust_fork.Ffm.Init.{
  SystemManifest, count_services, add_service, add_partition, add_count, fill_runtime, built, blank,
  init,
}
use wolf_trust_fork.Ffm.Init.Placed.{service_total, Placed, fill_runtime-Placed}

-- The services below `next` are filled with empty queues, and the slots are as `blank` has them.
record Filled (b : Runtime) (state : Runtime × ℕ) : Type 0 where
  head : (s : ℕ) → s < state.1 → (state.0.services s).queue_head ≡ queue_none
  tail : (s : ℕ) → s < state.1 → (state.0.services s).queue_tail ≡ queue_none
  messages : state.0.messages ≡ b.messages
  connections : state.0.connections ≡ b.connections
  service_count : state.0.service_count ≡ b.service_count
  partition_count : state.0.partition_count ≡ b.partition_count

add_service-Filled :
    (b : Runtime) (m : PartitionManifest) (p j : ℕ) (state : Runtime × ℕ)
    → Filled b state
    → Filled b (add_service m p j state)
unfolding add_service
add_service-Filled b m p j (r, next) f = record {
  head = λ s lt. ground (arith, f.head s);
  tail = λ s lt. ground (arith, f.tail s);
  messages = f.messages;
  connections = f.connections;
  service_count = f.service_count;
  partition_count = f.partition_count;
}

add_service-next :
    (m : PartitionManifest) (p j : ℕ) (state : Runtime × ℕ)
    → (add_service m p j state).1 ≡ state.1 + 1
unfolding add_service
add_service-next m p j (r, next) = refl

add_partition-Filled :
    (b : Runtime) (manifest : SystemManifest) (p : ℕ) (state : Runtime × ℕ)
    → Filled b state
    → Filled b (add_partition manifest p state)
      × ((add_partition manifest p state).1 ≡ state.1 + (manifest.partitions p).service_count)
unfolding add_partition
add_partition-Filled b manifest p (r, next) f =
    for_below_inv (λ k (t : Runtime × ℕ). Filled b t × (t.1 ≡ next + k))
      (manifest.partitions p).service_count (add_service (manifest.partitions p) p) _
      (λ k t lt (g, n). (
        add_service-Filled b (manifest.partitions p) p k t g,
        omega (arith, add_service-next (manifest.partitions p) p k t, n),
      ))
      (
        record {
          head = f.head;
          tail = f.tail;
          messages = f.messages;
          connections = f.connections;
          service_count = f.service_count;
          partition_count = f.partition_count;
        },
        omega arith,
      )

add_count-some :
    (p : PartitionManifest) (x : Option ℕ) (total : ℕ)
    → add_count p x ≡ some total
    → (before : ℕ) × (x ≡ some before)
      × (total ≡ before + p.service_count)
      × (before ≤ max_services → total ≤ max_services)
add_count-some p none total h = absurd (cc h)
add_count-some p (some before) total h = (before, refl, ground arith, λ le. ground arith)

count_services-some :
    (manifest : SystemManifest) (n total : ℕ)
    → count_services manifest n ≡ some total
    → (total ≡ service_total manifest n) × (total ≤ max_services)
unfolding count_services service_total
count_services-some manifest zero total h = (ground arith, ground arith)
count_services-some manifest (suc n) total h =
    let (before, e, sum, bound) =
      add_count-some (manifest.partitions n) (count_services manifest n) total h in
    let (same, le) = count_services-some manifest n before e in (omega (arith, same, sum), bound le)

fill_runtime-Filled :
    (manifest : SystemManifest) (total n : ℕ)
    → let filled = for_below n (add_partition manifest) (blank manifest total, 0) in
      Filled (blank manifest total) filled × (filled.1 ≡ service_total manifest n)
unfolding service_total
fill_runtime-Filled manifest total n =
    for_below_inv
      (λ k (t : Runtime × ℕ). Filled (blank manifest total) t × (t.1 ≡ service_total manifest k)) n
      (add_partition manifest) (blank manifest total, 0)
      (λ k t lt (g, e).
        let (f, next) = add_partition-Filled (blank manifest total) manifest k t g in
        (f, omega (arith, next, e)))
      (
        record {
          head = λ s lt. absurd (omega arith);
          tail = λ s lt. absurd (omega arith);
          messages = refl;
          connections = refl;
          service_count = refl;
          partition_count = refl;
        },
        refl,
      )

-- A runtime with the partitions of the manifest and their services, in order, with empty queues and free
-- slots.
abbrev pub Started : SystemManifest → Runtime → Type 0
Started manifest r =
    (r.partition_count ≡ manifest.partition_count)
    × (r.service_count ≡ service_total manifest manifest.partition_count)
    × Placed manifest manifest.partition_count r
    × (r.service_count ≤ max_services)
    × Waiting r (λ s. [])
    × ((c : ℕ) → (r.connections c).allocated ≡ false)
    × ((m : ℕ) → (r.messages m).allocated ≡ false)

Filled-Started :
    (manifest : SystemManifest) (total : ℕ) (state : Runtime × ℕ)
    → Filled (blank manifest total) state
    → total ≡ service_total manifest manifest.partition_count
    → total ≤ max_services
    → state.1 ≡ service_total manifest manifest.partition_count
    → Placed manifest manifest.partition_count state.0
    → Started manifest state.0
Filled-Started manifest total (r, next) f same le n placed = (
  f.partition_count,
  f.service_count ∙ same,
  placed,
  omega (arith, f.service_count, le),
  record {
    each = λ s lt. record {
      links = f.head s (omega (arith, f.service_count));
      tail = f.tail s (omega (arith, f.service_count));
      distinct = tt;
    };
    waits = λ s m lt k. absurd (cc k);
    queued = λ m lt k. absurd (cc (k, ap (λ (x : ℕ → Message). is_waiting (x m)) f.messages));
    clear = λ m. ap (λ (x : ℕ → Message). is_clear (x m)) f.messages;
  },
  λ c. ap (λ (x : ℕ → Connection). (x c).allocated) f.connections,
  λ m. ap (λ (x : ℕ → Message). (x m).allocated) f.messages,
)

-- A success of `wt_ffm_init`: the partitions are those of the manifest, and the services are those of
-- its partitions, one behind the other, each with the index of its partition, and at most `max_services`;
-- every queue is empty, and every connection and message slot is free.
pub init-Waiting :
    (manifest : SystemManifest) (r : Runtime) → init manifest ≡ ok r → Started manifest r
unfolding init
init-Waiting manifest r h =
    let (few, rest) =
      passes (ltb max_partitions manifest.partition_count) bad_manifest
        (built manifest (count_services manifest manifest.partition_count)) r h in
    elim (Option-cases (count_services manifest manifest.partition_count)) [
      | inl e ↦ absurd (cc (e, rest))
      | inr (total, e) ↦
          let (same, le) = count_services-some manifest manifest.partition_count total e in
          let (f, n) = fill_runtime-Filled manifest total manifest.partition_count in
          let made : (fill_runtime manifest total).0 ≡ r = ok-injective _ r (rw e at rest) in
          subst (λ (x : Runtime). Started manifest x) made
            (Filled-Started manifest total _ f same le n
              (fill_runtime-Placed manifest total manifest.partition_count))
    ]
