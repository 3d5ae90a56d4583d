-- ===== src/Manifest/Dependencies/Order.antt =====
-- The elimination of partitions without dependencies: it ends, and what it removes can be ordered.
use native.Mathlib.Decide.{ℕ_discrete as dec_eq}
use wolf_trust_fork.Base.{
  ℕ, zero, suc, ◌+◌, ◌<◌, ◌≤◌, ◌≡◌, ◌≢◌, refl, sym, ap, ◌∙◌, subst, inl, inr, Bool, true, false,
  not, ◌&&◌, arith, ◌==◌, if◌then◌else◌, update, count, count-le, count_but_one, count_none, find,
  find-none, for_below_inv, for_below-map_cell, Bool-cases, if-when, Option-cases,
}
use wolf_trust_fork.Manifest.Dependencies.{
  Edges, Elimination, has_edge, remove_partition, sweep_round, sweep, eliminate, start,
}

-- A removed partition depends on partitions that were removed before it.
abbrev pub Ranks : ℕ → Edges → Elimination → (ℕ → ℕ) → Type 0
Ranks n edges st rank =
    (i : ℕ)
    → i < n
    → st.removed i ≡ true
    → (rank i < st.removed_count)
      × ((j : ℕ) → j < n → edges i j ≡ true → (st.removed j ≡ true) × (rank j < rank i))

-- The state of the elimination of `n` partitions with these edges
abbrev pub IsElimination : ℕ → Edges → Elimination → Type 0
IsElimination n edges st =
    (st.removed_count ≡ count st.removed n)
    × ((i j : ℕ) → i < n → st.removed j ≡ false → st.edges i j ≡ edges i j)
    × ((rank : ℕ → ℕ) × Ranks n edges st rank)

pub start-IsElimination : (n : ℕ) (edges : Edges) → IsElimination n edges (start edges)
start-IsElimination n edges = (
  sym (count_none (λ i. false) n (λ j lt. refl)),
  λ i j lt e. refl,
  (λ i. 0, λ i lt e. absurd (cc e)),
)

no_edge :
    (n : ℕ) (st : Elimination) (i j : ℕ)
    → has_edge n st i ≡ false
    → j < n
    → st.edges i j ≡ true
    → st.removed j ≡ true
unfolding has_edge
no_edge n st i j h lt e = elim (Option-cases (find (λ k. not (st.removed k) && st.edges i k) n)) [
  | inl p ↦ let t = find-none (λ k. not (st.removed k) && st.edges i k) n j p lt in ground arith
  | inr (k, p) ↦ absurd (cc (rw p at h))
]

-- The rank of the removed partition is the number of those before it.
abbrev ranked : (ℕ → ℕ) → ℕ → ℕ → ℕ → ℕ
ranked rank i r k = if i == k then r else rank k

ranked-other : (rank : ℕ → ℕ) (i r k : ℕ) → i ≢ k → ranked rank i r k ≡ rank k
ranked-other rank i r k ne = ground arith

ranked-same : (rank : ℕ → ℕ) (i r : ℕ) → ranked rank i r i ≡ r
ranked-same rank i r = ground arith

apart : (st : Elimination) (i j : ℕ) → st.removed i ≡ false → st.removed j ≡ true → i ≢ j
apart st i j a b e = cc (sym a, ap st.removed e, b)

stays_removed :
    (st : Elimination) (rank : ℕ → ℕ) (i j : ℕ)
    → st.removed i ≡ false
    → st.removed j ≡ true
    → (update st.removed i true j ≡ true) × (ranked rank i st.removed_count j ≡ rank j)
stays_removed st rank i j a b =
    (ground arith, ranked-other rank i st.removed_count j (apart st i j a b))

-- What partition `i` still depends on has been removed, if no edge is found.
cleared :
    (n : ℕ) (edges : Edges) (st : Elimination) (i j : ℕ)
    → IsElimination n edges st
    → i < n
    → has_edge n st i ≡ false
    → j < n
    → edges i j ≡ true
    → st.removed j ≡ true
cleared n edges st i j (c, same, r) il h jl e = elim (Bool-cases (st.removed j)) [
  | inl gone ↦ gone
  | inr stays ↦ no_edge n st i j h jl (same i j il stays ∙ e)
]

Ranks-remove :
    (n : ℕ) (edges : Edges) (st : Elimination) (i : ℕ) (rank : ℕ → ℕ)
    → IsElimination n edges st
    → i < n
    → st.removed i ≡ false
    → has_edge n st i ≡ false
    → Ranks n edges st rank
    → Ranks n edges (remove_partition n i st) (ranked rank i st.removed_count)
Ranks-remove n edges st i rank inv il stays free ranks k kl gone = elim (dec_eq i k) [
  | yes p ↦
      let same : ranked rank i st.removed_count k ≡ st.removed_count =
        subst (λ m. ranked rank i st.removed_count m ≡ st.removed_count) p
          (ranked-same rank i st.removed_count) in
      (
        omega arith,
        λ j jl e.
            let before =
              cleared n edges st i j inv il free jl (subst (λ m. edges m j ≡ true) (sym p) e) in
            let (up, there) = stays_removed st rank i j stays before in
            let low = (ranks j jl before).0 in (up, omega arith),
      )
  | no ne ↦
      let same = ranked-other rank i st.removed_count k ne in
      let before : st.removed k ≡ true = ground arith in
      let (lt, deps) = ranks k kl before in
      (
        omega arith,
        λ j jl e.
            let (earlier, low) = deps j jl e in
            let (up, there) = stays_removed st rank i j stays earlier in (up, omega arith),
      )
]

IsElimination-remove :
    (n : ℕ) (edges : Edges) (st : Elimination) (i : ℕ)
    → IsElimination n edges st
    → i < n
    → st.removed i ≡ false
    → has_edge n st i ≡ false
    → IsElimination n edges (remove_partition n i st)
IsElimination-remove n edges st i inv il stays free =
    let (c, same, (rank, ranks)) = inv in
    let one =
      count_but_one st.removed (update st.removed i true) n i il (λ j jl ne. ground arith) in
    (
      ground arith,
      λ k j kl e. kept same k j kl e,
      (ranked rank i st.removed_count, Ranks-remove n edges st i rank inv il stays free ranks),
    )
  where
    kept :
        ((k j : ℕ) → k < n → st.removed j ≡ false → st.edges k j ≡ edges k j)
        → (k j : ℕ) → k < n
        → update st.removed i true j ≡ false
        → (remove_partition n i st).edges k j ≡ edges k j
    kept same k j kl e =
        let ne : (i == j) ≡ false = ground arith in
        let left : st.removed j ≡ false = rw ne at e in
        rw (for_below-map_cell (λ row. update row i false) n k st.edges kl, ne) (same k j kl left)

-- A sweep that starts with `c` partitions removed.
abbrev pub Sweeping : ℕ → Edges → ℕ → Elimination → Type 0
Sweeping n edges c st =
    IsElimination n edges st × (c ≤ st.removed_count) × (st.progress ≡ true → c < st.removed_count)

sweep_round-Sweeping :
    (n : ℕ) (edges : Edges) (c i : ℕ) (st : Elimination)
    → i < n
    → Sweeping n edges c st
    → Sweeping n edges c (sweep_round n i st)
unfolding sweep_round
sweep_round-Sweeping n edges c i st il (inv, le, p) =
    if-when (Sweeping n edges c) st (if has_edge n st i then st else remove_partition n i st)
      (st.removed i) (λ gone. (inv, le, p))
      (λ stays.
        if-when (Sweeping n edges c) st (remove_partition n i st) (has_edge n st i)
          (λ e. (inv, le, p))
          (λ free.
            (IsElimination-remove n edges st i inv il stays free, omega arith, λ e. omega arith)))

-- A sweep that makes progress removes a partition.
pub sweep-Sweeping :
    (n : ℕ) (edges : Edges) (st : Elimination)
    → IsElimination n edges st
    → Sweeping n edges st.removed_count (sweep n st)
unfolding sweep
sweep-Sweeping n edges st inv =
    for_below_inv (λ k t. Sweeping n edges st.removed_count t) n (sweep_round n)
      (record st { progress = false })
      (λ k t kl h. sweep_round-Sweeping n edges st.removed_count k t kl h)
      (inv, omega arith, λ e. absurd (cc e))

abbrev pub Ended : ℕ → Edges → ℕ → Elimination → Type 0
Ended n edges fuel st =
    IsElimination n edges (eliminate fuel n st)
    × ((eliminate fuel n st).progress ≡ false)
    × ((total : ℕ) → fuel ≤ total → eliminate total n st ≡ eliminate fuel n st)

-- One sweep, and the rest if it made progress
Ended-step :
    (n : ℕ) (edges : Edges) (fuel : ℕ) (st : Elimination)
    → IsElimination n edges (sweep n st)
    → ((sweep n st).progress ≡ true → Ended n edges fuel (sweep n st))
    → Ended n edges (suc fuel) st
unfolding eliminate
Ended-step n edges fuel st inv rest = elim (Bool-cases (sweep n st).progress) [
  | inl e ↦ let (i, p, same) = rest e in (rw e i, rw e p, further e same)
  | inr e ↦ (rw e inv, rw e e, last e)
]
  where
    further :
        (sweep n st).progress ≡ true
        → ((total : ℕ)
            → fuel ≤ total
            → eliminate total n (sweep n st) ≡ eliminate fuel n (sweep n st))
        → (total : ℕ) → suc fuel ≤ total
        → eliminate total n st ≡ eliminate (suc fuel) n st
    further e same zero le = absurd (omega arith)
    further e same (suc total) le = rw e (same total (omega arith))

    last :
        (sweep n st).progress ≡ false
        → (total : ℕ) → suc fuel ≤ total
        → eliminate total n st ≡ eliminate (suc fuel) n st
    last e zero le = absurd (omega arith)
    last e (suc total) le = rw e refl

-- The elimination ends with a sweep that makes no progress if the rounds and the partitions removed so
-- far are more than the partitions; more rounds change nothing.
pub eliminate_ends :
    (fuel n : ℕ) (edges : Edges) (st : Elimination)
    → IsElimination n edges st
    → n < fuel + st.removed_count
    → Ended n edges fuel st
eliminate_ends zero n edges st inv lt =
    let c = inv.0 in absurd (omega (arith, count-le st.removed n))
eliminate_ends (suc fuel) n edges st inv lt =
    let (next, le, grows) = sweep-Sweeping n edges st inv in
    Ended-step n edges fuel st next
      (λ e. let more = grows e in eliminate_ends fuel n edges (sweep n st) next (omega arith))

count_all : (p : ℕ → Bool) (n : ℕ) → count p n ≡ n → (i : ℕ) → i < n → p i ≡ true
unfolding count
count_all p zero h i lt = absurd (omega arith)
count_all p (suc n) h i lt = elim (dec_eq i n) [
  | yes e ↦ rw e (ground (arith, count-le p n))
  | no ne ↦ count_all p n (ground (arith, count-le p n)) i (omega arith)
]

-- If every partition is removed, each has a rank above those that it depends on.
pub eliminate-rank :
    (n : ℕ) (edges : Edges)
    → (eliminate (suc n) n (start edges)).removed_count ≡ n
    → (rank : ℕ → ℕ) × ((i j : ℕ) → i < n → j < n → edges i j ≡ true → rank j < rank i)
eliminate-rank n edges h =
    let (c, same, (rank, ranks)) =
      (eliminate_ends (suc n) n edges (start edges) (start-IsElimination n edges)
        (omega arith)).0 in
    (
      rank,
      λ i j il jl e.
          ((ranks i il (count_all (eliminate (suc n) n (start edges)).removed n (sym c ∙ h) i il)).1
            j jl e).1,
    )
