-- ===== src/Vnet/Pool/InUse.antt =====
-- The counter of frames in use against the frames themselves.
use mathlib.Core.Option.{some-injective}
use wolf_trust_fork.Base.{
  if-when, for_below-map_cell, ℕ, ◌+◌, ◌-◌, ◌%◌, ◌^◌, ◌<◌, ◌≡◌, ◌≢◌, refl, sym, ap, ◌∙◌, subst,
  Bool, false, not, Option, none, some, arith, ◌==◌, leb, if◌then◌else◌, count, count-le,
  count_but_one, count_none, find-some, for_below_inv, if-each,
}
use wolf_trust_fork.Vnet.State.{Frame, FramePool, Status, inc16}
use wolf_trust_fork.Vnet.Pool.{
  pool_init, pool_alloc, pool_ref, pool_release, pool_force_free, pool_drop_expired, set_slot,
  take_slot, taken_frame, cleared_frame, free_slot, drop_if_expired, alloc_found,
}

-- A slot that is in use
abbrev pub in_use : FramePool → ℕ → Bool
in_use p i = not ((p.slots i).refcnt == 0)

-- The counter is the number of slots in use, and the reference counts and the size have 16 bits.
abbrev pub IsPool : FramePool → Type 0
IsPool p =
    (p.slot_count < 2 ^ 16)
    × (p.in_use_count ≡ count (in_use p) p.slot_count)
    × ((i : ℕ) → i < p.slot_count → (p.slots i).refcnt < 2 ^ 16)

-- What a write to one slot does to the number of slots in use.
count-set_slot :
    (p : FramePool) (i : ℕ) (f : Frame)
    → i < p.slot_count
    → count (in_use p) p.slot_count + (if not (f.refcnt == 0) then 1 else 0)
      ≡ count (in_use (set_slot p i f)) p.slot_count + (if in_use p i then 1 else 0)
count-set_slot p i f lt =
    let one =
      count_but_one (in_use p) (in_use (set_slot p i f)) p.slot_count i lt
        (λ j below ne. ground arith) in
    ground arith

-- A write of a frame keeps the reference counts within 16 bits.
small-set_slot :
    (p : FramePool) (i : ℕ) (f : Frame)
    → f.refcnt < 2 ^ 16
    → ((j : ℕ) → j < p.slot_count → (p.slots j).refcnt < 2 ^ 16)
    → (j : ℕ) → j < p.slot_count
    → ((set_slot p i f).slots j).refcnt < 2 ^ 16
small-set_slot p i f s all j lt =
    if-when (λ g. Frame.refcnt g < 2 ^ 16) f (p.slots j) (i == j) (λ e. s) (λ e. all j lt)

-- A write that leaves the slot in use, or free
pub IsPool-set_slot :
    (p : FramePool) (i : ℕ) (f : Frame)
    → i < p.slot_count
    → ((p.slots i).refcnt == 0) ≡ (f.refcnt == 0)
    → f.refcnt < 2 ^ 16
    → IsPool p
    → IsPool (set_slot p i f)
IsPool-set_slot p i f lt e s (b, c, all) =
    (b, ground (arith, count-set_slot p i f lt), small-set_slot p i f s all)

IsPool-take_slot :
    (p : FramePool) (now i : ℕ)
    → i < p.slot_count
    → (p.slots i).refcnt ≡ 0
    → IsPool p
    → IsPool (take_slot p now i)
IsPool-take_slot p now i lt e (b, c, all) =
    let one = count-set_slot p i (taken_frame (p.slots i) now) lt in
    let le = count-le (in_use (take_slot p now i)) p.slot_count in
    let f = taken_frame (p.slots i) now in (b, ground arith, small-set_slot p i f (omega arith) all)

IsPool-free_slot :
    (p : FramePool) (i : ℕ)
    → i < p.slot_count
    → (p.slots i).refcnt ≢ 0
    → IsPool p
    → IsPool (free_slot p i)
IsPool-free_slot p i lt e (b, c, all) =
    let f = record (p.slots i) { refcnt = 0 } in
    let one = count-set_slot p i f lt in (b, ground arith, small-set_slot p i f (omega arith) all)

alloc_found-some :
    (p : FramePool) (now : ℕ) (o : Option ℕ) (i : ℕ) (p1 : FramePool)
    → alloc_found p now o ≡ some (i, p1)
    → (o ≡ some i) × (p1 ≡ take_slot p now i)
alloc_found-some p now none i p1 h = absurd (cc h)
alloc_found-some p now (some j) i p1 h =
    let e = some-injective _ _ h in
    let k : j ≡ i = ap (λ x. x.0) e in (ap some k, sym (ap (λ x. x.1) e) ∙ ap (take_slot p now) k)

-- An allocation takes a slot that was free.
pub pool_alloc-some :
    (p : FramePool) (now : ℕ) (i : ℕ) (p1 : FramePool)
    → pool_alloc p now ≡ some (i, p1)
    → (i < p.slot_count) × ((p.slots i).refcnt ≡ 0) × (p1 ≡ take_slot p now i)
unfolding pool_alloc
pool_alloc-some p now i p1 h =
    let (e, t) = alloc_found-some p now _ i p1 h in
    let (lt, free) = find-some (λ j. (p.slots j).refcnt == 0) p.slot_count i e in
    (lt, ground arith, t)

pub pool_alloc-IsPool :
    (p : FramePool) (now : ℕ) (i : ℕ) (p1 : FramePool)
    → pool_alloc p now ≡ some (i, p1)
    → IsPool p
    → IsPool p1
pool_alloc-IsPool p now i p1 h inv =
    let (lt, free, e) = pool_alloc-some p now i p1 h in
    subst IsPool (sym e) (IsPool-take_slot p now i lt free inv)

-- A result of an operation whose pool is one
abbrev KeepsPool : Status × FramePool → Type 0
KeepsPool x = IsPool x.1

ref_small :
    (p : FramePool) (slot : ℕ)
    → leb p.slot_count slot ≡ false
    → ((p.slots slot).refcnt == 0) ≡ false
    → ((p.slots slot).refcnt == 2 ^ 16 - 1) ≡ false
    → IsPool p
    → IsPool (set_slot p slot (record (p.slots slot) { refcnt = inc16 (p.slots slot).refcnt }))
ref_small p slot out live most inv =
    let lt : slot < p.slot_count = ground arith in
    let small = inv.2 slot lt in
    IsPool-set_slot p slot (record (p.slots slot) { refcnt = inc16 (p.slots slot).refcnt }) lt
      (ground arith) (omega arith) inv

release_small :
    (p : FramePool) (slot : ℕ)
    → leb p.slot_count slot ≡ false
    → ((p.slots slot).refcnt == 0) ≡ false
    → ((p.slots slot).refcnt - 1 == 0) ≡ false
    → IsPool p
    → IsPool (set_slot p slot (record (p.slots slot) { refcnt = (p.slots slot).refcnt - 1 }))
release_small p slot out live more inv =
    let lt : slot < p.slot_count = ground arith in
    let small = inv.2 slot lt in
    IsPool-set_slot p slot (record (p.slots slot) { refcnt = (p.slots slot).refcnt - 1 }) lt
      (ground arith) (omega arith) inv

pub pool_ref-IsPool : (p : FramePool) (slot gen : ℕ) → IsPool p → IsPool (pool_ref p slot gen).1
unfolding pool_ref
pool_ref-IsPool p slot gen inv =
    let f = p.slots slot in
    if-when KeepsPool _ _ (leb p.slot_count slot) (λ h. inv)
      (λ lt.
        if-when KeepsPool _ _ (f.refcnt == 0) (λ h. inv)
          (λ live.
            if-when KeepsPool _ _ (not (f.gen == gen)) (λ h. inv)
              (λ h.
                if-when KeepsPool _ _ (f.refcnt == 2 ^ 16 - 1) (λ h. inv)
                  (λ small. ref_small p slot lt live small inv))))

pub pool_release-IsPool :
    (p : FramePool) (slot gen : ℕ) → IsPool p → IsPool (pool_release p slot gen).1
unfolding pool_release
pool_release-IsPool p slot gen inv =
    let f = p.slots slot in
    if-when KeepsPool _ _ (leb p.slot_count slot) (λ h. inv)
      (λ lt.
        if-when KeepsPool _ _ (not (f.gen == gen)) (λ h. inv)
          (λ h.
            if-when KeepsPool _ _ (f.refcnt == 0) (λ h. inv)
              (λ live.
                if-when KeepsPool _ _ (f.refcnt - 1 == 0)
                  (λ last. IsPool-free_slot p slot (ground arith) (ground arith) inv)
                  (λ more. release_small p slot lt live more inv))))

pub pool_force_free-IsPool :
    (p : FramePool) (slot : ℕ) → IsPool p → IsPool (pool_force_free p slot).1
unfolding pool_force_free
pool_force_free-IsPool p slot inv =
    if-when KeepsPool _ _ (leb p.slot_count slot) (λ h. inv)
      (λ lt.
        if-when KeepsPool _ _ ((p.slots slot).refcnt == 0) (λ h. inv)
          (λ live. IsPool-free_slot p slot (ground arith) (ground arith) inv))

-- The state of the reaper's loop: the pool is one, and has as many slots as before.
abbrev Reaping : ℕ → FramePool × ℕ → Type 0
Reaping n z = IsPool z.0 × (z.0.slot_count ≡ n)

drop_if_expired-Reaping :
    (now timeout i n : ℕ) (x : FramePool × ℕ)
    → i < n
    → Reaping n x
    → Reaping n (drop_if_expired now timeout i x)
unfolding drop_if_expired
drop_if_expired-Reaping now timeout i n (p, freed) lt (inv, e) =
    let age = (now + 2 ^ 32 - (p.slots i).born_tick) % 2 ^ 32 in
    if-when (Reaping n) _ _ ((p.slots i).refcnt == 0) (λ h. (inv, e))
      (λ live.
        if-when (Reaping n) _ _ (leb timeout age)
          (λ old. (IsPool-free_slot p i (omega arith) (ground arith) inv, e)) (λ h. (inv, e)))

pub pool_drop_expired-IsPool :
    (p : FramePool) (now timeout : ℕ) → IsPool p → IsPool (pool_drop_expired p now timeout).0
unfolding pool_drop_expired
pool_drop_expired-IsPool p now timeout inv =
    let n = p.slot_count in
    let kept =
      for_below_inv (λ k z. Reaping n z) n (drop_if_expired now timeout) (p, 0)
        (λ k z lt keep. drop_if_expired-Reaping now timeout k n z lt keep) (inv, refl) in
    (if-each (Reaping n) _ _ (timeout == 0) (inv, refl) kept).0

-- A pool is set up with every frame free.
pub pool_init-IsPool : (storage : ℕ → Frame) (n : ℕ) → n < 2 ^ 16 → IsPool (pool_init storage n)
unfolding pool_init
pool_init-IsPool storage n lt = (
  lt,
  sym (
      count_none _ n (λ j below.
        ap (λ f. not (Frame.refcnt f == 0)) (for_below-map_cell cleared_frame n j storage below))),
  λ j below. let e = for_below-map_cell cleared_frame n j storage below in rw e (omega arith),
)
