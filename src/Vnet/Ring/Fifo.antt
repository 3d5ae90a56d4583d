-- ===== src/Vnet/Ring/Fifo.antt =====
-- The ring buffer as a bounded first-in first-out list of descriptors.
use native.Mathlib.Nat.{mod-eq_of_lt, mod_self}
use native.Mathlib.Decide.{ℕ_discrete as dec_eq}
use wolf_trust_fork.Base.{
  ℕ, ◌+◌, ◌%◌, ◌^◌, ◌≤◌, ◌<◌, ◌≡◌, ◌⊎◌, refl, ap, inl, inr, true, false, Option, none, some, List,
  [], ◌∷◌, ◌++◌, arith, ◌==◌, leb, if◌then◌else◌, update, length, Bool-cases,
}
use wolf_trust_fork.Vnet.State.{Ring, RxDesc, Status, success, failure, vnet_queue_full, vnet_empty}
use wolf_trust_fork.Vnet.Ring.{
  ring_init, ring_push, ring_pop, ring_drop_head, ring_peek, advance_tail,
}

-- The index after `t` in a ring of `n` cells.
wrap : (n t : ℕ) → t < n → ((t + 1) % n ≡ (if t + 1 == n then 0 else t + 1))
wrap n t lt = elim (dec_eq (t + 1) n) [
  | yes e ↦ rw (e, mod_self n) (ground arith)
  | no ne ↦ let below : t + 1 < n = omega arith in rw (mod-eq_of_lt below) (ground arith)
]

-- The cells from `t` on, around the ring of `n` cells, hold the list, and `h` is the next one.
abbrev pub Span : (ℕ → RxDesc) → ℕ → ℕ → List RxDesc → ℕ → Type 0
Span buf n t [] h = t ≡ h
Span buf n t (d ∷ q) h = (buf t ≡ d) × Span buf n ((t + 1) % n) q h

-- The ring holds the frames of the list, oldest first.
abbrev pub IsRing : Ring → List RxDesc → Type 0
IsRing r q =
    (r.tail < r.capacity)
    × (r.head < r.capacity)
    × (r.capacity < 2 ^ 16)
    × (length q ≤ r.capacity)
    × (r.count ≡ length q)
    × Span r.buf r.capacity r.tail q r.head

-- The bounded list that the ring stands for.
unfoldable pub fifo_push : ℕ → List RxDesc → RxDesc → Status × List RxDesc
fifo_push n q d =
    if leb n (length q) then (failure vnet_queue_full, q) else (success 0, q ++ d ∷ [])

abbrev pub fifo_pop : List RxDesc → Status × Option RxDesc × List RxDesc
fifo_pop [] = (failure vnet_empty, none, [])
fifo_pop (d ∷ q) = (success 0, some d, q)

-- How far apart the ends of a span are.
Span-ends :
    (buf : ℕ → RxDesc) (n t : ℕ) (q : List RxDesc) (h : ℕ)
    → t < n
    → length q ≤ n
    → Span buf n t q h
    → (h ≡ t + length q) ⊎ (h + n ≡ t + length q)
Span-ends buf n t [] h lt le s = inl (ground arith)
Span-ends buf n t (d ∷ q) h lt le (e, s) =
    let w = wrap n t lt in
    let next : (t + 1) % n < n = ground (arith, w) in
    ground (arith, w, Span-ends buf n ((t + 1) % n) q h next (omega arith) s)

-- A write to the next free cell appends.
Span-append :
    (buf : ℕ → RxDesc) (n t : ℕ) (q : List RxDesc) (h : ℕ) (d : RxDesc)
    → t < n
    → h < n
    → length q < n
    → Span buf n t q h
    → Span (update buf h d) n t (q ++ d ∷ []) ((h + 1) % n)
Span-append buf n t [] h d lt hlt le s = (ground arith, ap (λ k. (k + 1) % n) s)
Span-append buf n t (x ∷ q) h d lt hlt le (e, s) =
    let w = wrap n t lt in
    let next : (t + 1) % n < n = ground (arith, w) in
    let apart : (h == t) ≡ false =
      ground (arith, Span-ends buf n t (x ∷ q) h lt (omega arith) (e, s)) in
    (rw apart e, Span-append buf n ((t + 1) % n) q h d next hlt (omega arith) s)

length-append : (q : List RxDesc) (d : RxDesc) → length (q ++ d ∷ []) ≡ length q + 1
length-append [] d = refl
length-append (x ∷ q) d = ground (arith, length-append q d)

-- A push refines the push of the bounded list.
pub ring_push-fifo_push :
    (r : Ring) (q : List RxDesc) (d : RxDesc)
    → IsRing r q
    → ((ring_push r d).0 ≡ (fifo_push r.capacity q d).0)
      × IsRing (ring_push r d).1 (fifo_push r.capacity q d).1
unfolding ring_push fifo_push
ring_push-fifo_push r q d (t, h, c, l, k, s) = elim (Bool-cases (leb r.capacity (length q))) [
  | inl e ↦
      let zero : (r.capacity == 0) ≡ false = ground arith in
      let full : leb r.capacity r.count ≡ true = ground arith in
      rw (zero, full, e) (refl, (t, h, c, l, k, s))
  | inr e ↦
      let zero : (r.capacity == 0) ≡ false = ground arith in
      let less : length q < r.capacity = ground arith in
      let w = wrap r.capacity r.head h in
      let put = Span-append r.buf r.capacity r.tail q r.head d t h less s in
      let room : leb r.capacity r.count ≡ false = ground arith in
      rw (zero, room, e)
        (
          refl,
          (
            t,
            ground (arith, w),
            c,
            ground (arith, length-append q d),
            ground (arith, length-append q d),
            put,
          ),
        )
]

pub IsRing-advance :
    (r : Ring) (d : RxDesc) (q : List RxDesc) → IsRing r (d ∷ q) → IsRing (advance_tail r) q
IsRing-advance r d q (t, h, c, l, k, (e, s)) =
    (ground (arith, wrap r.capacity r.tail t), h, c, omega arith, rw k (ground arith), s)

-- A pop refines the pop of the list.
pub ring_pop-fifo_pop :
    (r : Ring) (q : List RxDesc)
    → IsRing r q
    → ((ring_pop r).0 ≡ (fifo_pop q).0)
      × ((ring_pop r).1 ≡ (fifo_pop q).1)
      × IsRing (ring_pop r).2 (fifo_pop q).2
unfolding ring_pop
ring_pop-fifo_pop r [] (t, h, c, l, k, s) =
    let zero : (r.capacity == 0) ≡ false = ground arith in
    let none_left : (r.count == 0) ≡ true = ground arith in
    rw (zero, none_left) (refl, refl, (t, h, c, l, k, s))
ring_pop-fifo_pop r (d ∷ q) i =
    let (t, h, c, l, k, (e, s)) = i in
    let zero : (r.capacity == 0) ≡ false = ground arith in
    let some_left : (r.count == 0) ≡ false = ground arith in
    rw (zero, some_left) (refl, ap some e, IsRing-advance r d q i)

-- Dropping the oldest frame does what a pop does, and looking at it changes nothing.
ring_drop_head-ring_pop : (r : Ring) → ring_drop_head r ≡ ((ring_pop r).0, (ring_pop r).2)
unfolding ring_drop_head ring_pop
ring_drop_head-ring_pop r = ground arith

ring_peek-ring_pop : (r : Ring) → ring_peek r ≡ ((ring_pop r).0, (ring_pop r).1)
unfolding ring_peek ring_pop
ring_peek-ring_pop r = ground arith

-- The operations on a ring that holds `q` do what the bounded list does with `q`: a push appends, or
-- refuses when the ring is full; a pop takes the oldest frame, or reports that there is none; dropping
-- the head and peeking at it are the two halves of a pop.
pub ring_operations-IsRing :
    (r : Ring) (q : List RxDesc) (d : RxDesc)
    → IsRing r q
    → (((ring_push r d).0 ≡ (fifo_push r.capacity q d).0)
        × IsRing (ring_push r d).1 (fifo_push r.capacity q d).1)
      × (((ring_pop r).0 ≡ (fifo_pop q).0)
          × ((ring_pop r).1 ≡ (fifo_pop q).1)
          × IsRing (ring_pop r).2 (fifo_pop q).2)
      × (ring_drop_head r ≡ ((ring_pop r).0, (ring_pop r).2))
      × (ring_peek r ≡ ((ring_pop r).0, (ring_pop r).1))
ring_operations-IsRing r q d i = (
  ring_push-fifo_push r q d i,
  ring_pop-fifo_pop r q i,
  ring_drop_head-ring_pop r,
  ring_peek-ring_pop r,
)

-- A new ring is empty.
pub ring_init-IsRing :
    (storage : ℕ → RxDesc) (n : ℕ) → 0 < n → n < 2 ^ 16 → IsRing (ring_init storage n) []
ring_init-IsRing storage n lo hi = (lo, lo, hi, omega arith, refl, refl)
