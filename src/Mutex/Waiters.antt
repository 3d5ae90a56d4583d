-- ===== src/Mutex/Waiters.antt =====
-- The queue of waiters as a list of coroutines.
use mathlib.Core.Option.{some-injective}
use wolf_trust_fork.Base.{
  ℕ, ◌+◌, ◌%◌, ◌^◌, ◌≡◌, ◌≢◌, refl, sym, ap, subst, true, false, List, [], ◌∷◌, ◌++◌, Option, none,
  some, arith, ◌==◌, if◌then◌else◌, update, if-when,
}
use wolf_trust_fork.Ffm.Queue.Links.{
  member, Distinct, last_or, last_or-ne, last_or-append, Distinct-append, member-append,
}
use wolf_trust_fork.Mutex.{Mutex, same_co, link_waiter, join_waiters, hand_over}

-- The chain that starts at `h` holds the coroutines of the list, in order.
abbrev pub Chain : (ℕ → Option ℕ) → Option ℕ → List ℕ → Type 0
Chain next h [] = h ≡ none
Chain next h (c ∷ q) = (h ≡ some c) × Chain next (next c) q

abbrev pub last_of : List ℕ → Option ℕ
last_of [] = none
last_of (c ∷ q) = some (last_or c q)

-- The holder does not wait, and without a holder nobody waits.
abbrev pub Held : Option ℕ → List ℕ → Type 0
Held none q = q ≡ []
Held (some c) q = member c q ≡ false

-- The mutex with the queue of waiters `q`
abbrev pub IsMutex : Mutex → List ℕ → Type 0
IsMutex m q =
    Chain m.next_wait m.wait_head q × (m.wait_tail ≡ last_of q) × Distinct q × Held m.holder q

Chain-update :
    (next : ℕ → Option ℕ) (h : Option ℕ) (i : ℕ) (v : Option ℕ) (q : List ℕ)
    → member i q ≡ false
    → Chain next h q
    → Chain (update next i v) h q
Chain-update next h i v [] a l = l
Chain-update next h i v (c ∷ q) a (p, l) =
    let other : (i == c) ≡ false = ground arith in
    let rest = Chain-update next (next c) i v q (ground arith) l in (p, rw other rest)

update_here : (next : ℕ → Option ℕ) (i : ℕ) (v : Option ℕ) → update next i v i ≡ v
update_here next i v = let here : (i == i) ≡ true = ground arith in rw here refl

Chain-append :
    (next : ℕ → Option ℕ) (h : Option ℕ) (c d : ℕ) (q : List ℕ)
    → Chain next h (c ∷ q)
    → Distinct (c ∷ q)
    → member d (c ∷ q) ≡ false
    → next d ≡ none
    → Chain (update next (last_or c q) (some d)) h (c ∷ q ++ d ∷ [])
Chain-append next h c d [] (p, l) (a, ds) b e =
    let other : (c == d) ≡ false = ground arith in (p, (ground arith, rw other e))
Chain-append next h c d (x ∷ q) (p, l) (a, ds) b e =
    let ne = last_or-ne c x q a in
    let rest = Chain-append next (next c) x d q l ds (ground arith) e in
    let there : update next (last_or x q) (some d) c ≡ next c =
      let away : (last_or x q == c) ≡ false = ground arith in rw away refl in
    (
      p,
      subst (λ k. Chain (update next (last_or x q) (some d)) k (x ∷ q ++ d ∷ [])) (sym there) rest,
    )

last_of-append : (q : List ℕ) (c : ℕ) → last_of (q ++ c ∷ []) ≡ some c
last_of-append [] c = refl
last_of-append (x ∷ q) c = ap some (last_or-append x c q)

Held-append :
    (o : Option ℕ) (h self : ℕ) (q : List ℕ)
    → o ≡ some h
    → h ≢ self
    → Held o q
    → Held o (q ++ self ∷ [])
Held-append none h self q e ne k = absurd (cc e)
Held-append (some c) h self q e ne k =
    let same : c ≡ h = some-injective c h e in ground (arith, member-append c q (self ∷ []))

-- A coroutine that does not wait joins the queue at its end.
pub join_waiters-IsMutex :
    (m : Mutex) (q : List ℕ) (h self : ℕ)
    → IsMutex m q
    → m.holder ≡ some h
    → h ≢ self
    → member self q ≡ false
    → IsMutex (join_waiters m self) (q ++ self ∷ [])
unfolding join_waiters
join_waiters-IsMutex m [] h self (c, t, d, k) held ne new =
    let none_waits : same_co m.wait_head none ≡ true = rw c refl in
    rw none_waits (
      (refl, update_here m.next_wait self none),
      refl,
      (refl, tt),
      subst (λ o. Held o (self ∷ [])) (sym held) (ground arith),
    )
join_waiters-IsMutex m (x ∷ q) h self (c, t, d, k) held ne new =
    let waits : same_co m.wait_head none ≡ false = rw (c.0) refl in
    let next = update m.next_wait self none in
    let alone = record m { contend_count = (m.contend_count + 1) % 2 ^ 32; next_wait = next } in
    let cleared = Chain-update m.next_wait m.wait_head self none (x ∷ q) new c in
    let here = update_here m.next_wait self none in
    let joined : IsMutex (link_waiter alone m.wait_tail self) (x ∷ q ++ self ∷ []) =
      subst (λ u. IsMutex (link_waiter alone u self) (x ∷ q ++ self ∷ [])) (sym t)
        (
          Chain-append next m.wait_head x self q cleared d new here,
          ap some (sym (last_or-append x self q)),
          Distinct-append (x ∷ q) self d new,
          Held-append m.holder h self (x ∷ q) held ne k,
        ) in
    if-when (λ z. IsMutex z (x ∷ q ++ self ∷ []))
      (record alone { wait_head = some self; wait_tail = some self })
      (link_waiter alone m.wait_tail self) (same_co m.wait_head none)
      (λ e. absurd (cc (sym e, waits))) (λ e. joined)

-- The waiters other than the first
pub Chain-tail :
    (next : ℕ → Option ℕ) (h : Option ℕ) (c : ℕ) (q : List ℕ)
    → Chain next h (c ∷ q)
    → member c q ≡ false
    → Chain (update next c none) (next c) q
Chain-tail next h c q (p, l) a = Chain-update next (next c) c none q a l

-- Whom a release wakes, and who waits then
abbrev pub Handed : List ℕ → Option ℕ × Mutex → Type 0
Handed [] z = (z.0 ≡ none) × (z.1.holder ≡ none) × IsMutex z.1 []
Handed (c ∷ q) z = (z.0 ≡ some c) × (z.1.holder ≡ some c) × IsMutex z.1 q

-- The tail of the queue without its head
tail_rest :
    (tail n : Option ℕ) (next : ℕ → Option ℕ) (x : ℕ) (q : List ℕ)
    → Chain next n q
    → tail ≡ some (last_or x q)
    → (if same_co n none then none else tail) ≡ last_of q
tail_rest tail n next x [] c t = rw c refl
tail_rest tail n next x (y ∷ q) c t = rw (c.0) t

pub hand_over-Handed : (m : Mutex) (q : List ℕ) → IsMutex m q → Handed q (hand_over m m.wait_head)
hand_over-Handed m [] (c, t, d, k) =
    subst (λ h. Handed [] (hand_over m h)) (sym c) (refl, refl, (c, t, d, refl))
hand_over-Handed m (x ∷ q) (c, t, (a, d), k) =
    subst (λ h. Handed (x ∷ q) (hand_over m h)) (sym c.0)
      (
        refl,
        refl,
        (
          Chain-tail m.next_wait m.wait_head x q c a,
          tail_rest m.wait_tail (m.next_wait x) m.next_wait x q c.1 t,
          d,
          a,
        ),
      )

-- Unlinking `co`, which stands behind the coroutines `x ∷ p`
pub Chain-unlink :
    (next : ℕ → Option ℕ) (h : Option ℕ) (x co : ℕ) (p q : List ℕ)
    → Chain next h (x ∷ p ++ co ∷ q)
    → Distinct (x ∷ p ++ co ∷ q)
    → Chain (update (update next (last_or x p) (next co)) co none) h (x ∷ p ++ q)
Chain-unlink next h x co [] q (e, (f, l)) (d, (d', ds)) =
    let old =
      Chain-update (update next x (next co)) (next co) co none q d'
        (Chain-update next (next co) x (next co) q (ground arith) l) in
    let there : update (update next x (next co)) co none x ≡ next co =
      let ne : (co == x) ≡ false = ground arith in rw ne (update_here next x (next co)) in
    (e, subst (λ k. Chain (update (update next x (next co)) co none) k q) (sym there) old)
Chain-unlink next h x co (y ∷ p) q (e, l) (d, ds) =
    let rest = Chain-unlink next (next x) y co p q l ds in
    let new = update (update next (last_or y p) (next co)) co none in
    let apart : (member x (y ∷ p) ≡ false) × (co ≢ x) =
      ground (arith, member-append x (y ∷ p) (co ∷ q)) in
    let there : new x ≡ next x =
      let ne : (co == x) ≡ false = ground arith in
      let away : (last_or y p == x) ≡ false = ground (arith, last_or-ne x y p apart.0) in
      rw (ne, away) refl in
    (e, subst (λ k. Chain new k (y ∷ p ++ q)) (sym there) rest)
