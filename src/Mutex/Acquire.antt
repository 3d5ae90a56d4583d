-- ===== src/Mutex/Acquire.antt =====
-- What an acquisition does to the holder and the list of waiters.
use wolf_trust_fork.Base.{
  if-along, ℕ, zero, suc, arith, ◌==◌, ◌<◌, ◌≡◌, ◌≢◌, refl, sym, ap, ◌∙◌, subst, Bool, true, false,
  List, [], ◌∷◌, ◌++◌, length, Option, none, some, if◌then◌else◌, if-when, if-each, update, ◌+◌,
  ◌%◌, ◌^◌,
}
use wolf_trust_fork.Ffm.Queue.Links.{member}
use wolf_trust_fork.Mutex.{
  Mutex, same_co, take_mutex, link_waiter, join_waiters, AcquireState, acquire_done,
  acquire_blocked, mutex_acquire, mutex_acquire_queued, is_parked,
}
use wolf_trust_fork.Mutex.Waiters.{Chain, last_of, Held, IsMutex, join_waiters-IsMutex}

-- What an acquisition by `self` comes to, by the holder before
abbrev pub Acquired : Option ℕ → List ℕ → ℕ → AcquireState × Mutex → Type 0
Acquired none q self z = (z.0 ≡ acquire_done) × (z.1.holder ≡ some self) × IsMutex z.1 []
Acquired (some h) q self z =
    (z.0 ≡ acquire_blocked) × (z.1.holder ≡ some h) × IsMutex z.1 (q ++ self ∷ [])

link_waiter-holder :
    (m : Mutex) (t : Option ℕ) (self : ℕ) → (link_waiter m t self).holder ≡ m.holder
link_waiter-holder m none self = refl
link_waiter-holder m (some tail) self = refl

join_waiters-holder : (m : Mutex) (self : ℕ) → (join_waiters m self).holder ≡ m.holder
unfolding join_waiters
join_waiters-holder m self =
    let alone = record m {
      contend_count = (m.contend_count + 1) % 2 ^ 32;
      next_wait = update m.next_wait self none;
    } in
    if-each (λ z. Mutex.holder z ≡ m.holder)
      (record alone { wait_head = some self; wait_tail = some self })
      (link_waiter alone m.wait_tail self) (same_co m.wait_head none) refl
      (link_waiter-holder alone m.wait_tail self)

taken :
    (m : Mutex) (q : List ℕ) (self : ℕ)
    → q ≡ []
    → IsMutex m q
    → IsMutex (take_mutex m (some self)) []
taken m q self e (c, t, d, k) =
    (subst (Chain m.next_wait m.wait_head) e c, t ∙ ap last_of e, tt, refl)

nobody : (o : Option ℕ) (q : List ℕ) → o ≡ none → Held o q → q ≡ []
nobody o q e k = subst (λ x. Held x q) e k

joined :
    (m : Mutex) (q : List ℕ) (h self : ℕ)
    → m.holder ≡ some h
    → IsMutex m q
    → h ≢ self
    → member self q ≡ false
    → Acquired (some h) q self (acquire_blocked, join_waiters m self)
joined m q h self e i ne new =
    (refl, join_waiters-holder m self ∙ e, join_waiters-IsMutex m q h self i e ne new)

free_holder : (o : Option ℕ) (h : ℕ) → o ≡ some h → same_co o none ≡ false
free_holder o h e = subst (λ x. same_co x none ≡ false) (sym e) refl

no_holder : (o : Option ℕ) → o ≡ none → same_co o none ≡ true
no_holder o e = subst (λ x. same_co x none ≡ true) (sym e) refl

pub mutex_acquire-Acquired :
    (m : Mutex) (q : List ℕ) (self : ℕ) (o : Option ℕ)
    → m.holder ≡ o
    → IsMutex m q
    → o ≢ some self
    → member self q ≡ false
    → Acquired o q self (mutex_acquire m (some self))
unfolding mutex_acquire
mutex_acquire-Acquired m q self none e i ne new =
    if-when (Acquired none q self) (acquire_done, take_mutex m (some self))
      (acquire_blocked, join_waiters m self) (same_co m.holder none)
      (λ h. (refl, refl, taken m q self (nobody m.holder q e i.3) i))
      (λ h. absurd (cc (sym h, no_holder m.holder e)))
mutex_acquire-Acquired m q self (some h) e i ne new =
    if-when (Acquired (some h) q self) (acquire_done, take_mutex m (some self))
      (acquire_blocked, join_waiters m self) (same_co m.holder none)
      (λ f. absurd (cc (sym f, free_holder m.holder h e)))
      (λ f. joined m q h self e i (λ p. ne (ap some p)) new)

is_parked-member :
    (fuel : ℕ) (m : Mutex) (co : ℕ) (h : Option ℕ) (q : List ℕ)
    → length q < fuel
    → Chain m.next_wait h q
    → is_parked fuel m h co ≡ member co q
unfolding is_parked
is_parked-member zero m co h q f l = absurd (omega arith)
is_parked-member (suc fuel) m co h [] f l = rw l refl
is_parked-member (suc fuel) m co h (x ∷ q) f (e, l) =
    let rest : is_parked fuel m (m.next_wait x) co ≡ member co q =
      is_parked-member fuel m co (m.next_wait x) q (omega arith) l in
    subst (λ c. is_parked (suc fuel) m c co ≡ member co (x ∷ q)) (sym e) (ground arith)

-- What an acquisition for `co` that may be repeated comes to, by whether it holds the mutex, whether
-- it waits, and the holder before
abbrev pub Requeued : Bool → Bool → Mutex → Option ℕ → List ℕ → ℕ → AcquireState × Mutex → Type 0
Requeued true waits m o q co z = z ≡ (acquire_done, m)
Requeued false true m o q co z = z ≡ (acquire_blocked, m)
Requeued false false m o q co z = Acquired o q co z

behind_another :
    (fuel : ℕ) (m : Mutex) (q : List ℕ) (co h : ℕ)
    → m.holder ≡ some h
    → IsMutex m q
    → length q < fuel
    → h ≢ co
    → Requeued false (member co q) m (some h) q co (
        if is_parked fuel m m.wait_head co
        then (acquire_blocked, m)
        else (acquire_blocked, join_waiters m co))
behind_another fuel m q co h e i f ne =
    subst
      (λ b.
        Requeued false (member co q) m (some h) q co
          (if b then (acquire_blocked, m) else (acquire_blocked, join_waiters m co)))
      (sym (is_parked-member fuel m co m.wait_head q f i.0))
      (if-along (λ b. Requeued false b m (some h) q co) (acquire_blocked, m)
        (acquire_blocked, join_waiters m co) (member co q) (λ t. refl)
        (λ new. joined m q h co e i ne new))

taken_again :
    (holds waits : Bool) (m : Mutex) (q : List ℕ) (co : ℕ) (z : AcquireState × Mutex)
    → holds ≡ false
    → waits ≡ false
    → Acquired none q co z
    → Requeued holds waits m none q co z
taken_again holds waits m q co z e w a =
    subst (λ b. Requeued b waits m none q co z) (sym e)
      (subst (λ b. Requeued false b m none q co z) (sym w) a)

not_holder : (o : Option ℕ) (h co : ℕ) → o ≡ some h → same_co o (some co) ≡ false → h ≢ co
not_holder o h co e n =
    let apart : (h == co) ≡ false = subst (λ x. same_co x (some co) ≡ false) e n in ground arith

pub mutex_acquire_queued-Requeued :
    (fuel : ℕ) (m : Mutex) (q : List ℕ) (co : ℕ) (o : Option ℕ)
    → m.holder ≡ o
    → IsMutex m q
    → length q < fuel
    → Requeued (same_co m.holder (some co)) (member co q) m o q co (mutex_acquire_queued fuel m co)
unfolding mutex_acquire_queued
mutex_acquire_queued-Requeued fuel m q co none e i f =
    let alone = nobody m.holder q e i.3 in
    let z : AcquireState × Mutex =
      if same_co m.holder (some co)
      then (acquire_done, m)
      else if is_parked fuel m m.wait_head co
      then (acquire_blocked, m)
      else (acquire_blocked, join_waiters m co) in
    if-when (Requeued (same_co m.holder (some co)) (member co q) m none q co)
      (acquire_done, take_mutex m (some co)) z (same_co m.holder none)
      (λ t.
        taken_again (same_co m.holder (some co)) (member co q) m q co
          (acquire_done, take_mutex m (some co))
          (subst (λ x. same_co x (some co) ≡ false) (sym e) refl)
          (subst (λ x. member co x ≡ false) (sym alone) refl) (refl, refl, taken m q co alone i))
      (λ t. absurd (cc (sym t, no_holder m.holder e)))
mutex_acquire_queued-Requeued fuel m q co (some h) e i f =
    let z : AcquireState × Mutex =
      if is_parked fuel m m.wait_head co
      then (acquire_blocked, m)
      else (acquire_blocked, join_waiters m co) in
    if-when (Requeued (same_co m.holder (some co)) (member co q) m (some h) q co)
      (acquire_done, take_mutex m (some co))
      (if same_co m.holder (some co) then (acquire_done, m) else z) (same_co m.holder none)
      (λ t. absurd (cc (sym t, free_holder m.holder h e)))
      (λ t.
        if-along (λ b. Requeued b (member co q) m (some h) q co) (acquire_done, m) z
          (same_co m.holder (some co)) (λ own. refl)
          (λ own. behind_another fuel m q co h e i f (not_holder m.holder h co e own)))
