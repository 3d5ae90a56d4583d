-- ===== src/Mutex/Removal.antt =====
-- The removal of a waiter, wherever it stands in the queue.
use native.Mathlib.Decide.{ℕ_discrete as dec_eq}
use mathlib.Core.List.{append_assoc}
use wolf_trust_fork.Base.{
  ℕ, zero, suc, ◌<◌, ◌≡◌, ◌≢◌, refl, sym, ap, ◌∙◌, subst, true, false, List, [], ◌∷◌, ◌++◌, length,
  Option, none, some, arith, ◌==◌, if◌then◌else◌,
}
use wolf_trust_fork.Ffm.Queue.Links.{
  member, last_or, remove, last_or-ne, last_or-append, last_or-split, last_or-join, member-append,
  Distinct-remove, Distinct-later, remove-nil, remove-found, remove-other,
}
use wolf_trust_fork.Mutex.{Mutex, same_co, unlink_waiter, remove_from, mutex_remove_waiter}
use wolf_trust_fork.Mutex.Waiters.{Chain, last_of, Held, IsMutex, Chain-tail, Chain-unlink}

cons-nil : (p : List ℕ) (c : ℕ) (q : List ℕ) → p ++ c ∷ q ≢ []
cons-nil [] c q e = cc e
cons-nil (x ∷ p) c q e = cc e

Held-remove :
    (o : Option ℕ) (p : List ℕ) (co : ℕ) (q : List ℕ) → Held o (p ++ co ∷ q) → Held o (p ++ q)
Held-remove none p co q k = absurd (cons-nil p co q k)
Held-remove (some c) p co q k = ground (arith, member-append c p (co ∷ q), member-append c p q)

-- The tail of the queue behind `d`, after `co` went
tail_after :
    (tail : Option ℕ) (d : Option ℕ) (co : ℕ) (q : List ℕ)
    → tail ≡ some (last_or co q)
    → member co q ≡ false
    → (if same_co tail (some co) then d else tail)
      ≡ (if last_or co q == co then d else some (last_or co q))
tail_after tail d co q t a = rw t refl

tail_first :
    (co : ℕ) (q : List ℕ)
    → member co q ≡ false
    → (if last_or co q == co then none else some (last_or co q)) ≡ last_of q
tail_first co [] a = ground arith
tail_first co (y ∷ q) a = ground (arith, last_or-ne co y q)

tail_later :
    (co d : ℕ) (q : List ℕ)
    → member co q ≡ false
    → (if last_or co q == co then some d else some (last_or co q)) ≡ some (last_or d q)
tail_later co d [] a = ground arith
tail_later co d (y ∷ q) a = ground (arith, last_or-ne co y q)

unlink_waiter-IsMutex :
    (m : Mutex) (p : List ℕ) (co : ℕ) (q : List ℕ)
    → IsMutex m (p ++ co ∷ q)
    → IsMutex (unlink_waiter m (last_of p) co) (p ++ q)
unlink_waiter-IsMutex m [] co q (c, t, (a, d), k) = (
  Chain-tail m.next_wait m.wait_head co q c a,
  tail_after m.wait_tail none co q t a ∙ tail_first co q a,
  d,
  Held-remove m.holder [] co q k,
)
unlink_waiter-IsMutex m (x ∷ p) co q (c, t, d, k) =
    let a = Distinct-later (x ∷ p) co q d in
    let tail : m.wait_tail ≡ some (last_or co q) = t ∙ ap some (last_or-split x co p q) in
    (
      Chain-unlink m.next_wait m.wait_head x co p q c d,
      tail_after m.wait_tail (some (last_or x p)) co q tail a
          ∙ tail_later co (last_or x p) q a
          ∙ ap some (sym (last_or-join x p q)),
      (Distinct-remove (x ∷ p) co q d).0,
      Held-remove m.holder (x ∷ p) co q k,
    )

last_of-snoc : (p : List ℕ) (c : ℕ) → last_of (p ++ c ∷ []) ≡ some c
last_of-snoc [] c = refl
last_of-snoc (x ∷ p) c = ap some (last_or-append x c p)

round_found :
    (fuel : ℕ) (m : Mutex) (prev : Option ℕ) (x co : ℕ)
    → x ≡ co
    → remove_from (suc fuel) m prev (some x) co ≡ unlink_waiter m prev x
unfolding remove_from
round_found fuel m prev x co e = let same : (x == co) ≡ true = ground arith in rw same refl

round_next :
    (fuel : ℕ) (m : Mutex) (prev : Option ℕ) (x co : ℕ)
    → x ≢ co
    → remove_from (suc fuel) m prev (some x) co ≡ remove_from fuel m (some x) (m.next_wait x) co
unfolding remove_from
round_next fuel m prev x co ne = let other : (x == co) ≡ false = ground arith in rw other refl

-- The list of waiters, rewritten
along : (m : Mutex) (p q : List ℕ) → p ≡ q → IsMutex m p → IsMutex m q
along m p q e i = subst (IsMutex m) e i

remove_from-IsMutex :
    (fuel : ℕ) (m : Mutex) (co : ℕ) (p q : List ℕ) (cur : Option ℕ)
    → length q < fuel
    → IsMutex m (p ++ q)
    → Chain m.next_wait cur q
    → IsMutex (remove_from fuel m (last_of p) cur co) (p ++ remove co q)
unfolding remove_from
remove_from-IsMutex zero m co p q cur f i l = absurd (omega arith)
remove_from-IsMutex (suc fuel) m co p [] cur f i l = rw (l, remove-nil co) i
remove_from-IsMutex (suc fuel) m co p (x ∷ q) cur f i (e, l) =
    subst (λ c. IsMutex (remove_from (suc fuel) m (last_of p) c co) (p ++ remove co (x ∷ q)))
      (sym e)
      (elim (dec_eq x co) [
        | yes same ↦ here same
        | no other ↦ further other (
            remove_from-IsMutex fuel m co (p ++ x ∷ []) q (m.next_wait x) (omega arith)
              (along m (p ++ x ∷ q) ((p ++ x ∷ []) ++ q) (sym (append_assoc p (x ∷ []) q)) i) l)
      ])
  where
    here :
        x ≡ co → IsMutex (remove_from (suc fuel) m (last_of p) (some x) co) (p ++ remove co (x ∷ q))
    here same =
        subst (λ z. IsMutex z (p ++ remove co (x ∷ q)))
          (sym (round_found fuel m (last_of p) x co same))
          (along (unlink_waiter m (last_of p) x) (p ++ q) (p ++ remove co (x ∷ q))
            (ap (λ r. p ++ r) (sym (remove-found x co q same))) (unlink_waiter-IsMutex m p x q i))

    further :
        x ≢ co
        → IsMutex
            (remove_from fuel m (last_of (p ++ x ∷ [])) (m.next_wait x) co)
            ((p ++ x ∷ []) ++ remove co q)
        → IsMutex (remove_from (suc fuel) m (last_of p) (some x) co) (p ++ remove co (x ∷ q))
    further other rest =
        let z = remove_from fuel m (some x) (m.next_wait x) co in
        subst (λ y. IsMutex y (p ++ remove co (x ∷ q)))
          (sym (round_next fuel m (last_of p) x co other))
          (along z ((p ++ x ∷ []) ++ remove co q) (p ++ remove co (x ∷ q))
            (append_assoc p (x ∷ []) (remove co q)
              ∙ ap (λ r. p ++ r) (sym (remove-other x co q other)))
            (subst
              (λ o.
                IsMutex (remove_from fuel m o (m.next_wait x) co) ((p ++ x ∷ []) ++ remove co q))
              (last_of-snoc p x) rest))

pub mutex_remove_waiter-IsMutex :
    (fuel : ℕ) (m : Mutex) (co : ℕ) (q : List ℕ)
    → length q < fuel
    → IsMutex m q
    → IsMutex (mutex_remove_waiter fuel m co) (remove co q)
unfolding mutex_remove_waiter
mutex_remove_waiter-IsMutex fuel m co q f i = remove_from-IsMutex fuel m co [] q m.wait_head f i i.0
