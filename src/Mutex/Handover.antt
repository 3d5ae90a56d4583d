-- ===== src/Mutex/Handover.antt =====
-- The mutex as a holder with a first-in first-out list of waiters.
use wolf_trust_fork.Base.{
  if-along, ℕ, ◌<◌, ◌≡◌, ◌≢◌, refl, Bool, true, false, List, length, Option, none, some,
}
use wolf_trust_fork.Ffm.Queue.Links.{member, remove}
use wolf_trust_fork.Mutex.{
  Mutex, same_co, mutex_acquire, hand_over, mutex_release, mutex_release_if_holder,
  mutex_acquire_queued, mutex_remove_waiter,
}
use wolf_trust_fork.Mutex.Waiters.{IsMutex, Handed, hand_over-Handed}
use wolf_trust_fork.Mutex.Acquire.{
  Acquired, Requeued, mutex_acquire-Acquired, mutex_acquire_queued-Requeued,
}
use wolf_trust_fork.Mutex.Removal.{mutex_remove_waiter-IsMutex}

-- What a release by `current` comes to, by whether it holds the mutex
abbrev pub Released : Bool → Mutex → List ℕ → Bool × Option ℕ × Mutex → Type 0
Released true m q z = (z.0 ≡ true) × Handed q (z.1, z.2)
Released false m q z = z ≡ (false, none, m)

-- What a forced release for a coroutine comes to, by whether it holds the mutex
abbrev pub Forced : Bool → Mutex → List ℕ → Option ℕ × Mutex → Type 0
Forced true m q z = Handed q z
Forced false m q z = z ≡ (none, m)

mutex_release-Released :
    (m : Mutex) (q : List ℕ) (current : Option ℕ)
    → IsMutex m q
    → Released (same_co m.holder current) m q (mutex_release m current)
unfolding mutex_release
mutex_release-Released m q current i =
    let x = hand_over m m.wait_head in
    if-along (λ b. Released b m q) (true, x.0, x.1) (false, none, m) (same_co m.holder current)
      (λ e. (refl, hand_over-Handed m q i)) (λ e. refl)

mutex_release_if_holder-Forced :
    (m : Mutex) (q : List ℕ) (co : ℕ)
    → IsMutex m q
    → Forced (same_co m.holder (some co)) m q (mutex_release_if_holder m co)
unfolding mutex_release_if_holder
mutex_release_if_holder-Forced m q co i =
    if-along (λ b. Forced b m q) (hand_over m m.wait_head) (none, m) (same_co m.holder (some co))
      (λ e. hand_over-Handed m q i) (λ e. refl)

-- Of a mutex whose waiters are the list `q`: a coroutine `self` that neither holds it nor waits for it
-- takes it if it is free, and else waits last; a release by the holder, and the forced one, make the
-- first waiter the holder and wake it, or free the mutex, and a release by another changes nothing;
-- an acquisition that may be repeated changes nothing for the holder and for a waiter, and else is an
-- acquisition; and the removal of a coroutine, in more rounds than there are waiters, takes it off the
-- list and leaves the others.
pub mutex_operations-IsMutex :
    (m : Mutex) (q : List ℕ) (self co fuel : ℕ) (current : Option ℕ)
    → IsMutex m q
    → m.holder ≢ some self
    → member self q ≡ false
    → length q < fuel
    → Acquired m.holder q self (mutex_acquire m (some self))
      × Released (same_co m.holder current) m q (mutex_release m current)
      × Forced (same_co m.holder (some co)) m q (mutex_release_if_holder m co)
      × Requeued
          (same_co m.holder (some co))
          (member co q)
          m
          m.holder
          q
          co
          (mutex_acquire_queued fuel m co)
      × IsMutex (mutex_remove_waiter fuel m co) (remove co q)
mutex_operations-IsMutex m q self co fuel current i ne new enough = (
  mutex_acquire-Acquired m q self m.holder refl i ne new,
  mutex_release-Released m q current i,
  mutex_release_if_holder-Forced m q co i,
  mutex_acquire_queued-Requeued fuel m q co m.holder refl i enough,
  mutex_remove_waiter-IsMutex fuel m co q enough i,
)
