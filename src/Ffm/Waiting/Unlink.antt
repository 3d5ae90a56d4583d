-- ===== src/Ffm/Waiting/Unlink.antt =====
-- The invariant of all queues where a message that waits leaves its queue and its slot is released.
use native.Mathlib.Decide.{ℕ_discrete as dec_eq}
use wolf_trust_fork.Base.{
  [], ◌∷◌, ◌==◌, sym, ℕ, ◌<◌, ◌≡◌, ◌≢◌, refl, ◌∙◌, ap, true, false, List, arith, Bool-cases, inl,
  inr, update,
}
use wolf_trust_fork.Ffm.State.{Runtime, max_messages}
use wolf_trust_fork.Ffm.Pools.{release_message}
use wolf_trust_fork.Ffm.Queue.{dequeue_message}
use wolf_trust_fork.Ffm.Queue.Links.{member, remove, member-remove_self}
use wolf_trust_fork.Ffm.Queue.Fifo.{next_of, IsQueue, dequeue_message-IsQueue}
use wolf_trust_fork.Ffm.Queue.Frame.{
  SameFlags, IsQueue-frame, dequeue_message-SameFlags, dequeue_message-next,
  dequeue_message-services, dequeue_message-service_count,
}
use wolf_trust_fork.Ffm.Waiting.{is_waiting, Waiting}
use wolf_trust_fork.Ffm.Waiting.Drop.{drop-Waiting}

pub remove-absent : (m : ℕ) (q : List ℕ) → member m q ≡ false → remove m q ≡ q
unfolding remove
remove-absent m [] e = refl
remove-absent m (x ∷ q) e =
    let other : (x == m) ≡ false = ground arith in
    rw other (ap (λ l. x ∷ l) (remove-absent m q (ground arith)))

module _ (r : Runtime) (queues : ℕ → List ℕ) (w : Waiting r queues) (m : ℕ) (lt : m < max_messages)
    (waits : is_waiting (r.messages m) ≡ true) where
  abbrev home : ℕ
  home = (r.messages m).service_index

  abbrev pub withdrawn : Runtime
  withdrawn = release_message (dequeue_message r home m) m

  counts : home < r.service_count
  counts = (w.queued m lt waits).0

  queued : member m (queues home) ≡ true
  queued = (w.queued m lt waits).1

  withdrawn-flags : (j : ℕ) → m ≢ j → SameFlags (r.messages j) (withdrawn.messages j)
  unfolding release_message
  withdrawn-flags j ne =
      let f = dequeue_message-SameFlags r home m j in
      record {
        allocated = ground (arith, f);
        active = ground (arith, f);
        complete = ground (arith, f);
        service_index = ground (arith, f);
      }

  withdrawn-next : (j : ℕ) → m ≢ j → next_of withdrawn j ≡ next_of (dequeue_message r home m) j
  unfolding release_message
  withdrawn-next j ne = ground arith

  withdrawn-IsQueue : IsQueue withdrawn home (remove m (queues home))
  unfolding release_message
  withdrawn-IsQueue =
      let q = w.each home counts in
      IsQueue-frame (dequeue_message r home m) withdrawn home (remove m (queues home)) refl
        (λ j k. withdrawn-next j (λ e. ground (
          arith,
          member-remove_self m (queues home) q.distinct,
          ap (λ n. member n (remove m (queues home))) e,
        )))
        (dequeue_message-IsQueue r home m (queues home) q)

  next :
      (j : ℕ)
      → j < max_messages
      → member j (queues home) ≡ false
      → next_of withdrawn j ≡ next_of r j
  next j l a =
      withdrawn-next j (λ e. ground (arith, queued, ap (λ n. member n (queues home)) e))
      ∙ dequeue_message-next r home m j (queues home) (w.each home counts) l a

  owned : (t : ℕ) → t < r.service_count → home ≢ t → member m (queues t) ≡ false
  owned t l ne = elim (Bool-cases (member m (queues t))) [
    | inl k ↦ absurd (ne (w.waits t m l k).1)
    | inr k ↦ k
  ]

  -- A message that waits leaves the queue of its service, wherever it stands there, and its slot is released.
  pub withdraw-Waiting : Waiting withdrawn (update queues home (remove m (queues home)))
  unfolding release_message
  withdraw-Waiting =
      drop-Waiting r withdrawn queues home m w (dequeue_message-service_count r home m)
        (λ t ne. dequeue_message-services r home m t ne) next withdrawn-flags counts (ground arith)
        (ground arith) withdrawn-IsQueue owned

  pub others_stay :
      (s : ℕ)
      → s < withdrawn.service_count
      → update queues home (remove m (queues home)) s ≡ remove m (queues s)
  unfolding release_message
  others_stay s lt = elim (dec_eq home s) [
    | yes e ↦ let t : (home == s) ≡ true = ground arith in rw t (ap (λ k. remove m (queues k)) e)
    | no ne ↦
        let f : (home == s) ≡ false = ground arith in
        rw f (
          sym (
            remove-absent m (queues s)
              (owned s (ground (arith, lt, dequeue_message-service_count r home m)) ne)))
  ]
