-- ===== src/Ffm/Waiting.antt =====
-- The invariant of all service queues together: the queues hold exactly the requests that wait.
pub mod Post
pub mod Drop
pub mod Client
pub mod Close
pub mod Get
pub mod Slots
pub mod Serve
pub mod Unlink
pub mod Finish
pub mod Withdraw
use wolf_trust_fork.Base.{
  ℕ, zero, suc, ◌<◌, ◌≡◌, ◌≢◌, ◌⊎◌, refl, sym, ap, subst, ◌∙◌, Bool, true, false, not, ◌&&◌, ◌||◌,
  subst, List, [], ◌∷◌, ◌++◌, arith, ◌==◌, if◌then◌else◌, Bool-cases, inl, inr, update, ℤ,
}
use native.Mathlib.Decide.{ℕ_discrete as dec_eq}
use wolf_trust_fork.Ffm.State.{Runtime, Message, Service, max_messages, queue_none, set_message}
use wolf_trust_fork.Ffm.Queue.{enqueue, dequeue_message, pop_head}
use wolf_trust_fork.Ffm.Queue.Links.{
  member, member-append, remove, last_or, last_or-cases, Links-bound,
}
use wolf_trust_fork.Ffm.Queue.Fifo.{
  next_of, IsQueue, enqueue-IsQueue, dequeue_message-IsQueue, pop_head-IsQueue,
}
use wolf_trust_fork.Ffm.Queue.Frame.{
  SameFlags, IsQueue-frame, enqueue-SameFlags, enqueue-next, enqueue-services,
  enqueue-service_count, dequeue_message-SameFlags, dequeue_message-next, dequeue_message-services,
}

-- A request was made and no partition has it yet.
abbrev pub is_waiting : Message → Bool
is_waiting m = m.allocated && (not m.active && not m.complete)

-- A free slot has no flag set.
abbrev pub is_clear : Message → Bool
is_clear m = m.allocated || (not m.active && not m.complete)

-- `queues s` is the queue of service `s`, for each service that counts. It holds a message exactly if
-- that message waits for the service; and a message that waits has a service that counts. Free slots are clear.
pub record Waiting (r : Runtime) (queues : ℕ → List ℕ) : Type 0 where
  pub each : (s : ℕ) → s < r.service_count → IsQueue r s (queues s)
  pub waits :
      (s m : ℕ)
      → s < r.service_count
      → member m (queues s) ≡ true
      → (is_waiting (r.messages m) ≡ true) × ((r.messages m).service_index ≡ s)
  pub queued :
      (m : ℕ)
      → m < max_messages
      → is_waiting (r.messages m) ≡ true
      → ((r.messages m).service_index < r.service_count)
        × (member m (queues (r.messages m).service_index) ≡ true)
  pub clear : (m : ℕ) → is_clear (r.messages m) ≡ true

-- Every connection names a service that counts; a free one names service 0.
abbrev pub Serves : Runtime → Type 0
Serves r = (c : ℕ) → (r.connections c).service_index < r.service_count

-- A message that waits neither before nor after a step may change at will; another one keeps its link
-- and its flags.
abbrev pub Steady : Message → Message → Type 0
Steady a b =
    ((is_waiting a ≡ false) × (is_waiting b ≡ false) × (is_clear b ≡ true))
    ⊎ ((b.next ≡ a.next) × SameFlags a b)

-- A step that leaves the services alone, and each message steady.
pub Waiting-frame :
    (r r' : Runtime) (queues : ℕ → List ℕ)
    → r'.service_count ≡ r.service_count
    → ((s : ℕ) → r'.services s ≡ r.services s)
    → ((j : ℕ) → Steady (r.messages j) (r'.messages j))
    → Waiting r queues
    → Waiting r' queues
Waiting-frame r r' queues ec es em w = record {
  each = λ s lt.
      IsQueue-frame r r' s (queues s) (es s)
        (λ j k. ground (arith, em j, w.waits s j (rw ec at lt) k)) (w.each s (rw ec at lt));
  waits = λ s m lt k. ground (arith, em m, w.waits s m (rw ec at lt) k);
  queued = λ m lt k. elim (em m) [
    | inl idle ↦ cc (k, idle.1)
    | inr (n, f) ↦ rw (f.service_index, ec) (w.queued m lt (ground (arith, f)))
  ];
  clear = λ m. ground (arith, em m, w.clear m);
}

-- A step that changes one message, which waits neither before nor after or keeps its link and flags.
pub Waiting-at :
    (r r' : Runtime) (queues : ℕ → List ℕ) (m : ℕ)
    → r'.service_count ≡ r.service_count
    → ((s : ℕ) → r'.services s ≡ r.services s)
    → ((j : ℕ) → m ≢ j → r'.messages j ≡ r.messages j)
    → Steady (r.messages m) (r'.messages m)
    → Waiting r queues
    → Waiting r' queues
Waiting-at r r' queues m ec es em h w = Waiting-frame r r' queues ec es steady w
  where
    steady : (j : ℕ) → Steady (r.messages j) (r'.messages j)
    steady j = elim (dec_eq m j) [
      | yes e ↦ subst (λ k. Steady (r.messages k) (r'.messages k)) e h
      | no ne ↦ inr (
        ap (λ (x : Message). x.next) (em j ne),
        record {
          allocated = ap (λ (x : Message). x.allocated) (em j ne);
          active = ap (λ (x : Message). x.active) (em j ne);
          complete = ap (λ (x : Message). x.complete) (em j ne);
          service_index = ap (λ (x : Message). x.service_index) (em j ne);
        },
      )
    ]
