-- ===== src/Ffm/Queue/Frame.antt =====
-- What the queue operations leave alone: the flags of every message, the links of the messages that are
-- not in the queue, and the other services.
use wolf_trust_fork.Base.{ℕ, zero, suc, ◌<◌, ◌≡◌, ◌≢◌, refl, true, false, List, [], ◌∷◌, arith}
use wolf_trust_fork.Ffm.State.{Runtime, Message, max_messages, queue_none}
use wolf_trust_fork.Ffm.Queue.{
  update_service_signal, link_last, enqueue, unlink, unlink_from, dequeue_message,
}
use wolf_trust_fork.Ffm.Queue.Links.{member, Links, Links-cong}
use wolf_trust_fork.Ffm.Queue.Fifo.{next_of, IsQueue}

-- Two messages that differ at most in what no queue depends on, and in their successor.
pub record SameFlags (a b : Message) : Type 0 where
  pub allocated : b.allocated ≡ a.allocated
  pub active : b.active ≡ a.active
  pub complete : b.complete ≡ a.complete
  pub service_index : b.service_index ≡ a.service_index

pub enqueue-SameFlags :
    (r : Runtime) (s m j : ℕ) → SameFlags (r.messages j) ((enqueue r s m).messages j)
unfolding enqueue update_service_signal link_last
enqueue-SameFlags r s m j = ground arith

pub enqueue-next :
    (r : Runtime) (s m j : ℕ)
    → (r.services s).queue_tail ≢ j
    → next_of (enqueue r s m) j ≡ next_of r j
unfolding enqueue update_service_signal link_last
enqueue-next r s m j ne = ground arith

-- The other services, and what a service is, stay as they were.
pub enqueue-services : (r : Runtime) (s m t : ℕ) → s ≢ t → (enqueue r s m).services t ≡ r.services t
unfolding enqueue update_service_signal link_last
enqueue-services r s m t ne = ground arith

unlink-SameFlags :
    (r : Runtime) (s c p j : ℕ) → SameFlags (r.messages j) ((unlink r s c p).messages j)
unfolding unlink
unlink-SameFlags r s c p j = ground arith

unlink_from-SameFlags :
    (fuel : ℕ) (r : Runtime) (s m c p j : ℕ)
    → SameFlags (r.messages j) ((unlink_from fuel r s m c p).messages j)
unfolding unlink_from
unlink_from-SameFlags zero r s m c p j = ground arith
unlink_from-SameFlags (suc fuel) r s m c p j =
    ground
      (arith, unlink-SameFlags r s c p j, unlink_from-SameFlags fuel r s m (r.messages c).next c j)

pub dequeue_message-SameFlags :
    (r : Runtime) (s m j : ℕ) → SameFlags (r.messages j) ((dequeue_message r s m).messages j)
unfolding dequeue_message update_service_signal
dequeue_message-SameFlags r s m j =
    let f = unlink_from-SameFlags (suc max_messages) r s m (r.services s).queue_head queue_none j in
    record {
      allocated = f.allocated;
      active = f.active;
      complete = f.complete;
      service_index = f.service_index;
    }

unlink-services : (r : Runtime) (s c p t : ℕ) → s ≢ t → (unlink r s c p).services t ≡ r.services t
unfolding unlink
unlink-services r s c p t ne = ground arith

unlink_from-services :
    (fuel : ℕ) (r : Runtime) (s m c p t : ℕ)
    → s ≢ t
    → (unlink_from fuel r s m c p).services t ≡ r.services t
unfolding unlink_from
unlink_from-services zero r s m c p t ne = refl
unlink_from-services (suc fuel) r s m c p t ne = ground (
  arith,
  unlink-services r s c p t ne,
  unlink_from-services fuel r s m (r.messages c).next c t ne,
)

pub dequeue_message-services :
    (r : Runtime) (s m t : ℕ) → s ≢ t → (dequeue_message r s m).services t ≡ r.services t
unfolding dequeue_message update_service_signal
dequeue_message-services r s m t ne =
    unlink_from-services (suc max_messages) r s m (r.services s).queue_head queue_none t ne

unlink-next : (r : Runtime) (s c p j : ℕ) → c ≢ j → p ≢ j → next_of (unlink r s c p) j ≡ next_of r j
unfolding unlink
unlink-next r s c p j nc np = ground arith

unlink_from-next :
    (fuel : ℕ) (r : Runtime) (s m c p j : ℕ) (q : List ℕ)
    → Links (next_of r) c q
    → p ≢ j
    → member j q ≡ false
    → next_of (unlink_from fuel r s m c p) j ≡ next_of r j
unfolding unlink_from
unlink_from-next zero r s m c p j q l np a = refl
unlink_from-next (suc fuel) r s m c p j [] l np a = ground arith
unlink_from-next (suc fuel) r s m c p j (x ∷ q) (e, b, l) np a =
    let ne : c ≢ j = ground arith in
    ground (
      arith,
      unlink-next r s c p j ne np,
      unlink_from-next fuel r s m (next_of r c) c j q (rw e l) ne (ground arith),
    )

pub dequeue_message-next :
    (r : Runtime) (s m j : ℕ) (q : List ℕ)
    → IsQueue r s q
    → j < max_messages
    → member j q ≡ false
    → next_of (dequeue_message r s m) j ≡ next_of r j
unfolding dequeue_message update_service_signal
dequeue_message-next r s m j q v lt a =
    unlink_from-next (suc max_messages) r s m (r.services s).queue_head queue_none j q v.links
      (omega arith) a

-- A queue stands if its ends and the links of its messages do.
pub IsQueue-frame :
    (r r' : Runtime) (s : ℕ) (q : List ℕ)
    → r'.services s ≡ r.services s
    → ((j : ℕ) → member j q ≡ true → next_of r' j ≡ next_of r j)
    → IsQueue r s q
    → IsQueue r' s q
IsQueue-frame r r' s q e same v = record {
  links = rw e (Links-cong (next_of r) (next_of r') (r.services s).queue_head q same v.links);
  tail = rw e v.tail;
  distinct = v.distinct;
}

pub enqueue-service_count :
    (r : Runtime) (s m : ℕ) → (enqueue r s m).service_count ≡ r.service_count
unfolding enqueue update_service_signal link_last
enqueue-service_count r s m = ground arith

unlink_from-service_count :
    (fuel : ℕ) (r : Runtime) (s m c p : ℕ)
    → (unlink_from fuel r s m c p).service_count ≡ r.service_count
unfolding unlink_from unlink
unlink_from-service_count zero r s m c p = refl
unlink_from-service_count (suc fuel) r s m c p =
    ground (arith, unlink_from-service_count fuel r s m (r.messages c).next c)

pub dequeue_message-service_count :
    (r : Runtime) (s m : ℕ) → (dequeue_message r s m).service_count ≡ r.service_count
unfolding dequeue_message update_service_signal
dequeue_message-service_count r s m =
    unlink_from-service_count (suc max_messages) r s m (r.services s).queue_head queue_none
