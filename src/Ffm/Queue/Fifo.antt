-- ===== src/Ffm/Queue/Fifo.antt =====
-- The service queues as lists of message indices, oldest first.
use wolf_trust_fork.Base.{
  length, ℕ, zero, suc, ◌<◌, ◌≡◌, ◌≢◌, sym, false, List, [], ◌∷◌, ◌++◌, arith, ◌∙◌, update,
}
use mathlib.Core.List.{append_assoc}
use native.Mathlib.Decide.{ℕ_discrete as dec_eq}
use wolf_trust_fork.Ffm.State.{Runtime, max_messages, queue_none, set_message, set_service}
use wolf_trust_fork.Ffm.Queue.{
  update_service_signal, link_last, enqueue, unlink, unlink_from, dequeue_message, pop_head,
}
use wolf_trust_fork.Ffm.Queue.Links.{
  member, Distinct, Links, last_or, remove, Links-cong, Links-append, Links-tail, Links-unlink,
  Links-bound, Distinct-append, Distinct-remove, last_or-append, last_or-split, last_or-join,
  last_or-unlink, last_or-bound, Distinct-later, remove-found, remove-other, remove-nil, length-lt,
  last_or-member,
}

abbrev pub next_of : Runtime → ℕ → ℕ
next_of r j = (r.messages j).next

-- The queue of service `s` holds the messages of the list, oldest first.
pub record IsQueue (r : Runtime) (s : ℕ) (q : List ℕ) : Type 0 where
  pub links : Links (next_of r) (r.services s).queue_head q
  pub tail : (r.services s).queue_tail ≡ last_or queue_none q
  pub distinct : Distinct q

-- A queue from its links, written as a function of the index, and its two ends.
pub IsQueue-of :
    (r : Runtime) (s : ℕ) (next : ℕ → ℕ) (h : ℕ) (q : List ℕ)
    → ((j : ℕ) → next_of r j ≡ next j)
    → (r.services s).queue_head ≡ h
    → (r.services s).queue_tail ≡ last_or queue_none q
    → Links next h q
    → Distinct q
    → IsQueue r s q
IsQueue-of r s next h q same head tail links distinct = record {
  links = rw head (Links-cong next (next_of r) h q (λ j k. same j) links);
  tail = tail;
  distinct = distinct;
}

-- What `link_last` writes where the queue is not empty.
abbrev linked : Runtime → ℕ → ℕ → Runtime
linked r s m =
    let t = (r.services s).queue_tail in
    set_service (set_message r t (record (r.messages t) { next = m })) s
      (record (r.services s) { queue_tail = m })

link_last-linked :
    (r : Runtime) (s m : ℕ)
    → (r.services s).queue_tail ≢ queue_none
    → link_last r s m ≡ linked r s m
unfolding link_last
link_last-linked r s m ne = ground arith

link_last-IsQueue :
    (r : Runtime) (s m : ℕ) (q : List ℕ)
    → IsQueue r s q
    → m < max_messages
    → member m q ≡ false
    → (r.messages m).next ≡ queue_none
    → IsQueue (link_last r s m) s (q ++ m ∷ [])
unfolding link_last
link_last-IsQueue r s m [] v lt a e = ground arith
link_last-IsQueue r s m (x ∷ q) v lt a e =
    let last =
      Links-bound (next_of r) (r.services s).queue_head (last_or x q) (x ∷ q) v.links
        (last_or-member x q) in
    rw (link_last-linked r s m (omega arith)) (
      IsQueue-of (linked r s m) s (update (next_of r) (last_or x q) m) (r.services s).queue_head
        (x ∷ q ++ m ∷ []) (λ j. ground (arith, v.tail)) (ground arith)
        (ground (arith, last_or-append x m q))
        (Links-append (next_of r) (r.services s).queue_head x m q v.links v.distinct a lt e)
        (Distinct-append (x ∷ q) m v.distinct a))

-- `wt_ffm_enqueue` puts the message behind the others in the queue of its service.
pub enqueue-IsQueue :
    (r : Runtime) (s m : ℕ) (q : List ℕ)
    → IsQueue r s q
    → m < max_messages
    → member m q ≡ false
    → (r.messages m).next ≡ queue_none
    → IsQueue (enqueue r s m) s (q ++ m ∷ [])
unfolding enqueue update_service_signal
enqueue-IsQueue r s m q v lt a e =
    let w = link_last-IsQueue r s m q v lt a e in
    record { links = w.links; tail = w.tail; distinct = w.distinct }

-- `wt_ffm_get` takes the message that heads the queue.
pub pop_head-IsQueue :
    (r : Runtime) (s m : ℕ) (q : List ℕ) → IsQueue r s (m ∷ q) → IsQueue (pop_head r s m) s q
unfolding pop_head
pop_head-IsQueue r s m [] v = ground arith
pop_head-IsQueue r s m (y ∷ q) v =
    IsQueue-of (pop_head r s m) s (update (next_of r) m queue_none) (next_of r m) (y ∷ q)
      (λ j. ground arith) (ground arith) (ground arith)
      (Links-tail (next_of r) (r.services s).queue_head m queue_none (y ∷ q) v.links v.distinct.0)
      v.distinct.1

-- The message that precedes the rest of a queue, as the loop's `previous`.
unlink_first :
    (r : Runtime) (s m : ℕ) (q : List ℕ)
    → IsQueue r s (m ∷ q)
    → IsQueue (unlink r s m queue_none) s q
unfolding unlink
unlink_first r s m q v =
    IsQueue-of (unlink r s m queue_none) s (update (next_of r) m queue_none) (next_of r m) q
      (λ j. ground arith) (ground arith)
      (ground (arith, v.tail, last_or-unlink queue_none m q v.distinct.0))
      (Links-tail (next_of r) (r.services s).queue_head m queue_none q v.links v.distinct.0)
      v.distinct.1

unlink_later :
    (r : Runtime) (s x m : ℕ) (p q : List ℕ)
    → IsQueue r s (x ∷ p ++ m ∷ q)
    → IsQueue (unlink r s m (last_or x p)) s (x ∷ p ++ q)
unfolding unlink
unlink_later r s x m p q v =
    let b = last_or-bound (next_of r) (r.services s).queue_head x m p q v.links in
    let w = last_or-unlink (last_or x p) m q (Distinct-later (x ∷ p) m q v.distinct) in
    IsQueue-of (unlink r s m (last_or x p)) s
      (update (update (next_of r) (last_or x p) (next_of r m)) m queue_none)
      (r.services s).queue_head (x ∷ p ++ q) (λ j. ground (arith, b)) (ground (arith, b))
      (ground (arith, b, w, v.tail, last_or-split x m p q, last_or-join x p q))
      (Links-unlink (next_of r) (r.services s).queue_head x m queue_none p q v.links v.distinct)
      (Distinct-remove (x ∷ p) m q v.distinct).0

unlink-IsQueue :
    (r : Runtime) (s m : ℕ) (p q : List ℕ)
    → IsQueue r s (p ++ m ∷ q)
    → IsQueue (unlink r s m (last_or queue_none p)) s (p ++ q)
unlink-IsQueue r s m [] q v = unlink_first r s m q v
unlink-IsQueue r s m (x ∷ p) q v = unlink_later r s x m p q v

-- One round of the loop of `wt_ffm_dequeue_message`.
round_end :
    (fuel : ℕ) (r : Runtime) (s m current previous : ℕ)
    → current ≡ queue_none
    → unlink_from (suc fuel) r s m current previous ≡ r
unfolding unlink_from
round_end fuel r s m current previous e = ground arith

round_found :
    (fuel : ℕ) (r : Runtime) (s m current previous : ℕ)
    → current < max_messages
    → current ≡ m
    → unlink_from (suc fuel) r s m current previous ≡ unlink r s m previous
unfolding unlink_from
round_found fuel r s m current previous b e = rw e (ground arith)

round_next :
    (fuel : ℕ) (r : Runtime) (s m current previous : ℕ)
    → current < max_messages
    → current ≢ m
    → unlink_from (suc fuel) r s m current previous
      ≡ unlink_from fuel r s m (next_of r current) current
unfolding unlink_from
round_next fuel r s m current previous b e = ground arith

-- The loop of `wt_ffm_dequeue_message`, past the messages `p`, unlinks `m` from the rest `q`.
unlink_from-IsQueue :
    (fuel : ℕ) (r : Runtime) (s m : ℕ) (p q : List ℕ) (current : ℕ)
    → length q < fuel
    → IsQueue r s (p ++ q)
    → Links (next_of r) current q
    → IsQueue (unlink_from fuel r s m current (last_or queue_none p)) s (p ++ remove m q)
unlink_from-IsQueue zero r s m p q current f v l = absurd (omega arith)
unlink_from-IsQueue (suc fuel) r s m p [] current f v l =
    rw (round_end fuel r s m current (last_or queue_none p) l, remove-nil m) v
unlink_from-IsQueue (suc fuel) r s m p (x ∷ q) current f v (e, b, l) = elim (dec_eq x m) [
  | yes same ↦
      rw
        (
          round_found fuel r s m current (last_or queue_none p) (omega arith) (e ∙ same),
          remove-found x m q same,
        )
        (unlink-IsQueue r s m p q (rw same at v))
  | no other ↦
      let step =
        round_next fuel r s m current (last_or queue_none p) (omega arith)
          (λ c. other (sym e ∙ c)) in
      let rest =
        unlink_from-IsQueue fuel r s m (p ++ x ∷ []) q (next_of r x) (omega arith)
          (rw append_assoc v) l in
      rw (step, e, remove-other x m q other)
        (rw (last_or-append queue_none x p, append_assoc) at rest)
]

-- `wt_ffm_dequeue_message` takes the message out of the queue of its service, wherever it stands, and
-- the order of the others is kept. Its loop ends: no queue is longer than the fuel allows.
pub dequeue_message-IsQueue :
    (r : Runtime) (s m : ℕ) (q : List ℕ)
    → IsQueue r s q
    → IsQueue (dequeue_message r s m) s (remove m q)
unfolding dequeue_message update_service_signal
dequeue_message-IsQueue r s m q v =
    let head = (r.services s).queue_head in
    let w =
      unlink_from-IsQueue (suc max_messages) r s m [] q head
        (length-lt (next_of r) head q v.links v.distinct) v v.links in
    record { links = w.links; tail = w.tail; distinct = w.distinct }
