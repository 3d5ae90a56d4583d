-- ===== src/Ffm/Waiting/Withdraw.antt =====
-- The invariant of all queues at `wt_ffm_fail_client_connections`.
use wolf_trust_fork.Base.{
  Bool, if-when, zero, suc, ◌≤◌, if◌then◌else◌, subst, sym, ℕ, ◌<◌, ◌≡◌, ◌≢◌, refl, ◌∙◌, ap, true,
  false, not, ◌||◌, List, arith, if-each, Bool-cases, inl, inr, ℤ, ◌==ℤ◌, for_below_inv,
}
use wolf_trust_fork.Ffm.State.{Runtime, max_messages, max_connections}
use wolf_trust_fork.Ffm.Pools.{release_message}
use wolf_trust_fork.Ffm.Queue.{dequeue_message}
use wolf_trust_fork.Ffm.Queue.Links.{member, remove}
use wolf_trust_fork.Ffm.Queue.Fifo.{IsQueue}
use wolf_trust_fork.Ffm.Recovery.Cleanup.{sent_by, dequeue_message-SameOwner}
use wolf_trust_fork.Ffm.Recovery.{
  Counted, leave_queue, drop_client_message, drop_client_connection, fail_client_connections,
}
use wolf_trust_fork.Ffm.Waiting.{is_waiting, Waiting}
use wolf_trust_fork.Ffm.Waiting.Slots.{release_message-Waiting, release_connection-Waiting}
use wolf_trust_fork.Ffm.Waiting.Unlink.{withdrawn, withdraw-Waiting, others_stay, remove-absent}

-- A queue without the messages of the caller among the first `n`; the others keep their order.
unfoldable pub without : Runtime → ℤ → ℕ → List ℕ → List ℕ
without r caller zero q = q
without r caller (suc n) q =
    if sent_by r caller n then remove n (without r caller n q) else without r caller n q

-- The messages from `n` on have the flags, the queue and the caller that they had, and the queues are
-- without the caller's messages among the first `n`.
record Dropped (r : Runtime) (queues : ℕ → List ℕ) (caller : ℤ) (n : ℕ) (t : Runtime) : Type 0 where
  waiting : Waiting t (λ s. without r caller n (queues s))
  later : (j : ℕ) → n ≤ j → sent_by t caller j ≡ sent_by r caller j

Waiting-cong :
    (r : Runtime) (p q : ℕ → List ℕ)
    → ((s : ℕ) → s < r.service_count → p s ≡ q s)
    → Waiting r p
    → Waiting r q
Waiting-cong r p q e w = record {
  each = λ s lt. subst (IsQueue r s) (e s lt) (w.each s lt);
  waits = λ s m lt k. w.waits s m lt (ap (member m) (e s lt) ∙ k);
  queued = λ m lt k.
      let (bound, here) = w.queued m lt k in
      (bound, ap (member m) (sym (e (r.messages m).service_index bound)) ∙ here);
  clear = w.clear;
}

leave_queue-waiting :
    (r : Runtime) (m : ℕ)
    → is_waiting (r.messages m) ≡ true
    → leave_queue r m ≡ dequeue_message r (r.messages m).service_index m
leave_queue-waiting r m e = ground arith

leave_queue-idle :
    (r : Runtime) (m : ℕ)
    → (r.messages m).allocated ≡ true
    → is_waiting (r.messages m) ≡ false
    → leave_queue r m ≡ r
leave_queue-idle r m taken e = ground arith

idle_absent :
    (r : Runtime) (queues : ℕ → List ℕ) (w : Waiting r queues) (m : ℕ)
    → is_waiting (r.messages m) ≡ false
    → (s : ℕ) → s < (release_message r m).service_count
    → member m (queues s) ≡ false
unfolding release_message
idle_absent r queues w m e s lt = elim (Bool-cases (member m (queues s))) [
  | inl k ↦ absurd (cc (e, (w.waits s m lt k).0))
  | inr k ↦ k
]

-- The queues after message `m` is gone, by whether it waited.
leave_queue-Waiting :
    (r : Runtime) (queues : ℕ → List ℕ) (m : ℕ)
    → m < max_messages
    → (r.messages m).allocated ≡ true
    → Waiting r queues
    → Waiting (release_message (leave_queue r m) m) (λ s. remove m (queues s))
leave_queue-Waiting r queues m lt taken w = elim (Bool-cases (is_waiting (r.messages m))) [
  | inl e ↦ rw (leave_queue-waiting r m e) (
      Waiting-cong (withdrawn r queues w m lt e) _ (λ s. remove m (queues s))
        (others_stay r queues w m lt e) (withdraw-Waiting r queues w m lt e))
  | inr e ↦ rw (leave_queue-idle r m taken e) (
      Waiting-cong (release_message r m) queues (λ s. remove m (queues s))
        (λ s below. sym (remove-absent m (queues s) (idle_absent r queues w m e s below)))
        (release_message-Waiting r queues w m e))
]

drop_client_message-sent_by :
    (caller : ℤ) (m : ℕ) (r : Runtime) (j : ℕ)
    → m ≢ j
    → sent_by (drop_client_message caller m r) caller j ≡ sent_by r caller j
unfolding drop_client_message release_message
drop_client_message-sent_by caller m r j ne =
    ground (arith, dequeue_message-SameOwner r (r.messages m).service_index m j)

-- One round of the loop over the messages
drop_client_message-Waiting :
    (caller : ℤ) (m : ℕ) (r : Runtime) (queues : ℕ → List ℕ)
    → m < max_messages
    → Waiting r queues
    → Waiting
        (drop_client_message caller m r)
        (λ s. if sent_by r caller m then remove m (queues s) else queues s)
unfolding drop_client_message
drop_client_message-Waiting caller m r queues lt w =
    let test = not (r.messages m).allocated || not ((r.messages m).caller ==ℤ caller) in
    let after : Bool → ℕ → List ℕ = λ b s. if b then remove m (queues s) else queues s in
    if-when (λ z. Waiting z (after (sent_by r caller m))) r (release_message (leave_queue r m) m)
      test
      (λ h.
        let mine : sent_by r caller m ≡ false = ground arith in
        subst (λ b. Waiting r (after b)) (sym mine) w)
      (λ h.
        let mine : sent_by r caller m ≡ true = ground arith in
        subst (λ b. Waiting (release_message (leave_queue r m) m) (after b)) (sym mine)
          (leave_queue-Waiting r queues m lt (ground arith) w))

drop_client_message-Dropped :
    (r : Runtime) (queues : ℕ → List ℕ) (caller : ℤ) (n : ℕ) (t : Runtime)
    → n < max_messages
    → Dropped r queues caller n t
    → Dropped r queues caller (suc n) (drop_client_message caller n t)
unfolding without
drop_client_message-Dropped r queues caller n t lt d = record {
  waiting =
      subst
        (λ b. Waiting (drop_client_message caller n t) (λ s.
          if b then remove n (without r caller n (queues s)) else without r caller n (queues s)))
        (d.later n (omega arith))
        (drop_client_message-Waiting caller n t (λ s. without r caller n (queues s)) lt d.waiting);
  later = λ j le.
      drop_client_message-sent_by caller n t j (λ e. omega (arith, e)) ∙ d.later j (omega arith);
}

drop_client_connection-Waiting :
    (caller : ℤ) (c : ℕ) (t : Counted) (queues : ℕ → List ℕ)
    → Waiting t.0 queues
    → Waiting (drop_client_connection caller c t).0 queues
unfolding drop_client_connection
drop_client_connection-Waiting caller c (r, freed) queues w =
    if-each (λ (t : Counted). Waiting t.0 queues) _ _
      (not (r.connections c).allocated || not ((r.connections c).caller ==ℤ caller)) w
      (release_connection-Waiting r queues c w)

-- `wt_ffm_fail_client_connections` keeps the invariant: every queue is then without the messages of the
-- dead client, wherever they stood in it, and holds the others in order.
pub fail_client_connections-without :
    (r : Runtime) (queues : ℕ → List ℕ) (caller : ℤ)
    → Waiting r queues
    → Waiting (fail_client_connections r caller).0 (λ s. without r caller max_messages (queues s))
unfolding fail_client_connections without
fail_client_connections-without r queues caller w =
    let dropped =
      for_below_inv (Dropped r queues caller) max_messages (drop_client_message caller) r
        (λ i t lt. drop_client_message-Dropped r queues caller i t lt)
        (record { waiting = w; later = λ j le. refl }) in
    for_below_inv (λ i (t : Counted). Waiting t.0 (λ s. without r caller max_messages (queues s)))
      max_connections (drop_client_connection caller) _
      (λ i t lt v. drop_client_connection-Waiting caller i t _ v) dropped.waiting
