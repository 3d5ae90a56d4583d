-- ===== src/Ffm/Recovery/Cleanup.antt =====
-- What `wt_ffm_fail_client_connections` leaves, and what it counts.
use wolf_trust_fork.Base.{
  ℕ, zero, suc, ◌≤◌, ◌<◌, ◌≡◌, refl, sym, ◌∙◌, ap, Bool, false, ◌&&◌, arith, ℤ, ◌==ℤ◌, for_below,
  for_below_inv, count,
}
use native.Mathlib.Decide.{ℕ_discrete as dec_eq}
use wolf_trust_fork.Ffm.State.{
  Runtime, Message, Connection, max_messages, max_connections, queue_none,
}
use wolf_trust_fork.Ffm.Lookup.{held_by, client_connection_count}
use wolf_trust_fork.Ffm.Pools.{release_message, release_connection}
use wolf_trust_fork.Ffm.Queue.{dequeue_message, unlink, unlink_from, update_service_signal}
use wolf_trust_fork.Ffm.Recovery.{
  Counted, drop_client_message, drop_client_connection, fail_client_connections,
}

-- The message is one of the caller.
abbrev pub sent_by : Runtime → ℤ → ℕ → Bool
sent_by r caller m = (r.messages m).allocated && (r.messages m).caller ==ℤ caller

pub record SameOwner (a b : Message) : Type 0 where
  pub allocated : b.allocated ≡ a.allocated
  pub caller : b.caller ≡ a.caller

unlink-SameOwner :
    (r : Runtime) (s c p j : ℕ) → SameOwner (r.messages j) ((unlink r s c p).messages j)
unfolding unlink
unlink-SameOwner r s c p j = ground arith

unlink_from-SameOwner :
    (fuel : ℕ) (r : Runtime) (s m c p j : ℕ)
    → SameOwner (r.messages j) ((unlink_from fuel r s m c p).messages j)
unfolding unlink_from
unlink_from-SameOwner zero r s m c p j = ground arith
unlink_from-SameOwner (suc fuel) r s m c p j =
    ground
      (arith, unlink-SameOwner r s c p j, unlink_from-SameOwner fuel r s m (r.messages c).next c j)

unlink_from-connections :
    (fuel : ℕ) (r : Runtime) (s m c p : ℕ)
    → (unlink_from fuel r s m c p).connections ≡ r.connections
unfolding unlink_from unlink
unlink_from-connections zero r s m c p = refl
unlink_from-connections (suc fuel) r s m c p =
    ground (arith, unlink_from-connections fuel r s m (r.messages c).next c)

pub dequeue_message-SameOwner :
    (r : Runtime) (s m j : ℕ) → SameOwner (r.messages j) ((dequeue_message r s m).messages j)
unfolding dequeue_message update_service_signal
dequeue_message-SameOwner r s m j =
    let f = unlink_from-SameOwner (suc max_messages) r s m (r.services s).queue_head queue_none j in
    record { allocated = f.allocated; caller = f.caller }

dequeue_message-connections :
    (r : Runtime) (s m : ℕ) → (dequeue_message r s m).connections ≡ r.connections
unfolding dequeue_message update_service_signal
dequeue_message-connections r s m =
    unlink_from-connections (suc max_messages) r s m (r.services s).queue_head queue_none

-- A step of the first loop leaves the connections alone, and no message slot becomes the caller's.
drop_client_message-step :
    (caller : ℤ) (m : ℕ) (r : Runtime)
    → ((drop_client_message caller m r).connections ≡ r.connections)
      × (sent_by (drop_client_message caller m r) caller m ≡ false)
      × ((j : ℕ)
          → sent_by r caller j ≡ false
          → sent_by (drop_client_message caller m r) caller j ≡ false)
unfolding drop_client_message release_message
drop_client_message-step caller m r = (
  ground (arith, dequeue_message-connections r (r.messages m).service_index m),
  ground arith,
  λ j h. ground (arith, dequeue_message-SameOwner r (r.messages m).service_index m j),
)

-- The first loop, over the messages.
first_loop :
    (r : Runtime) (caller : ℤ) (n : ℕ)
    → let r1 = for_below n (drop_client_message caller) r in
      (r1.connections ≡ r.connections) × ((j : ℕ) → j < n → sent_by r1 caller j ≡ false)
first_loop r caller n =
    for_below_inv
      (λ k (t : Runtime).
        (t.connections ≡ r.connections) × ((j : ℕ) → j < k → sent_by t caller j ≡ false))
      n (drop_client_message caller) r step (refl, λ j lt. absurd (omega arith))
  where
    step :
        (k : ℕ) (t : Runtime)
        → k < n
        → (t.connections ≡ r.connections) × ((j : ℕ) → j < k → sent_by t caller j ≡ false)
        → ((drop_client_message caller k t).connections ≡ r.connections)
          × ((j : ℕ) → j < suc k → sent_by (drop_client_message caller k t) caller j ≡ false)
    step k t lt (same, gone) =
        let (c, now, before) = drop_client_message-step caller k t in
        (
          c ∙ same,
          λ j below. elim (dec_eq k j) [
            | yes e ↦ ap (sent_by (drop_client_message caller k t) caller) (sym e) ∙ now
            | no ne ↦ before j (gone j (omega arith))
          ],
        )

-- What the second loop, over the connections, has done below `k`.
record Freed (r : Runtime) (caller : ℤ) (k : ℕ) (t : Counted) : Type 0 where
  above : (j : ℕ) → k ≤ j → t.0.connections j ≡ r.connections j
  below : (j : ℕ) → j < k → held_by t.0 caller j ≡ false
  counted : t.1 ≡ count (held_by r caller) k
  messages : t.0.messages ≡ r.messages

second_step :
    (r : Runtime) (caller : ℤ) (k : ℕ) (t : Counted)
    → Freed r caller k t
    → Freed r caller (suc k) (drop_client_connection caller k t)
unfolding drop_client_connection release_connection count
second_step r caller k (t, freed) h = record {
  above = λ j le. ground (arith, h.above j);
  below = λ j lt. ground (arith, h.below j);
  counted = ground (arith, h.counted, h.above k);
  messages = ground (arith, h.messages);
}

second_loop :
    (r : Runtime) (caller : ℤ) (n : ℕ)
    → Freed r caller n (for_below n (drop_client_connection caller) (r, 0))
unfolding count
second_loop r caller n =
    for_below_inv (Freed r caller) n (drop_client_connection caller) (r, 0)
      (λ k t lt h. second_step r caller k t h)
      (record {
        above = λ j le. refl;
        below = λ j lt. absurd (omega arith);
        counted = refl;
        messages = refl;
      })

-- After `wt_ffm_fail_client_connections` no message and no connection of the caller is left, and the
-- number that it returns is the number of connections that the caller held.
pub fail_client_connections-gone :
    (r : Runtime) (caller : ℤ)
    → let (r1, freed) = fail_client_connections r caller in
      (freed ≡ client_connection_count r caller)
      × ((m : ℕ) → m < max_messages → sent_by r1 caller m ≡ false)
      × ((c : ℕ) → c < max_connections → held_by r1 caller c ≡ false)
unfolding fail_client_connections client_connection_count
fail_client_connections-gone r caller =
    let (same, gone) = first_loop r caller max_messages in
    let done =
      second_loop (for_below max_messages (drop_client_message caller) r) caller max_connections in
    (
      done.counted
          ∙ ap
              (λ (f : ℕ → Connection).
                count (λ i. (f i).allocated && (f i).caller ==ℤ caller) max_connections)
              same,
      λ m lt.
          ap (λ (f : ℕ → Message). (f m).allocated && (f m).caller ==ℤ caller) done.messages
          ∙ gone m lt,
      done.below,
    )
