-- ===== src/Ffm/Waiting/Slots.antt =====
-- The invariant of all queues where one message or connection slot changes.
use wolf_trust_fork.Base.{◌∙◌, subst, ℕ, ◌<◌, ◌≡◌, inl, inr, refl, true, false, List, arith, ℤ}
use wolf_trust_fork.Ipc.State.{ConnectionState}
use wolf_trust_fork.Ffm.State.{Runtime, max_messages}
use wolf_trust_fork.Ffm.Pools.{release_message, release_connection}
use wolf_trust_fork.Ffm.Queue.{enqueue, update_service_signal, link_last}
use wolf_trust_fork.Ffm.Service.{advance_input, complete_message, post_disconnect}
use wolf_trust_fork.Ffm.Waiting.{is_waiting, Waiting, Waiting-at}
use wolf_trust_fork.Ffm.Waiting.Post.{with_request, request-Waiting}

-- An enqueued message keeps what it says, and the connections stay.
pub record SameRequest (r after : Runtime) (m : ℕ) : Type 0 where
  pub type : (after.messages m).type ≡ (r.messages m).type
  pub connection_index : (after.messages m).connection_index ≡ (r.messages m).connection_index
  pub service_index : (after.messages m).service_index ≡ (r.messages m).service_index
  pub caller : (after.messages m).caller ≡ (r.messages m).caller
  pub connections : after.connections ≡ r.connections

pub enqueue-SameRequest : (r : Runtime) (s m : ℕ) → SameRequest r (enqueue r s m) m
unfolding enqueue link_last update_service_signal
enqueue-SameRequest r s m = record {
  type = ground arith;
  connection_index = ground arith;
  service_index = ground arith;
  caller = ground arith;
  connections = ground arith;
}

post_disconnect-service_index :
    (r : Runtime) (c m : ℕ)
    → ((post_disconnect (release_message r m) c m).messages m).service_index
      ≡ (r.connections c).service_index
unfolding post_disconnect release_message
post_disconnect-service_index r c m =
    (enqueue-SameRequest _ (r.connections c).service_index m).service_index ∙ (ground arith)

module _ (r : Runtime) (queues : ℕ → List ℕ) (w : Waiting r queues) where
  pub complete_message-Waiting :
      (m : ℕ) (state : ConnectionState) (status : ℤ)
      → (r.messages m).allocated ≡ true
      → (r.messages m).active ≡ true
      → Waiting (complete_message r m state status) queues
  unfolding complete_message
  complete_message-Waiting m state status taken active =
      Waiting-at r _ queues m refl (λ s. refl) (λ j ne. ground arith)
        (inl (ground arith, ground arith, ground arith)) w

  pub release_message-Waiting :
      (m : ℕ) → is_waiting (r.messages m) ≡ false → Waiting (release_message r m) queues
  unfolding release_message
  release_message-Waiting m idle =
      Waiting-at r _ queues m refl (λ s. refl) (λ j ne. ground arith)
        (inl (idle, ground arith, ground arith)) w

  advance_input-Waiting : (m idx n : ℕ) → Waiting (advance_input r m idx n) queues
  advance_input-Waiting m idx n =
      Waiting-at r _ queues m refl (λ s. refl) (λ j ne. ground arith)
        (inr (
          ground arith,
          record {
            allocated = ground arith;
            active = ground arith;
            complete = ground arith;
            service_index = ground arith;
          },
        ))
        w

  pub post_disconnect-Waiting :
      (c m : ℕ)
      → (r.connections c).service_index < r.service_count
      → m < max_messages
      → is_waiting (r.messages m) ≡ false
      → Waiting
          (post_disconnect (release_message r m) c m)
          (with_request queues (r.connections c).service_index m)
  unfolding post_disconnect release_message
  post_disconnect-Waiting c m ls lm idle =
      subst (λ s. Waiting (post_disconnect (release_message r m) c m) (with_request queues s m))
        (post_disconnect-service_index r c m)
        (request-Waiting (release_message r m) _ queues (r.connections c).service_index m
          (release_message-Waiting m idle) refl (λ t. refl) (λ j ne. ground arith) ls lm
          (ground arith) (ground arith) (ground arith) (ground arith) (ground arith) (ground arith))

pub release_connection-Waiting :
    (r : Runtime) (queues : ℕ → List ℕ) (c : ℕ)
    → Waiting r queues
    → Waiting (release_connection r c) queues
unfolding release_connection
release_connection-Waiting r queues c w = record {
  each = λ s lt.
      let v = w.each s lt in record { links = v.links; tail = v.tail; distinct = v.distinct };
  waits = w.waits;
  queued = w.queued;
  clear = w.clear;
}
