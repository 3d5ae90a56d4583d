-- ===== src/Ffm/Waiting/Close.antt =====
-- The invariant of all queues at `wt_ffm_close_begin`.
use wolf_trust_fork.Base.{
  ℕ, ◌<◌, ◌≡◌, inl, inr, refl, false, not, List, ◌==ℤ◌, arith, if-each, Option, none, some,
  Option-cases, ℤ, pos, subst,
}
use wolf_trust_fork.Ffm.State.{Runtime, Result, ok, err, max_messages}
use wolf_trust_fork.Ffm.Pools.{alloc_message, claim_message, connection_from_handle}
use wolf_trust_fork.Ffm.Pools.Alloc.{alloc_message-some}
use wolf_trust_fork.Ffm.Queue.{close_later, closed_later, close_abandoned}
use wolf_trust_fork.Ffm.Client.{
  Closing, closing, closed, not_closed, post_close, close_message, close_kept, open_to_close,
  close_on, close_from, close_begin,
}
use wolf_trust_fork.Ffm.Waiting.{Serves, Waiting, Waiting-at}
use wolf_trust_fork.Ffm.Waiting.Post.{with_request, request-Waiting}

-- A close leaves the queues as they were, or its message stands last in the queue of its service.
abbrev pub ClosingQueued : (ℕ → List ℕ) → Closing → Type 0
ClosingQueued queues (not_closed e) = Unit
ClosingQueued queues (closed r) = Waiting r queues
ClosingQueued queues (closing r c m) =
    Waiting r (with_request queues (r.messages m).service_index m)

module _ (r : Runtime) (queues : ℕ → List ℕ) (w : Waiting r queues) where
  close_later-Waiting : (c i : ℕ) → Waiting (close_later r c i) queues
  close_later-Waiting c i =
      Waiting-at r _ queues i refl (λ s. refl) (λ j ne. ground arith)
        (inr (
          ground arith,
          record {
            allocated = ground arith;
            active = ground arith;
            complete = ground arith;
            service_index = ground arith;
          },
        ))
        w

  closed_later-Waiting :
      (c : ℕ) (y : Option ℕ) (x : Runtime) → closed_later r c y ≡ some x → Waiting x queues
  closed_later-Waiting c none x h = absurd (cc h)
  closed_later-Waiting c (some i) x h =
      subst (λ (y : Option Runtime). elim y [ none ↦ Unit | some z ↦ Waiting z queues ]) h
        (close_later-Waiting c i)

  close_abandoned-Waiting : (c : ℕ) (x : Runtime) → close_abandoned r c ≡ some x → Waiting x queues
  unfolding close_abandoned
  close_abandoned-Waiting c x h = closed_later-Waiting c _ x h

  post_close-Queued :
      (caller : ℤ) (c m : ℕ)
      → (r.connections c).service_index < r.service_count
      → m < max_messages
      → (r.messages m).allocated ≡ false
      → ClosingQueued queues (post_close (claim_message r m) caller c m)
  unfolding post_close
  post_close-Queued caller c m ls lm free =
      request-Waiting r _ queues (r.connections c).service_index m w refl (λ t. refl)
        (λ j ne. ground arith) ls lm free (ground arith) (ground arith) (ground arith)
        (ground arith) (ground arith)

  close_kept-Queued :
      (caller : ℤ) (c : ℕ) (x : Option Runtime)
      → (r.connections c).service_index < r.service_count
      → close_abandoned r c ≡ x
      → ClosingQueued queues (close_kept r caller c x)
  unfolding close_kept close_message
  close_kept-Queued caller c (some r1) ls h = close_abandoned-Waiting c r1 h
  close_kept-Queued caller c none ls h = elim (Option-cases (alloc_message r)) [
    | inl e ↦ rw (e, close_message) tt
    | inr ((m, r1), e) ↦
        let (lm, free, claim) = alloc_message-some r m r1 e in
        rw (e, close_message) (rw claim (post_close-Queued caller c m ls lm free))
  ]

  close_from-Queued :
      (caller handle : ℤ) (x : Result ℕ)
      → Serves r
      → connection_from_handle r caller handle ≡ x
      → ClosingQueued queues (close_from r caller x)
  unfolding close_from close_on
  close_from-Queued caller handle (err e) serves h = tt
  close_from-Queued caller handle (ok c) serves h =
      if-each (ClosingQueued queues) _ _ (not (open_to_close r c)) tt
        (close_kept-Queued caller c _ (serves c) refl)

  -- `wt_ffm_close_begin` keeps the invariant, where every connection names a service that counts: an error
  -- changes nothing, a close that needs no message leaves every queue as it was, and another one puts its
  -- message last in the queue of its service.
  pub close_begin-Queued :
      Serves r → (caller handle : ℤ) → ClosingQueued queues (close_begin r caller handle)
  unfolding close_begin
  close_begin-Queued serves caller handle =
      if-each (ClosingQueued queues) _ _ (handle ==ℤ pos 0) w (
        if-each (ClosingQueued queues) _ _ (caller ==ℤ pos 0) tt
          (close_from-Queued caller handle _ serves refl))
