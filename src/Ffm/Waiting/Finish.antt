-- ===== src/Ffm/Waiting/Finish.antt =====
-- The invariant of all queues at the second halves of the requests.
use wolf_trust_fork.Base.{
  ℕ, ◌≡◌, Bool, true, false, not, List, arith, if-each, Option, none, some, ℤ, ltb, ◌==ℤ◌,
}
use wolf_trust_fork.Ffm.State.{Runtime, ok, max_messages, psa_success}
use wolf_trust_fork.Ffm.Pools.{release_message, release_connection}
use wolf_trust_fork.Ffm.Vectors.{Iovecs}
use wolf_trust_fork.Ffm.Finish.{
  msg_complete, connect_finish, Finished, finish_checked, finish_outputs, call_finish, close_finish,
}
use wolf_trust_fork.Ffm.Waiting.{is_waiting, Waiting}
use wolf_trust_fork.Ffm.Waiting.Client.{set_connections-Waiting}
use wolf_trust_fork.Ffm.Waiting.Slots.{release_message-Waiting, release_connection-Waiting}

module _ (r : Runtime) (queues : ℕ → List ℕ) (w : Waiting r queues) (m : ℕ)
    (complete : msg_complete r m ≡ true) where
  complete-idle : is_waiting (r.messages m) ≡ false
  unfolding msg_complete
  complete-idle = ground arith

  released : Waiting (release_message r m) queues
  released = release_message-Waiting r queues w m complete-idle

  -- `wt_ffm_connect_finish` of a message that is complete keeps the invariant.
  pub connect_finish-Waiting : Waiting (connect_finish r m).0 queues
  unfolding connect_finish
  connect_finish-Waiting =
      if-each (λ (x : Runtime × ℤ). Waiting x.0 queues) _ _ (not (ltb m max_messages)) w
        (if-each (λ (x : Runtime × ℤ). Waiting x.0 queues) _ _
          (not ((r.messages m).reply_status ==ℤ psa_success))
          (release_connection-Waiting _ queues _ released) released)

  finish_checked-Waiting :
      (memory before reported : ℕ → ℕ) (x : Option ℕ)
      → Waiting (finish_checked r m memory before reported x).runtime queues
  unfolding finish_checked
  finish_checked-Waiting memory before reported none = released
  finish_checked-Waiting memory before reported (some i) =
      release_message-Waiting _ queues (set_connections-Waiting r queues w _) m complete-idle

  -- `wt_ffm_call_finish` of a message that is complete keeps the invariant, whatever the port lets it write.
  pub call_finish-Waiting :
      (check_write : ℤ → ℕ → ℕ → Bool) (outs : Iovecs) (memory : ℕ → ℕ)
      → Waiting (call_finish check_write r m outs memory).runtime queues
  unfolding call_finish finish_outputs
  call_finish-Waiting check_write outs memory =
      if-each (λ (x : Finished). Waiting x.runtime queues) _ _ (not (ltb m max_messages)) w
        (finish_checked-Waiting memory _ _ _)

  -- `wt_ffm_close_finish` of a message that is complete succeeds, and keeps the invariant.
  pub close_finish-Waiting : (r1 : Runtime) × (close_finish r m ≡ ok r1) × Waiting r1 queues
  unfolding close_finish msg_complete
  close_finish-Waiting = (
    release_connection (release_message r m) (r.messages m).connection_index,
    ground arith,
    release_connection-Waiting _ queues _ released,
  )

  -- The second halves of a connect, a call and a disconnect keep the invariant where the message is
  -- complete, and that of a disconnect succeeds.
  pub finish-Waiting :
      (check_write : ℤ → ℕ → ℕ → Bool) (outs : Iovecs) (memory : ℕ → ℕ)
      → Waiting (connect_finish r m).0 queues
        × Waiting (call_finish check_write r m outs memory).runtime queues
        × ((r1 : Runtime) × (close_finish r m ≡ ok r1) × Waiting r1 queues)
  finish-Waiting check_write outs memory =
      (connect_finish-Waiting, call_finish-Waiting check_write outs memory, close_finish-Waiting)
