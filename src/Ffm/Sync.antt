-- ===== src/Ffm/Sync.antt =====
-- The synchronous client calls: `wt_ffm_dispatch_message`, `wt_ffm_connect`, `wt_ffm_call`,
-- `wt_ffm_close` and `wt_ffm_dispatch_pending`. What a dispatch does to the runtime is the service's
-- code, so it is a parameter: the registered callback of the partition, if any, and the partition's id.
use wolf_trust_fork.Base.{ℕ, Bool, true, not, ltb, if◌then◌else◌, Option, ℤ, ◌==ℤ◌}
use wolf_trust_fork.Ipc.State.{error}
use wolf_trust_fork.Ffm.State.{
  Runtime, FfmError, not_ready, bad_argument, no_resource, max_messages, psa_success,
  psa_error_connection_busy, psa_error_generic_error, abandoned_reply, abandoned_close,
  set_connection, set_message,
}
use wolf_trust_fork.Ffm.Pools.{release_connection, release_message, owner_domain}
use wolf_trust_fork.Ffm.Queue.{dequeue_message}
use wolf_trust_fork.Ffm.Vectors.{Iovecs, fill}
use wolf_trust_fork.Ffm.Client.{
  opened, turned_away, connect_begin, call_begin, closing, closed, not_closed, close_begin,
}
use wolf_trust_fork.Ffm.Finish.{Finished, finish_outputs}

-- The code that a dispatch callback returns.
pub data Dispatched : Type 0 where
  served : Dispatched
  unserved : FfmError → Dispatched

module _ (dispatch : Option ℕ → ℕ → Runtime → Runtime × Dispatched) where
  abbrev pub require_complete : Runtime → ℕ → Dispatched → Dispatched
  require_complete r m (unserved e) = unserved e
  require_complete r m served = if (r.messages m).complete then served else unserved not_ready

  -- `wt_ffm_dispatch_message`
  unfoldable pub dispatch_message : Runtime → ℕ → Runtime × Dispatched
  dispatch_message r m =
      let s = (r.messages m).service_index in
      let (r1, code) =
        dispatch (r.partitions (r.services s).partition_index).dispatch (owner_domain r s) r in
      (r1, require_complete r1 m code)

  -- `wt_ffm_dispatch_pending`
  unfoldable pub dispatch_pending : Runtime → ℕ → Runtime × Dispatched
  dispatch_pending r m =
      if not (ltb m max_messages)
      then (r, unserved bad_argument)
      else if not (r.messages m).allocated
      then (r, unserved bad_argument)
      else dispatch_message r m

  abbrev pub busy_or_generic : FfmError → ℤ
  busy_or_generic no_resource = psa_error_connection_busy
  busy_or_generic _ = psa_error_generic_error

  -- The end of `wt_ffm_connect`, after the dispatch of its message.
  unfoldable pub end_connect : Runtime → Dispatched → ℤ → ℕ → ℕ → ℕ → Runtime × ℤ
  end_connect r served handle s c m =
      let status = (r.messages m).reply_status in
      let released = release_message r m in
      if status ==ℤ psa_success then (released, handle) else (release_connection released c, status)
  end_connect r (unserved e) handle s c m =
      let message = r.messages m in
      if message.active
      then (set_message r m (record message { abandoned = abandoned_close }), busy_or_generic e)
      else let released = release_message (dequeue_message r s m) m in
        (
          release_connection released c,
          elim e [
            | no_resource ↦ psa_error_connection_busy
            | _ ↦
                if message.reply_status ==ℤ psa_success
                then psa_error_generic_error
                else message.reply_status
          ],
        )

  -- `wt_ffm_connect`
  unfoldable pub connect : Runtime → ℤ → ℕ → ℕ → Runtime × ℤ
  connect r caller sid version = elim (connect_begin r caller sid version) [
    | turned_away r1 status ↦ (r1, status)
    | opened r1 handle c m ↦
        let (r2, code) = dispatch_message r1 m in
        end_connect r2 code handle (r1.messages m).service_index c m
  ]

  module _ (check_read check_write : ℤ → ℕ → ℕ → Bool) where
    -- The end of `wt_ffm_call`, after the dispatch of its message.
    unfoldable pub end_call : Runtime → Dispatched → ℕ → ℕ → Iovecs → (ℕ → ℕ) → Finished
    end_call r served c m outs memory =
        let message = r.messages m in
        let before : ℕ → ℕ = λ i. (outs.at i).length in
        finish_outputs check_write r m memory before
          (fill message.out_count message.out_position before)
    end_call r (unserved e) c m outs memory =
        let message = r.messages m in
        let connection = r.connections c in
        record {
          runtime =
              if message.active
              then set_message
                  (set_connection r c (record connection { state = error; error_latch = true })) m
                  (record message { abandoned = abandoned_reply; client_output = λ _. 0 })
              else release_message
                  (dequeue_message (set_connection r c (record connection { state = error }))
                    connection.service_index m)
                  m;
          memory = memory;
          out_lengths = λ i. (outs.at i).length;
          status = psa_error_generic_error;
        }

    -- `wt_ffm_call`
    unfoldable pub call : Runtime → ℤ → ℤ → ℤ → Iovecs → Iovecs → (ℕ → ℕ) → Finished
    call r caller handle type ins outs memory =
        elim (call_begin check_read check_write memory r caller handle type ins outs) [
          | turned_away r1 status ↦ record {
            runtime = r1;
            memory = memory;
            out_lengths = λ i. (outs.at i).length;
            status = status;
          }
          | opened r1 handle' c m ↦
              let (r2, code) = dispatch_message r1 m in end_call r2 code c m outs memory
        ]

  -- The end of `wt_ffm_close`, after the dispatch of its message.
  unfoldable pub end_close : Runtime → Dispatched → ℕ → ℕ → Runtime × Dispatched
  end_close r served c m = (release_connection (release_message r m) c, served)
  end_close r (unserved e) c m =
      let message = r.messages m in
      if message.active
      then (set_message r m (record message { abandoned = abandoned_close }), unserved e)
      else (release_message (dequeue_message r (r.connections c).service_index m) m, unserved e)

  -- `wt_ffm_close`
  unfoldable pub close : Runtime → ℤ → ℤ → Runtime × Dispatched
  close r caller handle = elim (close_begin r caller handle) [
    | closed r1 ↦ (r1, served)
    | not_closed e ↦ (r, unserved e)
    | closing r1 c m ↦ let (r2, code) = dispatch_message r1 m in end_close r2 code c m
  ]
