-- ===== src/Ffm/Finish.antt =====
-- The second halves of a client's requests: `wt_ffm_msg_complete`, `wt_ffm_connect_finish`,
-- `wt_ffm_call_finish` and `wt_ffm_close_finish`.
pub mod Publish
use wolf_trust_fork.Base.{
  ℕ, zero, suc, ◌+◌, Bool, true, false, not, ◌&&◌, ltb, ◌==◌, if◌then◌else◌, Option, none, some, ℤ,
  ◌==ℤ◌, find,
}
use wolf_trust_fork.Ipc.State.{error}
use wolf_trust_fork.Ffm.State.{
  Runtime, Message, Result, ok, err, bad_argument, max_messages, psa_success,
  psa_error_programmer_error, psa_error_invalid_argument, set_connection,
}
use wolf_trust_fork.Ffm.Handle.{make_handle, connection_type}
use wolf_trust_fork.Ffm.Pools.{release_connection, release_message}
use wolf_trust_fork.Ffm.Vectors.{Iovecs, copy}

-- `wt_ffm_msg_complete`
unfoldable pub msg_complete : Runtime → ℕ → Bool
msg_complete r m = ltb m max_messages && ((r.messages m).allocated && (r.messages m).complete)

-- `wt_ffm_connect_finish`
unfoldable pub connect_finish : Runtime → ℕ → Runtime × ℤ
connect_finish r m =
    if not (ltb m max_messages)
    then (r, psa_error_invalid_argument)
    else let c = (r.messages m).connection_index in
      let status = (r.messages m).reply_status in
      let released = release_message r m in
      if not (status ==ℤ psa_success)
      then (release_connection released c, status)
      else (released, make_handle connection_type c (released.connections c).generation)

-- The bytes that the service wrote, from the message's buffer to the client's first `n` vectors.
unfoldable pub publish : Message → ℕ → (ℕ → ℕ) → ℕ → ℕ
publish m zero memory = memory
publish m (suc n) memory =
    copy (publish m n memory) (m.client_output n) (λ k. m.output (m.out_offset n + k))
      (m.out_position n)

-- What a client sees of a finished call: its memory, the lengths of its output vectors, and the status.
-- The array of the vectors is apart from the memory that they name.
pub record Finished : Type 0 where
  pub runtime : Runtime
  pub memory : ℕ → ℕ
  pub out_lengths : ℕ → ℕ
  pub status : ℤ

-- The end of a call: `some` is a destination that may not be written. `before` and `reported` are the
-- lengths of the output vectors as they were, and as the loop over the outputs leaves them.
unfoldable pub finish_checked : Runtime → ℕ → (ℕ → ℕ) → (ℕ → ℕ) → (ℕ → ℕ) → Option ℕ → Finished
finish_checked r m memory before reported (some i) =
    let c = (r.messages m).connection_index in
    record {
      runtime = release_message (set_connection r c (record (r.connections c) { state = error })) m;
      memory = memory;
      out_lengths = before;
      status = psa_error_programmer_error;
    }
finish_checked r m memory before reported none =
    let message = r.messages m in
    record {
      runtime = release_message r m;
      memory = publish message message.out_count memory;
      out_lengths = reported;
      status = message.reply_status;
    }

-- `if (out_vec != NULL && i < out_len) out_vec[i].len = message->out_position[i];` for each output
abbrev pub reported_lengths : Message → Iovecs → ℕ → ℕ
reported_lengths m outs i =
    if not outs.null && (ltb i m.out_count && ltb i outs.count)
    then m.out_position i
    else (outs.at i).length

module _ (check_write : ℤ → ℕ → ℕ → Bool) where
  -- A destination that took bytes and that the port does not let the caller write.
  abbrev pub unwritable : Message → ℕ → Bool
  unwritable m i =
      not (m.out_position i == 0)
      && not (check_write m.caller (m.client_output i) (m.out_position i))

  -- The outputs of message `m` are checked, all before any is written; then the slot is released.
  unfoldable pub finish_outputs : Runtime → ℕ → (ℕ → ℕ) → (ℕ → ℕ) → (ℕ → ℕ) → Finished
  finish_outputs r m memory before reported =
      finish_checked r m memory before reported
        (find (unwritable (r.messages m)) (r.messages m).out_count)

  -- `wt_ffm_call_finish`; `outs` is `out_vec` with `out_len`.
  unfoldable pub call_finish : Runtime → ℕ → Iovecs → (ℕ → ℕ) → Finished
  call_finish r m outs memory =
      if not (ltb m max_messages)
      then record {
        runtime = r;
        memory = memory;
        out_lengths = λ i. (outs.at i).length;
        status = psa_error_invalid_argument;
      }
      else finish_outputs r m memory (λ i. (outs.at i).length)
          (reported_lengths (r.messages m) outs)

-- `wt_ffm_close_finish`
unfoldable pub close_finish : Runtime → ℕ → Result Runtime
close_finish r m =
    if not (ltb m max_messages)
    then err bad_argument
    else ok (release_connection (release_message r m) (r.messages m).connection_index)
