-- ===== src/Ffm/Waiting/Serve.antt =====
-- The invariant of all queues at `wt_ffm_reply`.
use wolf_trust_fork.Base.{
  ◌⊎◌, inl, inr, ap, ◌∙◌, subst, if-along, ◌==ℤ◌, ◌&&◌, ◌||◌, not, Bool, if◌then◌else◌, ℕ, ◌<◌, ◌≡◌,
  refl, true, false, List, arith, if-each, ℤ, is_neg,
}
use wolf_trust_fork.Ipc.State.{disconnecting, ConnectionState}
use wolf_trust_fork.Ffm.State.{
  Runtime, Message, FfmError, Connection, Result, ok, err, max_messages, psa_success,
  psa_error_connection_refused, psa_error_connection_busy, psa_ipc_connect, psa_ipc_disconnect,
  abandoned_close,
}
use wolf_trust_fork.Ffm.Pools.{message_from_handle, release_message, release_connection}
use wolf_trust_fork.Ffm.Pools.Handle.{message_from_handle-ok}
use wolf_trust_fork.Ffm.Queue.{is_abandoned}
use wolf_trust_fork.Ffm.Service.{
  complete_message, post_disconnect, finish_abandoned, reply_in, reply_to, reply, needs_disconnect,
  replied_state,
}
use wolf_trust_fork.Ffm.Waiting.{is_waiting, Serves, Waiting}
use wolf_trust_fork.Ffm.Waiting.Post.{with_request}
use wolf_trust_fork.Ffm.Waiting.Slots.{
  complete_message-Waiting, release_message-Waiting, release_connection-Waiting,
  post_disconnect-Waiting, enqueue-SameRequest,
}

-- A reply with a status makes a message that its client gave up end in a disconnect: a connect that the
-- service accepted, and a call whose client closed.
abbrev pub must_close : Message → ℤ → Bool
must_close m status =
    m.type ==ℤ psa_ipc_connect && status ==ℤ psa_success
    || not (is_neg m.type) && (elim m.abandoned [ abandoned_close ↦ true | _ ↦ false ])

-- The slot of message `m` holds the disconnect message of the connection that `m` had.
abbrev pub Disconnects : Runtime → ℕ → Runtime → Type 0
Disconnects r m after =
    let c = (r.messages m).connection_index in
    ((after.messages m).type ≡ psa_ipc_disconnect)
    × ((after.messages m).connection_index ≡ c)
    × ((after.messages m).service_index ≡ (r.connections c).service_index)
    × ((after.messages m).caller ≡ (r.connections c).caller)
    × ((after.connections c).state ≡ disconnecting)

-- What is left after a reply to message `m`, by whether its client gave it up and whether a disconnect
-- must follow: the message complete with the status; or its slot free; or a disconnect message in its
-- slot, last in the queue of its service.
abbrev pub Replied : (ℕ → List ℕ) → Runtime → ℕ → ℤ → Bool → Bool → Runtime → Type 0
Replied queues r m status false b after =
    Waiting after queues
    × ((after.messages m).complete ≡ true)
    × ((after.messages m).reply_status ≡ status)
Replied queues r m status true false after =
    Waiting after queues × ((after.messages m).allocated ≡ false)
Replied queues r m status true true after =
    Waiting after
      (with_request queues (r.connections (r.messages m).connection_index).service_index m)
    × Disconnects r m after

post_disconnect-Disconnects :
    (r : Runtime) (m : ℕ)
    → Disconnects r m (post_disconnect (release_message r m) (r.messages m).connection_index m)
unfolding post_disconnect release_message
post_disconnect-Disconnects r m =
    let same =
      enqueue-SameRequest _ (r.connections (r.messages m).connection_index).service_index m in
    (
      same.type ∙ (ground arith),
      same.connection_index ∙ (ground arith),
      same.service_index ∙ (ground arith),
      same.caller ∙ (ground arith),
      ap (λ f. Connection.state (f (r.messages m).connection_index)) same.connections
          ∙ (ground arith),
    )

finish_abandoned-Replied :
    (r : Runtime) (queues : ℕ → List ℕ) (m : ℕ) (status : ℤ)
    → Waiting r queues
    → Serves r
    → m < max_messages
    → is_waiting (r.messages m) ≡ false
    → Replied queues r m status true (needs_disconnect (r.messages m)) (finish_abandoned r m)
unfolding finish_abandoned release_connection release_message
finish_abandoned-Replied r queues m status w serves lt idle =
    let c = (r.messages m).connection_index in
    if-along (λ b z. Replied queues r m status true b z) (post_disconnect (release_message r m) c m)
      (if is_neg (r.messages m).type
        then release_message (release_connection r c) m
        else release_message r m)
      (needs_disconnect (r.messages m))
      (λ e. (
        post_disconnect-Waiting r queues w c m (serves c) lt idle,
        post_disconnect-Disconnects r m,
      ))
      (λ e.
        if-each (λ z. Waiting z queues × ((z.messages m).allocated ≡ false))
          (release_message (release_connection r c) m) (release_message r m)
          (is_neg (r.messages m).type)
          (
            release_message-Waiting _ queues (release_connection-Waiting r queues c w) m idle,
            ground arith,
          )
          (release_message-Waiting r queues w m idle, ground arith))

complete_message-Serves :
    (r : Runtime) (m : ℕ) (state : ConnectionState) (status : ℤ)
    → Serves r
    → Serves (complete_message r m state status)
unfolding complete_message
complete_message-Serves r m state status serves c =
    ground (arith, serves c, serves (r.messages m).connection_index)

complete_message-done :
    (r : Runtime) (m : ℕ) (state : ConnectionState) (status : ℤ)
    → is_waiting ((complete_message r m state status).messages m) ≡ false
unfolding complete_message
complete_message-done r m state status = ground arith

-- The step that completes a message leaves its connection's names as they were.
completed-Disconnects :
    (r : Runtime) (m : ℕ) (state : ConnectionState) (status : ℤ) (after : Runtime)
    → Disconnects (complete_message r m state status) m after
    → Disconnects r m after
unfolding complete_message
completed-Disconnects r m state status after (t, i, s, c, d) =
    let x = complete_message r m state status in
    let index : (x.messages m).connection_index ≡ (r.messages m).connection_index = ground arith in
    let serves : (k : ℕ) → (x.connections k).service_index ≡ (r.connections k).service_index =
      λ k. ground arith in
    let calls : (k : ℕ) → (x.connections k).caller ≡ (r.connections k).caller = λ k. ground arith in
    (
      t,
      i ∙ index,
      s ∙ serves _ ∙ ap (λ k. (r.connections k).service_index) index,
      c ∙ calls _ ∙ ap (λ k. (r.connections k).caller) index,
      subst (λ k. (after.connections k).state ≡ disconnecting) index d,
    )

completed-must_close :
    (r : Runtime) (m : ℕ) (state : ConnectionState) (status : ℤ)
    → needs_disconnect ((complete_message r m state status).messages m)
      ≡ must_close (r.messages m) status
unfolding complete_message
completed-must_close r m state status = ground arith

completed :
    (r : Runtime) (m : ℕ) (state : ConnectionState) (status : ℤ)
    → (((complete_message r m state status).messages m).complete ≡ true)
      × (((complete_message r m state status).messages m).reply_status ≡ status)
unfolding complete_message
completed r m state status = (ground arith, ground arith)

-- The rest of a reply, after the message is complete
completed-Replied :
    (queues : ℕ → List ℕ) (r : Runtime) (m : ℕ) (state : ConnectionState) (status : ℤ) (b : Bool)
    (after : Runtime)
    → Replied queues (complete_message r m state status) m status true b after
    → Replied queues r m status true b after
unfolding complete_message
completed-Replied queues r m state status false after e = e
completed-Replied queues r m state status true after (w, d) =
    let x = complete_message r m state status in
    let index : (x.messages m).connection_index ≡ (r.messages m).connection_index = ground arith in
    let serves : (k : ℕ) → (x.connections k).service_index ≡ (r.connections k).service_index =
      λ k. ground arith in
    (
      subst (λ s. Waiting after (with_request queues s m))
          (serves _ ∙ ap (λ k. (r.connections k).service_index) index) w,
      completed-Disconnects r m state status after d,
    )

-- A status that the FF-M does not allow for the message, or a message that is no request
abbrev pub unfit : Message → ℤ → Bool
unfit m status =
    let refusal = status ==ℤ psa_error_connection_refused || status ==ℤ psa_error_connection_busy in
    if m.type ==ℤ psa_ipc_connect
    then not (status ==ℤ psa_success || refusal)
    else if m.type ==ℤ psa_ipc_disconnect
    then false
    else is_neg m.type || refusal

replied_state-unfit :
    (m : Message) (c : Connection) (status : ℤ) (e : FfmError)
    → replied_state m c status ≡ err e
    → unfit m status ≡ true
unfolding replied_state
replied_state-unfit m c status e h = ground arith

replied_state_fit :
    (m : Message) (c : Connection) (status : ℤ) (state : ConnectionState)
    → replied_state m c status ≡ ok state
    → unfit m status ≡ false
unfolding replied_state
replied_state_fit m c status state h = ground arith

-- An error means that the handle names no message of the partition, or that the status does not fit the
-- message, and leaves everything as it was; a success is that of the message which the handle names,
-- with a status that fits.
abbrev pub ReplyKeeps : (ℕ → List ℕ) → Runtime → ℤ → ℤ → ℤ → Result Runtime → Type 0
ReplyKeeps queues r partition_id handle status (err e) =
    ((x : FfmError) × (message_from_handle r partition_id handle ≡ err x))
    ⊎ ((m : ℕ) × (message_from_handle r partition_id handle ≡ ok m)
        × (unfit (r.messages m) status ≡ true))
ReplyKeeps queues r partition_id handle status (ok after) =
    (m : ℕ) × (message_from_handle r partition_id handle ≡ ok m)
    × (unfit (r.messages m) status ≡ false)
    × Replied queues r m status (is_abandoned (r.messages m).abandoned)
        (must_close (r.messages m) status) after

module _ (r : Runtime) (queues : ℕ → List ℕ) (w : Waiting r queues) (serves : Serves r)
    (partition_id handle status : ℤ) where
  reply_in-keeps :
      (m : ℕ) (x : Result ConnectionState)
      → message_from_handle r partition_id handle ≡ ok m
      → replied_state (r.messages m) (r.connections (r.messages m).connection_index) status ≡ x
      → ReplyKeeps queues r partition_id handle status (reply_in r m status x)
  unfolding reply_in
  reply_in-keeps m (err e) h f = inr (m, h, replied_state-unfit (r.messages m) _ status e f)
  reply_in-keeps m (ok state) h f =
      let (lt, taken, active, read, owner) = message_from_handle-ok r partition_id handle m h in
      let done = complete_message-Waiting r queues w m state status taken active in
      let x = complete_message r m state status in
      (
        m,
        h,
        replied_state_fit (r.messages m) _ status state f,
        if-along (λ b z. Replied queues r m status b (must_close (r.messages m) status) z)
            (finish_abandoned x m) x (is_abandoned (r.messages m).abandoned)
            (λ a.
              completed-Replied queues r m state status (must_close (r.messages m) status)
                (finish_abandoned x m)
                (subst (λ b. Replied queues x m status true b (finish_abandoned x m))
                  (completed-must_close r m state status)
                  (finish_abandoned-Replied x queues m status done
                    (complete_message-Serves r m state status serves) lt
                    (complete_message-done r m state status))))
            (λ a. let (over, said) = completed r m state status in (done, over, said)),
      )

  reply_to-keeps :
      (x : Result ℕ)
      → message_from_handle r partition_id handle ≡ x
      → ReplyKeeps queues r partition_id handle status (reply_to r status x)
  unfolding reply_to
  reply_to-keeps (err e) h = inl (e, h)
  reply_to-keeps (ok m) h = reply_in-keeps m _ h refl

  -- `wt_ffm_reply` keeps the invariant, where every connection names a service that counts. If it
  -- fails, the handle names no message of the partition or the status does not fit the message. If
  -- it succeeds, the handle names a message that the status fits, and: if the client waits, the
  -- queues are as they were and the message is complete with the status; if the client gave the
  -- message up, its slot is freed and the queues are as they were, unless the message is a connect
  -- that was accepted or a call whose client closed; then the slot holds the disconnect message of
  -- the connection, which stands last in the queue of its service, and the connection is
  -- disconnecting.
  pub reply-Waiting :
      ReplyKeeps queues r partition_id handle status (reply r partition_id handle status)
  unfolding reply
  reply-Waiting = reply_to-keeps _ refl
