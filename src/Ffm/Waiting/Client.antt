-- ===== src/Ffm/Waiting/Client.antt =====
-- The invariant of all queues at `wt_ffm_connect_begin` and `wt_ffm_call_begin`.
use wolf_trust_fork.Base.{
  ℕ, ◌<◌, ◌≡◌, inl, inr, refl, Bool, true, false, not, List, arith, Option-cases, ◌==◌, ℤ, pos,
  find-some, if-each, ◌==ℤ◌,
}
use wolf_trust_fork.Ipc.State.{idle, same_state}
use wolf_trust_fork.Ffm.State.{
  Runtime, Message, Connection, ok, err, FfmError, bad_buffer, Result, Result-cases, max_messages,
  queue_none,
}
use wolf_trust_fork.Ffm.Lookup.{find_service}
use wolf_trust_fork.Ffm.Pools.{
  connection_from_handle, alloc_connection, release_connection, alloc_message, claim_message,
  release_message,
}
use wolf_trust_fork.Ffm.Pools.Alloc.{alloc_message-some, alloc_connection-some}
use wolf_trust_fork.Ffm.Client.{
  Admission-cases, admit, admit_service, admit_connect, Opened, opened, turned_away, post_connect,
  connect_message, open_connection, connect_begin, queue_call, call_message, mark_error, malformed,
  call_on, call_from, call_begin,
}
use wolf_trust_fork.Ffm.Vectors.{Iovecs}
use wolf_trust_fork.Ffm.Vectors.Loaded.{prepare_vectors-ok}
use wolf_trust_fork.Ffm.Waiting.{Serves, Waiting, Waiting-at}
use wolf_trust_fork.Ffm.Waiting.Post.{with_request, request-Waiting}

-- A refusal leaves the queues as they were; a request adds its message to the queue of its service.
abbrev pub Queued : (ℕ → List ℕ) → Opened → Type 0
Queued queues (turned_away r status) = Waiting r queues
Queued queues (opened r handle c m) = Waiting r (with_request queues (r.messages m).service_index m)

module _ (r : Runtime) (queues : ℕ → List ℕ) (w : Waiting r queues) where
  -- Whatever is done to connections leaves the queues alone.
  pub set_connections-Waiting : (f : ℕ → Connection) → Waiting (record r { connections = f }) queues
  set_connections-Waiting f = record {
    each = λ s lt.
        let v = w.each s lt in record { links = v.links; tail = v.tail; distinct = v.distinct };
    waits = w.waits;
    queued = w.queued;
    clear = w.clear;
  }

  post_connect-Waiting :
      (f : ℕ → Connection) (caller : ℤ) (s c m : ℕ)
      → s < r.service_count
      → m < max_messages
      → (r.messages m).allocated ≡ false
      → Queued queues (post_connect (claim_message (record r { connections = f }) m) caller s c m)
  unfolding post_connect
  post_connect-Waiting f caller s c m ls lm free =
      request-Waiting r _ queues s m w refl (λ t. refl) (λ j ne. ground arith) ls lm free
        (ground arith) (ground arith) (ground arith) (ground arith) (ground arith)

find_service-lt : (r : Runtime) (sid s : ℕ) → find_service r sid ≡ ok s → s < r.service_count
unfolding find_service
find_service-lt r sid s h =
    ground (arith, find-some (λ i. (r.services i).descriptor.sid == sid) r.service_count s)

admit_service-admit :
    (r : Runtime) (caller : ℤ) (s version t : ℕ)
    → admit_service r caller s version ≡ admit t
    → s ≡ t
unfolding admit_service
admit_service-admit r caller s version t h = ground arith

admit_connect-lt :
    (r : Runtime) (caller : ℤ) (sid version s : ℕ)
    → admit_connect r caller sid version ≡ admit s
    → s < r.service_count
unfolding admit_connect
admit_connect-lt r caller sid version s h = elim (Result-cases (find_service r sid)) [
  | inl (x, e) ↦ ground (arith, e)
  | inr (t, e) ↦
      ground (arith, e, find_service-lt r sid t e, admit_service-admit r caller t version s)
]

module _ (r : Runtime) (queues : ℕ → List ℕ) (w : Waiting r queues) where
  connect_message-Queued :
      (f : ℕ → Connection) (caller : ℤ) (s c : ℕ)
      → s < r.service_count
      → Queued queues (connect_message (record r { connections = f }) caller s c)
  unfolding connect_message release_connection
  connect_message-Queued f caller s c lt =
      elim (Option-cases (alloc_message (record r { connections = f }))) [
        | inl e ↦ rw (e, connect_message) (set_connections-Waiting r queues w _)
        | inr ((m, r1), e) ↦
            let (lm, free, claim) = alloc_message-some (record r { connections = f }) m r1 e in
            rw (e, connect_message)
              (rw claim (post_connect-Waiting r queues w f caller s c m lt lm free))
      ]

  open_connection-Queued :
      (caller : ℤ) (s : ℕ) → s < r.service_count → Queued queues (open_connection r caller s)
  unfolding open_connection
  open_connection-Queued caller s lt = elim (Option-cases (alloc_connection r)) [
    | inl e ↦ rw (e, open_connection) w
    | inr ((c, r1), e) ↦
        let (lc, free, claim) = alloc_connection-some r c r1 e in
        rw (e, open_connection) (rw claim (connect_message-Queued _ caller s c lt))
  ]

  -- `wt_ffm_connect_begin` keeps the invariant: a refusal leaves every queue as it was, and a connect
  -- message stands last in the queue of its service.
  pub connect_begin-Queued :
      (caller : ℤ) (sid version : ℕ) → Queued queues (connect_begin r caller sid version)
  unfolding connect_begin
  connect_begin-Queued caller sid version =
      elim (Admission-cases (admit_connect r caller sid version)) [
        | inl (status, e) ↦ rw (e, connect_begin) w
        | inr (s, e) ↦
            rw (e, connect_begin)
              (open_connection-Queued caller s (admit_connect-lt r caller sid version s e))
      ]

-- A message slot that holds a request on connection `c`.
record IsRequest (r : Runtime) (c m : ℕ) (l : Message) : Type 0 where
  taken : l.allocated ≡ true
  active : l.active ≡ (r.messages m).active
  complete : l.complete ≡ (r.messages m).complete
  service_index : l.service_index ≡ (r.connections c).service_index
  last : l.next ≡ queue_none

module _ (check_read check_write : ℤ → ℕ → ℕ → Bool) (memory : ℕ → ℕ) (r : Runtime)
    (queues : ℕ → List ℕ) (w : Waiting r queues) where
  -- A message that is released before it was queued.
  release-Waiting :
      (f : ℕ → Connection) (m : ℕ)
      → (r.messages m).allocated ≡ false
      → Waiting (release_message (claim_message (record r { connections = f }) m) m) queues
  unfolding release_message
  release-Waiting f m free =
      Waiting-at r _ queues m refl (λ s. refl) (λ j ne. ground arith)
        (inl (ground arith, ground arith, ground arith)) w

  queue_call-err :
      (c m : ℕ) (e : FfmError)
      → (r.messages m).allocated ≡ false
      → Queued queues (queue_call (claim_message r m) c m (err e))
  unfolding queue_call
  queue_call-err c m bad_buffer free = release-Waiting r.connections m free
  queue_call-err c m e free =
      set_connections-Waiting _ queues (release-Waiting r.connections m free) _

  queue_call-Queued :
      (c m : ℕ) (x : Result Message)
      → (r.connections c).service_index < r.service_count
      → m < max_messages
      → (r.messages m).allocated ≡ false
      → ((l : Message) → x ≡ ok l → IsRequest r c m l)
      → Queued queues (queue_call (claim_message r m) c m x)
  unfolding queue_call
  queue_call-Queued c m (ok l) ls lm free good =
      let g = good l refl in
      request-Waiting r _ queues (r.connections c).service_index m w refl (λ t. refl)
        (λ j ne. ground arith) ls lm free (ground (arith, g)) (ground (arith, g))
        (ground (arith, g)) (ground (arith, g)) (ground (arith, g))
  queue_call-Queued c m (err e) ls lm free good = queue_call-err c m e free

  call_message-IsRequest :
      (caller : ℤ) (c m : ℕ) (type : ℤ) (ins outs : Iovecs) (l : Message)
      → call_message check_read check_write memory (claim_message r m) caller c m type ins outs
        ≡ ok l
      → IsRequest r c m l
  call_message-IsRequest caller c m type ins outs l h =
      let (loaded, inside, total) =
        prepare_vectors-ok check_read check_write memory _ l ins outs h in
      rw (← loaded) (record {
        taken = ground arith;
        active = ground arith;
        complete = ground arith;
        service_index = ground arith;
        last = ground arith;
      })

  mark_error-Waiting : (c : ℕ) → Waiting (mark_error r c) queues
  unfolding mark_error
  mark_error-Waiting c =
      if-each (λ x. Waiting x queues) _ _ (same_state (r.connections c).state idle)
        (set_connections-Waiting r queues w _) (set_connections-Waiting r queues w _)

  call_on-Queued :
      (caller : ℤ) (c : ℕ) (type : ℤ) (ins outs : Iovecs)
      → (r.connections c).service_index < r.service_count
      → Queued queues (call_on check_read check_write memory r caller c type ins outs)
  unfolding call_on
  call_on-Queued caller c type ins outs ls =
      if-each (Queued queues) _ _ (malformed type ins outs) (mark_error-Waiting c) (
        if-each (Queued queues) _ _ (not (same_state (r.connections c).state idle))
          (set_connections-Waiting r queues w _)
          (elim (Option-cases (alloc_message r)) [
            | inl e ↦ rw (e) w
            | inr ((m, r1), e) ↦
                let (lm, free, claim) = alloc_message-some r m r1 e in
                rw (e) (
                  rw claim (
                    queue_call-Queued c m _ ls lm free
                      (call_message-IsRequest caller c m type ins outs)))
          ]))

  call_on_handle-Queued :
      (caller handle : ℤ) (x : Result ℕ) (type : ℤ) (ins outs : Iovecs)
      → Serves r
      → connection_from_handle r caller handle ≡ x
      → Queued queues (call_from check_read check_write memory r caller type ins outs x)
  unfolding call_from
  call_on_handle-Queued caller handle (err e) type ins outs serves h = w
  call_on_handle-Queued caller handle (ok c) type ins outs serves h =
      call_on-Queued caller c type ins outs (serves c)

  -- `wt_ffm_call_begin` keeps the invariant, where every connection names a service that counts: a refusal leaves
  -- every queue as it was, and the request stands last in the queue of its service.
  pub call_begin-Queued :
      Serves r
      → (caller handle type : ℤ) (ins outs : Iovecs)
      → Queued queues (call_begin check_read check_write memory r caller handle type ins outs)
  unfolding call_begin
  call_begin-Queued serves caller handle type ins outs =
      if-each (Queued queues) _ _ (caller ==ℤ pos 0) w
        (call_on_handle-Queued caller handle _ type ins outs serves refl)
