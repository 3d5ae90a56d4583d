-- ===== src/Ipc/Connection/Guard.antt =====
-- Who may move a connection of src/ipc.c, and between which states.
use wolf_trust_fork.Base.{
  ℕ, ◌≡◌, ◌≢◌, inl, inr, refl, sym, ap, ◌∙◌, arith, Bool, Bool-cases, true, false, ◌==◌,
  if◌then◌else◌,
}
use wolf_trust_fork.Ipc.State.{
  ConnectionState, free, pending_connect, connecting, idle, pending_request, active, disconnecting,
  error, terminal, same_state, state_value, ConnectionEvent, connect_accept, connect_complete,
  request, request_active, reply, close, close_complete, fail, abort, bad_state,
}
use wolf_trust_fork.Ipc.Connection.{
  Handle, Connection, zeroed, handle_matches, apply_event, move_if, moved, refused, transition,
}

-- The state diagram of a connection. A stateless connection skips the edges that need a session.
pub data Edge : Bool → ConnectionState → ConnectionEvent → ConnectionState → Type 0 where
  accepted : Edge false pending_connect connect_accept connecting
  completed : Edge false connecting connect_complete idle
  requested : (b : Bool) → Edge b idle request pending_request
  started : (b : Bool) → Edge b pending_request request_active active
  replied : (b : Bool) → Edge b active reply idle
  closing : Edge false idle close disconnecting
  closed : (b : Bool) → Edge b disconnecting close_complete free
  failed : (b : Bool) (s : ConnectionState) → s ≢ free → s ≢ terminal → Edge b s fail error
  aborted : (b : Bool) (s : ConnectionState) → s ≢ free → s ≢ terminal → Edge b s abort terminal

-- The caller owns the connection and shows its handle.
pub record Admits (c : Connection) (client : ℕ) (h : Handle) : Type 0 where
  pub caller : client ≢ 0
  pub owner : client ≡ c.owner_id
  pub handle : handle_matches c.handle h ≡ true

-- The state of a value of the enumeration.
abbrev state_of : ℕ → ConnectionState
state_of n =
    if n == 0
    then free
    else if n == 1
    then pending_connect
    else if n == 2
    then connecting
    else if n == 3
    then idle
    else if n == 4
    then pending_request
    else if n == 5
    then active
    else if n == 6
    then disconnecting
    else if n == 7
    then error
    else terminal

state_of-state_value : (a : ConnectionState) → state_of (state_value a) ≡ a
state_of-state_value free = refl
state_of-state_value pending_connect = refl
state_of-state_value connecting = refl
state_of-state_value idle = refl
state_of-state_value pending_request = refl
state_of-state_value active = refl
state_of-state_value disconnecting = refl
state_of-state_value error = refl
state_of-state_value terminal = refl

same_state_sound : (a b : ConnectionState) → same_state a b ≡ true → a ≡ b
same_state_sound a b h =
    let e : state_value a ≡ state_value b = ground arith in
    sym (state_of-state_value a) ∙ ap state_of e ∙ state_of-state_value b

same_state-not : (a b : ConnectionState) → same_state a b ≡ false → a ≢ b
same_state-not a b h e = ground (arith, ap state_value e)

move_if-moved :
    (b : Bool) (c : Connection) (s : ConnectionState) (d : Connection)
    → move_if b c s ≡ moved d
    → (b ≡ true) × (s ≡ d.state)
move_if-moved true c s d h = (refl, ap (λ x. elim x [ moved e ↦ e.state | refused e ↦ s ]) h)
move_if-moved false c s d h = absurd (cc h)

zeroed_if-moved :
    (b : Bool) (d : Connection)
    → (if b then moved zeroed else refused bad_state) ≡ moved d
    → (b ≡ true) × (free ≡ d.state)
zeroed_if-moved true d h = (refl, ap (λ x. elim x [ moved e ↦ e.state | refused e ↦ free ]) h)
zeroed_if-moved false d h = absurd (cc h)

-- An edge between states that are given by equations.
edge :
    (c d : Connection) (event : ConnectionEvent) (b : Bool) (s t : ConnectionState)
    → c.stateless ≡ b
    → c.state ≡ s
    → t ≡ d.state
    → Edge b s event t
    → Edge c.stateless c.state event d.state
edge c d event b s t eb es et e = rw (eb, es, ← et) e

apply_event-Edge :
    (c d : Connection) (event : ConnectionEvent)
    → apply_event c event ≡ moved d
    → Edge c.stateless c.state event d.state
unfolding apply_event
apply_event-Edge c d connect_accept h =
    let (b, e) = move_if-moved _ c connecting d h in
    edge c d connect_accept false pending_connect connecting (ground arith)
      (same_state_sound c.state pending_connect (ground arith)) e accepted
apply_event-Edge c d connect_complete h =
    let (b, e) = move_if-moved _ c idle d h in
    edge c d connect_complete false connecting idle (ground arith)
      (same_state_sound c.state connecting (ground arith)) e completed
apply_event-Edge c d request h =
    let (b, e) = move_if-moved _ c pending_request d h in
    edge c d request c.stateless idle pending_request refl (same_state_sound c.state idle b) e
      (requested c.stateless)
apply_event-Edge c d request_active h =
    let (b, e) = move_if-moved _ c active d h in
    edge c d request_active c.stateless pending_request active refl
      (same_state_sound c.state pending_request b) e (started c.stateless)
apply_event-Edge c d reply h =
    let (b, e) = move_if-moved _ c idle d h in
    edge c d reply c.stateless active idle refl (same_state_sound c.state active b) e
      (replied c.stateless)
apply_event-Edge c d close h =
    let (b, e) = move_if-moved _ c disconnecting d h in
    edge c d close false idle disconnecting (ground arith)
      (same_state_sound c.state idle (ground arith)) e closing
apply_event-Edge c d close_complete h =
    let (b, e) = zeroed_if-moved _ d h in
    edge c d close_complete c.stateless disconnecting free refl
      (same_state_sound c.state disconnecting b) e (closed c.stateless)
apply_event-Edge c d fail h =
    let (b, e) = move_if-moved _ c error d h in
    edge c d fail c.stateless c.state error refl refl e (
      failed c.stateless c.state (same_state-not c.state free (ground arith))
        (same_state-not c.state terminal (ground arith)))
apply_event-Edge c d abort h =
    let (b, e) = move_if-moved _ c terminal d h in
    edge c d abort c.stateless c.state terminal refl refl e (
      aborted c.stateless c.state (same_state-not c.state free (ground arith))
        (same_state-not c.state terminal (ground arith)))

-- `wt_ipc_connection_transition` moves a connection only for the caller that owns it and shows its
-- handle, and only along an edge of the state diagram.
pub transition-Edge :
    (c d : Connection) (caller : ℕ) (h : Handle) (event : ConnectionEvent)
    → transition c caller h event ≡ moved d
    → Admits c caller h × Edge c.stateless c.state event d.state
unfolding transition
transition-Edge c d caller h event e = (
  record { caller = ground arith; owner = ground arith; handle = ground arith },
  apply_event-Edge c d event (ground arith),
)

not_same : (a b : ConnectionState) → a ≢ b → same_state a b ≡ false
not_same a b ne = elim (Bool-cases (same_state a b)) [
  | inl e ↦ absurd (ne (same_state_sound a b e))
  | inr e ↦ e
]

apply_event-moves :
    (c : Connection) (b : Bool) (s : ConnectionState) (event : ConnectionEvent)
    (t : ConnectionState)
    → Edge b s event t
    → c.stateless ≡ b
    → c.state ≡ s
    → (d : Connection) × (apply_event c event ≡ moved d) × (d.state ≡ t)
unfolding apply_event
apply_event-moves c b s event t accepted eb es =
    (record c { state = connecting }, rw (eb, es) refl, refl)
apply_event-moves c b s event t completed eb es =
    (record c { state = idle }, rw (eb, es) refl, refl)
apply_event-moves c b s event t (requested _) eb es =
    (record c { state = pending_request }, rw (es) refl, refl)
apply_event-moves c b s event t (started _) eb es =
    (record c { state = active }, rw (es) refl, refl)
apply_event-moves c b s event t (replied _) eb es = (record c { state = idle }, rw (es) refl, refl)
apply_event-moves c b s event t closing eb es =
    (record c { state = disconnecting }, rw (eb, es) refl, refl)
apply_event-moves c b s event t (closed _) eb es = (zeroed, rw (es) refl, refl)
apply_event-moves c b s event t (failed _ _ f g) eb es = (
  record c { state = error },
  rw (es) (ground (arith, not_same s free f, not_same s terminal g)),
  refl,
)
apply_event-moves c b s event t (aborted _ _ f g) eb es = (
  record c { state = terminal },
  rw (es) (ground (arith, not_same s free f, not_same s terminal g)),
  refl,
)

-- The converse: every edge of the diagram is taken, for a caller that owns the connection and shows its
-- handle, and the connection is in the edge's state then.
pub transition-moves :
    (c : Connection) (caller : ℕ) (h : Handle) (event : ConnectionEvent) (s : ConnectionState)
    → Admits c caller h
    → Edge c.stateless c.state event s
    → (d : Connection) × (transition c caller h event ≡ moved d) × (d.state ≡ s)
unfolding transition
transition-moves c caller h event s a e =
    let (d, m, t) = apply_event-moves c c.stateless c.state event s e refl refl in
    (d, ground (arith, m, a.caller, a.owner, a.handle), t)
