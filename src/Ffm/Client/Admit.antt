-- ===== src/Ffm/Client/Admit.antt =====
-- Who is let in by `wt_ffm_connect_begin`, and the quotas that it keeps.
use wolf_trust_fork.Base.{
  ℕ, ◌+◌, ◌≤◌, ◌<◌, ◌≡◌, ◌≢◌, inl, inr, refl, sym, ap, subst, arith, Bool, true, false, ◌&&◌,
  if◌then◌else◌, ℤ, pos, ◌==ℤ◌, ==ℤ_iff, ==ℤ_refl, is_neg, Option-cases, count_but_one,
}
use wolf_trust_fork.Ipc.State.{pending_connect}
use wolf_trust_fork.Ffm.State.{
  Runtime, Connection, Result-cases, ok, max_connections, max_connections_per_client,
  max_ns_connections, psa_error_invalid_argument,
}
use wolf_trust_fork.Ffm.Handle.{make_handle, connection_type}
use wolf_trust_fork.Ffm.Lookup.{
  find_partition, find_service, caller_allowed, version_allowed, client_connection_count,
  ns_connection_count, held_by, held_by_ns, caller_instance,
}
use wolf_trust_fork.Ffm.Pools.{alloc_connection, alloc_message, claim_connection, claim_message}
use wolf_trust_fork.Ffm.Pools.Alloc.{alloc_connection-some, alloc_message-some}
use wolf_trust_fork.Ffm.Queue.{enqueue, link_last, update_service_signal}
use wolf_trust_fork.Ffm.Client.{
  Admission, Admission-cases, admit, refuse, admit_service, admit_connect, Opened, opened,
  turned_away, post_connect, connect_message, open_connection, connect_begin,
}

-- What a connect must satisfy: a known client, a service with that identifier that the client may call
-- at that version and that takes connections, and room within the quotas.
pub record Admitted (r : Runtime) (client : ℤ) (sid wanted s : ℕ) : Type 0 where
  pub known : client ≢ pos 0
  pub service : find_service r sid ≡ ok s
  pub allowed : caller_allowed r client s ≡ true
  pub version : version_allowed (r.services s).descriptor wanted ≡ true
  pub connects : (r.services s).descriptor.connection_based ≡ true
  pub room : client_connection_count r client < max_connections_per_client
  pub ns_room : is_neg client ≡ true → ns_connection_count r < max_ns_connections

admit_service-admits :
    (r : Runtime) (client : ℤ) (sid s version t : ℕ)
    → client ≢ pos 0
    → find_service r sid ≡ ok s
    → admit_service r client s version ≡ admit t
    → (s ≡ t) × Admitted r client sid version s
unfolding admit_service
admit_service-admits r client sid s version t ne f h = (
  ground arith,
  record {
    known = ne;
    service = f;
    allowed = ground arith;
    version = ground arith;
    connects = ground arith;
    room = ground arith;
    ns_room = λ n. ground arith;
  },
)

unless_unknown :
    (b : Bool) (x : Admission) (s : ℕ)
    → (if b then refuse psa_error_invalid_argument else x) ≡ admit s
    → (b ≡ false) × (x ≡ admit s)
unless_unknown true x s h = absurd (cc h)
unless_unknown false x s h = (refl, h)

admit_connect-admits :
    (r : Runtime) (client : ℤ) (sid version s : ℕ)
    → admit_connect r client sid version ≡ admit s
    → Admitted r client sid version s
unfolding admit_connect
admit_connect-admits r client sid version s h = elim (Result-cases (find_service r sid)) [
  | inl (x, e) ↦ absurd (ground (arith, e, rw (e, admit_connect) at h))
  | inr (t, e) ↦
      let (known, rest) = unless_unknown (client ==ℤ pos 0) _ s (rw (e, admit_connect) at h) in
      let (same, admitted) =
        admit_service-admits r client sid t version s
          (λ z. ground (arith, known, (==ℤ_iff client (pos 0)).1 z)) e rest in
      subst (Admitted r client sid version) same admitted
]

-- A new connection of the client, and no other change of who holds what.
pub record Connected (r r1 : Runtime) (client : ℤ) (s c : ℕ) : Type 0 where
  pub bound : c < max_connections
  pub fresh : (r.connections c).allocated ≡ false
  pub taken : (r1.connections c).allocated ≡ true
  pub caller : (r1.connections c).caller ≡ client
  pub state : (r1.connections c).state ≡ pending_connect
  pub service : (r1.connections c).service_index ≡ s
  pub generation : (r1.connections c).generation ≡ (r.connections c).generation
  pub client_instance : (r1.connections c).client_instance ≡ caller_instance r client
  pub others : (j : ℕ) → c ≢ j → r1.connections j ≡ r.connections j

-- What a connect that is opened has done.
abbrev pub OpenedBy : Runtime → ℤ → ℕ → Opened → Type 0
OpenedBy r client s (turned_away r1 status) = Unit
OpenedBy r client s (opened r1 handle c m) =
    Connected r r1 client s c
    × (handle ≡ make_handle connection_type c (r.connections c).generation)

claimed_instance :
    (r : Runtime) (client : ℤ) (c m : ℕ)
    → caller_instance (claim_message (claim_connection r c) m) client ≡ caller_instance r client
unfolding caller_instance find_partition
claimed_instance r client c m = refl

post_connect-Connected :
    (r : Runtime) (client : ℤ) (s c m : ℕ)
    → c < max_connections
    → (r.connections c).allocated ≡ false
    → OpenedBy r client s (post_connect (claim_message (claim_connection r c) m) client s c m)
unfolding post_connect enqueue link_last update_service_signal
post_connect-Connected r client s c m lt free = (
  record {
    bound = lt;
    fresh = free;
    taken = ground arith;
    caller = ground arith;
    state = ground arith;
    service = ground arith;
    generation = ground arith;
    client_instance = ground (arith, claimed_instance r client c m);
    others = λ j ne. ground arith;
  },
  ap (make_handle connection_type c) (ground arith),
)

connect_message-OpenedBy :
    (r : Runtime) (client : ℤ) (s c : ℕ)
    → c < max_connections
    → (r.connections c).allocated ≡ false
    → OpenedBy r client s (connect_message (claim_connection r c) client s c)
unfolding connect_message
connect_message-OpenedBy r client s c lt free =
    elim (Option-cases (alloc_message (claim_connection r c))) [
      | inl e ↦ rw (e, connect_message) tt
      | inr ((m, r1), e) ↦
          let (lm, fm, claim) = alloc_message-some (claim_connection r c) m r1 e in
          rw (e, connect_message) (rw claim (post_connect-Connected r client s c m lt free))
    ]

open_connection-OpenedBy :
    (r : Runtime) (client : ℤ) (s : ℕ) → OpenedBy r client s (open_connection r client s)
unfolding open_connection
open_connection-OpenedBy r client s = elim (Option-cases (alloc_connection r)) [
  | inl e ↦ rw (e, open_connection) tt
  | inr ((c, r1), e) ↦
      let (lc, free, claim) = alloc_connection-some r c r1 e in
      rw (e, open_connection) (rw claim (connect_message-OpenedBy r client s c lc free))
]

opened-Connected :
    (r r1 : Runtime) (client handle : ℤ) (s c m : ℕ) (x : Opened)
    → x ≡ opened r1 handle c m
    → OpenedBy r client s x
    → Connected r r1 client s c
      × (handle ≡ make_handle connection_type c (r.connections c).generation)
opened-Connected r r1 client handle s c m x e o = subst (OpenedBy r client s) e o

-- A connect that `wt_ffm_connect_begin` opens was let in by the policy and the quotas; it takes one
-- connection slot that was free, in the name of the client, and leaves the others alone; the handle is
-- made of the slot's index and generation.
pub connect_begin-Connected :
    (r r1 : Runtime) (client handle : ℤ) (sid version c m : ℕ)
    → connect_begin r client sid version ≡ opened r1 handle c m
    → (s : ℕ) × Admitted r client sid version s
      × Connected r r1 client s c
      × (handle ≡ make_handle connection_type c (r.connections c).generation)
unfolding connect_begin
connect_begin-Connected r r1 client handle sid version c m h =
    elim (Admission-cases (admit_connect r client sid version)) [
      | inl (status, e) ↦ absurd (cc (rw (e, connect_begin) at h))
      | inr (s, e) ↦
          let (connected, made) =
            opened-Connected r r1 client handle s c m (open_connection r client s)
              (rw (e, connect_begin) at h) (open_connection-OpenedBy r client s) in
          (s, admit_connect-admits r client sid version s e, connected, made)
    ]

-- A connect that is opened keeps the quotas: the client has one connection more, at most
-- `max_connections_per_client`, and a Non-secure client brings the connections of all Non-secure clients
-- to at most `max_ns_connections`.
pub connect_begin-quotas :
    (r r1 : Runtime) (client handle : ℤ) (sid version c m : ℕ)
    → connect_begin r client sid version ≡ opened r1 handle c m
    → (client_connection_count r1 client ≡ client_connection_count r client + 1)
      × (client_connection_count r1 client ≤ max_connections_per_client)
      × (is_neg client ≡ true → ns_connection_count r1 ≤ max_ns_connections)
unfolding client_connection_count ns_connection_count
connect_begin-quotas r r1 client handle sid version c m h =
    let (s, admitted, connected, made) =
      connect_begin-Connected r r1 client handle sid version c m h in
    let held =
      count_but_one (held_by r client) (held_by r1 client) max_connections c connected.bound
        (λ j lt ne.
          ap (λ (x : Connection). x.allocated && x.caller ==ℤ client)
            (sym (connected.others j ne))) in
    let held_ns =
      count_but_one (held_by_ns r) (held_by_ns r1) max_connections c connected.bound (λ j lt ne.
        ap (λ (x : Connection). x.allocated && is_neg x.caller) (sym (connected.others j ne))) in
    let mine : held_by r1 client c ≡ true =
      rw (connected.taken, connected.caller) (==ℤ_refl client) in
    let other : held_by r client c ≡ false = rw (connected.fresh) refl in
    let ns : is_neg (r1.connections c).caller ≡ is_neg client = ap is_neg connected.caller in
    let room = admitted.room in
    let one : client_connection_count r1 client ≡ client_connection_count r client + 1 =
      ground (arith, held, mine, other) in
    (
      one,
      omega (arith, one, room),
      λ n. ground (arith, held_ns, ns, connected.taken, connected.fresh, admitted.ns_room n),
    )
