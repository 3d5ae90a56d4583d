-- ===== src/Ffm/Pools/Handle.antt =====
-- What a handle that is accepted says of its slot, and what becomes of it when the slot is released.
use wolf_trust_fork.Base.{
  ℕ, ◌^◌, ◌<◌, ◌≡◌, ◌≢◌, arith, true, ℤ, ==ℤ_iff, sym, ap, ◌∙◌, subst, some, inl, inr,
}
use wolf_trust_fork.Ffm.State.{
  Runtime, Result-cases, ok, err, bad_handle, ok-injective, max_connections, max_messages,
}
use wolf_trust_fork.Ffm.Handle.{decode_handle, connection_type, message_type, next_generation}
use wolf_trust_fork.Ffm.Handle.RoundTrip.{decode_handle_bounds, next_generation_lem}
use wolf_trust_fork.Ffm.Pools.Alloc.{alloc_connection-some}
use wolf_trust_fork.Ffm.Lookup.{caller_instance}
use wolf_trust_fork.Ffm.Pools.{
  alloc_connection, claim_connection, check_connection, connection_from_handle, release_connection,
  check_message, message_from_handle, owner_domain, same_domain,
}

-- The connection at a slot is in use, by this caller in its current instance, and has this generation.
pub record Holds (r : Runtime) (client : ℤ) (at c : ℕ) : Type 0 where
  pub allocated : (r.connections c).allocated ≡ true
  pub generation : (r.connections c).generation ≡ at
  pub caller : (r.connections c).caller ≡ client
  pub client_instance : (r.connections c).client_instance ≡ caller_instance r client

pub check_connection-ok :
    (r : Runtime) (caller : ℤ) (index generation c : ℕ)
    → check_connection r caller index generation ≡ ok c
    → (index ≡ c) × Holds r caller generation index
unfolding check_connection
check_connection-ok r caller index generation c h = (
  ok-injective index c (ground arith),
  record {
    allocated = ground arith;
    generation = ground arith;
    caller = ground (arith, ==ℤ_iff (r.connections index).caller caller);
    client_instance = ground arith;
  },
)

check_message-ok :
    (r : Runtime) (partition_id : ℤ) (index generation m : ℕ)
    → check_message r partition_id index generation ≡ ok m
    → (index ≡ m)
      × ((r.messages index).allocated ≡ true)
      × ((r.messages index).active ≡ true)
      × ((r.messages index).generation ≡ generation)
      × (same_domain (owner_domain r (r.messages index).service_index) partition_id ≡ true)
unfolding check_message
check_message-ok r partition_id index generation m h =
    (ok-injective index m (ground arith), ground arith, ground arith, ground arith, ground arith)

-- A handle that is accepted is a handle of the connection: it is read as the index and the generation
-- of a slot that is in use, by this caller, in its current instance.
pub connection_from_handle-Holds :
    (r : Runtime) (caller handle : ℤ) (c : ℕ)
    → connection_from_handle r caller handle ≡ ok c
    → (c < max_connections)
      × ((generation : ℕ) × (decode_handle handle connection_type max_connections
            ≡ ok (c, generation))
          × Holds r caller generation c)
unfolding connection_from_handle
connection_from_handle-Holds r caller handle c h =
    elim (Result-cases (decode_handle handle connection_type max_connections)) [
      | inl (e, x) ↦ absurd (ground (arith, x))
      | inr ((index, generation), x) ↦
          let (same, holds) =
            check_connection-ok r caller index generation c (rw (x, connection_from_handle) at h) in
          (subst
            (λ i.
              (i < max_connections)
              × ((g : ℕ) × (decode_handle handle connection_type max_connections ≡ ok (i, g))
                  × Holds r caller g i))
            same
            (
              (decode_handle_bounds handle connection_type max_connections index generation x).0,
              (generation, x, holds),
            ))
    ]

-- A message handle that is accepted is a handle of a message that its partition has: it is read as the
-- index and the generation of a slot that is in use and active, for a service of that partition.
pub message_from_handle-ok :
    (r : Runtime) (partition_id handle : ℤ) (m : ℕ)
    → message_from_handle r partition_id handle ≡ ok m
    → (m < max_messages)
      × ((r.messages m).allocated ≡ true)
      × ((r.messages m).active ≡ true)
      × (decode_handle handle message_type max_messages ≡ ok (m, (r.messages m).generation))
      × (same_domain (owner_domain r (r.messages m).service_index) partition_id ≡ true)
unfolding message_from_handle
message_from_handle-ok r partition_id handle m h =
    elim (Result-cases (decode_handle handle message_type max_messages)) [
      | inl (e, x) ↦ absurd (ground (arith, x))
      | inr ((index, generation), x) ↦
          let (same, taken, active, now, owner) =
            check_message-ok r partition_id index generation m (rw (x, message_from_handle) at h) in
          let lt = (decode_handle_bounds handle message_type max_messages index generation x).0 in
          subst
            (λ i.
              (i < max_messages)
              × ((r.messages i).allocated ≡ true)
              × ((r.messages i).active ≡ true)
              × (decode_handle handle message_type max_messages ≡ ok (i, (r.messages i).generation))
              × (same_domain (owner_domain r (r.messages i).service_index) partition_id ≡ true))
            same (lt, taken, active, rw now x, owner)
    ]

-- A handle of another generation than the slot has.
stale :
    (r : Runtime) (caller handle : ℤ) (c generation : ℕ)
    → decode_handle handle connection_type max_connections ≡ ok (c, generation)
    → (r.connections c).generation ≢ generation
    → connection_from_handle r caller handle ≡ err bad_handle
unfolding connection_from_handle check_connection
stale r caller handle c generation e ne = rw (e, connection_from_handle) (ground arith)

released_generation :
    (r : Runtime) (c d : ℕ)
    → ((claim_connection (release_connection r c) d).connections c).generation
      ≡ next_generation (r.connections c).generation
unfolding release_connection
released_generation r c d = ground arith

-- A connection handle was accepted, for a slot whose generation is below 2^24. Once that slot is
-- released and a slot is allocated next, the handle is refused for every caller.
pub connection_from_handle-release_connection :
    (r : Runtime) (caller handle : ℤ) (c d : ℕ) (next : Runtime) (other : ℤ)
    → connection_from_handle r caller handle ≡ ok c
    → (r.connections c).generation < 2 ^ 24
    → alloc_connection (release_connection r c) ≡ some (d, next)
    → connection_from_handle next other handle ≡ err bad_handle
connection_from_handle-release_connection r caller handle c d next other h lt e =
    let (ld, free, claim) = alloc_connection-some (release_connection r c) d next e in
    let (lc, (generation, read, holds)) = connection_from_handle-Holds r caller handle c h in
    let (low, high, changed) = next_generation_lem (r.connections c).generation lt in
    stale next other handle c generation read (λ same. changed (
      sym (released_generation r c d)
      ∙ ap (λ (x : Runtime). (x.connections c).generation) (sym claim)
      ∙ same
      ∙ sym holds.generation))
