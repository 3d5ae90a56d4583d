-- ===== src/Tests/Sessions.antt =====
-- The theorems about src/ipc.c at concrete connections and vectors.
use wolf_trust_fork.Base.{ℕ, ◌+◌, ◌≤◌, ◌<◌, ◌≡◌, ◌≢◌, refl, arith, false}
use wolf_trust_fork.Ipc.State.{pending_connect, connecting, connect_accept, max_vectors, size_max}
use wolf_trust_fork.Ipc.Vectors.{
  Vector, check_vector, check_vectors, validate_vector_list, check_limit, validate_vectors,
}
use wolf_trust_fork.Ipc.Vectors.Total.{lengths, Addressable, validate_vectors-valid}
use wolf_trust_fork.Ipc.Connection.{
  Handle, Connection, connection_handle, handle_matches, apply_event, moved, transition,
}
use wolf_trust_fork.Ipc.Connection.Guard.{Edge, accepted, Admits, transition-Edge, transition-moves}

abbrev vectors : ℕ → Vector
vectors j = record { base = 0x1000; length = 16 }

abbrev limit : ℕ
limit = 64

validate_vectors-valid_example :
    (2 + 1 ≤ max_vectors)
    × (48 ≡ lengths vectors 2 + lengths vectors 1)
    × (48 ≤ size_max)
    × (limit ≢ 0 → 48 ≤ limit)
    × ((j : ℕ) → j < 2 → Addressable (vectors j))
    × ((j : ℕ) → j < 1 → Addressable (vectors j))
unfolding validate_vectors validate_vector_list check_vectors check_vector check_limit
validate_vectors-valid_example =
    validate_vectors-valid false vectors 2 false vectors 1 limit 48 refl

abbrev handle : Handle
handle = record { value = 9; generation = 2; owner_id = 5; type = connection_handle }

abbrev session : Connection
session = record {
  state = pending_connect;
  handle = handle;
  service_sid = 100;
  service_version = 1;
  owner_id = 5;
  stateless = false;
}

abbrev accepted_session : Connection
accepted_session = record session { state = connecting }

transition-Edge_example :
    Admits session 5 handle × Edge false pending_connect connect_accept connecting
unfolding transition apply_event handle_matches
transition-Edge_example = transition-Edge session accepted_session 5 handle connect_accept refl

owner_shows_handle : Admits session 5 handle
unfolding handle_matches
owner_shows_handle = record { caller = λ e. absurd (omega arith); owner = refl; handle = refl }

transition-moves_example :
    (d : Connection) × (transition session 5 handle connect_accept ≡ moved d)
    × (d.state ≡ connecting)
transition-moves_example =
    transition-moves session 5 handle connect_accept connecting owner_shows_handle accepted
