-- ===== src/Tests/Slots.antt =====
-- The theorems about handles, slots and quotas at the sample runtimes.
use wolf_trust_fork.Base.{
  ℕ, ◌+◌, ◌^◌, ◌≤◌, ◌<◌, ◌≡◌, refl, arith, true, pos, is_neg, find, find_from, count,
}
use wolf_trust_fork.Ffm.State.{
  ok, err, bad_handle, Runtime, max_connections, max_messages, max_connections_per_client,
  max_ns_connections,
}
use wolf_trust_fork.Ffm.Handle.{make_handle, decode_handle, connection_type, message_type}
use wolf_trust_fork.Ffm.Handle.RoundTrip.{decode_handle-make_handle}
use wolf_trust_fork.Ffm.Lookup.{
  find_partition, find_service, caller_instance, caller_allowed, version_allowed,
  client_connection_count, ns_connection_count,
}
use wolf_trust_fork.Ffm.Pools.{
  alloc_connection, alloc_message, claim_connection, release_connection, check_connection,
  connection_from_handle, check_message, message_from_handle, owner_domain, same_domain,
}
use wolf_trust_fork.Ffm.Pools.Handle.{
  Holds, connection_from_handle-Holds, connection_from_handle-release_connection,
  message_from_handle-ok,
}
use wolf_trust_fork.Ffm.Client.{
  Opened, opened, turned_away, admit_service, admit_connect, post_connect, connect_message,
  open_connection, connect_begin,
}
use wolf_trust_fork.Ffm.Client.Admit.{
  Admitted, Connected, connect_begin-Connected, connect_begin-quotas,
}
use wolf_trust_fork.Tests.Samples.{
  fresh, idle_runtime, serving_runtime, client, connection_0, message_0,
}

decode_handle-make_handle_example :
    (decode_handle (make_handle 1 5 77) 1 16 ≡ ok (5, 77))
    × ((n : ℕ) × (make_handle 1 5 77 ≡ pos n) × (0 < n) × (n < 2 ^ 31))
decode_handle-make_handle_example =
    decode_handle-make_handle 1 5 77 16 (omega arith) (omega arith) (omega arith) (omega arith)
      (omega arith)

accepted : connection_from_handle idle_runtime client connection_0 ≡ ok 0
unfolding connection_from_handle check_connection decode_handle caller_instance find_partition find
    find_from
accepted = refl

connection_from_handle-Holds_example :
    (0 < max_connections)
    × ((generation : ℕ) × (decode_handle connection_0 connection_type max_connections
          ≡ ok (0, generation))
        × Holds idle_runtime client generation 0)
connection_from_handle-Holds_example =
    connection_from_handle-Holds idle_runtime client connection_0 0 accepted

-- Connection 0 is released, and given out again.
abbrev again : Runtime
again = claim_connection (release_connection idle_runtime 0) 0

connection_from_handle-release_connection_example :
    connection_from_handle again client connection_0 ≡ err bad_handle
unfolding alloc_connection find find_from release_connection
connection_from_handle-release_connection_example =
    connection_from_handle-release_connection idle_runtime client connection_0 0 0 again client
      accepted (omega arith) refl

served : message_from_handle serving_runtime (pos 3) message_0 ≡ ok 0
unfolding message_from_handle check_message decode_handle
served = refl

message_from_handle-ok_example :
    (0 < max_messages)
    × ((serving_runtime.messages 0).allocated ≡ true)
    × ((serving_runtime.messages 0).active ≡ true)
    × (decode_handle message_0 message_type max_messages
        ≡ ok (0, (serving_runtime.messages 0).generation))
    × (same_domain (owner_domain serving_runtime (serving_runtime.messages 0).service_index) (pos 3)
        ≡ true)
message_from_handle-ok_example = message_from_handle-ok serving_runtime (pos 3) message_0 0 served

abbrev runtime_of : Opened → Runtime
runtime_of (opened r handle c m) = r
runtime_of (turned_away r status) = r

abbrev joined : Runtime
joined = runtime_of (connect_begin fresh client 100 1)

joins : connect_begin fresh client 100 1 ≡ opened joined (make_handle 1 0 1) 0 0
unfolding connect_begin admit_connect admit_service find_service caller_allowed version_allowed
    client_connection_count ns_connection_count open_connection alloc_connection connect_message
    alloc_message post_connect find find_from count
joins = refl

connect_begin-Connected_example :
    (s : ℕ) × Admitted fresh client 100 1 s
    × Connected fresh joined client s 0
    × (make_handle 1 0 1 ≡ make_handle connection_type 0 1)
connect_begin-Connected_example =
    connect_begin-Connected fresh joined client (make_handle 1 0 1) 100 1 0 0 joins

connect_begin-quotas_example :
    (client_connection_count joined client ≡ client_connection_count fresh client + 1)
    × (client_connection_count joined client ≤ max_connections_per_client)
    × (is_neg client ≡ true → ns_connection_count joined ≤ max_ns_connections)
connect_begin-quotas_example =
    connect_begin-quotas fresh joined client (make_handle 1 0 1) 100 1 0 0 joins
