-- ===== src/Tests/Samples.antt =====
-- Small runtimes: two partitions with one service each, and a client that calls the first service.
use wolf_trust_fork.Base.{
  ℕ, ◌+◌, ◌≡◌, ◌≢◌, refl, arith, Bool, true, false, List, [], ◌∷◌, none, ℤ, pos, if◌then◌else◌,
  ◌==◌,
}
use wolf_trust_fork.Ipc.State.{idle, active, pending_request}
use native.Mathlib.Decide.{ℕ_discrete as dec_eq}
use wolf_trust_fork.Ffm.Queue.Fifo.{IsQueue}
use wolf_trust_fork.Ffm.State.{
  Runtime, Connection, Message, Service, ServiceDescriptor, Partition, PartitionManifest, strict,
  ipc_model, queue_none, zeroed_connection, zeroed_message,
}
use wolf_trust_fork.Ffm.Vectors.{Iovecs}
use wolf_trust_fork.Ffm.Waiting.{Waiting, Serves}

abbrev pub descriptor : ℕ → ServiceDescriptor
descriptor sid = record {
  sid = sid;
  version = 1;
  version_policy = strict;
  signal = 16;
  nonsecure_clients = true;
  connection_based = true;
}

abbrev pub manifest_of : ℕ → ℕ → ℕ → PartitionManifest
manifest_of domain sid dependency = record {
  domain_id = domain;
  framework_version = 0x0100;
  model = ipc_model;
  services = λ _. descriptor sid;
  service_count = 1;
  dependencies = λ _. dependency;
  dependency_count = 1;
  interrupts = λ _. record { interrupt = 7; signal = 32 };
  interrupt_count = 1;
}

abbrev pub partition_of : PartitionManifest → Partition
partition_of m = record {
  manifest = m;
  dispatch = none;
  asserted_signals = 40;
  instance_number = 0;
  initialized = 0;
}

abbrev pub service_of : ℕ → ℕ → ℕ → Service
service_of sid partition head = record {
  descriptor = descriptor sid;
  partition_index = partition;
  queue_head = head;
  queue_tail = head;
}

-- Nothing is connected.
abbrev pub fresh : Runtime
fresh = record {
  partitions = λ p.
      if p == 0 then partition_of (manifest_of 3 100 200) else partition_of (manifest_of 4 200 100);
  services = λ s. if s == 0 then service_of 100 0 queue_none else service_of 200 1 queue_none;
  connections = λ _. zeroed_connection 1;
  messages = λ _. zeroed_message 1;
  partition_count = 2;
  service_count = 2;
  lifecycle = 0;
}

-- The client is partition 4, and connection 0 is its own.
abbrev pub client : ℤ
client = pos 4

abbrev pub connected : Connection
connected = record (zeroed_connection 1) { state = idle; caller = client; allocated = true }

abbrev pub idle_runtime : Runtime
idle_runtime = record fresh { connections = λ c. if c == 0 then connected else zeroed_connection 1 }

-- A call with one input and one output of four bytes.
abbrev pub call_message : Message
call_message = record (zeroed_message 1) {
  caller = client;
  in_count = 1;
  out_count = 1;
  in_size = λ _. 4;
  out_size = λ _. 4;
  client_output = λ _. 2000;
  input = λ k. k;
  allocated = true;
}

-- The call waits in the queue of service 0.
abbrev pub waiting_runtime : Runtime
waiting_runtime = record idle_runtime {
  services = λ s. if s == 0 then service_of 100 0 0 else service_of 200 1 queue_none;
  connections =
      λ c. if c == 0 then record connected { state = pending_request } else zeroed_connection 1;
  messages = λ m. if m == 0 then call_message else zeroed_message 1;
}

-- Partition 3 has the call.
abbrev pub serving_runtime : Runtime
serving_runtime = record idle_runtime {
  connections = λ c. if c == 0 then record connected { state = active } else zeroed_connection 1;
  messages = λ m. if m == 0 then record call_message { active = true } else zeroed_message 1;
}

-- The call is answered, with two bytes.
abbrev pub answered_runtime : Runtime
answered_runtime = record idle_runtime {
  messages = λ m.
      if m == 0
      then record call_message { complete = true; out_position = λ _. 2; output = λ k. k + 50 }
      else zeroed_message 1;
}

abbrev pub no_queues : ℕ → List ℕ
no_queues s = []

abbrev pub one_queue : ℕ → List ℕ
one_queue s = if s == 0 then 0 ∷ [] else []

-- The handles of connection 0 and of message 0, both of generation 1.
abbrev pub connection_0 : ℤ
connection_0 = pos 161

abbrev pub message_0 : ℤ
message_0 = pos 193

abbrev pub one_vector : ℕ → Iovecs
one_vector base = record { null = false; count = 1; at = λ _. record { base = base; length = 4 } }

abbrev pub allow_all : ℤ → ℕ → ℕ → Bool
allow_all caller base length = true

abbrev pub memory : ℕ → ℕ
memory a = a

pub fresh-Waiting : Waiting fresh no_queues
fresh-Waiting = record {
  each = λ s lt. record { links = ground arith; tail = ground arith; distinct = tt };
  waits = λ s m lt k. absurd (cc k);
  queued = λ m lt k. absurd (cc k);
  clear = λ m. refl;
}

pub idle_runtime-Waiting : Waiting idle_runtime no_queues
idle_runtime-Waiting = record {
  each = λ s lt. record { links = ground arith; tail = ground arith; distinct = tt };
  waits = λ s m lt k. absurd (cc k);
  queued = λ m lt k. absurd (cc k);
  clear = λ m. refl;
}

pub serving_runtime-Waiting : Waiting serving_runtime no_queues
serving_runtime-Waiting = record {
  each = λ s lt. record { links = ground arith; tail = ground arith; distinct = tt };
  waits = λ s m lt k. absurd (cc k);
  queued = λ m lt k. absurd (ground arith);
  clear = λ m. ground arith;
}

pub answered_runtime-Waiting : Waiting answered_runtime no_queues
answered_runtime-Waiting = record {
  each = λ s lt. record { links = ground arith; tail = ground arith; distinct = tt };
  waits = λ s m lt k. absurd (cc k);
  queued = λ m lt k. absurd (ground arith);
  clear = λ m. ground arith;
}

pub waiting_runtime-Waiting : Waiting waiting_runtime one_queue
waiting_runtime-Waiting = record {
  each = λ s lt. elim (dec_eq s 0) [
    | yes e ↦
        rw e (record { links = (refl, ground arith, refl); tail = refl; distinct = (refl, tt) })
    | no ne ↦ other s ne
  ];
  waits = λ s m lt k. ground arith;
  queued = λ m lt k. ground arith;
  clear = λ m. ground arith;
}
  where
    other : (s : ℕ) → s ≢ 0 → IsQueue waiting_runtime s (one_queue s)
    other s ne =
        let e : one_queue s ≡ [] = ground arith in
        rw e (record { links = ground arith; tail = ground arith; distinct = tt })

pub idle_runtime-Serves : Serves idle_runtime
idle_runtime-Serves c = ground arith

pub serving_runtime-Serves : Serves serving_runtime
serving_runtime-Serves c = ground arith
