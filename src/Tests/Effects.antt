-- ===== src/Tests/Effects.antt =====
-- The theorems about transfers, signals and the clean-up at the sample runtimes.
use wolf_trust_fork.Base.{
  inr, ℕ, ◌<◌, ◌≡◌, ◌≢◌, ◌⊎◌, refl, arith, false, pos, is_neg, some, find, find_from, bit_and,
}
use wolf_trust_fork.Ipc.Vectors.{
  validate_vectors, check_vectors, check_vector, validate_vector_list, check_limit,
}
use wolf_trust_fork.Ffm.State.{
  ok, err, FfmError, bad_policy, Runtime, queue_none, Message, max_connections, max_messages,
  max_iovec,
}
use wolf_trust_fork.Ffm.Handle.{decode_handle}
use wolf_trust_fork.Ffm.Lookup.{find_partition, held_by, client_connection_count}
use wolf_trust_fork.Ffm.Pools.{check_message, message_from_handle}
use wolf_trust_fork.Ffm.Queue.{update_service_signal}
use wolf_trust_fork.Ffm.Vectors.{load_vectors, prepare_vectors}
use wolf_trust_fork.Ffm.Vectors.Loaded.{Loads, prepare_vectors-Loads}
use wolf_trust_fork.Ffm.Service.{readable, read, written, write_output, write}
use wolf_trust_fork.Ffm.Service.Transfer.{Reads, read-Reads, Writes, write-Writes}
use wolf_trust_fork.Ffm.Finish.{call_finish}
use wolf_trust_fork.Ffm.Finish.Publish.{Published, call_finish-Published}
use wolf_trust_fork.Ffm.Recovery.{fail_client_connections}
use wolf_trust_fork.Ffm.Recovery.Cleanup.{sent_by, fail_client_connections-gone}
use wolf_trust_fork.Ffm.Signals.{
  psa_doorbell, deassert_in, notify, clear, eoi, not_one_bit, interrupt_signals,
}
use wolf_trust_fork.Ffm.Signals.Flags.{
  update_service_signal-Asserts, Asserts, Clears, notify-Asserts, clear-Clears, eoi-Clears,
}
use wolf_trust_fork.Tests.Samples.{
  fresh, waiting_runtime, serving_runtime, answered_runtime, call_message, client, message_0,
  one_vector, allow_all, memory,
}

may_read : readable serving_runtime (pos 3) message_0 0 ≡ some 0
unfolding message_from_handle check_message decode_handle
may_read = refl

read-Reads_example :
    let (r1, after, n) = read serving_runtime (pos 3) message_0 0 false memory 3 in
    Reads serving_runtime r1 0 0 3 n memory after
read-Reads_example = read-Reads serving_runtime (pos 3) message_0 0 memory 3 0 may_read

writes :
    write serving_runtime (pos 3) message_0 0 false memory 3
    ≡ ok (written serving_runtime 0 0 memory 3)
unfolding write write_output message_from_handle check_message decode_handle
writes = refl

write-Writes_example :
    (m : ℕ) × (message_from_handle serving_runtime (pos 3) message_0 ≡ ok m)
    × (false ≡ false)
    × (0 < max_iovec)
    × (is_neg (serving_runtime.messages m).type ≡ false)
    × (0 < (serving_runtime.messages m).out_count)
    × Writes serving_runtime (written serving_runtime 0 0 memory 3) m 0 3 memory
write-Writes_example =
    write-Writes serving_runtime (written serving_runtime 0 0 memory 3) (pos 3) message_0 0 false
      memory 3 (λ e. absurd (omega arith)) writes

call_finish-Published_example :
    Published allow_all answered_runtime 0
      (one_vector 2000)
      memory
      (call_finish allow_all answered_runtime 0 (one_vector 2000) memory)
call_finish-Published_example =
    call_finish-Published allow_all answered_runtime 0 (one_vector 2000) memory (omega arith)
      (λ i lt. inr refl)

fail_client_connections-gone_example :
    let (r1, freed) = fail_client_connections waiting_runtime client in
    (freed ≡ client_connection_count waiting_runtime client)
    × ((m : ℕ) → m < max_messages → sent_by r1 client m ≡ false)
    × ((c : ℕ) → c < max_connections → held_by r1 client c ≡ false)
fail_client_connections-gone_example = fail_client_connections-gone waiting_runtime client

notify-Asserts_example :
    ((e : FfmError) × (find_partition fresh (pos 3) ≡ err e)
      × (notify fresh (pos 3) ≡ err bad_policy))
    ⊎ ((p : ℕ) × (r1 : Runtime) × (find_partition fresh (pos 3) ≡ ok p)
        × (notify fresh (pos 3) ≡ ok r1)
        × Asserts fresh r1 p psa_doorbell)
notify-Asserts_example = notify-Asserts fresh (pos 3)

clears : clear fresh (pos 3) ≡ ok (deassert_in fresh 0 psa_doorbell)
unfolding clear find_partition find find_from
clears = refl

clear-Clears_example :
    (p : ℕ) × (find_partition fresh (pos 3) ≡ ok p)
    × (bit_and (fresh.partitions p).asserted_signals psa_doorbell ≢ 0)
    × Clears fresh (deassert_in fresh 0 psa_doorbell) p psa_doorbell
clear-Clears_example = clear-Clears fresh (deassert_in fresh 0 psa_doorbell) (pos 3) clears

ends : eoi fresh (pos 3) 32 ≡ ok (deassert_in fresh 0 32)
unfolding eoi find_partition find find_from interrupt_signals
ends = refl

eoi-Clears_example :
    (p : ℕ) × (find_partition fresh (pos 3) ≡ ok p)
    × (not_one_bit 32 ≡ false)
    × (bit_and 32 (
          interrupt_signals
            (fresh.partitions p).manifest
            (fresh.partitions p).manifest.interrupt_count
            0)
        ≢ 0)
    × (bit_and (fresh.partitions p).asserted_signals 32 ≢ 0)
    × Clears fresh (deassert_in fresh 0 32) p 32
eoi-Clears_example = eoi-Clears fresh (deassert_in fresh 0 32) (pos 3) 32 (omega arith) ends

abbrev loaded : Message
loaded = load_vectors memory call_message (one_vector 1000) (one_vector 2000)

prepares :
    prepare_vectors allow_all allow_all memory call_message (one_vector 1000) (one_vector 2000)
    ≡ ok loaded
unfolding prepare_vectors validate_vectors validate_vector_list check_vectors check_vector
    check_limit find find_from
prepares = refl

prepare_vectors-Loads_example :
    Loads allow_all allow_all memory client (one_vector 1000) (one_vector 2000) loaded
prepare_vectors-Loads_example =
    prepare_vectors-Loads allow_all allow_all memory call_message loaded (one_vector 1000)
      (one_vector 2000) prepares

update_service_signal-Asserts_example :
    ((waiting_runtime.services 0).queue_head ≡ queue_none
      → Clears waiting_runtime (update_service_signal waiting_runtime 0) 0 16)
    × ((waiting_runtime.services 0).queue_head ≢ queue_none
        → Asserts waiting_runtime (update_service_signal waiting_runtime 0) 0 16)
update_service_signal-Asserts_example =
    update_service_signal-Asserts waiting_runtime 0 (omega arith)
