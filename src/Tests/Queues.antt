-- ===== src/Tests/Queues.antt =====
-- The theorems about queues at the sample runtimes.
use wolf_trust_fork.Base.{◌≡◌, refl, arith, true, [], ◌∷◌, pos}
use wolf_trust_fork.Ffm.State.{ok, Runtime, psa_success, max_messages}
use wolf_trust_fork.Ffm.Queue.{enqueue, dequeue_message}
use wolf_trust_fork.Ffm.Queue.Links.{remove}
use wolf_trust_fork.Ffm.Queue.Fifo.{IsQueue, enqueue-IsQueue, dequeue_message-IsQueue}
use wolf_trust_fork.Ffm.Client.{connect_begin, call_begin, close_begin}
use wolf_trust_fork.Ffm.Service.{reply}
use wolf_trust_fork.Ffm.Finish.{msg_complete, connect_finish, call_finish, close_finish}
use wolf_trust_fork.Ffm.Recovery.{fail_client_connections}
use wolf_trust_fork.Ffm.Init.{SystemManifest, count_services, init, fill_runtime}
use wolf_trust_fork.Ffm.Init.Empty.{Started, init-Waiting}
use wolf_trust_fork.Ffm.Waiting.{Waiting}
use wolf_trust_fork.Ffm.Waiting.Client.{Queued, connect_begin-Queued, call_begin-Queued}
use wolf_trust_fork.Ffm.Waiting.Close.{ClosingQueued, close_begin-Queued}
use wolf_trust_fork.Ffm.Waiting.Serve.{ReplyKeeps, reply-Waiting}
use wolf_trust_fork.Ffm.Waiting.Finish.{finish-Waiting}
use wolf_trust_fork.Ffm.Waiting.Withdraw.{without, fail_client_connections-without}
use wolf_trust_fork.Tests.Samples.{
  fresh, fresh-Waiting, idle_runtime, idle_runtime-Waiting, idle_runtime-Serves, serving_runtime,
  serving_runtime-Waiting, serving_runtime-Serves, answered_runtime, answered_runtime-Waiting,
  waiting_runtime, waiting_runtime-Waiting, no_queues, one_queue, client, connection_0, message_0,
  one_vector, allow_all, memory, manifest_of,
}

connect_begin-Queued_example : Queued no_queues (connect_begin fresh client 100 1)
connect_begin-Queued_example = connect_begin-Queued fresh no_queues fresh-Waiting client 100 1

call_begin-Queued_example : Queued no_queues (
    call_begin allow_all allow_all memory idle_runtime client connection_0
      (pos 0)
      (one_vector 1000)
      (one_vector 2000))
call_begin-Queued_example =
    call_begin-Queued allow_all allow_all memory idle_runtime no_queues idle_runtime-Waiting
      idle_runtime-Serves client connection_0 (pos 0) (one_vector 1000) (one_vector 2000)

close_begin-Queued_example : ClosingQueued no_queues (close_begin idle_runtime client connection_0)
close_begin-Queued_example =
    close_begin-Queued idle_runtime no_queues idle_runtime-Waiting idle_runtime-Serves client
      connection_0

reply-Waiting_example :
    ReplyKeeps no_queues serving_runtime
      (pos 3)
      message_0
      psa_success
      (reply serving_runtime (pos 3) message_0 psa_success)
reply-Waiting_example =
    reply-Waiting serving_runtime no_queues serving_runtime-Waiting serving_runtime-Serves (pos 3)
      message_0 psa_success

answered : msg_complete answered_runtime 0 ≡ true
unfolding msg_complete
answered = refl

finish-Waiting_example :
    Waiting (connect_finish answered_runtime 0).0 no_queues
    × Waiting (call_finish allow_all answered_runtime 0 (one_vector 2000) memory).runtime no_queues
    × ((r1 : Runtime) × (close_finish answered_runtime 0 ≡ ok r1) × Waiting r1 no_queues)
finish-Waiting_example =
    finish-Waiting answered_runtime no_queues answered_runtime-Waiting 0 answered allow_all
      (one_vector 2000) memory

fail_client_connections-without_example :
    Waiting
      (fail_client_connections waiting_runtime client).0
      (λ s. without waiting_runtime client max_messages (one_queue s))
fail_client_connections-without_example =
    fail_client_connections-without waiting_runtime one_queue client waiting_runtime-Waiting

without_all : without waiting_runtime client max_messages (one_queue 0) ≡ []
unfolding without remove
without_all = refl

abbrev two_partitions : SystemManifest
two_partitions = record {
  partitions = λ _. manifest_of 3 100 200;
  partition_count = 2;
  features = 0;
}

init-Waiting_example : Started two_partitions (fill_runtime two_partitions 2).0
unfolding init count_services
init-Waiting_example = init-Waiting two_partitions (fill_runtime two_partitions 2).0 refl

waiting-IsQueue : IsQueue waiting_runtime 0 (0 ∷ [])
waiting-IsQueue = waiting_runtime-Waiting.each 0 (omega arith)

enqueue-IsQueue_example : IsQueue (enqueue waiting_runtime 0 5) 0 (0 ∷ 5 ∷ [])
enqueue-IsQueue_example =
    enqueue-IsQueue waiting_runtime 0 5 (0 ∷ []) waiting-IsQueue (omega arith) refl refl

dequeue_message-IsQueue_example :
    IsQueue (dequeue_message waiting_runtime 0 0) 0 (remove 0 (0 ∷ []))
dequeue_message-IsQueue_example =
    dequeue_message-IsQueue waiting_runtime 0 0 (0 ∷ []) waiting-IsQueue
