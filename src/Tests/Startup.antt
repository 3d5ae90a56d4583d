-- ===== src/Tests/Startup.antt =====
-- The theorems about the manifest, restarts and the mutex at concrete inputs.
use wolf_trust_fork.Base.{
  ℕ, ◌+◌, ◌≤◌, ◌≡◌, refl, arith, true, false, ◌==◌, if◌then◌else◌, [], ◌∷◌, none, find, find_from,
  some, for_below,
}
use wolf_trust_fork.Ffm.Init.{SystemManifest}
use wolf_trust_fork.Manifest.Dependencies.{
  dependencies_valid, validate_dependencies, find_service_partition, build_edges, Edges, eliminate,
  start, sweep, sweep_round, has_edge,
}
use wolf_trust_fork.Manifest.Dependencies.Order.{Ended, start-IsElimination, eliminate_ends}
use wolf_trust_fork.Manifest.Dependencies.Graph.{Ordered, validate_dependencies-Ordered}
use wolf_trust_fork.Restart.Policy.{RestartCounters, restart_policy_evaluate}
use wolf_trust_fork.Restart.Recovery.{RecoveryOps, action_domain, recovery_decide, recovery_run}
use wolf_trust_fork.Restart.Budget.{restarts_at, Crashing, restarts_at-le}
use wolf_trust_fork.Ffm.Queue.Links.{remove}
use wolf_trust_fork.Mutex.{
  Mutex, mutex_init, take_mutex, mutex_acquire, mutex_release, mutex_release_if_holder,
  mutex_acquire_queued, acquire_blocked, mutex_remove_waiter, join_waiters,
}
use wolf_trust_fork.Mutex.Waiters.{IsMutex}
use wolf_trust_fork.Mutex.Acquire.{Acquired}
use wolf_trust_fork.Mutex.Handover.{Released, Forced, mutex_operations-IsMutex}
use wolf_trust_fork.Tests.Samples.{manifest_of}

-- Partition 0 offers service 100; partition 1 offers service 200 and depends on service 100.
abbrev layered : SystemManifest
layered = record {
  partitions = λ p.
      if p == 0
      then record (manifest_of 3 100 100) { dependency_count = 0 }
      else manifest_of 4 200 100;
  partition_count = 2;
  features = 0;
}

accepted : validate_dependencies layered ≡ dependencies_valid
unfolding validate_dependencies build_edges find_service_partition find find_from for_below
    eliminate sweep sweep_round has_edge
accepted = refl

validate_dependencies-Ordered_example : (rank : ℕ → ℕ) × Ordered layered rank
validate_dependencies-Ordered_example = validate_dependencies-Ordered layered accepted

-- Partition 1 depends on partition 0.
abbrev one_edge : Edges
one_edge i j = if i == 1 then j == 0 else false

eliminate_ends_example : Ended 2 one_edge 3 (start one_edge)
eliminate_ends_example =
    eliminate_ends 3 2 one_edge (start one_edge) (start-IsElimination 2 one_edge) (omega arith)

abbrev no_ops : RecoveryOps Unit
no_ops = record {
  release_locks = none;
  fail_messages = none;
  scrub_domain = none;
  restart = none;
  escalate = none;
}

abbrev no_restarts : RestartCounters
no_restarts = record { restart_count = 0; first_restart_tick = 0 }

crashes : Crashing no_ops action_domain 2 100 (10 ∷ 20 ∷ 30 ∷ []) (no_restarts, tt)
unfolding Crashing recovery_run recovery_decide restart_policy_evaluate
crashes = (refl, (refl, (refl, tt)))

restarts_at-le_example :
    0 + restarts_at no_ops action_domain 2 100 (10 ∷ 20 ∷ 30 ∷ []) (no_restarts, tt) ≤ 2
restarts_at-le_example =
    restarts_at-le no_ops action_domain 2 100 (10 ∷ 20 ∷ 30 ∷ []) no_restarts tt (omega arith)
      (omega arith) (omega arith) crashes

-- Coroutine 1 holds the mutex, and coroutine 2 has come to wait for it.
abbrev contended : Mutex
contended = record (take_mutex (mutex_init (λ c. none)) (some 1)) {
  wait_head = some 2;
  wait_tail = some 2;
  contend_count = 1;
}

contended-IsMutex : IsMutex contended (2 ∷ [])
contended-IsMutex = ((refl, refl), refl, (refl, tt), refl)

two_waiters : (mutex_acquire contended (some 3)).1.wait_tail ≡ some 3
unfolding mutex_acquire join_waiters
two_waiters = refl

mutex_operations-IsMutex_example :
    Acquired (some 1) (2 ∷ []) 3 (mutex_acquire contended (some 3))
    × Released true contended (2 ∷ []) (mutex_release contended (some 1))
    × Forced false contended (2 ∷ []) (mutex_release_if_holder contended 2)
    × (mutex_acquire_queued 3 contended 2 ≡ (acquire_blocked, contended))
    × IsMutex (mutex_remove_waiter 3 contended 2) []
unfolding remove
mutex_operations-IsMutex_example =
    mutex_operations-IsMutex contended (2 ∷ []) 3 2 3 (some 1) contended-IsMutex (ground arith) refl
      (omega arith)
