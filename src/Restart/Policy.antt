-- ===== src/Restart/Policy.antt =====
-- src/restart_policy.c: the restart budget of a domain.
use wolf_trust_fork.Base.{ℕ, ◌+◌, ◌-◌, ◌%◌, ◌^◌, ◌&&◌, ltb, leb, if◌then◌else◌}

-- `wt_restart_decision_t`
pub data RestartDecision : Type 0 where
  decision_restart decision_fault : RestartDecision

-- The two counters that the caller keeps for the domain. The second holds the tick of the last restart.
pub record RestartCounters : Type 0 where
  pub restart_count : ℕ
  pub first_restart_tick : ℕ

-- `monotonic_ticks - *first_restart_tick` on 32 bits
abbrev pub ticks_since : ℕ → ℕ → ℕ
ticks_since now tick = (now + 2 ^ 32 - tick) % 2 ^ 32

-- `*restart_count = 0U;` after a window without a crash
abbrev pub renewed : ℕ → ℕ → RestartCounters → RestartCounters
renewed window now b =
    if ltb 0 b.restart_count && ltb 0 window && leb window (ticks_since now b.first_restart_tick)
    then record b { restart_count = 0 }
    else b

abbrev pub granted : ℕ → RestartCounters → RestartDecision × RestartCounters
granted now b = (
  decision_restart,
  record { restart_count = (b.restart_count + 1) % 2 ^ 32; first_restart_tick = now },
)

-- `wt_restart_policy_evaluate`
unfoldable pub restart_policy_evaluate :
    ℕ → ℕ → ℕ → RestartCounters → RestartDecision × RestartCounters
restart_policy_evaluate limit window now b =
    let b1 = renewed window now b in
    if ltb 0 limit
    then if leb limit b1.restart_count then (decision_fault, b1) else granted now b1
    else granted now b
