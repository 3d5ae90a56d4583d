-- ===== src/Restart/Recovery.antt =====
-- src/sp_recovery.c: the recovery of a crashed secure partition. The platform's operations act on a
-- context of any type; an operation that the platform leaves out is `none`.
use wolf_trust_fork.Base.{ℕ, Bool, Option, none, some, if◌then◌else◌}
use wolf_trust_fork.Restart.Policy.{
  RestartDecision, decision_restart, decision_fault, RestartCounters, restart_policy_evaluate,
}

-- `wt_restart_action_t`
pub data RestartAction : Type 0 where
  action_never action_domain action_platform : RestartAction

-- `wt_sp_recovery_decision_t`
pub data RecoveryDecision : Type 0 where
  recovery_restart recovery_escalate : RecoveryDecision

-- `wt_sp_recovery_ops_t`; `restart` tells whether it succeeded
pub record RecoveryOps (S : Type 0) : Type 0 where
  pub release_locks : Option (S → S)
  pub fail_messages : Option (S → S)
  pub scrub_domain : Option (S → S)
  pub restart : Option (S → Bool × S)
  pub escalate : Option (RestartAction → S → S)

-- `if (ops->f != NULL) ops->f(ctx);`
abbrev pub call_if : {S : Type 0} → Option (S → S) → S → S
call_if none s = s
call_if (some f) s = f s

abbrev pub recovery_of : RestartDecision → RecoveryDecision
recovery_of decision_restart = recovery_restart
recovery_of decision_fault = recovery_escalate

abbrev pub decided : RestartDecision × RestartCounters → RecoveryDecision × RestartCounters
decided (d, b) = (recovery_of d, b)

-- `wt_sp_recovery_decide`
unfoldable pub recovery_decide :
    RestartAction → ℕ → ℕ → ℕ → RestartCounters → RecoveryDecision × RestartCounters
unfolding restart_policy_evaluate
recovery_decide action_domain limit window now b =
    decided (restart_policy_evaluate limit window now b)
recovery_decide _ limit window now b = (recovery_escalate, b)

-- `if (ops->restart != NULL && ops->restart(ctx) != 0) decision = WT_SP_RECOVERY_ESCALATE;`
abbrev pub restart_if : {S : Type 0} → Option (S → Bool × S) → S → RecoveryDecision × S
restart_if none s = (recovery_restart, s)
restart_if (some f) s =
    let (succeeded, s1) = f s in (if succeeded then recovery_restart else recovery_escalate, s1)

-- The restart of the domain, on a decision to restart
abbrev pub restart_decided :
    {S : Type 0} → RecoveryOps S → RecoveryDecision → S → RecoveryDecision × S
restart_decided ops recovery_restart s = restart_if ops.restart (call_if ops.scrub_domain s)
restart_decided ops recovery_escalate s = (recovery_escalate, s)

abbrev pub escalate_if :
    {S : Type 0}
    → Option (RestartAction → S → S)
    → RestartAction
    → RecoveryDecision × S
    → RecoveryDecision × S
escalate_if (some f) action (recovery_escalate, s) = (recovery_escalate, f action s)
escalate_if (some f) action (recovery_restart, s) = (recovery_restart, s)
escalate_if none action (d, s) = (d, s)

-- `wt_sp_recovery_run`
unfoldable pub recovery_run :
    {S : Type 0}
    → RecoveryOps S
    → RestartAction
    → ℕ
    → ℕ
    → ℕ
    → RestartCounters × S
    → RecoveryDecision × RestartCounters × S
unfolding recovery_decide
recovery_run ops action limit window now (b, s) =
    let s1 = call_if ops.fail_messages (call_if ops.release_locks s) in
    let (decision, b1) = recovery_decide action limit window now b in
    let (last, s2) = escalate_if ops.escalate action (restart_decided ops decision s1) in
    (last, b1, s2)
