-- ===== src/Restart/Budget.antt =====
-- How many restarts the policy grants to a domain that keeps crashing.
use wolf_trust_fork.Base.{
  ℕ, ◌+◌, ◌<◌, ◌≤◌, ◌^◌, ◌≡◌, refl, Bool, true, false, ◌&&◌, ltb, leb, List, [], ◌∷◌, arith, Option,
  none, some, if-when, if-each,
}
use wolf_trust_fork.Restart.Policy.{
  RestartDecision, decision_restart, decision_fault, RestartCounters, ticks_since, renewed, granted,
  restart_policy_evaluate,
}
use wolf_trust_fork.Restart.Recovery.{
  RestartAction, action_never, action_domain, action_platform, RecoveryDecision, recovery_restart,
  recovery_escalate, RecoveryOps, decided, recovery_decide, restart_if, restart_decided,
  escalate_if, recovery_run, call_if,
}

-- 1 for a restart
abbrev pub restarts : RecoveryDecision → ℕ
restarts recovery_restart = 1
restarts recovery_escalate = 0

abbrev pub evaluations : RestartDecision → ℕ
evaluations decision_restart = 1
evaluations decision_fault = 0

-- No window without a crash has passed since the last restart.
abbrev pub Busy : ℕ → ℕ → RestartCounters → Type 0
Busy window now b = (ltb 0 window && leb window (ticks_since now b.first_restart_tick)) ≡ false

not_renewed : (window now : ℕ) (b : RestartCounters) → Busy window now b → renewed window now b ≡ b
not_renewed window now b busy =
    let no : (ltb 0 b.restart_count
          && ltb 0 window
          && leb window (ticks_since now b.first_restart_tick))
        ≡ false =
      ground arith in
    rw no refl

-- The count after an evaluation: it stays in the limit, and counts what was granted.
abbrev Counts : ℕ → ℕ → RestartDecision × RestartCounters → Type 0
Counts limit before x = (x.1.restart_count ≤ limit) × (x.1.restart_count ≡ before + evaluations x.0)

evaluate-Counts :
    (limit window now : ℕ) (b : RestartCounters)
    → 0 < limit
    → limit < 2 ^ 32
    → Busy window now b
    → b.restart_count ≤ limit
    → Counts limit b.restart_count (restart_policy_evaluate limit window now b)
unfolding restart_policy_evaluate
evaluate-Counts limit window now b lim small busy le =
    let some_limit : ltb 0 limit ≡ true = ground arith in
    rw (some_limit, not_renewed window now b busy)
      (if-when (Counts limit b.restart_count) (decision_fault, b) (granted now b)
        (leb limit b.restart_count) (λ full. (le, omega arith))
        (λ room. let less : b.restart_count < limit = ground arith in (omega arith, omega arith)))

abbrev Spends : ℕ → ℕ → RecoveryDecision × RestartCounters → Type 0
Spends limit before x = (x.1.restart_count ≤ limit) × (x.1.restart_count ≡ before + restarts x.0)

decided-Spends :
    (limit before : ℕ) (x : RestartDecision × RestartCounters)
    → Counts limit before x
    → Spends limit before (decided x)
decided-Spends limit before (decision_restart, b) h = h
decided-Spends limit before (decision_fault, b) h = h

recovery_decide-Spends :
    (action : RestartAction) (limit window now : ℕ) (b : RestartCounters)
    → 0 < limit
    → limit < 2 ^ 32
    → Busy window now b
    → b.restart_count ≤ limit
    → Spends limit b.restart_count (recovery_decide action limit window now b)
unfolding recovery_decide
recovery_decide-Spends action_domain limit window now b lim small busy le =
    decided-Spends limit b.restart_count (restart_policy_evaluate limit window now b)
      (evaluate-Counts limit window now b lim small busy le)
recovery_decide-Spends action_never limit window now b lim small busy le = (le, omega arith)
recovery_decide-Spends action_platform limit window now b lim small busy le = (le, omega arith)

module _ {S : Type 0} (ops : RecoveryOps S) (action : RestartAction) where
  -- A restart that fails is an escalation; nothing turns into a restart.
  restart_if-le : (f : Option (S → Bool × S)) (s : S) → restarts (restart_if f s).0 ≤ 1
  restart_if-le none s = omega arith
  restart_if-le (some f) s =
      if-each (λ d. restarts d ≤ 1) recovery_restart recovery_escalate (f s).0 (omega arith)
        (omega arith)

  restart_decided-le :
      (d : RecoveryDecision) (s : S) → restarts (restart_decided ops d s).0 ≤ restarts d
  restart_decided-le recovery_restart s = restart_if-le ops.restart (call_if ops.scrub_domain s)
  restart_decided-le recovery_escalate s = omega arith

  escalate_if-same :
      (f : Option (RestartAction → S → S)) (x : RecoveryDecision × S)
      → (escalate_if f action x).0 ≡ x.0
  escalate_if-same none (d, s) = refl
  escalate_if-same (some f) (recovery_escalate, s) = refl
  escalate_if-same (some f) (recovery_restart, s) = refl

  recovery_run-Spends :
      (limit window now : ℕ) (b : RestartCounters) (s : S)
      → 0 < limit
      → limit < 2 ^ 32
      → Busy window now b
      → b.restart_count ≤ limit
      → let x = recovery_run ops action limit window now (b, s) in
        (x.1.restart_count ≤ limit) × (b.restart_count + restarts x.0 ≤ x.1.restart_count)
  unfolding recovery_run
  recovery_run-Spends limit window now b s lim small busy le =
      let s1 = call_if ops.fail_messages (call_if ops.release_locks s) in
      let d = (recovery_decide action limit window now b).0 in
      let (low, spent) = recovery_decide-Spends action limit window now b lim small busy le in
      let same = escalate_if-same ops.escalate (restart_decided ops d s1) in
      let fewer = restart_decided-le d s1 in (low, rw same (omega arith))

  -- The number of restarts in a run of recoveries at these ticks
  unfoldable pub restarts_at : ℕ → ℕ → List ℕ → RestartCounters × S → ℕ
  unfolding recovery_run
  restarts_at limit window [] (b, s) = 0
  restarts_at limit window (now ∷ ticks) (b, s) =
      let (d, b1, s1) = recovery_run ops action limit window now (b, s) in
      restarts d + restarts_at limit window ticks (b1, s1)

  -- At no tick of the run a window without a crash has passed.
  unfoldable pub Crashing : ℕ → ℕ → List ℕ → RestartCounters × S → Type 0
  unfolding recovery_run
  Crashing limit window [] (b, s) = Unit
  Crashing limit window (now ∷ ticks) (b, s) =
      let (d, b1, s1) = recovery_run ops action limit window now (b, s) in
      Busy window now b × Crashing limit window ticks (b1, s1)

  -- As long as the partition crashes without a window in between, the recoveries restart it at most as
  -- often as the limit, which is positive, allows after the restarts counted so far; all that goes on
  -- in between and whether restarts succeed does not matter.
  pub restarts_at-le :
      (limit window : ℕ) (ticks : List ℕ) (b : RestartCounters) (s : S)
      → 0 < limit
      → limit < 2 ^ 32
      → b.restart_count ≤ limit
      → Crashing limit window ticks (b, s)
      → b.restart_count + restarts_at limit window ticks (b, s) ≤ limit
  unfolding restarts_at Crashing
  restarts_at-le limit window [] b s lim small le c = omega arith
  restarts_at-le limit window (now ∷ ticks) b s lim small le (busy, c) =
      let x = recovery_run ops action limit window now (b, s) in
      let (low, spent) = recovery_run-Spends limit window now b s lim small busy le in
      let rest = restarts_at-le limit window ticks x.1 x.2 lim small low c in omega arith
