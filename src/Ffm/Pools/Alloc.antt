-- ===== src/Ffm/Pools/Alloc.antt =====
-- What an allocation finds, and what it leaves when it finds nothing.
use mathlib.Core.Option.{some-injective}
use wolf_trust_fork.Base.{
  ℕ, ◌<◌, ◌≡◌, sym, ap, ◌∙◌, false, not, arith, Option, none, some, find, find-some,
}
use wolf_trust_fork.Ffm.State.{Runtime, max_messages, max_connections}
use wolf_trust_fork.Ffm.Pools.{alloc_connection, claim_connection, alloc_message, claim_message}

-- A search whose result is handed on with the runtime that claims it.
abbrev claim_found : (ℕ → Runtime) → Option ℕ → Option (ℕ × Runtime)
claim_found claim none = none
claim_found claim (some i) = some (i, claim i)

claim_found-some :
    (claim : ℕ → Runtime) (o : Option ℕ) (i : ℕ) (r1 : Runtime)
    → claim_found claim o ≡ some (i, r1)
    → (o ≡ some i) × (r1 ≡ claim i)
claim_found-some claim none i r1 h = absurd (cc h)
claim_found-some claim (some j) i r1 h =
    let p = some-injective _ _ h in
    let e : j ≡ i = ap (λ x. x.0) p in (ap some e, sym (ap (λ x. x.1) p) ∙ ap claim e)

alloc_message-claim :
    (r : Runtime)
    → alloc_message r
      ≡ claim_found (claim_message r) (find (λ i. not (r.messages i).allocated) max_messages)
unfolding alloc_message
alloc_message-claim r = ground arith

alloc_connection-claim :
    (r : Runtime)
    → alloc_connection r
      ≡ claim_found
          (claim_connection r)
          (find (λ i. not (r.connections i).allocated) max_connections)
unfolding alloc_connection
alloc_connection-claim r = ground arith

-- A message slot that is handed out was free, and is claimed.
pub alloc_message-some :
    (r : Runtime) (m : ℕ) (r1 : Runtime)
    → alloc_message r ≡ some (m, r1)
    → (m < max_messages) × ((r.messages m).allocated ≡ false) × (r1 ≡ claim_message r m)
alloc_message-some r m r1 h =
    let (e, c) = claim_found-some (claim_message r) _ m r1 (sym (alloc_message-claim r) ∙ h) in
    let (lt, free) = find-some (λ i. not (r.messages i).allocated) max_messages m e in
    (lt, ground arith, c)

pub alloc_connection-some :
    (r : Runtime) (c : ℕ) (r1 : Runtime)
    → alloc_connection r ≡ some (c, r1)
    → (c < max_connections) × ((r.connections c).allocated ≡ false) × (r1 ≡ claim_connection r c)
alloc_connection-some r c r1 h =
    let (e, d) =
      claim_found-some (claim_connection r) _ c r1 (sym (alloc_connection-claim r) ∙ h) in
    let (lt, free) = find-some (λ i. not (r.connections i).allocated) max_connections c e in
    (lt, ground arith, d)
