-- ===== src/Vnet/Switch/Receive/Stale.antt =====
-- The loop that drops the stale heads of a queue: it ends, and what it leaves.
use wolf_trust_fork.Base.{
  ℕ, zero, suc, ◌≤◌, ◌≡◌, refl, ap, true, false, List, [], ◌∷◌, length, ◌==◌, if◌then◌else◌, none,
  some, arith, inl, inr, Bool-cases,
}
use wolf_trust_fork.Vnet.State.{RxDesc, Ring, FramePool, success, failure, vnet_empty}
use wolf_trust_fork.Vnet.Ring.{ring_peek, ring_drop_head}
use wolf_trust_fork.Vnet.Ring.Fifo.{IsRing, IsRing-advance}
use wolf_trust_fork.Vnet.Switch.Receive.{is_live, skip_stale}

-- The frames from the first live one on
unfoldable pub drop_stale : FramePool → List RxDesc → List RxDesc
drop_stale pool [] = []
drop_stale pool (d ∷ q) = let rest = drop_stale pool q in if is_live pool d then d ∷ q else rest

-- What the head of a ring is, and the ring without it
peek_nil : (r : Ring) → IsRing r [] → ring_peek r ≡ (failure vnet_empty, none)
unfolding ring_peek
peek_nil r (t, h, c, l, k, s) =
    let some_cells : (r.capacity == 0) ≡ false = ground arith in
    let no_frame : (r.count == 0) ≡ true = ground arith in rw (some_cells, no_frame) refl

peek_cons :
    (r : Ring) (d : RxDesc) (q : List RxDesc)
    → IsRing r (d ∷ q)
    → (ring_peek r ≡ (success 0, some d)) × IsRing (ring_drop_head r).1 q
unfolding ring_peek ring_drop_head
peek_cons r d q i =
    let (t, h, c, l, k, (e, s)) = i in
    let some_cells : (r.capacity == 0) ≡ false = ground arith in
    let some_frame : (r.count == 0) ≡ false = ground arith in
    (
      rw (some_cells, some_frame) (ap (λ x. (success 0, some x)) e),
      rw (some_cells, some_frame) (IsRing-advance r d q i),
    )

-- With as many rounds as the queue has frames the loop ends: it drops the stale frames before the first
-- live one and no other, and more rounds do no more.
pub skip_stale-drop_stale :
    (pool : FramePool) (n : ℕ) (r : Ring) (q : List RxDesc)
    → IsRing r q
    → length q ≤ n
    → IsRing (skip_stale n pool r) (drop_stale pool q)
      × (skip_stale n pool r ≡ skip_stale (length q) pool r)
unfolding skip_stale drop_stale
skip_stale-drop_stale pool zero r [] i le = (i, refl)
skip_stale-drop_stale pool zero r (d ∷ q) i le = absurd (omega arith)
skip_stale-drop_stale pool (suc n) r [] i le = rw (peek_nil r i) (i, refl)
skip_stale-drop_stale pool (suc n) r (d ∷ q) i le =
    let (e, rest) = peek_cons r d q i in
    let (ih, same) = skip_stale-drop_stale pool n (ring_drop_head r).1 q rest (omega arith) in
    elim (Bool-cases (is_live pool d)) [
      | inl live ↦ rw (e, live) (i, refl)
      | inr stale ↦ rw (e, stale) (ih, same)
    ]

-- What is left has a live head, unless it is empty.
abbrev pub LiveHead : FramePool → List RxDesc → Type 0
LiveHead pool [] = Unit
LiveHead pool (d ∷ q) = is_live pool d ≡ true

pub drop_stale-LiveHead : (pool : FramePool) (q : List RxDesc) → LiveHead pool (drop_stale pool q)
unfolding drop_stale
drop_stale-LiveHead pool [] = tt
drop_stale-LiveHead pool (d ∷ q) = elim (Bool-cases (is_live pool d)) [
  | inl live ↦ rw live live
  | inr stale ↦ rw stale (drop_stale-LiveHead pool q)
]
