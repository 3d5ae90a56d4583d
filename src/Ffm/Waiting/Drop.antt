-- ===== src/Ffm/Waiting/Drop.antt =====
-- The invariant of all queues where a request leaves its queue.
use wolf_trust_fork.Base.{
  ℕ, ◌<◌, ◌≡◌, ◌≢◌, sym, ap, ◌∙◌, true, false, not, ◌&&◌, subst, List, arith, ◌==◌, Bool-cases, inl,
  inr, update,
}
use native.Mathlib.Decide.{ℕ_discrete as dec_eq}
use wolf_trust_fork.Ffm.State.{Runtime, max_messages}
use wolf_trust_fork.Ffm.Queue.Links.{
  member, remove, member-remove_self, member-remove_ne, Links-bound,
}
use wolf_trust_fork.Ffm.Queue.Fifo.{next_of, IsQueue}
use wolf_trust_fork.Ffm.Queue.Frame.{SameFlags, IsQueue-frame}
use wolf_trust_fork.Ffm.Waiting.{is_waiting, is_clear, Waiting}

module _ (r d : Runtime) (queues : ℕ → List ℕ) (s m : ℕ) (w : Waiting r queues)
    (count : d.service_count ≡ r.service_count)
    (services : (t : ℕ) → s ≢ t → d.services t ≡ r.services t)
    (links : (j : ℕ) → j < max_messages → member j (queues s) ≡ false → next_of d j ≡ next_of r j)
    (flags : (j : ℕ) → m ≢ j → SameFlags (r.messages j) (d.messages j))
    (counts : s < r.service_count) (after : is_waiting (d.messages m) ≡ false)
    (is_free : is_clear (d.messages m) ≡ true) (gone : IsQueue d s (remove m (queues s)))
    (owned : (t : ℕ) → t < r.service_count → s ≢ t → member m (queues t) ≡ false) where
  abbrev dropped : ℕ → List ℕ
  dropped = update queues s (remove m (queues s))

  dropped-member :
      (t j : ℕ) → t < r.service_count → member j (dropped t) ≡ (member j (queues t) && not (m == j))
  dropped-member t j lt = elim (dec_eq m j) [
    | yes e ↦
        subst (λ n. member n (dropped t) ≡ (member n (queues t) && not (m == n))) e (itself t lt)
    | no ne ↦ ground (arith, member-remove_ne m j (queues s) ne, ap queues)
  ]
    where
      itself :
          (t : ℕ)
          → t < r.service_count
          → member m (dropped t) ≡ (member m (queues t) && not (m == m))
      itself t lt = elim (dec_eq s t) [
        | yes e ↦ ground (arith, e, member-remove_self m (queues s) (w.each s counts).distinct)
        | no ne ↦ ground (arith, owned t lt ne)
      ]

  dropped-IsQueue : (t : ℕ) → t < r.service_count → IsQueue d t (dropped t)
  dropped-IsQueue t lt = elim (dec_eq s t) [
    | yes e ↦ subst (λ u. IsQueue d u (dropped u)) e (rw self gone)
    | no ne ↦ rw (other ne) (
        IsQueue-frame r d t (queues t) (services t ne)
          (λ j k. links j (bound j k) (elsewhere ne j k)) (w.each t lt))
  ]
    where
      self : dropped s ≡ remove m (queues s)
      self = ground arith

      other : s ≢ t → dropped t ≡ queues t
      other ne = ground arith

      bound : (j : ℕ) → member j (queues t) ≡ true → j < max_messages
      bound j k =
          Links-bound (next_of r) (r.services t).queue_head j (queues t) (w.each t lt).links k

      elsewhere : s ≢ t → (j : ℕ) → member j (queues t) ≡ true → member j (queues s) ≡ false
      elsewhere ne j k = elim (Bool-cases (member j (queues s))) [
        | inl here ↦ absurd (ne (sym (w.waits s j counts here).1 ∙ (w.waits t j lt k).1))
        | inr e ↦ e
      ]

  dropped_waits :
      (t j : ℕ)
      → t < r.service_count
      → (member j (queues t) && not (m == j)) ≡ true
      → (is_waiting (d.messages j) ≡ true) × ((d.messages j).service_index ≡ t)
  dropped_waits t j lt k = elim (dec_eq m j) [
    | yes e ↦ absurd (ground arith)
    | no ne ↦ ground (arith, flags j ne, w.waits t j lt)
  ]

  dropped_queued :
      (j : ℕ)
      → j < max_messages
      → is_waiting (d.messages j) ≡ true
      → let t = (d.messages j).service_index in
        (t < r.service_count) × ((member j (queues t) && not (m == j)) ≡ true)
  dropped_queued j lt k = elim (dec_eq m j) [
    | yes e ↦ absurd (ground (arith, after, ap (λ n. is_waiting (d.messages n)) e))
    | no ne ↦ let f = flags j ne in rw (f.service_index) (ground (arith, f, w.queued j lt))
  ]

  dropped_clear : (j : ℕ) → is_clear (d.messages j) ≡ true
  dropped_clear j = elim (dec_eq m j) [
    | yes e ↦ rw (← e) is_free
    | no ne ↦ ground (arith, flags j ne, w.clear j)
  ]

  -- One request less: all queues are as before but for that.
  pub drop-Waiting : Waiting d dropped
  drop-Waiting = record {
    each = λ t lt. dropped-IsQueue t (rw count at lt);
    waits = λ t j lt k.
        dropped_waits t j (rw count at lt) (sym (dropped-member t j (rw count at lt)) ∙ k);
    queued = λ j lt k. let (c, q) = dropped_queued j lt k in (rw count c, dropped-member _ j c ∙ q);
    clear = dropped_clear;
  }
