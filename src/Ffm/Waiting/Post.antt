-- ===== src/Ffm/Waiting/Post.antt =====
-- The invariant of all queues where a new request goes to the end of its queue.
use wolf_trust_fork.Base.{
  ℕ, ◌<◌, ◌≡◌, ◌≢◌, sym, ap, ◌∙◌, true, false, ◌&&◌, ◌||◌, subst, List, [], ◌∷◌, ◌++◌, arith, ◌==◌,
  Bool-cases, inl, inr, update,
}
use native.Mathlib.Decide.{ℕ_discrete as dec_eq}
use wolf_trust_fork.Ffm.State.{Runtime, Message, max_messages, queue_none}
use wolf_trust_fork.Ffm.Queue.{enqueue}
use wolf_trust_fork.Ffm.Queue.Links.{member, member-append, last_or-cases, Links-bound}
use wolf_trust_fork.Ffm.Queue.Fifo.{next_of, IsQueue, enqueue-IsQueue}
use wolf_trust_fork.Ffm.Queue.Frame.{
  SameFlags, IsQueue-frame, enqueue-SameFlags, enqueue-next, enqueue-services,
  enqueue-service_count,
}
use wolf_trust_fork.Ffm.Waiting.{is_waiting, is_clear, Waiting}

module _ (r r1 : Runtime) (queues : ℕ → List ℕ) (s m : ℕ) (w : Waiting r queues)
    (count : r1.service_count ≡ r.service_count) (services : (t : ℕ) → r1.services t ≡ r.services t)
    (others : (j : ℕ)
      → m ≢ j
      → (next_of r1 j ≡ next_of r j) × SameFlags (r.messages j) (r1.messages j))
    (counts : s < r.service_count) (in_range : m < max_messages)
    (before : is_waiting (r.messages m) ≡ false) (after : is_waiting (r1.messages m) ≡ true)
    (served : (r1.messages m).service_index ≡ s) (last : next_of r1 m ≡ queue_none) where
  abbrev posted : ℕ → List ℕ
  posted = update queues s (queues s ++ m ∷ [])

  absent : (t : ℕ) → t < r.service_count → member m (queues t) ≡ false
  absent t lt = elim (Bool-cases (member m (queues t))) [
    | inl e ↦ cc (before, (w.waits t m lt e).0)
    | inr e ↦ e
  ]

  stands : (t : ℕ) → t < r.service_count → IsQueue r1 t (queues t)
  stands t lt =
      IsQueue-frame r r1 t (queues t) (services t)
        (λ j k. (others j (λ e. cc (absent t lt, ap (λ n. member n (queues t)) e, k))).0)
        (w.each t lt)

  -- A message of another queue is not the tail of this one.
  tail_ne :
      (t j : ℕ)
      → t < r.service_count
      → s ≢ t
      → member j (queues t) ≡ true
      → (r1.services s).queue_tail ≢ j
  tail_ne t j lt ne k e =
      let tail = (stands s counts).tail in
      let bound =
        Links-bound (next_of r) (r.services t).queue_head j (queues t) (w.each t lt).links k in
      elim (last_or-cases (queues s)) [
        | inl empty ↦ omega (arith, tail, empty, e)
        | inr full ↦
            let same : member j (queues s) ≡ true = rw (sym tail ∙ e) at full in
            ne (sym (w.waits s j counts same).1 ∙ (w.waits t j lt k).1)
      ]

  posted-member : (t j : ℕ) → member j (posted t) ≡ (member j (queues t) || (s == t && j == m))
  posted-member t j = ground (arith, member-append j (queues t) (m ∷ []), ap queues)

  kept :
      (j : ℕ)
      → m ≢ j
      → (is_waiting ((enqueue r1 s m).messages j) ≡ is_waiting (r.messages j))
        × (((enqueue r1 s m).messages j).service_index ≡ (r.messages j).service_index)
  kept j ne = ground (arith, (others j ne).1, enqueue-SameFlags r1 s m j)

  new :
      (is_waiting ((enqueue r1 s m).messages m) ≡ true)
      × (((enqueue r1 s m).messages m).service_index ≡ s)
  new = ground (arith, after, served, enqueue-SameFlags r1 s m m)

  posted-IsQueue : (t : ℕ) → t < r.service_count → IsQueue (enqueue r1 s m) t (posted t)
  posted-IsQueue t lt = elim (dec_eq s t) [
    | yes e ↦
        subst (λ u. IsQueue (enqueue r1 s m) u (posted u)) e
          (rw self
            (enqueue-IsQueue r1 s m (queues s) (stands s counts) in_range (absent s counts) last))
    | no ne ↦ rw (other ne) (
        IsQueue-frame r1 (enqueue r1 s m) t (queues t) (enqueue-services r1 s m t ne)
          (λ j k. enqueue-next r1 s m j (tail_ne t j lt ne k)) (stands t lt))
  ]
    where
      self : posted s ≡ queues s ++ m ∷ []
      self = ground arith

      other : s ≢ t → posted t ≡ queues t
      other ne = ground arith

  posted_waits :
      (t j : ℕ)
      → t < r.service_count
      → (member j (queues t) || (s == t && j == m)) ≡ true
      → (is_waiting ((enqueue r1 s m).messages j) ≡ true)
        × (((enqueue r1 s m).messages j).service_index ≡ t)
  posted_waits t j lt k = elim (dec_eq m j) [
    | yes e ↦ rw (← e) (ground (arith, new, absent t lt, ap (λ n. member n (queues t)) e))
    | no ne ↦ ground (arith, kept j ne, w.waits t j lt)
  ]

  posted_queued :
      (j : ℕ)
      → j < max_messages
      → is_waiting ((enqueue r1 s m).messages j) ≡ true
      → let t = ((enqueue r1 s m).messages j).service_index in
        (t < r.service_count) × ((member j (queues t) || (s == t && j == m)) ≡ true)
  posted_queued j lt k = elim (dec_eq m j) [
    | yes e ↦ rw (← e) (ground (arith, new, counts))
    | no ne ↦ rw ((kept j ne).1) (ground (arith, w.queued j lt (sym (kept j ne).0 ∙ k)))
  ]

  posted_clear : (j : ℕ) → is_clear ((enqueue r1 s m).messages j) ≡ true
  posted_clear j = elim (dec_eq m j) [
    | yes e ↦ rw (← e) (ground (arith, new))
    | no ne ↦ ground (arith, (others j ne).1, enqueue-SameFlags r1 s m j, w.clear j)
  ]

  -- A request that was not waiting is put behind the others: all queues are as before but for that.
  pub post-Waiting : Waiting (enqueue r1 s m) posted
  post-Waiting =
      let total : (enqueue r1 s m).service_count ≡ r.service_count =
        enqueue-service_count r1 s m ∙ count in
      record {
        each = λ t lt. posted-IsQueue t (rw total at lt);
        waits = λ t j lt k. posted_waits t j (rw total at lt) (sym (posted-member t j) ∙ k);
        queued = λ j lt k. rw (total, posted-member) (posted_queued j lt k);
        clear = posted_clear;
      }

-- The queues with message `m` behind the others of service `s`.
abbrev pub with_request : (ℕ → List ℕ) → ℕ → ℕ → ℕ → List ℕ
with_request queues s m = update queues s (queues s ++ m ∷ [])

-- A free slot that is filled with a request for service `s`, and queued there.
pub request-Waiting :
    (r r1 : Runtime) (queues : ℕ → List ℕ) (s m : ℕ)
    → Waiting r queues
    → r1.service_count ≡ r.service_count
    → ((t : ℕ) → r1.services t ≡ r.services t)
    → ((j : ℕ) → m ≢ j → r1.messages j ≡ r.messages j)
    → s < r.service_count
    → m < max_messages
    → (r.messages m).allocated ≡ false
    → (r1.messages m).allocated ≡ true
    → (r1.messages m).active ≡ (r.messages m).active
    → (r1.messages m).complete ≡ (r.messages m).complete
    → (r1.messages m).service_index ≡ s
    → next_of r1 m ≡ queue_none
    → Waiting (enqueue r1 s m) (with_request queues ((enqueue r1 s m).messages m).service_index m)
request-Waiting r r1 queues s m w count services others ls lm free taken active complete served
      last =
    rw ((enqueue-SameFlags r1 s m m).service_index, served)
      (post-Waiting r r1 queues s m w count services
        (λ j ne.
          let e = others j ne in
          (
            ap (λ (x : Message). x.next) e,
            record {
              allocated = ap (λ (x : Message). x.allocated) e;
              active = ap (λ (x : Message). x.active) e;
              complete = ap (λ (x : Message). x.complete) e;
              service_index = ap (λ (x : Message). x.service_index) e;
            },
          ))
        ls lm (ground arith) (ground (arith, w.clear m)) served last)
