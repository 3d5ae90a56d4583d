-- ===== src/Ffm/Signals/Flags.antt =====
-- What the operations on signals set and clear.
use wolf_trust_fork.Base.{
  ℕ, ◌^◌, ◌<◌, ◌≡◌, ◌≢◌, ◌⊎◌, inl, inr, refl, subst, arith, bit_and, false, ◌==◌, ℤ, bit_and-bit_or,
  bit_and-bit_or_other, bit_and-bit_not, bit_and-bit_not_other,
}
use wolf_trust_fork.Ffm.State.{
  Runtime, queue_none, Result-cases, ok, err, ok-injective, passes, passes_three, FfmError,
  bad_argument, bad_policy, bad_state,
}
use wolf_trust_fork.Ffm.Queue.{update_service_signal}
use wolf_trust_fork.Ffm.Lookup.{find_partition}
use wolf_trust_fork.Ffm.Signals.{
  psa_doorbell, assert_in, deassert_in, notify, clear, eoi, not_one_bit, interrupt_signals,
}

abbrev asserted : Runtime → ℕ → ℕ
asserted r p = (r.partitions p).asserted_signals

-- All flags of `signal` are set at partition `p`; the flags apart from it are as they were, and so are
-- the other partitions.
pub record Asserts (r r1 : Runtime) (p signal : ℕ) : Type 0 where
  pub set : bit_and (asserted r1 p) signal ≡ signal
  pub kept : (t : ℕ) → bit_and signal t ≡ 0 → bit_and (asserted r1 p) t ≡ bit_and (asserted r p) t
  pub others : (q : ℕ) → p ≢ q → r1.partitions q ≡ r.partitions q

-- All flags of `signal` are clear at partition `p`, and nothing else changes.
pub record Clears (r r1 : Runtime) (p signal : ℕ) : Type 0 where
  pub cleared : bit_and (asserted r1 p) signal ≡ 0
  pub kept :
      (t : ℕ)
      → t < 2 ^ 32
      → bit_and signal t ≡ 0
      → bit_and (asserted r1 p) t ≡ bit_and (asserted r p) t
  pub others : (q : ℕ) → p ≢ q → r1.partitions q ≡ r.partitions q

assert_in-Asserts : (r : Runtime) (p signal : ℕ) → Asserts r (assert_in r p signal) p signal
assert_in-Asserts r p signal = record {
  set = ground (arith, bit_and-bit_or (asserted r p) signal);
  kept = λ t d. ground (arith, bit_and-bit_or_other (asserted r p) signal t d);
  others = λ q ne. ground arith;
}

deassert_in-Clears :
    (r : Runtime) (p signal : ℕ) → signal < 2 ^ 32 → Clears r (deassert_in r p signal) p signal
deassert_in-Clears r p signal lt = record {
  cleared = ground (arith, bit_and-bit_not 32 (asserted r p) signal lt);
  kept = λ t l d. ground (arith, bit_and-bit_not_other 32 (asserted r p) signal t lt l d);
  others = λ q ne. ground arith;
}

is_not_zero : (n : ℕ) → (n == 0) ≡ false → n ≢ 0
is_not_zero n h e = ground arith

-- `wt_ffm_notify` rings the doorbell of the partition with that number and changes no other flag; it
-- fails only where there is no such partition.
pub notify-Asserts :
    (r : Runtime) (partition_id : ℤ)
    → ((e : FfmError) × (find_partition r partition_id ≡ err e)
        × (notify r partition_id ≡ err bad_policy))
      ⊎ ((p : ℕ) × (r1 : Runtime) × (find_partition r partition_id ≡ ok p)
          × (notify r partition_id ≡ ok r1)
          × Asserts r r1 p psa_doorbell)
unfolding notify
notify-Asserts r partition_id = elim (Result-cases (find_partition r partition_id)) [
  | inl (x, e) ↦ inl (x, e, rw (e, notify) refl)
  | inr (p, e) ↦
      inr
        (p, assert_in r p psa_doorbell, e, rw (e, notify) refl, assert_in-Asserts r p psa_doorbell)
]

-- A success of `wt_ffm_eoi` for a 32-bit signal means that the partition had the signal, which is one bit and one of its
-- interrupts; afterwards that flag is clear, and no other flag has changed.
pub eoi-Clears :
    (r r1 : Runtime) (partition_id : ℤ) (signal : ℕ)
    → signal < 2 ^ 32
    → eoi r partition_id signal ≡ ok r1
    → (p : ℕ) × (find_partition r partition_id ≡ ok p)
      × (not_one_bit signal ≡ false)
      × (bit_and signal (
            interrupt_signals (r.partitions p).manifest (r.partitions p).manifest.interrupt_count 0)
          ≢ 0)
      × (bit_and (asserted r p) signal ≢ 0)
      × Clears r r1 p signal
unfolding eoi
eoi-Clears r r1 partition_id signal lt h = elim (Result-cases (find_partition r partition_id)) [
  | inl (x, e) ↦ absurd (ground (arith, e))
  | inr (p, e) ↦
      let m = (r.partitions p).manifest in
      let (one, mine, set, last) =
        passes_three (not_one_bit signal)
          (bit_and signal (interrupt_signals m m.interrupt_count 0) == 0)
          (bit_and (asserted r p) signal == 0) bad_argument bad_policy bad_state
          (ok (deassert_in r p signal)) r1 (rw (e, eoi) at h) in
      (
        p,
        e,
        one,
        is_not_zero _ mine,
        is_not_zero _ set,
        subst (λ x. Clears r x p signal) (ok-injective _ r1 last)
            (deassert_in-Clears r p signal lt),
      )
]

-- `wt_ffm_clear` fails where the doorbell has not rung; a success clears it and no other flag.
pub clear-Clears :
    (r r1 : Runtime) (partition_id : ℤ)
    → clear r partition_id ≡ ok r1
    → (p : ℕ) × (find_partition r partition_id ≡ ok p)
      × (bit_and (asserted r p) psa_doorbell ≢ 0)
      × Clears r r1 p psa_doorbell
unfolding clear
clear-Clears r r1 partition_id h = elim (Result-cases (find_partition r partition_id)) [
  | inl (x, e) ↦ absurd (ground (arith, e))
  | inr (p, e) ↦
      let (set, last) =
        passes (bit_and (asserted r p) psa_doorbell == 0) bad_state
          (ok (deassert_in r p psa_doorbell)) r1 (rw (e, clear) at h) in
      (
        p,
        e,
        is_not_zero _ set,
        subst (λ x. Clears r x p psa_doorbell) (ok-injective _ r1 last)
            (deassert_in-Clears r p psa_doorbell (omega arith)),
      )
]

signal_empty :
    (r : Runtime) (s : ℕ)
    → (r.services s).queue_head ≡ queue_none
    → update_service_signal r s
      ≡ deassert_in r (r.services s).partition_index (r.services s).descriptor.signal
unfolding update_service_signal
signal_empty r s e = rw e refl

signal_waiting :
    (r : Runtime) (s : ℕ)
    → ((r.services s).queue_head == queue_none) ≡ false
    → update_service_signal r s
      ≡ assert_in r (r.services s).partition_index (r.services s).descriptor.signal
unfolding update_service_signal
signal_waiting r s e = rw e refl

-- `wt_ffm_update_service_signal`, for a 32-bit signal: the partition of the service has the service's
-- signal after it if the queue holds a message, and has it no more if the queue is empty; no other flag
-- and no other partition changes.
pub update_service_signal-Asserts :
    (r : Runtime) (s : ℕ)
    → (r.services s).descriptor.signal < 2 ^ 32
    → let p = (r.services s).partition_index in
      let signal = (r.services s).descriptor.signal in
      ((r.services s).queue_head ≡ queue_none → Clears r (update_service_signal r s) p signal)
      × ((r.services s).queue_head ≢ queue_none → Asserts r (update_service_signal r s) p signal)
update_service_signal-Asserts r s lt =
    let p = (r.services s).partition_index in
    let signal = (r.services s).descriptor.signal in
    (
      λ e. rw (signal_empty r s e) (deassert_in-Clears r p signal lt),
      λ ne. rw (signal_waiting r s (ground (arith, ne))) (assert_in-Asserts r p signal),
    )
