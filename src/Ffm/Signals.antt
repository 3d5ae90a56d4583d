-- ===== src/Ffm/Signals.antt =====
-- The signals of a partition: `wt_ffm_wait`, `wt_ffm_notify`, `wt_ffm_clear`, `wt_ffm_eoi`,
-- `wt_ffm_irq_lookup`, `wt_ffm_irq_route` and `wt_ffm_assert_signal`.
pub mod Flags
use wolf_trust_fork.Base.{
  ℕ, zero, suc, ◌-◌, bit_and, bit_or, bit_not, Bool, true, false, not, ◌&&◌, ◌||◌, ◌==◌,
  if◌then◌else◌, Option, none, some, ℤ, find,
}
use wolf_trust_fork.Ffm.State.{
  Runtime, Partition, PartitionManifest, Result, ok, err, FfmError, bad_argument, bad_policy,
  bad_state, not_ready, set_partition,
}
use wolf_trust_fork.Ffm.Lookup.{find_partition}

-- `PSA_DOORBELL`
abbrev pub psa_doorbell : ℕ
psa_doorbell = 8

-- `for (i = 0; i < n; i++) set |= signal of interrupt i`
unfoldable pub interrupt_signals : PartitionManifest → ℕ → ℕ → ℕ
interrupt_signals m zero set = set
interrupt_signals m (suc n) set = bit_or (interrupt_signals m n set) (m.interrupts n).signal

unfoldable pub service_signals : Runtime → ℕ → ℕ → ℕ → ℕ
service_signals r p zero set = set
service_signals r p (suc n) set =
    let before = service_signals r p n set in
    if (r.services n).partition_index == p
    then bit_or before (r.services n).descriptor.signal
    else before

-- `wt_ffm_partition_signal_set`
unfoldable pub partition_signal_set : Runtime → ℕ → ℕ
partition_signal_set r p =
    let m = (r.partitions p).manifest in
    interrupt_signals m m.interrupt_count (service_signals r p r.service_count psa_doorbell)

-- What `wt_ffm_wait` returns: `asserted` is also written where the code is not ready.
pub data Waited : Type 0 where
  ready : ℕ → Waited
  waiting : Waited
  not_waited : FfmError → Waited

-- `wt_ffm_wait`
unfoldable pub wait : Runtime → ℤ → ℕ → Waited
wait r partition_id mask =
    if mask == 0 then not_waited bad_argument else elim (find_partition r partition_id) [
      | err e ↦ not_waited bad_policy
      | ok p ↦
          if bit_and mask (partition_signal_set r p) == 0
          then not_waited bad_argument
          else let asserted = bit_and (r.partitions p).asserted_signals mask in
            if asserted == 0 then waiting else ready asserted
    ]

abbrev pub assert_in : Runtime → ℕ → ℕ → Runtime
assert_in r p signal =
    let partition = r.partitions p in
    set_partition r p
      (record partition { asserted_signals = bit_or partition.asserted_signals signal })

abbrev pub deassert_in : Runtime → ℕ → ℕ → Runtime
deassert_in r p signal =
    let partition = r.partitions p in
    set_partition r p (record partition {
      asserted_signals = bit_and partition.asserted_signals (bit_not 32 signal);
    })

-- `wt_ffm_notify`
unfoldable pub notify : Runtime → ℤ → Result Runtime
notify r partition_id = elim (find_partition r partition_id) [
  | err e ↦ err bad_policy
  | ok p ↦ ok (assert_in r p psa_doorbell)
]

-- `wt_ffm_clear`
unfoldable pub clear : Runtime → ℤ → Result Runtime
clear r partition_id = elim (find_partition r partition_id) [
  | err e ↦ err bad_policy
  | ok p ↦
      if bit_and (r.partitions p).asserted_signals psa_doorbell == 0
      then err bad_state
      else ok (deassert_in r p psa_doorbell)
]

-- Zero, or more than one bit.
abbrev pub not_one_bit : ℕ → Bool
not_one_bit signal = signal == 0 || not (bit_and signal (signal - 1) == 0)

-- `wt_ffm_eoi`
unfoldable pub eoi : Runtime → ℤ → ℕ → Result Runtime
eoi r partition_id signal = elim (find_partition r partition_id) [
  | err e ↦ err bad_policy
  | ok p ↦
      let m = (r.partitions p).manifest in
      if not_one_bit signal
      then err bad_argument
      else if bit_and signal (interrupt_signals m m.interrupt_count 0) == 0
      then err bad_policy
      else if bit_and (r.partitions p).asserted_signals signal == 0
      then err bad_state
      else ok (deassert_in r p signal)
]

abbrev pub interrupt_with_signal : PartitionManifest → ℕ → Option ℕ
interrupt_with_signal m signal = find (λ i. (m.interrupts i).signal == signal) m.interrupt_count

-- `wt_ffm_irq_lookup`
unfoldable pub irq_lookup : Runtime → ℤ → ℕ → Result ℕ
irq_lookup r partition_id signal = elim (find_partition r partition_id) [
  | err e ↦ err bad_policy
  | ok p ↦
      if not_one_bit signal
      then err bad_argument
      else elim (interrupt_with_signal (r.partitions p).manifest signal) [
        | none ↦ err bad_policy
        | some i ↦ ok ((r.partitions p).manifest.interrupts i).interrupt
      ]
]

abbrev pub interrupt_with_number : PartitionManifest → ℕ → Option ℕ
interrupt_with_number m irq = find (λ i. (m.interrupts i).interrupt == irq) m.interrupt_count

abbrev pub declares : PartitionManifest → ℕ → Bool
declares m irq = elim (interrupt_with_number m irq) [ some i ↦ true | none ↦ false ]

-- `wt_ffm_irq_route`: the first partition that declares the interrupt, and its signal.
unfoldable pub irq_route : Runtime → ℕ → Result (ℕ × ℕ)
irq_route r irq = elim (find (λ p. declares (r.partitions p).manifest irq) r.partition_count) [
  | none ↦ err bad_policy
  | some p ↦
      let m = (r.partitions p).manifest in
      elim (interrupt_with_number m irq) [
        | none ↦ err bad_policy
        | some i ↦ ok (m.domain_id, (m.interrupts i).signal)
      ]
]

-- `wt_ffm_assert_signal`
unfoldable pub assert_signal : Runtime → ℤ → ℕ → Result Runtime
assert_signal r partition_id signal = elim (irq_lookup r partition_id signal) [
  | err e ↦ err e
  | ok irq ↦ elim (find_partition r partition_id) [
    | err e ↦ err bad_policy
    | ok p ↦ ok (assert_in r p signal)
  ]
]
