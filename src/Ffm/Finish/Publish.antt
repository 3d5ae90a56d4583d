-- ===== src/Ffm/Finish/Publish.antt =====
-- What the end of a call writes to the client's memory.
use wolf_trust_fork.Base.{
  ◌≢◌, ◌∙◌, subst, find-never, ℕ, zero, suc, ◌+◌, ◌-◌, ◌≤◌, ◌<◌, ◌≡◌, ◌⊎◌, inl, inr, refl, arith,
  Bool, true, false, ◌&&◌, ltb, leb, ℤ, none, Bool-cases, find,
}
use native.Mathlib.Decide.{ℕ_discrete as dec_eq}
use wolf_trust_fork.Ffm.Pools.{release_message}
use wolf_trust_fork.Ipc.State.{error}
use wolf_trust_fork.Ffm.Vectors.{Iovecs}
use wolf_trust_fork.Ffm.State.{
  Runtime, Message, max_messages, psa_error_invalid_argument, psa_error_programmer_error,
}
use wolf_trust_fork.Ffm.Finish.{
  publish, Finished, finish_checked, unwritable, reported_lengths, finish_outputs, call_finish,
}

-- An address that output `i` of message `m` covers, or that it does not cover.
abbrev pub Covers : Message → ℕ → ℕ → Type 0
Covers m a i = (m.client_output i ≤ a) × (a < m.client_output i + m.out_position i)

abbrev pub Outside : Message → ℕ → ℕ → Type 0
Outside m a i = (a < m.client_output i) ⊎ (m.client_output i + m.out_position i ≤ a)

-- The byte at address `a` after the first `n` outputs are written: that of the last output that covers
-- the address, or the one before, where none does.
abbrev pub Byte : Message → ℕ → (ℕ → ℕ) → ℕ → ℕ → Type 0
Byte m n before a byte =
    (((i : ℕ) → i < n → Outside m a i) × (byte ≡ before a))
    ⊎ ((i : ℕ) × (i < n)
        × Covers m a i
        × ((j : ℕ) → i < j → j < n → Outside m a j)
        × (byte ≡ m.output (m.out_offset i + (a - m.client_output i))))

Covers-cases : (m : Message) (a i : ℕ) → Covers m a i ⊎ Outside m a i
Covers-cases m a i =
    elim (Bool-cases (leb (m.client_output i) a && ltb a (m.client_output i + m.out_position i))) [
      | inl e ↦ inl (ground arith, ground arith)
      | inr e ↦ elim (Bool-cases (leb (m.client_output i) a)) [
        | inl le ↦ inr (inr (ground arith))
        | inr gt ↦ inr (inl (ground arith))
      ]
    ]

publish-Byte :
    (m : Message) (n : ℕ) (before : ℕ → ℕ) (a : ℕ) → Byte m n before a (publish m n before a)
unfolding publish
publish-Byte m zero before a = inl (λ i lt. absurd (omega arith), refl)
publish-Byte m (suc n) before a = elim (Covers-cases m a n) [
  | inl (lo, hi) ↦
      inr (n, omega arith, (lo, hi), λ j above below. absurd (omega arith), ground arith)
  | inr out ↦
      let kept : publish m (suc n) before a ≡ publish m n before a = ground (arith, out) in
      elim (publish-Byte m n before a) [
        | inl (none_covers, same) ↦ inl (
          λ i lt. elim (dec_eq n i) [
            | yes e ↦ subst (Outside m a) e out
            | no ne ↦ none_covers i (omega arith)
          ],
          kept ∙ same,
        )
        | inr (i, lt, here, later, byte) ↦ inr (
          i,
          omega arith,
          here,
          λ j above below. elim (dec_eq n j) [
            | yes e ↦ subst (Outside m a) e out
            | no ne ↦ later j above (omega arith)
          ],
          kept ∙ byte,
        )
      ]
]

-- The lengths of the output vectors after the call: those of the outputs that `out_vec` has are the
-- numbers of bytes written, the others stay.
abbrev pub Lengths : Message → Iovecs → (ℕ → ℕ) → Type 0
Lengths m outs after =
    ((i : ℕ) → i < m.out_count → i < outs.count → outs.null ≡ false → after i ≡ m.out_position i)
    × ((i : ℕ)
        → (m.out_count ≤ i) ⊎ (outs.count ≤ i) ⊎ (outs.null ≡ true)
        → after i ≡ (outs.at i).length)

reported_lengths-Lengths : (m : Message) (outs : Iovecs) → Lengths m outs (reported_lengths m outs)
reported_lengths-Lengths m outs = (λ i lt le present. ground arith, λ i out. ground (arith, out))

-- Nothing of the client's is written, and the status is that one.
abbrev pub Unpublished : Iovecs → (ℕ → ℕ) → ℤ → Finished → Type 0
Unpublished outs memory status x =
    (x.memory ≡ memory) × ((i : ℕ) → x.out_lengths i ≡ (outs.at i).length) × (x.status ≡ status)

module _ (check_write : ℤ → ℕ → ℕ → Bool) where
  -- The port lets the caller write the bytes of output `i`.
  abbrev pub Writable : Message → ℕ → Type 0
  Writable m i =
      (m.out_position i ≡ 0) ⊎ (check_write m.caller (m.client_output i) (m.out_position i) ≡ true)

  abbrev pub Refused : Message → ℕ → Type 0
  Refused m i =
      (m.out_position i ≢ 0) × (check_write m.caller (m.client_output i) (m.out_position i) ≡ false)

  Writable-unwritable : (m : Message) (i : ℕ) → Writable m i → unwritable check_write m i ≡ false
  Writable-unwritable m i w = ground (arith, w)

  -- The runtime, the memory and the vectors' lengths after every output of message `m` was writable
  abbrev pub Published : Runtime → ℕ → Iovecs → (ℕ → ℕ) → Finished → Type 0
  Published r m outs memory x =
      ((a : ℕ) → Byte (r.messages m) (r.messages m).out_count memory a (x.memory a))
      × Lengths (r.messages m) outs x.out_lengths
      × (x.status ≡ (r.messages m).reply_status)
      × ((x.runtime.messages m).allocated ≡ false)

  -- All or nothing: the message index is out of range; or some output is refused; or none is.
  abbrev pub Outcome : Runtime → ℕ → Iovecs → (ℕ → ℕ) → Finished → Type 0
  Outcome r m outs memory x =
      ((max_messages ≤ m) × (x.runtime ≡ r) × Unpublished outs memory psa_error_invalid_argument x)
      ⊎ ((i : ℕ) × (i < (r.messages m).out_count)
          × Refused (r.messages m) i
          × Unpublished outs memory psa_error_programmer_error x
          × ((x.runtime.messages m).allocated ≡ false)
          × ((x.runtime.connections (r.messages m).connection_index).state ≡ error))
      ⊎ (((i : ℕ) → i < (r.messages m).out_count → Writable (r.messages m) i)
          × ((a : ℕ)
              → (x.memory a ≡ memory a)
                ⊎ ((i : ℕ) × (i < (r.messages m).out_count) × Covers (r.messages m) a i)))

  finish_checked-Published :
      (r : Runtime) (m : ℕ) (outs : Iovecs) (memory : ℕ → ℕ)
      → Published r m outs memory (
          finish_checked r m memory
            (λ i. (outs.at i).length)
            (reported_lengths (r.messages m) outs)
            none)
  unfolding finish_checked release_message
  finish_checked-Published r m outs memory = (
    publish-Byte (r.messages m) (r.messages m).out_count memory,
    reported_lengths-Lengths (r.messages m) outs,
    refl,
    ground arith,
  )

  -- Where every destination that takes bytes may be written, every byte of the client's memory is the one
  -- that the service wrote for the last output that covers it, or as before where none does; the length of
  -- each output that `out_vec` has is the number of bytes written, and the other lengths are as before;
  -- the status is that of the reply, and the message slot is free again.
  pub call_finish-Published :
      (r : Runtime) (m : ℕ) (outs : Iovecs) (memory : ℕ → ℕ)
      → m < max_messages
      → ((i : ℕ) → i < (r.messages m).out_count → Writable (r.messages m) i)
      → Published r m outs memory (call_finish check_write r m outs memory)
  unfolding call_finish finish_outputs
  call_finish-Published r m outs memory lt all =
      let inside : ltb m max_messages ≡ true = ground arith in
      let none_refused : find (unwritable check_write (r.messages m)) (r.messages m).out_count
          ≡ none =
        find-never (unwritable check_write (r.messages m)) (r.messages m).out_count
          (λ i below. Writable-unwritable (r.messages m) i (all i below)) in
      rw (inside, none_refused) (finish_checked-Published r m outs memory)
