-- ===== src/Ffm/Service/Transfer.antt =====
-- The transfers between a partition and the vectors of a message that it has.
use wolf_trust_fork.Base.{
  ℕ, ◌+◌, ◌-◌, ◌≤◌, ◌<◌, ◌≡◌, ◌≢◌, inl, inr, arith, Bool, false, not, ◌&&◌, ◌||◌, ◌==◌, leb, ℤ,
  some, Bool-cases, subst, min, is_neg,
}
use wolf_trust_fork.Ffm.State.{
  Runtime, Result-cases, ok, ok-injective, passes, passes_two, bad_argument, bad_state, max_iovec,
}
use wolf_trust_fork.Ffm.Pools.{message_from_handle}
use wolf_trust_fork.Ffm.Service.{readable, read, written, write_output, write}

-- What a read of `n` bytes from the input vector `idx` of message `m` has done.
pub record Reads (r r1 : Runtime) (m idx wanted n : ℕ) (before after : ℕ → ℕ) : Type 0 where
  pub taken : n ≡ min wanted ((r.messages m).in_size idx - (r.messages m).in_position idx)
  pub moved : (r1.messages m).in_position idx ≡ (r.messages m).in_position idx + n
  pub inside :
      (r.messages m).in_position idx ≤ (r.messages m).in_size idx
      → (r1.messages m).in_position idx ≤ (r1.messages m).in_size idx
  pub bytes :
      (k : ℕ)
      → k < n
      → after k
        ≡ (r.messages m).input ((r.messages m).in_offset idx + (r.messages m).in_position idx + k)
  pub beyond : (k : ℕ) → n ≤ k → after k ≡ before k
  pub others : (j : ℕ) → m ≢ j → r1.messages j ≡ r.messages j

-- `wt_ffm_read` of a vector that the partition may read, into a buffer that is not null: it takes the wanted number of bytes or what is
-- left, puts those next in the vector into the buffer, and moves on by that number, never past the end;
-- the rest of the buffer and the other messages stay as they were.
pub read-Reads :
    (r : Runtime) (partition_id handle : ℤ) (idx : ℕ) (buffer : ℕ → ℕ) (num_bytes m : ℕ)
    → readable r partition_id handle idx ≡ some m
    → let (r1, after, n) = read r partition_id handle idx false buffer num_bytes in
      Reads r r1 m idx num_bytes n buffer after
unfolding read
read-Reads r partition_id handle idx buffer num_bytes m h =
    rw (h, read)
      (record {
        taken = ground arith;
        moved = ground arith;
        inside = λ le. ground arith;
        bytes = λ k lt. ground arith;
        beyond = λ k le. ground arith;
        others = λ j ne. ground arith;
      })

-- What a write of `n` bytes to the output vector `idx` of message `m` has done.
pub record Writes (r r1 : Runtime) (m idx n : ℕ) (buffer : ℕ → ℕ) : Type 0 where
  pub room :
      (r.messages m).out_position idx ≤ (r.messages m).out_size idx
      → (r.messages m).out_position idx + n ≤ (r.messages m).out_size idx
  pub moved : (r1.messages m).out_position idx ≡ (r.messages m).out_position idx + n
  pub bytes :
      (k : ℕ)
      → k < n
      → (r1.messages m).output ((r.messages m).out_offset idx + (r.messages m).out_position idx + k)
        ≡ buffer k
  pub before :
      (k : ℕ)
      → k < (r.messages m).out_offset idx + (r.messages m).out_position idx
      → (r1.messages m).output k ≡ (r.messages m).output k
  pub beyond :
      (k : ℕ)
      → (r.messages m).out_offset idx + (r.messages m).out_position idx + n ≤ k
      → (r1.messages m).output k ≡ (r.messages m).output k
  pub others : (j : ℕ) → m ≢ j → r1.messages j ≡ r.messages j

written-Writes :
    (r : Runtime) (m idx : ℕ) (buffer : ℕ → ℕ) (n : ℕ)
    → n ≤ (r.messages m).out_size idx - (r.messages m).out_position idx
    → Writes r (written r m idx buffer n) m idx n buffer
written-Writes r m idx buffer n le = record {
  room = λ l. omega arith;
  moved = ground arith;
  bytes = λ k lt. ground arith;
  before = λ k lt. ground arith;
  beyond = λ k l. ground arith;
  others = λ j ne. ground arith;
}

write_output-Writes :
    (r r1 : Runtime) (m idx : ℕ) (buffer : ℕ → ℕ) (n : ℕ)
    → n ≢ 0
    → write_output r m idx buffer n ≡ ok r1
    → (idx < (r.messages m).out_count) × Writes r r1 m idx n buffer
unfolding write_output
write_output-Writes r r1 m idx buffer n ne h =
    elim (Bool-cases (leb (r.messages m).out_count idx)) [
      | inl out ↦ absurd (ground arith)
      | inr inside ↦
          let (room, done) = passes _ _ _ r1 (rw (inside, write_output) at h) in
          (
            ground arith,
            subst (λ x. Writes r x m idx n buffer) (ok-injective _ r1 done)
                (written-Writes r m idx buffer n (ground arith)),
          )
    ]

-- A success of `wt_ffm_write` with at least one byte: the handle is one of a call's message that the
-- partition has, the vector is one that the client gave and has room for the bytes; they stand behind
-- those that were written before, and nothing else of the output buffer changes.
pub write-Writes :
    (r r1 : Runtime) (partition_id handle : ℤ) (idx : ℕ) (null : Bool) (buffer : ℕ → ℕ) (n : ℕ)
    → n ≢ 0
    → write r partition_id handle idx null buffer n ≡ ok r1
    → (m : ℕ) × (message_from_handle r partition_id handle ≡ ok m)
      × (null ≡ false)
      × (idx < max_iovec)
      × (is_neg (r.messages m).type ≡ false)
      × (idx < (r.messages m).out_count)
      × Writes r r1 m idx n buffer
unfolding write
write-Writes r r1 partition_id handle idx null buffer n ne h =
    elim (Result-cases (message_from_handle r partition_id handle)) [
      | inl (x, e) ↦ absurd (ground (arith, e, rw (e, write) at h))
      | inr (m, e) ↦
          let (sane, call, output) =
            passes_two (null && not (n == 0) || leb max_iovec idx) (is_neg (r.messages m).type)
              bad_argument bad_state (write_output r m idx buffer n) r1 (rw (e, write) at h) in
          let (inside, writes) = write_output-Writes r r1 m idx buffer n ne output in
          (m, e, ground (arith, sane, ne), ground arith, call, inside, writes)
    ]
