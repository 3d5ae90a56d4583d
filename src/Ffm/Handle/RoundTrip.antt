-- ===== src/Ffm/Handle/RoundTrip.antt =====
-- The encoding of handles and their decoding, one after the other.
use wolf_trust_fork.Base.{
  ℕ, ◌+◌, ◌*◌, ◌^◌, ◌<◌, ◌≡◌, ◌≢◌, arith, ℤ, pos, negsuc, bit_or-five, bit_or-seven,
}
use wolf_trust_fork.Ffm.State.{ok}
use wolf_trust_fork.Ffm.Handle.{next_generation, make_handle, decode_handle}

-- The fields of a handle share no bit, so the word is their sum.
pub make_handle_sum :
    (type index generation : ℕ)
    → type < 4
    → index < 31
    → generation < 2 ^ 24
    → make_handle type index generation ≡ pos (generation * 128 + type * 32 + (index + 1))
unfolding make_handle
make_handle_sum type index generation ht hi hg =
    ground
      (arith, bit_or-seven generation (type * 32), bit_or-five (generation * 4 + type) (index + 1))

decode_sum :
    (type index generation limit : ℕ)
    → type < 4
    → index < limit
    → limit < 32
    → 0 < generation
    → decode_handle (pos (generation * 128 + type * 32 + (index + 1))) type limit
      ≡ ok (index, generation)
unfolding decode_handle
decode_sum type index generation limit ht hi hl hg = ground arith

-- For a kind below 4, an index below the limit, a limit below 32 and a generation from 1 to 2^24 - 1:
-- the handle is read back as its index and generation, and it is a positive 32-bit number.
pub decode_handle-make_handle :
    (type index generation limit : ℕ)
    → type < 4
    → index < limit
    → limit < 32
    → 0 < generation
    → generation < 2 ^ 24
    → (decode_handle (make_handle type index generation) type limit ≡ ok (index, generation))
      × ((n : ℕ) × (make_handle type index generation ≡ pos n) × (0 < n) × (n < 2 ^ 31))
decode_handle-make_handle type index generation limit ht hi hl hg hb =
    let e = make_handle_sum type index generation ht (omega arith) hb in
    (
      rw e (decode_sum type index generation limit ht hi hl hg),
      (generation * 128 + type * 32 + (index + 1), e, omega arith, omega arith),
    )

decode_pos :
    (value type limit index generation : ℕ)
    → decode_handle (pos value) type limit ≡ ok (index, generation)
    → (value ≡ generation * 128 + type * 32 + (index + 1))
      × (index < limit)
      × (0 < generation)
      × (type < 4)
      × (index < 31)
unfolding decode_handle
decode_pos value type limit index generation h = ground arith

-- A number below 2^31 that is read as a handle is the handle made of what was read, and what was read
-- is an index below the limit and a generation that is not 0.
pub make_handle-decode_handle :
    (value type limit index generation : ℕ)
    → value < 2 ^ 31
    → decode_handle (pos value) type limit ≡ ok (index, generation)
    → (make_handle type index generation ≡ pos value) × (index < limit) × (0 < generation)
make_handle-decode_handle value type limit index generation hv h =
    let (e, lim, g, t, i) = decode_pos value type limit index generation h in
    (rw (make_handle_sum type index generation t i (omega arith), e), lim, g)

-- What is read of a number of any sign lies in range.
pub decode_handle_bounds :
    (handle : ℤ) (type limit index generation : ℕ)
    → decode_handle handle type limit ≡ ok (index, generation)
    → (index < limit) × (0 < generation)
unfolding decode_handle
decode_handle_bounds (pos value) type limit index generation h = ground arith
decode_handle_bounds (negsuc n) type limit index generation h = ground arith

-- A generation is followed by another one, from 1 to 2^24 - 1.
pub next_generation_lem :
    (generation : ℕ)
    → generation < 2 ^ 24
    → (0 < next_generation generation)
      × (next_generation generation < 2 ^ 24)
      × (next_generation generation ≢ generation)
unfolding next_generation
next_generation_lem generation h = ground arith
