-- ===== src/Ffm/Handle.antt =====
-- `wt_ffm_next_generation`, `wt_ffm_make_handle` and `wt_ffm_decode_handle`: a handle packs a slot's
-- index, its kind and its generation into 31 bits.
pub mod RoundTrip
use wolf_trust_fork.Base.{
  ℕ, ◌+◌, ◌-◌, ◌*◌, ◌/◌, ◌%◌, ◌^◌, bit_or, Bool, not, ◌||◌, ltb, ◌==◌, if◌then◌else◌, ℤ, pos,
  negsuc,
}
use wolf_trust_fork.Ffm.State.{Result, ok, err, bad_handle}

-- `& WT_FFM_HANDLE_GEN_MASK`
abbrev pub generation_bits : ℕ → ℕ
generation_bits n = n % 2 ^ 24

abbrev pub connection_type : ℕ
connection_type = 1

abbrev pub message_type : ℕ
message_type = 2

unfoldable pub next_generation : ℕ → ℕ
next_generation generation =
    let next = generation_bits ((generation + 1) % 2 ^ 32) in if next == 0 then 1 else next

unfoldable pub make_handle : ℕ → ℕ → ℕ → ℤ
make_handle type index generation =
    pos (bit_or (bit_or (generation_bits generation * 2 ^ 7) (type % 2 ^ 2 * 2 ^ 5)) (index + 1))

-- The index and the generation of a handle of the given kind, whose index must be below `limit`.
unfoldable pub decode_handle : ℤ → ℕ → ℕ → Result (ℕ × ℕ)
decode_handle (negsuc n) type limit = err bad_handle
decode_handle (pos value) type limit =
    if value == 0
    then err bad_handle
    else if not (value / 2 ^ 5 % 2 ^ 2 == type) || value % 2 ^ 5 == 0 || ltb limit (value % 2 ^ 5)
    then err bad_handle
    else if value / 2 ^ 7 == 0
    then err bad_handle
    else ok (value % 2 ^ 5 - 1, value / 2 ^ 7)
