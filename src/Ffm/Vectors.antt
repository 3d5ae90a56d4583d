-- ===== src/Ffm/Vectors.antt =====
-- `wt_ffm_prepare_vectors`: the checks of a call's vectors, and the copy of the inputs into the message.
-- Client memory is a function of the address; what the port says of a range is a parameter. The two
-- global words that record the last refusal for a debugger are left out.
pub mod Loaded
use wolf_trust_fork.Base.{
  ℕ, zero, suc, ◌+◌, ◌-◌, Bool, true, false, not, ◌&&◌, ◌||◌, ltb, leb, ◌==◌, if◌then◌else◌, Option,
  none, some, ℤ, update, find, min,
}
use wolf_trust_fork.Ipc.Vectors.{Vector, Validation, valid, invalid, validate_vectors}
use wolf_trust_fork.Ffm.State.{
  Message, Result, ok, err, bad_argument, bad_policy, bad_buffer, max_iovec, transfer_bytes,
}

-- `psa_invec` or `psa_outvec` arrays: whether the pointer is null, the count, and the vectors.
pub record Iovecs : Type 0 where
  pub null : Bool
  pub count : ℕ
  pub at : ℕ → Vector

-- `memcpy(dst + offset, src, n)`
abbrev pub copy : (ℕ → ℕ) → ℕ → (ℕ → ℕ) → ℕ → ℕ → ℕ
copy dst offset src n j = if leb offset j && ltb j (offset + n) then src (j - offset) else dst j

-- `for (i = 0; i < n; i++) offset += v[i].len`
unfoldable pub offset_of : (ℕ → Vector) → ℕ → ℕ
offset_of v zero = 0
offset_of v (suc n) = offset_of v n + (v n).length

-- The copy of the first `n` inputs, one behind the other.
unfoldable pub gather : (ℕ → ℕ) → (ℕ → Vector) → ℕ → (ℕ → ℕ) → ℕ → ℕ
gather memory v zero input = input
gather memory v (suc n) input =
    copy (gather memory v n input) (offset_of v n) (λ k. memory ((v n).base + k)) (v n).length

-- The fields of the first `n` cells, the others as they were.
abbrev pub fill : ℕ → (ℕ → ℕ) → (ℕ → ℕ) → ℕ → ℕ
fill n new old i = if ltb i n then new i else old i

abbrev pub load_vectors : (ℕ → ℕ) → Message → Iovecs → Iovecs → Message
load_vectors memory m ins outs = record m {
  in_count = ins.count;
  out_count = outs.count;
  in_offset = fill ins.count (offset_of ins.at) m.in_offset;
  in_size = fill ins.count (λ i. (ins.at i).length) m.in_size;
  input = gather memory ins.at ins.count m.input;
  out_offset = fill outs.count (offset_of outs.at) m.out_offset;
  out_size = fill outs.count (λ i. (outs.at i).length) m.out_size;
  client_output = fill outs.count (λ i. (outs.at i).base) m.client_output;
}

-- A message is loaded only if its vectors are valid.
abbrev pub judge : Validation → Message → Result Message
judge (valid total) m = ok m
judge (invalid e) m = err bad_buffer

-- A vector with bytes that the port does not let the caller use.
abbrev pub escapes : (ℤ → ℕ → ℕ → Bool) → ℤ → Vector → Bool
escapes check caller v = not (v.length == 0) && not (check caller v.base v.length)

abbrev pub any_escapes : (ℤ → ℕ → ℕ → Bool) → ℤ → Iovecs → Bool
any_escapes check caller v =
    elim (find (λ i. escapes check caller (v.at i)) (min v.count max_iovec)) [
      | none ↦ false
      | some i ↦ true
    ]

module _ (check_read check_write : ℤ → ℕ → ℕ → Bool) where
  unfoldable pub prepare_vectors : (ℕ → ℕ) → Message → Iovecs → Iovecs → Result Message
  prepare_vectors memory m ins outs =
      if not (ins.count == 0) && ins.null || not (outs.count == 0) && outs.null
      then err bad_argument
      else if any_escapes check_read m.caller ins || any_escapes check_write m.caller outs
      then err bad_policy
      else judge
          (validate_vectors ins.null ins.at ins.count outs.null outs.at outs.count transfer_bytes)
          (load_vectors memory m ins outs)
