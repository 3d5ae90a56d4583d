-- ===== src/Ipc/Vectors.antt =====
-- `wt_ipc_validate_vector_list` and `wt_ipc_validate_vectors` of src/ipc.c.
pub mod Total
use wolf_trust_fork.Base.{
  ℕ, zero, suc, ◌+◌, ◌-◌, Bool, true, false, not, ◌&&◌, ◌||◌, ltb, ◌==◌, if◌then◌else◌,
}
use wolf_trust_fork.Ipc.State.{
  IpcError, bad_argument, vector_count, vector_address, vector_overflow, vector_limit, max_vectors,
  size_max,
}

-- `wt_ipc_vector_t`
pub record Vector : Type 0 where
  pub base : ℕ
  pub length : ℕ

-- What a validation returns: the total length through `total_length`, or an error.
pub data Validation : Type 0 where
  valid : ℕ → Validation
  invalid : IpcError → Validation

-- The body of the loop, at one vector.
unfoldable pub check_vector : Vector → ℕ → Validation
check_vector v total =
    if not (v.length == 0) && v.base == 0
    then invalid vector_address
    else if ltb (size_max - v.base) v.length
    then invalid vector_overflow
    else if ltb (size_max - total) v.length
    then invalid vector_overflow
    else valid (total + v.length)

-- The first `n` vectors, with the total so far; the loop stops at the first error.
unfoldable pub check_vectors : (ℕ → Vector) → ℕ → ℕ → Validation
check_vectors vectors zero total = valid total
check_vectors vectors (suc n) total = elim (check_vectors vectors n total) [
  | valid so_far ↦ check_vector (vectors n) so_far
  | invalid e ↦ invalid e
]

-- A vector array with its count; `null` stands for a null pointer.
unfoldable pub validate_vector_list : Bool → (ℕ → Vector) → ℕ → ℕ → Validation
validate_vector_list null vectors n total =
    if not (n == 0) && null then invalid bad_argument else check_vectors vectors n total

abbrev pub then_valid : Validation → (ℕ → Validation) → Validation
then_valid (valid total) f = f total
then_valid (invalid e) f = invalid e

-- The end of the validation, with the total of all vectors.
unfoldable pub check_limit : ℕ → ℕ → Validation
check_limit total_limit total =
    if not (total_limit == 0) && ltb total_limit total then invalid vector_limit else valid total

abbrev pub too_many : ℕ → ℕ → Bool
too_many input_count output_count =
    ltb max_vectors input_count
    || ltb max_vectors output_count
    || ltb (max_vectors - output_count) input_count

-- The call with a non-null `total_length`.
unfoldable pub validate_vectors : Bool → (ℕ → Vector) → ℕ → Bool → (ℕ → Vector) → ℕ → ℕ → Validation
validate_vectors in_null inputs input_count out_null outputs output_count total_limit =
    if too_many input_count output_count
    then invalid vector_count
    else then_valid (validate_vector_list in_null inputs input_count 0) (λ ins.
      then_valid (validate_vector_list out_null outputs output_count ins) (check_limit total_limit))
