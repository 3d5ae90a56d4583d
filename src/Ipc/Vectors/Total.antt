-- ===== src/Ipc/Vectors/Total.antt =====
-- What the validation of a call's vectors accepts.
use wolf_trust_fork.Base.{
  ℕ, zero, suc, ◌+◌, ◌≤◌, ◌<◌, ◌≡◌, ◌≢◌, ◌⊎◌, inl, inr, refl, subst, arith, Bool, true, false,
  if◌then◌else◌,
}
use native.Mathlib.Decide.{ℕ_discrete as dec_eq}
use wolf_trust_fork.Ipc.State.{IpcError, vector_count, max_vectors, size_max}
use wolf_trust_fork.Ipc.Vectors.{
  Vector, Validation, valid, invalid, check_vector, check_vectors, validate_vector_list, then_valid,
  check_limit, too_many, validate_vectors,
}

-- The sum of the lengths of the first `n` vectors.
unfoldable pub lengths : (ℕ → Vector) → ℕ → ℕ
lengths v zero = 0
lengths v (suc n) = lengths v n + (v n).length

-- A vector with bytes stands at an address that is not 0, and ends within the address space.
abbrev pub Addressable : Vector → Type 0
Addressable v = v.length ≢ 0 → (v.base ≢ 0) × (v.base + v.length ≤ size_max)

Validation-cases : (x : Validation) → ((e : IpcError) × (x ≡ invalid e)) ⊎ ((t : ℕ) × (x ≡ valid t))
Validation-cases (valid t) = inr (t, refl)
Validation-cases (invalid e) = inl (e, refl)

check_vector-valid :
    (v : Vector) (t u : ℕ)
    → t ≤ size_max
    → check_vector v t ≡ valid u
    → (u ≡ t + v.length) × (u ≤ size_max) × Addressable v
unfolding check_vector
check_vector-valid v t u le h = (ground arith, ground arith, λ ne. (ground arith, ground arith))

check_vectors-valid :
    (v : ℕ → Vector) (n t u : ℕ)
    → t ≤ size_max
    → check_vectors v n t ≡ valid u
    → (u ≡ t + lengths v n) × (u ≤ size_max) × ((j : ℕ) → j < n → Addressable (v j))
unfolding check_vectors lengths
check_vectors-valid v zero t u le h = (ground arith, ground arith, λ j lt. absurd (omega arith))
check_vectors-valid v (suc n) t u le h = elim (Validation-cases (check_vectors v n t)) [
  | inl (e, x) ↦ absurd (ground (arith, x))
  | inr (s, x) ↦
      let (sum, bound, each) = check_vectors-valid v n t s le x in
      let (last, top, new) = check_vector-valid (v n) s u bound (rw (x, check_vectors) at h) in
      (
        omega arith,
        top,
        λ j lt. elim (dec_eq n j) [
          | yes e ↦ subst (λ k. Addressable (v k)) e new
          | no ne ↦ each j (omega arith)
        ],
      )
]

validate_vector_list-valid :
    (null : Bool) (v : ℕ → Vector) (n t u : ℕ)
    → t ≤ size_max
    → validate_vector_list null v n t ≡ valid u
    → (u ≡ t + lengths v n) × (u ≤ size_max) × ((j : ℕ) → j < n → Addressable (v j))
unfolding validate_vector_list
validate_vector_list-valid null v n t u le h =
    check_vectors-valid v n t u le (let rest : check_vectors v n t ≡ valid u = ground arith in rest)

then_valid-valid :
    (x : Validation) (f : ℕ → Validation) (u : ℕ)
    → then_valid x f ≡ valid u
    → (t : ℕ) × (x ≡ valid t) × (f t ≡ valid u)
then_valid-valid (valid t) f u h = (t, refl, h)
then_valid-valid (invalid e) f u h = absurd (cc h)

unless_many :
    (b : Bool) (x : Validation) (u : ℕ)
    → (if b then invalid vector_count else x) ≡ valid u
    → (b ≡ false) × (x ≡ valid u)
unless_many true x u h = absurd (cc h)
unless_many false x u h = (refl, h)

check_limit-valid :
    (limit t u : ℕ) → check_limit limit t ≡ valid u → (u ≡ t) × (limit ≢ 0 → u ≤ limit)
unfolding check_limit
check_limit-valid limit t u h = (ground arith, λ ne. ground arith)

-- Vectors that `wt_ipc_validate_vectors` accepts are at most four together, each of them lies within the
-- address space and not at address 0 unless it is empty; the total that is returned is the sum of all
-- their lengths, without overflow, and it is within the limit if there is one.
pub validate_vectors-valid :
    (in_null : Bool) (ins : ℕ → Vector) (n : ℕ) (out_null : Bool) (outs : ℕ → Vector)
    (k limit total : ℕ)
    → validate_vectors in_null ins n out_null outs k limit ≡ valid total
    → (n + k ≤ max_vectors)
      × (total ≡ lengths ins n + lengths outs k)
      × (total ≤ size_max)
      × (limit ≢ 0 → total ≤ limit)
      × ((j : ℕ) → j < n → Addressable (ins j))
      × ((j : ℕ) → j < k → Addressable (outs j))
unfolding validate_vectors
validate_vectors-valid in_null ins n out_null outs k limit total h =
    let (few, lists) = unless_many (too_many n k) _ total h in
    let (a, first, rest) = then_valid-valid (validate_vector_list in_null ins n 0) _ total lists in
    let (b, second, last) =
      then_valid-valid (validate_vector_list out_null outs k a) (check_limit limit) total rest in
    let (sum, bound, each) = validate_vector_list-valid in_null ins n 0 a (omega arith) first in
    let (sum2, bound2, each2) = validate_vector_list-valid out_null outs k a b bound second in
    let (same, within) = check_limit-valid limit b total last in
    (ground arith, omega arith, omega arith, within, each, each2)
