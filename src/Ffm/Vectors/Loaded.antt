-- ===== src/Ffm/Vectors/Loaded.antt =====
-- What the preparation of a call's vectors grants and what it loads.
use wolf_trust_fork.Base.{
  ℕ, zero, suc, ◌+◌, ◌≤◌, ◌<◌, ◌≡◌, ◌⊎◌, inl, inr, ap, subst, Bool, true, false, ◌||◌, ◌==◌, ℤ,
  refl, find, find-none, min, arith, Bool-cases, Option-cases,
}
use native.Mathlib.Decide.{ℕ_discrete as dec_eq}
use wolf_trust_fork.Ipc.Vectors.{Vector, Validation, valid, invalid, validate_vectors}
use wolf_trust_fork.Ipc.Vectors.Total.{lengths, validate_vectors-valid}
use wolf_trust_fork.Ffm.State.{Message, ok, ok-injective, passes, transfer_bytes, max_iovec}
use wolf_trust_fork.Ffm.Vectors.{
  Iovecs, any_escapes, escapes, judge, offset_of, gather, fill, load_vectors, prepare_vectors,
}

judge-ok :
    (v : Validation) (m l : Message)
    → judge v m ≡ ok l
    → (m ≡ l) × ((total : ℕ) × (v ≡ valid total))
judge-ok (valid total) m l h = (ok-injective m l h, (total, refl))
judge-ok (invalid e) m l h = absurd (cc h)

-- An input ends before the next ones begin.
offset_of_le : (v : ℕ → Vector) (i n : ℕ) → i < n → offset_of v i + (v i).length ≤ offset_of v n
unfolding offset_of
offset_of_le v i zero lt = absurd (omega arith)
offset_of_le v i (suc n) lt = elim (dec_eq i n) [
  | yes e ↦ subst (λ k. offset_of v i + (v i).length ≤ offset_of v k + (v k).length) e (omega arith)
  | no ne ↦ omega (arith, offset_of_le v i n (omega arith))
]

-- Each input stands at its offset.
gather-byte :
    (memory : ℕ → ℕ) (v : ℕ → Vector) (n : ℕ) (input : ℕ → ℕ) (i k : ℕ)
    → i < n
    → k < (v i).length
    → gather memory v n input (offset_of v i + k) ≡ memory ((v i).base + k)
unfolding gather
gather-byte memory v zero input i k lt inside = absurd (omega arith)
gather-byte memory v (suc n) input i k lt inside = elim (dec_eq n i) [
  | yes e ↦
      subst
        (λ j.
          k < (v j).length
          → gather memory v (suc n) input (offset_of v j + k) ≡ memory ((v j).base + k))
        e (λ here. ground arith) inside
  | no ne ↦ ground (
    arith,
    offset_of_le v i n (omega arith),
    gather-byte memory v n input i k (omega arith) inside,
  )
]

-- The inputs of a message: how many, the size of each, and where it stands, one behind the other.
abbrev pub Laid : Iovecs → ℕ → (ℕ → ℕ) → (ℕ → ℕ) → Type 0
Laid v count size offset =
    (count ≡ v.count)
    × ((i : ℕ) → i < v.count → size i ≡ (v.at i).length)
    × (0 < v.count → offset 0 ≡ 0)
    × ((i : ℕ) → suc i < v.count → offset (suc i) ≡ offset i + size i)
    × ((i : ℕ) → i < v.count → offset i + size i ≤ transfer_bytes)

-- The port lets the caller use every vector that has bytes.
abbrev pub Granted : (ℤ → ℕ → ℕ → Bool) → ℤ → Iovecs → Type 0
Granted check caller v =
    (i : ℕ)
    → i < v.count
    → ((v.at i).length ≡ 0) ⊎ (check caller (v.at i).base (v.at i).length ≡ true)

any_escapes-Granted :
    (check : ℤ → ℕ → ℕ → Bool) (caller : ℤ) (v : Iovecs)
    → v.count ≤ max_iovec
    → any_escapes check caller v ≡ false
    → Granted check caller v
any_escapes-Granted check caller v few e i lt =
    elim (Option-cases (find (λ j. escapes check caller (v.at j)) (min v.count max_iovec))) [
      | inr (j, found) ↦ absurd (cc (found, e))
      | inl never ↦
          let held : escapes check caller (v.at i) ≡ false =
            find-none (λ j. escapes check caller (v.at j)) (min v.count max_iovec) i never
              (ground arith) in
          elim (Bool-cases ((v.at i).length == 0)) [
            | inl z ↦ inl (ground arith)
            | inr nz ↦ inr (ground arith)
          ]
    ]

lengths-offset_of : (v : ℕ → Vector) (n : ℕ) → lengths v n ≡ offset_of v n
unfolding lengths offset_of
lengths-offset_of v zero = refl
lengths-offset_of v (suc n) = ap (λ t. t + (v n).length) (lengths-offset_of v n)

loaded-Laid :
    (v : Iovecs) (size offset : ℕ → ℕ)
    → offset_of v.at v.count ≤ transfer_bytes
    → Laid v v.count
        (fill v.count (λ i. (v.at i).length) size)
        (fill v.count (offset_of v.at) offset)
unfolding offset_of
loaded-Laid v size offset total = (
  refl,
  λ i lt. ground arith,
  λ some_there. ground arith,
  λ i lt. ground arith,
  λ i lt. ground (arith, offset_of_le v.at i v.count lt),
)

-- What a prepared message holds: at most `max_iovec` vectors, all within the caller's memory; the
-- sizes, the offsets, the bytes of the inputs, and the places of the outputs.
pub record Loads (check_read check_write : ℤ → ℕ → ℕ → Bool) (memory : ℕ → ℕ) (caller : ℤ)
    (ins outs : Iovecs) (l : Message) : Type 0 where
  few : ins.count + outs.count ≤ max_iovec
  size : lengths ins.at ins.count + lengths outs.at outs.count ≤ transfer_bytes
  may_read : Granted check_read caller ins
  may_write : Granted check_write caller outs
  inputs : Laid ins l.in_count l.in_size l.in_offset
  outputs : Laid outs l.out_count l.out_size l.out_offset
  bytes :
      (i k : ℕ)
      → i < ins.count
      → k < (ins.at i).length
      → l.input (l.in_offset i + k) ≡ memory ((ins.at i).base + k)
  places : (i : ℕ) → i < outs.count → l.client_output i ≡ (outs.at i).base

module _ (check_read check_write : ℤ → ℕ → ℕ → Bool) where
  -- What is prepared is the message with its vectors loaded; every vector is within the caller's memory,
  -- and the vectors together are valid for the transfer.
  pub prepare_vectors-ok :
      (memory : ℕ → ℕ) (m l : Message) (ins outs : Iovecs)
      → prepare_vectors check_read check_write memory m ins outs ≡ ok l
      → (load_vectors memory m ins outs ≡ l)
        × ((any_escapes check_read m.caller ins || any_escapes check_write m.caller outs) ≡ false)
        × ((total : ℕ) × (validate_vectors ins.null ins.at ins.count outs.null outs.at outs.count
                transfer_bytes
              ≡ valid total))
  unfolding prepare_vectors
  prepare_vectors-ok memory m l ins outs h =
      let (present, rest) = passes _ _ _ l h in
      let (inside, judged) = passes _ _ _ l rest in
      let (loaded, total) = judge-ok _ (load_vectors memory m ins outs) l judged in
      (loaded, inside, total)

  -- A message that `wt_ffm_prepare_vectors` prepares: there are at most four vectors, of at most the
  -- bytes of a transfer together, and the port grants the caller every one that has bytes; the message
  -- has their number and sizes, the offsets of the inputs and those of the outputs one behind the other,
  -- the bytes of every input at its offset, and the address of every output.
  pub prepare_vectors-Loads :
      (memory : ℕ → ℕ) (m l : Message) (ins outs : Iovecs)
      → prepare_vectors check_read check_write memory m ins outs ≡ ok l
      → Loads check_read check_write memory m.caller ins outs l
  prepare_vectors-Loads memory m l ins outs h =
      let (loaded, inside, (total, valid_total)) = prepare_vectors-ok memory m l ins outs h in
      let (few, sum, fits, limited, reads, writes) =
        validate_vectors-valid ins.null ins.at ins.count outs.null outs.at outs.count transfer_bytes
          total valid_total in
      let within : lengths ins.at ins.count + lengths outs.at outs.count ≤ transfer_bytes =
        omega (arith, sum, limited) in
      subst (Loads check_read check_write memory m.caller ins outs) loaded (record {
        few = few;
        size = within;
        may_read = any_escapes-Granted check_read m.caller ins (omega (arith, few)) (ground arith);
        may_write =
            any_escapes-Granted check_write m.caller outs (omega (arith, few)) (ground arith);
        inputs =
            loaded-Laid ins m.in_size m.in_offset
              (omega (arith, within, lengths-offset_of ins.at ins.count));
        outputs =
            loaded-Laid outs m.out_size m.out_offset
              (omega (arith, within, lengths-offset_of outs.at outs.count));
        bytes = λ i k lt below.
            let placed : (load_vectors memory m ins outs).in_offset i ≡ offset_of ins.at i =
              ground arith in
            rw placed (gather-byte memory ins.at ins.count m.input i k lt below);
        places = λ i lt. ground arith;
      })
