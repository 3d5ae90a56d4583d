-- ===== src/Base/Array.antt =====
-- C arrays of a fixed size as functions of the index, with the loops that the program runs over them.
-- The size is kept beside the array; the cells from there on are no part of it.
use Prim.Native.Nat.{ℕ, zero, suc, ◌+◌, ◌≤◌, ◌<◌}
use mathlib.Core.Path.{◌≡◌, refl, ap, ◌∙◌}
use mathlib.Core.Logic.{◌≢◌, inl, inr}
use mathlib.Core.Bool.{Bool, true, false}
use mathlib.Core.Option.{Option, none, some}
use mathlib.Core.List.{List, [], ◌∷◌}
use native.Mathlib.Omega.{arith}
use native.Mathlib.Decide.{ℕ_discrete as dec_eq}
use wolf_trust_fork.Base.Tests.{◌==◌, if◌then◌else◌, Bool-cases, Option-cases}

abbrev pub length {ℓ} : {A : Type ℓ} → List A → ℕ
length [] = 0
length (x ∷ q) = suc (length q)

-- `a[i] = v`
abbrev pub update {ℓ} : {A : Type ℓ} → (ℕ → A) → ℕ → A → ℕ → A
update a i v j = if i == j then v else a j

-- `for (k = i; k < i + n; k++) if (test(k)) return k;`
unfoldable pub find_from : (ℕ → Bool) → ℕ → ℕ → Option ℕ
find_from test i zero = none
find_from test i (suc n) = let rest = find_from test (i + 1) n in if test i then some i else rest

unfoldable pub find : (ℕ → Bool) → ℕ → Option ℕ
unfolding find_from
find test n = find_from test 0 n

-- `for (k = 0; k < n; k++) if (test(k)) count++;`
unfoldable pub count : (ℕ → Bool) → ℕ → ℕ
count test zero = 0
count test (suc n) = count test n + (if test n then 1 else 0)

find_from-some :
    (test : ℕ → Bool) (i n r : ℕ)
    → find_from test i n ≡ some r
    → (i ≤ r) × (r < i + n) × (test r ≡ true)
unfolding find_from
find_from-some test i zero r h = ground arith
find_from-some test i (suc n) r h = ground (arith, find_from-some test (i + 1) n r)

find_from_first :
    (test : ℕ → Bool) (i n r j : ℕ) → find_from test i n ≡ some r → i ≤ j → j < r → test j ≡ false
unfolding find_from
find_from_first test i zero r j h lo hi = ground arith
find_from_first test i (suc n) r j h lo hi = elim (Bool-cases (i == j)) [
  | inl e ↦ ground arith
  | inr e ↦ ground (arith, find_from_first test (i + 1) n r j)
]

find_from-none :
    (test : ℕ → Bool) (i n j : ℕ) → find_from test i n ≡ none → i ≤ j → j < i + n → test j ≡ false
unfolding find_from
find_from-none test i zero j h lo hi = absurd (omega arith)
find_from-none test i (suc n) j h lo hi = elim (Bool-cases (i == j)) [
  | inl e ↦ ground arith
  | inr e ↦ ground (arith, find_from-none test (i + 1) n j)
]

-- A search returns an index in range that passes the test.
pub find-some : (test : ℕ → Bool) (n r : ℕ) → find test n ≡ some r → (r < n) × (test r ≡ true)
unfolding find
find-some test n r h = ground (arith, find_from-some test 0 n r h)

pub find_first : (test : ℕ → Bool) (n r j : ℕ) → find test n ≡ some r → j < r → test j ≡ false
unfolding find
find_first test n r j h lt = find_from_first test 0 n r j h (omega arith) lt

-- A search fails only if every index in range fails the test.
pub find-none : (test : ℕ → Bool) (n j : ℕ) → find test n ≡ none → j < n → test j ≡ false
unfolding find
find-none test n j h lt = find_from-none test 0 n j h (omega arith) (omega arith)

-- A search in which every index fails the test fails.
pub find-never : (test : ℕ → Bool) (n : ℕ) → ((j : ℕ) → j < n → test j ≡ false) → find test n ≡ none
find-never test n h = elim (Option-cases (find test n)) [
  | inl e ↦ e
  | inr (r, e) ↦ let (lt, t) = find-some test n r e in absurd (cc (t, h r lt))
]

-- A count is at most the number of cells, and looks at no cell past them.
pub count-le : (test : ℕ → Bool) (n : ℕ) → count test n ≤ n
unfolding count
count-le test zero = omega arith
count-le test (suc n) = ground (arith, count-le test n)

pub count_cong : (p q : ℕ → Bool) (n : ℕ) → ((j : ℕ) → j < n → p j ≡ q j) → count p n ≡ count q n
unfolding count
count_cong p q zero h = refl
count_cong p q (suc n) h =
    ground (arith, h n (omega arith), count_cong p q n (λ j lt. h j (omega arith)))

-- Two tests that agree off one index: the counts differ by what the tests say there.
pub count_but_one :
    (p q : ℕ → Bool) (n i : ℕ)
    → i < n
    → ((j : ℕ) → j < n → i ≢ j → p j ≡ q j)
    → count p n + (if q i then 1 else 0) ≡ count q n + (if p i then 1 else 0)
unfolding count
count_but_one p q zero i lt h = absurd (omega arith)
count_but_one p q (suc n) i lt h = elim (Bool-cases (i == n)) [
  | inl e ↦ ground (arith, count_cong p q n (λ j below. h j (omega arith) (ground arith)))
  | inr e ↦ ground (
    arith,
    h n (omega arith) (ground arith),
    count_but_one p q n i (ground arith) (λ j below ne. h j (omega arith) ne),
  )
]

pub count_none : (p : ℕ → Bool) (n : ℕ) → ((j : ℕ) → j < n → p j ≡ false) → count p n ≡ 0
unfolding count
count_none p zero h = refl
count_none p (suc n) h =
    ground (arith, h n (omega arith), count_none p n (λ j lt. h j (omega arith)))

-- `for (k = 0; k < n; k++) s = body(k, s);`
unfoldable pub for_below {ℓ} : {S : Type ℓ} → ℕ → (ℕ → S → S) → S → S
for_below zero body s = s
for_below (suc n) body s = body n (for_below n body s)

-- The invariant rule of that loop.
pub for_below_inv {ℓ κ} :
    {S : Type ℓ} (P : ℕ → S → Type κ) (n : ℕ) (body : ℕ → S → S) (s : S)
    → ((k : ℕ) (t : S) → k < n → P k t → P (suc k) (body k t))
    → P 0 s
    → P n (for_below n body s)
unfolding for_below
for_below_inv P zero body s keep h = h
for_below_inv P (suc n) body s keep h =
    keep n (for_below n body s) (omega arith)
      (for_below_inv P n body s (λ k t lt p. keep k t (omega arith) p) h)

-- `for (k = 0; k < n; k++) a[k] = f(a[k]);`
abbrev pub map_cell {ℓ} : {A : Type ℓ} → (A → A) → ℕ → (ℕ → A) → ℕ → A
map_cell f i a = update a i (f (a i))

pub for_below-map_cell_past {ℓ} :
    {A : Type ℓ} (f : A → A) (n j : ℕ) (a : ℕ → A) → n ≤ j → for_below n (map_cell f) a j ≡ a j
unfolding for_below
for_below-map_cell_past f zero j a le = refl
for_below-map_cell_past f (suc n) j a le =
    let differs : (n == j) ≡ false = ground arith in
    rw differs (for_below-map_cell_past f n j a (omega arith))

pub for_below-map_cell {ℓ} :
    {A : Type ℓ} (f : A → A) (n j : ℕ) (a : ℕ → A) → j < n → for_below n (map_cell f) a j ≡ f (a j)
unfolding for_below
for_below-map_cell f zero j a lt = absurd (omega arith)
for_below-map_cell f (suc n) j a lt = elim (dec_eq n j) [
  | yes e ↦
      let same : (n == j) ≡ true = ground arith in
      rw same (ap f (for_below-map_cell_past f n n a (omega arith) ∙ ap a e))
  | no ne ↦
      let differs : (n == j) ≡ false = ground arith in
      rw differs (for_below-map_cell f n j a (omega arith))
]
