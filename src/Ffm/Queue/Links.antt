-- ===== src/Ffm/Queue/Links.antt =====
-- Linked chains of messages as lists of indices: what a write to one link does to a chain.
use wolf_trust_fork.Base.{
  ℕ, suc, ◌<◌, ◌≡◌, ◌≢◌, ◌⊎◌, refl, sym, ap, subst, Bool, true, false, ◌||◌, List, [], ◌∷◌, ◌++◌,
  arith, ◌==◌, if◌then◌else◌, Bool-cases, inl, inr, update, count, count-le, count_but_one,
  count_none, length,
}
use native.Mathlib.Decide.{ℕ_discrete as dec_eq}
use wolf_trust_fork.Ffm.State.{max_messages, queue_none}

abbrev pub member : ℕ → List ℕ → Bool
member m [] = false
member m (x ∷ q) = m == x || member m q

abbrev pub Distinct : List ℕ → Type 0
Distinct [] = Unit
Distinct (x ∷ q) = (member x q ≡ false) × Distinct q

-- The chain that starts at index `h` holds the messages of the list, in order, and then ends.
abbrev pub Links : (ℕ → ℕ) → ℕ → List ℕ → Type 0
Links next h [] = h ≡ queue_none
Links next h (m ∷ q) = (h ≡ m) × (m < max_messages) × Links next (next m) q

abbrev pub last_or : ℕ → List ℕ → ℕ
last_or d [] = d
last_or d (x ∷ q) = last_or x q

-- The list without `m`.
unfoldable pub remove : ℕ → List ℕ → List ℕ
remove m [] = []
remove m (x ∷ q) = if x == m then q else x ∷ remove m q

pub Links-cong :
    (next next' : ℕ → ℕ) (h : ℕ) (q : List ℕ)
    → ((j : ℕ) → member j q ≡ true → next' j ≡ next j)
    → Links next h q
    → Links next' h q
Links-cong next next' h [] e l = l
Links-cong next next' h (m ∷ q) e (p, b, l) =
    (p, b, rw (e m (ground arith)) (Links-cong next next' (next m) q (λ j k. e j (ground arith)) l))

pub Links-update :
    (next : ℕ → ℕ) (h i v : ℕ) (q : List ℕ)
    → member i q ≡ false
    → Links next h q
    → Links (update next i v) h q
Links-update next h i v q a l = Links-cong next (update next i v) h q (λ j k. differs j k) l
  where
    differs : (j : ℕ) → member j q ≡ true → update next i v j ≡ next j
    differs j k = elim (Bool-cases (i == j)) [
      | inl e ↦ let p : i ≡ j = ground arith in cc (sym k, ap (λ n. member n q) p, a)
      | inr e ↦ ground arith
    ]

pub last_or-member : (x : ℕ) (q : List ℕ) → member (last_or x q) (x ∷ q) ≡ true
last_or-member x [] = ground arith
last_or-member x (y ∷ q) = ground (arith, last_or-member y q)

pub last_or-ne : (x y : ℕ) (q : List ℕ) → member x (y ∷ q) ≡ false → x ≢ last_or y q
last_or-ne x y q a e = cc (last_or-member y q, ap (λ n. member n (y ∷ q)) e, a)

pub last_or-append : (d m : ℕ) (q : List ℕ) → last_or d (q ++ m ∷ []) ≡ m
last_or-append d m [] = refl
last_or-append d m (x ∷ q) = last_or-append x m q

pub member-append : (m : ℕ) (p q : List ℕ) → member m (p ++ q) ≡ (member m p || member m q)
member-append m [] q = refl
member-append m (x ∷ p) q = ground (arith, member-append m p q)

-- Linking `m` behind the last message of a chain that is not empty.
pub Links-append :
    (next : ℕ → ℕ) (h x m : ℕ) (q : List ℕ)
    → Links next h (x ∷ q)
    → Distinct (x ∷ q)
    → member m (x ∷ q) ≡ false
    → m < max_messages
    → next m ≡ queue_none
    → Links (update next (last_or x q) m) h (x ∷ q ++ m ∷ [])
Links-append next h x m [] (p, b, l) d a lt e = ground arith
Links-append next h x m (y ∷ q) (p, b, l) (d, ds) a lt e =
    let ne = last_or-ne x y q d in
    let rest = Links-append next (next x) y m q l ds (ground arith) lt e in
    let there : update next (last_or y q) m x ≡ next x = ground arith in
    (p, b, subst (λ k. Links (update next (last_or y q) m) k (y ∷ q ++ m ∷ [])) (sym there) rest)

pub Distinct-append :
    (q : List ℕ) (m : ℕ) → Distinct q → member m q ≡ false → Distinct (q ++ m ∷ [])
Distinct-append [] m d a = (refl, tt)
Distinct-append (x ∷ q) m (e, d) a =
    (ground (arith, member-append x q (m ∷ [])), Distinct-append q m d (ground arith))

-- Distinct message indices are at most as many as there are messages.
pub length-le :
    (n : ℕ) (q : List ℕ)
    → Distinct q
    → ((j : ℕ) → member j q ≡ true → j < n)
    → count (λ j. member j q) n ≡ length q
length-le n [] d b = count_none (λ j. false) n (λ j lt. refl)
length-le n (x ∷ q) (e, d) b =
    let ih = length-le n q d (λ j k. b j (ground arith)) in
    let one =
      count_but_one (λ j. member j (x ∷ q)) (λ j. member j q) n x (b x (ground arith))
        (λ j lt ne. ground arith) in
    ground (arith, ih, one)

pub Links-bound :
    (next : ℕ → ℕ) (h j : ℕ) (q : List ℕ) → Links next h q → member j q ≡ true → j < max_messages
Links-bound next h j [] l k = cc
Links-bound next h j (m ∷ q) (p, b, l) k = elim (Bool-cases (j == m)) [
  | inl e ↦ ground arith
  | inr e ↦ Links-bound next (next m) j q l (ground arith)
]

-- Unlinking the message that heads a chain.
pub Links-tail :
    (next : ℕ → ℕ) (h m v : ℕ) (q : List ℕ)
    → Links next h (m ∷ q)
    → member m q ≡ false
    → Links (update next m v) (next m) q
Links-tail next h m v q (p, b, l) a = Links-update next (next m) m v q a l

-- Unlinking `m`, which stands behind the messages `x ∷ p` of a chain.
pub Links-unlink :
    (next : ℕ → ℕ) (h x m v : ℕ) (p q : List ℕ)
    → Links next h (x ∷ p ++ m ∷ q)
    → Distinct (x ∷ p ++ m ∷ q)
    → Links (update (update next (last_or x p) (next m)) m v) h (x ∷ p ++ q)
Links-unlink next h x m v [] q (e, b, (f, c, l)) (d, (d', ds)) =
    let old =
      Links-update (update next x (next m)) (next m) m v q d'
        (Links-update next (next m) x (next m) q (ground arith) l) in
    let there : update (update next x (next m)) m v x ≡ next m = ground arith in
    (e, b, subst (λ k. Links (update (update next x (next m)) m v) k q) (sym there) old)
Links-unlink next h x m v (y ∷ p) q (e, b, l) (d, ds) =
    let rest = Links-unlink next (next x) y m v p q l ds in
    let apart : (member x (y ∷ p) ≡ false) × (m ≢ x) =
      ground (arith, member-append x (y ∷ p) (m ∷ q)) in
    let there : update (update next (last_or y p) (next m)) m v x ≡ next x =
      ground (arith, apart, last_or-ne x y p) in
    (
      e,
      b,
      subst (λ k. Links (update (update next (last_or y p) (next m)) m v) k (y ∷ p ++ q))
          (sym there) rest,
    )

pub Distinct-remove :
    (p : List ℕ) (m : ℕ) (q : List ℕ)
    → Distinct (p ++ m ∷ q)
    → Distinct (p ++ q) × (member m (p ++ q) ≡ false)
Distinct-remove [] m q (e, d) = (d, e)
Distinct-remove (x ∷ p) m q (e, d) =
    let (ds, a) = Distinct-remove p m q d in
    (
      (ground (arith, member-append x p (m ∷ q), member-append x p q), ds),
      ground (arith, member-append x p (m ∷ q), a),
    )

pub last_or-split : (d m : ℕ) (p q : List ℕ) → last_or d (p ++ m ∷ q) ≡ last_or m q
last_or-split d m [] q = refl
last_or-split d m (x ∷ p) q = last_or-split x m p q

-- The tail after an unlinking: the predecessor, if the last message went.
pub last_or-unlink :
    (d m : ℕ) (q : List ℕ)
    → member m q ≡ false
    → (if last_or m q == m then d else last_or m q) ≡ last_or d q
last_or-unlink d m [] a = ground arith
last_or-unlink d m (y ∷ q) a = ground (arith, last_or-ne m y q)

-- The messages before `m` in a chain, and `m` itself, are message indices.
pub last_or-bound :
    (next : ℕ → ℕ) (h x m : ℕ) (p q : List ℕ)
    → Links next h (x ∷ p ++ m ∷ q)
    → last_or x p < max_messages
last_or-bound next h x m p q l =
    Links-bound next h (last_or x p) (x ∷ p ++ m ∷ q) l
      (ground (arith, member-append (last_or x p) (x ∷ p) (m ∷ q), last_or-member x p))

pub Distinct-later : (p : List ℕ) (m : ℕ) (q : List ℕ) → Distinct (p ++ m ∷ q) → member m q ≡ false
Distinct-later [] m q (e, d) = e
Distinct-later (x ∷ p) m q (e, d) = Distinct-later p m q d

pub last_or-join : (x : ℕ) (p q : List ℕ) → last_or x (p ++ q) ≡ last_or (last_or x p) q
last_or-join x [] q = refl
last_or-join x (y ∷ p) q = last_or-join y p q

pub remove-nil : (m : ℕ) → remove m [] ≡ []
unfolding remove
remove-nil m = refl

pub remove-found : (x m : ℕ) (q : List ℕ) → x ≡ m → remove m (x ∷ q) ≡ q
unfolding remove
remove-found x m q e = ground arith

pub remove-other : (x m : ℕ) (q : List ℕ) → x ≢ m → remove m (x ∷ q) ≡ x ∷ remove m q
unfolding remove
remove-other x m q e = ground arith

pub length-lt :
    (next : ℕ → ℕ) (h : ℕ) (q : List ℕ) → Links next h q → Distinct q → length q < suc max_messages
length-lt next h q l d = omega (
  arith,
  length-le max_messages q d (λ j k. Links-bound next h j q l k),
  count-le (λ j. member j q) max_messages,
)

-- The tail of a queue is one of its messages, unless the queue is empty.
pub last_or-cases :
    (q : List ℕ) → (last_or queue_none q ≡ queue_none) ⊎ (member (last_or queue_none q) q ≡ true)
last_or-cases [] = inl refl
last_or-cases (x ∷ q) = inr (last_or-member x q)

pub member-remove_self : (m : ℕ) (q : List ℕ) → Distinct q → member m (remove m q) ≡ false
unfolding remove
member-remove_self m [] d = refl
member-remove_self m (x ∷ q) (e, d) = elim (dec_eq x m) [
  | yes p ↦ rw p (rw (remove-found m m q refl) (rw p at e))
  | no p ↦ ground (arith, member-remove_self m q d)
]

pub member-remove_ne : (m j : ℕ) (q : List ℕ) → m ≢ j → member j (remove m q) ≡ member j q
unfolding remove
member-remove_ne m j [] ne = refl
member-remove_ne m j (x ∷ q) ne = ground (arith, member-remove_ne m j q ne)
