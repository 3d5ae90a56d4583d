-- ===== src/Base/Bits.antt =====
-- `|`, `&` and `~` on machine words at variable values: the digit recursion of the native operations
-- and the laws of fields and flag sets that follow from it.
use Prim.Native.Nat.{
  ℕ, zero, suc, ◌+◌, ◌-◌, ◌*◌, ◌/◌, ◌%◌, ◌^◌, ◌≤◌, ◌<◌, min, max, bit_and, bit_or, digits,
  bit_and-bitwise, bit_or-bitwise,
}
use mathlib.Core.Path.{◌≡◌, refl, sym, ap, ◌∙◌}
use native.Mathlib.Decide.{ℕ_discrete as dec_eq}
use native.Mathlib.Nat.{pow-suc}
use native.Mathlib.Omega.{arith}

-- `|` and `&` recur on the digits of the first number, with that number as fuel; `z` is what is left
-- where it has no digit, and `f` joins two digits.
module _ (z : ℕ → ℕ) (f : ℕ → ℕ → ℕ) where
  nothing : (m b : ℕ) → digits z f m 0 b ≡ z b
  nothing zero b = refl
  nothing (suc m) b = refl

  -- Spare fuel is left over.
  between : (m n a b : ℕ) → a ≤ n → n ≤ m → digits z f m a b ≡ digits z f n a b
  between m n zero b low high = nothing m b ∙ sym (nothing n b)
  between m zero (suc a) b low high = absurd (omega arith)
  between zero (suc n) (suc a) b low high = absurd (omega arith)
  between (suc m) (suc n) (suc a) b low high =
      let half : suc a / 2 ≤ n = omega arith in
      ap (λ d. d * 2 + f (suc a % 2) (b % 2)) (between m n (suc a / 2) (b / 2) half (omega arith))

  least : (m a b : ℕ) → a ≤ m → digits z f m a b ≡ digits z f a a b
  least m a b high = between m a a b (omega arith) high

  -- A number that is not 0 has a lowest digit.
  pub lowest :
      (a b : ℕ)
      → 0 < a
      → digits z f a a b ≡ digits z f (a / 2) (a / 2) (b / 2) * 2 + f (a % 2) (b % 2)
  lowest zero b h = absurd (omega arith)
  lowest (suc a) b h =
      let fewer : suc a / 2 ≤ a = omega arith in
      ap (λ d. d * 2 + f (suc a % 2) (b % 2)) (least a (suc a / 2) (b / 2) fewer)

pub zero-bit_or : (b : ℕ) → bit_or 0 b ≡ b
zero-bit_or = bit_or-bitwise 0

pub zero-bit_and : (b : ℕ) → bit_and 0 b ≡ 0
zero-bit_and = bit_and-bitwise 0

-- The lowest binary digit of `|`, and the rest.
pub bit_or_step : (a b : ℕ) → bit_or a b ≡ max (a % 2) (b % 2) + 2 * bit_or (a / 2) (b / 2)
bit_or_step a b = elim (dec_eq a 0) [
  | yes e ↦ rw (e, zero-bit_or) (omega (arith, zero-bit_or (b / 2)))
  | no ne ↦ omega (
    arith,
    lowest (λ d. d) max a b (omega arith),
    bit_or-bitwise a b,
    bit_or-bitwise (a / 2) (b / 2),
  )
]

-- The lowest binary digit of `&`, and the rest.
pub bit_and_step : (a b : ℕ) → bit_and a b ≡ min (a % 2) (b % 2) + 2 * bit_and (a / 2) (b / 2)
bit_and_step a b = elim (dec_eq a 0) [
  | yes e ↦ rw (e, zero-bit_and) (omega (arith, zero-bit_and (b / 2)))
  | no ne ↦ omega (
    arith,
    lowest (λ d. zero) min a b (omega arith),
    bit_and-bitwise a b,
    bit_and-bitwise (a / 2) (b / 2),
  )
]

-- Each law below goes from `a / 2` to `a`; the width `w` bounds the number of steps.
or_zero_width : (w a : ℕ) → a ≤ w → bit_or a 0 ≡ a
or_zero_width w zero h = zero-bit_or 0
or_zero_width zero (suc a) h = absurd (omega arith)
or_zero_width (suc w) (suc a) h =
    omega (arith, bit_or_step (suc a) 0, or_zero_width w (suc a / 2) (omega arith))

pub bit_or-zero : (a : ℕ) → bit_or a 0 ≡ a
bit_or-zero a = or_zero_width a a (omega arith)

-- `|` of two fields that share no bit is their sum.
pub bit_or-five : (q r : ℕ) → r < 32 → bit_or (q * 32) r ≡ q * 32 + r
bit_or-five q r h = ground (
  arith,
  bit_or_step (q * 32) r,
  bit_or_step (q * 16) (r / 2),
  bit_or_step (q * 8) (r / 4),
  bit_or_step (q * 4) (r / 8),
  bit_or_step (q * 2) (r / 16),
  bit_or-zero q,
)

pub bit_or-seven : (q r : ℕ) → r < 128 → bit_or (q * 128) r ≡ q * 128 + r
bit_or-seven q r h =
    ground (arith, bit_or_step (q * 128) r, bit_or_step (q * 64) (r / 2), bit_or-five q (r / 4))

and_zero_width : (w a : ℕ) → a ≤ w → bit_and a 0 ≡ 0
and_zero_width w zero h = zero-bit_and 0
and_zero_width zero (suc a) h = absurd (omega arith)
and_zero_width (suc w) (suc a) h =
    omega (arith, bit_and_step (suc a) 0, and_zero_width w (suc a / 2) (omega arith))

pub bit_and-zero : (a : ℕ) → bit_and a 0 ≡ 0
bit_and-zero a = and_zero_width a a (omega arith)

or_halves :
    (a b : ℕ) → (bit_or a b / 2 ≡ bit_or (a / 2) (b / 2)) × (bit_or a b % 2 ≡ max (a % 2) (b % 2))
or_halves a b = omega (arith, bit_or_step a b)

-- Setting the flags of `s` shows every flag of `s`.
and_or_width : (w a s : ℕ) → s ≤ w → bit_and (bit_or a s) s ≡ s
and_or_width w a zero h = bit_and-zero (bit_or a 0)
and_or_width zero a (suc s) h = absurd (omega arith)
and_or_width (suc w) a (suc s) h = ground (
  arith,
  or_halves a (suc s),
  bit_and_step (bit_or a (suc s)) (suc s),
  and_or_width w (a / 2) (suc s / 2) (omega arith),
)

pub bit_and-bit_or : (a s : ℕ) → bit_and (bit_or a s) s ≡ s
bit_and-bit_or a s = and_or_width s a s (omega arith)

and_halves :
    (a b : ℕ)
    → (bit_and a b / 2 ≡ bit_and (a / 2) (b / 2)) × (bit_and a b % 2 ≡ min (a % 2) (b % 2))
and_halves a b = omega (arith, bit_and_step a b)

-- `~s` on `w` bits.
abbrev pub bit_not : ℕ → ℕ → ℕ
bit_not w s = 2 ^ w - 1 - s

not_halves :
    (w s : ℕ)
    → s < 2 ^ suc w
    → (bit_not (suc w) s / 2 ≡ bit_not w (s / 2)) × (bit_not (suc w) s % 2 + s % 2 ≡ 1)
not_halves w s h = omega (arith, pow-suc 2 w)

half-lt : (w s : ℕ) → s < 2 ^ suc w → s / 2 < 2 ^ w
half-lt w s h = omega (arith, pow-suc 2 w)

-- Clearing the flags of `s` leaves none of them.
pub bit_and-bit_not : (w a s : ℕ) → s < 2 ^ w → bit_and (bit_and a (bit_not w s)) s ≡ 0
bit_and-bit_not zero a zero h = bit_and-zero (bit_and a (bit_not 0 0))
bit_and-bit_not zero a (suc s) h = absurd (omega arith)
bit_and-bit_not (suc w) a s h = ground (
  arith,
  and_halves a (bit_not (suc w) s),
  not_halves w s h,
  bit_and_step (bit_and a (bit_not (suc w) s)) s,
  bit_and-bit_not w (a / 2) (s / 2) (half-lt w s h),
)

-- Clearing flags leaves every other flag as it was.
pub bit_and-bit_not_other :
    (w a s t : ℕ)
    → s < 2 ^ w
    → t < 2 ^ w
    → bit_and s t ≡ 0
    → bit_and (bit_and a (bit_not w s)) t ≡ bit_and a t
bit_and-bit_not_other zero a s zero h k d =
    bit_and-zero (bit_and a (bit_not 0 s)) ∙ sym (bit_and-zero a)
bit_and-bit_not_other zero a s (suc t) h k d = absurd (omega arith)
bit_and-bit_not_other (suc w) a s t h k d = ground (
  arith,
  and_halves a (bit_not (suc w) s),
  not_halves w s h,
  bit_and_step s t,
  bit_and_step a t,
  bit_and_step (bit_and a (bit_not (suc w) s)) t,
  bit_and-bit_not_other w (a / 2) (s / 2) (t / 2) (half-lt w s h) (half-lt w t k)
      (omega (arith, bit_and_step s t)),
)

-- Setting flags leaves every other flag as it was.
or_other_width : (w a s t : ℕ) → t ≤ w → bit_and s t ≡ 0 → bit_and (bit_or a s) t ≡ bit_and a t
or_other_width w a s zero h d = bit_and-zero (bit_or a s) ∙ sym (bit_and-zero a)
or_other_width zero a s (suc t) h d = absurd (omega arith)
or_other_width (suc w) a s (suc t) h d = ground (
  arith,
  or_halves a s,
  bit_and_step s (suc t),
  bit_and_step a (suc t),
  bit_and_step (bit_or a s) (suc t),
  or_other_width w (a / 2) (s / 2) (suc t / 2) (omega arith)
      (omega (arith, bit_and_step s (suc t))),
)

pub bit_and-bit_or_other : (a s t : ℕ) → bit_and s t ≡ 0 → bit_and (bit_or a s) t ≡ bit_and a t
bit_and-bit_or_other a s t d = or_other_width t a s t (omega arith) d
