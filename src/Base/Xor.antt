-- ===== src/Base/Xor.antt =====
-- `^` on machine words, which tells whether two numbers are the same, and what a `|` that is 0 says.
use Prim.Native.Nat.{
  ℕ, zero, suc, ◌+◌, ◌*◌, ◌/◌, ◌%◌, ◌≤◌, differ, bit_or, bit_xor, bit_xor-bitwise,
}
use mathlib.Core.Path.{◌≡◌, refl, sym, ap, ◌∙◌}
use native.Mathlib.Decide.{ℕ_discrete as dec_eq}
use native.Mathlib.Omega.{arith}
use wolf_trust_fork.Base.Bits.{zero-bit_or, bit_or_step, lowest}

zero-bit_xor : (b : ℕ) → bit_xor 0 b ≡ b
zero-bit_xor = bit_xor-bitwise 0

-- The lowest binary digit of `^`, and the rest.
bit_xor_step : (a b : ℕ) → bit_xor a b ≡ differ (a % 2) (b % 2) + 2 * bit_xor (a / 2) (b / 2)
bit_xor_step a b = elim (dec_eq a 0) [
  | yes e ↦ rw (e, zero-bit_xor) (omega (arith, zero-bit_xor (b / 2)))
  | no ne ↦ omega (
    arith,
    lowest (λ d. d) differ a b (omega arith),
    bit_xor-bitwise a b,
    bit_xor-bitwise (a / 2) (b / 2),
  )
]

differ-zero : (x y : ℕ) → differ x y ≡ 0 → x ≡ y
differ-zero zero y h = sym h
differ-zero (suc x) zero h = h
differ-zero (suc x) (suc y) h = ap (λ n. suc n) (differ-zero x y h)

differ_self : (x : ℕ) → differ x x ≡ 0
differ_self zero = refl
differ_self (suc x) = differ_self x

xor_width : (w a b : ℕ) → a ≤ w → bit_xor a b ≡ 0 → a ≡ b
xor_width w zero b h e = sym e ∙ zero-bit_xor b
xor_width zero (suc a) b h e = absurd (omega arith)
xor_width (suc w) (suc a) b h e =
    let step = bit_xor_step (suc a) b in
    let high = xor_width w (suc a / 2) (b / 2) (omega arith) (omega arith) in
    let low = differ-zero (suc a % 2) (b % 2) (omega arith) in omega arith

-- `a ^ b` is 0 only for equal numbers.
pub bit_xor_zero : (a b : ℕ) → bit_xor a b ≡ 0 → a ≡ b
bit_xor_zero a b e = xor_width a a b (omega arith) e

self_width : (w a : ℕ) → a ≤ w → bit_xor a a ≡ 0
self_width w zero h = zero-bit_xor 0
self_width zero (suc a) h = absurd (omega arith)
self_width (suc w) (suc a) h = omega (
  arith,
  bit_xor_step (suc a) (suc a),
  differ_self (suc a % 2),
  self_width w (suc a / 2) (omega arith),
)

pub bit_xor_self : (a : ℕ) → bit_xor a a ≡ 0
bit_xor_self a = self_width a a (omega arith)

or_width : (w a b : ℕ) → a ≤ w → bit_or a b ≡ 0 → (a ≡ 0) × (b ≡ 0)
or_width w zero b h e = (refl, sym (zero-bit_or b) ∙ e)
or_width zero (suc a) b h e = absurd (omega arith)
or_width (suc w) (suc a) b h e =
    let step = bit_or_step (suc a) b in
    let rest = or_width w (suc a / 2) (b / 2) (omega arith) (omega arith) in omega arith

-- `a | b` is 0 only if both numbers are.
pub bit_or_zero : (a b : ℕ) → bit_or a b ≡ 0 → (a ≡ 0) × (b ≡ 0)
bit_or_zero a b e = or_width a a b (omega arith) e
