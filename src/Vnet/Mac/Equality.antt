-- ===== src/Vnet/Mac/Equality.antt =====
-- What the comparison by exclusive or tells of two addresses.
use wolf_trust_fork.Base.{
  ℕ, ◌≡◌, refl, subst, true, bit_or_zero, bit_xor_zero, bit_xor_self, ◌==◌, arith, ◌↔◌,
}
use wolf_trust_fork.Vnet.State.{Mac}
use wolf_trust_fork.Vnet.Mac.{mac_equals, mac_copy}

is_zero : (n : ℕ) → (n == 0) ≡ true → n ≡ 0
is_zero n h = ground arith

-- The comparison finds exactly the equal addresses.
pub mac_equals-eq : (a b : Mac) → mac_equals a b ≡ true → a ≡ b
unfolding mac_equals
mac_equals-eq a b h =
    let (o4, x5) = bit_or_zero _ _ (is_zero _ h) in
    let (o3, x4) = bit_or_zero _ _ o4 in
    let (o2, x3) = bit_or_zero _ _ o3 in
    let (o1, x2) = bit_or_zero _ _ o2 in
    let (x0, x1) = bit_or_zero _ _ o1 in
    let e0 = bit_xor_zero a.b0 b.b0 x0 in
    let e1 = bit_xor_zero a.b1 b.b1 x1 in
    let e2 = bit_xor_zero a.b2 b.b2 x2 in
    let e3 = bit_xor_zero a.b3 b.b3 x3 in
    let e4 = bit_xor_zero a.b4 b.b4 x4 in
    let e5 = bit_xor_zero a.b5 b.b5 x5 in
    λ i. record { b0 = e0 i; b1 = e1 i; b2 = e2 i; b3 = e3 i; b4 = e4 i; b5 = e5 i }

pub mac_equals_self : (a : Mac) → mac_equals a a ≡ true
unfolding mac_equals
mac_equals_self a =
    rw
      (
        bit_xor_self a.b0,
        bit_xor_self a.b1,
        bit_xor_self a.b2,
        bit_xor_self a.b3,
        bit_xor_self a.b4,
        bit_xor_self a.b5,
      )
      refl

pub mac_copy-eq : (a : Mac) → mac_copy a ≡ a
unfolding mac_copy
mac_copy-eq a = refl

-- The comparison by exclusive or, which does not stop at the first difference, tells exactly whether the
-- addresses are the same.
pub mac_equals_iff : (a b : Mac) → (mac_equals a b ≡ true) ↔ (a ≡ b)
mac_equals_iff a b =
    (mac_equals-eq a b, λ e. subst (λ m. mac_equals a m ≡ true) e (mac_equals_self a))
