-- ===== src/Vnet/Switch/Keeps.antt =====
-- The invariant of the switch, and what an operation keeps of the ports, the table and the frames.
use native.Mathlib.Decide.{ℕ_discrete as dec_eq}
use wolf_trust_fork.Base.{ℕ, ◌<◌, ◌≡◌, refl, sym, ap, ◌∙◌, subst, Bool, true, false, arith, ◌==◌}
use wolf_trust_fork.Vnet.State.{
  Fdb, FdbEntry, FramePool, Vnic, VnetStats, Switch, is_assigned, set_vnic, count_both,
}
use wolf_trust_fork.Vnet.Pool.InUse.{IsPool}
use wolf_trust_fork.Vnet.Fdb.Assigned.{Assigns}
use wolf_trust_fork.Vnet.Fdb.Unique.{IsFdb, Extends, Extends-same}

-- The table and the pool are sound, and each address that a port has is assigned to its guest.
abbrev pub IsSwitch : Switch → Type 0
IsSwitch sw =
    IsFdb sw.fdb
    × IsPool sw.pool
    × ((i : ℕ) → i < sw.nvm → (sw.vnics i).mac_set ≡ true → Assigns sw.fdb i (sw.vnics i).mac)

-- The port is as open as it was, and has the address it had.
abbrev pub SamePort : Vnic → Vnic → Type 0
SamePort v w = (w.is_open ≡ v.is_open) × (w.mac_set ≡ v.mac_set) × (w.mac ≡ v.mac)

-- `s` is the set of the ports that an operation may change.
module _ (s : ℕ → Bool) where
  abbrev pub Keeps : Switch → Switch → Type 0
  Keeps sw sw1 =
      (sw1.nvm ≡ sw.nvm)
      × ((i : ℕ) → SamePort (sw.vnics i) (sw1.vnics i))
      × ((i : ℕ) → s i ≡ false → sw1.vnics i ≡ sw.vnics i)
      × (IsFdb sw.fdb → Extends sw.fdb sw1.fdb)
      × (IsPool sw.pool → IsPool sw1.pool)

  pub Keeps-same : (sw : Switch) → Keeps sw sw
  Keeps-same sw =
      (refl, λ i. (refl, refl, refl), λ i e. refl, λ inv. Extends-same sw.fdb inv, λ inv. inv)

  pub Keeps-trans : (a b c : Switch) → Keeps a b → Keeps b c → Keeps a c
  Keeps-trans a b c (n, m, v, f, p) (n', m', v', f', p') = (
    n' ∙ n,
    λ i. ((m' i).0 ∙ (m i).0, (m' i).1 ∙ (m i).1, (m' i).2 ∙ (m i).2),
    λ i e. v' i e ∙ v i e,
    λ inv. joined inv,
    λ inv. p' (p inv),
  )
    where
      joined : IsFdb a.fdb → Extends a.fdb c.fdb
      joined inv =
          let (u, k, same) = f inv in
          let (u', k', same') = f' u in
          (
            u',
            k' ∙ k,
            λ i e.
                same' i (subst (λ x. is_assigned (FdbEntry.kind x) ≡ true) (sym (same i e)) e)
                ∙ same i e,
          )

  pub Keeps-set_vnic :
      (sw : Switch) (i : ℕ) (v : Vnic)
      → s i ≡ true
      → SamePort (sw.vnics i) v
      → Keeps sw (set_vnic sw i v)
  Keeps-set_vnic sw i v e same = (refl, macs, others, λ inv. Extends-same sw.fdb inv, λ inv. inv)
    where
      macs : (j : ℕ) → SamePort (sw.vnics j) ((set_vnic sw i v).vnics j)
      macs j = elim (dec_eq i j) [
        | yes p ↦
            let k : (i == j) ≡ true = ground arith in
            rw k (subst (λ n. SamePort (sw.vnics n) v) p same)
        | no ne ↦ let k : (i == j) ≡ false = ground arith in rw k (refl, refl, refl)
      ]

      others : (j : ℕ) → s j ≡ false → (set_vnic sw i v).vnics j ≡ sw.vnics j
      others j out = elim (dec_eq i j) [
        | yes p ↦ absurd (cc (sym e, ap s p, out))
        | no ne ↦ let k : (i == j) ≡ false = ground arith in rw k refl
      ]

  -- A new pool, table or count of the switch itself
  pub Keeps-pool :
      (sw : Switch) (p : FramePool)
      → (IsPool sw.pool → IsPool p)
      → Keeps sw (record sw { pool = p })
  Keeps-pool sw p keep =
      (refl, λ i. (refl, refl, refl), λ i e. refl, λ inv. Extends-same sw.fdb inv, keep)

  pub Keeps-fdb :
      (sw : Switch) (f : Fdb) → (IsFdb sw.fdb → Extends sw.fdb f) → Keeps sw (record sw { fdb = f })
  Keeps-fdb sw f keep = (refl, λ i. (refl, refl, refl), λ i e. refl, keep, λ inv. inv)

  pub Keeps-count_both :
      (f : VnetStats → VnetStats) (sw : Switch) (i : ℕ) → s i ≡ true → Keeps sw (count_both f sw i)
  Keeps-count_both f sw i e =
      Keeps-set_vnic sw i (record (sw.vnics i) { stats = f (sw.vnics i).stats }) e
        (refl, refl, refl)

-- A larger set
pub Keeps-wider :
    (s t : ℕ → Bool) (a b : Switch)
    → ((i : ℕ) → t i ≡ false → s i ≡ false)
    → Keeps s a b
    → Keeps t a b
Keeps-wider s t a b w (n, m, v, f, p) = (n, m, λ i e. v i (w i e), f, p)

-- What an operation keeps is enough for the invariant.
pub Keeps-IsSwitch : (s : ℕ → Bool) (a b : Switch) → Keeps s a b → IsSwitch a → IsSwitch b
Keeps-IsSwitch s a b (n, m, v, f, p) (fdb, pool, macs) =
    let (u, c, same) = f fdb in (u, p pool, λ i lt e. kept i (omega arith) e)
  where
    kept : (i : ℕ) → i < a.nvm → (b.vnics i).mac_set ≡ true → Assigns b.fdb i (b.vnics i).mac
    kept i lt e =
        let (u, c, same) = f fdb in
        let (k, kl, own, g, mac) = macs i lt (sym (m i).1 ∙ e) in
        let q = same k own in
        (
          k,
          omega arith,
          ap (λ x. is_assigned (FdbEntry.kind x)) q ∙ own,
          ap (λ x. FdbEntry.guest_id x) q ∙ g,
          ap (λ x. FdbEntry.mac x) q ∙ mac ∙ sym (m i).2,
        )
