-- ===== src/Vnet/Fdb/Operations.antt =====
-- The operations on the forwarding table keep its entries apart.
use wolf_trust_fork.Base.{
  ℕ, ◌≡◌, ◌⊎◌, refl, sym, ap, subst, inl, inr, true, not, Option, none, some, arith, ◌==◌,
  find-some, for_below-map_cell, ◌||◌, if-when, if-each,
}
use wolf_trust_fork.Vnet.State.{
  Mac, Fdb, FdbEntry, fdb_assigned, fdb_learned, is_empty, is_assigned, no_vm, Status,
}
use wolf_trust_fork.Vnet.Mac.{mac_is_local_unicast, mac_is_multicast, mac_is_zero}
use wolf_trust_fork.Vnet.Fdb.{
  fdb_find_mac, assigned_to, fdb_find_assigned_by_guest, fdb_room, emptied, fdb_init, assign_found,
  fdb_assign, release_entry, fdb_release, learn_found, fdb_learn,
}
use wolf_trust_fork.Vnet.Fdb.Unique.{
  Apart, Apart-sym, IsFdb, Extends, Extends-same, Extends-fdb_enter, Extends-same_mac, found_mac,
}

-- A result of an operation on the table
abbrev Extending : Fdb → Status × Fdb → Type 0
Extending fdb z = Extends fdb z.1

assign_found-Extending :
    (fdb : Fdb) (g : ℕ) (mac : Mac) (o : Option ℕ) (o' : Option ℕ)
    → fdb_find_mac fdb mac ≡ o
    → fdb_find_assigned_by_guest fdb g ≡ o'
    → IsFdb fdb
    → Extending fdb (assign_found fdb g mac o o')
unfolding assign_found
assign_found-Extending fdb g mac (some i) (some j) h k inv =
    let (lt, full, e) = found_mac fdb mac i h in
    let (jlt, t) = find-some (assigned_to fdb g) fdb.capacity j k in
    let same = Extends-same fdb inv in
    if-when (Extending fdb) _ _ (is_assigned (fdb.entries i).kind)
      (λ a. if-each (Extending fdb) _ _ ((fdb.entries i).guest_id == g) same same)
      (λ loose.
        if-when (Extending fdb) _ _ (not (i == j)) (λ ne. same)
          (λ eq.
            let p : i ≡ j = ground arith in
            let a : is_assigned (fdb.entries j).kind ≡ true = ground arith in
            absurd (cc (sym loose, ap (λ n. is_assigned (fdb.entries n).kind) p, a))))
assign_found-Extending fdb g mac (some i) none h k inv =
    let (lt, full, e) = found_mac fdb mac i h in
    let same = Extends-same fdb inv in
    if-when (Extending fdb) _ _ (is_assigned (fdb.entries i).kind)
      (λ a. if-each (Extending fdb) _ _ ((fdb.entries i).guest_id == g) same same)
      (λ loose. Extends-same_mac fdb i g fdb_assigned lt full loose (λ a. k) inv)
assign_found-Extending fdb g mac none (some j) h k inv = Extends-same fdb inv
assign_found-Extending fdb g mac none none h k inv =
    Extends-fdb_enter fdb g mac fdb_assigned (fdb_room fdb) refl h (λ a. k) inv

pub fdb_assign-Extends :
    (fdb : Fdb) (g : ℕ) (mac : Mac) → IsFdb fdb → Extends fdb (fdb_assign fdb g mac).1
unfolding fdb_assign
fdb_assign-Extends fdb g mac inv =
    let same = Extends-same fdb inv in
    if-each (Extending fdb) _ _ (g == no_vm) same (
      if-each (Extending fdb) _ _ (not (mac_is_local_unicast mac)) same
        (assign_found-Extending fdb g mac _ _ refl refl inv))

learn_found-Extending :
    (fdb : Fdb) (g : ℕ) (mac : Mac) (o : Option ℕ)
    → fdb_find_mac fdb mac ≡ o
    → IsFdb fdb
    → Extending fdb (learn_found fdb g mac o)
unfolding learn_found
learn_found-Extending fdb g mac (some i) h inv =
    let (lt, full, e) = found_mac fdb mac i h in
    let same = Extends-same fdb inv in
    if-when (Extending fdb) _ _ (is_assigned (fdb.entries i).kind)
      (λ a. if-each (Extending fdb) _ _ ((fdb.entries i).guest_id == g) same same)
      (λ loose. Extends-same_mac fdb i g fdb_learned lt full loose (λ a. absurd (cc a)) inv)
learn_found-Extending fdb g mac none h inv =
    Extends-fdb_enter fdb g mac fdb_learned (fdb_room fdb) refl h (λ a. absurd (cc a)) inv

pub fdb_learn-Extends :
    (fdb : Fdb) (g : ℕ) (mac : Mac) → IsFdb fdb → Extends fdb (fdb_learn fdb g mac).1
unfolding fdb_learn
fdb_learn-Extends fdb g mac inv =
    let same = Extends-same fdb inv in
    if-each (Extending fdb) _ _ (g == no_vm) same (
      if-each (Extending fdb) _ _ (mac_is_multicast mac || mac_is_zero mac) same
        (learn_found-Extending fdb g mac _ refl inv))

release_entry-cases :
    (g : ℕ) (e : FdbEntry) → (release_entry g e ≡ e) ⊎ (release_entry g e ≡ emptied e)
release_entry-cases g e =
    if-each (λ z. (z ≡ e) ⊎ (z ≡ emptied e)) _ _ (is_empty e.kind) (inl refl)
      (if-each (λ z. (z ≡ e) ⊎ (z ≡ emptied e)) _ _ (not (e.guest_id == g)) (inl refl) (inr refl))

-- An entry that has been emptied is apart from every other.
emptied-Apart : (d e : FdbEntry) → Apart (emptied d) e
emptied-Apart d e = (λ a b. absurd (cc a), λ a b. absurd (cc a))

release_entry-Apart :
    (g : ℕ) (d e : FdbEntry) → Apart d e → Apart (release_entry g d) (release_entry g e)
release_entry-Apart g d e h = elim (release_entry-cases g d) [
  | inl p ↦ elim (release_entry-cases g e) [
    | inl q ↦ subst (λ x. Apart x (release_entry g e)) (sym p) (subst (Apart d) (sym q) h)
    | inr q ↦
        subst (Apart (release_entry g d)) (sym q)
          (Apart-sym (emptied e) (release_entry g d) (emptied-Apart e (release_entry g d)))
  ]
  | inr p ↦ subst (λ x. Apart x (release_entry g e)) (sym p) (emptied-Apart d (release_entry g e))
]

pub fdb_release-IsFdb : (fdb : Fdb) (g : ℕ) → IsFdb fdb → IsFdb (fdb_release fdb g)
unfolding fdb_release
fdb_release-IsFdb fdb g inv i j il jl ne =
    rw
      (
        for_below-map_cell (release_entry g) fdb.capacity i fdb.entries il,
        for_below-map_cell (release_entry g) fdb.capacity j fdb.entries jl,
      )
      (release_entry-Apart g (fdb.entries i) (fdb.entries j) (inv i j il jl ne))

pub fdb_init-IsFdb : (storage : ℕ → FdbEntry) (n : ℕ) → IsFdb (fdb_init storage n)
unfolding fdb_init
fdb_init-IsFdb storage n i j il jl ne =
    rw (for_below-map_cell emptied n i storage il, for_below-map_cell emptied n j storage jl)
      (λ a b. absurd (cc a), λ a b. absurd (cc a))
