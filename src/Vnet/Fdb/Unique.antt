-- ===== src/Vnet/Fdb/Unique.antt =====
-- What holds of the forwarding table at all times: an address has one entry, a guest one assigned address.
use native.Mathlib.Decide.{ℕ_discrete as dec_eq}
use wolf_trust_fork.Base.{
  ℕ, ◌<◌, ◌≡◌, ◌≢◌, ◌⊎◌, refl, sym, ap, subst, inl, inr, true, false, Option, none, some, arith,
  ◌==◌, find-some, find-none, Bool-cases,
}
use wolf_trust_fork.Vnet.State.{Mac, Fdb, FdbEntry, FdbKind, is_empty, is_assigned, is_learned}
use wolf_trust_fork.Vnet.Mac.{mac_equals, mac_copy}
use wolf_trust_fork.Vnet.Mac.Equality.{mac_equals-eq, mac_equals_self, mac_copy-eq}
use wolf_trust_fork.Vnet.Fdb.{
  holds_mac, fdb_find_mac, assigned_to, fdb_find_assigned_by_guest, fdb_room, set_entry, fdb_enter,
  or_else,
}

-- What two entries of a table never are: two for one address, or two assigned to one guest.
abbrev pub Apart : FdbEntry → FdbEntry → Type 0
Apart d e =
    (is_empty d.kind ≡ false → is_empty e.kind ≡ false → d.mac ≢ e.mac)
    × (is_assigned d.kind ≡ true → is_assigned e.kind ≡ true → d.guest_id ≢ e.guest_id)

abbrev pub IsFdb : Fdb → Type 0
IsFdb fdb =
    (i j : ℕ) → i < fdb.capacity → j < fdb.capacity → i ≢ j → Apart (fdb.entries i) (fdb.entries j)

pub Apart-sym : (d e : FdbEntry) → Apart d e → Apart e d
Apart-sym d e (m, g) = (λ a b p. m b a (sym p), λ a b p. g b a (sym p))

-- `new` is `fdb` with entries added or changed, of which none was assigned.
abbrev pub Extends : Fdb → Fdb → Type 0
Extends fdb new =
    IsFdb new
    × (new.capacity ≡ fdb.capacity)
    × ((i : ℕ) → is_assigned (fdb.entries i).kind ≡ true → new.entries i ≡ fdb.entries i)

pub Extends-same : (fdb : Fdb) → IsFdb fdb → Extends fdb fdb
Extends-same fdb inv = (inv, refl, λ i a. refl)

-- A write of an entry that is apart from all others
Extends-set_entry :
    (fdb : Fdb) (i : ℕ) (e : FdbEntry)
    → is_assigned (fdb.entries i).kind ≡ false
    → ((j : ℕ) → j < fdb.capacity → i ≢ j → Apart e (fdb.entries j))
    → IsFdb fdb
    → Extends fdb (set_entry fdb i e)
Extends-set_entry fdb i e loose new inv = (unique, refl, pinned)
  where
    unique : IsFdb (set_entry fdb i e)
    unique j k jl kl ne = elim (Bool-cases (i == j)) [
      | inl p ↦
          let other : (i == k) ≡ false = ground arith in rw (p, other) (new k kl (ground arith))
      | inr p ↦ elim (Bool-cases (i == k)) [
        | inl q ↦ rw (p, q) (Apart-sym e (fdb.entries j) (new j jl (ground arith)))
        | inr q ↦ rw (p, q) (inv j k jl kl ne)
      ]
    ]

    pinned :
        (j : ℕ)
        → is_assigned (fdb.entries j).kind ≡ true
        → (set_entry fdb i e).entries j ≡ fdb.entries j
    pinned j a = elim (dec_eq i j) [
      | yes p ↦ absurd (cc (sym loose, ap (λ n. is_assigned (fdb.entries n).kind) p, a))
      | no ne ↦ let other : (i == j) ≡ false = ground arith in rw other refl
    ]

-- What the searches of the table tell.
pub found_mac :
    (fdb : Fdb) (mac : Mac) (i : ℕ)
    → fdb_find_mac fdb mac ≡ some i
    → (i < fdb.capacity) × (is_empty (fdb.entries i).kind ≡ false) × ((fdb.entries i).mac ≡ mac)
found_mac fdb mac i h =
    let (lt, t) = find-some (holds_mac fdb mac) fdb.capacity i h in
    (lt, ground arith, mac_equals-eq (fdb.entries i).mac mac (ground arith))

pub new_mac :
    (fdb : Fdb) (mac : Mac) (j : ℕ)
    → fdb_find_mac fdb mac ≡ none
    → j < fdb.capacity
    → is_empty (fdb.entries j).kind ≡ false
    → mac ≢ (fdb.entries j).mac
new_mac fdb mac j h lt full e =
    let t = find-none (holds_mac fdb mac) fdb.capacity j h lt in
    let same : mac_equals (fdb.entries j).mac mac ≡ true =
      subst (λ m. mac_equals m mac ≡ true) e (mac_equals_self mac) in
    ground arith

pub new_guest :
    (fdb : Fdb) (g j : ℕ)
    → fdb_find_assigned_by_guest fdb g ≡ none
    → j < fdb.capacity
    → is_assigned (fdb.entries j).kind ≡ true
    → g ≢ (fdb.entries j).guest_id
new_guest fdb g j h lt a e =
    let t = find-none (assigned_to fdb g) fdb.capacity j h lt in ground arith

or_else-some : (o o' : Option ℕ) (i : ℕ) → or_else o o' ≡ some i → (o ≡ some i) ⊎ (o' ≡ some i)
or_else-some none o' i h = inr h
or_else-some (some j) o' i h = inl h

-- The room that is found is not an assigned entry.
fdb_room-loose :
    (fdb : Fdb) (i : ℕ) → fdb_room fdb ≡ some i → is_assigned (fdb.entries i).kind ≡ false
unfolding fdb_room
fdb_room-loose fdb i h = elim (or_else-some _ _ i h) [
  | inl e ↦
      let (lt, t) = find-some (λ k. is_empty (fdb.entries k).kind) fdb.capacity i e in ground arith
  | inr e ↦
      let (lt, t) = find-some (λ k. is_learned (fdb.entries k).kind) fdb.capacity i e in
      ground arith
]

-- An entry for a new address
pub Extends-fdb_enter :
    (fdb : Fdb) (g : ℕ) (mac : Mac) (kind : FdbKind) (o : Option ℕ)
    → fdb_room fdb ≡ o
    → fdb_find_mac fdb mac ≡ none
    → (is_assigned kind ≡ true → fdb_find_assigned_by_guest fdb g ≡ none)
    → IsFdb fdb
    → Extends fdb (fdb_enter fdb g mac kind o).1
Extends-fdb_enter fdb g mac kind none room new alone inv = Extends-same fdb inv
Extends-fdb_enter fdb g mac kind (some i) room new alone inv =
    Extends-set_entry fdb i (record { mac = mac_copy mac; guest_id = g; kind = kind })
      (fdb_room-loose fdb i room)
      (λ j lt ne. (
        λ a b. rw (mac_copy-eq mac) (new_mac fdb mac j new lt b),
        λ a b. new_guest fdb g j (alone a) lt b,
      ))
      inv

-- An entry whose address stays
pub Extends-same_mac :
    (fdb : Fdb) (i g : ℕ) (kind : FdbKind)
    → i < fdb.capacity
    → is_empty (fdb.entries i).kind ≡ false
    → is_assigned (fdb.entries i).kind ≡ false
    → (is_assigned kind ≡ true → fdb_find_assigned_by_guest fdb g ≡ none)
    → IsFdb fdb
    → Extends fdb (set_entry fdb i (record (fdb.entries i) { kind = kind; guest_id = g }))
Extends-same_mac fdb i g kind lt full loose alone inv =
    Extends-set_entry fdb i (record (fdb.entries i) { kind = kind; guest_id = g }) loose
      (λ j jlt ne. (λ a b. (inv i j lt jlt ne).0 full b, λ a b. new_guest fdb g j (alone a) jlt b))
      inv
