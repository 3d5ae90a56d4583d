-- ===== src/Vnet/Fdb/Assigned.antt =====
-- Addresses that are assigned to a guest: what the searches of the table find for them.
use native.Mathlib.Decide.{ℕ_discrete as dec_eq}
use wolf_trust_fork.Base.{
  ℕ, ◌<◌, ◌≡◌, refl, sym, ap, ◌∙◌, subst, true, false, ◌||◌, ◌==◌, Option, none, some, arith,
  find-some, not, inl, inr, Option-cases, if-when, if-each,
}
use wolf_trust_fork.Vnet.State.{
  Mac, Fdb, FdbKind, is_assigned, is_empty, is_learned, no_vm, Status, is_success, fdb_assigned,
}
use wolf_trust_fork.Vnet.Mac.{mac_is_multicast, mac_is_zero, mac_is_local_unicast}
use wolf_trust_fork.Vnet.Mac.Equality.{mac_copy-eq}
use wolf_trust_fork.Vnet.Fdb.{
  promote_entry, set_entry, or_else, fdb_room, fdb_enter, assign_found, fdb_assign,
  fdb_find_assigned_by_guest, fdb_find_mac, learn_found, fdb_learn, fdb_release, fdb_lookup,
}
use wolf_trust_fork.Vnet.Fdb.Unique.{IsFdb, Extends, found_mac, new_mac}
use wolf_trust_fork.Vnet.Fdb.Operations.{fdb_assign-Extends, fdb_learn-Extends, fdb_release-IsFdb}

-- The table has an entry that assigns the address to the guest.
abbrev pub Assigns : Fdb → ℕ → Mac → Type 0
Assigns fdb guest mac =
    (k : ℕ) × (k < fdb.capacity)
    × (is_assigned (fdb.entries k).kind ≡ true)
    × ((fdb.entries k).guest_id ≡ guest)
    × ((fdb.entries k).mac ≡ mac)

assigned_full : (e : FdbKind) → is_assigned e ≡ true → is_empty e ≡ false
assigned_full e h = ground arith

-- The search for an assigned address finds the entry that assigns it.
found_assigned :
    (fdb : Fdb) (guest : ℕ) (mac : Mac)
    → IsFdb fdb
    → Assigns fdb guest mac
    → (i : ℕ) × (fdb_find_mac fdb mac ≡ some i)
      × (is_assigned (fdb.entries i).kind ≡ true)
      × ((fdb.entries i).guest_id ≡ guest)
found_assigned fdb guest mac inv (k, lt, own, g, m) = elim (Option-cases (fdb_find_mac fdb mac)) [
  | inl e ↦ absurd (new_mac fdb mac k e lt (assigned_full (fdb.entries k).kind own) (sym m))
  | inr (i, e) ↦
      let (il, full, same) = found_mac fdb mac i e in
      elim (dec_eq i k) [
        | yes p ↦ (
          i,
          e,
          ap (λ n. is_assigned (fdb.entries n).kind) p ∙ own,
          ap (λ n. (fdb.entries n).guest_id) p ∙ g,
        )
        | no ne ↦
            absurd
              ((inv i k il lt ne).0 full (assigned_full (fdb.entries k).kind own) (same ∙ sym m))
      ]
]

abbrev Unchanged : Fdb → Status × Fdb → Type 0
Unchanged fdb z = z.1 ≡ fdb

-- Learning an address from the guest that it is assigned to changes nothing.
pub fdb_learn-assigned :
    (fdb : Fdb) (guest : ℕ) (mac : Mac)
    → IsFdb fdb
    → Assigns fdb guest mac
    → (fdb_learn fdb guest mac).1 ≡ fdb
unfolding fdb_learn learn_found
fdb_learn-assigned fdb guest mac inv a =
    let (i, e, own, g) = found_assigned fdb guest mac inv a in
    let same : ((fdb.entries i).guest_id == guest) ≡ true = ground arith in
    rw (e, own, same)
      (if-each (Unchanged fdb) _ _ (guest == no_vm) refl
        (if-each (Unchanged fdb) _ _ (mac_is_multicast mac || mac_is_zero mac) refl refl))

-- A guest's address, which is not a group's, leads to the guest.
pub fdb_lookup-assigned :
    (fdb : Fdb) (guest : ℕ) (mac : Mac)
    → IsFdb fdb
    → Assigns fdb guest mac
    → (mac_is_multicast mac || mac_is_zero mac) ≡ false
    → fdb_lookup fdb mac ≡ guest
unfolding fdb_lookup
fdb_lookup-assigned fdb guest mac inv a u =
    let (i, e, own, g) = found_assigned fdb guest mac inv a in rw (u, e) g

-- What a result of `vnet_fdb_assign` leaves in the table.
abbrev pub AssignsIf : ℕ → Mac → Status × Fdb → Type 0
AssignsIf guest mac z = is_success z.0 ≡ true → Assigns z.1 guest mac

Assigns-set_entry :
    (fdb : Fdb) (i guest : ℕ) (mac : Mac)
    → i < fdb.capacity
    → Assigns
        (set_entry fdb i (record { mac = mac; guest_id = guest; kind = fdb_assigned }))
        guest
        mac
Assigns-set_entry fdb i guest mac lt =
    let here : (i == i) ≡ true = ground arith in (i, lt, rw here refl, rw here refl, rw here refl)

or_else-lt :
    (o o' : Option ℕ) (n i : ℕ)
    → ((j : ℕ) → o ≡ some j → j < n)
    → ((j : ℕ) → o' ≡ some j → j < n)
    → or_else o o' ≡ some i
    → i < n
or_else-lt none o' n i p q h = q i h
or_else-lt (some j) o' n i p q h = p i h

fdb_room-lt : (fdb : Fdb) (i : ℕ) → fdb_room fdb ≡ some i → i < fdb.capacity
unfolding fdb_room
fdb_room-lt fdb i h =
    or_else-lt _ _ fdb.capacity i
      (λ j e. (find-some (λ k. is_empty (fdb.entries k).kind) fdb.capacity j e).0)
      (λ j e. (find-some (λ k. is_learned (fdb.entries k).kind) fdb.capacity j e).0) h

fdb_enter-Assigns :
    (fdb : Fdb) (guest : ℕ) (mac : Mac) (o : Option ℕ)
    → fdb_room fdb ≡ o
    → AssignsIf guest mac (fdb_enter fdb guest mac fdb_assigned o)
fdb_enter-Assigns fdb guest mac none h k = absurd (cc k)
fdb_enter-Assigns fdb guest mac (some i) h k =
    subst
      (λ m.
        Assigns (set_entry fdb i (record { mac = m; guest_id = guest; kind = fdb_assigned })) guest
          mac)
      (sym (mac_copy-eq mac)) (Assigns-set_entry fdb i guest mac (fdb_room-lt fdb i h))

promote_entry-Assigns :
    (fdb : Fdb) (guest : ℕ) (mac : Mac) (i : ℕ) (o : Option ℕ)
    → i < fdb.capacity
    → (fdb.entries i).mac ≡ mac
    → AssignsIf guest mac (promote_entry fdb guest i o)
promote_entry-Assigns fdb guest mac i o lt e = by_guest o
  where
    put :
        Assigns
          (set_entry fdb i (record (fdb.entries i) { kind = fdb_assigned; guest_id = guest }))
          guest
          mac
    put =
        subst
          (λ m.
            Assigns (set_entry fdb i (record { mac = m; guest_id = guest; kind = fdb_assigned }))
              guest mac)
          (sym e) (Assigns-set_entry fdb i guest mac lt)

    by_guest : (p : Option ℕ) → AssignsIf guest mac (promote_entry fdb guest i p)
    by_guest none = λ k. put
    by_guest (some j) =
        if-each (AssignsIf guest mac) _ _ (not (i == j)) (λ k. absurd (cc k)) (λ k. put)

assign_found-Assigns :
    (fdb : Fdb) (guest : ℕ) (mac : Mac) (o o' : Option ℕ)
    → fdb_find_mac fdb mac ≡ o
    → AssignsIf guest mac (assign_found fdb guest mac o o')
unfolding assign_found
assign_found-Assigns fdb guest mac (some i) o' h =
    let (lt, full, e) = found_mac fdb mac i h in
    let entry = fdb.entries i in
    if-when (AssignsIf guest mac) _ (promote_entry fdb guest i o') (is_assigned entry.kind)
      (λ own.
        if-when (AssignsIf guest mac) _ _ (entry.guest_id == guest)
          (λ g k. (i, lt, own, ground arith, e)) (λ g k. absurd (cc k)))
      (λ loose. promote_entry-Assigns fdb guest mac i o' lt e)
assign_found-Assigns fdb guest mac none (some j) h = λ k. absurd (cc k)
assign_found-Assigns fdb guest mac none none h = fdb_enter-Assigns fdb guest mac (fdb_room fdb) refl

-- An address that is assigned successfully is the guest's from then on.
pub fdb_assign-Assigns :
    (fdb : Fdb) (guest : ℕ) (mac : Mac) → AssignsIf guest mac (fdb_assign fdb guest mac)
unfolding fdb_assign
fdb_assign-Assigns fdb guest mac =
    if-each (AssignsIf guest mac) _ _ (guest == no_vm) (λ k. absurd (cc k))
      (if-each (AssignsIf guest mac) _ _ (not (mac_is_local_unicast mac)) (λ k. absurd (cc k))
        (assign_found-Assigns fdb guest mac (fdb_find_mac fdb mac)
          (fdb_find_assigned_by_guest fdb guest) refl))

-- In a table where each address has one entry and each guest at most one assigned address, this stays so
-- under an assignment, a learned address and the release of a guest; no assignment or learned address
-- changes an assigned entry, and a successful assignment gives the guest the address.
pub fdb_operations-IsFdb :
    (fdb : Fdb) (guest : ℕ) (mac : Mac)
    → IsFdb fdb
    → Extends fdb (fdb_assign fdb guest mac).1
      × AssignsIf guest mac (fdb_assign fdb guest mac)
      × Extends fdb (fdb_learn fdb guest mac).1
      × IsFdb (fdb_release fdb guest)
fdb_operations-IsFdb fdb guest mac inv = (
  fdb_assign-Extends fdb guest mac inv,
  fdb_assign-Assigns fdb guest mac,
  fdb_learn-Extends fdb guest mac inv,
  fdb_release-IsFdb fdb guest inv,
)
