-- ===== src/Places.antt =====
-- Places in a room: backend/src/modules/reservations/room-places.ts.
use kars_hotel.Base.{
  ℕ, zero, suc, ◌+◌, Bool, true, false, not, Option, none, some, List, [], ◌∷◌, max, ltb, contains,
  insert, is_empty, length, if◌then◌else◌,
}
pub mod Counted
pub mod Alloc
mod Tests

pub record PlaceHolder : Type 0 where
  pub place_number : ℕ
  pub adults : ℕ
  pub children : ℕ

pub record Guests : Type 0 where
  pub adults : ℕ
  pub children : Option ℕ

abbrev pub or_zero : Option ℕ → ℕ
or_zero none = 0
or_zero (some n) = n

unfoldable pub places_of : Guests → ℕ → Bool → ℕ
places_of guests capacity multi_place =
    if multi_place then max 1 (guests.adults + or_zero guests.children) else max 1 capacity

abbrev pub as_guests : PlaceHolder → Guests
as_guests o = record { adults = o.adults; children = some o.children }

-- `for (let p = start; p < start + n; p++) taken.add(p)`
unfoldable pub take_span : ℕ → ℕ → List ℕ → List ℕ
take_span zero start taken = taken
take_span (suc n) start taken = take_span n (start + 1) (insert start taken)

unfoldable pub taken_places : ℕ → List PlaceHolder → List ℕ → List ℕ
taken_places capacity [] taken = taken
taken_places capacity (o ∷ os) taken =
    taken_places capacity os
      (take_span (places_of (as_guests o) capacity true) o.place_number taken)

-- `for (let p = 1; p <= capacity; p++) if (!taken.has(p)) return p`, on the rounds left.
unfoldable pub first_free : ℕ → ℕ → List ℕ → Option ℕ
first_free zero p taken = none
first_free (suc rounds) p taken =
    let rest = first_free rounds (p + 1) taken in if contains p taken then rest else some p

-- `capacity - taken.size < need` is on signed numbers.
unfoldable pub allocate_place : ℕ → Bool → Guests → List PlaceHolder → Option ℕ
allocate_place capacity multi_place guests others =
    let taken = taken_places capacity others [] in
    if not multi_place
    then (if is_empty others then some 1 else none)
    else if ltb capacity (places_of guests capacity true + length taken)
    then none
    else first_free capacity 1 taken

unfoldable pub room_fits : ℕ → Bool → Guests → List PlaceHolder → Bool
room_fits capacity multi_place guests others =
    elim (allocate_place capacity multi_place guests others) [ none ↦ false | some p ↦ true ]
