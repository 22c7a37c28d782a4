-- ===== src/Reservations/Spans.antt =====
-- The places of an edited reservation in a hotel that sells by places
-- (backend/src/modules/reservations/reservations.service.ts, `spanFree` of `update`).
use kars_hotel.Base.{
  ℕ, suc, ◌+◌, ◌≤◌, ◌<◌, ◌≡◌, ◌↔◌, refl, inl, inr, true, false, List, [], ◌∷◌, leb, arith, every,
  if◌then◌else◌, Bool-cases,
}
use kars_hotel.Places.{PlaceHolder, Guests, places_of, as_guests}
use kars_hotel.Places.Alloc.{holds, occupied}
use kars_hotel.Hotel.{Hotel}
use kars_hotel.Reservations.Placement.{apart, span_free}

-- None of the places from `start` on is held.
abbrev pub IsFree : ℕ → ℕ → List PlaceHolder → Type 0
IsFree need start os = (q : ℕ) → start ≤ q → q < start + need → occupied q os ≡ false

places_of-pos : (g : Guests) (c : ℕ) → 1 ≤ places_of g c true
unfolding places_of
places_of-pos g c = omega arith

-- Two spans that are not apart have a place in common: the later of the two first ones.
apart-holds :
    (capacity need start q : ℕ) (o : PlaceHolder)
    → 1 ≤ need
    → apart capacity need start o ≡ true
    → start ≤ q
    → q < start + need
    → holds q o ≡ false
unfolding holds places_of
apart-holds capacity need start q o pos a lo hi =
    ground (arith, places_of-pos (as_guests o) capacity)

meet : ℕ → PlaceHolder → ℕ
meet start o = if leb start o.place_number then o.place_number else start

not_apart-holds :
    (capacity need start : ℕ) (o : PlaceHolder)
    → 1 ≤ need
    → apart capacity need start o ≡ false
    → (start ≤ meet start o) × (meet start o < start + need) × (holds (meet start o) o ≡ true)
unfolding holds meet places_of
not_apart-holds capacity need start o pos a = (
  ground (arith, places_of-pos (as_guests o) capacity),
  ground (arith, places_of-pos (as_guests o) capacity),
  ground (arith, places_of-pos (as_guests o) capacity),
)

every-apart_iff :
    (capacity need start : ℕ) (os : List PlaceHolder)
    → 1 ≤ need
    → (every (apart capacity need start) os ≡ true) ↔ IsFree need start os
unfolding occupied
every-apart_iff capacity need start [] pos = (λ h q lo hi. refl, λ h. refl)
every-apart_iff capacity need start (o ∷ os) pos =
    let rest = every-apart_iff capacity need start os pos in
    (
      λ h q lo hi. ground (
        arith,
        apart-holds capacity need start q o pos (ground arith) lo hi,
        rest.0 (ground arith) q lo hi,
      ),
      λ free. elim (Bool-cases (apart capacity need start o)) [
        | inl a ↦ ground (arith, a, rest.1 (λ q lo hi. ground (arith, free q lo hi)))
        | inr a ↦
            let (lo, hi, held) = not_apart-holds capacity need start o pos a in
            absurd (ground (arith, free (meet start o) lo hi, held))
      ],
    )

-- In a hotel that sells by places, the test that an edit makes of a place for at least one guest
-- accepts `start` exactly when it and the places after it, as many as are needed, are places of
-- the room that no other reservation holds.
pub span_free_iff :
    (capacity need start : ℕ) (os : List PlaceHolder)
    → 1 ≤ need
    → (span_free capacity true need os start ≡ true)
      ↔ ((1 ≤ start) × (start + need ≤ suc capacity) × IsFree need start os)
unfolding span_free
span_free_iff capacity need start os pos =
    let free = every-apart_iff capacity need start os pos in
    (
      λ h. (ground arith, ground arith, free.0 (ground arith)),
      λ p. ground (arith, p.0, p.1, free.1 p.2),
    )
