-- ===== src/Places/Alloc.antt =====
-- What `allocate_place` promises (backend/src/modules/reservations/room-places.ts, lines 36 to 57):
-- the place is free, it is the lowest one, and it is found whenever enough places are free.
use kars_hotel.Base.{
  ℕ, zero, suc, ◌+◌, ◌≤◌, ◌<◌, ◌≡◌, ◌↔◌, refl, Bool, true, false, none, some, List, [], ◌∷◌, ◌&&◌,
  ◌||◌, ltb, leb, arith, contains, insert, contains-insert, length, every, max, if◌then◌else◌,
}
use kars_hotel.Places.{
  PlaceHolder, Guests, or_zero, places_of, as_guests, take_span, taken_places, first_free,
  allocate_place,
}
use kars_hotel.Places.Counted.{hits, IsCounted, hits-nil, lies_within, taken_places-IsCounted}

-- The place `q` lies among the `n` places from `start`.
abbrev pub in_span : ℕ → ℕ → ℕ → Bool
in_span q start n = leb start q && ltb q (start + n)

-- A booking holds the place `q`: one place for each of its guests, grown up or not, and one if it
-- has none, from its place number on.
unfoldable pub holds : ℕ → PlaceHolder → Bool
holds q o = in_span q o.place_number (max 1 (o.adults + o.children))

unfoldable pub occupied : ℕ → List PlaceHolder → Bool
occupied q [] = false
occupied q (o ∷ os) = holds q o || occupied q os

contains-take_span :
    (q n start : ℕ) (taken : List ℕ)
    → contains q (take_span n start taken) ≡ (in_span q start n || contains q taken)
unfolding take_span
contains-take_span q zero start taken = ground arith
contains-take_span q (suc n) start taken =
    ground (
      arith,
      contains-take_span q n (start + 1) (insert start taken),
      contains-insert q start taken,
    )

contains-taken_places_from :
    (c q : ℕ) (os : List PlaceHolder) (taken : List ℕ)
    → contains q (taken_places c os taken) ≡ (occupied q os || contains q taken)
unfolding taken_places occupied holds places_of
contains-taken_places_from c q [] taken = refl
contains-taken_places_from c q (o ∷ os) taken =
    let n = places_of (as_guests o) c true in
    ground (
      arith,
      contains-taken_places_from c q os (take_span n o.place_number taken),
      contains-take_span q n o.place_number taken,
    )

-- The set that the code collects is the set of occupied places.
pub contains-taken_places :
    (c q : ℕ) (os : List PlaceHolder) → contains q (taken_places c os []) ≡ occupied q os
contains-taken_places c q os = ground (arith, contains-taken_places_from c q os [])

first_free_sound :
    (r p : ℕ) (taken : List ℕ) (q : ℕ)
    → first_free r p taken ≡ some q
    → (p ≤ q) × (q < p + r) × (contains q taken ≡ false)
unfolding first_free
first_free_sound zero p taken q h = cc
first_free_sound (suc r) p taken q h = ground (arith, first_free_sound r (p + 1) taken q)

first_free_lowest :
    (r p : ℕ) (taken : List ℕ) (q k : ℕ)
    → first_free r p taken ≡ some q
    → p ≤ k
    → k < q
    → contains k taken ≡ true
unfolding first_free
first_free_lowest zero p taken q k h le lt = cc
first_free_lowest (suc r) p taken q k h le lt =
    ground (arith, first_free_lowest r (p + 1) taken q k)

-- How many of the `r` places from `p` no booking holds.
unfoldable pub free_from : ℕ → ℕ → List PlaceHolder → ℕ
free_from zero p os = 0
free_from (suc r) p os = (if occupied p os then 0 else 1) + free_from r (p + 1) os

hits-free_from :
    (c r p : ℕ) (os : List PlaceHolder) → hits r p (taken_places c os []) + free_from r p os ≡ r
unfolding hits free_from
hits-free_from c zero p os = refl
hits-free_from c (suc r) p os =
    ground (arith, hits-free_from c r (p + 1) os, contains-taken_places c p os)

first_free-none : (r p : ℕ) (taken : List ℕ) → first_free r p taken ≡ none → hits r p taken ≡ r
unfolding first_free hits
first_free-none zero p taken h = refl
first_free-none (suc r) p taken h = ground (arith, first_free-none r (p + 1) taken)

places_of_pos : (g : Guests) (c : ℕ) → 1 ≤ places_of g c true
unfolding places_of
places_of_pos g c = omega arith

-- In a hotel that sells by places, a place that is given is a place of the room, no other booking
-- holds it, and every lower place of the room is held.
pub allocate_place_free :
    (c : ℕ) (g : Guests) (os : List PlaceHolder) (p : ℕ)
    → allocate_place c true g os ≡ some p
    → (1 ≤ p) × (p ≤ c) × (occupied p os ≡ false) × ((k : ℕ) → 1 ≤ k → k < p → occupied k os ≡ true)
unfolding allocate_place
allocate_place_free c g os p h =
    let taken = taken_places c os [] in
    let found : first_free c 1 taken ≡ some p = ground arith in
    let (low, high, free) = first_free_sound c 1 taken p found in
    (
      low,
      omega (arith, high),
      ground (arith, free, contains-taken_places c p os),
      λ k lo lt.
          ground (arith, contains-taken_places c k os, first_free_lowest c 1 taken p k found lo lt),
    )

-- In a hotel that sells by places, where every booking of the room lies within it, a booking is
-- refused exactly when the places that nobody holds are fewer than it has guests, or when it has
-- none and no place is left.
pub allocate_place_refuses :
    (c : ℕ) (g : Guests) (os : List PlaceHolder)
    → every (lies_within c) os ≡ true
    → (allocate_place c true g os ≡ none)
      ↔ (free_from c 1 os < max 1 (g.adults + or_zero g.children))
unfolding allocate_place IsCounted places_of hits
allocate_place_refuses c g os within =
    let taken = taken_places c os [] in
    let size : hits c 1 taken ≡ length taken =
      taken_places-IsCounted c os [] within (hits-nil c 1) in
    let left = hits-free_from c c 1 os in
    (λ h. ground (arith, size, left, first_free-none c 1 taken), λ h. ground (arith, size, left))

-- In an ordinary hotel a room is given whole: the place is 1 and the room has no other booking on
-- these dates, and with none it is always given.
pub allocate_place_whole :
    (c : ℕ) (g : Guests) (os : List PlaceHolder) (p : ℕ)
    → (allocate_place c false g os ≡ some p) ↔ ((p ≡ 1) × (os ≡ []))
unfolding allocate_place
allocate_place_whole c g [] p = (λ h. ground arith, λ h. ground arith)
allocate_place_whole c g (o ∷ os) p = (λ h. ground arith, λ h. ground arith)

-- In a hotel that sells by places, a booking that needs one place is given a place that no other
-- booking holds.
pub allocate_place_single :
    (c : ℕ) (g : Guests) (os : List PlaceHolder) (p q : ℕ)
    → places_of g c true ≡ 1
    → allocate_place c true g os ≡ some p
    → in_span q p (places_of g c true) ≡ true
    → occupied q os ≡ false
allocate_place_single c g os p q one h s =
    let (low, high, free, lowest) = allocate_place_free c g os p h in
    let same : q ≡ p = ground arith in rw same free

abbrev pub couple : Guests
couple = record { adults = 2; children = none }

first_free_first :
    (c : ℕ) (taken : List ℕ) → 1 ≤ c → contains 1 taken ≡ false → first_free c 1 taken ≡ some 1
unfolding first_free
first_free_first zero taken h free = absurd (omega arith)
first_free_first (suc c) taken h free = ground arith

-- Whenever the first place is free, the second one is held and two places are left, two guests are
-- given the first place, so the second one is held by two bookings.
pub allocate_place_overlaps :
    (c : ℕ) (os : List PlaceHolder)
    → occupied 1 os ≡ false
    → occupied 2 os ≡ true
    → 2 + length (taken_places c os []) ≤ c
    → (allocate_place c true couple os ≡ some 1)
      × (in_span 2 1 (places_of couple c true) ≡ true)
      × (occupied 2 os ≡ true)
unfolding allocate_place places_of
allocate_place_overlaps c os free held room =
    let taken = taken_places c os [] in
    let first =
      first_free_first c taken (omega arith) (ground (arith, contains-taken_places c 1 os)) in
    (ground (arith, first), refl, held)
