-- ===== src/Places/Tests.antt =====
-- The theorems on places at concrete rooms (backend/src/modules/reservations/room-places.ts).
use kars_hotel.Base.{
  ℕ, ◌+◌, ◌≤◌, ◌<◌, ◌≡◌, ◌↔◌, refl, true, false, none, some, [], ◌∷◌, arith, List, max,
}
use kars_hotel.Places.{
  PlaceHolder, Guests, places_of, taken_places, first_free, take_span, allocate_place, room_fits,
}
use kars_hotel.Places.Alloc.{
  in_span, holds, occupied, free_from, couple, allocate_place_free, allocate_place_refuses,
  allocate_place_overlaps,
}

abbrev single : Guests
single = record { adults = 1; children = none }

abbrev on_place : ℕ → PlaceHolder
on_place p = record { place_number = p; adults = 1; children = 0 }

allocate_place_test : allocate_place 3 true single (on_place 1 ∷ on_place 3 ∷ []) ≡ some 2
unfolding allocate_place taken_places take_span places_of first_free
allocate_place_test = refl

full_test : room_fits 2 true single (on_place 1 ∷ on_place 2 ∷ []) ≡ false
unfolding room_fits allocate_place taken_places take_span places_of first_free
full_test = refl

allocate_place_free_example :
    (1 ≤ 2)
    × (2 ≤ 3)
    × (occupied 2 (on_place 1 ∷ on_place 3 ∷ []) ≡ false)
    × ((k : ℕ) → 1 ≤ k → k < 2 → occupied k (on_place 1 ∷ on_place 3 ∷ []) ≡ true)
allocate_place_free_example =
    allocate_place_free 3 single (on_place 1 ∷ on_place 3 ∷ []) 2 allocate_place_test

-- A guest on the first place, and two guests on the last ones.
abbrev two_rows : List PlaceHolder
two_rows = on_place 1 ∷ record { place_number = 3; adults = 1; children = 1 } ∷ []

allocate_place_refuses_example :
    (allocate_place 4 true couple two_rows ≡ none) ↔ (free_from 4 1 two_rows < max 1 (2 + 0))
allocate_place_refuses_example = allocate_place_refuses 4 couple two_rows refl

allocate_place_overlaps_example :
    (allocate_place 4 true couple (on_place 2 ∷ []) ≡ some 1)
    × (in_span 2 1 (places_of couple 4 true) ≡ true)
    × (occupied 2 (on_place 2 ∷ []) ≡ true)
unfolding occupied holds places_of taken_places take_span
allocate_place_overlaps_example =
    allocate_place_overlaps 4 (on_place 2 ∷ []) refl refl (omega arith)
