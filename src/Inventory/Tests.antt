-- ===== src/Inventory/Tests.antt =====
-- The theorems on the inventory at a concrete category
-- (backend/src/modules/inventory/inventory.service.ts).
use kars_hotel.Base.{ℕ, ◌+◌, ◌≤◌, ◌≡◌, refl, inl, inr, false, [], ◌∷◌}
use kars_hotel.Base.Result.{ok}
use kars_hotel.Hotel.Samples.{room_101}
use kars_hotel.Inventory.{InventoryRow, Store, ensure, room_count, increment_booked}
use kars_hotel.Inventory.Capacity.{increment_booked-fits}

abbrev one_room : Store
one_room = record { rooms = room_101 ∷ []; room_types = 7 ∷ []; inventory = []; cached = 7 ∷ [] }

abbrev row_on : ℕ → ℕ → InventoryRow
row_on day booked = record {
  room_type_id = 7;
  date = day;
  total_rooms = 1;
  booked_rooms = booked;
  blocked_rooms = 0;
  stop_sell = false;
}

abbrev sold : Store
sold = record one_room { inventory = row_on 10 1 ∷ row_on 11 1 ∷ [] }

sale : increment_booked 7 (10 ∷ 11 ∷ []) 1 one_room ≡ ok sold
unfolding increment_booked ensure room_count
sale = refl

increment_booked-fits_example : 1 + 0 ≤ 1
increment_booked-fits_example =
    increment_booked-fits 7 (10 ∷ 11 ∷ []) 1 one_room sold (row_on 11 1) sale (inr (inl refl)) refl
