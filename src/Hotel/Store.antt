-- ===== src/Hotel/Store.antt =====
-- What a write to the reservation table does to a later read (the UPDATE statements of
-- backend/src/modules/reservations/reservations.service.ts).
use kars_hotel.Base.{ℕ, ◌≡◌, refl, ◌≢◌, some, List, [], ◌∷◌, arith}
use kars_hotel.Hotel.{Reservation, find_reservation, update_reservation}

-- Reading the row that was written.
pub find_reservation-update_self :
    (id : ℕ) (f : Reservation → Reservation) (rs : List Reservation) (r : Reservation)
    → (f r).id ≡ r.id
    → find_reservation id rs ≡ some r
    → find_reservation id (update_reservation id f rs) ≡ some (f r)
find_reservation-update_self id f [] r same h = cc
find_reservation-update_self id f (x ∷ rs) r same h =
    ground (arith, find_reservation-update_self id f rs r same)

-- Reading another row.
pub find_reservation-update_ne :
    (id other : ℕ) (f : Reservation → Reservation) (rs : List Reservation)
    → ((r : Reservation) → (f r).id ≡ r.id)
    → id ≢ other
    → find_reservation other (update_reservation id f rs) ≡ find_reservation other rs
find_reservation-update_ne id other f [] same ne = refl
find_reservation-update_ne id other f (x ∷ rs) same ne =
    ground (arith, same x, find_reservation-update_ne id other f rs same ne)

-- A row that is found has the id that was asked for.
pub find_reservation-id :
    (id : ℕ) (rs : List Reservation) (r : Reservation) → find_reservation id rs ≡ some r → r.id ≡ id
find_reservation-id id [] r h = cc
find_reservation-id id (x ∷ rs) r h = ground (arith, find_reservation-id id rs r)
