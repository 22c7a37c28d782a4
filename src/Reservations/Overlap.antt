-- ===== src/Reservations/Overlap.antt =====
-- The reservations of a room that share a night with a stay:
-- backend/src/modules/reservations/reservations.service.ts, `overlapping`.
use kars_hotel.Base.{
  ℕ, Bool, true, false, Option, none, some, List, map, ◌==◌, ◌&&◌, not, ltb, select,
}
use kars_hotel.Places.{PlaceHolder}
use kars_hotel.Hotel.{Reservation, Status, cancelled, no_show}

-- `status NOT IN ('CANCELLED', 'NO_SHOW')`
abbrev pub is_live : Status → Bool
is_live cancelled = false
is_live no_show = false
is_live _ = true

abbrev pub is_other : Option ℕ → ℕ → Bool
is_other none id = true
is_other (some excluded) id = not (id == excluded)

-- `check_in < checkOut AND check_out > checkIn`
abbrev pub shares_night : ℕ → ℕ → Reservation → Bool
shares_night check_in check_out r = ltb r.check_in check_out && ltb check_in r.check_out

unfoldable pub in_the_way : ℕ → ℕ → ℕ → Option ℕ → Reservation → Bool
in_the_way room_id check_in check_out excluded r =
    r.room_id == room_id
    && (is_other excluded r.id && (shares_night check_in check_out r && is_live r.status))

abbrev pub as_holder : Reservation → PlaceHolder
as_holder r = record { place_number = r.place_number; adults = r.adults; children = r.children }

unfoldable pub overlapping : ℕ → ℕ → ℕ → Option ℕ → List Reservation → List PlaceHolder
overlapping room_id check_in check_out excluded rs =
    map as_holder (select (in_the_way room_id check_in check_out excluded) rs)
