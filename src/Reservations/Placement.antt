-- ===== src/Reservations/Placement.antt =====
-- The place of an edited reservation: backend/src/modules/reservations/reservations.service.ts,
-- step 4 of `update`.
use kars_hotel.Base.{
  ℕ, ◌+◌, ◌-◌, Bool, true, false, not, Option, none, some, List, ◌&&◌, ◌||◌, ltb, leb, ◌==◌, every,
  is_empty, if◌then◌else◌,
}
use kars_hotel.Base.Result.{Result, ok, err, ◌>>=◌, or_refuse}
use kars_hotel.Places.{PlaceHolder, Guests, places_of, as_guests, allocate_place}
use kars_hotel.Hotel.{
  Hotel, Reservation, Refusal, room_not_found, booking_conflict, no_place_available,
  find_active_room,
}
use kars_hotel.Reservations.Request.{UpdateReservation, or_else}
use kars_hotel.Reservations.Overlap.{overlapping}

-- `start + need - 1 < o.placeNumber || o.placeNumber + n - 1 < start`
abbrev pub apart : ℕ → ℕ → ℕ → PlaceHolder → Bool
apart capacity need start o =
    ltb (start + need - 1) o.place_number
    || ltb (o.place_number + places_of (as_guests o) capacity true - 1) start

unfoldable pub span_free : ℕ → Bool → ℕ → List PlaceHolder → ℕ → Bool
span_free capacity multi_place need others start =
    leb 1 start
    && (leb (start + (if multi_place then need else 1) - 1) capacity
        && (if multi_place then every (apart capacity need start) others else is_empty others))

abbrev pub sent {ℓ} : {A : Type ℓ} → Option A → Bool
sent none = false
sent (some a) = true

-- The fields that ask for a check of the place.
unfoldable pub asks_place : UpdateReservation → Bool
asks_place dto =
    sent dto.place_number
    || (sent dto.room_id
        || (sent dto.check_in || (sent dto.check_out || (sent dto.adults || sent dto.children))))

abbrev pub other_room : Option ℕ → Reservation → Bool
other_room none cur = false
other_room (some room_id) cur = not (room_id == cur.room_id)

abbrev pub guests_after : UpdateReservation → Reservation → Guests
guests_after dto cur = record {
  adults = or_else dto.adults cur.adults;
  children = some (or_else dto.children cur.children);
}

-- The place asked for, or the current one if it may stay, or the first that is free.
unfoldable pub choose_place :
    ℕ → Bool → Guests → List PlaceHolder → Option ℕ → Bool → ℕ → Result Refusal ℕ
choose_place capacity multi_place guests others (some asked) moves current =
    if span_free capacity multi_place (places_of guests capacity multi_place) others asked
    then ok asked
    else err booking_conflict
choose_place capacity multi_place guests others none moves current =
    if not moves
      && span_free capacity multi_place (places_of guests capacity multi_place) others current
    then ok current
    else or_refuse (allocate_place capacity multi_place guests others) no_place_available

abbrev pub others_in : UpdateReservation → Reservation → Hotel → List PlaceHolder
others_in dto cur h =
    overlapping (or_else dto.room_id cur.room_id) (or_else dto.check_in cur.check_in)
      (or_else dto.check_out cur.check_out) (some cur.id) h.reservations

unfoldable pub resolve_place : UpdateReservation → Reservation → Hotel → Result Refusal ℕ
resolve_place dto cur h =
    if asks_place dto
    then (or_refuse (find_active_room (or_else dto.room_id cur.room_id) h.rooms) room_not_found
        >>= λ room.
            choose_place room.capacity h.multi_place (guests_after dto cur) (others_in dto cur h)
              dto.place_number (other_room dto.room_id cur) cur.place_number)
    else ok cur.place_number
