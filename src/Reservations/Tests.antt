-- ===== src/Reservations/Tests.antt =====
-- The theorems on reservations at concrete hotels
-- (backend/src/modules/reservations/reservations.service.ts).
use kars_hotel.Base.{
  ℕ, ◌≡◌, ◌≢◌, ◌↔◌, refl, Bool, true, false, not, none, some, [], ◌∷◌, ◌&&◌, In, arith,
  if◌then◌else◌,
}
use kars_hotel.Base.Text.{Text, codes, text_eq}
use kars_hotel.Base.Result.{ok, err}
use kars_hotel.Hotel.{
  Hotel, Reservation, confirmed, checked_in, cancelled, fact_checked_in, fact_checked_out,
  find_reservation, version_mismatch, key_reused, cancel_refused, by_channel, already_closed,
}
use kars_hotel.Hotel.Samples.{stay_of, hotel_of, hotel_after}
use kars_hotel.Places.{allocate_place, places_of}
use kars_hotel.Reservations.Request.{
  CreateReservation, UpdateReservation, read_status, status_or, source_or,
}
use kars_hotel.Reservations.Overlap.{overlapping, in_the_way}
use kars_hotel.Reservations.Create.{
  Created, created_of, create_reservation, create_fresh, channel_reservation, new_reservation,
}
use kars_hotel.Reservations.Facts.{record_fact, admit_fact, emit_for_reservation}
use kars_hotel.Reservations.Cancelling.{cancel_reservation}
use kars_hotel.Reservations.Placement.{asks_place, resolve_place}
use kars_hotel.Reservations.Update.{
  edit_row, update_tables, guests_refused, admit_status, edited, after_update,
}
use kars_hotel.Reservations.Swap.{SwapReservations, swap}
use kars_hotel.Reservations.History.{
  Step, creates, records, here, next, IsOrdinary, Reach-IsOrdinary,
}
use kars_hotel.Reservations.Exclusive.{clash}
use kars_hotel.Reservations.Revival.{status_only, no_stay, revived, after_revival, revival_clashes}
use kars_hotel.Reservations.Locking.{second_edit_refused}
use kars_hotel.Reservations.Partner.{cancel_reservation-refuses}
use kars_hotel.Hotel.{checked_out}
use kars_hotel.Reservations.Since.{Since, at_once, after, to_record}
use kars_hotel.Base.{◌⊎◌}
use kars_hotel.Reservations.Replay.{keyed, create_reservation-replays}
use kars_hotel.Reservations.FactRules.{MayCome, IsSettled, record_fact-admits}
use kars_hotel.Reservations.SwapPlaces.{shares_place, swap-exchanges, swap-shares_place}

abbrev booking : CreateReservation
booking = record {
  room_id = 101;
  guest_name = [];
  phone = none;
  email = none;
  check_in = 10;
  check_out = 12;
  adults = 2;
  children = none;
  status = none;
  source = none;
  notes = none;
  total_price = none;
  rate_plan_id = none;
  channel_managed = none;
  guest_kind = none;
}

-- A room taken, and its guest checked in.
abbrev empty_hotel : Hotel
empty_hotel = hotel_of false []

abbrev first_day : Hotel
first_day = hotel_after empty_hotel (create_reservation booking no_stay none none empty_hotel)

abbrev second_day : Hotel
second_day = hotel_after first_day (record_fact 50 fact_checked_in none none 7 first_day)

empty-IsOrdinary : IsOrdinary empty_hotel
empty-IsOrdinary = record {
  whole_rooms = refl;
  valid = record {
    unique = λ r s i j q. absurd i;
    fresh = λ r i. absurd i;
    exclusive = λ r s i j ne. absurd i;
  };
}

booked : Step empty_hotel first_day
unfolding create_reservation channel_reservation create_fresh allocate_place overlapping in_the_way
    new_reservation status_or source_or
booked = creates booking no_stay none none _ refl

arrived : Step first_day second_day
unfolding create_reservation channel_reservation create_fresh allocate_place overlapping in_the_way
    new_reservation status_or source_or record_fact admit_fact
arrived = records 50 fact_checked_in none none 7 2 refl

Reach-IsOrdinary_example : IsOrdinary second_day
Reach-IsOrdinary_example = Reach-IsOrdinary empty-IsOrdinary (next (next here booked) arrived)

-- A guest who leaves.
abbrev staying : Reservation
staying = stay_of 1 1 10 12 checked_in false

abbrev guest_in : Hotel
guest_in = hotel_of false (staying ∷ [])

abbrev guest_out : Hotel
guest_out = hotel_after guest_in (record_fact 1 fact_checked_out (some 3) none 7 guest_in)

record_fact-admits_example :
    ((h' : Hotel) × (record_fact 1 fact_checked_out (some 3) none 7 guest_in ≡ ok (2, h')))
    ↔ (MayCome fact_checked_out checked_in × IsSettled fact_checked_out 1 guest_in)
record_fact-admits_example =
    record_fact-admits 1 fact_checked_out (some 3) none 7 guest_in staying refl

-- One key, twice.
abbrev key : Text
key = 107 ∷ []

abbrev answered : Created
answered = record { id = 50; status = confirmed; version = 1; place_number = 1 }

abbrev keyed_hotel : Hotel
keyed_hotel =
    hotel_after empty_hotel (create_reservation booking no_stay (keyed 4 key key) none empty_hotel)

-- The guest has come since.
abbrev keyed_later : Hotel
keyed_later = hotel_after keyed_hotel (record_fact 50 fact_checked_in none none 7 keyed_hotel)

keyed-Since : Since keyed_hotel keyed_later
unfolding create_reservation channel_reservation create_fresh allocate_place overlapping in_the_way
    new_reservation status_or source_or record_fact admit_fact
keyed-Since = after at_once (to_record 50 fact_checked_in none none 7 2 refl)

create_reservation-replays_example :
    (r : Reservation) × In r keyed_later.reservations
    × (r.id ≡ 50)
    × (create_reservation booking no_stay (keyed 4 key []) none keyed_later
        ≡ (if text_eq key [] then ok (created_of r, keyed_later) else err key_reused))
unfolding create_reservation channel_reservation create_fresh allocate_place overlapping in_the_way
    new_reservation status_or source_or
create_reservation-replays_example =
    create_reservation-replays booking booking no_stay no_stay 4 key key [] none none empty_hotel
      answered keyed_hotel keyed_later refl keyed-Since refl

-- Two edits of one version.
abbrev confirm : UpdateReservation
confirm = status_only 1 (codes "CONFIRMED")

abbrev edited_stay : Reservation
edited_stay = record (stay_of 1 1 10 12 confirmed true) { version = 2 }

abbrev partner_hotel : Hotel
partner_hotel = hotel_of false (stay_of 1 1 10 12 confirmed true ∷ [])

abbrev edited_hotel : Hotel
edited_hotel = hotel_after partner_hotel (edit_row 1 confirm no_stay false none 7 partner_hotel)

-- The guest has come between the two.
abbrev edited_later : Hotel
edited_later = hotel_after edited_hotel (record_fact 1 fact_checked_in none none 7 edited_hotel)

edited-Since : Since edited_hotel edited_later
unfolding edit_row update_tables guests_refused admit_status asks_place resolve_place read_status
    status_or source_or edited record_fact admit_fact after_update emit_for_reservation
edited-Since = after at_once (to_record 1 fact_checked_in none none 7 3 refl)

second_edit_refused_example :
    edit_row 1 confirm no_stay false none 8 edited_later ≡ err version_mismatch
unfolding edit_row update_tables guests_refused admit_status asks_place resolve_place read_status
    status_or source_or edited
second_edit_refused_example =
    second_edit_refused 1 confirm confirm no_stay no_stay false false none none 7 8 partner_hotel
      edited_stay edited_hotel edited_later refl edited-Since refl

cancel_reservation-refuses_example :
    ((cancel_reservation 1 none none false partner_hotel ≡ err (cancel_refused by_channel))
      ↔ ((◌≡◌ {A = Bool} true true) × (◌≡◌ {A = Bool} false false)))
    × ((cancel_reservation 1 none none false partner_hotel ≡ err (cancel_refused already_closed))
        ↔ ((true && not false ≡ false) × ((confirmed ≡ cancelled) ⊎ (confirmed ≡ checked_out))))
    × ((true && not false ≡ false) × ((confirmed ≡ cancelled) ⊎ (confirmed ≡ checked_out) → ⊥)
        → (h' : Hotel) × (r : Reservation) × (cancel_reservation 1 none none false partner_hotel
            ≡ ok (2, h'))
          × (find_reservation 1 h'.reservations ≡ some r)
          × (r.status ≡ cancelled)
          × (r.version ≡ 2))
cancel_reservation-refuses_example =
    cancel_reservation-refuses 1 none none false partner_hotel (stay_of 1 1 10 12 confirmed true)
      refl

-- A cancelled reservation and a live one of the same days.
abbrev dead : Reservation
dead = stay_of 1 1 10 12 cancelled false

abbrev living : Reservation
living = stay_of 2 1 11 13 confirmed false

abbrev shared_hotel : Hotel
shared_hotel = hotel_of false (dead ∷ living ∷ [])

revival_clashes_example :
    (edit_row 1 (status_only 1 (codes "CONFIRMED")) no_stay false none 7 shared_hotel
      ≡ ok (revived dead, after_revival 1 dead false none 7 shared_hotel))
    × (clash (revived dead) living ≡ true)
revival_clashes_example =
    revival_clashes 1 dead living false none 7 shared_hotel refl refl (omega arith) refl refl refl

-- Three guests of one room, the third on the place that the first is given.
abbrev by_wall : Reservation
by_wall = stay_of 1 1 10 12 confirmed false

abbrev by_window : Reservation
by_window = stay_of 2 2 20 22 confirmed false

abbrev third : Reservation
third = stay_of 3 2 10 12 confirmed false

abbrev dormitory : Hotel
dormitory = hotel_of true (by_wall ∷ by_window ∷ third ∷ [])

abbrev exchange : SwapReservations
exchange = record { id_a = 1; version_a = 1; id_b = 2; version_b = 1 }

swap-exchanges_example :
    (find_reservation 1 (hotel_after dormitory (swap exchange dormitory)).reservations
      ≡ some (record by_wall { place_number = 2; version = 2 }))
    × (find_reservation 2 (hotel_after dormitory (swap exchange dormitory)).reservations
        ≡ some (record by_window { place_number = 1; version = 2 }))
    × ((other : ℕ)
        → other ≢ 1
        → other ≢ 2
        → find_reservation other (hotel_after dormitory (swap exchange dormitory)).reservations
          ≡ find_reservation other dormitory.reservations)
unfolding swap
swap-exchanges_example =
    swap-exchanges exchange dormitory (2, 2) (hotel_after dormitory (swap exchange dormitory))
      by_wall by_window refl refl refl

swap-shares_place_example :
    (h' : Hotel) × (a' : Reservation) × (swap exchange dormitory ≡ ok ((2, 2), h'))
    × (find_reservation 1 h'.reservations ≡ some a')
    × (find_reservation 3 h'.reservations ≡ some third)
    × (shares_place 2 a' third ≡ true)
unfolding places_of
swap-shares_place_example =
    swap-shares_place by_wall by_window third 2 dormitory refl refl refl (λ q. omega (arith, q))
      (λ q. omega (arith, q)) (λ q. omega (arith, q)) refl refl refl refl refl refl

-- A guest who is put on the second place of a room with another guest.
abbrev to_second : UpdateReservation
to_second = record (status_only 1 (codes "CONFIRMED")) { status = none; place_number = some 2 }

abbrev shared_room : Hotel
shared_room = hotel_of true (by_wall ∷ stay_of 3 1 10 12 confirmed false ∷ [])

abbrev moved : Reservation
moved = record by_wall { place_number = 2; version = 2 }
