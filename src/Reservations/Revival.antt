-- ===== src/Reservations/Revival.antt =====
-- Bringing a cancelled reservation back by its status alone
-- (backend/src/modules/reservations/reservations.service.ts, steps 3 and 4 of `update`).
use kars_hotel.Base.{ℕ, ◌≡◌, Bool, true, Option, none, some, arith, ◌<◌}
use kars_hotel.Base.Text.{Text, codes}
use kars_hotel.Base.Result.{ok}
use kars_hotel.Hotel.{
  Hotel, Reservation, cancelled, confirmed, find_reservation, update_reservation,
}
use kars_hotel.Reservations.Request.{UpdateReservation, PartnerStayInfo, read_status, status_or}
use kars_hotel.Reservations.Exclusive.{clash}
use kars_hotel.Reservations.Overlap.{is_live, shares_night}
use kars_hotel.Reservations.Placement.{asks_place, resolve_place}
use kars_hotel.Reservations.Update.{
  edit_row, update_tables, edited, after_update, guests_refused, admit_status,
}

-- The edit form with a status and nothing else.
abbrev pub status_only : ℕ → Text → UpdateReservation
status_only version status = record {
  version = version;
  room_id = none;
  guest_name = none;
  phone = none;
  email = none;
  check_in = none;
  check_out = none;
  adults = none;
  children = none;
  status = some status;
  source = none;
  notes = none;
  place_number = none;
  total_price = none;
}

abbrev pub no_stay : PartnerStayInfo
no_stay = record { arrival_at = none; departure_at = none; flight = none }

-- The row and the tables that the edit leaves.
pub revived : Reservation → Reservation
revived cur =
    edited (status_only cur.version (codes "CONFIRMED")) no_stay confirmed cur.place_number
      cur.room_type_id cur cur

pub after_revival : ℕ → Reservation → Bool → Option ℕ → ℕ → Hotel → Hotel
after_revival id cur from_channel user now h =
    after_update id cur (revived cur) confirmed from_channel user now (record h {
      reservations =
          update_reservation id
            (edited (status_only cur.version (codes "CONFIRMED")) no_stay confirmed cur.place_number
              cur.room_type_id cur)
            h.reservations;
    })

-- Sending the status CONFIRMED alone for a cancelled reservation with its dates in order succeeds,
-- whoever lives in its room: a live reservation of the same room with a common night clashes with
-- it afterwards.
pub revival_clashes :
    (id : ℕ) (cur s : Reservation) (from_channel : Bool) (user : Option ℕ) (now : ℕ) (h : Hotel)
    → find_reservation id h.reservations ≡ some cur
    → cur.status ≡ cancelled
    → cur.check_in < cur.check_out
    → s.room_id ≡ cur.room_id
    → is_live s.status ≡ true
    → shares_night cur.check_in cur.check_out s ≡ true
    → (edit_row id (status_only cur.version (codes "CONFIRMED")) no_stay from_channel user now h
        ≡ ok (revived cur, after_revival id cur from_channel user now h))
      × (clash (revived cur) s ≡ true)
unfolding edit_row update_tables guests_refused admit_status resolve_place asks_place read_status
    status_or clash revived after_revival edited
revival_clashes id cur s from_channel user now h found dead dates room live night =
    (rw found (ground arith), ground arith)
