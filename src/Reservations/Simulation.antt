-- ===== src/Reservations/Simulation.antt =====
-- What each request does to the desk's calendar
-- (backend/src/modules/reservations/reservations.service.ts).
use kars_hotel.Base.{if◌then◌else◌, ℕ, ◌≢◌, ◌⊎◌, Option, none, some}
use kars_hotel.Base.Text.{Text}
use kars_hotel.Hotel.{Hotel, Reservation, fact_checked_in, fact_checked_out, fact_no_show}
use kars_hotel.Reservations.Overlap.{is_live}
use kars_hotel.Reservations.Request.{UpdateReservation, status_or, or_else}
use kars_hotel.Reservations.History.{Step, creates, edits, swaps, records, cancels}
use kars_hotel.Reservations.Calendar.{Span, calendar}
use kars_hotel.Reservations.Requested.{Same, Shifts, asked_span}

-- The nights that a reservation asks for once an edit is made: what the edit does not name stays.
abbrev pub edited_span : UpdateReservation → Reservation → Option Span
edited_span dto cur =
    if is_live (status_or dto.status cur.status)
    then some (record {
      room = or_else dto.room_id cur.room_id;
      from = or_else dto.check_in cur.check_in;
      to = or_else dto.check_out cur.check_out;
    })
    else none

-- What a request is to the calendar: a new reservation gets the nights asked for, or the request was
-- answered before; an edit gives up the nights and gets those asked for, if the status that it
-- leaves is live; a cancellation or a no-show gives them up; all else leaves the calendar.
abbrev pub Meaning : {h h' : Hotel} → Step h h' → Type 0
Meaning {h} {h'} (creates dto stay channel user c e) =
    Same h h'
    ⊎ (((room night : ℕ) → calendar h.reservations room night ≢ some c.id)
        × Shifts c.id (asked_span dto) h h')
Meaning {h} {h'} (edits id dto stay from_channel user now n cur found why e) =
    Shifts id (edited_span dto cur) h h'
Meaning {h} {h'} (swaps dto versions e) = Same h h'
Meaning {h} {h'} (records id fact_checked_in user at now version e) = Same h h'
Meaning {h} {h'} (records id fact_checked_out user at now version e) = Same h h'
Meaning {h} {h'} (records id fact_no_show user at now version e) = Shifts id none h h'
Meaning {h} {h'} (cancels id user reason from_channel version e) = Shifts id none h h'
