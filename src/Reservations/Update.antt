-- ===== src/Reservations/Update.antt =====
-- Editing a reservation: backend/src/modules/reservations/reservations.service.ts, `update`. The
-- children hold the choice of a place and the comparison for the journal.
use kars_hotel.Base.{
  ℕ, suc, Bool, true, false, not, Option, none, some, List, [], ◌∷◌, ◌++◌, ◌&&◌, ◌||◌, ltb, ◌==◌,
  if◌then◌else◌,
}
use kars_hotel.Base.Text.{Text, codes}
use kars_hotel.Base.Result.{Result, ok, ◌>>=◌, ◌>>◌, or_refuse, refuse_if}
use kars_hotel.Hotel.{
  Hotel, Reservation, Room, Status, new, confirmed, checked_in, checked_out, cancelled, no_show,
  Fact, fact_checked_in, fact_checked_out, fact_no_show, Refusal, reservation_not_found,
  version_mismatch, channel_guests, date_conflict, wrong_status, room_not_found, invalidated,
  notified_updated, journaled, update, told_changed, find_reservation, update_reservation,
  find_active_room, emit, Change, absent, words, number,
}
use kars_hotel.Reservations.Request.{
  UpdateReservation, PartnerStayInfo, status_or, source_or, or_else,
}
use kars_hotel.Reservations.Facts.{admit_fact, stamp_fact, announce_fact, emit_for_reservation}
use kars_hotel.Reservations.Cancelling.{cancel_refusal, refuse_cancel, journal_cancel}
use kars_hotel.Reservations.Placement.{resolve_place}
use kars_hotel.Reservations.Changes.{changes}

abbrev pub status_eq : Status → Status → Bool
status_eq new new = true
status_eq confirmed confirmed = true
status_eq checked_in checked_in = true
status_eq checked_out checked_out = true
status_eq cancelled cancelled = true
status_eq no_show no_show = true
status_eq _ _ = false

-- `isFact(status) ? status : null`
abbrev pub fact_of : Status → Option Fact
fact_of checked_in = some fact_checked_in
fact_of checked_out = some fact_checked_out
fact_of no_show = some fact_no_show
fact_of _ = none

-- The same status once more is no new fact.
abbrev pub new_fact : Status → Status → Option Fact
new_fact was is = if status_eq is was then none else fact_of is

abbrev pub newly_cancelled : Status → Status → Bool
newly_cancelled was is = not (status_eq is was) && status_eq is cancelled

abbrev differs_from : ℕ → Option ℕ → Bool
differs_from n none = false
differs_from n (some m) = not (m == n)

-- Step 2a: the number of guests of a partner's reservation is the partner's.
unfoldable pub guests_refused : UpdateReservation → Reservation → Bool → Bool
guests_refused dto cur from_channel =
    cur.channel_managed
    && (not from_channel
        && (differs_from cur.adults dto.adults || differs_from cur.children dto.children))

abbrev pub admit_new : ℕ → Option Fact → Status → Hotel → Result Refusal (Unit {0})
admit_new id none status h = ok tt
admit_new id (some fact) status h = do
  admitted ← admit_fact id fact status h
  refuse_if (not admitted) (wrong_status fact)

abbrev pub admit_cancel : Bool → Reservation → Bool → Result Refusal (Unit {0})
admit_cancel false cur from_channel = ok tt
admit_cancel true cur from_channel =
    refuse_cancel (cancel_refusal cur.status cur.channel_managed from_channel)

-- Steps 3a and 3b: a fact and a cancellation by the form, under the rules of the buttons.
unfoldable pub admit_status : ℕ → Reservation → Status → Bool → Hotel → Result Refusal (Unit {0})
admit_status id cur status from_channel h = do
  admit_new id (new_fact cur.status status) cur.status h
  admit_cancel (newly_cancelled cur.status status) cur from_channel

-- Step 5: the category of the new room.
abbrev pub type_in : Option ℕ → Reservation → List Room → Result Refusal ℕ
type_in none cur rooms = ok cur.room_type_id
type_in (some room_id) cur rooms =
    if room_id == cur.room_id
    then ok cur.room_type_id
    else or_refuse (find_active_room room_id rooms) room_not_found >>= λ r. ok r.room_type_id

-- `sent !== undefined ? sent || null : current`
abbrev text_or_null : Text → Option Text
text_or_null [] = none
text_or_null (c ∷ t) = some (c ∷ t)

abbrev or_current : Option Text → Option Text → Option Text
or_current none current = current
or_current (some t) current = text_or_null t

-- Step 6: what the statement writes over a row: values that were worked out from the row that was
-- read, and a version one higher.
unfoldable pub edited :
    UpdateReservation → PartnerStayInfo → Status → ℕ → ℕ → Reservation → Reservation → Reservation
edited dto stay status place room_type cur row = record row {
  room_id = or_else dto.room_id cur.room_id;
  room_type_id = room_type;
  check_in = or_else dto.check_in cur.check_in;
  check_out = or_else dto.check_out cur.check_out;
  guest_name = or_else dto.guest_name cur.guest_name;
  phone = or_current dto.phone cur.phone;
  email = or_current dto.email cur.email;
  adults = or_else dto.adults cur.adults;
  children = or_else dto.children cur.children;
  status = status;
  source = source_or dto.source cur.source;
  notes = or_current dto.notes cur.notes;
  total_price = or_else dto.total_price cur.total_price;
  place_number = place;
  arrival_at = or_else stay.arrival_at cur.arrival_at;
  departure_at = or_else stay.departure_at cur.departure_at;
  flight = or_else stay.flight cur.flight;
  version = suc row.version;
}

abbrev pub stamp_new : ℕ → Option Fact → ℕ → ℕ → Hotel → Hotel
stamp_new id none room_id now h = h
stamp_new id (some fact) room_id now h = stamp_fact id fact room_id none now h

abbrev pub announce_new : ℕ → Option Fact → Status → ℕ → Option ℕ → ℕ → Hotel → Hotel
announce_new id none before room_id user now h = h
announce_new id (some fact) before room_id user now h =
    announce_fact id fact before room_id user none now h

abbrev journal_new_cancel : Bool → ℕ → Status → Option ℕ → Hotel → Hotel
journal_new_cancel true id before user h = journal_cancel id before user none h
journal_new_cancel false id before user h = h

-- The journal has the changed fields, the new version, and whether the partner sent them.
abbrev via : Bool → List Change
via false = []
via true = record { before = absent; after = words (codes "partner-api") } ∷ []

abbrev pub update_entry : Reservation → Reservation → Bool → List Change
update_entry cur next from_channel =
    changes cur next ++ (record { before = absent; after = number next.version } ∷ via from_channel)

-- What follows the transaction.
unfoldable pub after_update :
    ℕ → Reservation → Reservation → Status → Bool → Option ℕ → ℕ → Hotel → Hotel
after_update id cur next status from_channel user now h =
    let h₁ =
      emit
        (invalidated
          ∷ notified_updated
          ∷ journaled update id user (update_entry cur next from_channel)
          ∷ [])
        h in
    let h₂ = announce_new id (new_fact cur.status status) cur.status next.room_id user now h₁ in
    let h₃ = journal_new_cancel (newly_cancelled cur.status status) id cur.status user h₂ in
    emit_for_reservation id
      (told_changed id next.status next.check_in next.check_out next.room_id next.version) h₃

-- The transaction: the row as it was, as it is, and the tables after it.
unfoldable pub update_tables :
    ℕ
    → UpdateReservation
    → PartnerStayInfo
    → Bool
    → ℕ
    → Hotel
    → Result Refusal (Reservation × Reservation × Hotel)
update_tables id dto stay from_channel now h = do
  cur ← or_refuse (find_reservation id h.reservations) reservation_not_found
  refuse_if (not (cur.version == dto.version)) version_mismatch
  refuse_if (guests_refused dto cur from_channel) channel_guests
  refuse_if (not (ltb (or_else dto.check_in cur.check_in) (or_else dto.check_out cur.check_out)))
      date_conflict
  let status = status_or dto.status cur.status
  admit_status id cur status from_channel h
  place ← resolve_place dto cur h
  room_type ← type_in dto.room_id cur h.rooms
  let next = edited dto stay status place room_type cur cur
  let h₁ = record h {
    reservations =
        update_reservation id (edited dto stay status place room_type cur) h.reservations;
  }
  ok (cur, next, stamp_new id (new_fact cur.status status) next.room_id now h₁)

-- `update`, with the row that its statement writes: of it the request answers a part. The version is
-- compared with a row that nothing locks, so two requests whose transactions overlap are not covered.
unfoldable pub edit_row :
    ℕ
    → UpdateReservation
    → PartnerStayInfo
    → Bool
    → Option ℕ
    → ℕ
    → Hotel
    → Result Refusal (Reservation × Hotel)
edit_row id dto stay from_channel user now h = do
  (cur, next, h₁) ← update_tables id dto stay from_channel now h
  ok (next, after_update id cur next next.status from_channel user now h₁)

pub record UpdateAnswer : Type 0 where
  pub id : ℕ
  pub status : Status
  pub version : ℕ

abbrev pub answer_of : Reservation × Hotel → UpdateAnswer × Hotel
answer_of (r, h) = (record { id = r.id; status = r.status; version = r.version }, h)

-- `update`
unfoldable pub edit_reservation :
    ℕ
    → UpdateReservation
    → PartnerStayInfo
    → Bool
    → Option ℕ
    → ℕ
    → Hotel
    → Result Refusal (UpdateAnswer × Hotel)
edit_reservation id dto stay from_channel user now h =
    edit_row id dto stay from_channel user now h >>= λ out. ok (answer_of out)
