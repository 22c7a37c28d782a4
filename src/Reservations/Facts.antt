-- ===== src/Reservations/Facts.antt =====
-- Check-in, check-out and no-show: backend/src/modules/reservations/reservations.service.ts, from
-- which status a fact may be recorded, what it leaves in the tables, and whom it is told.
use kars_hotel.Base.{
  ℕ, suc, ◌+◌, Bool, true, false, not, Option, none, some, List, [], ◌∷◌, ◌&&◌, if◌then◌else◌,
}
use kars_hotel.Base.Result.{Result, ok, ◌>>=◌, ◌>>◌, or_refuse, refuse_if}
use kars_hotel.Hotel.{
  Hotel, Reservation, Status, new, confirmed, checked_in, checked_out, no_show, Fact,
  fact_checked_in, fact_checked_out, fact_no_show, Action, check_in, check_out, no_show_action,
  Refusal, reservation_not_found, wrong_status, Change, status_value, Effect, invalidated,
  notified_updated, journaled, told_fact, dirty, find_reservation, update_reservation,
  set_room_status, emit, cleaning_asked,
}
use kars_hotel.Folio.{assert_zero_balance}
use kars_hotel.Housekeeping.{auto_create_on_checkout}

abbrev pub status_of : Fact → Status
status_of fact_checked_in = checked_in
status_of fact_checked_out = checked_out
status_of fact_no_show = no_show

-- `FACTS[fact].from.includes(status)`
abbrev pub allowed_from : Fact → Status → Bool
allowed_from fact_checked_in new = true
allowed_from fact_checked_in confirmed = true
allowed_from fact_checked_out checked_in = true
allowed_from fact_no_show new = true
allowed_from fact_no_show confirmed = true
allowed_from _ _ = false

-- `FACTS[fact].action`
abbrev pub action_of : Fact → Action
action_of fact_checked_in = check_in
action_of fact_checked_out = check_out
action_of fact_no_show = no_show_action

abbrev pub bill_closed : Fact → ℕ → Hotel → Result Refusal (Unit {0})
bill_closed fact_checked_out id h = assert_zero_balance id h
bill_closed fact_checked_in id h = ok tt
bill_closed fact_no_show id h = ok tt

-- `admitFact`: false for the wrong status; for a check-out the bill is checked too, and throws.
unfoldable pub admit_fact : ℕ → Fact → Status → Hotel → Result Refusal Bool
admit_fact id fact status h =
    if allowed_from fact status then bill_closed fact id h >> ok true else ok false

abbrev pub or_now : Option ℕ → ℕ → ℕ
or_now none now = now
or_now (some at) now = at

-- `stampFact`: the moment is the partner's, or the present one.
unfoldable pub stamp_fact : ℕ → Fact → ℕ → Option ℕ → ℕ → Hotel → Hotel
stamp_fact id fact_checked_in room_id at now h = record h {
  reservations =
      update_reservation id (λ r. record r { checked_in_at = some (or_now at now) }) h.reservations;
}
stamp_fact id fact_checked_out room_id at now h = record h {
  reservations =
      update_reservation id (λ r. record r { checked_out_at = some (or_now at now) })
        h.reservations;
  rooms = set_room_status room_id dirty h.rooms;
}
stamp_fact id fact_no_show room_id at now h = h

abbrev guests_in : Option Reservation → ℕ
guests_in none = 0
guests_in (some r) = r.adults + r.children

-- `guestCounts`: those booked, who count as those who arrived.
unfoldable pub guest_count : ℕ → Hotel → ℕ
guest_count id h = guests_in (find_reservation id h.reservations)

abbrev pub managed : Option Reservation → Bool
managed none = false
managed (some r) = r.channel_managed

-- `emitForReservation` (backend/src/modules/connectivity/partner-webhook.service.ts): only where the
-- integration is set up, and only about a partner's reservation.
unfoldable pub emit_for_reservation : ℕ → Effect → Hotel → Hotel
emit_for_reservation id e h =
    if h.webhooks_on && managed (find_reservation id h.reservations) then emit (e ∷ []) h else h

abbrev fact_event : Fact → ℕ → Option ℕ → ℕ → ℕ → Effect
fact_event fact_checked_in id at now n = told_fact checked_in id (some (or_now at now)) n n
fact_event fact_checked_out id at now n = told_fact checked_out id (some (or_now at now)) n n
fact_event fact_no_show id at now n = told_fact no_show id none n 0

-- `this.hkService.autoCreateOnCheckout(...).catch(...)`: the cleaning is asked for and not awaited.
abbrev clean_after : Fact → ℕ → ℕ → Hotel → Hotel
clean_after fact_checked_out room_id id h = emit (cleaning_asked room_id id ∷ []) h
clean_after fact_checked_in room_id id h = h
clean_after fact_no_show room_id id h = h

abbrev pub status_change : Status → Status → List Change
status_change was is = record { before = status_value was; after = status_value is } ∷ []

-- `announceFact`: the journal, the cleaning asked for, the partner.
unfoldable pub announce_fact : ℕ → Fact → Status → ℕ → Option ℕ → Option ℕ → ℕ → Hotel → Hotel
announce_fact id fact before room_id user at now h =
    let h₁ =
      emit (journaled (action_of fact) id user (status_change before (status_of fact)) ∷ []) h in
    let h₂ = clean_after fact room_id id h₁ in
    emit_for_reservation id (fact_event fact id at now (guest_count id h₂)) h₂

-- What becomes of the cleaning that was asked for, whenever it is carried out: it is made, or the
-- error is only logged.
unfoldable pub carry_out_cleaning : Bool → ℕ → ℕ → Hotel → Hotel
carry_out_cleaning fails room_id id h = if fails then h else auto_create_on_checkout room_id id h

abbrev pub bump_to : Status → Reservation → Reservation
bump_to s r = record r { status = s; version = suc r.version }

-- `recordFact`
unfoldable pub record_fact : ℕ → Fact → Option ℕ → Option ℕ → ℕ → Hotel → Result Refusal (ℕ × Hotel)
record_fact id fact user at now h = do
  cur ← or_refuse (find_reservation id h.reservations) reservation_not_found
  admitted ← admit_fact id fact cur.status h
  refuse_if (not admitted) (wrong_status fact)
  let h₁ = record h {
    reservations = update_reservation id (bump_to (status_of fact)) h.reservations;
  }
  let h₂ = stamp_fact id fact cur.room_id at now h₁
  let h₃ = emit (invalidated ∷ notified_updated ∷ []) h₂
  ok (suc cur.version, announce_fact id fact cur.status cur.room_id user at now h₃)
