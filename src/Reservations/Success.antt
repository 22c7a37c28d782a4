-- ===== src/Reservations/Success.antt =====
-- What an operation that succeeded went through, step by step
-- (backend/src/modules/reservations/reservations.service.ts).
use kars_hotel.Base.{
  ℕ, ◌≡◌, sym, ap, ◌∙◌, Option, some, Bool, true, false, not, ltb, ◌==◌, ==_iff, arith,
}
use kars_hotel.Base.Result.{ok, >>=-eq-ok, ok-injective, or_refuse-then, refuse_if-then, unit-then}
use kars_hotel.Hotel.{
  Hotel, Reservation, Status, find_reservation, update_reservation, reservation_not_found,
  version_mismatch, channel_guests, date_conflict,
}
use kars_hotel.Reservations.Request.{UpdateReservation, PartnerStayInfo, status_or, or_else}
use kars_hotel.Reservations.Placement.{resolve_place}
use kars_hotel.Reservations.Update.{
  guests_refused, admit_status, type_in, edited, stamp_new, new_fact, update_tables, edit_row,
  after_update,
}
use kars_hotel.Reservations.Kept.{
  SameTables, SameTables-trans, SameTables-of_eq, after_update-SameTables,
}

-- The tables after the statement and the stamps of an edit.
abbrev pub edit_tables :
    ℕ → UpdateReservation → PartnerStayInfo → Status → ℕ → ℕ → Reservation → ℕ → Hotel → Hotel
edit_tables id dto stay status place room_type cur now h =
    stamp_new id (new_fact cur.status status) (or_else dto.room_id cur.room_id) now (record h {
      reservations =
          update_reservation id (edited dto stay status place room_type cur) h.reservations;
    })

pub record Edited (id : ℕ) (dto : UpdateReservation) (stay : PartnerStayInfo) (from_channel : Bool)
    (now : ℕ) (h : Hotel) (next : Reservation) (h' : Hotel) : Type 0 where
  pub cur : Reservation
  pub found : find_reservation id h.reservations ≡ some cur
  pub same_version : cur.version ≡ dto.version
  pub guests_allowed : guests_refused dto cur from_channel ≡ false
  pub in_order :
      ltb (or_else dto.check_in cur.check_in) (or_else dto.check_out cur.check_out) ≡ true
  pub admitted : admit_status id cur (status_or dto.status cur.status) from_channel h ≡ ok tt
  pub place : ℕ
  pub placed : resolve_place dto cur h ≡ ok place
  pub room_type : ℕ
  pub is_next : next ≡ edited dto stay (status_or dto.status cur.status) place room_type cur cur
  pub tables :
      SameTables
        (edit_tables id dto stay (status_or dto.status cur.status) place room_type cur now h)
        h'

not-false : (b : Bool) → not b ≡ false → b ≡ true
not-false b h = ground arith

update_tables-Edited :
    (id : ℕ) (dto : UpdateReservation) (stay : PartnerStayInfo) (from_channel : Bool) (now : ℕ)
    (h : Hotel) (cur next : Reservation) (h₁ : Hotel)
    → update_tables id dto stay from_channel now h ≡ ok (cur, next, h₁)
    → Edited id dto stay from_channel now h next h₁
unfolding update_tables edited
update_tables-Edited id dto stay from_channel now h cur' next h₁ e =
    let (cur, found, q₁) =
      or_refuse-then (find_reservation id h.reservations) reservation_not_found _ e in
    let (v, q₂) = refuse_if-then (not (cur.version == dto.version)) version_mismatch _ q₁ in
    let (g, q₃) = refuse_if-then (guests_refused dto cur from_channel) channel_guests _ q₂ in
    let (d, q₄) =
      refuse_if-then
        (not (ltb (or_else dto.check_in cur.check_in) (or_else dto.check_out cur.check_out)))
        date_conflict _ q₃ in
    let status = status_or dto.status cur.status in
    let (a, q₅) = unit-then (admit_status id cur status from_channel h) _ q₄ in
    let (place, p, q₆) = >>=-eq-ok (resolve_place dto cur h) _ q₅ in
    let (room_type, t, q₇) = >>=-eq-ok (type_in dto.room_id cur h.rooms) _ q₆ in
    let three : Reservation × Reservation × Hotel = (
      cur,
      edited dto stay status place room_type cur cur,
      edit_tables id dto stay status place room_type cur now h,
    ) in
    let out = ok-injective three (cur', next, h₁) q₇ in
    let same : h₁ ≡ edit_tables id dto stay status place room_type cur now h =
      sym (ap (λ (x : Reservation × Reservation × Hotel). x.2) out) in
    record {
      cur = cur;
      found = found;
      same_version = (==_iff cur.version dto.version).0 (not-false (cur.version == dto.version) v);
      guests_allowed = g;
      in_order =
          not-false (ltb (or_else dto.check_in cur.check_in) (or_else dto.check_out cur.check_out))
            d;
      admitted = a;
      place = place;
      placed = p;
      room_type = room_type;
      is_next = sym (ap (λ (x : Reservation × Reservation × Hotel). x.1) out);
      tables = SameTables-of_eq _ h₁ (sym same);
    }

pub edit_reservation-Edited :
    (id : ℕ) (dto : UpdateReservation) (stay : PartnerStayInfo) (from_channel : Bool)
    (user : Option ℕ) (now : ℕ) (h : Hotel) (next : Reservation) (h' : Hotel)
    → edit_row id dto stay from_channel user now h ≡ ok (next, h')
    → Edited id dto stay from_channel now h next h'
unfolding edit_row
edit_reservation-Edited id dto stay from_channel user now h next h' e =
    let (out, e₁, q) = >>=-eq-ok (update_tables id dto stay from_channel now h) _ e in
    let cur = out.0 in
    let next₁ = out.1 in
    let h₁ = out.2 in
    let E = update_tables-Edited id dto stay from_channel now h cur next₁ h₁ e₁ in
    let h₂ = after_update id cur next₁ next₁.status from_channel user now h₁ in
    let two : Reservation × Hotel = (next₁, h₂) in
    let done = ok-injective two (next, h') q in
    let is : next ≡ next₁ = sym (ap (λ (x : Reservation × Hotel). x.0) done) in
    let to : h' ≡ h₂ = sym (ap (λ (x : Reservation × Hotel). x.1) done) in
    let kept = after_update-SameTables id cur next₁ next₁.status from_channel user now h₁ in
    record {
      cur = E.cur;
      found = E.found;
      same_version = E.same_version;
      guests_allowed = E.guests_allowed;
      in_order = E.in_order;
      admitted = E.admitted;
      place = E.place;
      placed = E.placed;
      room_type = E.room_type;
      is_next = is ∙ E.is_next;
      tables =
          SameTables-trans _ h₁ h' E.tables
            (SameTables-trans h₁ h₂ h' kept (SameTables-of_eq h₂ h' (sym to)));
    }
