-- ===== src/Reservations/Locking.antt =====
-- Optimistic locking (backend/src/modules/reservations/reservations.service.ts, step 2 of `update`).
use kars_hotel.Base.{
  ◌==◌, find-map-some, ℕ, suc, ◌≡◌, refl, ◌≢◌, ◌∙◌, ap, Bool, Option, none, some, arith,
}
use kars_hotel.Base.Result.{ok, err}
use kars_hotel.Hotel.{
  Hotel, Reservation, Status, Fact, fact_checked_in, fact_checked_out, fact_no_show,
  find_reservation, update_reservation, version_mismatch,
}
use kars_hotel.Hotel.Store.{find_reservation-update_self}
use kars_hotel.Reservations.Request.{UpdateReservation, PartnerStayInfo, status_or, or_else}
use kars_hotel.Reservations.Facts.{record_fact, stamp_fact, bump_to, status_of, or_now}
use kars_hotel.Reservations.Update.{edit_row, update_tables, edited, stamp_new, new_fact}
use kars_hotel.Reservations.Success.{edit_reservation-Edited}
use kars_hotel.Reservations.Since.{Since, Since-Grows}
use kars_hotel.Reservations.Steps.{record_fact-Recorded}

-- The row that a fact leaves.
abbrev pub stamped : Fact → Option ℕ → ℕ → Reservation → Reservation
stamped fact_checked_in at now r = record r { checked_in_at = some (or_now at now) }
stamped fact_checked_out at now r = record r { checked_out_at = some (or_now at now) }
stamped fact_no_show at now r = r

pub stamp_fact-found :
    (id : ℕ) (fact : Fact) (room : ℕ) (at : Option ℕ) (now : ℕ) (h : Hotel) (r : Reservation)
    → find_reservation id h.reservations ≡ some r
    → find_reservation id (stamp_fact id fact room at now h).reservations
      ≡ some (stamped fact at now r)
unfolding stamp_fact
stamp_fact-found id fact_checked_in room at now h r e =
    find_reservation-update_self id _ h.reservations r refl e
stamp_fact-found id fact_checked_out room at now h r e =
    find_reservation-update_self id _ h.reservations r refl e
stamp_fact-found id fact_no_show room at now h r e = e

abbrev stamped_new : Option Fact → ℕ → Reservation → Reservation
stamped_new none now r = r
stamped_new (some fact) now r = stamped fact none now r

stamp_new-found :
    (id : ℕ) (fact : Option Fact) (room now : ℕ) (h : Hotel) (r : Reservation)
    → find_reservation id h.reservations ≡ some r
    → find_reservation id (stamp_new id fact room now h).reservations
      ≡ some (stamped_new fact now r)
stamp_new-found id none room now h r e = e
stamp_new-found id (some fact) room now h r e = stamp_fact-found id fact room none now h r e

stamped_new-version :
    (fact : Option Fact) (now : ℕ) (r : Reservation) → (stamped_new fact now r).version ≡ r.version
stamped_new-version none now r = refl
stamped_new-version (some fact_checked_in) now r = refl
stamped_new-version (some fact_checked_out) now r = refl
stamped_new-version (some fact_no_show) now r = refl

stamped-version :
    (fact : Fact) (at : Option ℕ) (now : ℕ) (r : Reservation)
    → (stamped fact at now r).version ≡ r.version
stamped-version fact_checked_in at now r = refl
stamped-version fact_checked_out at now r = refl
stamped-version fact_no_show at now r = refl

edited-version :
    (dto : UpdateReservation) (stay : PartnerStayInfo) (status : Status) (place type : ℕ)
    (cur r : Reservation)
    → ((edited dto stay status place type cur r).version ≡ suc r.version)
      × ((edited dto stay status place type cur r).id ≡ r.id)
unfolding edited
edited-version dto stay status place type cur r = (refl, refl)

-- The row that an edit leaves has the next version.
edit-version :
    (id : ℕ) (dto : UpdateReservation) (stay : PartnerStayInfo) (from_channel : Bool)
    (user : Option ℕ) (now : ℕ) (h : Hotel) (next : Reservation) (h' : Hotel)
    → edit_row id dto stay from_channel user now h ≡ ok (next, h')
    → (r : Reservation) × (find_reservation id h'.reservations ≡ some r)
      × (r.version ≡ suc dto.version)
edit-version id dto stay from_channel user now h next h' e =
    let E = edit_reservation-Edited id dto stay from_channel user now h next h' e in
    let status = status_or dto.status E.cur.status in
    let f = edited dto stay status E.place E.room_type E.cur in
    let fact = new_fact E.cur.status status in
    let h₁ = record h { reservations = update_reservation id f h.reservations } in
    let there =
      find_reservation-update_self id f h.reservations E.cur
        (edited-version dto stay status E.place E.room_type E.cur E.cur).1 E.found in
    (
      stamped_new fact now (f E.cur),
      ap (find_reservation id) E.tables.reservations
          ∙ stamp_new-found id fact (or_else dto.room_id E.cur.room_id) now h₁ (f E.cur) there,
      stamped_new-version fact now (f E.cur)
          ∙ (edited-version dto stay status E.place E.room_type E.cur E.cur).0
          ∙ ap suc E.same_version,
    )

-- An edit that names another version than the row's is refused.
stale-refused :
    (id : ℕ) (dto : UpdateReservation) (stay : PartnerStayInfo) (from_channel : Bool)
    (user : Option ℕ) (now : ℕ) (h : Hotel) (r : Reservation)
    → find_reservation id h.reservations ≡ some r
    → r.version ≢ dto.version
    → edit_row id dto stay from_channel user now h ≡ err version_mismatch
unfolding edit_row update_tables
stale-refused id dto stay from_channel user now h r found ne = rw found (ground arith)

-- Requests that come one after the other: once an edit has succeeded, then after any others an edit
-- that names the version which the first one named is refused.
pub second_edit_refused :
    (id : ℕ) (dto dto' : UpdateReservation) (stay stay' : PartnerStayInfo)
    (from_channel from_channel' : Bool) (user user' : Option ℕ) (now now' : ℕ) (h : Hotel)
    (next : Reservation) (h' h'' : Hotel)
    → edit_row id dto stay from_channel user now h ≡ ok (next, h')
    → Since h' h''
    → dto'.version ≡ dto.version
    → edit_row id dto' stay' from_channel' user' now' h'' ≡ err version_mismatch
second_edit_refused id dto dto' stay stay' fc fc' user user' now now' h next h' h'' e past same =
    let (r, found, v) = edit-version id dto stay fc user now h next h' e in
    let G = Since-Grows past in
    stale-refused id dto' stay' fc' user' now' h'' (G.grown r)
      (ap (find_reservation id) G.rows
        ∙ find-map-some (λ (x : Reservation). x.id == id) G.grown
            (λ x. ap (λ k. k == id) (G.later x).id) h'.reservations G.added r found)
      (λ q. omega (arith, v, q, same, (G.later r).version))

-- An edit that names the version a reservation had before a check-in, a check-out or a no-show was
-- recorded is refused after it.
pub edit_after_fact_refused :
    (id : ℕ) (fact : Fact) (user user' at : Option ℕ) (now now' : ℕ) (h : Hotel) (version : ℕ)
    (h' : Hotel) (cur : Reservation) (dto : UpdateReservation) (stay : PartnerStayInfo)
    (from_channel : Bool)
    → record_fact id fact user at now h ≡ ok (version, h')
    → find_reservation id h.reservations ≡ some cur
    → dto.version ≡ cur.version
    → edit_row id dto stay from_channel user' now' h' ≡ err version_mismatch
edit_after_fact_refused id fact user user' at now now' h version h' cur dto stay fc e found same =
    let R = record_fact-Recorded id fact user at now h version h' e in
    let f = bump_to (status_of fact) in
    let h₁ = record h { reservations = update_reservation id f h.reservations } in
    let there = find_reservation-update_self id f h.reservations R.cur refl R.found in
    let row = stamped fact at now (f R.cur) in
    let eq : cur ≡ R.cur = cc (found, R.found) in
    stale-refused id dto stay fc user' now' h' row
      (ap (find_reservation id) R.tables.reservations
        ∙ stamp_fact-found id fact R.cur.room_id at now h₁ (f R.cur) there)
      (λ q. omega (
        arith,
        q,
        same,
        stamped-version fact at now (f R.cur),
        ap (λ (x : Reservation). x.version) eq,
      ))
