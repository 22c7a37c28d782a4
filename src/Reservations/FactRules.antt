-- ===== src/Reservations/FactRules.antt =====
-- When a check-in, a check-out or a no-show is recorded, and what it leaves
-- (backend/src/modules/reservations/reservations.service.ts, `recordFact`).
use kars_hotel.Base.{
  ℕ, suc, ◌≡◌, ◌↔◌, ◌⊎◌, refl, sym, ap, ◌∙◌, Bool, true, false, Option, some, [], ◌∷◌, arith,
  Bool-cases, inl, inr,
}
use kars_hotel.Base.Result.{Result, ok, err, ◌>>◌}
use kars_hotel.Hotel.{
  Hotel, Reservation, Status, Fact, fact_checked_in, fact_checked_out, fact_no_show, Refusal, new,
  confirmed, checked_in, find_reservation, update_reservation, emit, invalidated, notified_updated,
}
use kars_hotel.Hotel.Store.{find_reservation-update_self}
use kars_hotel.Folio.{assert_zero_balance}
use kars_hotel.Reservations.Facts.{
  allowed_from, admit_fact, bill_closed, record_fact, status_of, bump_to, announce_fact,
}
use kars_hotel.Reservations.Steps.{record_fact-Recorded, fact_tables}
use kars_hotel.Reservations.Locking.{stamped, stamp_fact-found}

-- A reservation of this status may come to the fact.
abbrev pub MayCome : Fact → Status → Type 0
MayCome fact_checked_in status = (status ≡ new) ⊎ (status ≡ confirmed)
MayCome fact_checked_out status = status ≡ checked_in
MayCome fact_no_show status = (status ≡ new) ⊎ (status ≡ confirmed)

-- A check-out wants a bill that passes; nothing else does.
abbrev pub IsSettled : Fact → ℕ → Hotel → Type 0
IsSettled fact_checked_out id h = assert_zero_balance id h ≡ ok tt
IsSettled fact_checked_in id h = Unit
IsSettled fact_no_show id h = Unit

allowed_from-MayCome :
    (fact : Fact) (status : Status) → (allowed_from fact status ≡ true) ↔ MayCome fact status
allowed_from-MayCome fact_checked_in status = ground arith
allowed_from-MayCome fact_checked_out status = ground arith
allowed_from-MayCome fact_no_show status = ground arith

bill_closed-IsSettled :
    (fact : Fact) (id : ℕ) (h : Hotel) → (bill_closed fact id h ≡ ok tt) ↔ IsSettled fact id h
bill_closed-IsSettled fact_checked_out id h = (λ e. e, λ e. e)
bill_closed-IsSettled fact_checked_in id h = (λ e. tt, λ s. refl)
bill_closed-IsSettled fact_no_show id h = (λ e. tt, λ s. refl)

admit_fact_iff :
    (id : ℕ) (fact : Fact) (status : Status) (h : Hotel)
    → (admit_fact id fact status h ≡ ok true) ↔ (MayCome fact status × IsSettled fact id h)
unfolding admit_fact
admit_fact_iff id fact status h = (
  λ e. elim (Bool-cases (allowed_from fact status)) [
    | inl may ↦ (
      (allowed_from-MayCome fact status).0 may,
      (bill_closed-IsSettled fact id h).0 (closed (bill_closed fact id h) (rw may at e)),
    )
    | inr not_from ↦ absurd (refused (rw not_from at e))
  ],
  λ p. rw ((allowed_from-MayCome fact status).1 p.0, (bill_closed-IsSettled fact id h).1 p.1) refl,
)
  where
    refused : ◌≡◌ {A = Result Refusal Bool} (ok false) (ok true) → ⊥
    refused q = cc

    closed : (u : Result Refusal (Unit {0})) → (u >> ok true) ≡ ok true → u ≡ ok tt
    closed (ok tt) q = refl
    closed (err e) q = cc

-- The hotel after a fact.
abbrev fact_told : ℕ → Fact → ℕ → Option ℕ → ℕ → Hotel → Hotel
fact_told id fact room at now h =
    emit (invalidated ∷ notified_updated ∷ []) (fact_tables id fact room at now h)

abbrev fact_after : ℕ → Fact → Reservation → Option ℕ → Option ℕ → ℕ → Hotel → Hotel
fact_after id fact cur user at now h =
    announce_fact id fact cur.status cur.room_id user at now
      (fact_told id fact cur.room_id at now h)

record_fact-after :
    (id : ℕ) (fact : Fact) (user at : Option ℕ) (now : ℕ) (h : Hotel) (cur : Reservation)
    → find_reservation id h.reservations ≡ some cur
    → admit_fact id fact cur.status h ≡ ok true
    → record_fact id fact user at now h ≡ ok (suc cur.version, fact_after id fact cur user at now h)
unfolding record_fact
record_fact-after id fact user at now h cur found a = rw (found, a) refl

-- For a reservation that is found, a fact is recorded exactly when the reservation may come to it
-- from its status, arrival and no-show from NEW or CONFIRMED, departure from CHECKED_IN, and, for a
-- departure, its bill passes the test of the folio.
pub record_fact-admits :
    (id : ℕ) (fact : Fact) (user at : Option ℕ) (now : ℕ) (h : Hotel) (cur : Reservation)
    → find_reservation id h.reservations ≡ some cur
    → ((h' : Hotel) × (record_fact id fact user at now h ≡ ok (suc cur.version, h')))
      ↔ (MayCome fact cur.status × IsSettled fact id h)
record_fact-admits id fact user at now h cur found = (
  λ p.
      let R = record_fact-Recorded id fact user at now h (suc cur.version) p.0 p.1 in
      let same = some-inj cur R.cur (sym found ∙ R.found) in
      (admit_fact_iff id fact cur.status h).0
        (ap (λ (r : Reservation). admit_fact id fact r.status h) same ∙ R.admitted),
  λ p. (
    fact_after id fact cur user at now h,
    record_fact-after id fact user at now h cur found ((admit_fact_iff id fact cur.status h).1 p),
  ),
)
  where
    some-inj : (a b : Reservation) → some a ≡ some b → a ≡ b
    some-inj a b q = cc

-- A recorded fact leaves the row with the status of the fact, the next version and, for an arrival or
-- a departure, its moment: the one reported, or the present one.
pub record_fact-row :
    (id : ℕ) (fact : Fact) (user at : Option ℕ) (now : ℕ) (h : Hotel) (version : ℕ) (h' : Hotel)
    (cur : Reservation)
    → find_reservation id h.reservations ≡ some cur
    → record_fact id fact user at now h ≡ ok (version, h')
    → find_reservation id h'.reservations
      ≡ some (stamped fact at now (bump_to (status_of fact) cur))
record_fact-row id fact user at now h version h' cur found e =
    let R = record_fact-Recorded id fact user at now h version h' e in
    let h₁ = record h {
      reservations = update_reservation id (bump_to (status_of fact)) h.reservations;
    } in
    ap (find_reservation id) R.tables.reservations
    ∙ stamp_fact-found id fact R.cur.room_id at now h₁ (bump_to (status_of fact) cur)
        (find_reservation-update_self id (bump_to (status_of fact)) h.reservations cur refl found)
