-- ===== src/Reservations/Desk.antt =====
-- The lists of the front desk and the record of an opened card:
-- backend/src/modules/reservations/reservations.service.ts, `getArrivals`, `getDepartures` and
-- `recordView`. The rows stand in the order in which they were made.
use kars_hotel.Base.{
  ℕ, ◌≡◌, ◌↔◌, refl, sym, ◌∙◌, Bool, true, false, some, List, [], ◌∷◌, ◌==◌, ◌&&◌, ==_iff, arith,
  In, select, select-In, In-select,
}
use kars_hotel.Base.Result.{Result, ok, ◌>>◌, or_refuse}
use kars_hotel.Hotel.{
  Hotel, Reservation, Status, new, confirmed, checked_in, checked_out, cancelled, no_show,
  fact_checked_in, fact_checked_out, Refusal, reservation_not_found, journaled, view,
  find_reservation, emit,
}
use kars_hotel.Reservations.Facts.{allowed_from}

-- `status IN ('NEW', 'CONFIRMED')` and `status = 'CHECKED_IN'`
abbrev pub is_awaited : Status → Bool
is_awaited new = true
is_awaited confirmed = true
is_awaited _ = false

abbrev pub is_in_house : Status → Bool
is_in_house checked_in = true
is_in_house _ = false

unfoldable pub get_arrivals : ℕ → Hotel → List Reservation
get_arrivals date h = select (λ r. r.check_in == date && is_awaited r.status) h.reservations

unfoldable pub get_departures : ℕ → Hotel → List Reservation
get_departures date h = select (λ r. r.check_out == date && is_in_house r.status) h.reservations

unfoldable pub record_view : ℕ → ℕ → Hotel → Result Refusal Hotel
record_view id user h = do
  or_refuse (find_reservation id h.reservations) reservation_not_found
  ok (emit (journaled view id (some user) [] ∷ []) h)

awaited-allowed : (s : Status) → is_awaited s ≡ allowed_from fact_checked_in s
awaited-allowed new = refl
awaited-allowed confirmed = refl
awaited-allowed checked_in = refl
awaited-allowed checked_out = refl
awaited-allowed cancelled = refl
awaited-allowed no_show = refl

in_house-allowed : (s : Status) → is_in_house s ≡ allowed_from fact_checked_out s
in_house-allowed new = refl
in_house-allowed confirmed = refl
in_house-allowed checked_in = refl
in_house-allowed checked_out = refl
in_house-allowed cancelled = refl
in_house-allowed no_show = refl

-- The desk's lists agree with its buttons: the arrivals of a day are the reservations that begin on it
-- and that may be checked in, its departures those that end on it and that may be checked out.
pub desk_lists_allowed :
    (date : ℕ) (h : Hotel) (r : Reservation)
    → (In r (get_arrivals date h) ↔ (
        In r h.reservations × (r.check_in ≡ date) × (allowed_from fact_checked_in r.status ≡ true)))
      × (In r (get_departures date h) ↔ (
          In r h.reservations
          × (r.check_out ≡ date)
          × (allowed_from fact_checked_out r.status ≡ true)))
unfolding get_arrivals get_departures
desk_lists_allowed date h r =
    let arrives = λ (x : Reservation). x.check_in == date && is_awaited x.status in
    let leaves = λ (x : Reservation). x.check_out == date && is_in_house x.status in
    (
      (
        λ i.
            let (j, q) = select-In arrives h.reservations r i in
            (j, ground (arith, q), sym (awaited-allowed r.status) ∙ ground (arith, q)),
        λ p. In-select arrives h.reservations r p.0 (
            both (r.check_in == date) (is_awaited r.status) ((==_iff r.check_in date).1 p.1)
              (awaited-allowed r.status ∙ p.2)),
      ),
      (
        λ i.
            let (j, q) = select-In leaves h.reservations r i in
            (j, ground (arith, q), sym (in_house-allowed r.status) ∙ ground (arith, q)),
        λ p. In-select leaves h.reservations r p.0 (
            both (r.check_out == date) (is_in_house r.status) ((==_iff r.check_out date).1 p.1)
              (in_house-allowed r.status ∙ p.2)),
      ),
    )
  where
    both : (a b : Bool) → a ≡ true → b ≡ true → (a && b) ≡ true
    both a b p q = ground arith
