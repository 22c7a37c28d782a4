-- ===== src/Reservations/Partner.antt =====
-- A partner's reservation belongs to the partner
-- (backend/src/modules/reservations/reservations.service.ts, `cancelRefusal` and step 2a of `update`).
use kars_hotel.Base.{
  suc, ℕ, ◌≡◌, refl, ◌↔◌, Bool, true, false, not, Option, some, arith, ◌&&◌, ◌⊎◌, inl, inr,
  Bool-cases, [], ◌∷◌,
}
use kars_hotel.Base.Text.{Text}
use kars_hotel.Base.Result.{ok, err}
use kars_hotel.Hotel.{
  Hotel, Reservation, Status, cancelled, checked_out, cancel_refused, by_channel, already_closed,
  find_reservation, update_reservation, emit, invalidated, notified_updated,
}
use kars_hotel.Hotel.Store.{find_reservation-update_self}
use kars_hotel.Reservations.Cancelling.{
  cancel_reservation, cancel_refusal, is_closed, cancel_row, journal_cancel,
}

is_closed_iff : (s : Status) → (is_closed s ≡ true) ↔ ((s ≡ cancelled) ⊎ (s ≡ checked_out))
is_closed_iff s = ground arith

-- The button refuses to cancel a partner's reservation from the hotel, and otherwise exactly one
-- that is cancelled or checked out; of every other reservation that is found it leaves the row with
-- the status CANCELLED and the next version.
pub cancel_reservation-refuses :
    (id : ℕ) (user : Option ℕ) (reason : Option Text) (from_channel : Bool) (h : Hotel)
    (cur : Reservation)
    → find_reservation id h.reservations ≡ some cur
    → ((cancel_reservation id user reason from_channel h ≡ err (cancel_refused by_channel))
        ↔ ((cur.channel_managed ≡ true) × (from_channel ≡ false)))
      × ((cancel_reservation id user reason from_channel h ≡ err (cancel_refused already_closed))
          ↔ ((cur.channel_managed && not from_channel ≡ false)
              × ((cur.status ≡ cancelled) ⊎ (cur.status ≡ checked_out))))
      × ((cur.channel_managed && not from_channel ≡ false)
            × ((cur.status ≡ cancelled) ⊎ (cur.status ≡ checked_out) → ⊥)
          → (h' : Hotel) × (r : Reservation) × (cancel_reservation id user reason from_channel h
              ≡ ok (suc cur.version, h'))
            × (find_reservation id h'.reservations ≡ some r)
            × (r.status ≡ cancelled)
            × (r.version ≡ suc cur.version))
unfolding cancel_reservation cancel_refusal journal_cancel
cancel_reservation-refuses id user reason from_channel h cur found = rw found (
  (λ e. ground arith, λ p. ground arith),
  (
    λ e. (ground arith, (is_closed_iff cur.status).0 (ground arith)),
    λ p. ground (arith, p.0, (is_closed_iff cur.status).1 p.1),
  ),
  λ p.
      let open_still : is_closed cur.status ≡ false = elim (Bool-cases (is_closed cur.status)) [
        | inl y ↦ absurd (p.1 ((is_closed_iff cur.status).0 y))
        | inr n ↦ n
      ] in
      (
        emit (invalidated ∷ notified_updated ∷ []) (
            journal_cancel id cur.status user reason (record h {
              reservations = update_reservation id (cancel_row reason) h.reservations;
            })),
        cancel_row reason cur,
        rw (p.0, open_still) refl,
        find_reservation-update_self id (cancel_row reason) h.reservations cur refl found,
        refl,
        refl,
      ),
)
