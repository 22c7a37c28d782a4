-- ===== src/Reservations/Since.antt =====
-- Any requests one after the other, whatever they are
-- (backend/src/modules/reservations/reservations.service.ts).
use kars_hotel.Base.{
  ℕ, ◌≡◌, refl, sym, ap, subst, Bool, not, Option, none, some, [], ◌∷◌, ltb, arith,
}
use kars_hotel.Base.Text.{Text}
use kars_hotel.Base.Result.{ok, >>=-eq-ok, refuse_if-then, ok-injective}
use kars_hotel.Hotel.{
  Hotel, Reservation, Fact, fact_checked_in, fact_checked_out, fact_no_show, update_reservation,
  date_conflict,
}
use kars_hotel.Reservations.Request.{
  CreateReservation, UpdateReservation, PartnerStayInfo, ChannelContext, status_or, or_else,
}
use kars_hotel.Reservations.Create.{
  Created, create_reservation, create_fresh, channel_reservation, replayed_or, new_reservation,
}
use kars_hotel.Reservations.Facts.{record_fact, stamp_fact, bump_to, status_of}
use kars_hotel.Reservations.Cancelling.{cancel_row, cancel_reservation}
use kars_hotel.Reservations.Swap.{SwapReservations, swap, move_to}
use kars_hotel.Reservations.Update.{edit_row, stamp_new, new_fact, edited}
use kars_hotel.Reservations.Success.{edit_reservation-Edited}
use kars_hotel.Reservations.Steps.{
  record_fact-Recorded, cancel_reservation-CancelledBy, create_fresh-Fresh, swap-Swapped,
}
use kars_hotel.Reservations.Grows.{Grows, append-Grows, Grows-refl, Grows-trans, update-Grows}

-- A request that succeeded; one that is refused changes nothing.
pub data Answered (h h' : Hotel) : Type 0 where
  to_create :
      (dto : CreateReservation) (stay : PartnerStayInfo) (channel : Option ChannelContext)
      (user : Option ℕ) (c : Created)
      → create_reservation dto stay channel user h ≡ ok (c, h')
      → Answered h h'
  to_edit :
      (id : ℕ) (dto : UpdateReservation) (stay : PartnerStayInfo) (from_channel : Bool)
      (user : Option ℕ) (now : ℕ) (n : Reservation)
      → edit_row id dto stay from_channel user now h ≡ ok (n, h')
      → Answered h h'
  to_swap :
      (dto : SwapReservations) (versions : ℕ × ℕ) → swap dto h ≡ ok (versions, h') → Answered h h'
  to_record :
      (id : ℕ) (fact : Fact) (user at : Option ℕ) (now version : ℕ)
      → record_fact id fact user at now h ≡ ok (version, h')
      → Answered h h'
  to_cancel :
      (id : ℕ) (user : Option ℕ) (reason : Option Text) (from_channel : Bool) (version : ℕ)
      → cancel_reservation id user reason from_channel h ≡ ok (version, h')
      → Answered h h'

pub data Since (h : Hotel) : Hotel → Type 0 where
  at_once : Since h h
  after : {h₁ h₂ : Hotel} → Since h h₁ → Answered h₁ h₂ → Since h h₂

abbrev HotelGrows : Hotel → Hotel → Type 0
HotelGrows h h' = Grows h.reservations h'.reservations

stamp_fact-Grows :
    (id : ℕ) (fact : Fact) (room : ℕ) (at : Option ℕ) (now : ℕ) (h : Hotel)
    → HotelGrows h (stamp_fact id fact room at now h)
unfolding stamp_fact
stamp_fact-Grows id fact_checked_in room at now h = update-Grows id _ h.reservations (λ r. record {
  id = refl;
  managed = refl;
  partner = refl;
  key = refl;
  hash = refl;
  version = omega arith;
})
stamp_fact-Grows id fact_checked_out room at now h = update-Grows id _ h.reservations (λ r. record {
  id = refl;
  managed = refl;
  partner = refl;
  key = refl;
  hash = refl;
  version = omega arith;
})
stamp_fact-Grows id fact_no_show room at now h = Grows-refl h.reservations h.reservations refl

stamp_new-Grows :
    (id : ℕ) (fact : Option Fact) (room now : ℕ) (h : Hotel)
    → HotelGrows h (stamp_new id fact room now h)
stamp_new-Grows id none room now h = Grows-refl h.reservations h.reservations refl
stamp_new-Grows id (some fact) room now h = stamp_fact-Grows id fact room none now h

create-Grows :
    (dto : CreateReservation) (stay : PartnerStayInfo) (channel : Option ChannelContext)
    (user : Option ℕ) (c : Created) (h h' : Hotel)
    → create_reservation dto stay channel user h ≡ ok (c, h')
    → HotelGrows h h'
unfolding create_reservation
create-Grows dto stay channel user c h h' e =
    let (d, q₁) = refuse_if-then (not (ltb dto.check_in dto.check_out)) date_conflict _ e in
    let (replay, r, q₂) = >>=-eq-ok (channel_reservation channel h.reservations) _ q₁ in
    either replay q₂
  where
    either :
        (replay : Option Created)
        → replayed_or replay h (create_fresh dto stay channel user h) ≡ ok (c, h')
        → HotelGrows h h'
    either none q =
        let F = create_fresh-Fresh dto stay channel user h c h' q in
        subst (Grows h.reservations) (sym F.tables.reservations) (
          append-Grows h.reservations
            (new_reservation dto stay channel F.room F.place h.next_id ∷ []))
    either (some c₀) q =
        Grows-refl h.reservations h'.reservations
          (ap (λ (x : Created × Hotel). x.1.reservations) (sym (ok-injective (c₀, h) (c, h') q)))

Answered-Grows : {h h' : Hotel} → Answered h h' → HotelGrows h h'
unfolding edited
Answered-Grows {h} {h'} (to_create dto stay channel user c e) =
    create-Grows dto stay channel user c h h' e
Answered-Grows {h} {h'} (to_edit id dto stay from_channel user now n e) =
    let E = edit_reservation-Edited id dto stay from_channel user now h n h' e in
    let status = status_or dto.status E.cur.status in
    let f = edited dto stay status E.place E.room_type E.cur in
    let rows = update_reservation id f h.reservations in
    subst (Grows h.reservations) (sym E.tables.reservations) (
      Grows-trans h.reservations rows _
        (update-Grows id f h.reservations (λ r. record {
          id = refl;
          managed = refl;
          partner = refl;
          key = refl;
          hash = refl;
          version = omega arith;
        }))
        (stamp_new-Grows id (new_fact E.cur.status status) (or_else dto.room_id E.cur.room_id) now
          (record h { reservations = rows })))
Answered-Grows {h} {h'} (to_swap dto versions e) =
    let S = swap-Swapped dto h versions h' e in
    let one = update_reservation dto.id_a (move_to S.b.place_number) h.reservations in
    subst (Grows h.reservations) (sym S.tables.reservations) (
      Grows-trans h.reservations one _
        (update-Grows dto.id_a (move_to S.b.place_number) h.reservations (λ r. record {
          id = refl;
          managed = refl;
          partner = refl;
          key = refl;
          hash = refl;
          version = omega arith;
        }))
        (update-Grows dto.id_b (move_to S.a.place_number) one (λ r. record {
          id = refl;
          managed = refl;
          partner = refl;
          key = refl;
          hash = refl;
          version = omega arith;
        })))
Answered-Grows {h} {h'} (to_record id fact user at now version e) =
    let R = record_fact-Recorded id fact user at now h version h' e in
    let rows = update_reservation id (bump_to (status_of fact)) h.reservations in
    subst (Grows h.reservations) (sym R.tables.reservations) (
      Grows-trans h.reservations rows _
        (update-Grows id (bump_to (status_of fact)) h.reservations (λ r. record {
          id = refl;
          managed = refl;
          partner = refl;
          key = refl;
          hash = refl;
          version = omega arith;
        }))
        (stamp_fact-Grows id fact R.cur.room_id at now (record h { reservations = rows })))
Answered-Grows {h} {h'} (to_cancel id user reason from_channel version e) =
    let C = cancel_reservation-CancelledBy id user reason from_channel h version h' e in
    subst (Grows h.reservations) (sym C.tables.reservations) (
      update-Grows id (cancel_row reason) h.reservations (λ r. record {
        id = refl;
        managed = refl;
        partner = refl;
        key = refl;
        hash = refl;
        version = omega arith;
      }))

-- However many requests succeed, the table only grows, in this sense.
pub Since-Grows : {h h' : Hotel} → Since h h' → Grows h.reservations h'.reservations
Since-Grows {h} at_once = Grows-refl h.reservations h.reservations refl
Since-Grows {h} {h'} (after {h₁} past s) =
    Grows-trans h.reservations h₁.reservations h'.reservations (Since-Grows past) (Answered-Grows s)
