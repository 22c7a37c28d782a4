-- ===== src/Reservations/Buttons.antt =====
-- Every other request keeps the invariant: making, check-in, check-out, no-show, cancelling and
-- swapping (backend/src/modules/reservations/reservations.service.ts).
use kars_hotel.Base.{
  ℕ, ◌≡◌, refl, ap, ◌∙◌, subst, inl, inr, Bool, true, false, not, Option, none, some, ==_iff, ltb,
  arith, Bool-cases,
}
use kars_hotel.Base.Text.{Text}
use kars_hotel.Base.Result.{Result, ok, >>=-eq-ok, refuse_if-then, ok-injective}
use kars_hotel.Hotel.{
  Hotel, Reservation, Status, Fact, fact_checked_in, fact_checked_out, fact_no_show,
  update_reservation, date_conflict, Refusal,
}
use kars_hotel.Hotel.Store.{find_reservation-update_self, find_reservation-update_ne}
use kars_hotel.Reservations.Request.{CreateReservation, PartnerStayInfo, ChannelContext}
use kars_hotel.Reservations.Overlap.{is_live}
use kars_hotel.Reservations.Exclusive.{clash}
use kars_hotel.Reservations.Valid.{IsValid, SameTables-IsValid, quiet-IsValid}
use kars_hotel.Reservations.Create.{
  Created, create_fresh, create_reservation, channel_reservation, replayed_or,
}
use kars_hotel.Reservations.Facts.{record_fact, bump_to, status_of, admit_fact, allowed_from}
use kars_hotel.Reservations.Cancelling.{cancel_reservation, cancel_row}
use kars_hotel.Reservations.Swap.{SwapReservations, swap, move_to}
use kars_hotel.Reservations.Steps.{
  record_fact-Recorded, cancel_reservation-CancelledBy, swap-Swapped,
}
use kars_hotel.Reservations.Ordinary.{create_fresh-IsValid, stamp_fact-IsValid}

pub allowed_from-is_live :
    (fact : Fact) (status : Status) → allowed_from fact status ≡ true → is_live status ≡ true
allowed_from-is_live fact_checked_in status e = ground arith
allowed_from-is_live fact_checked_out status e = ground arith
allowed_from-is_live fact_no_show status e = ground arith

pub admit_fact-allowed :
    (id : ℕ) (fact : Fact) (status : Status) (h : Hotel)
    → admit_fact id fact status h ≡ ok true
    → allowed_from fact status ≡ true
unfolding admit_fact
admit_fact-allowed id fact status h e = elim (Bool-cases (allowed_from fact status)) [
  | inl may ↦ may
  | inr not_from ↦ absurd (refused (rw not_from at e))
]
  where
    refused : ◌≡◌ {A = Result Refusal Bool} (ok false) (ok true) → ⊥
    refused q = cc

bump-clash :
    (fact : Fact) (cur : Reservation)
    → is_live cur.status ≡ true
    → (s : Reservation) → clash cur s ≡ false
    → clash (bump_to (status_of fact) cur) s ≡ false
unfolding clash
bump-clash fact cur live s q = ground arith

cancel-clash :
    (reason : Option Text) (cur s : Reservation) → clash (cancel_row reason cur) s ≡ false
unfolding clash
cancel-clash reason cur s = ground arith

move-clash :
    (place : ℕ) (cur s : Reservation) → clash cur s ≡ false → clash (move_to place cur) s ≡ false
unfolding clash
move-clash place cur s q = q

pub record_fact-IsValid :
    (id : ℕ) (fact : Fact) (user at : Option ℕ) (now : ℕ) (h : Hotel) (version : ℕ) (h' : Hotel)
    → IsValid h
    → record_fact id fact user at now h ≡ ok (version, h')
    → IsValid h'
record_fact-IsValid id fact user at now h version h' v e =
    let R = record_fact-Recorded id fact user at now h version h' e in
    let f = bump_to (status_of fact) in
    let h₁ = record h { reservations = update_reservation id f h.reservations } in
    let live =
      allowed_from-is_live fact R.cur.status
        (admit_fact-allowed id fact R.cur.status h R.admitted) in
    let v₁ : IsValid h₁ =
      quiet-IsValid id f h h₁ R.cur v (λ r. refl) R.found refl (omega arith)
        (bump-clash fact R.cur live) in
    SameTables-IsValid _ h' R.tables (
      stamp_fact-IsValid id fact R.cur.room_id at now h₁ (f R.cur)
        (find_reservation-update_self id f h.reservations R.cur refl R.found) v₁)

pub cancel_reservation-IsValid :
    (id : ℕ) (user : Option ℕ) (reason : Option Text) (from_channel : Bool) (h : Hotel)
    (version : ℕ) (h' : Hotel)
    → IsValid h
    → cancel_reservation id user reason from_channel h ≡ ok (version, h')
    → IsValid h'
cancel_reservation-IsValid id user reason from_channel h version h' v e =
    let C = cancel_reservation-CancelledBy id user reason from_channel h version h' e in
    let h₁ = record h { reservations = update_reservation id (cancel_row reason) h.reservations } in
    SameTables-IsValid h₁ h' C.tables (
      quiet-IsValid id (cancel_row reason) h h₁ C.cur v (λ r. refl) C.found refl (omega arith)
        (λ s q. cancel-clash reason C.cur s))

pub swap-IsValid :
    (dto : SwapReservations) (h : Hotel) (versions : ℕ × ℕ) (h' : Hotel)
    → IsValid h
    → swap dto h ≡ ok (versions, h')
    → IsValid h'
swap-IsValid dto h versions h' v e =
    let S = swap-Swapped dto h versions h' e in
    let f = move_to S.b.place_number in
    let g = move_to S.a.place_number in
    let h₁ = record h { reservations = update_reservation dto.id_a f h.reservations } in
    let h₂ = record h { reservations = update_reservation dto.id_b g h₁.reservations } in
    let v₁ : IsValid h₁ =
      quiet-IsValid dto.id_a f h h₁ S.a v (λ r. refl) S.found_a refl (omega arith)
        (move-clash S.b.place_number S.a) in
    let there =
      find_reservation-update_ne dto.id_a dto.id_b f h.reservations (λ r. refl)
        (λ q. cc ((==_iff dto.id_a dto.id_b).1 q, S.distinct))
      ∙ S.found_b in
    SameTables-IsValid h₂ h' S.tables (
      quiet-IsValid dto.id_b g h₁ h₂ S.b v₁ (λ r. refl) there refl (omega arith)
        (move-clash S.a.place_number S.b))

pub create_reservation-IsValid :
    (dto : CreateReservation) (stay : PartnerStayInfo) (channel : Option ChannelContext)
    (user : Option ℕ) (h : Hotel) (c : Created) (h' : Hotel)
    → h.multi_place ≡ false
    → IsValid h
    → create_reservation dto stay channel user h ≡ ok (c, h')
    → IsValid h'
unfolding create_reservation
create_reservation-IsValid dto stay channel user h c h' ordinary v e =
    let (d, q₁) = refuse_if-then (not (ltb dto.check_in dto.check_out)) date_conflict _ e in
    let (replay, r, q₂) = >>=-eq-ok (channel_reservation channel h.reservations) _ q₁ in
    either replay q₂
  where
    either :
        (replay : Option Created)
        → replayed_or replay h (create_fresh dto stay channel user h) ≡ ok (c, h')
        → IsValid h'
    either none q = create_fresh-IsValid dto stay channel user h c h' ordinary v q
    either (some c₀) q =
        subst IsValid (ap (λ (x : Created × Hotel). x.1) (ok-injective (c₀, h) (c, h') q)) v
