-- ===== src/Reservations/History.antt =====
-- Histories of requests to one hotel (backend/src/modules/reservations/reservations.service.ts): a
-- step is one request that succeeded; one that is refused changes nothing.
use kars_hotel.Base.{
  ℕ, ◌≡◌, refl, ◌∙◌, ◌⊎◌, Bool, true, false, not, Option, none, some, subst, ap, ltb,
}
use kars_hotel.Base.Text.{Text}
use kars_hotel.Base.Result.{ok, >>=-eq-ok, refuse_if-then, ok-injective}
use kars_hotel.Hotel.{
  Hotel, Reservation, Fact, fact_checked_in, fact_checked_out, fact_no_show, find_reservation,
  date_conflict,
}
use kars_hotel.Reservations.Request.{
  CreateReservation, UpdateReservation, PartnerStayInfo, ChannelContext, status_or, or_else,
}
use kars_hotel.Reservations.Valid.{IsValid}
use kars_hotel.Reservations.Create.{
  Created, create_reservation, create_fresh, channel_reservation, replayed_or,
}
use kars_hotel.Reservations.Facts.{record_fact, stamp_fact}
use kars_hotel.Reservations.Cancelling.{cancel_reservation}
use kars_hotel.Reservations.Swap.{SwapReservations, swap}
use kars_hotel.Reservations.Placement.{asks_place}
use kars_hotel.Reservations.Update.{edit_row, stamp_new, new_fact}
use kars_hotel.Reservations.Success.{edit_reservation-Edited}
use kars_hotel.Reservations.Steps.{
  record_fact-Recorded, cancel_reservation-CancelledBy, create_fresh-Fresh, swap-Swapped,
}
use kars_hotel.Reservations.Ordinary.{edit_reservation-IsValid, revives}
use kars_hotel.Reservations.Buttons.{
  record_fact-IsValid, cancel_reservation-IsValid, swap-IsValid, create_reservation-IsValid,
}

-- An edit that brings a cancelled or no-show reservation back to life must name a room, a place, a
-- date or a number of guests.
pub data Step (h h' : Hotel) : Type 0 where
  creates :
      (dto : CreateReservation) (stay : PartnerStayInfo) (channel : Option ChannelContext)
      (user : Option ℕ) (c : Created)
      → create_reservation dto stay channel user h ≡ ok (c, h')
      → Step h h'
  edits :
      (id : ℕ) (dto : UpdateReservation) (stay : PartnerStayInfo) (from_channel : Bool)
      (user : Option ℕ) (now : ℕ) (next cur : Reservation)
      → find_reservation id h.reservations ≡ some cur
      → (asks_place dto ≡ true) ⊎ (revives cur next ≡ false)
      → edit_row id dto stay from_channel user now h ≡ ok (next, h')
      → Step h h'
  swaps : (dto : SwapReservations) (versions : ℕ × ℕ) → swap dto h ≡ ok (versions, h') → Step h h'
  records :
      (id : ℕ) (fact : Fact) (user at : Option ℕ) (now version : ℕ)
      → record_fact id fact user at now h ≡ ok (version, h')
      → Step h h'
  cancels :
      (id : ℕ) (user : Option ℕ) (reason : Option Text) (from_channel : Bool) (version : ℕ)
      → cancel_reservation id user reason from_channel h ≡ ok (version, h')
      → Step h h'

pub data Reach (h : Hotel) : Hotel → Type 0 where
  here : Reach h h
  next : {h₁ h₂ : Hotel} → Reach h h₁ → Step h₁ h₂ → Reach h h₂

-- An ordinary hotel in good order.
pub record IsOrdinary (h : Hotel) : Type 0 where
  pub whole_rooms : h.multi_place ≡ false
  pub valid : IsValid h

stamp_fact-multi_place :
    (id : ℕ) (fact : Fact) (room : ℕ) (at : Option ℕ) (now : ℕ) (h : Hotel)
    → (stamp_fact id fact room at now h).multi_place ≡ h.multi_place
unfolding stamp_fact
stamp_fact-multi_place id fact_checked_in room at now h = refl
stamp_fact-multi_place id fact_checked_out room at now h = refl
stamp_fact-multi_place id fact_no_show room at now h = refl

stamp_new-multi_place :
    (id : ℕ) (fact : Option Fact) (room now : ℕ) (h : Hotel)
    → (stamp_new id fact room now h).multi_place ≡ h.multi_place
stamp_new-multi_place id none room now h = refl
stamp_new-multi_place id (some fact) room now h = stamp_fact-multi_place id fact room none now h

create_reservation-multi_place :
    (dto : CreateReservation) (stay : PartnerStayInfo) (channel : Option ChannelContext)
    (user : Option ℕ) (h : Hotel) (c : Created) (h' : Hotel)
    → create_reservation dto stay channel user h ≡ ok (c, h')
    → h'.multi_place ≡ h.multi_place
unfolding create_reservation
create_reservation-multi_place dto stay channel user h c h' e =
    let (d, q₁) = refuse_if-then (not (ltb dto.check_in dto.check_out)) date_conflict _ e in
    let (replay, r, q₂) = >>=-eq-ok (channel_reservation channel h.reservations) _ q₁ in
    either replay q₂
  where
    either :
        (replay : Option Created)
        → replayed_or replay h (create_fresh dto stay channel user h) ≡ ok (c, h')
        → h'.multi_place ≡ h.multi_place
    either none q = (create_fresh-Fresh dto stay channel user h c h' q).tables.multi_place
    either (some c₀) q =
        subst (λ (x : Hotel). x.multi_place ≡ h.multi_place)
          (ap (λ (x : Created × Hotel). x.1) (ok-injective (c₀, h) (c, h') q)) refl

pub Step-IsOrdinary : {h h' : Hotel} → IsOrdinary h → Step h h' → IsOrdinary h'
Step-IsOrdinary {h} {h'} o (creates dto stay channel user c e) = record {
  whole_rooms = create_reservation-multi_place dto stay channel user h c h' e ∙ o.whole_rooms;
  valid = create_reservation-IsValid dto stay channel user h c h' o.whole_rooms o.valid e;
}
Step-IsOrdinary {h} {h'} o (edits id dto stay from_channel user now n cur found why e) =
    let E = edit_reservation-Edited id dto stay from_channel user now h n h' e in
    record {
      whole_rooms =
          E.tables.multi_place
          ∙ stamp_new-multi_place id (new_fact E.cur.status (status_or dto.status E.cur.status))
              (or_else dto.room_id E.cur.room_id) now _
          ∙ o.whole_rooms;
      valid =
          edit_reservation-IsValid id dto stay from_channel user now h n h' cur o.whole_rooms
            o.valid found why e;
    }
Step-IsOrdinary {h} {h'} o (swaps dto versions e) = record {
  whole_rooms = (swap-Swapped dto h versions h' e).tables.multi_place ∙ o.whole_rooms;
  valid = swap-IsValid dto h versions h' o.valid e;
}
Step-IsOrdinary {h} {h'} o (records id fact user at now version e) =
    let R = record_fact-Recorded id fact user at now h version h' e in
    record {
      whole_rooms =
          R.tables.multi_place
          ∙ stamp_fact-multi_place id fact R.cur.room_id at now _
          ∙ o.whole_rooms;
      valid = record_fact-IsValid id fact user at now h version h' o.valid e;
    }
Step-IsOrdinary {h} {h'} o (cancels id user reason from_channel version e) = record {
  whole_rooms =
      (cancel_reservation-CancelledBy id user reason from_channel h version h' e).tables.multi_place
      ∙ o.whole_rooms;
  valid = cancel_reservation-IsValid id user reason from_channel h version h' o.valid e;
}

-- In an ordinary hotel, whatever requests succeed in whatever order, no two live reservations of one
-- room share a night, no two rows have one id, and every id is below the next one, if this is so at
-- the start and no edit revives a reservation without naming a room, a place, a date or guests.
pub Reach-IsOrdinary : {h h' : Hotel} → IsOrdinary h → Reach h h' → IsOrdinary h'
Reach-IsOrdinary o here = o
Reach-IsOrdinary o (next r s) = Step-IsOrdinary (Reach-IsOrdinary o r) s
