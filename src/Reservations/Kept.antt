-- ===== src/Reservations/Kept.antt =====
-- What follows a transaction leaves the reservations and the rooms as they are
-- (backend/src/modules/reservations/reservations.service.ts).
use kars_hotel.Base.{ℕ, ◌≡◌, refl, Option, none, some, Bool, ◌∙◌, ◌≤◌, subst, List, [], ◌∷◌, arith}
use kars_hotel.Hotel.{
  Hotel, Reservation, Status, Fact, fact_checked_in, fact_checked_out, fact_no_show, Effect, emit,
  invalidated, notified_updated, journaled, update,
}
use kars_hotel.Reservations.Facts.{announce_fact, emit_for_reservation}
use kars_hotel.Reservations.Cancelling.{journal_cancel}
use kars_hotel.Reservations.Update.{after_update, new_fact, announce_new, update_entry}

-- The tables that a booking rests on.
pub record SameTables (h h' : Hotel) : Type 0 where
  pub reservations : h'.reservations ≡ h.reservations
  pub rooms : h'.rooms ≡ h.rooms
  pub multi_place : h'.multi_place ≡ h.multi_place
  pub ids : h.next_id ≤ h'.next_id

pub SameTables-trans : (a b c : Hotel) → SameTables a b → SameTables b c → SameTables a c
SameTables-trans a b c p q = record {
  reservations = q.reservations ∙ p.reservations;
  rooms = q.rooms ∙ p.rooms;
  multi_place = q.multi_place ∙ p.multi_place;
  ids = omega (arith, p.ids, q.ids);
}

pub SameTables-of_eq : (a b : Hotel) → a ≡ b → SameTables a b
SameTables-of_eq a b e =
    subst (SameTables a) e
      (record { reservations = refl; rooms = refl; multi_place = refl; ids = omega arith })

-- Effects alone are added.
pub SameTables-emit : (es : List Effect) (h : Hotel) → SameTables h (emit es h)
SameTables-emit es h = record {
  reservations = refl;
  rooms = refl;
  multi_place = refl;
  ids = omega arith;
}

pub announce_fact-SameTables :
    (id : ℕ) (fact : Fact) (before : Status) (room : ℕ) (user at : Option ℕ) (now : ℕ) (h : Hotel)
    → SameTables h (announce_fact id fact before room user at now h)
unfolding announce_fact emit_for_reservation
announce_fact-SameTables id fact_checked_in before room user at now h = ground arith
announce_fact-SameTables id fact_checked_out before room user at now h = ground arith
announce_fact-SameTables id fact_no_show before room user at now h = ground arith

announce_new-SameTables :
    (id : ℕ) (fact : Option Fact) (before : Status) (room : ℕ) (user : Option ℕ) (now : ℕ)
    (h : Hotel)
    → SameTables h (announce_new id fact before room user now h)
announce_new-SameTables id none before room user now h = SameTables-of_eq h h refl
announce_new-SameTables id (some fact) before room user now h =
    announce_fact-SameTables id fact before room user none now h

pub after_update-SameTables :
    (id : ℕ) (cur next : Reservation) (s : Status) (from_channel : Bool) (user : Option ℕ) (now : ℕ)
    (h : Hotel)
    → SameTables h (after_update id cur next s from_channel user now h)
unfolding after_update emit_for_reservation journal_cancel
after_update-SameTables id cur next s from_channel user now h = ground (
  arith,
  announce_new-SameTables id (new_fact cur.status s) cur.status next.room_id user now (
      emit
        (invalidated
          ∷ notified_updated
          ∷ journaled update id user (update_entry cur next from_channel)
          ∷ [])
        h),
)
