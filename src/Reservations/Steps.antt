-- ===== src/Reservations/Steps.antt =====
-- The same for the buttons, for making a reservation and for swapping places
-- (backend/src/modules/reservations/reservations.service.ts).
use kars_hotel.Base.{
  ℕ, ◌≡◌, refl, sym, ap, ◌∙◌, Option, none, some, Bool, true, false, not, [], ◌∷◌, ◌++◌, ◌&&◌, suc,
  ◌==◌, arith,
}
use kars_hotel.Base.Text.{Text}
use kars_hotel.Base.Result.{ok, >>=-eq-ok, ok-injective, or_refuse-then, refuse_if-then, unit-then}
use kars_hotel.Hotel.{
  Hotel, Reservation, Room, Fact, find_reservation, update_reservation, find_active_room, emit,
  invalidated, notified_updated, reservation_not_found, version_mismatch, different_rooms,
  room_not_found, no_place_available, wrong_status,
}
use kars_hotel.Places.{allocate_place}
use kars_hotel.Reservations.Request.{CreateReservation, PartnerStayInfo, ChannelContext, or_else}
use kars_hotel.Reservations.Overlap.{overlapping}
use kars_hotel.Reservations.Create.{Created, created_of, new_reservation, create_fresh}
use kars_hotel.Reservations.Facts.{
  admit_fact, stamp_fact, announce_fact, record_fact, bump_to, status_of,
}
use kars_hotel.Reservations.Cancelling.{
  cancel_refusal, refuse_cancel, cancel_row, cancel_reservation, journal_cancel,
}
use kars_hotel.Reservations.Swap.{SwapReservations, swap, move_to}
use kars_hotel.Reservations.Kept.{
  SameTables, SameTables-trans, SameTables-of_eq, SameTables-emit, announce_fact-SameTables,
}

second : {A : Type 0} → A × Hotel → Hotel
second p = p.1

not-false : (b : Bool) → not b ≡ false → b ≡ true
not-false b h = ground arith

-- The tables after the statement and the stamps of a fact.
abbrev pub fact_tables : ℕ → Fact → ℕ → Option ℕ → ℕ → Hotel → Hotel
fact_tables id fact room_id at now h =
    stamp_fact id fact room_id at now
      (record h { reservations = update_reservation id (bump_to (status_of fact)) h.reservations })

pub record Recorded (id : ℕ) (fact : Fact) (at : Option ℕ) (now : ℕ) (h : Hotel) (h' : Hotel)
    : Type 0 where
  pub cur : Reservation
  pub found : find_reservation id h.reservations ≡ some cur
  pub admitted : admit_fact id fact cur.status h ≡ ok true
  pub tables : SameTables (fact_tables id fact cur.room_id at now h) h'

pub record_fact-Recorded :
    (id : ℕ) (fact : Fact) (user at : Option ℕ) (now : ℕ) (h : Hotel) (version : ℕ) (h' : Hotel)
    → record_fact id fact user at now h ≡ ok (version, h')
    → Recorded id fact at now h h'
unfolding record_fact second
record_fact-Recorded id fact user at now h version h' e =
    let (cur, found, q₁) =
      or_refuse-then (find_reservation id h.reservations) reservation_not_found _ e in
    let (admitted, a, q₂) = >>=-eq-ok (admit_fact id fact cur.status h) _ q₁ in
    let (n, q₃) = refuse_if-then (not admitted) (wrong_status fact) _ q₂ in
    let told =
      emit (invalidated ∷ notified_updated ∷ []) (fact_tables id fact cur.room_id at now h) in
    let h₁ = announce_fact id fact cur.status cur.room_id user at now told in
    let two : ℕ × Hotel = (suc cur.version, h₁) in
    let to : h' ≡ h₁ = sym (ap second (ok-injective two (version, h') q₃)) in
    let kept = announce_fact-SameTables id fact cur.status cur.room_id user at now told in
    record {
      cur = cur;
      found = found;
      admitted = a ∙ ap ok (not-false admitted n);
      tables =
          SameTables-trans _ told h' (SameTables-emit _ (fact_tables id fact cur.room_id at now h))
            (SameTables-trans told h₁ h' kept (SameTables-of_eq h₁ h' (sym to)));
    }

pub record CancelledBy (id : ℕ) (reason : Option Text) (from_channel : Bool) (h h' : Hotel)
    : Type 0 where
  pub cur : Reservation
  pub found : find_reservation id h.reservations ≡ some cur
  pub allowed : cancel_refusal cur.status cur.channel_managed from_channel ≡ none
  pub tables :
      SameTables
        (record h { reservations = update_reservation id (cancel_row reason) h.reservations })
        h'

pub cancel_reservation-CancelledBy :
    (id : ℕ) (user : Option ℕ) (reason : Option Text) (from_channel : Bool) (h : Hotel)
    (version : ℕ) (h' : Hotel)
    → cancel_reservation id user reason from_channel h ≡ ok (version, h')
    → CancelledBy id reason from_channel h h'
unfolding cancel_reservation journal_cancel second
cancel_reservation-CancelledBy id user reason from_channel h version h' e =
    let (cur, found, q₁) =
      or_refuse-then (find_reservation id h.reservations) reservation_not_found _ e in
    let refusal = cancel_refusal cur.status cur.channel_managed from_channel in
    let (a, q₂) = unit-then (refuse_cancel refusal) _ q₁ in
    let h₁ = record h { reservations = update_reservation id (cancel_row reason) h.reservations } in
    let h₂ = journal_cancel id cur.status user reason h₁ in
    let h₃ = emit (invalidated ∷ notified_updated ∷ []) h₂ in
    let two : ℕ × Hotel = (suc cur.version, h₃) in
    let to = sym (ap second (ok-injective two (version, h') q₂)) in
    record {
      cur = cur;
      found = found;
      allowed = granted refusal a;
      tables =
          SameTables-trans h₁ h₃ h'
            (record { reservations = refl; rooms = refl; multi_place = refl; ids = omega arith })
            (SameTables-of_eq h₃ h' (sym to));
    }
  where
    granted : (r : Option _) → refuse_cancel r ≡ ok tt → r ≡ none
    granted none g = refl
    granted (some r) g = cc

pub record Fresh (dto : CreateReservation) (stay : PartnerStayInfo)
    (channel : Option ChannelContext) (h : Hotel) (c : Created) (h' : Hotel) : Type 0 where
  pub room : Room
  pub found : find_active_room dto.room_id h.rooms ≡ some room
  pub place : ℕ
  pub placed :
      allocate_place room.capacity h.multi_place
        (record { adults = dto.adults; children = some (or_else dto.children 0) })
        (overlapping dto.room_id dto.check_in dto.check_out none h.reservations)
      ≡ some place
  pub answer : c ≡ created_of (new_reservation dto stay channel room place h.next_id)
  pub tables :
      SameTables
        (record h {
          reservations =
              h.reservations ++ new_reservation dto stay channel room place h.next_id ∷ [];
          next_id = suc h.next_id;
        })
        h'

pub create_fresh-Fresh :
    (dto : CreateReservation) (stay : PartnerStayInfo) (channel : Option ChannelContext)
    (user : Option ℕ) (h : Hotel) (c : Created) (h' : Hotel)
    → create_fresh dto stay channel user h ≡ ok (c, h')
    → Fresh dto stay channel h c h'
unfolding create_fresh second
create_fresh-Fresh dto stay channel user h c h' e =
    let (room, found, q₁) =
      or_refuse-then (find_active_room dto.room_id h.rooms) room_not_found _ e in
    let (place, placed, q₂) =
      or_refuse-then (allocate_place room.capacity h.multi_place _ _) no_place_available _ q₁ in
    let out = ok-injective _ (c, h') q₂ in
    let to = ap second out in
    record {
      room = room;
      found = found;
      place = place;
      placed = placed;
      answer = sym (ap (λ (x : Created × Hotel). x.0) out);
      tables =
          let h₁ = record h {
            reservations =
                h.reservations ++ new_reservation dto stay channel room place h.next_id ∷ [];
            next_id = suc h.next_id;
          } in
          SameTables-trans h₁ _ h' (SameTables-emit _ h₁) (SameTables-of_eq _ h' to);
    }

pub record Swapped (dto : SwapReservations) (h h' : Hotel) : Type 0 where
  pub a : Reservation
  pub b : Reservation
  pub found_a : find_reservation dto.id_a h.reservations ≡ some a
  pub found_b : find_reservation dto.id_b h.reservations ≡ some b
  pub distinct : (dto.id_a == dto.id_b) ≡ false
  pub versions : (a.version == dto.version_a && b.version == dto.version_b) ≡ true
  pub one_room : (a.room_id == b.room_id) ≡ true
  pub tables :
      SameTables
        (record h {
          reservations =
              update_reservation dto.id_b
                (move_to a.place_number)
                (update_reservation dto.id_a (move_to b.place_number) h.reservations);
        })
        h'

pub swap-Swapped :
    (dto : SwapReservations) (h : Hotel) (versions : ℕ × ℕ) (h' : Hotel)
    → swap dto h ≡ ok (versions, h')
    → Swapped dto h h'
unfolding swap second
swap-Swapped dto h versions h' e =
    let (d, q₀) = refuse_if-then (dto.id_a == dto.id_b) reservation_not_found _ e in
    let (a, fa, q₁) =
      or_refuse-then (find_reservation dto.id_a h.reservations) reservation_not_found _ q₀ in
    let (b, fb, q₂) =
      or_refuse-then (find_reservation dto.id_b h.reservations) reservation_not_found _ q₁ in
    let (v, q₃) =
      refuse_if-then (not (a.version == dto.version_a && b.version == dto.version_b))
        version_mismatch _ q₂ in
    let (r, q₄) = refuse_if-then (not (a.room_id == b.room_id)) different_rooms _ q₃ in
    let to = ap second (ok-injective _ (versions, h') q₄) in
    record {
      a = a;
      b = b;
      found_a = fa;
      found_b = fb;
      distinct = d;
      versions = not-false (a.version == dto.version_a && b.version == dto.version_b) v;
      one_room = not-false (a.room_id == b.room_id) r;
      tables =
          let h₁ = record h {
            reservations =
                update_reservation dto.id_b (move_to a.place_number)
                  (update_reservation dto.id_a (move_to b.place_number) h.reservations);
          } in
          SameTables-trans h₁ _ h' (SameTables-emit _ h₁) (SameTables-of_eq _ h' to);
    }
