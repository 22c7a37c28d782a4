-- ===== src/Reservations/Requested.antt =====
-- What a creation, a swap, a check-in and a check-out do to the desk's calendar
-- (backend/src/modules/reservations/reservations.service.ts).
use kars_hotel.Base.{
  ℕ, ◌≡◌, refl, sym, ap, ◌∙◌, ◌≢◌, ◌⊎◌, inl, inr, true, not, Option, none, some, List, [], ◌∷◌,
  ◌++◌, ltb, arith, subst, if◌then◌else◌, In-append, In-left, In-right,
}
use kars_hotel.Base.Result.{ok, >>=-eq-ok, refuse_if-then, ok-injective}
use kars_hotel.Hotel.{
  Hotel, Reservation, Fact, fact_checked_in, fact_checked_out, fact_no_show, update_reservation,
  date_conflict, confirmed,
}
use kars_hotel.Reservations.Request.{CreateReservation, PartnerStayInfo, ChannelContext, status_or}
use kars_hotel.Reservations.Create.{
  Created, create_reservation, create_fresh, channel_reservation, replayed_or, new_reservation,
}
use kars_hotel.Reservations.Facts.{or_now, record_fact, stamp_fact, bump_to, status_of}
use kars_hotel.Reservations.Swap.{SwapReservations, swap, move_to}
use kars_hotel.Reservations.Overlap.{is_live}
use kars_hotel.Reservations.Valid.{IsValid, find_unique}
use kars_hotel.Reservations.Steps.{record_fact-Recorded, create_fresh-Fresh, swap-Swapped}
use kars_hotel.Reservations.Buttons.{admit_fact-allowed, allowed_from-is_live}
use kars_hotel.Reservations.Calendar.{Span, Moves, span_of, calendar, calendar-row}
use kars_hotel.Reservations.Planned.{calendar-update, turn}
use kars_hotel.Reservations.Refines.{Touches}

abbrev pub Same : Hotel → Hotel → Type 0
Same h h' =
    (room night : ℕ) → calendar h'.reservations room night ≡ calendar h.reservations room night

abbrev pub Shifts : ℕ → Option Span → Hotel → Hotel → Type 0
Shifts id span h h' = Moves id span (calendar h.reservations) (calendar h'.reservations)

-- The nights that a request to create asks for, if its status is a live one.
abbrev pub asked_span : CreateReservation → Option Span
asked_span dto =
    if is_live (status_or dto.status confirmed)
    then some (record { room = dto.room_id; from = dto.check_in; to = dto.check_out })
    else none

pub create_reservation-calendar :
    (dto : CreateReservation) (stay : PartnerStayInfo) (channel : Option ChannelContext)
    (user : Option ℕ) (h h' : Hotel) (c : Created)
    → IsValid h
    → IsValid h'
    → create_reservation dto stay channel user h ≡ ok (c, h')
    → Same h h'
      ⊎ (((room night : ℕ) → calendar h.reservations room night ≢ some c.id)
          × Shifts c.id (asked_span dto) h h')
unfolding create_reservation new_reservation span_of
create_reservation-calendar dto stay channel user h h' c v v' e =
    let (d, q₁) = refuse_if-then (not (ltb dto.check_in dto.check_out)) date_conflict _ e in
    let (replay, r, q₂) = >>=-eq-ok (channel_reservation channel h.reservations) _ q₁ in
    either replay q₂
  where
    appended :
        (n : Reservation)
        → n.id ≡ h.next_id
        → Touches n.id h.reservations (h.reservations ++ n ∷ [])
    appended n new_id = record {
      stays = λ r i ne. In-left h.reservations (n ∷ []) r i;
      came = λ s i ne. elim (In-append h.reservations (n ∷ []) s i) [
        | inl old ↦ old
        | inr (inl q) ↦ absurd (ne (ap (λ (x : Reservation). x.id) q))
        | inr (inr z) ↦ absurd z
      ];
      own = λ r i q. absurd (omega (arith, v.fresh r i, new_id, q));
    }

    new_to : (room night k : ℕ) → k ≡ h.next_id → calendar h.reservations room night ≢ some k
    new_to room night k q taken =
        let (r, i, p, s) = calendar-row h.reservations room night k taken in
        omega (arith, v.fresh r i, p, q)

    either :
        (replay : Option Created)
        → replayed_or replay h (create_fresh dto stay channel user h) ≡ ok (c, h')
        → Same h h'
          ⊎ (((room night : ℕ) → calendar h.reservations room night ≢ some c.id)
              × Shifts c.id (asked_span dto) h h')
    either (some c₀) q = inl (λ room night.
        ap (λ (x : Created × Hotel). calendar x.1.reservations room night)
          (sym (ok-injective (c₀, h) (c, h') q)))
    either none q =
        let F = create_fresh-Fresh dto stay channel user h c h' q in
        let n = new_reservation dto stay channel F.room F.place h.next_id in
        let named : c.id ≡ h.next_id = ap (λ (x : Created). x.id) F.answer in
        inr (
          λ room night. new_to room night c.id named,
          subst (λ k. Shifts k (asked_span dto) h h') (sym named)
              (turn h.next_id h.reservations (h.reservations ++ n ∷ []) h' n v.exclusive v'
                F.tables.reservations (appended n refl)
                (In-right h.reservations (n ∷ []) n (inl refl)) refl),
        )

-- A check-in or a check-out: the statuses before and after are live.
pub stayed-Same :
    (id : ℕ) (fact : Fact) (user at : Option ℕ) (now version : ℕ) (h h' : Hotel)
    → is_live (status_of fact) ≡ true
    → IsValid h
    → record_fact id fact user at now h ≡ ok (version, h')
    → Same h h'
unfolding stamp_fact span_of
stayed-Same id fact user at now version h h' live v e room night =
    let R = record_fact-Recorded id fact user at now h version h' e in
    let bumped : calendar (update_reservation id (bump_to (status_of fact)) h.reservations) room
          night
        ≡ calendar h.reservations room night =
      calendar-update id (bump_to (status_of fact)) h.reservations
        (λ r i q. bumped-span r (
          ap (λ (x : Reservation). is_live x.status) (find_unique h v id R.cur r R.found i q)
          ∙ allowed_from-is_live fact R.cur.status
              (admit_fact-allowed id fact R.cur.status h R.admitted)))
        (λ r. refl) room night in
    ap (λ rs. calendar rs room night) R.tables.reservations ∙ stamped fact R.cur.room_id ∙ bumped
  where
    bumped-span :
        (r : Reservation)
        → is_live r.status ≡ true
        → span_of (bump_to (status_of fact) r) ≡ span_of r
    bumped-span r alive = rw (live, alive) refl

    rows : List Reservation
    rows = update_reservation id (bump_to (status_of fact)) h.reservations

    stamped :
        (f : Fact) (at_room : ℕ)
        → calendar
            (stamp_fact id f at_room at now (record h { reservations = rows })).reservations
            room
            night
          ≡ calendar rows room night
    stamped fact_checked_in at_room =
        calendar-update id (λ r. record r { checked_in_at = some (or_now at now) }) rows
          (λ r i q. refl) (λ r. refl) room night
    stamped fact_checked_out at_room =
        calendar-update id (λ r. record r { checked_out_at = some (or_now at now) }) rows
          (λ r i q. refl) (λ r. refl) room night
    stamped fact_no_show at_room = refl

pub swap-Same :
    (dto : SwapReservations) (versions : ℕ × ℕ) (h h' : Hotel)
    → swap dto h ≡ ok (versions, h')
    → Same h h'
unfolding span_of
swap-Same dto versions h h' e room night =
    let S = swap-Swapped dto h versions h' e in
    let to_b = move_to S.b.place_number in
    ap (λ rs. calendar rs room night) S.tables.reservations
    ∙ calendar-update dto.id_b (move_to S.a.place_number)
        (update_reservation dto.id_a to_b h.reservations) (λ r i q. refl) (λ r. refl) room night
    ∙ calendar-update dto.id_a to_b h.reservations (λ r i q. refl) (λ r. refl) room night
