-- ===== src/Reservations/SwapPlaces.antt =====
-- What a swap of places does (backend/src/modules/reservations/reservations.service.ts, `swap`).
use kars_hotel.Base.{
  ℕ, suc, ◌≡◌, ◌≢◌, refl, sym, ap, ◌∙◌, Bool, true, false, not, some, [], ◌∷◌, ◌==◌, ◌&&◌, arith,
}
use kars_hotel.Base.Result.{ok}
use kars_hotel.Hotel.{
  Hotel, Reservation, find_reservation, update_reservation, emit, invalidated, notified_updated,
}
use kars_hotel.Hotel.Store.{find_reservation-update_self, find_reservation-update_ne}
use kars_hotel.Places.{Guests, places_of}
use kars_hotel.Reservations.Overlap.{is_live, shares_night, as_holder}
use kars_hotel.Reservations.Placement.{apart}
use kars_hotel.Reservations.Swap.{SwapReservations, swap, move_to}
use kars_hotel.Reservations.Steps.{swap-Swapped}

-- A swap gives each of the two reservations the place of the other and the next version, and leaves
-- every other reservation as it was.
pub swap-exchanges :
    (dto : SwapReservations) (h : Hotel) (versions : ℕ × ℕ) (h' : Hotel) (a b : Reservation)
    → swap dto h ≡ ok (versions, h')
    → find_reservation dto.id_a h.reservations ≡ some a
    → find_reservation dto.id_b h.reservations ≡ some b
    → (find_reservation dto.id_a h'.reservations
        ≡ some (record a { place_number = b.place_number; version = suc a.version }))
      × (find_reservation dto.id_b h'.reservations
          ≡ some (record b { place_number = a.place_number; version = suc b.version }))
      × ((other : ℕ)
          → other ≢ dto.id_a
          → other ≢ dto.id_b
          → find_reservation other h'.reservations ≡ find_reservation other h.reservations)
swap-exchanges dto h versions h' a b e found_a found_b =
    let S = swap-Swapped dto h versions h' e in
    let same_a = some-inj S.a a (sym S.found_a ∙ found_a) in
    let same_b = some-inj S.b b (sym S.found_b ∙ found_b) in
    let pa = ap (λ (r : Reservation). r.place_number) same_a in
    let pb = ap (λ (r : Reservation). r.place_number) same_b in
    let fa = move_to S.b.place_number in
    let fb = move_to S.a.place_number in
    let one = update_reservation dto.id_a fa h.reservations in
    let differ : dto.id_a ≢ dto.id_b = λ q. ground (arith, S.distinct, q) in
    (
      ap (find_reservation dto.id_a) S.tables.reservations
          ∙ find_reservation-update_ne dto.id_b dto.id_a fb one (λ r. refl) (λ q. differ (sym q))
          ∙ find_reservation-update_self dto.id_a fa h.reservations a refl found_a
          ∙ ap (λ p. some (move_to p a)) pb,
      ap (find_reservation dto.id_b) S.tables.reservations
          ∙ find_reservation-update_self dto.id_b fb one b refl (
              find_reservation-update_ne dto.id_a dto.id_b fa h.reservations (λ r. refl) differ
              ∙ found_b)
          ∙ ap (λ p. some (move_to p b)) pa,
      λ other na nb.
          ap (find_reservation other) S.tables.reservations
          ∙ find_reservation-update_ne dto.id_b other fb one (λ r. refl) (λ q. nb (sym q))
          ∙ find_reservation-update_ne dto.id_a other fa h.reservations (λ r. refl)
              (λ q. na (sym q)),
    )
  where
    some-inj : (x y : Reservation) → some x ≡ some y → x ≡ y
    some-inj x y q = cc

abbrev pub guests_of : Reservation → Guests
guests_of r = record { adults = r.adults; children = some r.children }

-- Two live reservations of a room share a night and a place of the room.
pub shares_place : ℕ → Reservation → Reservation → Bool
shares_place capacity r s =
    s.room_id == r.room_id
    && (is_live r.status
        && (is_live s.status
            && (shares_night r.check_in r.check_out s
                && not (
                    apart capacity (places_of (guests_of r) capacity true) r.place_number
                      (as_holder s)))))

-- A swap asks nothing about other bookings: two reservations of one room are swapped whatever their
-- dates, and if a third reservation of the room, live like the first one, holds the place given on a
-- common night, then in the hotel that the swap leaves the rows of these two share a place.
pub swap-shares_place :
    (a b s : Reservation) (capacity : ℕ) (h : Hotel)
    → find_reservation a.id h.reservations ≡ some a
    → find_reservation b.id h.reservations ≡ some b
    → find_reservation s.id h.reservations ≡ some s
    → a.id ≢ b.id
    → s.id ≢ a.id
    → s.id ≢ b.id
    → a.room_id ≡ b.room_id
    → s.room_id ≡ a.room_id
    → is_live a.status ≡ true
    → is_live s.status ≡ true
    → shares_night a.check_in a.check_out s ≡ true
    → apart capacity (places_of (guests_of a) capacity true) b.place_number (as_holder s) ≡ false
    → (h' : Hotel) × (a' : Reservation) × (swap
          (record { id_a = a.id; version_a = a.version; id_b = b.id; version_b = b.version })
          h
        ≡ ok ((suc a.version, suc b.version), h'))
      × (find_reservation a.id h'.reservations ≡ some a')
      × (find_reservation s.id h'.reservations ≡ some s)
      × (shares_place capacity a' s ≡ true)
unfolding swap shares_place
swap-shares_place a b s capacity h fa fb fs differ sa sb one_room there live_a live_s night held =
    let dto : SwapReservations = record {
      id_a = a.id;
      version_a = a.version;
      id_b = b.id;
      version_b = b.version;
    } in
    let h' : Hotel = emit (invalidated ∷ notified_updated ∷ []) (record h {
      reservations =
          update_reservation b.id (move_to a.place_number)
            (update_reservation a.id (move_to b.place_number) h.reservations);
    }) in
    let done : swap dto h ≡ ok ((suc a.version, suc b.version), h') = rw (fa, fb) (ground arith) in
    let (row_a, row_b, kept) =
      swap-exchanges dto h (suc a.version, suc b.version) h' a b done fa fb in
    (
      h',
      move_to b.place_number a,
      done,
      row_a,
      kept s.id sa sb ∙ fs,
      rw (there, live_a, live_s, night, held) (ground arith),
    )
