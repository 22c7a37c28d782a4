-- ===== src/Reservations/Ordinary.antt =====
-- An ordinary hotel (no sale by places) never gives a room twice for one night, whatever is asked of
-- it in whatever order (backend/src/modules/reservations/reservations.service.ts).
use kars_hotel.Base.{
  ℕ, ◌≡◌, refl, sym, ap, ◌∙◌, subst, ◌≢◌, ◌⊎◌, inl, inr, Bool, true, false, not, Option, none, some,
  List, [], ◌∷◌, ◌&&◌, arith, In, In-find, Bool-cases,
}
use kars_hotel.Base.Result.{ok, ◌>>=◌, or_refuse, or_refuse-then}
use kars_hotel.Hotel.{
  Hotel, Reservation, Room, Status, Fact, fact_checked_in, fact_checked_out, fact_no_show,
  find_reservation, update_reservation, room_not_found, find_active_room,
}
use kars_hotel.Hotel.Store.{find_reservation-update_self, find_reservation-id}
use kars_hotel.Places.{PlaceHolder, Guests, allocate_place}
use kars_hotel.Places.Alloc.{allocate_place_whole}
use kars_hotel.Reservations.Request.{
  CreateReservation, UpdateReservation, PartnerStayInfo, ChannelContext, status_or, or_else,
}
use kars_hotel.Reservations.Overlap.{overlapping, is_live, in_the_way}
use kars_hotel.Reservations.Exclusive.{clash, overlapping-empty}
use kars_hotel.Reservations.Valid.{
  IsValid, SameTables-IsValid, append-IsValid, update-IsValid, quiet-IsValid,
}
use kars_hotel.Reservations.Create.{Created, create_fresh, new_reservation}
use kars_hotel.Reservations.Facts.{stamp_fact}
use kars_hotel.Reservations.Placement.{
  asks_place, choose_place, resolve_place, others_in, span_free, guests_after, other_room,
}
use kars_hotel.Reservations.Update.{edit_row, edited, stamp_new, new_fact}
use kars_hotel.Reservations.Success.{edit_reservation-Edited}
use kars_hotel.Reservations.Steps.{create_fresh-Fresh}

new-clash :
    (dto : CreateReservation) (stay : PartnerStayInfo) (channel : Option ChannelContext)
    (room : Room) (place id : ℕ) (s : Reservation)
    → in_the_way dto.room_id dto.check_in dto.check_out none s ≡ false
    → clash (new_reservation dto stay channel room place id) s ≡ false
unfolding clash in_the_way new_reservation
new-clash dto stay channel room place id s h = ground arith

-- Making a reservation keeps the invariant.
pub create_fresh-IsValid :
    (dto : CreateReservation) (stay : PartnerStayInfo) (channel : Option ChannelContext)
    (user : Option ℕ) (h : Hotel) (c : Created) (h' : Hotel)
    → h.multi_place ≡ false
    → IsValid h
    → create_fresh dto stay channel user h ≡ ok (c, h')
    → IsValid h'
unfolding new_reservation
create_fresh-IsValid dto stay channel user h c h' ordinary v e =
    let F = create_fresh-Fresh dto stay channel user h c h' e in
    let others = overlapping dto.room_id dto.check_in dto.check_out none h.reservations in
    let guests : Guests = record {
      adults = dto.adults;
      children = some (or_else dto.children 0);
    } in
    let whole : allocate_place F.room.capacity false guests others ≡ some F.place =
      ap (λ (b : Bool). allocate_place F.room.capacity b guests others) (sym ordinary) ∙ F.placed in
    let none_there = ((allocate_place_whole F.room.capacity guests others F.place).0 whole).1 in
    append-IsValid h h' (new_reservation dto stay channel F.room F.place h.next_id) v refl
      F.tables.reservations F.tables.ids
      (λ s is. new-clash dto stay channel F.room F.place h.next_id s (
        overlapping-empty dto.room_id dto.check_in dto.check_out none h.reservations s none_there
          is))

-- An edited row that asked for a place found the room empty.
choose_place_whole :
    (c : ℕ) (g : Guests) (os : List PlaceHolder) (asked : Option ℕ) (moves : Bool) (current p : ℕ)
    → choose_place c false g os asked moves current ≡ ok p
    → os ≡ []
unfolding choose_place span_free allocate_place
choose_place_whole c g [] asked moves current p e = refl
choose_place_whole c g (o ∷ os) none moves current p e = ground arith
choose_place_whole c g (o ∷ os) (some n) moves current p e = ground arith

resolve_place_whole :
    (dto : UpdateReservation) (cur : Reservation) (h : Hotel) (p : ℕ)
    → h.multi_place ≡ false
    → asks_place dto ≡ true
    → resolve_place dto cur h ≡ ok p
    → others_in dto cur h ≡ []
unfolding resolve_place
resolve_place_whole dto cur h p ordinary asks e =
    let q : (or_refuse (find_active_room (or_else dto.room_id cur.room_id) h.rooms) room_not_found
          >>= λ room.
              choose_place room.capacity h.multi_place (guests_after dto cur) (others_in dto cur h)
                dto.place_number (other_room dto.room_id cur) cur.place_number)
        ≡ ok p =
      rw asks at e in
    let (room, found, placed) =
      or_refuse-then (find_active_room (or_else dto.room_id cur.room_id) h.rooms) room_not_found _
        q in
    choose_place_whole room.capacity (guests_after dto cur) (others_in dto cur h) dto.place_number
      (other_room dto.room_id cur) cur.place_number p
      (subst
        (λ b.
          choose_place room.capacity b (guests_after dto cur) (others_in dto cur h) dto.place_number
            (other_room dto.room_id cur) cur.place_number
          ≡ ok p)
        ordinary placed)

-- The edit brings a cancelled or no-show reservation back to life.
pub revives : Reservation → Reservation → Bool
revives was is = not (is_live was.status) && is_live is.status

asked-clash :
    (dto : UpdateReservation) (stay : PartnerStayInfo) (status : Status) (place type : ℕ)
    (cur s : Reservation)
    → in_the_way
        (or_else dto.room_id cur.room_id)
        (or_else dto.check_in cur.check_in)
        (or_else dto.check_out cur.check_out)
        (some cur.id)
        s
      ≡ false
    → s.id ≢ cur.id
    → clash (edited dto stay status place type cur cur) s ≡ false
unfolding clash in_the_way edited
asked-clash dto stay status place type cur s h ne = ground arith

unasked-clash :
    (dto : UpdateReservation) (stay : PartnerStayInfo) (status : Status) (place type : ℕ)
    (cur s : Reservation)
    → asks_place dto ≡ false
    → revives cur (edited dto stay status place type cur cur) ≡ false
    → clash cur s ≡ false
    → clash (edited dto stay status place type cur cur) s ≡ false
unfolding clash edited revives asks_place
unasked-clash dto stay status place type cur s no_ask quiet h = ground arith

pub stamp_fact-IsValid :
    (id : ℕ) (fact : Fact) (room : ℕ) (at : Option ℕ) (now : ℕ) (h : Hotel) (cur : Reservation)
    → find_reservation id h.reservations ≡ some cur
    → IsValid h
    → IsValid (stamp_fact id fact room at now h)
unfolding stamp_fact clash
stamp_fact-IsValid id fact_checked_in room at now h cur found v =
    quiet-IsValid id _ h _ cur v (λ r. refl) found refl (omega arith) (λ s q. q)
stamp_fact-IsValid id fact_checked_out room at now h cur found v =
    quiet-IsValid id _ h _ cur v (λ r. refl) found refl (omega arith) (λ s q. q)
stamp_fact-IsValid id fact_no_show room at now h cur found v = v

stamp_new-IsValid :
    (id : ℕ) (fact : Option Fact) (room now : ℕ) (h : Hotel) (cur : Reservation)
    → find_reservation id h.reservations ≡ some cur
    → IsValid h
    → IsValid (stamp_new id fact room now h)
stamp_new-IsValid id none room now h cur found v = v
stamp_new-IsValid id (some fact) room now h cur found v =
    stamp_fact-IsValid id fact room none now h cur found v

edited-clash :
    (dto : UpdateReservation) (stay : PartnerStayInfo) (place type : ℕ) (h : Hotel)
    (cur s : Reservation)
    → h.multi_place ≡ false
    → IsValid h
    → In cur h.reservations
    → resolve_place dto cur h ≡ ok place
    → (asks_place dto ≡ true)
      ⊎ (revives cur (edited dto stay (status_or dto.status cur.status) place type cur cur) ≡ false)
    → In s h.reservations
    → s.id ≢ cur.id
    → clash (edited dto stay (status_or dto.status cur.status) place type cur cur) s ≡ false
edited-clash dto stay place type h cur s ordinary v ic placed why is ne =
    elim (Bool-cases (asks_place dto)) [
      | inl asks ↦
          asked-clash dto stay (status_or dto.status cur.status) place type cur s
            (overlapping-empty (or_else dto.room_id cur.room_id) (or_else dto.check_in cur.check_in)
              (or_else dto.check_out cur.check_out) (some cur.id) h.reservations s
              (resolve_place_whole dto cur h place ordinary asks placed) is)
            ne
      | inr silent ↦ elim why [
        | inl asks ↦ cc
        | inr quiet ↦
            unasked-clash dto stay (status_or dto.status cur.status) place type cur s silent quiet
              (v.exclusive cur s ic is (λ q. ne (sym q)))
      ]
    ]

edited-id :
    (dto : UpdateReservation) (stay : PartnerStayInfo) (status : Status) (place type : ℕ)
    (cur r : Reservation)
    → (edited dto stay status place type cur r).id ≡ r.id
unfolding edited
edited-id dto stay status place type cur r = refl

-- An edit keeps the invariant, unless it brings a reservation back to life without naming a room,
-- a place, a date or a number of guests.
pub edit_reservation-IsValid :
    (id : ℕ) (dto : UpdateReservation) (stay : PartnerStayInfo) (from_channel : Bool)
    (user : Option ℕ) (now : ℕ) (h : Hotel) (next : Reservation) (h' : Hotel) (cur : Reservation)
    → h.multi_place ≡ false
    → IsValid h
    → find_reservation id h.reservations ≡ some cur
    → (asks_place dto ≡ true) ⊎ (revives cur next ≡ false)
    → edit_row id dto stay from_channel user now h ≡ ok (next, h')
    → IsValid h'
edit_reservation-IsValid id dto stay from_channel user now h next h' cur₀ ordinary v found₀ why e =
    let E = edit_reservation-Edited id dto stay from_channel user now h next h' e in
    let cur = E.cur in
    let same : cur₀ ≡ cur = cc (found₀, E.found) in
    let status = status_or dto.status cur.status in
    let f = edited dto stay status E.place E.room_type cur in
    let idc : cur.id ≡ id = find_reservation-id id h.reservations cur E.found in
    let h₁ = record h { reservations = update_reservation id f h.reservations } in
    let why' : (asks_place dto ≡ true) ⊎ (revives cur (f cur) ≡ false) =
      subst (λ n. (asks_place dto ≡ true) ⊎ (revives cur n ≡ false)) E.is_next
        (subst (λ c. (asks_place dto ≡ true) ⊎ (revives c next ≡ false)) same why) in
    let v₁ : IsValid h₁ =
      update-IsValid id f h h₁ cur v (edited-id dto stay status E.place E.room_type cur) E.found
        refl (omega arith)
        (λ s is ne.
          edited-clash dto stay E.place E.room_type h cur s ordinary v
            (In-find _ h.reservations cur E.found) E.placed why' is (λ q. ne (q ∙ idc))) in
    let there =
      find_reservation-update_self id f h.reservations cur
        (edited-id dto stay status E.place E.room_type cur cur) E.found in
    SameTables-IsValid _ h' E.tables (
      stamp_new-IsValid id (new_fact cur.status status) (or_else dto.room_id cur.room_id) now h₁
        (f cur) there v₁)
