-- ===== src/Rooms/Kept.antt =====
-- Every request to the rooms keeps them tidy (backend/src/modules/rooms/rooms.service.ts).
use kars_hotel.Base.{
  ℕ, ◌≡◌, refl, sym, ap, ◌∙◌, subst, Bool, not, Option, none, some, List, [], ◌∷◌, ◌==◌, ==_iff,
  ltb, arith, In-find, find-some, select-empty, select-In, In-select, length,
}
use kars_hotel.Base.Text.{Text}
use kars_hotel.Base.Result.{ok, ok-injective, refuse_if-then, or_refuse-then, unit-then, >>=-eq-ok}
use kars_hotel.Hotel.{Reservation, RoomStatus}
use kars_hotel.Rooms.Fund.{
  type_has_rooms, Room, RoomFields, UpdateRoomDto, Fund, is_archived, find_room, room_not_found,
  live_reservations, has_reservations, room_is_archived, deletion_off, number_taken,
  room_type_not_found, find_type, find_number,
}
use kars_hotel.Rooms.Service.{
  new_room, create, edit, update, set_status, live_count, put_away, archive, archive_row, take_back,
  restore, restore_row, remove, of_room, insert_room, created, clashes, check_type, archived_row,
  number_of,
}
use kars_hotel.Rooms.Types.{rooms_of_type, remove_row, remove_type}
use kars_hotel.Rooms.Tidy.{IsTidy, update_room-IsTidy, add_room-IsTidy}

abbrev pub Tidy : Fund → Type 0
Tidy f = IsTidy f.rooms f.reservations f.next_id

pub create-Tidy :
    (number : Text) (dto : RoomFields) (f f' : Fund) (r : Room)
    → Tidy f
    → create number dto f ≡ ok (r, f')
    → Tidy f'
unfolding create new_room
create-Tidy number dto f f' r tidy h =
    let (t, known, rest) =
      or_refuse-then (find_type dto.room_type_id f.room_types) room_type_not_found _ h in
    let (made, inserted, done) =
      >>=-eq-ok (insert_room (find_number number f.rooms) number dto f) _ rest in
    subst Tidy (ap (λ (y : Room × Fund). y.1) (ok-injective _ _ done))
      (go (find_number number f.rooms) made inserted)
  where
    go :
        (o : Option Room) (made : Room × Fund)
        → insert_room o number dto f ≡ ok made
        → Tidy (created made).1
    go (some x) made e = cc
    go none made e =
        subst (λ (m : Room × Fund). Tidy (created m).1) (ok-injective _ _ e)
          (add_room-IsTidy tidy (new_room f.next_id number dto) refl refl)

pub update-Tidy :
    (id : ℕ) (dto : UpdateRoomDto) (f f' : Fund) (r : Room)
    → Tidy f
    → update id dto f ≡ ok (r, f')
    → Tidy f'
unfolding update
update-Tidy id dto f f' r tidy h =
    let (here, h1) = refuse_if-then (archived_row (find_room id f.rooms)) room_is_archived _ h in
    let (known, h2) = unit-then (check_type dto.room_type_id f) _ h1 in
    let (x, found, h3) = or_refuse-then (find_room id f.rooms) room_not_found _ h2 in
    let (free, done) =
      refuse_if-then (clashes id dto.number f.rooms) (number_taken (number_of dto.number)) _ h3 in
    subst Tidy (ap (λ (y : Room × Fund). y.1) (ok-injective _ _ done)) (
      update_room-IsTidy tidy id (edit dto) (λ r. refl)
        (λ r i e a.
          let same : r ≡ x =
            tidy.one r x i (In-find _ f.rooms x found)
              (e ∙ sym ((==_iff x.id id).0 (find-some _ f.rooms x found))) in
          absurd (ground (arith, ap archived_row (sym found) ∙ here, ap is_archived same, a))))

pub set_status-Tidy :
    (id : ℕ) (status : RoomStatus) (f f' : Fund) (r : Room)
    → Tidy f
    → set_status id status f ≡ ok (r, f')
    → Tidy f'
unfolding set_status
set_status-Tidy id status f f' r tidy h =
    let (x, found, done) = or_refuse-then (find_room id f.rooms) room_not_found _ h in
    let left = ap (λ (y : Room × Fund). y.1) (ok-injective _ _ done) in
    subst Tidy left (
      update_room-IsTidy tidy id (λ r. record r { status = status }) (λ r. refl)
        (λ r i e a. tidy.put_off r i a))

pub archive-Tidy :
    (id now : ℕ) (actor : Option ℕ) (f f' : Fund) (at : Option ℕ)
    → Tidy f
    → archive id now actor f ≡ ok (at, f')
    → Tidy f'
unfolding archive
archive-Tidy id now actor f f' at tidy h =
    let (x, found, done) = or_refuse-then (find_room id f.rooms) room_not_found _ h in
    go x.archived_at x done
  where
    go : (o : Option ℕ) (x : Room) → archive_row id now actor x o f ≡ ok (at, f') → Tidy f'
    go (some t) x done = subst Tidy (ap (λ (y : Option ℕ × Fund). y.1) (ok-injective _ _ done)) tidy
    go none x done =
        let n = live_count id f.reservations in
        let (free, put) = refuse_if-then (ltb 0 n) (live_reservations x.number n) _ done in
        subst Tidy (ap (λ (y : Option ℕ × Fund). y.1) (ok-injective _ _ put)) (
          update_room-IsTidy tidy id (put_away now actor) (λ r. refl)
            (λ r i e a. (refl, rw e (ground (arith, free)))))

pub restore-Tidy : (id : ℕ) (f f' : Fund) → Tidy f → restore id f ≡ ok f' → Tidy f'
unfolding restore
restore-Tidy id f f' tidy h =
    let (x, found, done) = or_refuse-then (find_room id f.rooms) room_not_found _ h in
    subst Tidy (ok-injective _ _ done) (go x.archived_at x)
  where
    go : (o : Option ℕ) (x : Room) → Tidy (restore_row id x o f)
    go none x = tidy
    go (some at) x =
        update_room-IsTidy tidy id take_back (λ r. refl) (λ r i e a. absurd (ground (arith, a)))

pub remove-Tidy : (on : Bool) (id : ℕ) (f f' : Fund) → Tidy f → remove on id f ≡ ok f' → Tidy f'
unfolding remove
remove-Tidy on id f f' tidy h =
    let (enabled, h1) = refuse_if-then (not on) deletion_off _ h in
    let (x, found, h2) = or_refuse-then (find_room id f.rooms) room_not_found _ h1 in
    let n = length (of_room id f.reservations) in
    let (empty, done) = refuse_if-then (ltb 0 n) (has_reservations x.number n) _ h2 in
    subst Tidy (ok-injective _ _ done) (record {
      put_off = λ r i a. tidy.put_off r (select-In keep f.rooms r i).0 a;
      one = λ r r' i j e.
          tidy.one r r' (select-In keep f.rooms r i).0 (select-In keep f.rooms r' j).0 e;
      below = λ r i. tidy.below r (select-In keep f.rooms r i).0;
      housed = λ v i.
          let (r, j, e) = tidy.housed v i in
          let apart =
            select-empty (λ (y : Reservation). y.room_id == id) f.reservations v
              (length-zero _ (ground (arith, empty))) i in
          (r, In-select keep f.rooms r j (ground (arith, apart, e)), e);
    })
  where
    keep : Room → Bool
    keep r = not (r.id == id)

    length-zero : (vs : List Reservation) → length vs ≡ 0 → vs ≡ []
    length-zero [] e = refl
    length-zero (v ∷ vs) e = absurd (omega arith)

pub remove_type-Tidy :
    (id now : ℕ) (actor : Option ℕ) (f f' : Fund)
    → Tidy f
    → remove_type id now actor f ≡ ok f'
    → Tidy f'
unfolding remove_type
remove_type-Tidy id now actor f f' tidy h =
    let (t, found, done) = or_refuse-then (find_type id f.room_types) room_type_not_found _ h in
    go t.archived_at done
  where
    go : (o : Option ℕ) → remove_row id now actor o f ≡ ok f' → Tidy f'
    go (some at) done = subst Tidy (ok-injective _ _ done) tidy
    go none done =
        let n = length (rooms_of_type id f.rooms) in
        let (empty, put) = refuse_if-then (ltb 0 n) (type_has_rooms n) _ done in
        subst Tidy (ok-injective _ _ put) tidy
