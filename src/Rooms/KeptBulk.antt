-- ===== src/Rooms/KeptBulk.antt =====
-- The requests for many rooms keep them tidy, and so does any sequence of requests
-- (backend/src/modules/rooms/rooms.service.ts).
use kars_hotel.Base.{
  ℕ, suc, ◌≡◌, refl, sym, ap, ◌∙◌, subst, inl, inr, Bool, true, false, not, Option, List, [], ◌∷◌,
  ◌++◌, ◌==◌, ◌&&◌, arith, In, select, select-In, contains, is_empty, Bool-cases, if◌then◌else◌,
}
use mathlib.Core.List.{append_assoc, append-nil}
use kars_hotel.Base.Text.{Text}
use kars_hotel.Base.Result.{
  Result, ok, err, ◌>>=◌, ok-injective, refuse_if-then, or_refuse-then, >>=-eq-ok,
}
use kars_hotel.Hotel.{Reservation, RoomStatus}
use kars_hotel.Rooms.Fund.{
  Room, RoomFields, UpdateRoomDto, Fund, RoomRefusal, is_archived, room_type_not_found,
  numbers_taken, number_taken, find_type,
}
use kars_hotel.Rooms.Service.{
  new_room, create, update, set_status, archive, restore, remove, live_count, put_away,
}
use kars_hotel.Rooms.Bulk.{
  CreateMany, CreatedMany, create_each, make_rooms, create_many, archive_many, is_fresh, has_number,
  ids_of, note_fresh, taken_of, refuses_existing, numbers_of, skipped_of, skipped_archived_of,
  to_create, asked_rooms, unique_ids,
}
use kars_hotel.Rooms.Types.{remove_type}
use kars_hotel.Rooms.Tidy.{IsTidy, map-IsTidy, add_room-IsTidy}
use kars_hotel.Rooms.Kept.{
  Tidy, create-Tidy, update-Tidy, set_status-Tidy, archive-Tidy, restore-Tidy, remove-Tidy,
  remove_type-Tidy,
}

create_each-IsTidy :
    (ns : List Text) (dto : RoomFields) (rooms : List Room) (vs : List Reservation) (next : ℕ)
    (made : List Room × ℕ)
    → IsTidy rooms vs next
    → create_each ns dto rooms next ≡ ok made
    → IsTidy (rooms ++ made.0) vs made.1
unfolding create_each new_room
create_each-IsTidy [] dto rooms vs next made tidy h =
    let e = ok-injective _ _ h in
    subst (λ (m : List Room × ℕ). IsTidy (rooms ++ m.0) vs m.1) e
      (subst (λ rs. IsTidy rs vs next) (sym (append-nil rooms)) tidy)
create_each-IsTidy (n ∷ ns) dto rooms vs next made tidy h = elim (Bool-cases (has_number n rooms)) [
  | inl y ↦ absurd (clash (sym (if-taken y) ∙ h))
  | inr free ↦
      let r = new_room next n dto in
      let (rest, inner, done) =
        >>=-eq-ok (create_each ns dto (rooms ++ r ∷ []) (suc next)) _ (sym (if-free free) ∙ h) in
      let ih =
        create_each-IsTidy ns dto (rooms ++ r ∷ []) vs (suc next) rest
          (add_room-IsTidy tidy r refl refl) inner in
      subst (λ (m : List Room × ℕ). IsTidy (rooms ++ m.0) vs m.1) (ok-injective _ _ done)
        (subst (λ rs. IsTidy rs vs rest.1) (append_assoc rooms (r ∷ []) rest.0) ih)
]
  where
    clash : ◌≡◌ {A = Result RoomRefusal (List Room × ℕ)} (err (number_taken n)) (ok made) → ⊥
    clash q = cc

    if-taken :
        has_number n rooms ≡ true → create_each (n ∷ ns) dto rooms next ≡ err (number_taken n)
    if-taken y = rw y refl

    if-free :
        has_number n rooms ≡ false
        → create_each (n ∷ ns) dto rooms next ≡ (
            create_each ns dto (rooms ++ new_room next n dto ∷ []) (suc next) >>= λ made.
            ok (new_room next n dto ∷ made.0, made.1))
    if-free free = rw free refl

pub contains-ids_of :
    (n : ℕ) (xs : List Room) → contains n (ids_of xs) ≡ true → (x : Room) × In x xs × (x.id ≡ n)
contains-ids_of n [] h = cc
contains-ids_of n (x ∷ xs) h = elim (Bool-cases (n == x.id)) [
  | inl y ↦ (x, inl refl, ground arith)
  | inr m ↦ let (z, i, e) = contains-ids_of n xs (ground arith) in (z, inr i, e)
]

archive_many-Tidy :
    (ids : List ℕ) (now : ℕ) (actor : Option ℕ) (f : Fund)
    → Tidy f
    → Tidy (archive_many ids now actor f).1
unfolding archive_many
archive_many-Tidy ids now actor f tidy =
    let fresh = select (is_fresh f.reservations) (asked_rooms (unique_ids ids []) f.rooms) in
    noted fresh _ (
      map-IsTidy tidy
        (λ r.
          if contains r.id (ids_of fresh) && not (is_archived r) then put_away now actor r else r)
        (λ r. elim (Bool-cases (contains r.id (ids_of fresh) && not (is_archived r))) [
          | inl y ↦ rw y refl
          | inr n ↦ rw n refl
        ])
        (λ r i a. elim (Bool-cases (contains r.id (ids_of fresh) && not (is_archived r))) [
          | inl y ↦
              let (x, j, e) = contains-ids_of r.id fresh (ground arith) in
              let (k, ok_x) =
                select-In (is_fresh f.reservations) (asked_rooms (unique_ids ids []) f.rooms) x j in
              rw y (refl, ap (λ n. live_count n f.reservations) (sym e) ∙ ground (arith, ok_x))
          | inr n ↦ rw n (tidy.put_off r i (rw n at a))
        ]))
  where
    noted : (rs : List Room) (g : Fund) → Tidy g → Tidy (note_fresh rs g)
    noted [] g t = t
    noted (r ∷ rs) g t = t

create_many-Tidy :
    (dto : CreateMany) (f f' : Fund) (out : CreatedMany)
    → Tidy f
    → create_many dto f ≡ ok (out, f')
    → Tidy f'
unfolding create_many
create_many-Tidy dto f f' out tidy h =
    let numbers = numbers_of dto in
    let (t, known, h1) =
      or_refuse-then (find_type dto.fields.room_type_id f.room_types) room_type_not_found _ h in
    let (wanted, h2) =
      refuse_if-then
        (not (is_empty (taken_of numbers f.rooms)) && refuses_existing dto.skip_existing)
        (numbers_taken (skipped_of numbers f.rooms ++ skipped_archived_of numbers f.rooms)) _ h1 in
    made_of (to_create numbers f.rooms) _ _ h2
  where
    made_of :
        (ns skipped archived : List Text)
        → make_rooms dto.fields.room_type_id dto.fields skipped archived ns f ≡ ok (out, f')
        → Tidy f'
    made_of [] skipped archived e =
        subst Tidy (ap (λ (y : CreatedMany × Fund). y.1) (ok-injective _ _ e)) tidy
    made_of (n ∷ ns) skipped archived e =
        let (made, inner, done) =
          >>=-eq-ok (create_each (n ∷ ns) dto.fields f.rooms f.next_id) _ e in
        subst Tidy (ap (λ (y : CreatedMany × Fund). y.1) (ok-injective _ _ done))
          (create_each-IsTidy (n ∷ ns) dto.fields f.rooms f.reservations f.next_id made tidy inner)

-- A request to the rooms that was answered.
pub data RoomStep (f : Fund) : Fund → Type 0 where
  creating :
      (number : Text) (dto : RoomFields) (r : Room) (f' : Fund)
      → create number dto f ≡ ok (r, f')
      → RoomStep f f'
  creating_many :
      (dto : CreateMany) (out : CreatedMany) (f' : Fund)
      → create_many dto f ≡ ok (out, f')
      → RoomStep f f'
  updating :
      (id : ℕ) (dto : UpdateRoomDto) (r : Room) (f' : Fund)
      → update id dto f ≡ ok (r, f')
      → RoomStep f f'
  setting_status :
      (id : ℕ) (status : RoomStatus) (r : Room) (f' : Fund)
      → set_status id status f ≡ ok (r, f')
      → RoomStep f f'
  archiving :
      (id now : ℕ) (actor at : Option ℕ) (f' : Fund)
      → archive id now actor f ≡ ok (at, f')
      → RoomStep f f'
  archiving_many :
      (ids : List ℕ) (now : ℕ) (actor : Option ℕ) → RoomStep f (archive_many ids now actor f).1
  restoring : (id : ℕ) (f' : Fund) → restore id f ≡ ok f' → RoomStep f f'
  removing_type :
      (id now : ℕ) (actor : Option ℕ) (f' : Fund)
      → remove_type id now actor f ≡ ok f'
      → RoomStep f f'
  removing : (on : Bool) (id : ℕ) (f' : Fund) → remove on id f ≡ ok f' → RoomStep f f'

pub data RoomHistory (f : Fund) : Fund → Type 0 where
  start : RoomHistory f f
  then_step : {g h : Fund} → RoomHistory f g → RoomStep g h → RoomHistory f h

RoomStep-Tidy : {f g : Fund} → RoomStep f g → Tidy f → Tidy g
RoomStep-Tidy {f} (creating number dto r g e) t = create-Tidy number dto f g r t e
RoomStep-Tidy {f} (creating_many dto out g e) t = create_many-Tidy dto f g out t e
RoomStep-Tidy {f} (updating id dto r g e) t = update-Tidy id dto f g r t e
RoomStep-Tidy {f} (setting_status id s r g e) t = set_status-Tidy id s f g r t e
RoomStep-Tidy {f} (archiving id now actor at g e) t = archive-Tidy id now actor f g at t e
RoomStep-Tidy {f} (archiving_many ids now actor) t = archive_many-Tidy ids now actor f t
RoomStep-Tidy {f} (restoring id g e) t = restore-Tidy id f g t e
RoomStep-Tidy {f} (removing_type id now actor g e) t = remove_type-Tidy id now actor f g t e
RoomStep-Tidy {f} (removing on id g e) t = remove-Tidy on id f g t e

pub RoomHistory-Tidy : {f g : Fund} → RoomHistory f g → Tidy f → Tidy g
RoomHistory-Tidy start t = t
RoomHistory-Tidy (then_step past s) t = RoomStep-Tidy s (RoomHistory-Tidy past t)
